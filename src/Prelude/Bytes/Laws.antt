-- ===== src/Prelude/Bytes/Laws.antt =====
-- ASCII is UTF-8, and words read back as they were written.
use Prim.Native.Nat.{ℕ, ◌^◌, ◌<◌}
use mathlib.Core.Path.{◌≡◌, refl}
use mathlib.Core.Bool.{true}
use mathlib.Core.List.{[], ◌∷◌}
use native.Mathlib.Omega.{arith}
use mastomini.Prelude.Lists.{all}
use mastomini.Prelude.Bytes.{Bytes, is_graphic, is_utf8, lead, utf8_from, le32, from_le32}

utf8_from-graphic : (bs : Bytes) → all is_graphic bs ≡ true → utf8_from 0 0x80 0xBF bs ≡ true
unfolding utf8_from lead
utf8_from-graphic [] h = refl
utf8_from-graphic (b ∷ bs) h = ground (arith, utf8_from-graphic bs)

pub is_utf8-graphic : (bs : Bytes) → all is_graphic bs ≡ true → is_utf8 bs ≡ true
unfolding is_utf8
is_utf8-graphic bs h = utf8_from-graphic bs h

pub from_le32-le32 : (n : ℕ) → n < 2 ^ 32 → from_le32 (le32 n) ≡ n
from_le32-le32 n h = omega arith
