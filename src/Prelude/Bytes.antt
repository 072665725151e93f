-- ===== src/Prelude/Bytes.antt =====
-- Byte strings: Rust's `&str` is a list of bytes that is UTF-8; slices, and little-endian words.
pub mod Laws
use Prim.Native.Nat.{ℕ, zero, suc, ◌+◌, ◌*◌, ◌/◌, ◌%◌, ◌^◌}
use mathlib.Core.Bool.{Bool, true, false, ◌&&◌, ◌||◌}
use mathlib.Core.Option.{Option, none, some}
use mathlib.Core.List.{List, [], ◌∷◌}
use mastomini.Prelude.Tests.{ltb, leb, ◌==◌, if◌then◌else◌}
use mastomini.Prelude.Lists.{length, take, drop}

abbrev pub Bytes : Type 0
Bytes = List ℕ

-- `u8::is_ascii_graphic`
abbrev pub is_graphic : ℕ → Bool
is_graphic b = leb 33 b && leb b 126

-- After a lead byte: how many bytes follow, and the range of the first of them. The others are
-- continuation bytes, 0x80 to 0xBF.
pub record Lead : Type 0 where
  pub follow : ℕ
  pub low : ℕ
  pub high : ℕ

unfoldable pub lead : ℕ → Option Lead
lead b =
    if ltb b 0x80
    then some (record { follow = 0; low = 0x80; high = 0xBF })
    else if ltb b 0xC2
    then none
    else if leb b 0xDF
    then some (record { follow = 1; low = 0x80; high = 0xBF })
    else if b == 0xE0
    then some (record { follow = 2; low = 0xA0; high = 0xBF })
    else if b == 0xED
    then some (record { follow = 2; low = 0x80; high = 0x9F })
    else if leb b 0xEF
    then some (record { follow = 2; low = 0x80; high = 0xBF })
    else if b == 0xF0
    then some (record { follow = 3; low = 0x90; high = 0xBF })
    else if leb b 0xF3
    then some (record { follow = 3; low = 0x80; high = 0xBF })
    else if b == 0xF4
    then some (record { follow = 3; low = 0x80; high = 0x8F })
    else none

-- What is expected next, after `need` more bytes of a character.
unfoldable pub utf8_from : ℕ → ℕ → ℕ → Bytes → Bool
utf8_from zero low high [] = true
utf8_from (suc need) low high [] = false
utf8_from zero low high (b ∷ bs) = elim (lead b) [
  | none ↦ false
  | some l ↦ utf8_from l.follow l.low l.high bs
]
utf8_from (suc need) low high (b ∷ bs) = elim (leb low b && leb b high) [
  | true ↦ utf8_from need 0x80 0xBF bs
  | false ↦ false
]

-- Does `core::str::from_utf8` succeed?
unfoldable pub is_utf8 : Bytes → Bool
unfolding utf8_from lead
is_utf8 bs = utf8_from 0 0x80 0xBF bs

-- `==` on slices
abbrev pub bytes_eq : Bytes → Bytes → Bool
bytes_eq [] [] = true
bytes_eq [] (c ∷ cs) = false
bytes_eq (b ∷ bs) [] = false
bytes_eq (b ∷ bs) (c ∷ cs) = b == c && bytes_eq bs cs

-- `slice.get(..end)` and `slice.get(start..end)`
abbrev pub get_to : ℕ → Bytes → Option Bytes
get_to end bs = if leb end (length bs) then some (take end bs) else none

abbrev pub get_range : ℕ → ℕ → Bytes → Option Bytes
get_range start end bs =
    if leb start end
    then (elim (get_to end bs) [ none ↦ none | some b ↦ some (drop start b) ])
    else none

-- `(n as u32).to_le_bytes()`: the bytes of `n` modulo 2^32.
abbrev pub le32 : ℕ → Bytes
le32 n = n % 256 ∷ n / 256 % 256 ∷ n / 65536 % 256 ∷ n / 16777216 % 256 ∷ []

-- `u32::from_le_bytes`; a slice of another length counts as zeros, `unwrap_or([0; 4])`.
abbrev pub from_le32 : Bytes → ℕ
from_le32 (a ∷ b ∷ c ∷ d ∷ []) = a + b * 256 + c * 65536 + d * 16777216
from_le32 _ = 0
