-- ===== src/Prelude/Text.antt =====
-- Rust's `str` as its characters: `trim`, and the length in UTF-8.
use Prim.Native.Nat.{ℕ, ◌+◌}
use mathlib.Core.Bool.{Bool, true, ◌&&◌, ◌||◌}
use mathlib.Core.List.{List, [], ◌∷◌}
use mastomini.Prelude.Tests.{ltb, leb, ◌==◌, if◌then◌else◌}

abbrev pub Chars : Type 0
Chars = List ℕ

-- `char::is_whitespace`: the property White_Space of Unicode.
abbrev pub is_whitespace : ℕ → Bool
is_whitespace c =
    (leb 9 c && leb c 13)
    || (c == 32)
    || (c == 133)
    || (c == 160)
    || (c == 5760)
    || (leb 8192 c && leb c 8202)
    || (c == 8232)
    || (c == 8233)
    || (c == 8239)
    || (c == 8287)
    || (c == 12288)

abbrev pub is_blank : Chars → Bool
is_blank [] = true
is_blank (c ∷ cs) = is_whitespace c && is_blank cs

abbrev pub trim_start : Chars → Chars
trim_start [] = []
trim_start (c ∷ cs) = let rest = trim_start cs in if is_whitespace c then rest else c ∷ cs

abbrev pub trim_end : Chars → Chars
trim_end [] = []
trim_end (c ∷ cs) =
    let rest = trim_end cs in if is_whitespace c && is_blank cs then [] else c ∷ rest

unfoldable pub trim : Chars → Chars
trim cs = trim_end (trim_start cs)

abbrev char_len : ℕ → ℕ
char_len c = if ltb c 128 then 1 else if ltb c 2048 then 2 else if ltb c 65536 then 3 else 4

-- `str::len`
unfoldable pub byte_len : Chars → ℕ
byte_len [] = 0
byte_len (c ∷ cs) = char_len c + byte_len cs
