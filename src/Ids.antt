-- ===== src/Ids.antt =====
-- mastomini_rs/src/ids.rs: ids from the clock, and their text in store keys. `u64` values are
-- naturals; what does not fit is tested where the source tests it.
pub mod Clock
pub mod Text
pub mod Order
mod Tests
use Prim.Native.Nat.{max}
use mastomini.Prelude.{
  ℕ, zero, suc, ◌+◌, ◌*◌, ◌/◌, ◌%◌, ◌^◌, Option, none, some, List, [], ◌∷◌, ◌==◌, if◌then◌else◌,
  length,
}
use mastomini.Prelude.Word.{checked_add, checked_mul, ◌>>=?◌}

-- b"0123456789ABCDEFGHJKMNPQRSTVWXYZ"
abbrev pub alphabet : List ℕ
alphabet =
    48 ∷ 49 ∷ 50 ∷ 51 ∷ 52 ∷ 53 ∷ 54 ∷ 55 ∷ 56 ∷ 57 ∷ 65 ∷ 66 ∷ 67 ∷ 68 ∷ 69 ∷ 70 ∷ 71 ∷ 72 ∷ 74
    ∷ 75 ∷ 77 ∷ 78 ∷ 80 ∷ 81 ∷ 82 ∷ 83 ∷ 84 ∷ 86 ∷ 87 ∷ 88 ∷ 89 ∷ 90 ∷ []

abbrev pub b32_len : ℕ
b32_len = 13

pub record IdGen : Type 0 where
  pub last : ℕ

unfoldable pub observe : ℕ → IdGen → IdGen
observe id gen = record { last = max gen.last id }

-- The two `?` come before the write to `last`.
unfoldable pub next : ℕ → IdGen → Option ℕ × IdGen
next now_ms gen = elim (checked_mul now_ms (2 ^ 16)) [
  | none ↦ (none, gen)
  | some candidate ↦ elim (checked_add gen.last 1) [
    | none ↦ (none, gen)
    | some least ↦ (some (max candidate least), record { last = max candidate least })
  ]
]

unfoldable pub millis : ℕ → ℕ
millis id = id / 2 ^ 16

-- Indexing; the source masks the index with 31, so it never panics.
abbrev pub char_of : List ℕ → ℕ → ℕ
char_of [] i = 0
char_of (c ∷ cs) zero = c
char_of (c ∷ cs) (suc i) = char_of cs i

-- The loop of `b32`, from the last slot to the first; `out` is what stands behind it.
unfoldable pub b32_slots : ℕ → ℕ → List ℕ → List ℕ
b32_slots zero value out = out
b32_slots (suc n) value out = b32_slots n (value / 32) (char_of alphabet (value % 32) ∷ out)

unfoldable pub b32 : ℕ → List ℕ
unfolding b32_slots
b32 id = b32_slots b32_len id []

-- `iter().position(..)`
abbrev pub position : ℕ → List ℕ → Option ℕ
position c [] = none
position c (d ∷ ds) = if d == c then some 0 else (position c ds >>=? λ i. some (suc i))

abbrev pub push_digit : ℕ → ℕ → Option ℕ
push_digit value byte = position byte alphabet >>=? λ digit.
    checked_mul value 32 >>=? λ shifted. checked_add shifted digit

unfoldable pub from_b32_bytes : ℕ → List ℕ → Option ℕ
from_b32_bytes value [] = some value
from_b32_bytes value (byte ∷ rest) = push_digit value byte >>=? λ v. from_b32_bytes v rest

unfoldable pub from_b32 : List ℕ → Option ℕ
unfolding from_b32_bytes
from_b32 text = if length text == b32_len then from_b32_bytes 0 text else none
