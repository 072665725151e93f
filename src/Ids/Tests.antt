-- ===== src/Ids/Tests.antt =====
-- The ids at concrete inputs.
use mastomini.Prelude.{
  ℕ, ◌+◌, ◌*◌, ◌^◌, ◌≤◌, ◌<◌, ◌≡◌, refl, ◌↔◌, ◌⊎◌, none, some, List, [], ◌∷◌, arith, All, compare,
}
use mastomini.Prelude.Word.{u64_end}
use mastomini.Prelude.Ord.{list_cmp, nat_ord}
use mastomini.Ids.{IdGen, next, b32, from_b32}
use mastomini.Ids.Clock.{
  next_fresh, next_fails, Call, seen, issue, run, IsIncreasing, run-IsIncreasing,
}
use mastomini.Ids.Text.{from_b32-b32, b32-from_b32}
use mastomini.Ids.Order.{b32-cmp}

-- A generator ahead of the clock.
abbrev ahead : IdGen
ahead = record { last = 131072 }

next-ahead : (next 1 ahead).0 ≡ some 131073
unfolding next
next-ahead = refl

next_fresh_example :
    (131072 < 131073)
    × (1 * 2 ^ 16 ≤ 131073)
    × (131073 < u64_end)
    × ((next 1 ahead).1.last ≡ 131073)
next_fresh_example = next_fresh 1 ahead next-ahead

next_fails_example :
    ((next (2 ^ 48) ahead).0 ≡ none) ↔ ((u64_end ≤ 2 ^ 48 * 2 ^ 16) ⊎ (u64_end ≤ 131072 + 1))
next_fails_example = next_fails (2 ^ 48) ahead

abbrev calls : List Call
calls = issue 1 ∷ seen 500000 ∷ issue 2 ∷ issue 3 ∷ issue 90 ∷ []

run-IsIncreasing_example :
    All (λ later. 131072 < later) (run calls ahead) × IsIncreasing (run calls ahead)
run-IsIncreasing_example = run-IsIncreasing calls ahead

from_b32-b32_example : from_b32 (b32 (2 ^ 63 + 5)) ≡ some (2 ^ 63 + 5)
from_b32-b32_example = from_b32-b32 (2 ^ 63 + 5) (omega arith)

-- "0000000000031", the text of 97
abbrev text_97 : List ℕ
text_97 = 48 ∷ 48 ∷ 48 ∷ 48 ∷ 48 ∷ 48 ∷ 48 ∷ 48 ∷ 48 ∷ 48 ∷ 48 ∷ 51 ∷ 49 ∷ []

from_b32-97 : from_b32 text_97 ≡ some 97
unfolding from_b32
from_b32-97 = refl

b32-from_b32_example : b32 97 ≡ text_97
b32-from_b32_example = b32-from_b32 text_97 97 from_b32-97

b32-cmp_example : list_cmp (b32 31) (b32 32) ≡ compare 31 32
b32-cmp_example = b32-cmp 31 32 (omega arith) (omega arith)
