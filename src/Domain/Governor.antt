-- ===== src/Domain/Governor.antt =====
-- The write governor: `Governor` and `govern` of mastomini_rs/src/domain/mod.rs.
pub mod Budget
pub mod Window
use mastomini.Prelude.{
  ℕ, zero, suc, ◌+◌, ◌-◌, ◌*◌, ◌/◌, ◌^◌, ◌≤◌, ◌<◌, ◌≡◌, refl, Bool, true, false, ◌||◌, Option, none,
  some, List, [], ◌∷◌, ltb, leb, if◌then◌else◌, replicate, length, get_elem?, Result, ok, err, All,
  arith, Option-cases, Bool-cases, inl, inr,
}
use mastomini.Prelude.Word.{u64_max, saturating_add}
use mastomini.Domain.Base.{literal, Error, too_many, unavailable, max_accounts, hour_ms, Governor}
use mastomini.Domain.Writer.{Service, writable}

abbrev pub per_account_hour : ℕ
per_account_hour = 120

abbrev pub global_hour : ℕ
global_hour = 600

abbrev pub busy : Error
busy = too_many (literal "Too many writes this hour; try again later")

-- `Governor::default()`, with the window's start.
abbrev pub fresh : ℕ → Governor
fresh now_ms = record {
  window_start_ms = now_ms;
  global = 0;
  per_account = replicate max_accounts 0;
}

-- The window is over, or the clock has gone back behind it.
unfoldable pub roll : ℕ → Governor → Governor
roll now_ms g =
    if leb (saturating_add g.window_start_ms hour_ms) now_ms || ltb now_ms g.window_start_ms
    then fresh now_ms
    else g

-- `counts[slot] += 1`
unfoldable pub add_at : ℕ → List ℕ → List ℕ
add_at slot [] = []
add_at zero (n ∷ counts) = suc n ∷ counts
add_at (suc slot) (n ∷ counts) = n ∷ add_at slot counts

-- The two budgets. `none` is the panic of an index out of bounds.
unfoldable pub charge : Option ℕ → Governor → Option (Result Error (Unit {0}) × Governor)
unfolding add_at
charge none g =
    if leb global_hour g.global
    then some (err busy, g)
    else some (ok tt, record g { global = g.global + 1 })
charge (some slot) g =
    if leb global_hour g.global then some (err busy, g) else elim (get_elem? g.per_account slot) [
      | none ↦ none
      | some count ↦
          if leb per_account_hour count
          then some (err busy, g)
          else some
              (ok tt, record g { global = g.global + 1; per_account = add_at slot g.per_account })
    ]

-- `govern` behind `writable`.
unfoldable pub attempt : Option ℕ → ℕ → Governor → Option (Result Error (Unit {0}) × Governor)
unfolding roll charge
attempt slot now_ms g =
    if ltb (u64_max / 2 ^ 16) now_ms
    then some (err (unavailable (literal "Clock out of range")), g)
    else charge slot (roll now_ms g)

unfoldable pub govern :
    {S A : Type 0} → Option ℕ → ℕ → Service S A → Option (Result Error (Unit {0}) × Service S A)
unfolding attempt
govern slot now_ms s = elim (writable s) [
  | err e ↦ some (err e, s)
  | ok _ ↦ elim (attempt slot now_ms s.governor) [
    | none ↦ none
    | some (r, g) ↦ some (r, record s { governor = g })
  ]
]
