-- ===== src/Domain/Governor/Window.antt =====
-- How many writes the governor grants within one window.
use mastomini.Prelude.{
  ℕ, ◌+◌, ◌/◌, ◌^◌, ◌≤◌, ◌<◌, ◌≡◌, refl, false, Option, none, some, List, [], ◌∷◌, ltb, leb,
  get_elem?, Result, ok, err, All, arith, Option-cases, Bool-cases, inl, inr,
}
use mastomini.Prelude.Word.{u64_max}
use mastomini.Domain.Base.{Error, hour_ms, Governor}
use mastomini.Domain.Governor.{global_hour, per_account_hour, roll, charge, attempt}

abbrev pub counts : Result Error (Unit {0}) → ℕ
counts (ok _) = 1
counts (err _) = 0

abbrev and_then : Option (Result Error (Unit {0}) × Governor) → (Governor → ℕ) → ℕ
and_then none rest = 0
and_then (some (r, g)) rest = counts r + rest g

-- How many of some calls, each by its slot and its time, are granted.
unfoldable pub granted : List (Option ℕ × ℕ) → Governor → ℕ
granted [] g = 0
granted (call ∷ calls) g = and_then (attempt call.0 call.1 g) (λ g'. granted calls g')

-- The time lies in the hour of the window.
abbrev pub IsOpen : ℕ → ℕ → Type 0
IsOpen start now_ms = (start ≤ now_ms) × (now_ms < start + hour_ms)

roll-open :
    (now_ms : ℕ) (g : Governor)
    → IsOpen g.window_start_ms now_ms
    → ltb (u64_max / 2 ^ 16) now_ms ≡ false
    → roll now_ms g ≡ g
unfolding roll
roll-open now_ms g h fits = ground arith

-- A call that returns in an open window counts what it grants, up to the budget.
abbrev Counts : Governor → Option (Result Error (Unit {0}) × Governor) → Type 0
Counts g none = Unit
Counts g (some (r, g')) =
    (g'.window_start_ms ≡ g.window_start_ms)
    × (g'.global ≡ g.global + counts r)
    × (g.global ≤ global_hour → g'.global ≤ global_hour)

charge-Counts : (slot : Option ℕ) (g : Governor) → Counts g (charge slot g)
unfolding charge
charge-Counts none g = elim (Bool-cases (leb global_hour g.global)) [
  | inl full ↦ rw (full, charge) (refl, omega arith, λ h. h)
  | inr room ↦ rw (room, charge) (refl, refl, λ h. ground arith)
]
charge-Counts (some slot) g = elim (Bool-cases (leb global_hour g.global)) [
  | inl full ↦ rw (full, charge) (refl, omega arith, λ h. h)
  | inr room ↦
      rw (room, charge)
        (elim (Option-cases (get_elem? g.per_account slot)) [
          | inl out ↦ rw out tt
          | inr (count, at) ↦ rw at (elim (Bool-cases (leb per_account_hour count)) [
            | inl spent ↦ rw spent (refl, omega arith, λ h. h)
            | inr left ↦ rw left (refl, refl, λ h. ground arith)
          ])
        ])
]

attempt-Counts :
    (slot : Option ℕ) (now_ms : ℕ) (g : Governor)
    → IsOpen g.window_start_ms now_ms
    → Counts g (attempt slot now_ms g)
unfolding attempt
attempt-Counts slot now_ms g h = elim (Bool-cases (ltb (u64_max / 2 ^ 16) now_ms)) [
  | inl late ↦ rw (late, attempt) (refl, omega arith, λ b. b)
  | inr fine ↦ rw (fine, attempt) (rw (roll-open now_ms g h fine) (charge-Counts slot g))
]

-- For calls of the governor whose times all lie within the hour of the window that is open, and a
-- count within the global budget: the number of calls granted and the count at the start are
-- together within the global budget.
pub granted-budget :
    (calls : List (Option ℕ × ℕ)) (g : Governor)
    → All (λ call. IsOpen g.window_start_ms call.1) calls
    → g.global ≤ global_hour
    → granted calls g + g.global ≤ global_hour
unfolding granted
granted-budget [] g a h = omega arith
granted-budget ((slot, now_ms) ∷ calls) g a h =
    go (attempt slot now_ms g) (attempt-Counts slot now_ms g a.0) (λ g'. granted-budget calls g')
  where
    go :
        (o : Option (Result Error (Unit {0}) × Governor))
        → Counts g o
        → ((g' : Governor)
            → All (λ call. IsOpen g'.window_start_ms call.1) calls
            → g'.global ≤ global_hour
            → granted calls g' + g'.global ≤ global_hour)
        → and_then o (λ g'. granted calls g') + g.global ≤ global_hour
    go none c ih = omega arith
    go (some (r, g')) (window, counted, within) ih =
        let rest = ih g' (rw window a.1) (within h) in omega arith
