-- ===== src/Domain/Governor/Budget.antt =====
-- The governor never panics, and it keeps its budgets.
use mastomini.Prelude.{
  ℕ, zero, suc, ◌+◌, ◌/◌, ◌^◌, ◌≤◌, ◌<◌, ◌≡◌, refl, ◌||◌, Option, none, some, List, [], ◌∷◌, ltb,
  leb, length, get_elem?, Result, ok, err, All, arith, Bool-cases, Result-cases, inl, inr,
}
use mastomini.Prelude.Word.{u64_max, saturating_add}
use mastomini.Domain.Base.{literal, unavailable, Error, max_accounts, hour_ms, Governor}
use mastomini.Domain.Writer.{Service, writable}
use mastomini.Domain.Governor.{
  busy, per_account_hour, global_hour, fresh, roll, add_at, charge, attempt, govern,
}

-- What the governor keeps.
pub record IsWithin (g : Governor) : Type 0 where
  pub budget : g.global ≤ global_hour
  pub slots : length g.per_account ≡ max_accounts
  pub shares : All (λ count. count ≤ per_account_hour) g.per_account

length-add_at : (slot : ℕ) (counts : List ℕ) → length (add_at slot counts) ≡ length counts
unfolding add_at
length-add_at slot [] = refl
length-add_at zero (n ∷ counts) = refl
length-add_at (suc slot) (n ∷ counts) = omega (arith, length-add_at slot counts)

add_at-All :
    (slot : ℕ) (counts : List ℕ) (n : ℕ)
    → get_elem? counts slot ≡ some n
    → n < per_account_hour
    → All (λ count. count ≤ per_account_hour) counts
    → All (λ count. count ≤ per_account_hour) (add_at slot counts)
unfolding add_at
add_at-All slot [] n at small a = tt
add_at-All zero (m ∷ counts) n at small a = (ground arith, a.1)
add_at-All (suc slot) (m ∷ counts) n at small a = (a.0, add_at-All slot counts n at small a.1)

get_elem?-some :
    (counts : List ℕ) (slot : ℕ) → slot < length counts → (n : ℕ) × (get_elem? counts slot ≡ some n)
get_elem?-some [] slot h = absurd (omega arith)
get_elem?-some (n ∷ counts) zero h = (n, refl)
get_elem?-some (n ∷ counts) (suc slot) h = get_elem?-some counts slot (omega arith)

-- A member's slot, or nobody's.
abbrev pub IsSlot : Option ℕ → Type 0
IsSlot none = Unit
IsSlot (some slot) = slot < max_accounts

fresh-IsWithin : (now_ms : ℕ) → IsWithin (fresh now_ms)
fresh-IsWithin now_ms = record { budget = omega arith; slots = refl; shares = ground arith }

roll-IsWithin : (now_ms : ℕ) (g : Governor) → IsWithin g → IsWithin (roll now_ms g)
unfolding roll
roll-IsWithin now_ms g w =
    elim (Bool-cases
      (leb (saturating_add g.window_start_ms hour_ms) now_ms || ltb now_ms g.window_start_ms)) [
        | inl over ↦ rw (over, roll) (fresh-IsWithin now_ms)
        | inr open_still ↦ rw (open_still, roll) w
      ]

-- A call that returns, and keeps the budgets.
abbrev pub Keeps : Option (Result Error (Unit {0}) × Governor) → Type 0
Keeps o = (r : Result Error (Unit {0})) × (g : Governor) × (o ≡ some (r, g)) × IsWithin g

charge-Keeps : (slot : Option ℕ) (g : Governor) → IsSlot slot → IsWithin g → Keeps (charge slot g)
unfolding charge
charge-Keeps none g m w = elim (Bool-cases (leb global_hour g.global)) [
  | inl full ↦ (err busy, g, rw (full, charge) refl, w)
  | inr room ↦ (
    ok tt,
    record g { global = g.global + 1 },
    rw (room, charge) refl,
    record { budget = ground arith; slots = w.slots; shares = w.shares },
  )
]
charge-Keeps (some slot) g m w = elim (Bool-cases (leb global_hour g.global)) [
  | inl full ↦ (err busy, g, rw (full, charge) refl, w)
  | inr room ↦
      let (count, at) = get_elem?-some g.per_account slot (omega (arith, w.slots)) in
      elim (Bool-cases (leb per_account_hour count)) [
        | inl spent ↦ (err busy, g, rw (room, charge) (rw at (rw spent refl)), w)
        | inr left ↦ (
          ok tt,
          record g { global = g.global + 1; per_account = add_at slot g.per_account },
          rw (room, charge) (rw at (rw left refl)),
          record {
            budget = ground arith;
            slots = omega (arith, length-add_at slot g.per_account, w.slots);
            shares = add_at-All slot g.per_account count at (ground arith) w.shares;
          },
        )
      ]
]

attempt-Keeps :
    (slot : Option ℕ) (now_ms : ℕ) (g : Governor)
    → IsSlot slot
    → IsWithin g
    → Keeps (attempt slot now_ms g)
unfolding attempt
attempt-Keeps slot now_ms g m w = elim (Bool-cases (ltb (u64_max / 2 ^ 16) now_ms)) [
  | inl late ↦ (err (unavailable (literal "Clock out of range")), g, rw (late, attempt) refl, w)
  | inr fine ↦
      let (r, g', e, w') = charge-Keeps slot (roll now_ms g) m (roll-IsWithin now_ms g w) in
      (r, g', rw (fine, attempt) e, w')
]

-- For a slot of the account table, or none, and a governor within its budgets, `govern` does not
-- panic, the new governor is within its budgets (the global count, the table of 32 slots, each
-- slot's count), and the store is as before.
pub govern-IsWithin :
    {S A : Type 0} (slot : Option ℕ) (now_ms : ℕ) (s : Service S A)
    → IsSlot slot
    → IsWithin s.governor
    → (r : Result Error (Unit {0})) × (s' : Service S A) × (govern slot now_ms s ≡ some (r, s'))
      × IsWithin s'.governor
      × (s'.store ≡ s.store)
unfolding govern
govern-IsWithin slot now_ms s m w = elim (Result-cases (writable s)) [
  | inl (_, e) ↦
      let (r, g, done, w') = attempt-Keeps slot now_ms s.governor m w in
      (r, record s { governor = g }, rw (e, govern) (rw done refl), w', refl)
  | inr (error, e) ↦ (err error, s, rw (e, govern) refl, w, refl)
]
