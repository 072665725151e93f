-- ===== src/Domain/Keys/Slots.antt =====
-- The letters of slots and of reactions, read back.
use mastomini.Prelude.{
  ℕ, zero, suc, ◌<◌, ◌≡◌, ◌↔◌, refl, Bool, true, false, Option, none, some, List, [], ◌∷◌, ◌==◌,
  arith, Option-cases, Bool-cases, inl, inr,
}
use mastomini.Prelude.Table.{all_below, all_below_at}
use mastomini.Ids.{char_of, position}
use mastomini.Domain.Base.{max_accounts}
use mastomini.Domain.Keys.{slot_digits, slot_digit, parse_slot}

char_at_head :
    (d c i : ℕ) (ds : List ℕ) → (d == c) ≡ true → some 0 ≡ some i → char_of (d ∷ ds) i ≡ c
char_at_head d c zero ds same e = ground arith
char_at_head d c (suc i) ds same e = absurd (cc)

-- What is found at a position stands there.
position-char_at : (c : ℕ) (ds : List ℕ) (i : ℕ) → position c ds ≡ some i → char_of ds i ≡ c
position-char_at c [] i h = cc
position-char_at c (d ∷ ds) i h = elim (Bool-cases (d == c)) [
  | inl here ↦ char_at_head d c i ds here (rw here at h)
  | inr later ↦ elim (Option-cases (position c ds)) [
    | inl missing ↦ absurd (cc (rw (later, missing) at h))
    | inr (j, found) ↦
        let behind : suc j ≡ i = cc (rw (later, found) at h) in
        rw (← behind) (position-char_at c ds j found)
  ]
]

abbrev reads : ℕ → Option ℕ → Bool
reads d none = false
reads d (some i) = i == d

slot_table : all_below 32 (λ d. reads d (position (char_of slot_digits d) slot_digits)) ≡ true
unfolding all_below
slot_table = refl

reads-some : (d : ℕ) (o : Option ℕ) → reads d o ≡ true → o ≡ some d
reads-some d none h = cc
reads-some d (some i) h = ground arith

-- For a slot of the account table and any byte, `parse_slot` reads the byte as the slot exactly
-- when the byte is the slot's letter.
pub parse_slot_iff :
    (slot byte : ℕ) → slot < max_accounts → (parse_slot byte ≡ some slot) ↔ (slot_digit slot ≡ byte)
unfolding parse_slot slot_digit
parse_slot_iff slot byte h = (
  λ e. position-char_at byte slot_digits slot e,
  λ e. rw (← e) (
      reads-some slot (position (char_of slot_digits slot) slot_digits) (
        all_below_at 32 (λ d. reads d (position (char_of slot_digits d) slot_digits)) slot_table
          slot h)),
)
