-- ===== src/Ids/Text.antt =====
-- `b32` and `from_b32` are inverse to one another.
use native.Mathlib.Nat.{pow-suc}
use mathlib.Core.Path.{subst}
use mathlib.Core.List.{append_assoc, append-nil}
use mastomini.Prelude.{
  ℕ, zero, suc, ◌*◌, ◌+◌, ◌/◌, ◌%◌, ◌^◌, ◌<◌, ◌≡◌, refl, sym, ap, ◌∙◌, Bool, false, true, Option,
  none, some, List, [], ◌∷◌, ◌++◌, arith, ◌==◌, length, length-append, Option-cases, inl, inr,
  Bool-cases,
}
use mastomini.Prelude.Word.{u64_end, checked_add, checked_mul, ◌>>=?◌}
use mastomini.Prelude.Table.{all_below, all_below_at}
use mastomini.Ids.{
  alphabet, b32_len, char_of, b32_slots, b32, position, push_digit, from_b32_bytes, from_b32,
}

-- The digits of a number, most significant first.
abbrev pub digits : ℕ → ℕ → List ℕ
digits zero value = []
digits (suc n) value = digits n (value / 32) ++ (char_of alphabet (value % 32) ∷ [])

pub b32_slots-eq-digits :
    (n value : ℕ) (out : List ℕ) → b32_slots n value out ≡ digits n value ++ out
unfolding b32_slots
b32_slots-eq-digits zero value out = refl
b32_slots-eq-digits (suc n) value out =
    b32_slots-eq-digits n (value / 32) (char_of alphabet (value % 32) ∷ out)
    ∙ sym (append_assoc (digits n (value / 32)) (char_of alphabet (value % 32) ∷ []) out)

pub b32-eq-digits : (id : ℕ) → b32 id ≡ digits b32_len id
unfolding b32
b32-eq-digits id = b32_slots-eq-digits b32_len id [] ∙ append-nil (digits b32_len id)

pub length-digits : (n value : ℕ) → length (digits n value) ≡ n
length-digits zero value = refl
length-digits (suc n) value = omega (
  arith,
  length-append (digits n (value / 32)) (char_of alphabet (value % 32) ∷ []),
  length-digits n (value / 32),
)

abbrev finds : ℕ → Option ℕ → Bool
finds d none = false
finds d (some i) = i == d

position_table : all_below 32 (λ d. finds d (position (char_of alphabet d) alphabet)) ≡ true
unfolding all_below
position_table = refl

position_found : (d : ℕ) (o : Option ℕ) → finds d o ≡ true → o ≡ some d
position_found d none h = cc
position_found d (some i) h = ground arith

pub position-char_of : (d : ℕ) → d < 32 → position (char_of alphabet d) alphabet ≡ some d
position-char_of d h =
    position_found d (position (char_of alphabet d) alphabet)
      (all_below_at 32 (λ i. finds i (position (char_of alphabet i) alphabet)) position_table d h)

from_b32_bytes-append :
    (value : ℕ) (xs ys : List ℕ)
    → from_b32_bytes value (xs ++ ys) ≡ (from_b32_bytes value xs >>=? λ v. from_b32_bytes v ys)
unfolding from_b32_bytes
from_b32_bytes-append value [] ys = refl
from_b32_bytes-append value (x ∷ xs) ys = elim (Option-cases (push_digit value x)) [
  | inl bad ↦ rw bad
  | inr (v, e) ↦ rw e (from_b32_bytes-append v xs ys)
]

push_digit-char_of :
    (value : ℕ)
    → value < u64_end
    → push_digit (value / 32) (char_of alphabet (value % 32)) ≡ some value
push_digit-char_of value h = rw (position-char_of (value % 32) (omega arith)) (ground arith)

-- Reading the digits of a number that they can hold gives the number back.
from_b32_bytes-digits :
    (n value : ℕ)
    → value < 32 ^ n
    → value < u64_end
    → from_b32_bytes 0 (digits n value) ≡ some value
unfolding from_b32_bytes
from_b32_bytes-digits zero value h u = ap some (omega arith)
from_b32_bytes-digits (suc n) value h u =
    let fits : value < 32 * 32 ^ n = omega (arith, h, pow-suc 32 n) in
    rw
      (
        from_b32_bytes-append 0 (digits n (value / 32)) (char_of alphabet (value % 32) ∷ []),
        from_b32_bytes-digits n (value / 32) (omega arith) (omega arith),
      )
      (rw (push_digit-char_of value u))

-- For every 64-bit id, `from_b32` of its text gives the id back.
pub from_b32-b32 : (id : ℕ) → id < u64_end → from_b32 (b32 id) ≡ some id
unfolding from_b32
from_b32-b32 id h = rw (b32-eq-digits id) (from_b32_bytes-digits b32_len id (omega arith) h)

-- The number without its `n` last digits.
abbrev shift : ℕ → ℕ → ℕ
shift zero value = value
shift (suc n) value = shift n (value / 32)

shift_div : (n value : ℕ) → shift n (value / 32) ≡ shift n value / 32
shift_div zero value = refl
shift_div (suc n) value = shift_div n (value / 32)

digits_lead :
    (n value : ℕ) → digits (suc n) value ≡ char_of alphabet (shift n value % 32) ∷ digits n value
digits_lead zero value = refl
digits_lead (suc n) value =
    ap (λ ds. ds ++ (char_of alphabet (value % 32) ∷ [])) (digits_lead n (value / 32))

position_sound :
    (byte i : ℕ) (ds : List ℕ) → position byte ds ≡ some i → (char_of ds i ≡ byte) × (i < length ds)
position_sound byte i [] h = cc
position_sound byte zero (d ∷ ds) h = ground (arith)
position_sound byte (suc i) (d ∷ ds) h = ground (arith, position_sound byte i ds)

push_digit_sound :
    (value byte v : ℕ)
    → push_digit value byte ≡ some v
    → (v / 32 ≡ value) × (char_of alphabet (v % 32) ≡ byte)
push_digit_sound value byte v h = elim (Option-cases (position byte alphabet)) [
  | inl bad ↦ absurd (cc (rw bad at h))
  | inr (i, e) ↦
      let (found, below) = position_sound byte i alphabet e in
      let sum = pushed value i v (rw e at h) in
      (omega arith, let low : v % 32 ≡ i = omega arith in rw low found)
]
  where
    pushed :
        (value i v : ℕ)
        → (checked_mul value 32 >>=? λ shifted. checked_add shifted i) ≡ some v
        → v ≡ value * 32 + i
    pushed value i v h = ground arith

from_b32_bytes_sound :
    (value : ℕ) (text : List ℕ) (id : ℕ)
    → from_b32_bytes value text ≡ some id
    → (shift (length text) id ≡ value) × (digits (length text) id ≡ text)
unfolding from_b32_bytes
from_b32_bytes_sound value [] id h = (ground arith, refl)
from_b32_bytes_sound value (byte ∷ text) id h = elim (Option-cases (push_digit value byte)) [
  | inl bad ↦ absurd (cc (rw bad at h))
  | inr (v, e) ↦
      let (lead, rest) = from_b32_bytes_sound v text id (rw e at h) in
      let (above, last) = push_digit_sound value byte v e in
      (
        shift_div (length text) id ∙ ap (λ n. n / 32) lead ∙ above,
        rw (digits_lead (length text) id, lead, last, rest),
      )
]

-- If `from_b32` reads a text as an id, `b32` writes that id as the same text: no other text
-- stands for it.
pub b32-from_b32 : (text : List ℕ) (id : ℕ) → from_b32 text ≡ some id → b32 id ≡ text
unfolding from_b32
b32-from_b32 text id h = elim (Bool-cases (length text == b32_len)) [
  | inl fits ↦
      let len : length text ≡ b32_len = ground arith in
      b32-eq-digits id
      ∙ subst (λ n. digits n id ≡ text) len (from_b32_bytes_sound 0 text id (rw fits at h)).1
  | inr bad ↦ absurd (cc (rw bad at h))
]
