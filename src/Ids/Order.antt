-- ===== src/Ids/Order.antt =====
-- The text of ids sorts as the ids do.
use mastomini.Prelude.{
  ℕ, zero, suc, ◌/◌, ◌%◌, ◌^◌, ◌<◌, ◌≡◌, ◌∙◌, refl, sym, Bool, false, true, List, [], ◌∷◌, ◌++◌,
  arith, length, compare, Ordering,
}
use native.Mathlib.Nat.{pow-suc}
use mastomini.Prelude.Word.{u64_end}
use mastomini.Prelude.Table.{all_below, all_below_at}
use mastomini.Prelude.Ord.{list_cmp, then, nat_ord}
use mastomini.Ids.{alphabet, b32_len, char_of, b32}
use mastomini.Ids.Text.{digits, b32-eq-digits, length-digits}

abbrev agree : Ordering → Ordering → Bool
agree Ordering.lt Ordering.lt = true
agree Ordering.eq Ordering.eq = true
agree Ordering.gt Ordering.gt = true
agree _ _ = false

agree_eq : (o p : Ordering) → agree o p ≡ true → o ≡ p
agree_eq o p h = ground arith

order_table :
    all_below 32 (λ d.
      all_below 32 (λ e. agree (compare (char_of alphabet d) (char_of alphabet e)) (compare d e)))
    ≡ true
unfolding all_below
order_table = refl

char_of-compare :
    (d e : ℕ) → d < 32 → e < 32 → compare (char_of alphabet d) (char_of alphabet e) ≡ compare d e
char_of-compare d e hd he =
    agree_eq _ _ (all_below_at 32 _ (all_below_at 32 _ order_table d hd) e he)

list_cmp-snoc :
    (xs ys : List ℕ) (x y : ℕ)
    → length xs ≡ length ys
    → list_cmp (xs ++ (x ∷ [])) (ys ++ (y ∷ [])) ≡ then (list_cmp xs ys) (compare x y)
list_cmp-snoc [] [] x y h = ground arith
list_cmp-snoc [] (b ∷ ys) x y h = absurd (omega arith)
list_cmp-snoc (a ∷ xs) [] x y h = absurd (omega arith)
list_cmp-snoc (a ∷ xs) (b ∷ ys) x y h = ground (arith, list_cmp-snoc xs ys x y)

digits-cmp :
    (n a b : ℕ) → a < 32 ^ n → b < 32 ^ n → list_cmp (digits n a) (digits n b) ≡ compare a b
digits-cmp zero a b ha hb = ground arith
digits-cmp (suc n) a b ha hb =
    let fa : a / 32 < 32 ^ n = omega (arith, ha, pow-suc 32 n) in
    let fb : b / 32 < 32 ^ n = omega (arith, hb, pow-suc 32 n) in
    list_cmp-snoc (digits n (a / 32)) (digits n (b / 32)) (char_of alphabet (a % 32))
      (char_of alphabet (b % 32)) (length-digits n (a / 32) ∙ sym (length-digits n (b / 32)))
    ∙ rw
        (
          digits-cmp n (a / 32) (b / 32) fa fb,
          char_of-compare (a % 32) (b % 32) (omega arith) (omega arith),
        )
        (ground arith)

-- For two 64-bit ids, comparing their texts byte by byte gives the order of the ids.
pub b32-cmp : (a b : ℕ) → a < u64_end → b < u64_end → list_cmp (b32 a) (b32 b) ≡ compare a b
b32-cmp a b ha hb =
    rw (b32-eq-digits a, b32-eq-digits b) (digits-cmp b32_len a b (omega arith) (omega arith))
