-- ===== src/Prelude/Ord.antt =====
-- Rust's `Ord`, as an interface with its laws, and the derived orders.
use Prim.Native.Nat.{ℕ, compare, Ordering}
use mathlib.Core.Path.{◌≡◌, refl}
use mathlib.Core.List.{List, [], ◌∷◌}
use native.Mathlib.Omega.{arith}

-- `Ordering::reverse`
abbrev pub reverse : Ordering → Ordering
reverse Ordering.lt = Ordering.gt
reverse Ordering.eq = Ordering.eq
reverse Ordering.gt = Ordering.lt

pub record Ord {ℓ} (K : Type ℓ) : Type ℓ where
  pub cmp : K → K → Ordering
  pub cmp_refl : (a : K) → cmp a a ≡ Ordering.eq
  pub cmp_eq : (a b : K) → cmp a b ≡ Ordering.eq → a ≡ b
  pub cmp_flip : (a b : K) → cmp b a ≡ reverse (cmp a b)
  pub cmp_trans :
      (a b c : K) → cmp a b ≡ Ordering.lt → cmp b c ≡ Ordering.lt → cmp a c ≡ Ordering.lt

-- `Ordering::then`
abbrev pub then : Ordering → Ordering → Ordering
then Ordering.eq o = o
then Ordering.lt o = Ordering.lt
then Ordering.gt o = Ordering.gt

pub compare_refl : (a : ℕ) → compare a a ≡ Ordering.eq
compare_refl a = ground arith

pub compare_eq : (a b : ℕ) → compare a b ≡ Ordering.eq → a ≡ b
compare_eq a b h = ground arith

pub compare_flip : (a b : ℕ) → compare b a ≡ reverse (compare a b)
compare_flip a b = ground arith

pub compare_trans :
    (a b c : ℕ) → compare a b ≡ Ordering.lt → compare b c ≡ Ordering.lt → compare a c ≡ Ordering.lt
compare_trans a b c h k = ground arith

instance abbrev pub nat_ord : Ord ℕ
nat_ord = record {
  cmp = compare;
  cmp_refl = compare_refl;
  cmp_eq = compare_eq;
  cmp_flip = compare_flip;
  cmp_trans = compare_trans;
}

-- Slices and arrays compare item by item, and a proper prefix comes first.
module _ {ℓ} {K : Type ℓ} ⦃o : Ord K⦄ where
  abbrev pub list_cmp : List K → List K → Ordering
  list_cmp [] [] = Ordering.eq
  list_cmp [] (y ∷ ys) = Ordering.lt
  list_cmp (x ∷ xs) [] = Ordering.gt
  list_cmp (x ∷ xs) (y ∷ ys) = then (o.cmp x y) (list_cmp xs ys)

  pub list_cmp_refl : (xs : List K) → list_cmp xs xs ≡ Ordering.eq
  list_cmp_refl [] = refl
  list_cmp_refl (x ∷ xs) = rw (o.cmp_refl x) (list_cmp_refl xs)

  pub list_cmp_eq : (xs ys : List K) → list_cmp xs ys ≡ Ordering.eq → xs ≡ ys
  list_cmp_eq [] [] h = refl
  list_cmp_eq [] (y ∷ ys) h = cc
  list_cmp_eq (x ∷ xs) [] h = cc
  list_cmp_eq (x ∷ xs) (y ∷ ys) h = ground (arith, o.cmp_eq x y, list_cmp_eq xs ys)

  pub list_cmp_flip : (xs ys : List K) → list_cmp ys xs ≡ reverse (list_cmp xs ys)
  list_cmp_flip [] [] = refl
  list_cmp_flip [] (y ∷ ys) = refl
  list_cmp_flip (x ∷ xs) [] = refl
  list_cmp_flip (x ∷ xs) (y ∷ ys) = ground (arith, o.cmp_flip x y, list_cmp_flip xs ys)

  pub list_cmp_trans :
      (xs ys zs : List K)
      → list_cmp xs ys ≡ Ordering.lt
      → list_cmp ys zs ≡ Ordering.lt
      → list_cmp xs zs ≡ Ordering.lt
  list_cmp_trans [] [] zs h k = cc
  list_cmp_trans [] (y ∷ ys) [] h k = cc
  list_cmp_trans [] (y ∷ ys) (z ∷ zs) h k = refl
  list_cmp_trans (x ∷ xs) [] zs h k = cc
  list_cmp_trans (x ∷ xs) (y ∷ ys) [] h k = cc
  list_cmp_trans (x ∷ xs) (y ∷ ys) (z ∷ zs) h k =
      ground (
        arith,
        o.cmp_eq x y,
        o.cmp_eq y z,
        o.cmp_refl x,
        o.cmp_trans x y z,
        list_cmp_trans xs ys zs,
      )

  instance abbrev pub list_ord : Ord (List K)
  list_ord = record {
    cmp = list_cmp;
    cmp_refl = list_cmp_refl;
    cmp_eq = list_cmp_eq;
    cmp_flip = list_cmp_flip;
    cmp_trans = list_cmp_trans;
  }

-- A pair compares by its first part, then by its second.
module _ {ℓ} {K L : Type ℓ} ⦃o : Ord K⦄ ⦃p : Ord L⦄ where
  abbrev pub pair_cmp : K × L → K × L → Ordering
  pair_cmp a b = then (o.cmp a.0 b.0) (p.cmp a.1 b.1)

  pub pair_cmp_refl : (a : K × L) → pair_cmp a a ≡ Ordering.eq
  pair_cmp_refl a = rw (o.cmp_refl a.0) (p.cmp_refl a.1)

  pub pair_cmp_eq : (a b : K × L) → pair_cmp a b ≡ Ordering.eq → a ≡ b
  pair_cmp_eq a b h = ground (arith, o.cmp_eq a.0 b.0, p.cmp_eq a.1 b.1)

  pub pair_cmp_flip : (a b : K × L) → pair_cmp b a ≡ reverse (pair_cmp a b)
  pair_cmp_flip a b = ground (arith, o.cmp_flip a.0 b.0, p.cmp_flip a.1 b.1)

  pub pair_cmp_trans :
      (a b c : K × L)
      → pair_cmp a b ≡ Ordering.lt
      → pair_cmp b c ≡ Ordering.lt
      → pair_cmp a c ≡ Ordering.lt
  pair_cmp_trans a b c h k = ground (
    arith,
    o.cmp_eq a.0 b.0,
    o.cmp_eq b.0 c.0,
    o.cmp_refl a.0,
    o.cmp_trans a.0 b.0 c.0,
    p.cmp_trans a.1 b.1 c.1,
  )

  instance abbrev pub pair_ord : Ord (K × L)
  pair_ord = record {
    cmp = pair_cmp;
    cmp_refl = pair_cmp_refl;
    cmp_eq = pair_cmp_eq;
    cmp_flip = pair_cmp_flip;
    cmp_trans = pair_cmp_trans;
  }
