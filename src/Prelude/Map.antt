-- ===== src/Prelude/Map.antt =====
-- `BTreeMap`: entries in the order of their keys. The laws of single operations hold of any entry
-- list; those of iteration (`Map/Order.antt`) are about lists in order.
pub mod Order
use mathlib.Core.Bool.{Bool, true, false}
use mathlib.Core.Path.{◌≡◌, refl}
use mathlib.Core.Option.{Option, none, some}
use mathlib.Core.List.{List, [], ◌∷◌, map}
use Prim.Native.Nat.{Ordering}
use native.Mathlib.Omega.{arith}
use mastomini.Prelude.Tests.{if◌then◌else◌}
use mastomini.Prelude.Ord.{Ord}

abbrev pub Map {ℓ} : Type ℓ → Type ℓ → Type ℓ
Map K V = List (K × V)

module _ {ℓ} {K : Type ℓ} ⦃o : Ord K⦄ where
  abbrev pub same : K → K → Bool
  same a b = elim (o.cmp a b) [ Ordering.eq ↦ true | _ ↦ false ]

  pub same_refl : (a : K) → same a a ≡ true
  same_refl a = rw (o.cmp_refl a, same)

  pub same_eq : (a b : K) → same a b ≡ true → a ≡ b
  same_eq a b h = ground (arith, o.cmp_eq a b)

module _ {ℓ} {K V : Type ℓ} ⦃o : Ord K⦄ where
  unfoldable pub get : K → Map K V → Option V
  get k [] = none
  get k ((j, w) ∷ m) = if same j k then some w else get k m

  unfoldable pub insert : K → V → Map K V → Map K V
  insert k v [] = (k, v) ∷ []
  insert k v ((j, w) ∷ m) = elim (o.cmp k j) [
    | Ordering.lt ↦ (k, v) ∷ (j, w) ∷ m
    | Ordering.eq ↦ (k, v) ∷ m
    | Ordering.gt ↦ (j, w) ∷ insert k v m
  ]

  unfoldable pub remove : K → Map K V → Map K V
  remove k [] = []
  remove k ((j, w) ∷ m) = let rest = remove k m in if same j k then rest else (j, w) ∷ rest

  unfoldable pub contains_key : K → Map K V → Bool
  contains_key k m = elim (get k m) [ none ↦ false | some _ ↦ true ]

  pub get-insert :
      (k j : K) (v : V) (m : Map K V)
      → get j (insert k v m) ≡ (if same k j then some v else get j m)
  unfolding get insert
  get-insert k j v [] = refl
  get-insert k j v ((i, w) ∷ m) =
      ground (arith, get-insert k j v m, o.cmp_eq k i, o.cmp_eq i j, o.cmp_eq k j, o.cmp_refl j)

  pub get-remove :
      (k j : K) (m : Map K V) → get j (remove k m) ≡ (if same k j then none else get j m)
  unfolding get remove
  get-remove k j [] = ground arith
  get-remove k j ((i, w) ∷ m) =
      ground (arith, get-remove k j m, o.cmp_eq k j, o.cmp_eq i j, o.cmp_eq i k, o.cmp_refl j)

  pub get-insert_self : (k : K) (v : V) (m : Map K V) → get k (insert k v m) ≡ some v
  get-insert_self k v m = rw get-insert (rw (same_refl k))

  pub get-remove_self : (k : K) (m : Map K V) → get k (remove k m) ≡ none
  get-remove_self k m = rw get-remove (rw (same_refl k))
