-- ===== src/Prelude/Map/Order.antt =====
-- Entries in the order of their keys: each operation keeps it, and sums over the entries.
use Prim.Native.Nat.{ℕ, ◌+◌, Ordering}
use mathlib.Core.Path.{◌≡◌, refl}
use mathlib.Core.Option.{Option, none, some}
use mathlib.Core.List.{[], ◌∷◌}
use native.Mathlib.Omega.{arith}
use mastomini.Prelude.Ord.{Ord}
use mastomini.Prelude.Map.{Map, get, insert, remove}

abbrev pub weight_of {ℓ} : {V : Type ℓ} → (V → ℕ) → Option V → ℕ
weight_of weight none = 0
weight_of weight (some v) = weight v

abbrev pub sum {ℓ} : {K V : Type ℓ} → (V → ℕ) → Map K V → ℕ
sum weight [] = 0
sum weight ((_, v) ∷ m) = weight v + sum weight m

module _ {ℓ} {K V : Type ℓ} ⦃o : Ord K⦄ where
  -- `k` comes before every key.
  abbrev pub IsBelow : K → Map K V → Type ℓ
  IsBelow k [] = Unit
  IsBelow k ((j, _) ∷ m) = (o.cmp k j ≡ Ordering.lt) × IsBelow k m

  abbrev pub IsSorted : Map K V → Type ℓ
  IsSorted [] = Unit
  IsSorted ((k, _) ∷ m) = IsBelow k m × IsSorted m

  pub IsBelow-trans : (i k : K) (m : Map K V) → o.cmp i k ≡ Ordering.lt → IsBelow k m → IsBelow i m
  IsBelow-trans i k [] h b = tt
  IsBelow-trans i k ((j, w) ∷ m) h b = (o.cmp_trans i k j h b.0, IsBelow-trans i k m h b.1)

  pub IsBelow-insert :
      (i k : K) (v : V) (m : Map K V)
      → o.cmp i k ≡ Ordering.lt
      → IsBelow i m
      → IsBelow i (insert k v m)
  unfolding insert
  IsBelow-insert i k v [] h b = (h, tt)
  IsBelow-insert i k v ((j, w) ∷ m) h b = ground (arith, IsBelow-insert i k v m h b.1)

  pub IsBelow-remove : (i k : K) (m : Map K V) → IsBelow i m → IsBelow i (remove k m)
  unfolding remove
  IsBelow-remove i k [] b = tt
  IsBelow-remove i k ((j, w) ∷ m) b = ground (arith, IsBelow-remove i k m b.1)

  pub insert-IsSorted : (k : K) (v : V) (m : Map K V) → IsSorted m → IsSorted (insert k v m)
  unfolding insert
  insert-IsSorted k v [] s = (tt, tt)
  insert-IsSorted k v ((j, w) ∷ m) s = ground (
    arith,
    o.cmp_eq k j,
    o.cmp_flip k j,
    IsBelow-trans k j m,
    IsBelow-insert j k v m,
    insert-IsSorted k v m s.1,
  )

  pub remove-IsSorted : (k : K) (m : Map K V) → IsSorted m → IsSorted (remove k m)
  unfolding remove
  remove-IsSorted k [] s = tt
  remove-IsSorted k ((j, w) ∷ m) s =
      ground (arith, IsBelow-remove j k m s.0, remove-IsSorted k m s.1)

  -- A key below all others is not there.
  pub get-IsBelow : (k : K) (m : Map K V) → IsBelow k m → get k m ≡ none
  unfolding get
  get-IsBelow k [] b = refl
  get-IsBelow k ((j, w) ∷ m) b = ground (arith, o.cmp_eq j k, o.cmp_refl k, get-IsBelow k m b.1)

  pub remove-IsBelow : (k : K) (m : Map K V) → IsBelow k m → remove k m ≡ m
  unfolding remove
  remove-IsBelow k [] b = refl
  remove-IsBelow k ((j, w) ∷ m) b =
      ground (arith, o.cmp_eq j k, o.cmp_refl k, remove-IsBelow k m b.1)

  module _ (weight : V → ℕ) where
    pub sum-insert :
        (k : K) (v : V) (m : Map K V)
        → IsSorted m
        → sum weight (insert k v m) + weight_of weight (get k m) ≡ sum weight m + weight v
    unfolding insert get
    sum-insert k v [] s = omega arith
    sum-insert k v ((j, w) ∷ m) s = ground (
      arith,
      o.cmp_eq j k,
      o.cmp_eq k j,
      o.cmp_refl k,
      get-IsBelow k m,
      IsBelow-trans k j m,
      sum-insert k v m s.1,
    )

    pub sum-remove :
        (k : K) (m : Map K V)
        → IsSorted m
        → sum weight (remove k m) + weight_of weight (get k m) ≡ sum weight m
    unfolding remove get
    sum-remove k [] s = omega arith
    sum-remove k ((j, w) ∷ m) s =
        ground (
          arith,
          o.cmp_eq j k,
          o.cmp_refl k,
          remove-IsBelow k m,
          get-IsBelow k m,
          sum-remove k m s.1,
        )
