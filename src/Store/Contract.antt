-- ===== src/Store/Contract.antt =====
-- What the `Store` trait promises, over the abstract view of a store as a partial function.
use mastomini.Prelude.{
  false, true, Bool, List, [], ◌≡◌, ◌⊎◌, Option, none, some, if◌then◌else◌, Result, ok, err,
}
use mastomini.Prelude.Bytes.{Bytes}
use mastomini.Prelude.Map.{same, get}
use mastomini.Store.Base.{Ns, StoreError, bad_key, value_too_large, full, io, corrupt}
use mastomini.Store.Key.{Key, key_new}
use mastomini.Store.Key.Order.{slot_ord, key_ord}
use mastomini.Store.Trait.{Store, Visitor, push_entry, walk, load}

-- What a store holds: the value of each key of each namespace.
abbrev pub View : Type 0
View = Ns × Key → Option Bytes

-- The fields of `Key` are private: every key comes from `Key::new`.
abbrev pub IsKey : Key → Type 0
IsKey k = (text : Bytes) × (key_new text ≡ ok k)

abbrev pub Unchanged : View → View → Type 0
Unchanged v w = (at : Ns × Key) → w at ≡ v at

abbrev pub Updated : Ns × Key → Option Bytes → View → View → Type 0
Updated slot o v w = (at : Ns × Key) → w at ≡ (if same slot at then o else v at)

-- Atomic per key, and durable when it succeeds: an acknowledged write is there; one that fails has
-- happened or not.
abbrev pub Writes : Ns × Key → Option Bytes → View → Result StoreError (Unit {0}) → View → Type 0
Writes slot o v (ok _) w = Updated slot o v w
Writes slot o v (err _) w = Updated slot o v w ⊎ Unchanged v w

abbrev pub Returns : {A : Type 0} → (A → Type 0) → Result StoreError A → Type 0
Returns P (ok a) = P a
Returns P (err _) = Unit

pub record IsStore {S : Type 0} (ops : Store S) (IsValid : S → Type 0) (view : S → View)
    : Type 0 where
  pub get_returns :
      (ns : Ns) (k : Key) (s : S) → IsValid s → Returns (λ o. o ≡ view s (ns, k)) (ops.get ns k s).0
  pub get_view : (ns : Ns) (k : Key) (s : S) → Unchanged (view s) (view (ops.get ns k s).1)
  pub get_valid : (ns : Ns) (k : Key) (s : S) → IsValid s → IsValid (ops.get ns k s).1
  pub set_writes :
      (ns : Ns) (k : Key) (value : Bytes) (s : S)
      → IsValid s
      → Writes
          (ns, k)
          (some value)
          (view s)
          (ops.set ns k value s).0
          (view (ops.set ns k value s).1)
  pub set_valid :
      (ns : Ns) (k : Key) (value : Bytes) (s : S)
      → IsKey k
      → IsValid s
      → IsValid (ops.set ns k value s).1
  pub erase_writes :
      (ns : Ns) (k : Key) (s : S)
      → IsValid s
      → Writes (ns, k) none (view s) (ops.erase ns k s).0 (view (ops.erase ns k s).1)
  pub erase_valid : (ns : Ns) (k : Key) (s : S) → IsValid s → IsValid (ops.erase ns k s).1
  pub load_returns :
      (ns : Ns) (s : S)
      → IsValid s
      → Returns (λ entries. (k : Key) → get k entries ≡ view s (ns, k)) (load ops ns s).0

-- `for_each` runs any visitor over one list of entries, up to the visitor's first error.
pub record Walks {S : Type 0} (ops : Store S) (IsValid : S → Type 0) (view : S → View)
    : Type 1 where
  pub listing : Ns → S → List (Key × Bytes)
  pub walks :
      (A : Type 0) (ns : Ns) (visitor : Visitor A) (s : S) (a : A)
      → IsValid s
      → ops.for_each A ns visitor s a ≡ (let (r, a') = walk visitor (listing ns s) a in (r, s, a'))
  pub listed : (ns : Ns) (s : S) (k : Key) → IsValid s → get k (listing ns s) ≡ view s (ns, k)

pub load_post :
    {S : Type 0} (ops : Store S) (ns : Ns) (s : S) (P : List (Key × Bytes) → Type 0)
    → Returns
        (λ _. P (ops.for_each (List (Key × Bytes)) ns push_entry s []).2)
        (ops.for_each (List (Key × Bytes)) ns push_entry s []).0
    → Returns P (load ops ns s).0
unfolding load
load_post {S} ops ns s P h =
    let t = ops.for_each (List (Key × Bytes)) ns push_entry s [] in go t.0 t.1 t.2 h
  where
    loaded :
        Result StoreError (Unit {0})
        → S
        → List (Key × Bytes)
        → Result StoreError (List (Key × Bytes)) × S
    loaded r s' out = elim r [ ok _ ↦ (ok out, s') | err e ↦ (err e, s') ]

    go :
        (r : Result StoreError (Unit {0})) (s' : S) (out : List (Key × Bytes))
        → Returns (λ _. P out) r
        → Returns P (loaded r s' out).0
    go (ok _) s' out h = h
    go (err e) s' out h = tt

-- An error after which the service goes on.
abbrev pub is_refusal : StoreError → Bool
is_refusal bad_key = true
is_refusal value_too_large = true
is_refusal full = true
is_refusal (io _) = false
is_refusal (corrupt _) = false

-- A refused `set` changes nothing, and an `erase` is never refused.
pub record IsExact {S : Type 0} (ops : Store S) (IsValid : S → Type 0) (view : S → View)
    : Type 0 where
  pub set_exact :
      (ns : Ns) (k : Key) (value : Bytes) (s : S) (e : StoreError)
      → IsValid s
      → (ops.set ns k value s).0 ≡ err e
      → is_refusal e ≡ true
      → Unchanged (view s) (view (ops.set ns k value s).1)
  pub erase_exact :
      (ns : Ns) (k : Key) (s : S) (e : StoreError)
      → IsValid s
      → (ops.erase ns k s).0 ≡ err e
      → is_refusal e ≡ false
