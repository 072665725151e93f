-- ===== src/Store/Fault/Contract.antt =====
-- `FaultStore` is a store, if what it wraps is one.
use mathlib.Core.Path.{subst}
use mathlib.Core.List.{append-nil, append_assoc}
use mastomini.Prelude.{
  ℕ, ◌≡◌, refl, sym, ap, ◌∙◌, Bool, Option, none, some, List, [], ◌∷◌, ◌++◌, Result, ok, err, arith,
}
use mastomini.Prelude.Bytes.{Bytes}
use mastomini.Prelude.Map.{get}
use mastomini.Store.Base.{Ns, StoreError, Failure, read, enumerate}
use mastomini.Store.Key.{Key}
use mastomini.Store.Key.Order.{key_ord}
use mastomini.Store.Contract.{View, Unchanged, Returns, load_post, IsStore, Walks}
use mastomini.Store.Trait.{Store, push_entry, walk, walk-cons_post, load}
use mastomini.Store.Fault.{
  FaultStore, inside, fault, guarded, fault_get, fault_set, fault_erase, fault_visit,
  fault_for_each, fault_ops,
}
use mastomini.Store.Fault.Refines.{bind_post, mutation-Writes, mutation-IsValid}

guarded-push_entry :
    (k : Key) (v : Bytes) (out : List (Key × Bytes)) (failure : Option (Failure × ℕ)) (cut : Bool)
    {u : Unit {0}}
    → (guarded push_entry k v (out, failure, cut)).0 ≡ ok u
    → (guarded push_entry k v (out, failure, cut)).1.0 ≡ out ++ ((k, v) ∷ [])
unfolding guarded
guarded-push_entry k v out failure cut h = ground arith

-- A guarded visit that does not fail has pushed every entry.
walk-guarded :
    (entries out : List (Key × Bytes)) (failure : Option (Failure × ℕ)) (cut : Bool)
    → Returns
        (λ _. (walk (guarded push_entry) entries (out, failure, cut)).1.0 ≡ out ++ entries)
        (walk (guarded push_entry) entries (out, failure, cut)).0
walk-guarded [] out failure cut = rw append-nil
walk-guarded ((k, v) ∷ entries) out failure cut =
    walk-cons_post
      (λ r (a : List (Key × Bytes) × Option (Failure × ℕ) × Bool).
        Returns (λ _. a.0 ≡ out ++ ((k, v) ∷ entries)) r)
      (guarded push_entry) k v entries (out, failure, cut) (λ e _. tt)
      λ u pushed.
        let (out', failure', cut') = (guarded push_entry k v (out, failure, cut)).1 in
        let all = out ++ ((k, v) ∷ entries) in
        let eq : out' ++ entries ≡ all =
          ap (λ xs. xs ++ entries) (guarded-push_entry k v out failure cut pushed)
          ∙ append_assoc out ((k, v) ∷ []) entries in
        subst
          (λ l.
            Returns (λ _. (walk (guarded push_entry) entries (out', failure', cut')).1.0 ≡ l)
              (walk (guarded push_entry) entries (out', failure', cut')).0)
          eq (walk-guarded entries out' failure' cut')

module _ {S : Type 0} (ops : Store S) (IsValid : S → Type 0) (view : S → View)
    (store : IsStore ops IsValid view) (walks : Walks ops IsValid view) where
  fault_get_sound :
      (ns : Ns) (k : Key) (s : FaultStore S)
      → IsValid s.inner
      → Returns (λ o. o ≡ view s.inner (ns, k)) (fault_get ops ns k s).0
  unfolding fault_get fault
  fault_get_sound ns k s v =
      bind_post (λ r s'. Returns (λ o. o ≡ view s.inner (ns, k)) r) (fault read)
        (λ _. inside (ops.get ns k)) s (λ e _. tt) (λ _ _. store.get_returns ns k s.inner v)

  get_keeps :
      (P : S → Type 0) (ns : Ns) (k : Key) (s : FaultStore S)
      → P s.inner
      → P (ops.get ns k s.inner).1
      → P (fault_get ops ns k s).1.inner
  unfolding fault_get fault
  get_keeps P ns k s before after =
      bind_post (λ r s'. P s'.inner) (fault read) (λ _. inside (ops.get ns k)) s (λ e _. before)
        (λ _ _. after)

  abbrev Lists : Ns → FaultStore S → List (Key × Bytes) → Type 0
  Lists ns s entries = (k : Key) → get k entries ≡ view s.inner (ns, k)

  Returns-map :
      {A : Type 0} {P Q : A → Type 0} (r : Result StoreError A)
      → ((a : A) → P a → Q a)
      → Returns P r
      → Returns Q r
  Returns-map (ok a) f p = f a p
  Returns-map (err e) f p = tt

  visited :
      (ns : Ns) (s : FaultStore S)
      → IsValid s.inner
      → Returns
          (λ _. Lists ns s (fault_visit ops (List (Key × Bytes)) ns push_entry s []).2)
          (fault_visit ops (List (Key × Bytes)) ns push_entry s []).0
  unfolding fault_visit
  visited ns s v =
      let entries = walks.listing ns s.inner in
      let P : Result StoreError (Unit {0}) × S × (List (Key × Bytes) × Option (Failure × ℕ) × Bool)
          → Type 0 =
        λ t. Returns (λ _. Lists ns s t.2.0) t.0 in
      subst P
        (sym (
          walks.walks (List (Key × Bytes) × Option (Failure × ℕ) × Bool) ns (guarded push_entry)
            s.inner ([], s.failure, s.cut) v))
        (Returns-map (walk (guarded push_entry) entries ([], s.failure, s.cut)).0
          (λ _ e k. ap (get k) e ∙ walks.listed ns s.inner k v)
          (walk-guarded entries [] s.failure s.cut))

  fault_load_sound :
      (ns : Ns) (s : FaultStore S)
      → IsValid s.inner
      → Returns (Lists ns s) (load (fault_ops ops) ns s).0
  unfolding fault_for_each fault
  fault_load_sound ns s v =
      load_post (fault_ops ops) ns s (Lists ns s)
        (go (fault enumerate s).0 (fault enumerate s).1 v refl)
    where
      begun :
          Result StoreError (Unit {0})
          → FaultStore S
          → Result StoreError (Unit {0}) × FaultStore S × List (Key × Bytes)
      begun r s' = elim r [
        | err e ↦ (err e, s', [])
        | ok _ ↦ fault_visit ops (List (Key × Bytes)) ns push_entry s' []
      ]

      go :
          (r : Result StoreError (Unit {0})) (s' : FaultStore S)
          → IsValid s'.inner
          → s'.inner ≡ s.inner
          → Returns (λ _. Lists ns s (begun r s').2) (begun r s').0
      go (err error) s' v e = tt
      go (ok _) s' v e =
          subst
            (λ i.
              Returns
                (λ _.
                  (k : Key)
                  → get k (fault_visit ops (List (Key × Bytes)) ns push_entry s' []).2
                    ≡ view i (ns, k))
                (fault_visit ops (List (Key × Bytes)) ns push_entry s' []).0)
            e (visited ns s' v)

  -- If the wrapped store keeps the contract `IsStore`, and its `for_each` runs any visitor over a
  -- listing of the view's namespace up to the visitor's first error, then `FaultStore` around it
  -- keeps `IsStore` over the view of the store inside, whatever failure is injected and wherever
  -- its write budget ends: a mutation that returns an error has happened in full or not at all.
  pub fault-IsStore : IsStore (fault_ops ops) (λ s. IsValid s.inner) (λ s. view s.inner)
  unfolding fault_set fault_erase
  fault-IsStore = record {
    get_returns = fault_get_sound;
    get_view = λ ns k s.
        get_keeps (λ i. Unchanged (view s.inner) (view i)) ns k s (λ at. refl)
          (store.get_view ns k s.inner);
    get_valid = λ ns k s v. get_keeps IsValid ns k s v (store.get_valid ns k s.inner v);
    set_writes = λ ns k value s v.
        mutation-Writes view (ns, k) (some value) (ops.set ns k value) s
          (store.set_writes ns k value s.inner v);
    set_valid = λ ns k value s key v.
        mutation-IsValid IsValid (ops.set ns k value) s v
          (store.set_valid ns k value s.inner key v);
    erase_writes = λ ns k s v.
        mutation-Writes view (ns, k) none (ops.erase ns k) s (store.erase_writes ns k s.inner v);
    erase_valid = λ ns k s v.
        mutation-IsValid IsValid (ops.erase ns k) s v (store.erase_valid ns k s.inner v);
    load_returns = fault_load_sound;
  }
