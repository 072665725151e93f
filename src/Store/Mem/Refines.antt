-- ===== src/Store/Mem/Refines.antt =====
-- `MemStore` is a store.
use mastomini.Prelude.{sym, ◌∙◌, err, refl, length, ok, Result-cases, Option-cases, inl, inr}
use mastomini.Prelude.Bytes.{Bytes}
use mastomini.Store.Trait.{load}
use mastomini.Store.Contract.{Walks, IsStore, IsExact, Unchanged}
use mastomini.Prelude.{◌≡◌}
use mastomini.Prelude.Map.{get}
use mastomini.Store.Base.{Ns, StoreError}
use mastomini.Store.Key.{Key}
use mastomini.Store.Key.Order.{key_ord, slot_ord}
use mastomini.Store.Mem.{MemStore, check_fits, mem_get, mem_set, mem_erase, mem_ops}
use mastomini.Store.Mem.Laws.{IsValid, view, set-IsValid, erase-IsValid, set-Writes, erase-Writes}
use mastomini.Store.Mem.Visit.{for_each-eq-walk, of_ns, get-of_ns, load-eq-of_ns}

-- The operations of `MemStore` keep the contract `IsStore` over its view, the partial function
-- from (namespace, key) to value that its map is: on a valid store what `get` returns is what the
-- view holds, and it changes nothing; `set` and `erase`, acknowledged, change their own slot
-- alone, and on an error have changed it or nothing; each keeps the store valid, `set` for keys
-- made by `Key::new`; what `load` returns lists a namespace's part of the view.
pub mem-IsStore : IsStore mem_ops IsValid view
unfolding mem_get view
mem-IsStore = record {
  get_returns = λ ns k s v. refl;
  get_view = λ ns k s at. refl;
  get_valid = λ ns k s v. v;
  set_writes = λ ns k value s v. set-Writes ns k value s;
  set_valid = set-IsValid;
  erase_writes = λ ns k s v. erase-Writes ns k s;
  erase_valid = erase-IsValid;
  load_returns = λ ns s v. rw (load-eq-of_ns ns s v) (λ k. get-of_ns ns k s.map);
}

pub listed : (ns : Ns) (s : MemStore) (k : Key) → get k (of_ns ns s.map) ≡ view s (ns, k)
unfolding view
listed ns s k = get-of_ns ns k s.map

abbrev pub mem-Walks : Walks mem_ops IsValid view
mem-Walks = record {
  listing = λ ns s. of_ns ns s.map;
  walks = λ A ns visitor s a v. for_each-eq-walk ns visitor s a v;
  listed = λ ns s k v. listed ns s k;
}

set-check_fits :
    (ns : Ns) (k : Key) (value : Bytes) (s : MemStore)
    → (mem_set ns k value s).0 ≡ check_fits ns k (length value) s
unfolding mem_set
set-check_fits ns k value s = elim (Result-cases (check_fits ns k (length value) s)) [
  | inl (_, e) ↦ rw (e, mem_set) refl
  | inr (error, e) ↦ rw (e, mem_set) refl
]

erase-ok : (ns : Ns) (k : Key) (s : MemStore) → (mem_erase ns k s).0 ≡ ok tt
unfolding mem_erase
erase-ok ns k s = elim (Option-cases (get (ns, k) s.map)) [
  | inl absent ↦ rw (absent, mem_erase) refl
  | inr (old, e) ↦ rw (e, mem_erase) refl
]

-- On a valid `MemStore`, `get` succeeds with the value in the view, `set` succeeds or fails
-- exactly as `check_fits` does, `erase` succeeds, and `load` succeeds with the entries of the
-- namespace and does not change the store.
pub mem_outcomes :
    (ns : Ns) (k : Key) (value : Bytes) (s : MemStore)
    → IsValid s
    → ((mem_get ns k s).0 ≡ ok (view s (ns, k)))
      × ((mem_set ns k value s).0 ≡ check_fits ns k (length value) s)
      × ((mem_erase ns k s).0 ≡ ok tt)
      × (load mem_ops ns s ≡ (ok (of_ns ns s.map), s))
unfolding mem_get view
mem_outcomes ns k value s v =
    (refl, set-check_fits ns k value s, erase-ok ns k s, load-eq-of_ns ns s v)

set-kept :
    (ns : Ns) (k : Key) (value : Bytes) (s : MemStore) (e : StoreError)
    → (mem_set ns k value s).0 ≡ err e
    → Unchanged (view s) (view (mem_set ns k value s).1)
unfolding mem_set
set-kept ns k value s e failed at = elim (Result-cases (check_fits ns k (length value) s)) [
  | inl (_, fits) ↦ absurd (cc (sym failed ∙ set-check_fits ns k value s ∙ fits))
  | inr (error, refused) ↦ rw (refused, mem_set) refl
]

-- A `set` that fails changes nothing, and `erase` never fails.
pub mem-IsExact : IsExact mem_ops IsValid view
mem-IsExact = record {
  set_exact = λ ns k value s e v failed refused. set-kept ns k value s e failed;
  erase_exact = λ ns k s e v failed. absurd (cc (sym failed ∙ erase-ok ns k s));
}
