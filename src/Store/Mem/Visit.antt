-- ===== src/Store/Mem/Visit.antt =====
-- `MemStore::for_each` visits the entries of its namespace, each once, in key order.
use mastomini.Prelude.{
  ◌<◌, ◌≡◌, ◌≢◌, ap, Result, refl, List, [], ◌∷◌, ◌==◌, if◌then◌else◌, ok, arith, All, Ordering,
}
use mastomini.Prelude.Bytes.{Bytes}
use mastomini.Prelude.Map.{Map, get}
use mastomini.Prelude.Map.Order.{IsSorted, IsBelow}
use mastomini.Store.Base.{Ns, index, StoreError}
use mastomini.Store.Key.{Key, key_new}
use mastomini.Store.Key.Order.{slot_ord, key_ord, key_cmp}
use mastomini.Store.Trait.{push_entry, walk, walk-push_entry, Visitor, load, load_of}
use mastomini.Store.Mem.{MemStore, range_from, visit_entries, mem_for_each, mem_ops}
use mastomini.Store.Mem.Laws.{IsValid, IsRecord}

abbrev pub Entries : Type 0
Entries = Map (Ns × Key) Bytes

-- The entries of one namespace.
abbrev pub of_ns : Ns → Entries → List (Key × Bytes)
of_ns ns [] = []
of_ns ns (((n, k), v) ∷ m) =
    let rest = of_ns ns m in if index n == index ns then (k, v) ∷ rest else rest

pub get-of_ns : (ns : Ns) (k : Key) (m : Entries) → get k (of_ns ns m) ≡ get (ns, k) m
unfolding get
get-of_ns ns k [] = refl
get-of_ns ns k (((n, j), v) ∷ m) = ground (arith, get-of_ns ns k m)

-- `Key::new("!")`
abbrev first : Key
first = record { len = 1; buf = 33 ∷ 0 ∷ 0 ∷ 0 ∷ 0 ∷ 0 ∷ 0 ∷ 0 ∷ 0 ∷ 0 ∷ 0 ∷ 0 ∷ 0 ∷ 0 ∷ 0 ∷ [] }

-- No key comes before it.
first_least : (k : Key) (text : Bytes) → key_new text ≡ ok k → key_cmp k first ≢ Ordering.lt
unfolding key_new
first_least k [] h = cc
first_least k (b ∷ []) h = ground arith
first_least k (b ∷ c ∷ text) h = ground arith

of_ns-above :
    (ns n : Ns) (k : Key) (m : Entries) → IsBelow (n, k) m → index ns < index n → of_ns ns m ≡ []
of_ns-above ns n k [] b h = refl
of_ns-above ns n k (((i, j), v) ∷ m) b h = ground (arith, of_ns-above ns n k m b.1 h)

range_from-above :
    (ns n : Ns) (k : Key) (m : Entries)
    → IsBelow (n, k) m
    → slot_ord.cmp (n, k) (ns, first) ≢ Ordering.lt
    → range_from (ns, first) m ≡ m
unfolding range_from
range_from-above ns n k [] b h = refl
range_from-above ns n k (((i, j), v) ∷ m) b h =
    ground (arith, range_from-above ns n k m b.1 h, slot_ord.cmp_trans (n, k) (i, j) (ns, first))

module _ {A : Type 0} (ns : Ns) (visitor : Visitor A) where
  visit_entries-below :
      (n : Ns) (k : Key) (m : Entries) (a : A)
      → IsSorted m
      → IsBelow (n, k) m
      → index n ≡ index ns
      → visit_entries ns visitor m a ≡ walk visitor (of_ns ns m) a
  unfolding visit_entries
  visit_entries-below n k [] a s b e = refl
  visit_entries-below n k (((i, j), v) ∷ m) a s b e =
      ground
        (arith, visit_entries-below n k m (visitor j v a).1 s.1 b.1 e, of_ns-above ns i j m s.0)

  -- The same where nothing says that the entries have come to the namespace.
  visit_entries-range :
      (m : Entries) (a : A)
      → IsSorted m
      → All IsRecord m
      → visit_entries ns visitor (range_from (ns, first) m) a ≡ walk visitor (of_ns ns m) a
  unfolding visit_entries range_from
  visit_entries-range [] a s r = refl
  visit_entries-range (((i, j), v) ∷ m) a s r = ground (
    arith,
    visit_entries-range m a s.1 r.1,
    visit_entries-below i j m (visitor j v a).1 s.1 s.0,
    range_from-above ns i j m s.0,
    of_ns-above ns i j m s.0,
    first_least j r.0.0.0 r.0.0.1,
  )

  -- On a valid store `for_each`, which walks the ordered map from the least key "!" of the
  -- namespace to the first entry of another one, runs any visitor over exactly the entries of the
  -- namespace, in key order, up to the visitor's first error, and does not change the store.
  pub for_each-eq-walk :
      (s : MemStore) (a : A)
      → IsValid s
      → mem_for_each A ns visitor s a
        ≡ (let (r, a') = walk visitor (of_ns ns s.map) a in (r, s, a'))
  unfolding mem_for_each key_new
  for_each-eq-walk s a v =
      ap
        (λ (p : Result StoreError (Unit {0}) × A).
          let q : Result StoreError (Unit {0}) × MemStore × A = (p.0, s, p.1) in q)
        (visit_entries-range s.map a v.sorted v.records)

pub load-eq-of_ns :
    (ns : Ns) (s : MemStore) → IsValid s → load mem_ops ns s ≡ (ok (of_ns ns s.map), s)
load-eq-of_ns ns s v =
    load_of mem_ops ns s
      (rw (for_each-eq-walk ns push_entry s [] v, walk-push_entry (of_ns ns s.map) []))
