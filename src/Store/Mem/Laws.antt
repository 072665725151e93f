-- ===== src/Store/Mem/Laws.antt =====
-- What `MemStore` keeps: the order of its entries, the count of used entries, and the capacity.
use mastomini.Prelude.{
  ℕ, ◌+◌, ◌-◌, ◌≤◌, ◌≡◌, ◌↔◌, refl, none, some, [], ◌∷◌, length, ok, Result-cases, arith, All,
  Option-cases, inl, inr,
}
use mastomini.Prelude.Bytes.{Bytes}
use mastomini.Prelude.Map.{Map, get, insert, remove, get-insert, get-remove}
use mastomini.Prelude.Map.Order.{
  IsSorted, sum, sum-insert, sum-remove, insert-IsSorted, remove-IsSorted,
}
use mastomini.Store.Base.{Ns, value_max, entries_for}
use mastomini.Store.Key.{Key}
use mastomini.Store.Key.Order.{slot_ord}
use mastomini.Store.Contract.{IsKey, Writes, View}
use mastomini.Store.Mem.{MemStore, weight, old_entries, check_fits, put, mem_set, mem_erase}

-- Each key was made by `Key::new`, and each value is of a size that `set` admits.
abbrev pub IsRecord : (Ns × Key) × Bytes → Type 0
IsRecord ((_, k), value) = IsKey k × (length value ≤ value_max)

pub record IsValid (s : MemStore) : Type 0 where
  pub sorted : IsSorted s.map
  pub records : All IsRecord s.map
  pub counted : s.used_entries ≡ sum weight s.map
  pub within : s.used_entries ≤ s.total_entries

unfoldable pub view : MemStore → View
view s at = get at s.map

records-insert :
    (k : Ns × Key) (v : Bytes) (m : Map (Ns × Key) Bytes)
    → IsRecord (k, v)
    → All IsRecord m
    → All IsRecord (insert k v m)
unfolding insert
records-insert k v [] r a = (r, tt)
records-insert k v (e ∷ m) r a = ground (arith, records-insert k v m r a.1)

records-remove :
    (k : Ns × Key) (m : Map (Ns × Key) Bytes) → All IsRecord m → All IsRecord (remove k m)
unfolding remove
records-remove k [] a = tt
records-remove k (e ∷ m) a = ground (arith, records-remove k m a.1)

-- The two tests of `check_fits`, as orders.
check_fits_iff :
    (ns : Ns) (k : Key) (len : ℕ) (s : MemStore)
    → (check_fits ns k len s ≡ ok tt) ↔ (
        (len ≤ value_max)
        × (s.used_entries - old_entries ns k s + entries_for len ≤ s.total_entries))
unfolding check_fits
check_fits_iff ns k len s = (λ h. ground arith, λ h. ground arith)

pub put-IsValid :
    (ns : Ns) (k : Key) (value : Bytes) (s : MemStore)
    → IsKey k
    → check_fits ns k (length value) s ≡ ok tt
    → IsValid s
    → IsValid (put ns k value s)
put-IsValid ns k value s key fits v =
    let (small, room) = (check_fits_iff ns k (length value) s).0 fits in
    let added = sum-insert weight (ns, k) value s.map v.sorted in
    record {
      sorted = insert-IsSorted (ns, k) value s.map v.sorted;
      records = records-insert (ns, k) value s.map (key, small) v.records;
      counted = omega (arith, v.counted);
      within = omega (arith, v.counted);
    }

pub set-IsValid :
    (ns : Ns) (k : Key) (value : Bytes) (s : MemStore)
    → IsKey k
    → IsValid s
    → IsValid (mem_set ns k value s).1
unfolding mem_set
set-IsValid ns k value s key v = elim (Result-cases (check_fits ns k (length value) s)) [
  | inl (done, e) ↦ rw (e, mem_set) (put-IsValid ns k value s key e v)
  | inr (error, e) ↦ rw (e, mem_set) v
]

set_iff_fits :
    (ns : Ns) (k : Key) (value : Bytes) (s : MemStore)
    → ((mem_set ns k value s).0 ≡ ok tt) ↔ (check_fits ns k (length value) s ≡ ok tt)
unfolding mem_set
set_iff_fits ns k value s = elim (Result-cases (check_fits ns k (length value) s)) [
  | inl (done, e) ↦ (λ h. e, λ h. rw (e, mem_set) refl)
  | inr (error, e) ↦ (λ h. cc, λ h. cc)
]

-- On a valid `MemStore`, the entries of the old value under a key are among those in use, and
-- `set` succeeds exactly if the value is of at most 8,192 bytes and the entries of all the values
-- that would then be stored, added up, are within the capacity.
pub mem_set_iff :
    (ns : Ns) (k : Key) (value : Bytes) (s : MemStore)
    → IsValid s
    → (old_entries ns k s ≤ s.used_entries)
      × (((mem_set ns k value s).0 ≡ ok tt)
          ↔ ((length value ≤ 8192) × (sum weight (insert (ns, k) value s.map) ≤ s.total_entries)))
mem_set_iff ns k value s v =
    let removed = sum-remove weight (ns, k) s.map v.sorted in
    let added = sum-insert weight (ns, k) value s.map v.sorted in
    let fits = check_fits_iff ns k (length value) s in
    let same = set_iff_fits ns k value s in
    let old_used : old_entries ns k s ≤ s.used_entries = omega (arith, v.counted) in
    (
      old_used,
      (
        λ h. let (small, room) = fits.0 (same.0 h) in (omega arith, omega (arith, v.counted)),
        λ h. let (small, room) = h in same.1 (fits.1 (omega arith, omega (arith, v.counted))),
      ),
    )

pub erase-IsValid : (ns : Ns) (k : Key) (s : MemStore) → IsValid s → IsValid (mem_erase ns k s).1
unfolding mem_erase
erase-IsValid ns k s v =
    let removed = sum-remove weight (ns, k) s.map v.sorted in
    elim (Option-cases (get (ns, k) s.map)) [
      | inl absent ↦ rw (absent, mem_erase) v
      | inr (old, e) ↦
          let taken : sum weight (remove (ns, k) s.map) + weight old ≡ sum weight s.map =
            rw e at removed in
          rw (e, mem_erase)
            (record {
              sorted = remove-IsSorted (ns, k) s.map v.sorted;
              records = records-remove (ns, k) s.map v.records;
              counted = omega (arith, v.counted);
              within = omega (arith, v.within);
            })
    ]

pub set-Writes :
    (ns : Ns) (k : Key) (value : Bytes) (s : MemStore)
    → Writes (ns, k) (some value) (view s) (mem_set ns k value s).0 (view (mem_set ns k value s).1)
unfolding mem_set view
set-Writes ns k value s = elim (Result-cases (check_fits ns k (length value) s)) [
  | inl (done, e) ↦ rw (e, mem_set) (λ at. get-insert (ns, k) at value s.map)
  | inr (error, e) ↦ rw (e, mem_set) (inr (λ at. refl))
]

pub erase-Writes :
    (ns : Ns) (k : Key) (s : MemStore)
    → Writes (ns, k) none (view s) (mem_erase ns k s).0 (view (mem_erase ns k s).1)
unfolding mem_erase view
erase-Writes ns k s = elim (Option-cases (get (ns, k) s.map)) [
  | inl absent ↦ rw (absent, mem_erase) (λ at. ground (arith, slot_ord.cmp_eq (ns, k) at))
  | inr (old, e) ↦ rw (e, mem_erase) (λ at. get-remove (ns, k) at s.map)
]
