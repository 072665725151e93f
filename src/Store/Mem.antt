-- ===== src/Store/Mem.antt =====
-- `MemStore` of mastomini_rs/src/store/mem.rs.
pub mod Visit
pub mod Laws
pub mod Refines
use mastomini.Prelude.{
  ℕ, ◌+◌, ◌-◌, Bool, true, false, Option, none, some, List, [], ◌∷◌, ltb, ◌==◌, not, if◌then◌else◌,
  length, Result, ok, err, compare, Ordering,
}
use mastomini.Prelude.Bytes.{Bytes}
use mastomini.Prelude.Ord.{Ord}
use mastomini.Prelude.Map
use mastomini.Prelude.Map.{Map, get, insert, remove}
use mastomini.Prelude.Map.Order.{weight_of}
use mastomini.Store.Base.{
  Ns, index, StoreError, value_too_large, full, StoreStats, value_max, entries_for,
  nvs_8mib_entries,
}
use mastomini.Store.Key.{Key, key_new}
use mastomini.Store.Key.Order.{slot_ord}
use mastomini.Store.Trait.{Store, Visitor}

pub record MemStore : Type 0 where
  pub map : Map (Ns × Key) Bytes
  pub used_entries : ℕ
  pub total_entries : ℕ

unfoldable pub with_capacity : ℕ → MemStore
with_capacity total_entries = record { map = []; used_entries = 0; total_entries = total_entries }

-- `MemStore::default`
unfoldable pub default : MemStore
unfolding with_capacity
default = with_capacity nvs_8mib_entries

abbrev pub weight : Bytes → ℕ
weight value = entries_for (length value)

-- The entries that the value now under a slot takes, 0 if there is none.
abbrev pub old_entries : Ns → Key → MemStore → ℕ
old_entries ns key s = weight_of weight (get (ns, key) s.map)

-- The source subtracts the old entries on `usize`, which overflows in a store whose count is less
-- than what it holds, where `-` stops at 0.
unfoldable pub check_fits : Ns → Key → ℕ → MemStore → Result StoreError (Unit {0})
check_fits ns key value_len s =
    if ltb value_max value_len
    then err value_too_large
    else if ltb s.total_entries (s.used_entries - old_entries ns key s + entries_for value_len)
    then err full
    else ok tt

-- What `set` does once the value fits.
abbrev pub put : Ns → Key → Bytes → MemStore → MemStore
put ns key value s = record s {
  map = insert (ns, key) value s.map;
  used_entries = s.used_entries + entries_for (length value) - old_entries ns key s;
}

unfoldable pub mem_get : Ns → Key → MemStore → Result StoreError (Option Bytes) × MemStore
mem_get ns key s = (ok (get (ns, key) s.map), s)

unfoldable pub mem_set : Ns → Key → Bytes → MemStore → Result StoreError (Unit {0}) × MemStore
mem_set ns key value s = elim (check_fits ns key (length value) s) [
  | ok _ ↦ (ok tt, put ns key value s)
  | err e ↦ (err e, s)
]

unfoldable pub mem_erase : Ns → Key → MemStore → Result StoreError (Unit {0}) × MemStore
mem_erase ns key s = elim (get (ns, key) s.map) [
  | none ↦ (ok tt, s)
  | some old ↦ (
    ok tt,
    record s {
      map = remove (ns, key) s.map;
      used_entries = s.used_entries - entries_for (length old);
    },
  )
]

-- `map.range(from..)`
unfoldable pub range_from : Ns × Key → Map (Ns × Key) Bytes → Map (Ns × Key) Bytes
range_from from [] = []
range_from from (entry ∷ m) = elim (slot_ord.cmp entry.0 from) [
  | Ordering.lt ↦ range_from from m
  | _ ↦ entry ∷ range_from from m
]

-- The loop of `for_each`: it ends at another namespace, or with the visitor's error.
unfoldable pub visit_entries :
    {A : Type 0} → Ns → Visitor A → Map (Ns × Key) Bytes → A → Result StoreError (Unit {0}) × A
visit_entries ns visitor [] a = (ok tt, a)
visit_entries ns visitor (((n, key), value) ∷ m) a =
    let (r, a') = visitor key value a in
    let rest = visit_entries ns visitor m a' in
    if not (index n == index ns) then (ok tt, a) else (elim r [ ok _ ↦ rest | err e ↦ (err e, a') ])

-- `Key::new("!")?`, and the loop from there.
unfoldable pub mem_for_each :
    (A : Type 0) → Ns → Visitor A → MemStore → A → Result StoreError (Unit {0}) × MemStore × A
mem_for_each A ns visitor s a = elim (key_new (33 ∷ [])) [
  | err e ↦ (err e, s, a)
  | ok first ↦ let (r, a') = visit_entries ns visitor (range_from (ns, first) s.map) a in (r, s, a')
]

unfoldable pub mem_stats : MemStore → Result StoreError StoreStats × MemStore
mem_stats s = (ok (record { used_entries = s.used_entries; total_entries = s.total_entries }), s)

abbrev pub mem_ops : Store MemStore
mem_ops = record {
  get = mem_get;
  set = mem_set;
  erase = mem_erase;
  for_each = mem_for_each;
  stats = mem_stats;
}
