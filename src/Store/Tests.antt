-- ===== src/Store/Tests.antt =====
-- The stores at concrete inputs.
use mastomini.Prelude.Ord.{nat_ord, pair_ord}
use mastomini.Prelude.Map.Order.{sum}
use mastomini.Prelude.{
  ℕ, ◌+◌, ◌%◌, ◌≤◌, ◌<◌, ◌^◌, ◌≡◌, refl, ◌↔◌, ◌⊎◌, some, List, [], ◌∷◌, take, concat, arith, Result,
  ok, err, All, length,
}
use mastomini.Prelude.Bytes.{Bytes}
use mastomini.Prelude.Map.{get, insert}
use mastomini.Store.Key.Order.{slot_ord}
use mastomini.Store.Base.{Ns, StoreError, entries_for}
use mastomini.Store.Key.{Key, key_new, from_parts}
use mastomini.Store.Key.Parts.{from_parts-eq-key_new}
use mastomini.Store.Trait.{push_entry, walk, load}
use mastomini.Store.Contract.{IsKey, IsStore}
use mastomini.Store.Mem.{
  MemStore, default, with_capacity, old_entries, check_fits, put, mem_get, mem_set, mem_erase,
  mem_for_each, mem_ops, weight,
}
use mastomini.Store.Mem.Laws.{IsValid, view, mem_set_iff, put-IsValid}
use mastomini.Store.Mem.Visit.{of_ns, for_each-eq-walk}
use mastomini.Store.Mem.Refines.{mem-IsStore, mem-Walks, mem_outcomes}
use mastomini.Store.Fault.{FaultStore, fault_new, cut_after, fault_ops}
use mastomini.Store.Fault.Laws.{Change, set_key, erase_key, changed, changed-cut_after}
use mastomini.Store.Fault.Contract.{fault-IsStore}
use mastomini.Store.File.{
  encode, apply, dispatch, op_set, replay, FileStore, durable, torn, unsynced, file_set, file_erase,
}
use mastomini.Store.File.Record.{apply-encode}
use mastomini.Store.File.Replay.{Op, put_op, IsOp, perform_all}
use mastomini.Store.File.Torn.{Upto}
use mastomini.Store.File.Durable.{log, replay_total, replay_cut}
use mastomini.Store.File.Append.{IsLogged, Survives, replay-IsLogged}
use mastomini.Store.File.Synced.{synced_outcomes}
use mastomini.Store.File.Survive.{set-Survives, erase-Survives}

-- The key "a1".
abbrev key_a : Key
key_a = record { len = 2; buf = 97 ∷ 49 ∷ 0 ∷ 0 ∷ 0 ∷ 0 ∷ 0 ∷ 0 ∷ 0 ∷ 0 ∷ 0 ∷ 0 ∷ 0 ∷ 0 ∷ 0 ∷ [] }

key_a_made : key_new (97 ∷ 49 ∷ []) ≡ ok key_a
unfolding key_new
key_a_made = refl

abbrev key_a-IsKey : IsKey key_a
key_a-IsKey = (97 ∷ 49 ∷ [], key_a_made)

abbrev value_a : Bytes
value_a = 7 ∷ 8 ∷ []

-- A store of one entry.
abbrev one : MemStore
one = put Ns.stat key_a value_a default

default-IsValid : IsValid default
unfolding default with_capacity
default-IsValid = record { sorted = tt; records = tt; counted = refl; within = omega arith }

fits_default : check_fits Ns.stat key_a 2 default ≡ ok tt
unfolding check_fits default with_capacity entries_for get
fits_default = refl

one-IsValid : IsValid one
one-IsValid = put-IsValid Ns.stat key_a value_a default key_a-IsKey fits_default default-IsValid

fault-IsStore_example :
    IsStore (fault_ops mem_ops) (λ (s : FaultStore MemStore). IsValid s.inner) (λ s. view s.inner)
fault-IsStore_example = fault-IsStore mem_ops IsValid view mem-IsStore mem-Walks

abbrev changes : List Change
changes = set_key Ns.stat key_a value_a ∷ erase_key Ns.stat key_a ∷ set_key Ns.acct key_a [] ∷ []

changed-cut_after_example :
    (changed (fault_ops mem_ops) changes (cut_after 2 (fault_new default))).inner
    ≡ changed mem_ops (take 2 changes) default
changed-cut_after_example = changed-cut_after mem_ops changes default 2

for_each-eq-walk_example :
    mem_for_each (List (Key × Bytes)) Ns.stat push_entry one []
    ≡ (let (r, a') = walk push_entry (of_ns Ns.stat one.map) [] in (r, one, a'))
for_each-eq-walk_example = for_each-eq-walk Ns.stat push_entry one [] one-IsValid

mem_set_iff_example :
    (old_entries Ns.stat key_a one ≤ one.used_entries)
    × (((mem_set Ns.stat key_a value_a one).0 ≡ ok tt) ↔ (
        (length value_a ≤ 8192)
        × (sum weight (insert (Ns.stat, key_a) value_a one.map) ≤ one.total_entries)))
mem_set_iff_example = mem_set_iff Ns.stat key_a value_a one one-IsValid

from_parts-eq-key_new_example :
    from_parts ((97 ∷ []) ∷ (49 ∷ []) ∷ []) ≡ key_new (concat ((97 ∷ []) ∷ (49 ∷ []) ∷ []))
from_parts-eq-key_new_example = from_parts-eq-key_new ((97 ∷ []) ∷ (49 ∷ []) ∷ [])

apply-encode_example :
    apply (encode op_set Ns.stat key_a value_a) default
    ≡ dispatch op_set Ns.stat key_a value_a default
apply-encode_example = apply-encode op_set Ns.stat key_a value_a default key_a-IsKey (omega arith)

-- A checksum of 32 bits.
abbrev sum_bytes : Bytes → ℕ
sum_bytes [] = 0
sum_bytes (b ∷ bs) = b + sum_bytes bs

abbrev check_sum : Bytes → ℕ
check_sum bytes = sum_bytes bytes % 2 ^ 32

check_sum_bound : (bytes : Bytes) → check_sum bytes < 2 ^ 32
check_sum_bound bytes = omega arith

abbrev ops : List Op
ops = put_op Ns.stat key_a value_a ∷ []

abbrev ops-IsOp : All IsOp ops
ops-IsOp = ((key_a-IsKey, omega arith), tt)

ops_performed : perform_all ops default ≡ ok one
unfolding mem_set
ops_performed = rw (fits_default, mem_set) refl

replay_cut_example :
    (u : Upto ops default) × (replay check_sum (take 20 (log check_sum ops)) default
      ≡ some (ok u.state))
replay_cut_example = replay_cut check_sum check_sum_bound ops one 20 ops-IsOp ops_performed

replay_total_example :
    (r : Result StoreError MemStore) × (replay check_sum (77 ∷ 77 ∷ []) default ≡ some r)
replay_total_example = replay_total check_sum (77 ∷ 77 ∷ []) default

abbrev logged : IsLogged check_sum (log check_sum ops) one
logged = record { ops = ops; valid = ops-IsOp; holds = refl; performed = ops_performed }

replay-IsLogged_example : replay check_sum (log check_sum ops) default ≡ some (ok one)
replay-IsLogged_example = replay-IsLogged check_sum check_sum_bound logged

-- An open file whose next append is torn.
abbrev opened : FileStore
opened = record { file = log check_sum ops; mem = one; fates = torn 11 ∷ unsynced ∷ [] }

set-Survives_example :
    ((check_fits Ns.acct key_a 2 one ≡ ok tt)
      × Survives check_sum one
          (mem_set Ns.acct key_a value_a one).1
          (file_set check_sum Ns.acct key_a value_a opened))
    ⊎ ((error : StoreError) × (check_fits Ns.acct key_a 2 one ≡ err error)
        × (file_set check_sum Ns.acct key_a value_a opened ≡ (err error, opened)))
set-Survives_example =
    set-Survives check_sum check_sum_bound Ns.acct key_a value_a opened key_a-IsKey logged

erase-Survives_example :
    Survives check_sum one
      (mem_erase Ns.stat key_a one).1
      (file_erase check_sum Ns.stat key_a opened)
erase-Survives_example =
    erase-Survives check_sum check_sum_bound Ns.stat key_a opened key_a-IsKey logged

mem_outcomes_example :
    ((mem_get Ns.stat key_a one).0 ≡ ok (view one (Ns.stat, key_a)))
    × ((mem_set Ns.stat key_a value_a one).0 ≡ check_fits Ns.stat key_a 2 one)
    × ((mem_erase Ns.stat key_a one).0 ≡ ok tt)
    × (load mem_ops Ns.stat one ≡ (ok (of_ns Ns.stat one.map), one))
mem_outcomes_example = mem_outcomes Ns.stat key_a value_a one one-IsValid

-- An open file whose next append is written and synced.
abbrev steady : FileStore
steady = record { file = log check_sum ops; mem = one; fates = durable ∷ torn 2 ∷ [] }

synced_outcomes_example :
    ((file_set check_sum Ns.acct key_a value_a steady).0 ≡ check_fits Ns.acct key_a 2 one)
    × ((file_erase check_sum Ns.acct key_a steady).0 ≡ ok tt)
synced_outcomes_example =
    synced_outcomes check_sum check_sum_bound Ns.acct key_a value_a steady (torn 2 ∷ []) refl
