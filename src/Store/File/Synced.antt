-- ===== src/Store/File/Synced.antt =====
-- `set` and `erase` of `FileStore` when the operating system writes and syncs what they append.
use mastomini.Prelude.{
  ℕ, ◌<◌, ◌^◌, ◌≡◌, refl, List, [], length, Result, ok, Result-cases, Option-cases, inl, inr,
}
use mastomini.Prelude.Bytes.{Bytes}
use mastomini.Prelude.Map.{get}
use mastomini.Store.Base.{Ns, StoreError}
use mastomini.Store.Key.{Key}
use mastomini.Store.Key.Order.{slot_ord}
use mastomini.Store.Mem.{MemStore, check_fits, mem_set, mem_erase}
use mastomini.Store.File.{
  FileStore, Fate, durable, next_fate, append, append_then, encode, op_set, op_erase, file_set,
  file_erase,
}
use mastomini.Store.File.Survive.{
  append-eq, file_set-fits, file_set-refused, file_erase-absent, file_erase-present, mem_set-fits,
  mem_erase-ok,
}

module _ (crc32 : Bytes → ℕ) (crc32_bound : (bytes : Bytes) → crc32 bytes < 2 ^ 32) where
  append_then-synced :
      (o : ℕ) (ns : Ns) (k : Key) (value : Bytes) (s : FileStore) (rest : List Fate)
      (next : MemStore) (update : MemStore → Result StoreError (Unit {0}) × MemStore)
      → next_fate s.fates ≡ (durable, rest)
      → update s.mem ≡ (ok tt, next)
      → (append_then crc32 (append crc32 o ns k value s) update).0 ≡ ok tt
  append_then-synced o ns k value s rest next update e up =
      rw (append-eq crc32 crc32_bound o ns k value (encode o ns k value) s durable rest refl e, up)
        refl

  -- For a 32-bit checksum, and when the operating system writes and syncs the next append, `set`
  -- of `FileStore` succeeds or fails exactly as `check_fits` on the store in memory does, and
  -- `erase` succeeds.
  pub synced_outcomes :
      (ns : Ns) (k : Key) (value : Bytes) (s : FileStore) (rest : List Fate)
      → next_fate s.fates ≡ (durable, rest)
      → ((file_set crc32 ns k value s).0 ≡ check_fits ns k (length value) s.mem)
        × ((file_erase crc32 ns k s).0 ≡ ok tt)
  synced_outcomes ns k value s rest e = (set_outcome, erase_outcome)
    where
      set_outcome : (file_set crc32 ns k value s).0 ≡ check_fits ns k (length value) s.mem
      set_outcome = elim (Result-cases (check_fits ns k (length value) s.mem)) [
        | inl (_, fits) ↦
            rw (file_set-fits crc32 crc32_bound ns k value s fits, fits)
              (append_then-synced op_set ns k value s rest (mem_set ns k value s.mem).1
                (mem_set ns k value) e (mem_set-fits ns k value s.mem fits))
        | inr (error, refused) ↦
            rw (file_set-refused crc32 crc32_bound ns k value s error refused, refused) refl
      ]

      erase_outcome : (file_erase crc32 ns k s).0 ≡ ok tt
      erase_outcome = elim (Option-cases (get (ns, k) s.mem.map)) [
        | inl absent ↦ rw ((file_erase-absent crc32 crc32_bound ns k s absent).0) refl
        | inr (old, present) ↦ rw (file_erase-present crc32 crc32_bound ns k s old present) (
            append_then-synced op_erase ns k [] s rest (mem_erase ns k s.mem).1 (mem_erase ns k) e
              (mem_erase-ok ns k s.mem))
      ]
