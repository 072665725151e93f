-- ===== src/Store/File/Append.antt =====
-- Each write of `FileStore`: what it leaves in the file, whatever becomes of its bytes.
use mathlib.Core.List.{append-nil, append_assoc}
use mastomini.Prelude.{
  ℕ, ◌+◌, ◌<◌, ◌^◌, ◌≡◌, ◌⊎◌, refl, sym, ap, ◌∙◌, some, List, [], ◌∷◌, ◌++◌, length, take, Result,
  ok, err, ◌>>=◌, All, Result-cases, inl, inr,
}
use mastomini.Prelude.Bytes.{Bytes}
use mastomini.Store.Base.{StoreError}
use mastomini.Store.Mem.{MemStore, default}
use mastomini.Store.File.{magic, os_error, FileStore, replay_from, replay}
use mastomini.Store.File.Replay.{
  Op, payload_of, perform, IsOp, valid_length-payload_of, record_of, records, perform_all,
  replay_from-records,
}
use mastomini.Store.File.Torn.{torn_frame}
use mastomini.Store.File.Durable.{log, replay-magic_of}

perform_all-snoc :
    (ops : List Op) (op : Op) (mem : MemStore)
    → perform_all (ops ++ (op ∷ [])) mem ≡ (perform_all ops mem >>= perform op)
perform_all-snoc [] op mem = elim (Result-cases (perform op mem)) [
  | inl (next, e) ↦ rw e
  | inr (error, e) ↦ rw e
]
perform_all-snoc (o ∷ ops) op mem = elim (Result-cases (perform o mem)) [
  | inl (next, e) ↦ rw e (perform_all-snoc ops op next)
  | inr (error, e) ↦ rw e
]

All-snoc : (ops : List Op) (op : Op) → All IsOp ops → IsOp op → All IsOp (ops ++ (op ∷ []))
All-snoc [] op a h = (h, tt)
All-snoc (o ∷ ops) op a h = (a.0, All-snoc ops op a.1 h)

module _ (crc32 : Bytes → ℕ) where
  records-snoc :
      (ops : List Op) (op : Op)
      → records crc32 (ops ++ (op ∷ [])) ≡ records crc32 ops ++ record_of crc32 op
  records-snoc [] op = append-nil (record_of crc32 op)
  records-snoc (o ∷ ops) op =
      ap (λ t. record_of crc32 o ++ t) (records-snoc ops op)
      ∙ sym (append_assoc (record_of crc32 o) (records crc32 ops) (record_of crc32 op))

  -- The file holds whole records, of operations whose outcome is the store in memory.
  pub record IsLogged (file : Bytes) (mem : MemStore) : Type 0 where
    pub ops : List Op
    pub valid : All IsOp ops
    pub holds : file ≡ log crc32 ops
    pub performed : perform_all ops default ≡ ok mem

  pub IsLogged-append :
      (op : Op) {file : Bytes} {mem next : MemStore}
      → IsOp op
      → perform op mem ≡ ok next
      → IsLogged file mem
      → IsLogged (file ++ record_of crc32 op) next
  IsLogged-append op h done l = record {
    ops = l.ops ++ (op ∷ []);
    valid = All-snoc l.ops op l.valid h;
    holds =
        ap (λ f. f ++ record_of crc32 op) l.holds
        ∙ append_assoc magic (records crc32 l.ops) (record_of crc32 op)
        ∙ ap (λ t. magic ++ t) (sym (records-snoc l.ops op));
    performed = rw (perform_all-snoc l.ops op default, l.performed) done;
  }

  -- What a write of `mem`, to become `next`, has done. Acknowledged, the file holds the new state.
  -- Failed, the error is the operating system's, the memory is as it was, and the file still replays, to the old state or to the new
  -- one.
  abbrev pub Survives : MemStore → MemStore → Result StoreError (Unit {0}) × FileStore → Type 0
  Survives mem next (ok _, s) = IsLogged s.file s.mem × (s.mem ≡ next)
  Survives mem next (err e, s) =
      (e ≡ os_error)
      × (s.mem ≡ mem)
      × ((m : MemStore) × (replay crc32 s.file default ≡ some (ok m)) × ((m ≡ mem) ⊎ (m ≡ next)))

  module _ (crc32_bound : (bytes : Bytes) → crc32 bytes < 2 ^ 32) where
    -- Whole records and a part of one more replay to the state after the whole ones.
    pub replay-torn :
        {file : Bytes} {mem : MemStore} (op : Op) (n : ℕ)
        → IsOp op
        → IsLogged file mem
        → n < length (record_of crc32 op)
        → replay crc32 (file ++ take n (record_of crc32 op)) default ≡ some (ok mem)
    replay-torn {mem = mem} op n h l short =
        let tail = take n (record_of crc32 op) in
        rw (l.holds, append_assoc magic (records crc32 l.ops) tail)
          (replay-magic_of crc32 (records crc32 l.ops ++ tail) default (length l.ops + 1) (ok mem) (
            replay_from-records crc32 crc32_bound l.ops default mem 1 8 tail (ok mem) l.valid
              l.performed
              (torn_frame crc32 0 (8 + length (records crc32 l.ops)) n (payload_of op) mem
                (valid_length-payload_of op h) short)))

    -- For a 32-bit checksum, the replay of a file whose whole records are valid operations that
    -- give the store in memory from the empty one succeeds and gives that store.
    pub replay-IsLogged :
        {file : Bytes} {mem : MemStore}
        → IsLogged file mem
        → replay crc32 file default ≡ some (ok mem)
    unfolding replay_from
    replay-IsLogged {mem = mem} l = rw (l.holds) (
        replay-magic_of crc32 (records crc32 l.ops) default (length l.ops + 1) (ok mem) (
          rw (← append-nil (records crc32 l.ops)) (
            replay_from-records crc32 crc32_bound l.ops default mem 1 8 [] (ok mem) l.valid
              l.performed refl)))
