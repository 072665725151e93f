-- ===== src/Store/File/Durable.antt =====
-- The log on disk and the store in memory: what survives a restart, after each write and each failure.
use mastomini.Prelude.{
  Option-cases, ◌≢◌, length-drop, ℕ, suc, ◌-◌, ◌<◌, ◌^◌, ◌≡◌, refl, ap, ◌∙◌, true, some, none, List,
  [], ◌∷◌, ◌++◌, ltb, length, take, drop, take-append_le, take-append_ge, length-take, Result, ok,
  arith, All, Bool-cases, inl, inr,
}
use mastomini.Prelude.Bytes.{Bytes, bytes_eq}
use mastomini.Store.Base.{StoreError}
use mastomini.Store.Mem.{MemStore, default}
use mastomini.Store.File.{magic, replay_from, replay}
use mastomini.Store.File.Replay.{
  Op, IsOp, records, perform_all, replay_from_total, replay_from_unique,
}
use mastomini.Store.File.Torn.{Upto, replay_from-cut_short}

bytes_eq_refl : (bs : Bytes) → bytes_eq bs bs ≡ true
bytes_eq_refl [] = refl
bytes_eq_refl (b ∷ bs) = ground (arith, bytes_eq_refl bs)

module _ (crc32 : Bytes → ℕ) where
  -- The file that the operations leave.
  abbrev pub log : List Op → Bytes
  log ops = magic ++ records crc32 ops

  replay-magic :
      (bytes : Bytes) (mem : MemStore)
      → replay crc32 (magic ++ bytes) mem
        ≡ replay_from crc32 (suc (length (magic ++ bytes))) 8 bytes mem
  unfolding replay
  replay-magic bytes mem = ground arith

  replay-short :
      (bytes : Bytes) (mem : MemStore)
      → length bytes < 8
      → bytes_eq (take (length bytes) magic) bytes ≡ true
      → replay crc32 bytes mem ≡ some (ok mem)
  unfolding replay
  replay-short bytes mem h same = ground arith

  replay_prefix : (n : ℕ) (mem : MemStore) → n < 8 → replay crc32 (take n magic) mem ≡ some (ok mem)
  replay_prefix n mem h =
      let size : length (take n magic) ≡ n = length-take n magic (omega arith) in
      replay-short (take n magic) mem (omega arith)
        (ap (λ m. bytes_eq (take m magic) (take n magic)) size ∙ bytes_eq_refl (take n magic))

  -- What a replay with some fuel returns, `replay` returns.
  pub replay-magic_of :
      (bytes : Bytes) (mem : MemStore) (fuel : ℕ) (r : Result StoreError MemStore)
      → replay_from crc32 fuel 8 bytes mem ≡ some r
      → replay crc32 (magic ++ bytes) mem ≡ some r
  replay-magic_of bytes mem fuel r h =
      let enough = suc (length (magic ++ bytes)) in
      let (t, ends) = replay_from_total crc32 enough 8 bytes mem (omega arith) in
      let same = replay_from_unique crc32 enough fuel 8 bytes mem t r ends h in
      replay-magic bytes mem ∙ ends ∙ ap some same

  -- For every file and every store, the replay ends with a result: the fuel, one more than the
  -- number of bytes, is enough for the loop.
  pub replay_total :
      (bytes : Bytes) (mem : MemStore)
      → (r : Result StoreError MemStore) × (replay crc32 bytes mem ≡ some r)
  unfolding replay
  replay_total bytes mem =
      let (r, ends) =
        replay_from_total crc32 (suc (length bytes)) 8 (drop 8 bytes) mem
          (omega (arith, length-drop 8 bytes)) in
      elim (Option-cases (replay crc32 bytes mem)) [
        | inl stuck ↦ absurd (stuck_replay r ends stuck)
        | inr found ↦ found
      ]
    where
      stuck_replay :
          (r : Result StoreError MemStore)
          → replay_from crc32 (suc (length bytes)) 8 (drop 8 bytes) mem ≡ some r
          → replay crc32 bytes mem ≢ none
      stuck_replay r ends stuck = ground arith

  module _ (crc32_bound : (bytes : Bytes) → crc32 bytes < 2 ^ 32) where
    -- For a 32-bit checksum, valid operations that succeed from the empty store, and a cut of
    -- their log after any number of bytes, the replay of what is left succeeds, and its state is
    -- the one after some first operations of the log.
    pub replay_cut :
        (ops : List Op) (mem : MemStore) (n : ℕ)
        → All IsOp ops
        → perform_all ops default ≡ ok mem
        → (u : Upto ops default) × (replay crc32 (take n (log ops)) default ≡ some (ok u.state))
    replay_cut ops mem n a done = elim (Bool-cases (ltb n 8)) [
      | inl header ↦ (
        record { count = 0; state = default; reached = refl },
        rw (take-append_le n magic (records crc32 ops) (ground arith))
            (replay_prefix n default (ground arith)),
      )
      | inr body ↦
          let (u, h) = replay_from-cut_short crc32 crc32_bound ops default mem (n - 8) 8 a done in
          (
            u,
            rw (take-append_ge n magic (records crc32 ops) (ground arith)) (
                replay-magic_of (take (n - 8) (records crc32 ops)) default (suc (length ops))
                  (ok u.state) h),
          )
    ]
