-- ===== src/Store/File/Torn.antt =====
-- A log that is cut short anywhere replays to the state after its whole records.
use mastomini.Prelude.{
  take-append_ge, take-append_le, take_nil, ℕ, suc, ◌+◌, ◌-◌, ◌≤◌, ◌<◌, ◌^◌, ◌≡◌, refl, sym, ap,
  ◌∙◌, true, some, List, [], ◌∷◌, ltb, length, take, take-take_le, length-take, ok, ◌>>=◌, arith,
  All, Bool-cases, Result-cases, inl, inr,
}
use mastomini.Prelude.Bytes.{Bytes, from_le32}
use mastomini.Store.Mem.{MemStore}
use mastomini.Store.File.{or_malformed, valid_length, frame, replay_from}
use mastomini.Store.File.Replay.{
  Op, payload_of, perform, IsOp, valid_length-payload_of, record_of, records, perform_all, resume,
  from_frame_len, replay_from-frame, length-frame, apply-payload_of,
}

-- What was performed when the log stops: some first operations, and the state after them.
pub record Upto (ops : List Op) (from : MemStore) : Type 0 where
  pub count : ℕ
  pub state : MemStore
  pub reached : perform_all (take count ops) from ≡ ok state

module _ (crc32 : Bytes → ℕ) where
  replay_from-short :
      (fuel pos : ℕ) (rest : Bytes) (mem : MemStore)
      → length rest < 8
      → replay_from crc32 (suc fuel) pos rest mem ≡ some (ok mem)
  unfolding replay_from
  replay_from-short fuel pos [] mem h = refl
  replay_from-short fuel pos (b ∷ bs) mem h = ground arith

  replay_from-cut :
      (fuel pos : ℕ) (rest : Bytes) (mem : MemStore)
      → 8 ≤ length rest
      → valid_length (from_le32 (take 4 rest)) ≡ true
      → length rest < 8 + from_le32 (take 4 rest)
      → replay_from crc32 (suc fuel) pos rest mem ≡ some (ok mem)
  unfolding replay_from
  replay_from-cut fuel pos [] mem h v c = refl
  replay_from-cut fuel pos (b ∷ bs) mem h v c = ground arith

  pub torn_frame :
      (fuel pos n : ℕ) (payload : Bytes) (mem : MemStore)
      → valid_length (length payload) ≡ true
      → n < length (frame crc32 payload)
      → replay_from crc32 (suc fuel) pos (take n (frame crc32 payload)) mem ≡ some (ok mem)
  torn_frame fuel pos n payload mem fits h =
      let bytes = frame crc32 payload in
      let size = length-take n bytes (omega arith) in
      elim (Bool-cases (ltb n 8)) [
        | inl header ↦ replay_from-short fuel pos (take n bytes) mem (ground arith)
        | inr body ↦
            let small : length payload < 2 ^ 32 = ground arith in
            let word : from_le32 (take 4 (take n bytes)) ≡ length payload =
              ap from_le32 (take-take_le 4 n bytes (ground arith))
              ∙ from_frame_len crc32 payload small in
            replay_from-cut fuel pos (take n bytes) mem (ground arith) (rw word fits)
              (rw word (omega (arith, length-frame crc32 payload)))
      ]

  module _ (crc32_bound : (bytes : Bytes) → crc32 bytes < 2 ^ 32) where
    pub replay_from-cut_short :
        (ops : List Op) (from to : MemStore) (n pos : ℕ)
        → All IsOp ops
        → perform_all ops from ≡ ok to
        → (u : Upto ops from) × (replay_from crc32
              (suc (length ops))
              pos
              (take n (records crc32 ops))
              from
            ≡ some (ok u.state))
    replay_from-cut_short [] from to n pos a done = (
      record { count = 0; state = from; reached = refl },
      rw (take_nil n) (replay_from-short 0 pos [] from (omega arith)),
    )
    replay_from-cut_short (op ∷ ops) from to n pos a done =
        elim (Bool-cases (ltb n (length (record_of crc32 op)))) [
          | inl inside ↦ (
            record { count = 0; state = from; reached = refl },
            rw (take-append_le n (record_of crc32 op) (records crc32 ops) (ground arith)) (
                torn_frame (suc (length ops)) pos n (payload_of op) from
                  (valid_length-payload_of op a.0) (ground arith)),
          )
          | inr beyond ↦ elim (Result-cases (perform op from)) [
            | inr (error, e) ↦ absurd (cc (rw e at done))
            | inl (next, e) ↦
                let rest = n - length (record_of crc32 op) in
                let pos' = pos + 8 + length (payload_of op) in
                let (u, h) =
                  replay_from-cut_short ops next to rest pos' a.1
                    (ap (λ o. o >>= perform_all ops) (sym e) ∙ done) in
                (
                  record {
                    count = suc u.count;
                    state = u.state;
                    reached = ap (λ o. o >>= perform_all (take u.count ops)) e ∙ u.reached;
                  },
                  rw (take-append_ge n (record_of crc32 op) (records crc32 ops) (ground arith)) (
                      replay_from-frame crc32 crc32_bound (suc (length ops)) pos (payload_of op)
                        (take rest (records crc32 ops)) from (valid_length-payload_of op a.0)
                      ∙ ap
                          (λ o.
                            resume crc32 (suc (length ops)) pos' (take rest (records crc32 ops))
                              (or_malformed pos o))
                          (apply-payload_of op from a.0 ∙ e)
                      ∙ h),
                )
          ]
        ]
