-- ===== src/Store/File/Replay.antt =====
-- Replaying a log performs its operations in order.
use mathlib.Core.List.{append_assoc}
use mathlib.Core.Path.{subst}
use mastomini.Prelude.Bytes.Laws.{from_le32-le32}
use native.Mathlib.Nat.{add_comm, add-zero, zero-add, suc-add}
use mastomini.Prelude.{
  drop-append, ap, ◌∙◌, sym, take-append, ◌>>=◌, map, All, concat, List, ◌^◌, length-drop, none,
  zero, ◌≢◌, Option-cases, inr, inl, Result-cases, Option, ◌<◌, ℕ, suc, ◌+◌, ◌≤◌, ◌≡◌, true, some,
  [], ◌∷◌, ◌++◌, length, take, drop, length-append, Result, ok, err, arith,
}
use mastomini.Prelude.Bytes.{Bytes, le32, from_le32}
use mastomini.Store.Base.{Ns, StoreError, value_max}
use mastomini.Store.Key.{Key, as_str, key_new-IsText, as_str-key_new}
use mastomini.Store.Contract.{IsKey}
use mastomini.Store.Mem.{MemStore, mem_set, mem_erase}
use mastomini.Store.File.{
  frame, op_set, op_erase, encode, apply, outcome, or_malformed, valid_length, replay_from,
}
use mastomini.Store.File.Record.{apply-encode}

-- An operation of the log.
pub data Op : Type 0 where
  put_op : Ns → Key → Bytes → Op
  erase_op : Ns → Key → Op

abbrev pub payload_of : Op → Bytes
payload_of (put_op ns k value) = encode op_set ns k value
payload_of (erase_op ns k) = encode op_erase ns k []

abbrev pub perform : Op → MemStore → Result StoreError MemStore
perform (put_op ns k value) mem = outcome (mem_set ns k value mem)
perform (erase_op ns k) mem = outcome (mem_erase ns k mem)

-- What the store writes: keys made by `Key::new`, values that fit.
abbrev pub IsOp : Op → Type 0
IsOp (put_op ns k value) = IsKey k × (length value ≤ value_max)
IsOp (erase_op ns k) = IsKey k

pub apply-payload_of :
    (op : Op) (mem : MemStore) → IsOp op → apply (payload_of op) mem ≡ perform op mem
apply-payload_of (put_op ns k value) mem (key, small) =
    apply-encode op_set ns k value mem key (omega arith)
apply-payload_of (erase_op ns k) mem key = apply-encode op_erase ns k [] mem key (omega arith)

length-encode :
    (op : ℕ) (ns : Ns) (k : Key) (value : Bytes)
    → length (encode op ns k value) ≡ 7 + length (as_str k) + length value
unfolding encode
length-encode op ns k value = omega (arith, length-append (as_str k) (le32 (length value) ++ value))

pub valid_length-encode :
    (op : ℕ) (ns : Ns) (k : Key) (value : Bytes)
    → IsKey k
    → length value ≤ value_max
    → valid_length (length (encode op ns k value)) ≡ true
valid_length-encode op ns k value (name, made) small =
    let (nonempty, short, printable) = key_new-IsText name made in
    rw (length-encode op ns k value, as_str-key_new name made) (ground arith)

pub valid_length-payload_of : (op : Op) → IsOp op → valid_length (length (payload_of op)) ≡ true
valid_length-payload_of (put_op ns k value) (key, small) =
    valid_length-encode op_set ns k value key small
valid_length-payload_of (erase_op ns k) key = valid_length-encode op_erase ns k [] key (omega arith)

abbrev pub perform_all : List Op → MemStore → Result StoreError MemStore
perform_all [] mem = ok mem
perform_all (op ∷ ops) mem = perform op mem >>= perform_all ops

module _ (crc32 : Bytes → ℕ) where
  -- What follows a record that applies.
  abbrev pub resume :
      ℕ → ℕ → Bytes → Result StoreError MemStore → Option (Result StoreError MemStore)
  resume fuel pos rest (ok mem) = replay_from crc32 fuel pos rest mem
  resume fuel pos rest (err e) = some (err e)

  replay_from-step :
      (fuel pos : ℕ) (rest payload : Bytes) (mem : MemStore)
      → 8 + length payload ≤ length rest
      → from_le32 (take 4 rest) ≡ length payload
      → from_le32 (take 4 (drop 4 rest)) ≡ crc32 payload
      → take (length payload) (drop 8 rest) ≡ payload
      → valid_length (length payload) ≡ true
      → replay_from crc32 (suc fuel) pos rest mem
        ≡ resume fuel
            (pos + 8 + length payload)
            (drop (length payload) (drop 8 rest))
            (or_malformed pos (apply payload mem))
  unfolding replay_from
  replay_from-step fuel pos [] payload mem size len crc body fits = absurd (omega arith)
  replay_from-step fuel pos (b ∷ bs) payload mem size len crc body fits = ground arith

  -- A replay that has ended does not depend on the fuel that is left.
  pub replay_from_more :
      (fuel k pos : ℕ) (rest : Bytes) (mem : MemStore) (r : Result StoreError MemStore)
      → replay_from crc32 fuel pos rest mem ≡ some r
      → replay_from crc32 (fuel + k) pos rest mem ≡ some r
  unfolding replay_from
  replay_from_more zero k pos rest mem r h = cc
  replay_from_more (suc fuel) k pos [] mem r h = rw suc-add h
  replay_from_more (suc fuel) k pos (b ∷ bs) mem r h =
      let rest = b ∷ bs in
      let len = from_le32 (take 4 rest) in
      let body = drop 8 rest in
      elim (Result-cases (or_malformed pos (apply (take len body) mem))) [
        | inl (mem', e) ↦
            rw suc-add
              (ground (arith, replay_from_more fuel k (pos + 8 + len) (drop len body) mem' r))
        | inr (error, e) ↦ rw suc-add (ground arith)
      ]

  -- Fuel above the number of bytes is enough.
  replay_from-ne-none :
      (fuel pos : ℕ) (rest : Bytes) (mem : MemStore)
      → length rest < fuel
      → replay_from crc32 fuel pos rest mem ≢ none
  unfolding replay_from
  replay_from-ne-none zero pos rest mem h = absurd (omega arith)
  replay_from-ne-none (suc fuel) pos [] mem h = cc
  replay_from-ne-none (suc fuel) pos (b ∷ bs) mem h =
      let rest = b ∷ bs in
      let len = from_le32 (take 4 rest) in
      let body = drop 8 rest in
      let shorter : length (drop len body) < fuel =
        omega (arith, length-drop 8 rest, length-drop len body) in
      elim (Result-cases (or_malformed pos (apply (take len body) mem))) [
        | inl (mem', e) ↦
            ground (arith, replay_from-ne-none fuel (pos + 8 + len) (drop len body) mem' shorter)
        | inr (error, e) ↦ ground arith
      ]

  pub replay_from_total :
      (fuel pos : ℕ) (rest : Bytes) (mem : MemStore)
      → length rest < fuel
      → (r : Result StoreError MemStore) × (replay_from crc32 fuel pos rest mem ≡ some r)
  replay_from_total fuel pos rest mem h =
      elim (Option-cases (replay_from crc32 fuel pos rest mem)) [
        | inl stuck ↦ absurd (replay_from-ne-none fuel pos rest mem h stuck)
        | inr found ↦ found
      ]

  abbrev pub record_of : Op → Bytes
  record_of op = frame crc32 (payload_of op)

  abbrev pub records : List Op → Bytes
  records ops = concat (map record_of ops)

  pub length-frame : (payload : Bytes) → length (frame crc32 payload) ≡ 8 + length payload
  unfolding frame
  length-frame payload = omega arith

  pub from_frame_len :
      (payload : Bytes)
      → length payload < 2 ^ 32
      → from_le32 (take 4 (frame crc32 payload)) ≡ length payload
  unfolding frame
  from_frame_len payload small = from_le32-le32 (length payload) small

  module _ (crc32_bound : (bytes : Bytes) → crc32 bytes < 2 ^ 32) where
    pub replay_from-frame :
        (fuel pos : ℕ) (payload tail : Bytes) (mem : MemStore)
        → valid_length (length payload) ≡ true
        → replay_from crc32 (suc fuel) pos (frame crc32 payload ++ tail) mem
          ≡ resume fuel (pos + 8 + length payload) tail (or_malformed pos (apply payload mem))
    unfolding frame
    replay_from-frame fuel pos payload tail mem fits =
        let rest = frame crc32 payload ++ tail in
        let small : length payload < 2 ^ 32 = ground arith in
        replay_from-step fuel pos rest payload mem (omega (arith, length-append payload tail))
          (from_le32-le32 (length payload) small)
          (from_le32-le32 (crc32 payload) (crc32_bound payload)) (take-append payload tail) fits
        ∙ ap (λ t. resume fuel (pos + 8 + length payload) t (or_malformed pos (apply payload mem)))
            (drop-append payload tail)

    -- A log's records are performed in order, and the replay goes on behind them.
    pub replay_from-records :
        (ops : List Op) (mem mem' : MemStore) (fuel pos : ℕ) (tail : Bytes)
        (r : Result StoreError MemStore)
        → All IsOp ops
        → perform_all ops mem ≡ ok mem'
        → replay_from crc32 fuel (pos + length (records ops)) tail mem' ≡ some r
        → replay_from crc32 (length ops + fuel) pos (records ops ++ tail) mem ≡ some r
    replay_from-records [] mem mem' fuel pos tail r a done h =
        let same : mem ≡ mem' = cc in
        rw zero-add
          (subst (λ m. replay_from crc32 fuel pos tail m ≡ some r) (sym same) (rw add-zero at h))
    replay_from-records (op ∷ ops) mem mem' fuel pos tail r a done h =
        elim (Result-cases (perform op mem)) [
          | inl (next, e) ↦
              let payload = payload_of op in
              let pos' = pos + 8 + length payload in
              let ended : pos + length (records (op ∷ ops)) ≡ pos' + length (records ops) =
                omega (arith, length-append (record_of op) (records ops), length-frame payload) in
              rw (suc-add, append_assoc (record_of op) (records ops) tail)
                (replay_from-frame (length ops + fuel) pos payload (records ops ++ tail) mem
                    (valid_length-payload_of op a.0)
                  ∙ ap
                      (λ o.
                        resume (length ops + fuel) pos' (records ops ++ tail) (or_malformed pos o))
                      (apply-payload_of op mem a.0 ∙ e)
                  ∙ replay_from-records ops next mem' fuel pos' tail r a.1
                      (ap (λ o. o >>= perform_all ops) (sym e) ∙ done)
                      (subst (λ p. replay_from crc32 fuel p tail mem' ≡ some r) ended h))
          | inr (error, e) ↦ absurd (cc (rw e at done))
        ]

  -- Two replays that end agree, whatever their fuel.
  pub replay_from_unique :
      (f g pos : ℕ) (rest : Bytes) (mem : MemStore) (r t : Result StoreError MemStore)
      → replay_from crc32 f pos rest mem ≡ some r
      → replay_from crc32 g pos rest mem ≡ some t
      → r ≡ t
  replay_from_unique f g pos rest mem r t h k =
      let a = replay_from_more f g pos rest mem r h in
      let b = replay_from_more g f pos rest mem t k in
      let same : replay_from crc32 (f + g) pos rest mem ≡ some t = rw (add_comm f g) b in cc
