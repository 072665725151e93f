-- ===== src/Store/File.antt =====
-- mastomini_rs/src/store/file.rs: the desktop store, an append-only log with a checksum for each
-- record. `crc32` is the hash of the crate crc32fast. The file is the list of its bytes.
pub mod Record
pub mod Replay
pub mod Torn
pub mod Durable
pub mod Append
pub mod Survive
pub mod Synced
use mastomini.Prelude.{
  ℕ, zero, suc, ◌+◌, ◌≤◌, Bool, true, false, Option, none, some, List, [], ◌∷◌, ◌++◌, ltb, leb,
  ◌==◌, ◌&&◌, not, if◌then◌else◌, length, take, drop, concat, map, Result, ok, err, ◌>>=◌, ◌>>◌,
  ok_or,
}
use mastomini.Prelude.Bytes.{Bytes, bytes_eq, is_utf8, get_to, get_range, le32, from_le32}
use mastomini.Store.Base.{
  Ns, index, all_ns, from_u8, StoreError, io, corrupt, text, at_byte, value_max,
}
use mastomini.Store.Key.{Key, key_max, is_empty, key_new, as_str}
use mastomini.Store.Trait.{Store, Visitor, walk}
use mastomini.Store.Mem.{
  MemStore, default, check_fits, mem_get, mem_set, mem_erase, mem_for_each, mem_stats,
}

-- b"MMSTORE1"
abbrev pub magic : Bytes
magic = 77 ∷ 77 ∷ 83 ∷ 84 ∷ 79 ∷ 82 ∷ 69 ∷ 49 ∷ []

abbrev pub op_set : ℕ
op_set = 1

abbrev pub op_erase : ℕ
op_erase = 2

unfoldable pub encode : ℕ → Ns → Key → Bytes → Bytes
encode op ns key value =
    op ∷ index ns ∷ length (as_str key) ∷ (as_str key ++ (le32 (length value) ++ value))

abbrev bad : StoreError
bad = corrupt (text "record")

-- The error of a store method, for `?` and `map_err`.
abbrev pub outcome : Result StoreError (Unit {0}) × MemStore → Result StoreError MemStore
outcome (ok _, mem) = ok mem
outcome (err e, mem) = err e

abbrev pub dispatch : ℕ → Ns → Key → Bytes → MemStore → Result StoreError MemStore
dispatch op ns key value mem =
    if op == op_set
    then outcome (mem_set ns key value mem)
    else if op == op_erase && is_empty value
    then outcome (mem_erase ns key mem)
    else err bad

-- The part of `apply` behind the key: `rest` begins with the value's length.
unfoldable pub apply_value : ℕ → Ns → Key → Bytes → MemStore → Result StoreError MemStore
apply_value op ns key rest mem = do
  vlen ← ok_or (get_to 4 rest) bad
  value ← ok_or (get_range 4 (4 + from_le32 vlen) rest) bad
  if not (4 + from_le32 vlen == length rest) then err bad else dispatch op ns key value mem

unfoldable pub apply_fields : ℕ → ℕ → ℕ → Bytes → MemStore → Result StoreError MemStore
apply_fields op ns klen rest mem = do
  ns ← ok_or (from_u8 ns) bad
  key_bytes ← ok_or (get_to klen rest) bad
  key ← (if is_utf8 key_bytes then key_new key_bytes else err bad)
  apply_value op ns key (drop klen rest) mem

-- On an error the store is dropped by the caller, so only the error is returned.
unfoldable pub apply : Bytes → MemStore → Result StoreError MemStore
apply (op ∷ ns ∷ klen ∷ rest) mem = apply_fields op ns klen rest mem
apply _ mem = err bad

-- `map_err(|_| corrupt(pos, "malformed record"))`
abbrev pub or_malformed : ℕ → Result StoreError MemStore → Result StoreError MemStore
or_malformed pos (ok mem) = ok mem
or_malformed pos (err _) = err (corrupt (at_byte "malformed record" pos))

abbrev pub valid_length : ℕ → Bool
valid_length len = leb 7 len && leb len (7 + key_max + value_max)

module _ (crc32 : Bytes → ℕ) where
  -- The record that `append` and `compact_at` write for a payload.
  unfoldable pub frame : Bytes → Bytes
  frame payload = le32 (length payload) ++ (le32 (crc32 payload) ++ payload)

  -- The loop of `replay`; `rest` is `bytes[pos..]`. `none` says that the fuel ran out.
  unfoldable pub replay_from : ℕ → ℕ → Bytes → MemStore → Option (Result StoreError MemStore)
  replay_from zero pos rest mem = none
  replay_from (suc fuel) pos [] mem = some (ok mem)
  replay_from (suc fuel) pos (b ∷ bs) mem =
      let rest = b ∷ bs in
      let len = from_le32 (take 4 rest) in
      let crc = from_le32 (take 4 (drop 4 rest)) in
      let payload = take len (drop 8 rest) in
      let later =
        elim (or_malformed pos (apply payload mem)) as (λ _. Option (Result StoreError MemStore)) [
          | ok mem' ↦ replay_from fuel (pos + 8 + len) (drop len (drop 8 rest)) mem'
          | err e ↦ some (err e)
        ] in
      if ltb (length rest) 8
      then some (ok mem)
      else if not (valid_length len)
      then some (err (corrupt (at_byte "invalid record length" pos)))
      else if ltb (length rest) (8 + len)
      then some (ok mem)
      else if not (crc32 payload == crc)
      then some (err (corrupt (at_byte "checksum mismatch" pos)))
      else later

  unfoldable pub replay : Bytes → MemStore → Option (Result StoreError MemStore)
  unfolding replay_from
  replay bytes mem =
      if ltb (length bytes) (length magic)
      then (if bytes_eq (take (length bytes) magic) bytes
          then some (ok mem)
          else some (err (corrupt (at_byte "bad magic" 0))))
      else if not (bytes_eq (take (length magic) bytes) magic)
      then some (err (corrupt (at_byte "bad magic" 0)))
      else replay_from (suc (length bytes)) (length magic) (drop (length magic) bytes) mem

-- What becomes of the two calls of `append`: `write_all` and `sync_data`.
pub data Fate : Type 0 where
  -- both succeed
  durable : Fate
  -- `write_all` fails when so many bytes have reached the file
  torn : ℕ → Fate
  -- `sync_data` fails, and all bytes have reached the file
  unsynced : Fate

pub record FileStore : Type 0 where
  pub file : Bytes
  pub mem : MemStore
  -- the fates of the appends to come; those after the last one succeed
  pub fates : List Fate

abbrev pub os_error : StoreError
os_error = io (text "operating system")

abbrev pub next_fate : List Fate → Fate × List Fate
next_fate [] = (durable, [])
next_fate (f ∷ fs) = (f, fs)

abbrev pub written : Fate → Bytes → Result StoreError (Unit {0}) × Bytes
written durable record_bytes = (ok tt, record_bytes)
written (torn n) record_bytes = (err os_error, take n record_bytes)
written unsynced record_bytes = (err os_error, record_bytes)

module _ (crc32 : Bytes → ℕ) where
  unfoldable pub append :
      ℕ → Ns → Key → Bytes → FileStore → Result StoreError (Unit {0}) × FileStore
  unfolding frame encode
  append op ns key value s =
      let (fate, fates) = next_fate s.fates in
      let (r, bytes) = written fate (frame crc32 (encode op ns key value)) in
      (r, record s { file = s.file ++ bytes; fates = fates })

  unfoldable pub file_get : Ns → Key → FileStore → Result StoreError (Option Bytes) × FileStore
  file_get ns key s = let (r, mem) = mem_get ns key s.mem in (r, record s { mem = mem })

  abbrev pub append_then :
      Result StoreError (Unit {0}) × FileStore
      → (MemStore → Result StoreError (Unit {0}) × MemStore)
      → Result StoreError (Unit {0}) × FileStore
  append_then (err e, s) update = (err e, s)
  append_then (ok _, s) update = let (r, mem) = update s.mem in (r, record s { mem = mem })

  unfoldable pub file_set : Ns → Key → Bytes → FileStore → Result StoreError (Unit {0}) × FileStore
  file_set ns key value s = elim (check_fits ns key (length value) s.mem) [
    | err e ↦ (err e, s)
    | ok _ ↦ append_then (append op_set ns key value s) (mem_set ns key value)
  ]

  -- `self.mem.get(ns, key)?` does not fail.
  unfoldable pub file_erase : Ns → Key → FileStore → Result StoreError (Unit {0}) × FileStore
  file_erase ns key s = elim (mem_get ns key s.mem).0 [
    | err e ↦ (err e, s)
    | ok none ↦ (ok tt, s)
    | ok (some _) ↦ append_then (append op_erase ns key [] s) (mem_erase ns key)
  ]

  unfoldable pub file_for_each :
      (A : Type 0) → Ns → Visitor A → FileStore → A → Result StoreError (Unit {0}) × FileStore × A
  file_for_each A ns visitor s a =
      let (r, mem, a') = mem_for_each A ns visitor s.mem a in (r, record s { mem = mem }, a')

  abbrev pub file_ops : Store FileStore
  file_ops = record {
    get = file_get;
    set = file_set;
    erase = file_erase;
    for_each = file_for_each;
    stats = λ s. let (r, mem) = mem_stats s.mem in (r, record s { mem = mem });
  }
