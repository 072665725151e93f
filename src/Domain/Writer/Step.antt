-- ===== src/Domain/Writer/Step.antt =====
-- One write of the service over the log file.
use mastomini.Prelude.{
  ℕ, ◌<◌, ◌^◌, ◌≡◌, ◌⊎◌, refl, Option, none, some, Result, ok, err, inl, inr, Result-cases,
}
use mastomini.Prelude.Bytes.{Bytes}
use mastomini.Store.Base.{Ns, StoreError, bad_key, value_too_large, full, io, corrupt}
use mastomini.Store.Key.{Key}
use mastomini.Store.Contract.{IsKey}
use mastomini.Store.Mem.{MemStore, default, mem_set, mem_erase}
use mastomini.Store.File.{FileStore, os_error, replay, file_set, file_erase}
use mastomini.Store.File.Append.{IsLogged, Survives, replay-IsLogged}
use mastomini.Store.File.Survive.{set-Survives, erase-Survives}
use mastomini.Domain.Base.{Text, Error}
use mastomini.Domain.Codec.{encode}
use mastomini.Domain.Writer.{
  Service, writable, mapped, map_store_error, stored, Change, put_value, erase_value,
}

-- What an acknowledged write makes of the store in memory.
unfoldable pub mem_change : {T : Type 0} → (T → Option Bytes) → Change T → MemStore → MemStore
mem_change to_allocvec (put_value ns key kind value) mem = elim (encode to_allocvec kind value) [
  | ok bytes ↦ (mem_set ns key bytes mem).1
  | err _ ↦ mem
]
mem_change to_allocvec (erase_value ns key) mem = (mem_erase ns key mem).1

-- The fields of `Key` are private: every key comes from `Key::new`.
abbrev pub IsChange : {T : Type 0} → Change T → Type 0
IsChange (put_value ns key kind value) = IsKey key
IsChange (erase_value ns key) = IsKey key

pub stored-eq :
    {S A : Type 0} (write : S → Result StoreError (Unit {0}) × S) (s : Service S A)
    → writable s ≡ ok tt
    → stored write s ≡ mapped (write s.store).0 (record s { store = (write s.store).1 })
unfolding stored
stored-eq write s e = rw (e, stored) refl

pub stored-refused :
    {S A : Type 0} (write : S → Result StoreError (Unit {0}) × S) (s : Service S A) (e : Error)
    → writable s ≡ err e
    → stored write s ≡ (err e, s)
unfolding stored
stored-refused write s e h = rw (h, stored) refl

module _ (crc32 : Bytes → ℕ) where
  -- The file replays to one of two stores.
  abbrev pub Recovers : Bytes → MemStore → MemStore → Type 0
  Recovers file mem next =
      (m : MemStore) × (replay crc32 file default ≡ some (ok m)) × ((m ≡ mem) ⊎ (m ≡ next))

  -- What a call of the file store does that would make `next` of the store in memory.
  abbrev pub Wrote : FileStore → MemStore → Result StoreError (Unit {0}) × FileStore → Type 0
  Wrote store next (ok _, after) = IsLogged crc32 after.file after.mem × (after.mem ≡ next)
  Wrote store next (err e, after) =
      (after ≡ store)
      ⊎ ((e ≡ os_error) × (after.mem ≡ store.mem) × Recovers after.file store.mem next)

  pub data Stepped {A : Type 0} (store : FileStore) (next : MemStore) (r : Result Error (Unit {0}))
      (s' : Service FileStore A) : Type 0 where
    acknowledged :
        r ≡ ok tt
        → s'.latched ≡ none
        → IsLogged crc32 s'.store.file s'.store.mem
        → s'.store.mem ≡ next
        → Stepped store next r s'
    refused :
        (e : Error) → r ≡ err e → s'.latched ≡ none → s'.store ≡ store → Stepped store next r s'
    failed :
        (e : Error)
        → r ≡ err e
        → (message : Text) → s'.latched ≡ some message
        → s'.store.mem ≡ store.mem
        → Recovers s'.store.file store.mem next
        → Stepped store next r s'

  pub set-Wrote :
      (crc32_bound : (bytes : Bytes) → crc32 bytes < 2 ^ 32) (ns : Ns) (k : Key) (value : Bytes)
      (s : FileStore)
      → IsKey k
      → IsLogged crc32 s.file s.mem
      → Wrote s (mem_set ns k value s.mem).1 (file_set crc32 ns k value s)
  set-Wrote crc32_bound ns k value s key l =
      elim (set-Survives crc32 crc32_bound ns k value s key l) [
        | inl (fits, h) ↦ go (file_set crc32 ns k value s) h
        | inr (e, fits, same) ↦ rw same (inl refl)
      ]
    where
      go :
          (p : Result StoreError (Unit {0}) × FileStore)
          → Survives crc32 s.mem (mem_set ns k value s.mem).1 p
          → Wrote s (mem_set ns k value s.mem).1 p
      go (ok _, after) h = h
      go (err e, after) h = inr h

  pub erase-Wrote :
      (crc32_bound : (bytes : Bytes) → crc32 bytes < 2 ^ 32) (ns : Ns) (k : Key) (s : FileStore)
      → IsKey k
      → IsLogged crc32 s.file s.mem
      → Wrote s (mem_erase ns k s.mem).1 (file_erase crc32 ns k s)
  erase-Wrote crc32_bound ns k s key l =
      go (file_erase crc32 ns k s) (erase-Survives crc32 crc32_bound ns k s key l)
    where
      go :
          (p : Result StoreError (Unit {0}) × FileStore)
          → Survives crc32 s.mem (mem_erase ns k s.mem).1 p
          → Wrote s (mem_erase ns k s.mem).1 p
      go (ok _, after) h = h
      go (err e, after) h = inr h

  module _ (crc32_bound : (bytes : Bytes) → crc32 bytes < 2 ^ 32) {A : Type 0} where
    -- An error that leaves the store alone latches or not.
    mapped-unchanged :
        (e : StoreError) (s : Service FileStore A) (next : MemStore)
        → s.latched ≡ none
        → IsLogged crc32 s.store.file s.store.mem
        → Stepped s.store next (mapped (err e) s).0 (mapped (err e) s).1
    unfolding mapped map_store_error
    mapped-unchanged bad_key s next n l = refused _ refl n refl
    mapped-unchanged value_too_large s next n l = refused _ refl n refl
    mapped-unchanged full s next n l = refused _ refl n refl
    mapped-unchanged (io m) s next n l =
        failed _ refl _ refl refl (s.store.mem, replay-IsLogged crc32 crc32_bound l, inl refl)
    mapped-unchanged (corrupt m) s next n l =
        failed _ refl _ refl refl (s.store.mem, replay-IsLogged crc32 crc32_bound l, inl refl)

    mapped-Stepped :
        (r : Result StoreError (Unit {0})) (after : FileStore) (s : Service FileStore A)
        (next : MemStore)
        → s.latched ≡ none
        → IsLogged crc32 s.store.file s.store.mem
        → Wrote s.store next (r, after)
        → Stepped s.store next
            (mapped r (record s { store = after })).0
            (mapped r (record s { store = after })).1
    unfolding mapped map_store_error
    mapped-Stepped (ok _) after s next n l w = acknowledged refl n w.0 w.1
    mapped-Stepped (err e) after s next n l (inl same) = rw same (mapped-unchanged e s next n l)
    mapped-Stepped (err e) after s next n l (inr (os, kept, found)) =
        rw os (failed _ refl _ refl kept found)

    pub stored-Stepped :
        (write : FileStore → Result StoreError (Unit {0}) × FileStore) (s : Service FileStore A)
        (next : MemStore)
        → s.latched ≡ none
        → IsLogged crc32 s.store.file s.store.mem
        → Wrote s.store next (write s.store)
        → Stepped s.store next (stored write s).0 (stored write s).1
    stored-Stepped write s next n l w = elim (Result-cases (writable s)) [
      | inl (_, e) ↦
          rw (stored-eq write s e) (mapped-Stepped (write s.store).0 (write s.store).1 s next n l w)
      | inr (e, h) ↦ rw (stored-refused write s e h) (refused e refl n refl)
    ]
