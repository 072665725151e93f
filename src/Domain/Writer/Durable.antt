-- ===== src/Domain/Writer/Durable.antt =====
-- Any writes of the service over the log file, whatever becomes of the bytes that each appends.
use mastomini.Prelude.{
  sym, ◌∙◌, All, ℕ, ◌<◌, ◌^◌, ◌≡◌, ◌⊎◌, refl, Bool, true, false, Option, none, some, List, [], ◌∷◌,
  ◌==◌, Result, ok, err, inl, inr, Bool-cases, if◌then◌else◌,
}
use mastomini.Prelude.Word.{u64_max}
use mastomini.Prelude.Bytes.{Bytes}
use mastomini.Store.Base.{StoreError}
use mastomini.Store.Trait.{Store}
use mastomini.Store.Mem.{MemStore, default, mem_set}
use mastomini.Store.File.{replay, replay, FileStore, file_ops, file_set}
use mastomini.Store.File.Append.{replay-IsLogged, IsLogged}
use mastomini.Domain.Base.{literal, Text, Error, unavailable}
use mastomini.Domain.Codec.{encode}
use mastomini.Domain.Writer.{
  changed, dropped, is_counted, is_poll, Service, writable, stored, put, erase, Change, put_value,
  erase_value, change,
}
use mastomini.Domain.Writer.Step.{
  failed, Recovers, refused, acknowledged, mem_change, IsChange, Wrote, set-Wrote, erase-Wrote,
  stored-Stepped, stored-refused, Stepped,
}

-- The store after one more write, which returned so.
abbrev pub if_acknowledged : Result Error (Unit {0}) → MemStore → MemStore → MemStore
if_acknowledged (ok _) next mem = next
if_acknowledged (err _) next mem = mem

abbrev pub is_new : Option Text → Option Text → Bool
is_new none (some _) = true
is_new _ _ = false

-- A latched service refuses every write, and writes nothing.
writable-latched :
    {S A : Type 0} (s : Service S A) (message : Text)
    → s.latched ≡ some message
    → (e : Error) × (writable s ≡ err e)
unfolding writable
writable-latched s message h = elim (Bool-cases (s.ids.last == u64_max)) [
  | inl full ↦ (unavailable (literal "Status ID space exhausted"), rw (full, writable) refl)
  | inr left ↦ (unavailable message, rw (left, writable) (rw h refl))
]

stored-latched :
    {S A : Type 0} (write : S → Result StoreError (Unit {0}) × S) (s : Service S A) (message : Text)
    → s.latched ≡ some message
    → ((stored write s).1.store ≡ s.store)
      × ((stored write s).1.latched ≡ some message)
      × ((e : Error) × ((stored write s).0 ≡ err e))
stored-latched write s message h =
    let (e, w) = writable-latched s message h in
    rw (stored-refused write s e w) (refl, h, (e, refl))

-- Over any store, once a service has latched a storage failure, every `put` and `erase` returns
-- an error, changes nothing in the store, and keeps the latch.
pub change-latched :
    {S A T : Type 0} (ops : Store S) (to_allocvec : T → Option Bytes) (c : Change T)
    (s : Service S A) (message : Text)
    → s.latched ≡ some message
    → ((change ops to_allocvec c s).1.store ≡ s.store)
      × ((change ops to_allocvec c s).1.latched ≡ some message)
      × ((e : Error) × ((change ops to_allocvec c s).0 ≡ err e))
unfolding put erase
change-latched ops to_allocvec (put_value ns key kind value) s message h =
    stored-latched _ _ message h
change-latched ops to_allocvec (erase_value ns key) s message h = stored-latched _ _ message h

module _ (crc32 : Bytes → ℕ) {A T : Type 0} (to_allocvec : T → Option Bytes) where
  -- The state that the acknowledged ones of some writes make of the store in memory.
  unfoldable pub acknowledged_mem : List (Change T) → Service FileStore A → MemStore → MemStore
  unfolding mem_change
  acknowledged_mem [] s mem = mem
  acknowledged_mem (c ∷ cs) s mem =
      let (r, s') = change (file_ops crc32) to_allocvec c s in
      acknowledged_mem cs s' (if_acknowledged r (mem_change to_allocvec c mem) mem)

  -- The write at which the service latched, if there is one.
  unfoldable pub interrupted : List (Change T) → Service FileStore A → Option (Change T)
  interrupted [] s = none
  interrupted (c ∷ cs) s =
      let s' = (change (file_ops crc32) to_allocvec c s).1 in
      let later = interrupted cs s' in if is_new s.latched s'.latched then some c else later

  -- After the writes: memory is what the acknowledged ones made of `mem`, and the file replays to it,
  -- or to it with the write that was interrupted.
  abbrev pub IsDurable :
      List (Change T) → Service FileStore A → Service FileStore A → MemStore → Type 0
  IsDurable cs s s' mem =
      (s'.store.mem ≡ acknowledged_mem cs s mem)
      × ((m : MemStore) × (replay crc32 s'.store.file default ≡ some (ok m))
          × ((m ≡ s'.store.mem)
              ⊎ ((c : Change T) × (interrupted cs s ≡ some c)
                  × (m ≡ mem_change to_allocvec c s'.store.mem))))

  module _ (crc32_bound : (bytes : Bytes) → crc32 bytes < 2 ^ 32) where
    change-Stepped :
        (c : Change T) (s : Service FileStore A)
        → IsChange c
        → s.latched ≡ none
        → IsLogged crc32 s.store.file s.store.mem
        → Stepped crc32 s.store
            (mem_change to_allocvec c s.store.mem)
            (change (file_ops crc32) to_allocvec c s).0
            (change (file_ops crc32) to_allocvec c s).1
    unfolding put erase mem_change
    change-Stepped (put_value ns key kind value) s valid n l =
        stored-Stepped crc32 crc32_bound
          (λ store. elim (encode to_allocvec kind value) [
            | err e ↦ (err e, store)
            | ok bytes ↦ file_set crc32 ns key bytes store
          ])
          (record s { caches = dropped (is_counted kind) (is_poll kind) s.caches })
          (mem_change to_allocvec (put_value ns key kind value) s.store.mem) n l
          (go (encode to_allocvec kind value))
      where
        go :
            (r : Result StoreError Bytes)
            → Wrote crc32 s.store
                (elim r as (λ _. MemStore) [
                  | ok bytes ↦ (mem_set ns key bytes s.store.mem).1
                  | err _ ↦ s.store.mem
                ])
                (elim r as (λ _. Result StoreError (Unit {0}) × FileStore) [
                  | err e ↦ (err e, s.store)
                  | ok bytes ↦ file_set crc32 ns key bytes s.store
                ])
        go (ok bytes) = set-Wrote crc32 crc32_bound ns key bytes s.store valid l
        go (err e) = inl refl
    change-Stepped (erase_value ns key) s valid n l =
        stored-Stepped crc32 crc32_bound _ _ _ n l
          (erase-Wrote crc32 crc32_bound ns key s.store valid l)

    changed-latched :
        (cs : List (Change T)) (s : Service FileStore A) (message : Text) (mem : MemStore)
        → s.latched ≡ some message
        → ((changed (file_ops crc32) to_allocvec cs s).store ≡ s.store)
          × (acknowledged_mem cs s mem ≡ mem)
    unfolding acknowledged_mem
    changed-latched [] s message mem h = (refl, refl)
    changed-latched (c ∷ cs) s message mem h =
        let (kept, still, (e, failed_so)) =
          change-latched (file_ops crc32) to_allocvec c s message h in
        let (later, same) =
          changed-latched cs (change (file_ops crc32) to_allocvec c s).1 message mem still in
        (later ∙ kept, rw failed_so same)

    -- A write that does not latch, in front of others.
    IsDurable-cons :
        (c : Change T) (cs : List (Change T)) (s s' : Service FileStore A) (mem mem' : MemStore)
        → if_acknowledged
            (change (file_ops crc32) to_allocvec c s).0
            (mem_change to_allocvec c mem)
            mem
          ≡ mem'
        → is_new s.latched (change (file_ops crc32) to_allocvec c s).1.latched ≡ false
        → IsDurable cs (change (file_ops crc32) to_allocvec c s).1 s' mem'
        → IsDurable (c ∷ cs) s s' mem
    unfolding acknowledged_mem interrupted
    IsDurable-cons c cs s s' mem mem' e1 e2 d = rw (e1, e2) d

    -- The write that latches, in front of others.
    IsDurable-last :
        (c : Change T) (cs : List (Change T)) (s s' : Service FileStore A) (mem : MemStore)
        → acknowledged_mem cs (change (file_ops crc32) to_allocvec c s).1 (
            if_acknowledged
              (change (file_ops crc32) to_allocvec c s).0
              (mem_change to_allocvec c mem)
              mem)
          ≡ mem
        → is_new s.latched (change (file_ops crc32) to_allocvec c s).1.latched ≡ true
        → s'.store.mem ≡ mem
        → Recovers crc32 s'.store.file mem (mem_change to_allocvec c mem)
        → IsDurable (c ∷ cs) s s' mem
    unfolding acknowledged_mem interrupted
    IsDurable-last c cs s s' mem e1 e2 kept (m, replays, inl old) =
        (kept ∙ sym e1, (m, replays, inl (old ∙ sym kept)))
    IsDurable-last c cs s s' mem e1 e2 kept (m, replays, inr new) =
        (kept ∙ sym e1, (m, replays, inr (c, rw e2 refl, rw kept new)))

    -- For a 32-bit checksum, any list of `put` and `erase` calls of a service that has not
    -- latched, each under a key made by `Key::new`, over a log file whose operations give the
    -- store in memory, and any fate of the bytes that each call appends: afterwards the store in
    -- memory is what the acknowledged calls, and no others, make of the old one; and a replay of
    -- the file succeeds, and gives that store, or that store with the one call added at which the
    -- service latched.
    pub changed-IsDurable :
        (cs : List (Change T)) (s : Service FileStore A)
        → All IsChange cs
        → s.latched ≡ none
        → IsLogged crc32 s.store.file s.store.mem
        → IsDurable cs s (changed (file_ops crc32) to_allocvec cs s) s.store.mem
    unfolding acknowledged_mem
    changed-IsDurable [] s valid n l =
        (refl, (s.store.mem, replay-IsLogged crc32 crc32_bound l, inl refl))
    changed-IsDurable (c ∷ cs) s valid n l =
        go (change-Stepped c s valid.0 n l)
          (λ n' l'. changed-IsDurable cs (change (file_ops crc32) to_allocvec c s).1 valid.1 n' l')
      where
        s' : Service FileStore A
        s' = (change (file_ops crc32) to_allocvec c s).1

        go :
            Stepped crc32 s.store
              (mem_change to_allocvec c s.store.mem)
              (change (file_ops crc32) to_allocvec c s).0
              (change (file_ops crc32) to_allocvec c s).1
            → (s'.latched ≡ none
                → IsLogged crc32 s'.store.file s'.store.mem
                → IsDurable cs s' (changed (file_ops crc32) to_allocvec cs s') s'.store.mem)
            → IsDurable (c ∷ cs) s (changed (file_ops crc32) to_allocvec (c ∷ cs) s) s.store.mem
        go (acknowledged r n' l' e) ih =
            IsDurable-cons c cs s (changed (file_ops crc32) to_allocvec cs s') s.store.mem
              s'.store.mem (rw r (sym e)) (rw (n', n) refl) (ih n' l')
        go (refused error r n' e) ih =
            IsDurable-cons c cs s (changed (file_ops crc32) to_allocvec cs s') s.store.mem
              s'.store.mem (rw (r, e) refl) (rw (n', n) refl) (ih n' (rw e l))
        go (failed error r message at kept (m, replays, which)) ih =
            let (kept_on, same) = changed-latched cs s' message s.store.mem at in
            IsDurable-last c cs s (changed (file_ops crc32) to_allocvec cs s') s.store.mem
              (rw r same) (rw (at, n) refl) (rw kept_on kept) (rw kept_on (m, replays, which))
