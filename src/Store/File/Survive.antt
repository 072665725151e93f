-- ===== src/Store/File/Survive.antt =====
-- `set` and `erase` of `FileStore`, whatever becomes of the bytes that they append.
use mastomini.Prelude.{
  ◌⊎◌, zero, suc, take_nil, ℕ, ◌≤◌, ◌<◌, ◌^◌, ◌≡◌, refl, some, none, List, [], ◌∷◌, ◌++◌, length,
  take, ltb, arith, ◌⊎◌, zero, suc, take_nil, Result, ok, err, Result-cases, Option-cases,
  Bool-cases, inl, inr, ap, ◌∙◌, sym,
}
use mastomini.Prelude.Bytes.{Bytes}
use mastomini.Prelude.Map.{get}
use mastomini.Store.Key.Order.{slot_ord}
use mastomini.Store.Base.{Ns, StoreError, value_max}
use mastomini.Store.Key.{Key}
use mastomini.Store.Contract.{IsKey}
use mastomini.Store.Mem.{MemStore, default, check_fits, mem_get, mem_set, mem_erase}
use mastomini.Store.File.{
  outcome, FileStore, Fate, durable, torn, unsynced, next_fate, append, append_then, replay, frame,
  written, encode, op_set, op_erase, file_set, file_erase,
}
use mastomini.Store.File.Replay.{Op, put_op, erase_op, payload_of, perform, IsOp, record_of}
use mastomini.Store.File.Append.{IsLogged, IsLogged-append, Survives, replay-torn, replay-IsLogged}

take_ge : {A : Type 0} (n : ℕ) (xs : List A) → length xs ≤ n → take n xs ≡ xs
take_ge n [] h = take_nil n
take_ge zero (x ∷ xs) h = absurd (omega arith)
take_ge (suc n) (x ∷ xs) h = ap (λ t. x ∷ t) (take_ge n xs (omega arith))

fits_small :
    (ns : Ns) (k : Key) (n : ℕ) (mem : MemStore) → check_fits ns k n mem ≡ ok tt → n ≤ value_max
unfolding check_fits
fits_small ns k n mem h = ground arith

pub mem_set-fits :
    (ns : Ns) (k : Key) (value : Bytes) (mem : MemStore)
    → check_fits ns k (length value) mem ≡ ok tt
    → mem_set ns k value mem ≡ (ok tt, (mem_set ns k value mem).1)
unfolding mem_set
mem_set-fits ns k value mem e = rw (e, mem_set) refl

pub mem_erase-ok :
    (ns : Ns) (k : Key) (mem : MemStore) → mem_erase ns k mem ≡ (ok tt, (mem_erase ns k mem).1)
unfolding mem_erase
mem_erase-ok ns k mem = elim (Option-cases (get (ns, k) mem.map)) [
  | inl absent ↦ rw (absent, mem_erase) refl
  | inr (old, e) ↦ rw (e, mem_erase) refl
]

module _ (crc32 : Bytes → ℕ) (crc32_bound : (bytes : Bytes) → crc32 bytes < 2 ^ 32) where
  replay-torn_any :
      {file : Bytes} {mem next : MemStore} (op : Op) (n : ℕ)
      → IsOp op
      → perform op mem ≡ ok next
      → IsLogged crc32 file mem
      → (m : MemStore) × (replay crc32 (file ++ take n (record_of crc32 op)) default ≡ some (ok m))
        × ((m ≡ mem) ⊎ (m ≡ next))
  replay-torn_any {file = file} {mem = mem} {next = next} op n h done l =
      elim (Bool-cases (ltb n (length (record_of crc32 op)))) [
        | inl short ↦ (mem, replay-torn crc32 crc32_bound op n h l (ground arith), inl refl)
        | inr whole ↦ (
          next,
          rw (take_ge n (record_of crc32 op) (ground arith))
              (replay-IsLogged crc32 crc32_bound (IsLogged-append crc32 op h done l)),
          inr refl,
        )
      ]

  pub append-eq :
      (o : ℕ) (ns : Ns) (k : Key) (value : Bytes) (payload : Bytes) (s : FileStore) (fate : Fate)
      (fates : List Fate)
      → payload ≡ encode o ns k value
      → next_fate s.fates ≡ (fate, fates)
      → append crc32 o ns k value s ≡ (
        (written fate (frame crc32 payload)).0,
        record s { file = s.file ++ (written fate (frame crc32 payload)).1; fates = fates },
      )
  unfolding append
  append-eq o ns k value payload s fate fates same e =
      ap
        (λ (f : Fate × List Fate). (
          (written f.0 (frame crc32 (encode o ns k value))).0,
          record s {
            file = s.file ++ (written f.0 (frame crc32 (encode o ns k value))).1;
            fates = f.1;
          },
        ))
        e
      ∙ ap
          (λ (p : Bytes). (
            (written fate (frame crc32 p)).0,
            record s { file = s.file ++ (written fate (frame crc32 p)).1; fates = fates },
          ))
          (sym same)

  append_then-Survives :
      (o : ℕ) (ns : Ns) (k : Key) (value : Bytes) (op : Op) (next : MemStore) (s : FileStore)
      (update : MemStore → Result StoreError (Unit {0}) × MemStore)
      → payload_of op ≡ encode o ns k value
      → IsOp op
      → perform op s.mem ≡ ok next
      → update s.mem ≡ (ok tt, next)
      → IsLogged crc32 s.file s.mem
      → Survives crc32 s.mem next (append_then crc32 (append crc32 o ns k value s) update)
  append_then-Survives o ns k value op next s update same h done up l =
      go (next_fate s.fates).0 (next_fate s.fates).1 refl
    where
      go :
          (fate : Fate) (fates : List Fate)
          → next_fate s.fates ≡ (fate, fates)
          → Survives crc32 s.mem next (append_then crc32 (append crc32 o ns k value s) update)
      go durable fates e =
          rw (append-eq o ns k value (payload_of op) s durable fates same e, up)
            (IsLogged-append crc32 op h done l, refl)
      go (torn n) fates e =
          rw (append-eq o ns k value (payload_of op) s (torn n) fates same e)
            (refl, refl, replay-torn_any op n h done l)
      go unsynced fates e = rw (append-eq o ns k value (payload_of op) s unsynced fates same e) (
        refl,
        refl,
        (next, replay-IsLogged crc32 crc32_bound (IsLogged-append crc32 op h done l), inr refl),
      )

  pub file_set-fits :
      (ns : Ns) (k : Key) (value : Bytes) (s : FileStore)
      → check_fits ns k (length value) s.mem ≡ ok tt
      → file_set crc32 ns k value s
        ≡ append_then crc32 (append crc32 op_set ns k value s) (mem_set ns k value)
  unfolding file_set
  file_set-fits ns k value s e = rw (e, file_set) refl

  pub file_set-refused :
      (ns : Ns) (k : Key) (value : Bytes) (s : FileStore) (error : StoreError)
      → check_fits ns k (length value) s.mem ≡ err error
      → file_set crc32 ns k value s ≡ (err error, s)
  unfolding file_set
  file_set-refused ns k value s error e = rw (e, file_set) refl

  pub file_erase-absent :
      (ns : Ns) (k : Key) (s : FileStore)
      → get (ns, k) s.mem.map ≡ none
      → (file_erase crc32 ns k s ≡ (ok tt, s)) × ((mem_erase ns k s.mem).1 ≡ s.mem)
  unfolding file_erase mem_erase mem_get
  file_erase-absent ns k s e = rw (e, file_erase, mem_erase) (refl, refl)

  pub file_erase-present :
      (ns : Ns) (k : Key) (s : FileStore) (old : Bytes)
      → get (ns, k) s.mem.map ≡ some old
      → file_erase crc32 ns k s
        ≡ append_then crc32 (append crc32 op_erase ns k [] s) (mem_erase ns k)
  unfolding file_erase mem_get
  file_erase-present ns k s old e = rw (e, file_erase) refl

  -- From a file whose operations give the store in memory, for a key made by `Key::new` and a
  -- 32-bit checksum, `set` of `FileStore` does one of two things. Either the value fits, and
  -- whatever becomes of the appended bytes: if it returns ok, the file's operations give the
  -- store in memory, which is what `set` of `MemStore` makes of the old one; if it returns an
  -- error, it is the operating system's, memory is as before, and a replay of the file succeeds
  -- and gives the old store or that new one. Or `check_fits` fails, and `set` returns its error
  -- and changes neither file nor memory.
  pub set-Survives :
      (ns : Ns) (k : Key) (value : Bytes) (s : FileStore)
      → IsKey k
      → IsLogged crc32 s.file s.mem
      → ((check_fits ns k (length value) s.mem ≡ ok tt)
          × Survives crc32 s.mem (mem_set ns k value s.mem).1 (file_set crc32 ns k value s))
        ⊎ ((error : StoreError) × (check_fits ns k (length value) s.mem ≡ err error)
            × (file_set crc32 ns k value s ≡ (err error, s)))
  set-Survives ns k value s key l = elim (Result-cases (check_fits ns k (length value) s.mem)) [
    | inl (_, e) ↦
        let set_ok = mem_set-fits ns k value s.mem e in
        inl (
          e,
          rw (file_set-fits ns k value s e) (
              append_then-Survives op_set ns k value (put_op ns k value)
                (mem_set ns k value s.mem).1 s (mem_set ns k value) refl
                (key, fits_small ns k (length value) s.mem e) (ap outcome set_ok) set_ok l),
        )
    | inr (error, e) ↦ inr (error, e, file_set-refused ns k value s error e)
  ]

  -- From a file whose operations give the store in memory, for a key made by `Key::new` and a
  -- 32-bit checksum, `erase` of `FileStore`, whatever becomes of the bytes that it appends: if it
  -- returns ok, the file's operations give the store in memory, which is what `erase` of
  -- `MemStore` makes of the old one; if it returns an error, it is the operating system's, memory
  -- is as before, and a replay of the file succeeds and gives the old store or that new one.
  pub erase-Survives :
      (ns : Ns) (k : Key) (s : FileStore)
      → IsKey k
      → IsLogged crc32 s.file s.mem
      → Survives crc32 s.mem (mem_erase ns k s.mem).1 (file_erase crc32 ns k s)
  erase-Survives ns k s key l = elim (Option-cases (get (ns, k) s.mem.map)) [
    | inl absent ↦
        let (unchanged, same) = file_erase-absent ns k s absent in rw unchanged (l, sym same)
    | inr (old, e) ↦
        let erase_ok = mem_erase-ok ns k s.mem in
        rw (file_erase-present ns k s old e) (
          append_then-Survives op_erase ns k [] (erase_op ns k) (mem_erase ns k s.mem).1 s
            (mem_erase ns k) refl key (ap outcome erase_ok) erase_ok l)
  ]
