-- ===== src/Domain/Writer/Effect.antt =====
-- What `put` and `erase` of the service do to the view of an exact store.
use mastomini.Prelude.{
  ◌≡◌, refl, Bool, true, false, Option, none, some, ◌==◌, Result, ok, err, inl, inr, Result-cases,
  Bool-cases,
}
use mastomini.Prelude.Bytes.{Bytes}
use mastomini.Prelude.Word.{u64_max}
use mastomini.Store.Base.{Ns, StoreError, bad_key, value_too_large, full, io, corrupt}
use mastomini.Store.Key.{Key}
use mastomini.Store.Trait.{Store}
use mastomini.Store.Contract.{View, IsKey, Unchanged, Updated, Writes, IsStore, IsExact, is_refusal}
use mastomini.Domain.Base.{Error}
use mastomini.Domain.Codec.{Kind, encode}
use mastomini.Domain.Writer.{Service, writable, mapped, map_store_error, stored, put, erase}
use mastomini.Domain.Writer.Step.{stored-eq, stored-refused}

-- The ids are used up.
abbrev pub is_exhausted : {S A : Type 0} → Service S A → Bool
is_exhausted s = s.ids.last == u64_max

module _ {S : Type 0} (IsValid : S → Type 0) (view : S → View) where
  -- A write that succeeds makes `New` of the view, one that fails latches the service, or `Old` holds.
  abbrev pub Effect :
      {A : Type 0}
      → (View → View → Type 0)
      → (View → View → Type 0)
      → Service S A
      → Result Error (Unit {0}) × Service S A
      → Type 0
  Effect New Old s (ok _, s') =
      IsValid s'.store
      × (s'.ids ≡ s.ids)
      × (is_exhausted s ≡ false)
      × (s'.latched ≡ s.latched)
      × New (view s.store) (view s'.store)
  Effect New Old s (err _, s') =
      IsValid s'.store
      × (s'.ids ≡ s.ids)
      × (s'.latched ≡ none → (s.latched ≡ none) × Old (view s.store) (view s'.store))

  -- The same of the store's own method.
  abbrev Did :
      (View → View → Type 0)
      → (View → View → Type 0)
      → S
      → Result StoreError (Unit {0}) × S
      → Type 0
  Did New Old s (ok _, s') = IsValid s' × New (view s) (view s')
  Did New Old s (err e, s') = IsValid s' × (is_refusal e ≡ true → Old (view s) (view s'))

  pub writable-fresh : {A : Type 0} (s : Service S A) → writable s ≡ ok tt → is_exhausted s ≡ false
  unfolding writable
  writable-fresh s h = elim (Bool-cases (is_exhausted s)) [
    | inl used ↦ absurd (cc (rw (used, writable) at h))
    | inr left ↦ left
  ]

  writable-latched_none :
      {A : Type 0} (s : Service S A) (e : Error)
      → writable s ≡ err e
      → s.latched ≡ none
      → is_exhausted s ≡ true
  unfolding writable
  writable-latched_none s e h n = elim (Bool-cases (is_exhausted s)) [
    | inl used ↦ used
    | inr left ↦ absurd (cc (rw (left, n, writable) at h))
  ]

  module _ {A : Type 0} (New Old : View → View → Type 0) where
    mapped-Effect :
        (r : Result StoreError (Unit {0})) (after : S) (s : Service S A)
        → is_exhausted s ≡ false
        → Did New Old s.store (r, after)
        → Effect New Old s (mapped r (record s { store = after }))
    unfolding mapped map_store_error
    mapped-Effect (ok _) after s f (v, new) = (v, refl, f, refl, new)
    mapped-Effect (err bad_key) after s f (v, old) = (v, refl, λ n. (n, old refl))
    mapped-Effect (err value_too_large) after s f (v, old) = (v, refl, λ n. (n, old refl))
    mapped-Effect (err full) after s f (v, old) = (v, refl, λ n. (n, old refl))
    mapped-Effect (err (io m)) after s f (v, old) = (v, refl, λ n. absurd (cc n))
    mapped-Effect (err (corrupt m)) after s f (v, old) = (v, refl, λ n. absurd (cc n))

    stored-Effect :
        (write : S → Result StoreError (Unit {0}) × S) (s : Service S A)
        → IsValid s.store
        → (is_exhausted s ≡ true → Old (view s.store) (view s.store))
        → Did New Old s.store (write s.store)
        → Effect New Old s (stored write s)
    stored-Effect write s v idle did = elim (Result-cases (writable s)) [
      | inl (_, e) ↦
          rw (stored-eq write s e)
            (mapped-Effect (write s.store).0 (write s.store).1 s (writable-fresh s e) did)
      | inr (e, h) ↦
          rw (stored-refused write s e h) (v, refl, λ n. (n, idle (writable-latched_none s e h n)))
    ]

-- A value is written in its encoding.
abbrev pub Put : {T : Type 0} → (T → Option Bytes) → Ns → Key → Kind → T → View → View → Type 0
Put to_allocvec ns k kind value v w =
    (bytes : Bytes) × (encode to_allocvec kind value ≡ ok bytes) × Updated (ns, k) (some bytes) v w

-- What an `erase` that fails may leave: nothing, when the ids are used up.
abbrev pub Kept : {S A : Type 0} → Service S A → View → View → Type 0
Kept s v w = (is_exhausted s ≡ true) × Unchanged v w

module _ {S T : Type 0} (ops : Store S) (IsValid : S → Type 0) (view : S → View)
    (store : IsStore ops IsValid view) (exact : IsExact ops IsValid view)
    (to_allocvec : T → Option Bytes) where
  set_bytes-Did :
      (ns : Ns) (k : Key) (kind : Kind) (value : T) (bytes : Bytes) (s : S)
      → IsKey k
      → IsValid s
      → encode to_allocvec kind value ≡ ok bytes
      → Did IsValid view (Put to_allocvec ns k kind value) Unchanged s (ops.set ns k bytes s)
  set_bytes-Did ns k kind value bytes s key v e =
      go (ops.set ns k bytes s).0 (ops.set ns k bytes s).1 (store.set_valid ns k bytes s key v)
        (store.set_writes ns k bytes s v) (λ error h. store_exact error h)
    where
      store_exact :
          (error : StoreError)
          → (ops.set ns k bytes s).0 ≡ err error
          → is_refusal error ≡ true
          → Unchanged (view s) (view (ops.set ns k bytes s).1)
      store_exact error h = exact.set_exact ns k bytes s error v h

      go :
          (r : Result StoreError (Unit {0})) (after : S)
          → IsValid after
          → Writes (ns, k) (some bytes) (view s) r (view after)
          → ((error : StoreError)
              → r ≡ err error
              → is_refusal error ≡ true
              → Unchanged (view s) (view after))
          → Did IsValid view (Put to_allocvec ns k kind value) Unchanged s (r, after)
      go (ok _) after v' w x = (v', (bytes, e, w))
      go (err error) after v' w x = (v', x error refl)

  written-Did :
      (ns : Ns) (k : Key) (kind : Kind) (value : T) (s : S) (r : Result StoreError Bytes)
      → encode to_allocvec kind value ≡ r
      → IsKey k
      → IsValid s
      → Did IsValid view
          (Put to_allocvec ns k kind value)
          Unchanged
          s
          (elim r as (λ _. Result StoreError (Unit {0}) × S) [
            | err e ↦ (err e, s)
            | ok bytes ↦ ops.set ns k bytes s
          ])
  written-Did ns k kind value s (ok bytes) e key v = set_bytes-Did ns k kind value bytes s key v e
  written-Did ns k kind value s (err error) e key v = (v, λ _ at. refl)

  pub put-Effect :
      {A : Type 0} (ns : Ns) (k : Key) (kind : Kind) (value : T) (s : Service S A)
      → IsKey k
      → IsValid s.store
      → Effect IsValid view
          (Put to_allocvec ns k kind value)
          Unchanged
          s
          (put ops to_allocvec ns k kind value s)
  unfolding put
  put-Effect ns k kind value s key v =
      stored-Effect IsValid view (Put to_allocvec ns k kind value) Unchanged _ _ v (λ _ at. refl)
        (written-Did ns k kind value s.store (encode to_allocvec kind value) refl key v)

  erase-Did :
      {A : Type 0} (ns : Ns) (k : Key) (s : Service S A)
      → IsValid s.store
      → Did IsValid view (Updated (ns, k) none) (Kept s) s.store (ops.erase ns k s.store)
  erase-Did ns k s v =
      go (ops.erase ns k s.store).0 (ops.erase ns k s.store).1 (store.erase_valid ns k s.store v)
        (store.erase_writes ns k s.store v) (λ e h. exact.erase_exact ns k s.store e v h)
    where
      go :
          (r : Result StoreError (Unit {0})) (after : S)
          → IsValid after
          → Writes (ns, k) none (view s.store) r (view after)
          → ((e : StoreError) → r ≡ err e → is_refusal e ≡ false)
          → Did IsValid view (Updated (ns, k) none) (Kept s) s.store (r, after)
      go (ok _) after v' w x = (v', w)
      go (err e) after v' w x = (v', λ refused. absurd (cc (x e refl)))

  pub erase-Effect :
      {A : Type 0} (ns : Ns) (k : Key) (s : Service S A)
      → IsValid s.store
      → Effect IsValid view (Updated (ns, k) none) (Kept s) s (erase ops to_allocvec ns k s)
  unfolding erase
  erase-Effect ns k s v =
      stored-Effect IsValid view (Updated (ns, k) none) (Kept s) _ _ v (λ used. (used, λ at. refl))
        (erase-Did ns k s v)
