-- ===== src/Domain/Writer.antt =====
-- How the service of mastomini_rs/src/domain/mod.rs writes: `put` and `erase`, and the latch that
-- refuses every write behind a storage failure. What the caches hold, `A`, is left open.
pub mod Step
pub mod Durable
pub mod Effect
use mastomini.Prelude.{
  ◌∷◌, ℕ, Bool, true, false, Option, none, some, List, [], ◌==◌, if◌then◌else◌, Result, ok, err,
}
use mastomini.Prelude.Word.{u64_max}
use mastomini.Prelude.Bytes.{Bytes}
use mastomini.Ids.{IdGen}
use mastomini.Store.Base.{Ns, StoreError, bad_key, value_too_large, full, io, corrupt}
use mastomini.Store.Key.{Key}
use mastomini.Store.Trait.{Store}
use mastomini.Domain.Base.{
  Text, literal, rejected, restart_required, Error, invalid, unavailable, Governor,
}
use mastomini.Domain.Codec.{Kind, encode}

-- What is derived from the durable state. `session` is the plaintext cache of the session, if one
-- is open.
pub record Caches (A : Type 0) : Type 0 where
  pub account_stats : Option A
  pub rendered_accounts : Option (List A)
  pub session : Option (List A)
  pub next_poll_check : Option ℕ

pub record Service (S A : Type 0) : Type 0 where
  pub store : S
  pub latched : Option Text
  pub ids : IdGen
  pub governor : Governor
  pub caches : Caches A

abbrev cleared : {A : Type 0} → Option (List A) → Option (List A)
cleared none = none
cleared (some _) = some []

-- The kinds from which the account statistics are derived.
unfoldable pub is_counted : Kind → Bool
is_counted Kind.account = true
is_counted Kind.account_with_key = true
is_counted Kind.status = true
is_counted Kind.follow = true
is_counted Kind.block = true
is_counted _ = false

unfoldable pub is_poll : Kind → Bool
is_poll Kind.poll = true
is_poll _ = false

unfoldable pub is_counted_ns : Ns → Bool
is_counted_ns Ns.stat = true
is_counted_ns Ns.acct = true
is_counted_ns Ns.rel = true
is_counted_ns _ = false

unfoldable pub is_stat : Ns → Bool
is_stat Ns.stat = true
is_stat _ = false

-- What both drop: the statistics and the next poll check on a condition, the renderings always.
abbrev pub dropped : {A : Type 0} → Bool → Bool → Caches A → Caches A
dropped stats polls c = record {
  account_stats = if stats then none else c.account_stats;
  rendered_accounts = cleared c.rendered_accounts;
  session = cleared c.session;
  next_poll_check = if polls then none else c.next_poll_check;
}

abbrev latch : {S A : Type 0} → StoreError → Service S A → Error × Service S A
latch e s = (unavailable (restart_required e), record s { latched = some (restart_required e) })

unfoldable pub map_store_error : {S A : Type 0} → StoreError → Service S A → Error × Service S A
map_store_error full s = (invalid (literal "The server's storage is full"), s)
map_store_error bad_key s = (invalid (rejected bad_key), s)
map_store_error value_too_large s = (invalid (rejected value_too_large), s)
map_store_error (io m) s = latch (io m) s
map_store_error (corrupt m) s = latch (corrupt m) s

unfoldable pub writable : {S A : Type 0} → Service S A → Result Error (Unit {0})
writable s =
    if s.ids.last == u64_max
    then err (unavailable (literal "Status ID space exhausted"))
    else elim s.latched [ some message ↦ err (unavailable message) | none ↦ ok tt ]

-- `.map_err(|e| self.map_store_error(e))`
unfoldable pub mapped :
    {S A : Type 0}
    → Result StoreError (Unit {0})
    → Service S A
    → Result Error (Unit {0}) × Service S A
unfolding map_store_error
mapped (ok _) s = (ok tt, s)
mapped (err e) s = let (e', s') = map_store_error e s in (err e', s')

-- A call of the store, from `writable` on.
unfoldable pub stored :
    {S A : Type 0}
    → (S → Result StoreError (Unit {0}) × S)
    → Service S A
    → Result Error (Unit {0}) × Service S A
unfolding writable mapped
stored write s = elim (writable s) [
  | err e ↦ (err e, s)
  | ok _ ↦ let (r, store') = write s.store in mapped r (record s { store = store' })
]

module _ {S A T : Type 0} (ops : Store S) (to_allocvec : T → Option Bytes) where
  unfoldable pub put : Ns → Key → Kind → T → Service S A → Result Error (Unit {0}) × Service S A
  unfolding is_counted is_poll
  put ns key kind value s =
      let s' = record s { caches = dropped (is_counted kind) (is_poll kind) s.caches } in
      stored
        (λ store. elim (encode to_allocvec kind value) [
          | err e ↦ (err e, store)
          | ok bytes ↦ ops.set ns key bytes store
        ])
        s'

  unfoldable pub erase : Ns → Key → Service S A → Result Error (Unit {0}) × Service S A
  unfolding is_counted_ns is_stat
  erase ns key s =
      let s' = record s { caches = dropped (is_counted_ns ns) (is_stat ns) s.caches } in
      stored (ops.erase ns key) s'

-- A write of the service.
pub data Change (T : Type 0) : Type 0 where
  put_value : Ns → Key → Kind → T → Change T
  erase_value : Ns → Key → Change T

abbrev pub change :
    {S A T : Type 0}
    → Store S
    → (T → Option Bytes)
    → Change T
    → Service S A
    → Result Error (Unit {0}) × Service S A
change ops to_allocvec (put_value ns key kind value) s = put ops to_allocvec ns key kind value s
change ops to_allocvec (erase_value ns key) s = erase ops to_allocvec ns key s

-- The service after some writes, whatever each of them returned.
abbrev pub changed :
    {S A T : Type 0} → Store S → (T → Option Bytes) → List (Change T) → Service S A → Service S A
changed ops to_allocvec [] s = s
changed ops to_allocvec (c ∷ cs) s = changed ops to_allocvec cs (change ops to_allocvec c s).1
