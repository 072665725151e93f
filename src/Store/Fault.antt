-- ===== src/Store/Fault.antt =====
-- `FaultStore` of mastomini_rs/src/store/mem.rs: injected failures and power cuts around a store.
pub mod Laws
pub mod Refines
pub mod Contract
use mastomini.Prelude.{
  ℕ, ◌+◌, ◌-◌, Bool, true, false, Option, none, some, leb, ltb, ◌==◌, not, if◌then◌else◌, Result,
  ok, err,
}
use mastomini.Prelude.Bytes.{Bytes}
use mastomini.Store.Base.{
  Ns, StoreError, full, io, power_cut, injected, StoreStats, Failure, write, persist_then_error,
  full_store, read, enumerate, visit, stats,
}
use mastomini.Store.Key.{Key}
use mastomini.Store.Trait.{Store, Visitor}

pub record FaultStore (S : Type 0) : Type 0 where
  pub inner : S
  pub budget : Option ℕ
  pub writes : ℕ
  pub cut : Bool
  pub failure : Option (Failure × ℕ)

-- `FaultStore::new`
unfoldable pub fault_new : {S : Type 0} → S → FaultStore S
fault_new inner = record { inner = inner; budget = none; writes = 0; cut = false; failure = none }

unfoldable pub cut_after : {S : Type 0} → ℕ → FaultStore S → FaultStore S
cut_after writes s = record s { budget = some (s.writes + writes) }

unfoldable pub fail_after : {S : Type 0} → Failure → ℕ → FaultStore S → FaultStore S
fail_after failure successful s = record s { failure = some (failure, successful) }

abbrev pub tag : Failure → ℕ
tag write = 0
tag persist_then_error = 1
tag full_store = 2
tag read = 3
tag enumerate = 4
tag visit = 5
tag stats = 6

-- `failure == at`
abbrev pub is_at : Failure → Failure → Bool
is_at failure at = tag failure == tag at

-- The two variables that `inject` borrows come back beside its result.
unfoldable pub inject :
    Option (Failure × ℕ)
    → Bool
    → Failure
    → Result StoreError (Unit {0}) × Option (Failure × ℕ) × Bool
inject state true at = (err (io power_cut), state, true)
inject none false at = (ok tt, none, false)
inject (some (failure, remaining)) false at =
    if not (is_at failure at)
    then (ok tt, some (failure, remaining), false)
    else if ltb 0 remaining
    then (ok tt, some (failure, remaining - 1), false)
    else if is_at at full_store
    then (err full, none, false)
    else (err (io (injected at)), none, true)

-- A method of the store: it returns its result and the store as it leaves it, errors included.
abbrev pub Method : Type 0 → Type 0 → Type 0
Method S A = S → Result StoreError A × S

infixl 5 ◌>>=◌ ◌>>◌
abbrev pub ◌>>=◌ : {S A B : Type 0} → Method S A → (A → Method S B) → Method S B
◌>>=◌ m f s = let (r, s') = m s in elim r [ ok a ↦ f a s' | err e ↦ (err e, s') ]

abbrev pub ◌>>◌ : {S A B : Type 0} → Method S A → Method S B → Method S B
m >> k = m >>= λ _. k

unfoldable pub fault : {S : Type 0} → Failure → Method (FaultStore S) (Unit {0})
unfolding inject
fault at s =
    let (r, failure', cut') = inject s.failure s.cut at in
    (r, record s { failure = failure'; cut = cut' })

abbrev out_of_budget : Option ℕ → ℕ → Bool
out_of_budget none writes = false
out_of_budget (some budget) writes = leb budget writes

unfoldable pub admit : {S : Type 0} → Method (FaultStore S) (Unit {0})
admit s =
    if s.cut
    then (err (io power_cut), s)
    else if out_of_budget s.budget s.writes
    then (err (io power_cut), record s { cut = true })
    else (ok tt, record s { writes = s.writes + 1 })

-- A call of the inner store's method.
abbrev pub inside : {S A : Type 0} → Method S A → Method (FaultStore S) A
inside m s = let (r, inner') = m s.inner in (r, record s { inner = inner' })

-- `set` and `erase`, which differ in the inner call alone, behind `admit`.
unfoldable pub write_through : {S : Type 0} → Method S (Unit {0}) → Method (FaultStore S) (Unit {0})
write_through m = do fault write; fault full_store; inside m; fault persist_then_error

unfoldable pub mutation : {S : Type 0} → Method S (Unit {0}) → Method (FaultStore S) (Unit {0})
mutation m = do admit; write_through m

-- The visitor that `for_each` hands on: it injects its fault before each visit.
unfoldable pub guarded : {A : Type 0} → Visitor A → Visitor (A × Option (Failure × ℕ) × Bool)
unfolding inject
guarded visitor key value (a, failure, cut) =
    let (r, failure', cut') = inject failure cut visit in
    let (r', a') = visitor key value a in
    elim r [ err e ↦ (err e, (a, failure', cut')) | ok _ ↦ (r', (a', failure', cut')) ]

module _ {S : Type 0} (ops : Store S) where
  unfoldable pub fault_get : Ns → Key → Method (FaultStore S) (Option Bytes)
  fault_get ns key = do fault read; inside (ops.get ns key)

  unfoldable pub fault_set : Ns → Key → Bytes → Method (FaultStore S) (Unit {0})
  fault_set ns key value = mutation (ops.set ns key value)

  unfoldable pub fault_erase : Ns → Key → Method (FaultStore S) (Unit {0})
  fault_erase ns key = mutation (ops.erase ns key)

  unfoldable pub fault_visit :
      (A : Type 0)
      → Ns
      → Visitor A
      → FaultStore S
      → A
      → Result StoreError (Unit {0}) × FaultStore S × A
  fault_visit A ns visitor s a =
      let (r, inner', (a', failure', cut')) =
        ops.for_each (A × Option (Failure × ℕ) × Bool) ns (guarded visitor) s.inner
          (a, s.failure, s.cut) in
      (r, record s { inner = inner'; failure = failure'; cut = cut' }, a')

  unfoldable pub fault_for_each :
      (A : Type 0)
      → Ns
      → Visitor A
      → FaultStore S
      → A
      → Result StoreError (Unit {0}) × FaultStore S × A
  fault_for_each A ns visitor s a =
      let (r, s') = fault enumerate s in
      elim r [ err e ↦ (err e, s', a) | ok _ ↦ fault_visit A ns visitor s' a ]

  unfoldable pub fault_stats : Method (FaultStore S) StoreStats
  fault_stats = do fault stats; inside ops.stats

  abbrev pub fault_ops : Store (FaultStore S)
  fault_ops = record {
    get = fault_get;
    set = fault_set;
    erase = fault_erase;
    for_each = fault_for_each;
    stats = fault_stats;
  }
