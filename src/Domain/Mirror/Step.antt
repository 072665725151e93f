-- ===== src/Domain/Mirror/Step.antt =====
-- The steps of methods on the mirror: writing a row, erasing one, forgetting one, and writes beside
-- the rows.
use mathlib.Core.Path.{subst}
use mastomini.Prelude.{◌≡◌, refl, sym, ◌∙◌, false, Option, none, some, Result, ok, err}
use mastomini.Prelude.Bytes.{Bytes}
use mastomini.Store.Base.{Ns, StoreError}
use mastomini.Store.Key.{Key}
use mastomini.Store.Key.Order.{slot_ord}
use mastomini.Store.Trait.{Store}
use mastomini.Store.Contract.{Updated, View, Unchanged, IsStore, IsExact}
use mastomini.Domain.Base.{Error}
use mastomini.Domain.Codec.{Kind}
use mastomini.Domain.Writer.{Service, put, erase}
use mastomini.Domain.Writer.Effect.{erase-Effect, Kept, Effect, Put, put-Effect, is_exhausted}
use mastomini.Domain.Keys.{key}
use mastomini.Domain.State.{Rec, State}
use mastomini.Domain.Server.{Server, ◌>>◌, modify, put_rec, erase_rec, on_core}
use mastomini.Domain.Server.Logic.{Runs, Outcome}
use mastomini.Domain.Mirror.{Row, IsRow, name, ns_of, kind_of, row_key}
use mastomini.Domain.Mirror.Commit.{SetsRow, IsIn, set-IsIn, IsMirror, set-IsMirror, keep-IsMirror}

module _ {S : Type 0} (ops : Store S) (IsValid : S → Type 0) (view : S → View)
    (store : IsStore ops IsValid view) (exact : IsExact ops IsValid view)
    (to_allocvec : Rec → Option Bytes) (A : Type 0) where
  -- The store is well formed and the rows are in range, and unless the service has latched, RAM mirrors it.
  abbrev pub IsSound : Server S A → Type 0
  IsSound s =
      IsValid s.core.store
      × IsIn s.state
      × (s.core.latched ≡ none → IsMirror to_allocvec (view s.core.store) s.state)

  -- And there are ids left.
  abbrev pub IsFresh : Server S A → Type 0
  IsFresh s = IsSound s × (is_exhausted s.core ≡ false)

  pub put_rec-eq :
      (ns : Ns) (r : Result StoreError Key) (k : Key) (kind : Kind) (rec : Rec) (s : Server S A)
      → r ≡ ok k
      → put_rec ops to_allocvec ns r kind rec s ≡ on_core (put ops to_allocvec ns k kind rec) s
  unfolding put_rec
  put_rec-eq ns r k kind rec s e = rw e refl

  pub erase_rec-eq :
      (ns : Ns) (r : Result StoreError Key) (k : Key) (s : Server S A)
      → r ≡ ok k
      → erase_rec ops to_allocvec ns r s ≡ on_core (erase ops to_allocvec ns k) s
  unfolding erase_rec
  erase_rec-eq ns r k s e = rw e refl

  -- A call of the core, and a change of the state after it.
  then_modify :
      (State → State) → Result Error (Unit {0}) × Server S A → Result Error (Unit {0}) × Server S A
  then_modify f p = elim p.0 as (λ _. Result Error (Unit {0}) × Server S A) [
    | ok _ ↦ (ok tt, record p.1 { state = f p.1.state })
    | err e ↦ (err e, p.1)
  ]

  pub commit-Runs :
      (row : Row) (rec : Rec) (f : State → State)
      → IsRow row
      → SetsRow row (some rec) f
      → Runs IsSound
          (λ _. IsFresh)
          IsSound
          (put_rec ops to_allocvec (ns_of row) (key (name row)) (kind_of row) rec >> modify f)
  unfolding then_modify Runs
  commit-Runs row rec f hr set s sound =
      let (k, made, is_key) = row_key row hr in
      subst (λ p. Outcome (λ _. IsFresh) IsSound (then_modify f p))
        (sym (put_rec-eq (ns_of row) (key (name row)) k (kind_of row) rec s made))
        (go k made (put ops to_allocvec (ns_of row) k (kind_of row) rec s.core) (
          put-Effect ops IsValid view store exact to_allocvec (ns_of row) k (kind_of row) rec s.core
            is_key sound.0))
    where
      go :
          (k : Key)
          → key (name row) ≡ ok k
          → (p : Result Error (Unit {0}) × Service S A)
          → Effect IsValid view (Put to_allocvec (ns_of row) k (kind_of row) rec) Unchanged s.core p
          → Outcome (λ _. IsFresh) IsSound (then_modify f (p.0, record s { core = p.1 }))
      go k made (ok _, core) (v, ids, fresh, latch, (bytes, e, up)) = (
        (
          v,
          set-IsIn row (some rec) f s.state hr set sound.1,
          λ n.
              set-IsMirror to_allocvec row (some rec) (some bytes) f k (view s.core.store)
                (view core.store) s.state hr made set up (rw e refl) (sound.2 (sym latch ∙ n)),
        ),
        rw ids fresh,
      )
      go k made (err e, core) (v, ids, quiet) = (
        v,
        sound.1,
        λ n.
            keep-IsMirror to_allocvec (view s.core.store) (view core.store) s.state s.state
              (quiet n).1 (λ q. refl) (sound.2 (quiet n).0),
      )

  pub erase-Runs :
      (row : Row) (f : State → State)
      → IsRow row
      → SetsRow row none f
      → Runs IsSound
          (λ _. IsFresh)
          IsSound
          (erase_rec ops to_allocvec (ns_of row) (key (name row)) >> modify f)
  unfolding then_modify Runs
  erase-Runs row f hr set s sound =
      let (k, made, is_key) = row_key row hr in
      subst (λ p. Outcome (λ _. IsFresh) IsSound (then_modify f p))
        (sym (erase_rec-eq (ns_of row) (key (name row)) k s made))
        (go k made (erase ops to_allocvec (ns_of row) k s.core)
          (erase-Effect ops IsValid view store exact to_allocvec (ns_of row) k s.core sound.0))
    where
      go :
          (k : Key)
          → key (name row) ≡ ok k
          → (p : Result Error (Unit {0}) × Service S A)
          → Effect IsValid view (Updated (ns_of row, k) none) (Kept s.core) s.core p
          → Outcome (λ _. IsFresh) IsSound (then_modify f (p.0, record s { core = p.1 }))
      go k made (ok _, core) (v, ids, fresh, latch, up) = (
        (
          v,
          set-IsIn row none f s.state hr set sound.1,
          λ n.
              set-IsMirror to_allocvec row none none f k (view s.core.store) (view core.store)
                s.state hr made set up refl (sound.2 (sym latch ∙ n)),
        ),
        rw ids fresh,
      )
      go k made (err e, core) (v, ids, quiet) = (
        v,
        sound.1,
        λ n.
            keep-IsMirror to_allocvec (view s.core.store) (view core.store) s.state s.state
              (quiet n).1.1 (λ q. refl) (sound.2 (quiet n).0),
      )

  -- The row goes from RAM first: an error of the store latches, as there are ids left.
  pub forget-Runs :
      (row : Row) (f : State → State)
      → IsRow row
      → SetsRow row none f
      → Runs IsFresh
          (λ _. IsFresh)
          IsSound
          (modify f >> erase_rec ops to_allocvec (ns_of row) (key (name row)))
  unfolding Runs
  forget-Runs row f hr set s (sound, fresh) =
      let (k, made, is_key) = row_key row hr in
      let s' : Server S A = record s { state = f s.state } in
      subst (λ p. Outcome (λ _. IsFresh) IsSound p)
        (sym (erase_rec-eq (ns_of row) (key (name row)) k s' made))
        (go k made (erase ops to_allocvec (ns_of row) k s.core)
          (erase-Effect ops IsValid view store exact to_allocvec (ns_of row) k s.core sound.0))
    where
      go :
          (k : Key)
          → key (name row) ≡ ok k
          → (p : Result Error (Unit {0}) × Service S A)
          → Effect IsValid view (Updated (ns_of row, k) none) (Kept s.core) s.core p
          → Outcome (λ _. IsFresh) IsSound (p.0, record s { core = p.1; state = f s.state })
      go k made (ok _, core) (v, ids, left, latch, up) = (
        (
          v,
          set-IsIn row none f s.state hr set sound.1,
          λ n.
              set-IsMirror to_allocvec row none none f k (view s.core.store) (view core.store)
                s.state hr made set up refl (sound.2 (sym latch ∙ n)),
        ),
        rw ids fresh,
      )
      go k made (err e, core) (v, ids, quiet) = (
        v,
        set-IsIn row none f s.state hr set sound.1,
        λ n. absurd (cc (sym fresh ∙ (quiet n).1.0)),
      )
