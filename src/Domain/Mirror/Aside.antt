-- ===== src/Domain/Mirror/Aside.antt =====
-- Steps that leave the rows alone: writes beside them, ids, the governor's account, the latch.
use mathlib.Core.Path.{subst}
use mastomini.Prelude.{
  ℕ, ◌≡◌, ◌≢◌, refl, sym, ap, ◌∙◌, false, Option, none, some, if◌then◌else◌, Result, ok, err,
  Bool-cases, inl, inr, Result-cases,
}
use mastomini.Prelude.Bytes.{Bytes}
use mastomini.Prelude.Map.{same, same_eq}
use mastomini.Store.Base.{Ns}
use mastomini.Store.Key.{Key}
use mastomini.Store.Key.Order.{slot_ord}
use mastomini.Store.Trait.{Store}
use mastomini.Store.Contract.{View, Updated, IsStore, IsExact, Unchanged}
use mastomini.Domain.Base.{Error, Governor, unavailable, literal}
use mastomini.Domain.Governor.{govern, attempt}
use mastomini.Ids.{next, IdGen}
use mastomini.Domain.Codec.{Kind}
use mastomini.Domain.Writer.{Service, put, erase, writable}
use mastomini.Domain.Writer.Effect.{
  writable-fresh, Effect, Put, Kept, put-Effect, erase-Effect, is_exhausted,
}
use mastomini.Domain.Keys.{of_id}
use mastomini.Domain.State.{Rec, State}
use mastomini.Domain.Server.{
  Server, put_rec, erase_rec, on_core, modify, check_writable, govern_call, governed, next_id,
}
use mastomini.Domain.Server.Logic.{Runs, Outcome, Keeps}
use mastomini.Domain.Mirror.{Row, ns_of, id_key}
use mastomini.Domain.Mirror.Commit.{slot, agree-IsMirror, IsSame, same-IsIn, keep-IsMirror}
use mastomini.Domain.Mirror.Step.{IsSound, IsFresh, put_rec-eq, erase_rec-eq}

not_row : (q : Row) → ns_of q ≢ Ns.notif
not_row (Row.follow_row a b) e = cc e
not_row (Row.request_row a b) e = cc e
not_row (Row.block_row a b) e = cc e
not_row (Row.mute_row a b) e = cc e
not_row (Row.list_row a b) e = cc e
not_row (Row.code_row a) e = cc e

aside :
    (k : Key) (o : Option Bytes) (v w : View)
    → Updated (Ns.notif, k) o v w
    → (q : Row) (j : Key) → w (slot q j) ≡ v (slot q j)
aside k o v w up q j = elim (Bool-cases (same (Ns.notif, k) (slot q j))) [
  | inl hit ↦
      absurd (not_row q (ap (λ (a : Ns × Key). a.0) (sym (same_eq (Ns.notif, k) (slot q j) hit))))
  | inr miss ↦ up (slot q j) ∙ ap (λ b. if b then o else v (slot q j)) miss
]

module _ {S : Type 0} (ops : Store S) (IsValid : S → Type 0) (view : S → View)
    (store : IsStore ops IsValid view) (exact : IsExact ops IsValid view)
    (to_allocvec : Rec → Option Bytes) (A : Type 0) where
  abbrev Sound : Server S A → Type 0
  Sound = IsSound ops IsValid view store exact to_allocvec A

  abbrev Fresh : Server S A → Type 0
  Fresh = IsFresh ops IsValid view store exact to_allocvec A

  pub put_aside-Runs :
      (id : ℕ) (kind : Kind) (rec : Rec)
      → Runs Sound (λ _. Fresh) Sound (put_rec ops to_allocvec Ns.notif (of_id 110 id) kind rec)
  unfolding Runs
  put_aside-Runs id kind rec s sound =
      let (k, made, is_key) = id_key 110 id refl in
      subst (λ p. Outcome {S = S} {A = A} (λ _. Fresh) Sound p)
        (sym (
          put_rec-eq ops IsValid view store exact to_allocvec A Ns.notif (of_id 110 id) k kind rec s
            made))
        (go k (put ops to_allocvec Ns.notif k kind rec s.core) (
          put-Effect ops IsValid view store exact to_allocvec Ns.notif k kind rec s.core is_key
            sound.0))
    where
      go :
          (k : Key) (p : Result Error (Unit {0}) × Service S A)
          → Effect IsValid view (Put to_allocvec Ns.notif k kind rec) Unchanged s.core p
          → Outcome (λ _. Fresh) Sound (p.0, record s { core = p.1 })
      go k (ok _, core) (v, ids, fresh, latch, (bytes, e, up)) = (
        (
          v,
          sound.1,
          λ n.
              agree-IsMirror to_allocvec (view s.core.store) (view core.store) s.state s.state
                (aside k (some bytes) (view s.core.store) (view core.store) up) (λ q. refl)
                (sound.2 (sym latch ∙ n)),
        ),
        rw ids fresh,
      )
      go k (err e, core) (v, ids, quiet) = (
        v,
        sound.1,
        λ n.
            keep-IsMirror to_allocvec (view s.core.store) (view core.store) s.state s.state
              (quiet n).1 (λ q. refl) (sound.2 (quiet n).0),
      )

  pub erase_aside-Runs :
      (id : ℕ) → Runs Sound (λ _. Fresh) Sound (erase_rec ops to_allocvec Ns.notif (of_id 110 id))
  unfolding Runs
  erase_aside-Runs id s sound =
      let (k, made, is_key) = id_key 110 id refl in
      subst (λ p. Outcome {S = S} {A = A} (λ _. Fresh) Sound p)
        (sym (
          erase_rec-eq ops IsValid view store exact to_allocvec A Ns.notif (of_id 110 id) k s made))
        (go k (erase ops to_allocvec Ns.notif k s.core)
          (erase-Effect ops IsValid view store exact to_allocvec Ns.notif k s.core sound.0))
    where
      go :
          (k : Key) (p : Result Error (Unit {0}) × Service S A)
          → Effect IsValid view (Updated (Ns.notif, k) none) (Kept s.core) s.core p
          → Outcome (λ _. Fresh) Sound (p.0, record s { core = p.1 })
      go k (ok _, core) (v, ids, fresh, latch, up) = (
        (
          v,
          sound.1,
          λ n.
              agree-IsMirror to_allocvec (view s.core.store) (view core.store) s.state s.state
                (aside k none (view s.core.store) (view core.store) up) (λ q. refl)
                (sound.2 (sym latch ∙ n)),
        ),
        rw ids fresh,
      )
      go k (err e, core) (v, ids, quiet) = (
        v,
        sound.1,
        λ n.
            keep-IsMirror to_allocvec (view s.core.store) (view core.store) s.state s.state
              (quiet n).1.1 (λ q. refl) (sound.2 (quiet n).0),
      )

  -- A change of the state that leaves the rows.
  pub modify-Sound : (f : State → State) → IsSame f → Keeps Sound (modify f)
  unfolding Runs
  modify-Sound f same_rows s (v, within, m) = (
    v,
    same-IsIn f s.state same_rows within,
    λ n.
        keep-IsMirror to_allocvec (view s.core.store) (view s.core.store) s.state (f s.state)
          (λ at. refl) (same_rows s.state) (m n),
  )

  pub modify-Fresh : (f : State → State) → IsSame f → Runs Fresh (λ _. Fresh) Sound (modify f)
  unfolding Runs
  modify-Fresh f same_rows s (sound, fresh) = (modify-Sound f same_rows s sound, fresh)

  pub check_writable-Runs : Runs Sound (λ _. Fresh) Sound check_writable
  unfolding Runs check_writable
  check_writable-Runs s sound = elim (Result-cases (writable s.core)) [
    | inl (_, e) ↦ rw (e) (sound, writable-fresh IsValid view s.core e)
    | inr (e, h) ↦ rw (h) sound
  ]

  -- What the governor counts stands beside the store, and it is asked behind `writable`.
  pub govern_call-Runs :
      (slot : Option ℕ) (now_ms : ℕ) → Runs Sound (λ _. Fresh) Sound (govern_call slot now_ms)
  unfolding Runs govern_call govern
  govern_call-Runs who now_ms s sound = behind (writable s.core) refl
    where
      tried :
          Option (Result Error (Unit {0}) × Governor)
          → Option (Result Error (Unit {0}) × Service S A)
      tried o = elim o [ none ↦ none | some p ↦ some (p.0, record s.core { governor = p.1 }) ]

      go :
          is_exhausted s.core ≡ false
          → (o : Option (Result Error (Unit {0}) × Governor))
          → Outcome (λ _. Fresh) Sound (on_core (λ core. governed (tried o) core) s)
      go fresh none = sound
      go fresh (some (ok _, g)) = (sound, fresh)
      go fresh (some (err e, g)) = sound

      behind :
          (r : Result Error (Unit {0}))
          → writable s.core ≡ r
          → Outcome
              (λ _. Fresh)
              Sound
              (on_core
                (λ core.
                  governed
                    (elim r as (λ _. Option (Result Error (Unit {0}) × Service S A)) [
                      | err e ↦ some (err e, s.core)
                      | ok _ ↦ tried (attempt who now_ms s.core.governor)
                    ])
                    core)
                s)
      behind (ok _) e =
          go (writable-fresh IsValid view s.core e) (attempt who now_ms s.core.governor)
      behind (err _) e = sound

  pub next_id-Keeps : (now_ms : ℕ) → Keeps Sound (next_id now_ms)
  unfolding Runs next_id
  next_id-Keeps now_ms s sound = go (next now_ms s.core.ids)
    where
      go :
          (p : Option ℕ × IdGen)
          → Outcome
              (λ _. Sound)
              Sound
              (elim p.0 as (λ _. Result Error ℕ × Server S A) [
                | none ↦ (
                  err (unavailable (literal "Status ID space exhausted or clock out of range")),
                  record s { core = record s.core { ids = p.1 } },
                )
                | some id ↦ (ok id, record s { core = record s.core { ids = p.1 } })
              ])
      go (none, g) = sound
      go (some id, g) = sound
