-- ===== src/Domain/Mirror/Codes.antt =====
-- Codes keep the mirror.
use mastomini.Prelude.{
  ok, err, Result, ℕ, zero, suc, ◌+◌, ◌<◌, ◌≡◌, refl, ap, Bool, true, false, Option, none, some,
  List, [], ◌∷◌, Result, ok, err, if◌then◌else◌, not, leb, length, All, ◌&&◌, ◌||◌,
}
use mastomini.Prelude.Bytes.{Bytes}
use mastomini.Prelude.Word.{u64_end}
use mastomini.Prelude.Ord.{nat_ord}
use mastomini.Prelude.Map.{Map, get, same_refl, contains_key}
use mastomini.Ids.{next, IdGen}
use mastomini.Ids.Clock.{next_fresh}
use mastomini.Store.Trait.{Store}
use mastomini.Store.Contract.{View, IsStore, IsExact}
use mastomini.Domain.Base.{Error, not_found, unavailable, literal}
use mastomini.Domain.State.{Rec, State, CodeRec, CodeKind, Account, code_rec}
use mastomini.Domain.State.Relations.{account}
use mastomini.Domain.Server.{Server, Method, found, govern_call, next_id}
use mastomini.Domain.Server.Logic.{
  Runs, Keeps, Outcome, Runs-bind, Runs-weaken, Keeps-bind, Keeps-if, Runs-pure, Runs-the_state,
  Keeps-refuse_if, Keeps-found_as, Runs-given, Runs-frame, Runs-the_state_as, Runs-fail,
}
use mastomini.Domain.Lists.{returned}
use mastomini.Domain.Codes.{
  max_codes_live, code_lifetime_ms, is_invite, same_kind, stale, first_key, erase_code, erase_codes,
  make_room, write_code, issue_code, issue_invite, issue_reset, revoke_code, require_admin,
  require_power_over,
}
use mastomini.Domain.Mirror.{Row, transformed}
use mastomini.Domain.Mirror.Commit.{IsIn}
use mastomini.Domain.Mirror.Step.{IsSound, IsFresh, commit-Runs, erase-Runs}
use mastomini.Domain.Mirror.Aside.{govern_call-Runs}
use mastomini.Domain.Mirror.Rows.{code-SetsRow, code_gone-SetsRow}
use mastomini.Domain.Mirror.Relations.{Keeps-Refreshes}

-- The id of every code is of 64 bits, as its type says.
abbrev pub IsCodeIds : State → Type 0
IsCodeIds s = All (λ (e : ℕ × CodeRec). e.1.id < u64_end) s.invites

stale-bound :
    (kind : CodeKind) (now_ms : ℕ) (m : Map ℕ CodeRec)
    → All (λ (e : ℕ × CodeRec). e.1.id < u64_end) m
    → All (λ id. id < u64_end) (stale kind now_ms m)
unfolding stale
stale-bound kind now_ms [] h = tt
stale-bound kind now_ms ((k, c) ∷ m) (small, h) =
    All-if (leb c.expires_ms now_ms || (not (is_invite kind) && same_kind c.kind kind)) c.id
      (stale kind now_ms m) small (stale-bound kind now_ms m h)
  where
    All-if :
        (b : Bool) (id : ℕ) (rest : List ℕ)
        → id < u64_end
        → All (λ i. i < u64_end) rest
        → All (λ i. i < u64_end) (if b then id ∷ rest else rest)
    All-if true id rest h a = (h, a)
    All-if false id rest h a = a

first_key-get :
    (m : Map ℕ CodeRec) (id : ℕ) → first_key m ≡ some id → (c : CodeRec) × (get id m ≡ some c)
unfolding get
first_key-get [] id e = absurd (cc e)
first_key-get ((j, c) ∷ m) id e = (c, rw (at j id e, same_refl id) refl)
  where
    at : (a b : ℕ) → some a ≡ some b → a ≡ b
    at a b h = cc h

module _ {S : Type 0} (ops : Store S) (IsValid : S → Type 0) (view : S → View)
    (store : IsStore ops IsValid view) (exact : IsExact ops IsValid view)
    (to_allocvec : Rec → Option Bytes) (A : Type 0) (sha256 : Bytes → Bytes) where
  abbrev Sound : Server S A → Type 0
  Sound = IsSound ops IsValid view store exact to_allocvec A

  abbrev Fresh : Server S A → Type 0
  Fresh = IsFresh ops IsValid view store exact to_allocvec A

  kept : {B : Type 0} (m : Method S A B) → Runs Sound (λ _. Fresh) Sound m → Keeps Sound m
  kept = Keeps-Refreshes ops IsValid view store exact to_allocvec A

  returned-Keeps : (r : Result Error (Unit {0})) → Keeps Sound (returned r)
  returned-Keeps (ok b) = Runs-pure Sound Sound b
  returned-Keeps (err e) = Runs-fail Sound (λ _. Sound) Sound e (λ _ x. x)

  governed : (slot : Option ℕ) (now_ms : ℕ) → Keeps Sound (govern_call slot now_ms)
  governed slot now_ms =
      kept _ (govern_call-Runs ops IsValid view store exact to_allocvec A slot now_ms)

  erase_code-Keeps : (id : ℕ) → id < u64_end → Keeps Sound (erase_code ops to_allocvec sha256 id)
  unfolding erase_code
  erase_code-Keeps id h = kept _ (
      erase-Runs ops IsValid view store exact to_allocvec A (Row.code_row id) _ h
        (code_gone-SetsRow id))

  erase_codes-Keeps :
      (ids : List ℕ)
      → All (λ id. id < u64_end) ids
      → Keeps Sound (erase_codes ops to_allocvec sha256 ids)
  unfolding erase_codes
  erase_codes-Keeps [] h = Runs-pure Sound Sound tt
  erase_codes-Keeps (id ∷ ids) (small, h) =
      Keeps-bind Sound _ _ (erase_code-Keeps id small) (λ _. erase_codes-Keeps ids h)

  -- The first code is one that is stored.
  first_code : (t : State) (id : ℕ) → IsIn t → first_key t.invites ≡ some id → id < u64_end
  first_code t id within e =
      let (c, held) = first_key-get t.invites id e in
      within (Row.code_row id) (code_rec c) (ap (transformed code_rec) held)

  make_room-Keeps : (fuel : ℕ) → Keeps Sound (make_room ops to_allocvec sha256 fuel)
  unfolding make_room
  make_room-Keeps zero = Runs-pure Sound Sound tt
  make_room-Keeps (suc fuel) =
      Runs-the_state_as Sound IsIn (λ _. Sound) Sound _ (λ _ sound. sound.1)
        (λ t within.
          Keeps-if Sound (leb max_codes_live (length t.invites)) _ _
            (Keeps-found_as Sound not_found (first_key t.invites) _ (λ oldest e.
              Keeps-bind Sound _ _ (erase_code-Keeps oldest (first_code t oldest within e))
                (λ _. make_room-Keeps fuel)))
            (Runs-pure Sound Sound tt))

  new_id-Runs : (now_ms : ℕ) → Runs Sound (λ id s. Sound s × (id < u64_end)) Sound (next_id now_ms)
  unfolding Runs next_id
  new_id-Runs now_ms s sound =
      go (next now_ms s.core.ids) (λ id h. (next_fresh now_ms s.core.ids h).2)
    where
      go :
          (p : Option ℕ × IdGen)
          → ((id : ℕ) → p.0 ≡ some id → id < u64_end)
          → Outcome
              (λ id t. Sound t × (id < u64_end))
              Sound
              (elim p.0 as (λ _. Result Error ℕ × Server S A) [
                | none ↦ (
                  err (unavailable (literal "Status ID space exhausted or clock out of range")),
                  record s { core = record s.core { ids = p.1 } },
                )
                | some id ↦ (ok id, record s { core = record s.core { ids = p.1 } })
              ])
      go (none, g) small = sound
      go (some id, g) small = (sound, small id refl)

  write_code-Keeps :
      (rec : CodeRec) → rec.id < u64_end → Keeps Sound (write_code ops to_allocvec sha256 rec)
  unfolding write_code
  write_code-Keeps rec h = kept _ (
      commit-Runs ops IsValid view store exact to_allocvec A (Row.code_row rec.id) (code_rec rec) _
        h (code-SetsRow rec.id rec))

  -- The service, with code ids of 64 bits.
  abbrev pub IsCoded : Server S A → Type 0
  IsCoded s = Sound s × IsCodeIds s.state

  govern_call-state :
      (slot : Option ℕ) (now_ms : ℕ) (s : Server S A)
      → (govern_call slot now_ms s).1.state ≡ s.state
  unfolding govern_call
  govern_call-state slot now_ms s = refl

  pub issue_code-Runs :
      (actor : ℕ) (kind : CodeKind) (code : Bytes) (now_ms : ℕ)
      → Runs IsCoded (λ _. Sound) Sound (issue_code ops to_allocvec sha256 actor kind code now_ms)
  unfolding issue_code
  issue_code-Runs actor kind code now_ms =
      Runs-bind IsCoded (λ _. IsCoded) (λ _. Sound) Sound _ _
        (Runs-frame Sound Sound Sound IsCodeIds _ (govern_call-state (some actor) now_ms)
          (governed (some actor) now_ms))
        (λ _.
          Runs-the_state_as IsCoded IsCodeIds (λ _. Sound) Sound _ (λ _ h. h.1)
            (λ t ids.
              Runs-weaken Sound IsCoded Sound Sound Sound _
                (Keeps-bind Sound _ _
                  (erase_codes-Keeps (stale kind now_ms t.invites)
                    (stale-bound kind now_ms t.invites ids))
                  (λ _.
                    Runs-the_state Sound (λ _. Sound) Sound _
                      (λ u. Keeps-bind Sound _ _ (make_room-Keeps (length u.invites)) (λ _.
                        Runs-bind Sound (λ id s. Sound s × (id < u64_end)) (λ _. Sound) Sound _ _
                          (new_id-Runs now_ms)
                          (λ id.
                            Runs-given Sound (id < u64_end) (λ _. Sound) Sound _
                              (λ small.
                                Keeps-bind Sound _ _ (write_code-Keeps (issued id) small)
                                  (λ _. Runs-pure Sound Sound (issued id, code))))))))
                (λ _ h. h.0) (λ _ h. h)))
    where
      issued : ℕ → CodeRec
      issued id = record {
        id = id;
        hash = sha256 code;
        kind = kind;
        expires_ms = now_ms + code_lifetime_ms;
      }

  pub revoke_code-Keeps :
      (actor id now_ms : ℕ)
      → id < u64_end
      → Keeps Sound (revoke_code ops to_allocvec sha256 actor id now_ms)
  unfolding revoke_code
  revoke_code-Keeps actor id now_ms h =
      Runs-the_state Sound (λ _. Sound) Sound _
        (λ s. Keeps-bind Sound _ _ (returned-Keeps (require_admin actor s)) (λ _.
          Keeps-bind Sound _ _ (Keeps-refuse_if Sound (not (contains_key id s.invites)) not_found)
            (λ _.
              Keeps-bind Sound _ _ (governed (some actor) now_ms) (λ _. erase_code-Keeps id h))))

  returned-Coded : (r : Result Error (Unit {0})) → Runs IsCoded (λ _. IsCoded) Sound (returned r)
  returned-Coded (ok b) = Runs-pure IsCoded Sound b
  returned-Coded (err e) = Runs-fail IsCoded (λ _. IsCoded) Sound e (λ _ h. h.0)

  pub issue_invite-Runs :
      (actor : ℕ) (code : Bytes) (now_ms : ℕ)
      → Runs IsCoded (λ _. Sound) Sound (issue_invite ops to_allocvec sha256 actor code now_ms)
  unfolding issue_invite
  issue_invite-Runs actor code now_ms =
      Runs-the_state IsCoded (λ _. Sound) Sound _
        (λ s.
          Runs-bind IsCoded (λ _. IsCoded) (λ _. Sound) Sound _ _
            (returned-Coded (require_admin actor s))
            (λ _. issue_code-Runs actor CodeKind.invite code now_ms))

  pub issue_reset-Runs :
      (actor target : ℕ) (code : Bytes) (now_ms : ℕ)
      → Runs IsCoded
          (λ _. Sound)
          Sound
          (issue_reset ops to_allocvec sha256 actor target code now_ms)
  unfolding issue_reset
  issue_reset-Runs actor target code now_ms =
      Runs-the_state IsCoded (λ _. Sound) Sound _
        (λ s.
          Runs-bind IsCoded (λ _. IsCoded) (λ _. Sound) Sound _ _
            (returned-Coded (require_power_over actor target s))
            (λ _.
              Runs-bind IsCoded (λ _. IsCoded) (λ _. Sound) Sound _ _
                (found-Coded (account target s))
                (λ a. issue_code-Runs actor (CodeKind.reset target a.rec.id) code now_ms)))
    where
      found-Coded : (o : Option Account) → Runs IsCoded (λ _. IsCoded) Sound (found not_found o)
      found-Coded none = Runs-fail IsCoded (λ _. IsCoded) Sound not_found (λ _ h. h.0)
      found-Coded (some a) = Runs-pure IsCoded Sound a

  -- Over a store that keeps the contract `IsStore`, refuses a `set` only by changing nothing and
  -- never refuses an `erase`, any hash, and codes in RAM whose ids fit in 64 bits: if the store
  -- is valid, the rows of the tables are in range and, unless the service has latched, are what
  -- the store holds under their keys, then all this holds after `issue_code`, whatever it
  -- returned.
  pub issue_code-IsSound :
      (actor : ℕ) (kind : CodeKind) (code : Bytes) (now_ms : ℕ) (s : Server S A)
      → IsCoded s
      → Sound (issue_code ops to_allocvec sha256 actor kind code now_ms s).1
  unfolding Runs
  issue_code-IsSound actor kind code now_ms s coded =
      go (issue_code ops to_allocvec sha256 actor kind code now_ms s)
        (issue_code-Runs actor kind code now_ms s coded)
    where
      go :
          (r : Result Error (CodeRec × Bytes) × Server S A)
          → Outcome (λ _. Sound) Sound r
          → Sound r.1
      go (ok b, t) h = h
      go (err e, t) h = h
