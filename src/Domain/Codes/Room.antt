-- ===== src/Domain/Codes/Room.antt =====
-- The bound on live codes: `issue_code` of mastomini_rs/src/domain/codes.rs.
use mathlib.Core.Path.{subst}
use mastomini.Prelude.Map.{Map, get, insert, remove, get-insert_self, same, same_refl}
use mastomini.Prelude.Ord.{nat_ord, pair_ord}
use mastomini.Domain.Codec.{Kind}
use mastomini.Domain.Server.Logic.{
  Runs, Outcome, Runs-the_state, Runs-the_state_at, Runs-pure_at, Runs-bind,
}
use mastomini.Domain.Server.Aside.{
  Leads, Leads-pure, Leads-modify, Leads-bind, Leads-weaken, Leads-state, Leads-aside, Anything,
  put_rec-IsAside, erase_rec-IsAside, govern_call-IsAside, next_id-IsAside, Leads-found_as,
}
use mastomini.Domain.Keys.{Name, key}
use mastomini.Domain.Base.{not_found}
use mastomini.Store.Trait.{Store}
use mastomini.Store.Base.{Ns}
use mastomini.Prelude.Bytes.{Bytes}
use mastomini.Prelude.{
  ℕ, ◌≡◌, refl, ap, ◌∙◌, Bool, true, false, Option, some, List, [], ◌∷◌, ok, if◌then◌else◌, arith,
  ◌<◌, ◌≤◌, ◌+◌, suc, zero, length, leb,
}
use mastomini.Domain.State.{State, CodeRec, CodeKind, code_rec, Rec}
use mastomini.Domain.Codes.{
  max_codes_live, code_lifetime_ms, first_key, erase_code, erase_codes, make_room, write_code,
  issue_code, stale,
}
use mastomini.Domain.Server.{
  found, Server, ◌>>=◌, ◌>>◌, pure, put_rec, erase_rec, govern_call, next_id,
}

length-remove : (k : ℕ) (m : Map ℕ CodeRec) → length (remove k m) ≤ length m
unfolding remove
length-remove k [] = omega arith
length-remove k ((j, c) ∷ m) = ground (arith, length-remove k m)

length-insert : (k : ℕ) (c : CodeRec) (m : Map ℕ CodeRec) → length (insert k c m) ≤ suc (length m)
unfolding insert
length-insert k c [] = omega arith
length-insert k c ((j, d) ∷ m) = ground (arith, length-insert k c m)

-- The first code goes.
length-first_key :
    (k : ℕ) (m : Map ℕ CodeRec) → first_key m ≡ some k → length (remove k m) < length m
unfolding remove
length-first_key k [] e = absurd (cc e)
length-first_key k ((j, c) ∷ m) e =
    let hit : same j k ≡ true = rw (at j k e) (same_refl k) in
    rw (hit) (omega (arith, length-remove k m))
  where
    at : (a b : ℕ) → some a ≡ some b → a ≡ b
    at a b h = cc h

few : (n : ℕ) → leb max_codes_live n ≡ false → n < max_codes_live
few n h = ground (arith, h)

shorter :
    (fuel oldest : ℕ) (u : State)
    → first_key u.invites ≡ some oldest
    → length u.invites ≤ suc fuel
    → length (remove oldest u.invites) ≤ fuel
shorter fuel oldest u first h = omega (arith, length-first_key oldest u.invites first, h)

module _ {S : Type 0} (A : Type 0) (ops : Store S) (to_allocvec : Rec → Option Bytes)
    (sha256 : Bytes → Bytes) where
  erase_code-Leads :
      (id : ℕ) (C D : State → Type 0)
      → ((t : State) → C t → D (record t { invites = remove id t.invites }))
      → Leads {S = S} {A = A} C D (erase_code ops to_allocvec sha256 id)
  unfolding erase_code
  erase_code-Leads id C D h =
      Leads-bind C C D _ _
        (Leads-aside C (erase_rec ops to_allocvec Ns.inv (key (Name.code id)))
          (erase_rec-IsAside ops to_allocvec Ns.inv (key (Name.code id))))
        (λ _. Leads-modify S A C D (λ t. record t { invites = remove id t.invites }) h)

  -- With fuel for every code, there is room for one more.
  make_room-Leads :
      (fuel : ℕ)
      → Leads {S = S} {A = A}
          (λ t. length t.invites ≤ fuel)
          (λ t. length t.invites < max_codes_live)
          (make_room ops to_allocvec sha256 fuel)
  unfolding make_room
  make_room-Leads zero =
      Leads-pure S A (λ t. length t.invites ≤ 0) (λ t. length t.invites < max_codes_live) tt
        (λ t h. omega arith)
  make_room-Leads (suc fuel) =
      Leads-state (λ t. length t.invites ≤ suc fuel) (λ t. length t.invites < max_codes_live) _
        (λ t. turn t (leb max_codes_live (length t.invites)) refl (make_room-Leads fuel))
    where
      turn :
          (t : State) (many : Bool)
          → leb max_codes_live (length t.invites) ≡ many
          → Leads {S = S} {A = A}
              (λ u. length u.invites ≤ fuel)
              (λ u. length u.invites < max_codes_live)
              (make_room ops to_allocvec sha256 fuel)
          → Leads {S = S} {A = A}
              (λ u. (length u.invites ≤ suc fuel) × (u ≡ t))
              (λ u. length u.invites < max_codes_live)
              (if many
                then (found not_found (first_key t.invites) >>= λ oldest.
                    erase_code ops to_allocvec sha256 oldest
                    >> make_room ops to_allocvec sha256 fuel)
                else pure tt)
      turn t true e rest =
          Leads-found_as (λ u. (length u.invites ≤ suc fuel) × (u ≡ t))
            (λ u. length u.invites < max_codes_live) not_found (first_key t.invites) _
            (λ oldest first.
              Leads-bind (λ u. (length u.invites ≤ suc fuel) × (u ≡ t))
                (λ u. length u.invites ≤ fuel) (λ u. length u.invites < max_codes_live) _ _
                (erase_code-Leads oldest (λ u. (length u.invites ≤ suc fuel) × (u ≡ t))
                  (λ u. length u.invites ≤ fuel)
                  (λ u h.
                    shorter fuel oldest u (ap (λ (v : State). first_key v.invites) h.1 ∙ first)
                      h.0))
                (λ _. rest))
      turn t false e rest =
          Leads-pure S A (λ u. (length u.invites ≤ suc fuel) × (u ≡ t))
            (λ u. length u.invites < max_codes_live) tt
            (λ u h.
              few (length u.invites)
                (ap (λ (v : State). leb max_codes_live (length v.invites)) h.1 ∙ e))

  erase_codes-Leads :
      (ids : List ℕ)
      → Leads {S = S} {A = A} (λ t. Unit) (λ t. Unit) (erase_codes ops to_allocvec sha256 ids)
  unfolding erase_codes
  erase_codes-Leads [] = Leads-pure S A (λ t. Unit) (λ t. Unit) tt (λ t h. tt)
  erase_codes-Leads (id ∷ ids) =
      Leads-bind (λ t. Unit) (λ t. Unit) (λ t. Unit) _ _
        (erase_code-Leads id (λ t. Unit) (λ t. Unit) (λ t h. tt)) (λ _. erase_codes-Leads ids)

  -- The table with a new code in it.
  abbrev pub Issued : CodeKind → Bytes → ℕ → CodeRec × Bytes → State → Type 0
  Issued kind code now_ms (rec, secret) t =
      (length t.invites ≤ max_codes_live)
      × (get rec.id t.invites ≡ some rec)
      × (rec.hash ≡ sha256 code)
      × (rec.kind ≡ kind)
      × (rec.expires_ms ≡ now_ms + code_lifetime_ms)
      × (secret ≡ code)

  abbrev Room : State → Type 0
  Room t = length t.invites < max_codes_live

  write_code-Leads :
      (rec : CodeRec)
      → Leads {S = S} {A = A} Room
          (λ t. (length t.invites ≤ max_codes_live) × (get rec.id t.invites ≡ some rec))
          (write_code ops to_allocvec sha256 rec)
  unfolding write_code
  write_code-Leads rec =
      Leads-bind Room Room
        (λ t. (length t.invites ≤ max_codes_live) × (get rec.id t.invites ≡ some rec)) _ _
        (Leads-aside Room
          (put_rec ops to_allocvec Ns.inv (key (Name.code rec.id)) Kind.code (code_rec rec))
          (put_rec-IsAside ops to_allocvec Ns.inv (key (Name.code rec.id)) Kind.code
            (code_rec rec)))
        (λ _.
          Leads-modify S A Room
            (λ t. (length t.invites ≤ max_codes_live) × (get rec.id t.invites ≡ some rec))
            (λ t. record t { invites = insert rec.id rec t.invites })
            (λ t h. (
              omega (arith, length-insert rec.id rec t.invites, h),
              get-insert_self rec.id rec t.invites,
            )))

  abbrev Before : Server S A → Type 0
  Before s = Unit

  issue_code-Issued :
      (actor : ℕ) (kind : CodeKind) (code : Bytes) (now_ms : ℕ)
      → Runs Before
          (λ p t. Issued kind code now_ms p t.state)
          Anything
          (issue_code ops to_allocvec sha256 actor kind code now_ms)
  unfolding issue_code
  issue_code-Issued actor kind code now_ms =
      Runs-bind Before (λ _. Before) Q Anything _ _
        (Leads-aside (λ t. Unit) (govern_call (some actor) now_ms)
          (govern_call-IsAside (some actor) now_ms))
        (λ _. Runs-the_state Before Q Anything _ (λ t.
          Runs-bind Before (λ _. Before) Q Anything _ _
            (erase_codes-Leads (stale kind now_ms t.invites))
            (λ _. Runs-the_state_at Before Q Anything _ (λ u.
              Runs-bind (λ s. s.state ≡ u) (λ _ s. Room s.state) Q Anything _ _ (roomy u)
                (λ _.
                  Runs-bind (λ s. Room s.state) (λ _ s. Room s.state) Q Anything _ _
                    (Leads-aside Room (next_id now_ms) (next_id-IsAside now_ms))
                    (λ id.
                      Runs-bind (λ s. Room s.state)
                        (λ _ s.
                          (length s.state.invites ≤ max_codes_live)
                          × (get id s.state.invites ≡ some (issued id)))
                        Q Anything _ _ (write_code-Leads (issued id)) (λ _. done id)))))))
    where
      issued : ℕ → CodeRec
      issued id = record {
        id = id;
        hash = sha256 code;
        kind = kind;
        expires_ms = now_ms + code_lifetime_ms;
      }

      Q : CodeRec × Bytes → Server S A → Type 0
      Q p t = Issued kind code now_ms p t.state

      roomy :
          (u : State)
          → Leads {S = S} {A = A}
              (λ t. t ≡ u)
              Room
              (make_room ops to_allocvec sha256 (length u.invites))
      roomy u =
          Leads-weaken (λ t. length t.invites ≤ length u.invites) (λ t. t ≡ u) Room Room _
            (make_room-Leads (length u.invites)) (λ t e. rw (e) (omega arith)) (λ t h. h)

      done :
          (id : ℕ)
          → Runs
              (λ (s : Server S A).
                (length s.state.invites ≤ max_codes_live)
                × (get id s.state.invites ≡ some (issued id)))
              (λ p t. Issued kind code now_ms p t.state)
              Anything
              (pure {S = S} {A = A} (issued id, code))
      done id =
          Runs-pure_at
            (λ s.
              (length s.state.invites ≤ max_codes_live)
              × (get id s.state.invites ≡ some (issued id)))
            (λ p t. Issued kind code now_ms p t.state) Anything (issued id, code)
            (λ s h. (h.0, h.1, refl, refl, refl, refl))

  -- Over any store and hash, when `issue_code` succeeds at most eight codes are in RAM, and the
  -- new one is there under its id, with the hash of the secret that is returned, the kind asked
  -- for, and an expiry seven days after the given time.
  pub issue_code-issued :
      (actor : ℕ) (kind : CodeKind) (code : Bytes) (now_ms : ℕ) (rec : CodeRec) (secret : Bytes)
      (s t : Server S A)
      → issue_code ops to_allocvec sha256 actor kind code now_ms s ≡ (ok (rec, secret), t)
      → (length t.state.invites ≤ max_codes_live)
        × (get rec.id t.state.invites ≡ some rec)
        × (rec.hash ≡ sha256 code)
        × (rec.kind ≡ kind)
        × (rec.expires_ms ≡ now_ms + code_lifetime_ms)
        × (secret ≡ code)
  unfolding Runs
  issue_code-issued actor kind code now_ms rec secret s t e =
      subst (Outcome (λ p u. Issued kind code now_ms p u.state) Anything) e
        (issue_code-Issued actor kind code now_ms s tt)
