-- ===== src/Domain/Codes.antt =====
-- Invite and password-reset codes: mastomini_rs/src/domain/codes.rs, and who may issue them, of
-- mastomini_rs/src/domain/moderation.rs. The hash of the crate sha2 is a parameter, and the secret
-- that the operating system's random numbers give is an argument.
pub mod Room
pub mod Power
use Prim.Native.Nat.{bit_or, bit_xor}
use mastomini.Prelude.{
  ℕ, ◌+◌, ◌*◌, zero, suc, Bool, true, false, Option, none, some, List, [], ◌∷◌, ◌==◌, ◌&&◌, ◌||◌,
  not, ltb, leb, length, if◌then◌else◌, Result, ok, err,
}
use mastomini.Prelude.Bytes.{Bytes}
use mastomini.Prelude.Ord.{nat_ord}
use mastomini.Prelude.Map.{Map, insert, remove, contains_key}
use mastomini.Store.Base.{Ns}
use mastomini.Store.Trait.{Store}
use mastomini.Domain.Base.{Error, not_found, hour_ms}
use mastomini.Domain.Codec.{Kind}
use mastomini.Domain.Keys.{Name, key}
use mastomini.Domain.State.{Role, Account, CodeKind, CodeRec, Rec, code_rec, State}
use mastomini.Domain.State.Relations.{account, is_admin}
use mastomini.Domain.Blocks.{not_allowed}
use mastomini.Domain.Server.{
  Method, pure, ◌>>=◌, ◌>>◌, the_state, modify, found, refuse_if, govern_call, next_id, put_rec,
  erase_rec,
}
use mastomini.Domain.Lists.{returned}

abbrev pub max_codes_live : ℕ
max_codes_live = 8

abbrev pub code_lifetime_ms : ℕ
code_lifetime_ms = 7 * 24 * hour_ms

-- `ct_eq` of mastomini_rs/src/auth.rs
abbrev pub differing : Bytes → Bytes → ℕ → ℕ
differing [] ys acc = acc
differing (x ∷ xs) [] acc = acc
differing (x ∷ xs) (y ∷ ys) acc = differing xs ys (bit_or acc (bit_xor x y))

unfoldable pub ct_eq : Bytes → Bytes → Bool
ct_eq a b = if not (length a == length b) then false else differing a b 0 == 0

abbrev pub same_kind : CodeKind → CodeKind → Bool
same_kind CodeKind.invite CodeKind.invite = true
same_kind (CodeKind.reset s a) (CodeKind.reset t b) = (s == t) && (a == b)
same_kind _ _ = false

abbrev pub is_invite : CodeKind → Bool
is_invite CodeKind.invite = true
is_invite _ = false

unfoldable pub require_admin : ℕ → State → Result Error (Unit {0})
unfolding account is_admin
require_admin actor s = elim (account actor s) [
  | none ↦ err not_allowed
  | some a ↦ if is_admin a.rec.role then ok tt else err not_allowed
]

abbrev pub is_owner : Role → Bool
is_owner Role.owner = true
is_owner _ = false

abbrev pub is_plain_admin : Role → Bool
is_plain_admin Role.admin = true
is_plain_admin _ = false

abbrev pub owner_acts : Option Account → Bool
owner_acts none = false
owner_acts (some a) = is_owner a.rec.role

unfoldable pub require_power_over : ℕ → ℕ → State → Result Error (Unit {0})
unfolding require_admin account
require_power_over actor target s = elim (require_admin actor s) [
  | err e ↦ err e
  | ok _ ↦ elim (account target s) [
    | none ↦ err not_found
    | some t ↦
        if (actor == target)
          || (is_owner t.rec.role
              || (is_plain_admin t.rec.role && not (owner_acts (account actor s))))
        then err not_allowed
        else ok tt
  ]
]

-- The codes that a new one of this kind sends away: expired ones, and older resets of the member.
unfoldable pub stale : CodeKind → ℕ → Map ℕ CodeRec → List ℕ
stale kind now_ms [] = []
stale kind now_ms ((_, c) ∷ m) =
    let rest = stale kind now_ms m in
    if leb c.expires_ms now_ms || (not (is_invite kind) && same_kind c.kind kind)
    then c.id ∷ rest
    else rest

abbrev pub first_key : Map ℕ CodeRec → Option ℕ
first_key [] = none
first_key ((id, _) ∷ m) = some id

abbrev pub is_account : Option Account → ℕ → Bool
is_account none id = false
is_account (some a) id = a.rec.id == id

unfoldable pub code_target_ok : CodeRec → State → Bool
unfolding account
code_target_ok rec s = elim rec.kind [
  | CodeKind.invite ↦ true
  | CodeKind.reset slot account_id ↦ is_account (account slot s) account_id
]

abbrev pub live_in : ℕ → State → Map ℕ CodeRec → List CodeRec
live_in now_ms s [] = []
live_in now_ms s ((_, c) ∷ m) =
    let rest = live_in now_ms s m in
    if ltb now_ms c.expires_ms && code_target_ok c s then c ∷ rest else rest

unfoldable pub live_codes : ℕ → State → List CodeRec
unfolding code_target_ok
live_codes now_ms s = live_in now_ms s s.invites

abbrev pub with_hash : Bytes → List CodeRec → Option CodeRec
with_hash hash [] = none
with_hash hash (c ∷ cs) = if ct_eq c.hash hash then some c else with_hash hash cs

unfoldable pub find_code : (Bytes → Bytes) → Bytes → ℕ → State → Option CodeRec
unfolding live_codes ct_eq
find_code sha256 code now_ms s = with_hash (sha256 code) (live_codes now_ms s)

module _ {S A : Type 0} (ops : Store S) (to_allocvec : Rec → Option Bytes)
    (sha256 : Bytes → Bytes) where
  unfoldable pub erase_code : ℕ → Method S A (Unit {0})
  unfolding erase_rec
  erase_code id = do
    erase_rec ops to_allocvec Ns.inv (key (Name.code id))
    modify (λ t. record t { invites = remove id t.invites })

  unfoldable pub erase_codes : List ℕ → Method S A (Unit {0})
  unfolding erase_code
  erase_codes [] = pure tt
  erase_codes (id ∷ ids) = erase_code id >> erase_codes ids

  -- The loop that makes room; each turn takes one code away, so that the number of codes is enough fuel.
  unfoldable pub make_room : ℕ → Method S A (Unit {0})
  unfolding erase_code
  make_room zero = pure tt
  make_room (suc fuel) = do
    s ← the_state
    if leb max_codes_live (length s.invites)
        then (do oldest ← found not_found (first_key s.invites); erase_code oldest; make_room fuel)
        else pure tt

  unfoldable pub write_code : CodeRec → Method S A (Unit {0})
  unfolding put_rec
  write_code rec = do
    put_rec ops to_allocvec Ns.inv (key (Name.code rec.id)) Kind.code (code_rec rec)
    modify (λ t. record t { invites = insert rec.id rec t.invites })

  -- `code` is the new random secret.
  unfoldable pub issue_code : ℕ → CodeKind → Bytes → ℕ → Method S A (CodeRec × Bytes)
  unfolding govern_call stale erase_codes make_room next_id write_code
  issue_code actor kind code now_ms = do
    govern_call (some actor) now_ms
    s ← the_state
    erase_codes (stale kind now_ms s.invites)
    t ← the_state
    make_room (length t.invites)
    id ← next_id now_ms
    let rec : CodeRec = record {
      id = id;
      hash = sha256 code;
      kind = kind;
      expires_ms = now_ms + code_lifetime_ms;
    }
    write_code rec
    pure (rec, code)

  unfoldable pub issue_invite : ℕ → Bytes → ℕ → Method S A (CodeRec × Bytes)
  unfolding require_admin issue_code
  issue_invite actor code now_ms = do
    s ← the_state
    returned (require_admin actor s)
    issue_code actor CodeKind.invite code now_ms

  unfoldable pub issue_reset : ℕ → ℕ → Bytes → ℕ → Method S A (CodeRec × Bytes)
  unfolding require_power_over account issue_code
  issue_reset actor target code now_ms = do
    s ← the_state
    returned (require_power_over actor target s)
    a ← found not_found (account target s)
    issue_code actor (CodeKind.reset target a.rec.id) code now_ms

  unfoldable pub revoke_code : ℕ → ℕ → ℕ → Method S A (Unit {0})
  unfolding require_admin govern_call erase_code
  revoke_code actor id now_ms = do
    s ← the_state
    returned (require_admin actor s)
    refuse_if (not (contains_key id s.invites)) not_found
    govern_call (some actor) now_ms
    erase_code id
