-- ===== src/Domain/Blocks.antt =====
-- Blocks and mutes: `set_block` and `set_mute` of mastomini_rs/src/domain/moderation.rs.
pub mod Severed
pub mod Between
pub mod Settled
use Prim.Native.Nat.{min}
use mastomini.Prelude.{
  ℕ, ◌*◌, Bool, true, false, Option, none, some, ◌==◌, ◌&&◌, ◌||◌, not, ltb, if◌then◌else◌,
}
use mastomini.Prelude.Bytes.{Bytes}
use mastomini.Prelude.Word.{u64_max, saturating_add}
use mastomini.Prelude.Ord.{nat_ord, pair_ord}
use mastomini.Prelude.Map.{get, insert, remove, contains_key}
use mastomini.Store.Base.{Ns}
use mastomini.Store.Trait.{Store}
use mastomini.Domain.Base.{Error, literal, not_found, forbidden}
use mastomini.Domain.Codec.{Kind}
use mastomini.Domain.Keys.{Name, key}
use mastomini.Domain.State.{BlockRec, MuteRec, Notification, Rec, block_rec, mute_rec}
use mastomini.Domain.State.Relations.{account, is_some}
use mastomini.Domain.Server.{
  Method, pure, ◌>>=◌, ◌>>◌, the_state, modify, refuse_if, govern_call, next_id, put_rec, erase_rec,
}
use mastomini.Domain.Notify.{retain_notifications}
use mastomini.Domain.Requests.{same_bool, unwrap_or, drop_follow_request}
use mastomini.Domain.Lists.{leave_lists}

abbrev pub not_allowed : Error
not_allowed = forbidden (literal "This action is not allowed")

-- The notifications that the two have exchanged.
abbrev pub is_between : ℕ → ℕ → Notification → Bool
is_between src dst n = (n.to == src && (n.from == dst)) || (n.to == dst && (n.from == src))

-- `saturating_mul`
abbrev pub saturating_mul : ℕ → ℕ → ℕ
saturating_mul a b = min (a * b) u64_max

abbrev pub mute_end : ℕ → Option ℕ → Option ℕ
mute_end now_ms none = none
mute_end now_ms (some d) =
    if ltb 0 d then some (saturating_add now_ms (saturating_mul d 1000)) else none

abbrev pub same_end : Option ℕ → Option ℕ → Bool
same_end none none = true
same_end (some a) (some b) = a == b
same_end _ _ = false

abbrev pub is_same_mute : Option MuteRec → MuteRec → Bool
is_same_mute none rec = false
is_same_mute (some e) rec =
    (e.id == rec.id)
    && (same_bool e.notifications rec.notifications && same_end e.expires_ms rec.expires_ms)

module _ {S A : Type 0} (ops : Store S) (to_allocvec : Rec → Option Bytes) where
  unfoldable pub erase_block : ℕ → ℕ → Method S A (Unit {0})
  unfolding erase_rec
  erase_block src dst = do
    erase_rec ops to_allocvec Ns.rel (key (Name.block src dst))
    modify (λ t. record t { blocks = remove (src, dst) t.blocks })

  unfoldable pub write_block : ℕ → ℕ → BlockRec → Method S A (Unit {0})
  unfolding put_rec
  write_block src dst rec = do
    put_rec ops to_allocvec Ns.rel (key (Name.block src dst)) Kind.block (block_rec rec)
    modify (λ t. record t { blocks = insert (src, dst) rec t.blocks })

  unfoldable pub erase_follow : ℕ → ℕ → Method S A (Unit {0})
  unfolding erase_rec
  erase_follow src dst = do
    erase_rec ops to_allocvec Ns.rel (key (Name.follow src dst))
    modify (λ t. record t { follows = remove (src, dst) t.follows })

  -- One turn of the loop of `set_block`.
  unfoldable pub end_relation : ℕ → ℕ → Method S A (Unit {0})
  unfolding erase_follow leave_lists drop_follow_request
  end_relation a b = do
    s ← the_state
    (if contains_key (a, b) s.follows
        then (do erase_follow a b; leave_lists ops to_allocvec a b)
        else pure tt)
    drop_follow_request ops to_allocvec a b

  unfoldable pub block_now : ℕ → ℕ → ℕ → Method S A (Unit {0})
  unfolding next_id write_block end_relation retain_notifications
  block_now src dst now_ms = do
    id ← next_id now_ms
    write_block src dst (record { id = id })
    end_relation src dst
    end_relation dst src
    retain_notifications ops to_allocvec (λ n. not (is_between src dst n))

  unfoldable pub set_block : ℕ → ℕ → Bool → ℕ → Method S A (Unit {0})
  unfolding account govern_call erase_block block_now
  set_block src dst on now_ms = do
    s ← the_state
    refuse_if (not (is_some (account dst s))) not_found
    refuse_if (src == dst) not_allowed
    if same_bool on (contains_key (src, dst) s.blocks) then pure tt else (do
      govern_call (some src) now_ms
      if not on then erase_block src dst else block_now src dst now_ms)

  unfoldable pub erase_mute : ℕ → ℕ → Method S A (Unit {0})
  unfolding erase_rec
  erase_mute src dst = do
    erase_rec ops to_allocvec Ns.rel (key (Name.mute src dst))
    modify (λ t. record t { mutes = remove (src, dst) t.mutes })

  unfoldable pub write_mute : ℕ → ℕ → MuteRec → Method S A (Unit {0})
  unfolding put_rec
  write_mute src dst rec = do
    put_rec ops to_allocvec Ns.rel (key (Name.mute src dst)) Kind.mute (mute_rec rec)
    modify (λ t. record t { mutes = insert (src, dst) rec t.mutes })

  unfoldable pub mute_now : ℕ → ℕ → Option Bool → Option ℕ → ℕ → Method S A (Unit {0})
  unfolding next_id govern_call write_mute
  mute_now src dst notifications duration_s now_ms = do
    s ← the_state
    let existing = get (src, dst) s.mutes
    id ← (elim existing [ some m ↦ pure m.id | none ↦ next_id now_ms ])
    let rec : MuteRec = record {
      id = id;
      notifications = unwrap_or notifications true;
      expires_ms = mute_end now_ms duration_s;
    }
    if is_same_mute existing rec
        then pure tt
        else (do govern_call (some src) now_ms; write_mute src dst rec)

  unfoldable pub unmute_now : ℕ → ℕ → ℕ → Method S A (Unit {0})
  unfolding govern_call erase_mute
  unmute_now src dst now_ms = do
    s ← the_state
    if contains_key (src, dst) s.mutes
        then (do govern_call (some src) now_ms; erase_mute src dst)
        else pure tt

  unfoldable pub set_mute : ℕ → ℕ → Bool → Option Bool → Option ℕ → ℕ → Method S A (Unit {0})
  unfolding account mute_now unmute_now
  set_mute src dst on notifications duration_s now_ms = do
    s ← the_state
    refuse_if (not (is_some (account dst s))) not_found
    refuse_if (src == dst) not_allowed
    if not on then unmute_now src dst now_ms else mute_now src dst notifications duration_s now_ms
