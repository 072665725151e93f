-- ===== src/Domain/Requests.antt =====
-- Follow requests: mastomini_rs/src/domain/follow_requests.rs.
use mastomini.Prelude.{
  ℕ, Bool, true, false, Option, none, some, List, [], ◌∷◌, ◌==◌, ◌&&◌, not, if◌then◌else◌,
}
use mastomini.Prelude.Bytes.{Bytes}
use mastomini.Prelude.Ord.{nat_ord, pair_ord}
use mastomini.Prelude.Map.{Map, get, insert, remove, contains_key}
use mastomini.Store.Base.{Ns}
use mastomini.Store.Trait.{Store}
use mastomini.Domain.Base.{not_found}
use mastomini.Domain.Codec.{Kind}
use mastomini.Domain.Keys.{Name, key}
use mastomini.Domain.State.{FollowRec, NotificationKind, Notification, Rec, follow_rec}
use mastomini.Domain.Server.{
  Method, pure, fail, ◌>>=◌, ◌>>◌, the_state, modify, found, govern_call, next_id, put_rec,
  erase_rec, panic,
}
use mastomini.Domain.Notify.{retain_notifications, notify}

abbrev pub same_bool : Bool → Bool → Bool
same_bool true b = b
same_bool false b = not b

-- `existing == Some(rec)`
abbrev pub is_same : Option FollowRec → FollowRec → Bool
is_same none rec = false
is_same (some e) rec =
    (e.id == rec.id) && (same_bool e.reblogs rec.reblogs && same_bool e.notify rec.notify)

abbrev pub unwrap_or : {B : Type 0} → Option B → B → B
unwrap_or none b = b
unwrap_or (some a) b = a

abbrev pub is_request : ℕ → ℕ → Notification → Bool
is_request src dst n = elim n.kind [
  | NotificationKind.follow_request ↦ (n.to == dst) && (n.from == src)
  | _ ↦ false
]

-- The requesters that wait for an account.
abbrev pub waiting : ℕ → Map (ℕ × ℕ) FollowRec → List ℕ
waiting slot [] = []
waiting slot (((src, dst), rec) ∷ m) =
    let rest = waiting slot m in if dst == slot then src ∷ rest else rest

-- `is_none_or(|e| e.reblogs)` and `is_some_and(|e| e.notify)`
abbrev pub old_reblogs : Option FollowRec → Bool
old_reblogs none = true
old_reblogs (some e) = e.reblogs

abbrev pub old_notify : Option FollowRec → Bool
old_notify none = false
old_notify (some e) = e.notify

module _ {S A : Type 0} (ops : Store S) (to_allocvec : Rec → Option Bytes) where
  -- A follow or a request is written, then kept in RAM.
  unfoldable pub write_follow : ℕ → ℕ → FollowRec → Method S A (Unit {0})
  unfolding put_rec
  write_follow src dst rec = do
    put_rec ops to_allocvec Ns.rel (key (Name.follow src dst)) Kind.follow (follow_rec rec)
    modify (λ t. record t { follows = insert (src, dst) rec t.follows })

  unfoldable pub write_request : ℕ → ℕ → FollowRec → Method S A (Unit {0})
  unfolding put_rec
  write_request src dst rec = do
    put_rec ops to_allocvec Ns.rel (key (Name.follow_request src dst)) Kind.follow_request
        (follow_rec rec)
    modify (λ t. record t { follow_requests = insert (src, dst) rec t.follow_requests })

  unfoldable pub request_follow : ℕ → ℕ → Option Bool → Option Bool → ℕ → Method S A (Unit {0})
  unfolding next_id govern_call write_request notify
  request_follow src dst reblogs wants now_ms = do
    s ← the_state
    let existing = get (src, dst) s.follow_requests
    id ← (elim existing [ some e ↦ pure e.id | none ↦ next_id now_ms ])
    let rec : FollowRec = record {
      id = id;
      reblogs = unwrap_or reblogs (old_reblogs existing);
      notify = unwrap_or wants (old_notify existing);
    }
    if is_same existing rec then pure tt else (do
      govern_call (some src) now_ms
      write_request src dst rec
      elim existing [
        | none ↦ notify ops to_allocvec NotificationKind.follow_request dst src none now_ms
        | some _ ↦ pure tt
      ])

  -- The state goes first, then the record.
  unfoldable pub forget_request : ℕ → ℕ → Method S A (Unit {0})
  unfolding erase_rec
  forget_request src dst = do
    s ← the_state
    if contains_key (src, dst) s.follow_requests
        then (do
          modify (λ t. record t { follow_requests = remove (src, dst) t.follow_requests })
          erase_rec ops to_allocvec Ns.rel (key (Name.follow_request src dst)))
        else pure tt

  unfoldable pub drop_follow_request : ℕ → ℕ → Method S A (Unit {0})
  unfolding forget_request retain_notifications
  drop_follow_request src dst = do
    forget_request src dst
    retain_notifications ops to_allocvec (λ n. not (is_request src dst n))

  unfoldable pub authorize_follow : ℕ → ℕ → ℕ → Method S A (Unit {0})
  unfolding govern_call write_follow drop_follow_request
  authorize_follow slot requester now_ms = do
    s ← the_state
    rec ← found not_found (get (requester, slot) s.follow_requests)
    govern_call (some slot) now_ms
    write_follow requester slot rec
    drop_follow_request requester slot

  unfoldable pub reject_follow : ℕ → ℕ → ℕ → Method S A (Unit {0})
  unfolding govern_call drop_follow_request
  reject_follow slot requester now_ms = do
    s ← the_state
    if not (contains_key (requester, slot) s.follow_requests)
        then fail not_found
        else (do govern_call (some slot) now_ms; drop_follow_request requester slot)

  -- The loop of `authorize_all`.
  unfoldable pub authorize_each : ℕ → List ℕ → Method S A (Unit {0})
  unfolding write_follow drop_follow_request
  authorize_each slot [] = pure tt
  authorize_each slot (src ∷ rest) =
      (do
        s ← the_state
        rec ← found panic (get (src, slot) s.follow_requests)
        write_follow src slot rec
        drop_follow_request src slot)
      >> authorize_each slot rest

  unfoldable pub authorize_all : ℕ → Method S A (Unit {0})
  unfolding authorize_each
  authorize_all slot = do s ← the_state; authorize_each slot (waiting slot s.follow_requests)
