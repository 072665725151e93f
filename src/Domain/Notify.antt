-- ===== src/Domain/Notify.antt =====
-- The history of notifications: mastomini_rs/src/domain/notifications.rs, and `notify_about` of
-- mastomini_rs/src/domain/mod.rs.
pub mod Retain
use mastomini.Prelude.{
  ℕ, Bool, true, false, Option, none, some, List, [], ◌∷◌, ◌++◌, ◌==◌, ◌&&◌, ◌||◌, not, leb, length,
  map, drop, if◌then◌else◌, Result, ok, err,
}
use mastomini.Prelude.Bytes.{Bytes}
use mastomini.Ids.{next}
use mastomini.Store.Base.{Ns}
use mastomini.Store.Trait.{Store}
use mastomini.Domain.Base.{Error, not_found, delivery_failed, display}
use mastomini.Domain.Codec.{Kind}
use mastomini.Domain.Keys.{of_id}
use mastomini.Domain.State.{NotificationKind, Notification, Rec, notification_rec}
use mastomini.Domain.State.Relations.{account}
use mastomini.Domain.State.Visible.{wants_notification}
use mastomini.Domain.Server.{
  Server, Method, pure, ◌>>=◌, ◌>>◌, the_state, modify, found, panic, check_writable, put_rec,
  erase_rec,
}

abbrev pub max_notifications : ℕ
max_notifications = 512

abbrev pub keep_where : {B : Type 0} → (B → Bool) → List B → List B
keep_where test [] = []
keep_where test (b ∷ bs) = let rest = keep_where test bs in if test b then b ∷ rest else rest

abbrev pub front_id : List Notification → Option ℕ
front_id [] = none
front_id (n ∷ ns) = some n.id

abbrev is_staff : NotificationKind → Bool
is_staff NotificationKind.admin_report = true
is_staff _ = false

abbrev is_poll_end : NotificationKind → Bool
is_poll_end NotificationKind.poll = true
is_poll_end _ = false

module _ {S A : Type 0} (ops : Store S) (to_allocvec : Rec → Option Bytes) where
  -- The oldest event goes when the history is full.
  unfoldable pub drop_oldest : Method S A (Unit {0})
  unfolding erase_rec
  drop_oldest = do
    s ← the_state
    if leb max_notifications (length s.notifications)
        then (do
          oldest ← found panic (front_id s.notifications)
          erase_rec ops to_allocvec Ns.notif (of_id 110 oldest)
          modify (λ t. record t { notifications = drop 1 t.notifications }))
        else pure tt

  unfoldable pub persist_notification : Notification → Method S A (Unit {0})
  unfolding drop_oldest check_writable account put_rec
  persist_notification event = do
    check_writable
    s ← the_state
    recipient ← found not_found (account event.to s)
    sender ← found not_found (account event.from s)
    drop_oldest
    put_rec ops to_allocvec Ns.notif (of_id 110 event.id) Kind.notification (
        notification_rec
          (record { event = event; recipient_id = recipient.rec.id; sender_id = sender.rec.id }))
    modify (λ t. record t { notifications = t.notifications ++ (event ∷ []) })

  -- The loop of `retain_notifications`.
  unfoldable pub forget_each : List ℕ → Method S A (Unit {0})
  unfolding erase_rec
  forget_each [] = pure tt
  forget_each (id ∷ ids) =
      (erase_rec ops to_allocvec Ns.notif (of_id 110 id)
        >> modify
            (λ t. record t { notifications = keep_where (λ n. not (n.id == id)) t.notifications }))
      >> forget_each ids

  unfoldable pub retain_notifications : (Notification → Bool) → Method S A (Unit {0})
  unfolding forget_each check_writable
  retain_notifications keep = do
    check_writable
    s ← the_state
    forget_each (map (λ n. n.id) (keep_where (λ n. not (keep n)) s.notifications))

  abbrev pub latched_by : Result Error (Unit {0}) × Server S A → Server S A
  latched_by (ok _, s) = s
  latched_by (err e, s) = record s {
    core = record s.core { latched = some (delivery_failed (display e)) };
  }

  -- It reports no error: the action before it has been committed.
  unfoldable pub notify_about :
      NotificationKind → ℕ → ℕ → Option ℕ → Option ℕ → ℕ → Server S A → Server S A
  unfolding persist_notification wants_notification next display
  notify_about kind to from status object now_ms s =
      let own_poll = is_poll_end kind && (to == from) in
      let (o, ids') = next now_ms s.core.ids in
      if (to == from && not own_poll)
        || (not (is_staff kind)
            && (not own_poll && not (wants_notification to from status s.state)))
      then s
      else elim o [
        | none ↦ record s { core = record s.core { ids = ids' } }
        | some id ↦ latched_by (
            persist_notification
              (record {
                id = id;
                kind = kind;
                to = to;
                from = from;
                status = status;
                object = object;
              })
              (record s { core = record s.core { ids = ids' } }))
      ]

  unfoldable pub notify : NotificationKind → ℕ → ℕ → Option ℕ → ℕ → Method S A (Unit {0})
  unfolding notify_about
  notify kind to from status now_ms s = (ok tt, notify_about kind to from status none now_ms s)
