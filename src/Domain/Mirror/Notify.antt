-- ===== src/Domain/Mirror/Notify.antt =====
-- Notifications keep the mirror: they are no rows.
use mastomini.Prelude.{
  ℕ, refl, Bool, true, false, Option, none, some, List, [], ◌∷◌, ◌++◌, Result, ok, err,
  if◌then◌else◌, map, length, leb, not, ◌==◌, drop,
}
use mastomini.Prelude.Bytes.{Bytes}
use mastomini.Store.Base.{Ns}
use mastomini.Store.Trait.{Store}
use mastomini.Store.Contract.{View, IsStore, IsExact}
use mastomini.Domain.Base.{Error, not_found}
use mastomini.Domain.Keys.{of_id}
use mastomini.Domain.State.{Rec, State, Notification, NotificationKind}
use mastomini.Domain.State.Relations.{account}
use mastomini.Domain.Server.{Server, ◌>>◌, modify, panic, erase_rec, put_rec, check_writable}
use mastomini.Domain.Server.Logic.{
  Runs, Keeps, Outcome, Runs-bind, Runs-weaken, Keeps-bind, Keeps-found, Keeps-if, Runs-pure,
  Runs-the_state,
}
use mastomini.Domain.Notify.{
  drop_oldest, front_id, max_notifications, persist_notification, forget_each, retain_notifications,
  keep_where, notify_about, notify, latched_by,
}
use mastomini.Ids.{next, IdGen}
use mastomini.Domain.Mirror.{Row}
use mastomini.Domain.Mirror.Commit.{IsSame}
use mastomini.Domain.Codec.{Kind}
use mastomini.Domain.Mirror.Step.{IsSound, IsFresh}
use mastomini.Domain.Mirror.Aside.{
  put_aside-Runs, erase_aside-Runs, modify-Sound, modify-Fresh, check_writable-Runs,
}

abbrev with_events : (List Notification → List Notification) → State → State
with_events f t = record t { notifications = f t.notifications }

events-IsSame : (f : List Notification → List Notification) → IsSame (with_events f)
events-IsSame f t (Row.follow_row a b) = refl
events-IsSame f t (Row.request_row a b) = refl
events-IsSame f t (Row.block_row a b) = refl
events-IsSame f t (Row.mute_row a b) = refl
events-IsSame f t (Row.list_row a b) = refl
events-IsSame f t (Row.code_row a) = refl

module _ {S : Type 0} (ops : Store S) (IsValid : S → Type 0) (view : S → View)
    (store : IsStore ops IsValid view) (exact : IsExact ops IsValid view)
    (to_allocvec : Rec → Option Bytes) (A : Type 0) where
  abbrev Sound : Server S A → Type 0
  Sound = IsSound ops IsValid view store exact to_allocvec A

  abbrev Fresh : Server S A → Type 0
  Fresh = IsFresh ops IsValid view store exact to_allocvec A

  -- An event goes from the store and from RAM.
  gone-Runs :
      (id : ℕ) (f : List Notification → List Notification)
      → Runs Sound
          (λ _. Fresh)
          Sound
          (erase_rec ops to_allocvec Ns.notif (of_id 110 id) >> modify (with_events f))
  gone-Runs id f =
      Runs-bind Sound (λ _. Fresh) (λ _. Fresh) Sound _ _
        (erase_aside-Runs ops IsValid view store exact to_allocvec A id)
        (λ _. modify-Fresh ops IsValid view store exact to_allocvec A _ (events-IsSame f))

  drop_oldest-Keeps : Keeps Sound (drop_oldest ops to_allocvec)
  unfolding drop_oldest
  drop_oldest-Keeps =
      Runs-the_state Sound (λ _. Sound) Sound _
        (λ s.
          Keeps-if Sound (leb max_notifications (length s.notifications)) _ _
            (Keeps-bind Sound _ _ (Keeps-found Sound panic (front_id s.notifications)) (λ id.
              Runs-weaken Sound Sound Fresh Sound Sound _ (gone-Runs id (drop 1)) (λ _ h. h)
                (λ _ h. h.0)))
            (Runs-pure Sound Sound tt))

  writable-Keeps : Keeps Sound check_writable
  writable-Keeps =
      Runs-weaken Sound Sound Fresh Sound Sound _
        (check_writable-Runs ops IsValid view store exact to_allocvec A) (λ _ h. h) (λ _ h. h.0)

  put-Keeps :
      (id : ℕ) (kind : Kind) (rec : Rec)
      → Keeps Sound (put_rec ops to_allocvec Ns.notif (of_id 110 id) kind rec)
  put-Keeps id kind rec =
      Runs-weaken Sound Sound Fresh Sound Sound _
        (put_aside-Runs ops IsValid view store exact to_allocvec A id kind rec) (λ _ h. h)
        (λ _ h. h.0)

  pub persist_notification-Keeps :
      (n : Notification) → Keeps Sound (persist_notification ops to_allocvec n)
  unfolding persist_notification
  persist_notification-Keeps n = Keeps-bind Sound _ _ writable-Keeps (λ _.
      Runs-the_state Sound (λ _. Sound) Sound _
        (λ s. Keeps-bind Sound _ _ (Keeps-found Sound not_found (account n.to s)) (λ recipient.
          Keeps-bind Sound _ _ (Keeps-found Sound not_found (account n.from s)) (λ sender.
            Keeps-bind Sound _ _ drop_oldest-Keeps (λ _.
              Keeps-bind Sound _ _ (put-Keeps n.id _ _) (λ _.
                modify-Sound ops IsValid view store exact to_allocvec A _
                  (events-IsSame (λ ns. ns ++ (n ∷ [])))))))))

  forget_each-Runs :
      (ids : List ℕ) → Runs Fresh (λ _. Fresh) Sound (forget_each ops to_allocvec ids)
  unfolding forget_each
  forget_each-Runs [] = Runs-pure Fresh Sound tt
  forget_each-Runs (id ∷ ids) =
      Runs-bind Fresh (λ _. Fresh) (λ _. Fresh) Sound _ _
        (Runs-weaken Sound Fresh Fresh Fresh Sound _
          (gone-Runs id (keep_where (λ n. not (n.id == id)))) (λ _ h. h.0) (λ _ h. h))
        (λ _. forget_each-Runs ids)

  pub retain_notifications-Runs :
      (keep : Notification → Bool)
      → Runs Sound (λ _. Fresh) Sound (retain_notifications ops to_allocvec keep)
  unfolding retain_notifications
  retain_notifications-Runs keep =
      Runs-bind Sound (λ _. Fresh) (λ _. Fresh) Sound _ _
        (check_writable-Runs ops IsValid view store exact to_allocvec A)
        (λ _.
          Runs-the_state Fresh (λ _. Fresh) Sound _
            (λ s.
              forget_each-Runs (map (λ n. n.id) (keep_where (λ n. not (keep n)) s.notifications))))

  -- An event that is not kept latches the service.
  latched_by-Sound :
      (r : Result Error (Unit {0}) × Server S A)
      → Outcome (λ _. Sound) Sound r
      → Sound (latched_by ops to_allocvec r)
  latched_by-Sound (ok _, t) h = h
  latched_by-Sound (err e, t) h = (h.0, h.1, λ n. absurd (cc n))

  pub notify_about-Sound :
      (kind : NotificationKind) (to from : ℕ) (status object : Option ℕ) (now_ms : ℕ)
      (s : Server S A)
      → Sound s
      → Sound (notify_about ops to_allocvec kind to from status object now_ms s)
  unfolding notify_about Runs
  notify_about-Sound kind to from status object now_ms s sound = branch _ (next now_ms s.core.ids)
    where
      reached :
          (p : Option ℕ × IdGen)
          → Sound (elim p.0 as (λ _. Server S A) [
            | none ↦ record s { core = record s.core { ids = p.1 } }
            | some id ↦ latched_by ops to_allocvec (
                persist_notification ops to_allocvec
                  (record {
                    id = id;
                    kind = kind;
                    to = to;
                    from = from;
                    status = status;
                    object = object;
                  })
                  (record s { core = record s.core { ids = p.1 } }))
          ])
      reached (none, g) = sound
      reached (some id, g) = latched_by-Sound _ (persist_notification-Keeps _ _ sound)

      branch :
          (b : Bool) (p : Option ℕ × IdGen)
          → Sound (
              if b then s else elim p.0 as (λ _. Server S A) [
                | none ↦ record s { core = record s.core { ids = p.1 } }
                | some id ↦ latched_by ops to_allocvec (
                    persist_notification ops to_allocvec
                      (record {
                        id = id;
                        kind = kind;
                        to = to;
                        from = from;
                        status = status;
                        object = object;
                      })
                      (record s { core = record s.core { ids = p.1 } }))
              ])
      branch true p = sound
      branch false p = reached p

  pub notify-Keeps :
      (kind : NotificationKind) (to from : ℕ) (status : Option ℕ) (now_ms : ℕ)
      → Keeps Sound (notify ops to_allocvec kind to from status now_ms)
  unfolding notify Runs
  notify-Keeps kind to from status now_ms s sound =
      notify_about-Sound kind to from status none now_ms s sound
