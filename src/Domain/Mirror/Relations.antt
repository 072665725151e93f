-- ===== src/Domain/Mirror/Relations.antt =====
-- Follow requests keep the mirror.
use mastomini.Prelude.{
  ℕ, ◌<◌, ◌≡◌, ap, Bool, Option, none, some, List, [], ◌∷◌, not, Option-cases, inl, inr,
}
use mastomini.Prelude.Bytes.{Bytes}
use mastomini.Prelude.Ord.{nat_ord, pair_ord}
use mastomini.Prelude.Map.{get, contains_key}
use mastomini.Store.Trait.{Store}
use mastomini.Store.Contract.{View, IsStore, IsExact}
use mastomini.Domain.Base.{not_found, max_accounts}
use mastomini.Domain.State.{Rec, FollowRec, NotificationKind, follow_rec}
use mastomini.Domain.Server.{
  Server, Method, ◌>>=◌, ◌>>◌, pure, found, panic, govern_call, next_id, the_state,
}
use mastomini.Domain.Server.Logic.{
  Runs, Keeps, Runs-bind, Runs-weaken, Runs-if, Keeps-bind, Keeps-found, Keeps-if, Runs-pure,
  Runs-the_state, Runs-fail,
}
use mastomini.Domain.Requests.{
  write_follow, write_request, request_follow, forget_request, drop_follow_request,
  authorize_follow, reject_follow, authorize_each, authorize_all, waiting, is_request,
}
use mastomini.Domain.Notify.{notify}
use mastomini.Domain.Mirror.{Row, IsRow, transformed}
use mastomini.Domain.Mirror.Step.{IsSound, IsFresh, commit-Runs, forget-Runs}
use mastomini.Domain.Mirror.Aside.{govern_call-Runs, next_id-Keeps}
use mastomini.Domain.Mirror.Rows.{follow-SetsRow, request-SetsRow, request_gone-SetsRow}
use mastomini.Domain.Mirror.Notify.{retain_notifications-Runs, notify-Keeps}

module _ {S : Type 0} (ops : Store S) (IsValid : S → Type 0) (view : S → View)
    (store : IsStore ops IsValid view) (exact : IsExact ops IsValid view)
    (to_allocvec : Rec → Option Bytes) (A : Type 0) where
  abbrev Sound : Server S A → Type 0
  Sound = IsSound ops IsValid view store exact to_allocvec A

  abbrev Fresh : Server S A → Type 0
  Fresh = IsFresh ops IsValid view store exact to_allocvec A

  -- What refreshes: it starts sound, and its success shows that there are ids left.
  abbrev Refreshes : {B : Type 0} → Method S A B → Type 0
  Refreshes m = Runs Sound (λ _. Fresh) Sound m

  pub Keeps-Refreshes : {B : Type 0} (m : Method S A B) → Refreshes m → Keeps Sound m
  Keeps-Refreshes m h = Runs-weaken Sound Sound Fresh Sound Sound m h (λ _ x. x) (λ _ x. x.0)

  pub write_follow-Runs :
      (src dst : ℕ) (rec : FollowRec)
      → IsRow (Row.follow_row src dst)
      → Refreshes (write_follow ops to_allocvec src dst rec)
  unfolding write_follow
  write_follow-Runs src dst rec h =
      commit-Runs ops IsValid view store exact to_allocvec A (Row.follow_row src dst)
        (follow_rec rec) _ h (follow-SetsRow src dst rec)

  write_request-Runs :
      (src dst : ℕ) (rec : FollowRec)
      → IsRow (Row.request_row src dst)
      → Refreshes (write_request ops to_allocvec src dst rec)
  unfolding write_request
  write_request-Runs src dst rec h =
      commit-Runs ops IsValid view store exact to_allocvec A (Row.request_row src dst)
        (follow_rec rec) _ h (request-SetsRow src dst rec)

  forget_request-Runs :
      (src dst : ℕ)
      → IsRow (Row.request_row src dst)
      → Runs Fresh (λ _. Fresh) Sound (forget_request ops to_allocvec src dst)
  unfolding forget_request
  forget_request-Runs src dst h =
      Runs-the_state Fresh (λ _. Fresh) Sound _
        (λ s.
          Runs-if Fresh (λ _. Fresh) Sound (contains_key (src, dst) s.follow_requests) _ _
            (forget-Runs ops IsValid view store exact to_allocvec A (Row.request_row src dst) _ h
              (request_gone-SetsRow src dst))
            (Runs-pure Fresh Sound tt))

  pub drop_follow_request-Runs :
      (src dst : ℕ)
      → IsRow (Row.request_row src dst)
      → Runs Fresh (λ _. Fresh) Sound (drop_follow_request ops to_allocvec src dst)
  unfolding drop_follow_request
  drop_follow_request-Runs src dst h =
      Runs-bind Fresh (λ _. Fresh) (λ _. Fresh) Sound _ _ (forget_request-Runs src dst h)
        (λ _.
          Runs-weaken Sound Fresh Fresh Fresh Sound _
            (retain_notifications-Runs ops IsValid view store exact to_allocvec A
              (λ n. not (is_request src dst n)))
            (λ _ x. x.0) (λ _ x. x))

  id_or-Keeps :
      (o : Option FollowRec) (now_ms : ℕ)
      → Keeps Sound (elim o as (λ _. Method S A ℕ) [ some e ↦ pure e.id | none ↦ next_id now_ms ])
  id_or-Keeps none now_ms = next_id-Keeps ops IsValid view store exact to_allocvec A now_ms
  id_or-Keeps (some e) now_ms = Runs-pure Sound Sound e.id

  announce-Keeps :
      (o : Option FollowRec) (src dst now_ms : ℕ)
      → Keeps Sound (elim o as (λ _. Method S A (Unit {0})) [
        | none ↦ notify ops to_allocvec NotificationKind.follow_request dst src none now_ms
        | some _ ↦ pure tt
      ])
  announce-Keeps none src dst now_ms =
      notify-Keeps ops IsValid view store exact to_allocvec A NotificationKind.follow_request dst
        src none now_ms
  announce-Keeps (some e) src dst now_ms = Runs-pure Sound Sound tt

  pub request_follow-Keeps :
      (src dst : ℕ) (reblogs wants : Option Bool) (now_ms : ℕ)
      → IsRow (Row.request_row src dst)
      → Keeps Sound (request_follow ops to_allocvec src dst reblogs wants now_ms)
  unfolding request_follow
  request_follow-Keeps src dst reblogs wants now_ms h =
      Runs-the_state Sound (λ _. Sound) Sound _
        (λ s. Keeps-bind Sound _ _ (id_or-Keeps (get (src, dst) s.follow_requests) now_ms) (λ id.
          Keeps-if Sound _ _ _ (Runs-pure Sound Sound tt) (
            Keeps-bind Sound _ _ (Keeps-Refreshes _ (governed (some src) now_ms)) (λ _.
              Keeps-bind Sound _ _ (Keeps-Refreshes _ (write_request-Runs src dst _ h))
                (λ _. announce-Keeps (get (src, dst) s.follow_requests) src dst now_ms)))))
    where
      governed : (slot : Option ℕ) (now_ms : ℕ) → Refreshes (govern_call slot now_ms)
      governed = govern_call-Runs ops IsValid view store exact to_allocvec A

  pub authorize_follow-Keeps :
      (slot requester now_ms : ℕ)
      → slot < max_accounts
      → requester < max_accounts
      → Keeps Sound (authorize_follow ops to_allocvec slot requester now_ms)
  unfolding authorize_follow
  authorize_follow-Keeps slot requester now_ms hs hr =
      Runs-the_state Sound (λ _. Sound) Sound _
        (λ s.
          Keeps-bind Sound _ _
            (Keeps-found Sound not_found (get (requester, slot) s.follow_requests))
            (λ rec.
              Keeps-bind Sound _ _
                (Keeps-Refreshes _
                  (govern_call-Runs ops IsValid view store exact to_allocvec A (some slot) now_ms))
                (λ _. Keeps-Refreshes _ (
                  Runs-bind Sound (λ _. Fresh) (λ _. Fresh) Sound _ _
                    (write_follow-Runs requester slot rec (hr, hs))
                    (λ _. drop_follow_request-Runs requester slot (hr, hs))))))

  pub reject_follow-Keeps :
      (slot requester now_ms : ℕ)
      → slot < max_accounts
      → requester < max_accounts
      → Keeps Sound (reject_follow ops to_allocvec slot requester now_ms)
  unfolding reject_follow
  reject_follow-Keeps slot requester now_ms hs hr =
      Runs-the_state Sound (λ _. Sound) Sound _
        (λ s.
          Keeps-if Sound (not (contains_key (requester, slot) s.follow_requests)) _ _
            (Runs-fail Sound (λ _. Sound) Sound not_found (λ _ x. x))
            (Keeps-Refreshes _ (
              Runs-bind Sound (λ _. Fresh) (λ _. Fresh) Sound _ _
                (govern_call-Runs ops IsValid view store exact to_allocvec A (some slot) now_ms)
                (λ _. drop_follow_request-Runs requester slot (hr, hs)))))

  -- A request that is found is of accounts in range.
  waiting-IsRow :
      (s : Server S A) (src dst : ℕ) (rec : FollowRec)
      → Sound s
      → get (src, dst) s.state.follow_requests ≡ some rec
      → IsRow (Row.request_row src dst)
  waiting-IsRow s src dst rec sound e =
      sound.1 (Row.request_row src dst) (follow_rec rec) (ap (transformed follow_rec) e)

  authorize_one-Runs :
      (slot src : ℕ)
      → Refreshes (do
        s ← the_state
        rec ← found panic (get (src, slot) s.follow_requests)
        write_follow ops to_allocvec src slot rec
        drop_follow_request ops to_allocvec src slot)
  unfolding Runs
  authorize_one-Runs slot src s sound =
      elim (Option-cases (get (src, slot) s.state.follow_requests)) [
        | inl e ↦ rw (e) sound
        | inr (rec, e) ↦ rw (e) (kept rec (waiting-IsRow s src slot rec sound e) s sound)
      ]
    where
      kept :
          (rec : FollowRec)
          → IsRow (Row.request_row src slot)
          → Refreshes (
              write_follow ops to_allocvec src slot rec
              >> drop_follow_request ops to_allocvec src slot)
      kept rec row =
          Runs-bind Sound (λ _. Fresh) (λ _. Fresh) Sound _ _ (write_follow-Runs src slot rec row)
            (λ _. drop_follow_request-Runs src slot row)

  authorize_each-Keeps :
      (slot : ℕ) (sources : List ℕ) → Keeps Sound (authorize_each ops to_allocvec slot sources)
  unfolding authorize_each
  authorize_each-Keeps slot [] = Runs-pure Sound Sound tt
  authorize_each-Keeps slot (src ∷ rest) =
      Keeps-bind Sound _ _ (Keeps-Refreshes _ (authorize_one-Runs slot src))
        (λ _. authorize_each-Keeps slot rest)

  pub authorize_all-Keeps : (slot : ℕ) → Keeps Sound (authorize_all ops to_allocvec slot)
  unfolding authorize_all
  authorize_all-Keeps slot =
      Runs-the_state Sound (λ _. Sound) Sound _
        (λ s. authorize_each-Keeps slot (waiting slot s.follow_requests))
