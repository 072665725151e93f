-- ===== src/Domain/Mirror/Run.antt =====
-- Sequences of operations on relations, lists and notifications, each of which may fail.
use mastomini.Prelude.{ℕ, ◌<◌, Bool, Option, List, [], ◌∷◌, All}
use mastomini.Prelude.Bytes.{Bytes}
use mastomini.Prelude.Text.{Chars}
use mastomini.Store.Trait.{Store}
use mastomini.Store.Contract.{View, IsStore, IsExact}
use mastomini.Domain.Base.{max_accounts}
use mastomini.Domain.State.{Rec, RepliesPolicy, Notification, NotificationKind}
use mastomini.Domain.Server.{Server}
use mastomini.Domain.Server.Logic.{Keeps-after}
use mastomini.Domain.Notify.{notify, persist_notification, retain_notifications}
use mastomini.Domain.Requests.{request_follow, authorize_follow, reject_follow, authorize_all}
use mastomini.Domain.Blocks.{set_block, set_mute}
use mastomini.Domain.Lists.{
  ListUpdate, create_list, update_list, delete_list, add_to_list, remove_from_list,
}
use mastomini.Domain.Mirror.Step.{IsSound}
use mastomini.Domain.Mirror.Notify.{
  notify-Keeps, persist_notification-Keeps, retain_notifications-Runs,
}
use mastomini.Domain.Mirror.Relations.{
  Keeps-Refreshes, request_follow-Keeps, authorize_follow-Keeps, reject_follow-Keeps,
  authorize_all-Keeps,
}
use mastomini.Domain.Mirror.Blocks.{set_block-Keeps, set_mute-Keeps}
use mastomini.Domain.Mirror.Lists.{
  create_list-Keeps, update_list-Keeps, delete_list-Keeps, add_to_list-Keeps,
  remove_from_list-Keeps,
}

pub data Call : Type 0 where
  requested : ℕ → ℕ → Option Bool → Option Bool → ℕ → Call
  authorized rejected : ℕ → ℕ → ℕ → Call
  authorized_all : ℕ → Call
  blocked : ℕ → ℕ → Bool → ℕ → Call
  muted : ℕ → ℕ → Bool → Option Bool → Option ℕ → ℕ → Call
  list_created : ℕ → Chars → RepliesPolicy → Bool → ℕ → Call
  list_updated : ℕ → ℕ → ListUpdate → ℕ → Call
  list_deleted : ℕ → ℕ → ℕ → Call
  list_joined list_left : ℕ → ℕ → List ℕ → ℕ → Call
  notified : NotificationKind → ℕ → ℕ → Option ℕ → ℕ → Call
  persisted : Notification → Call
  retained : (Notification → Bool) → Call

-- Slots are of the account table.
abbrev pub IsCall : Call → Type 0
IsCall (requested src dst reblogs wants now_ms) = (src < max_accounts) × (dst < max_accounts)
IsCall (authorized slot requester now_ms) = (slot < max_accounts) × (requester < max_accounts)
IsCall (rejected slot requester now_ms) = (slot < max_accounts) × (requester < max_accounts)
IsCall (blocked src dst on now_ms) = (src < max_accounts) × (dst < max_accounts)
IsCall (muted src dst on notifications duration_s now_ms) =
    (src < max_accounts) × (dst < max_accounts)
IsCall (list_created slot title policy exclusive now_ms) = slot < max_accounts
IsCall (list_updated slot id update now_ms) = slot < max_accounts
IsCall (list_deleted slot id now_ms) = slot < max_accounts
IsCall (list_joined slot id account_ids now_ms) = slot < max_accounts
IsCall (list_left slot id account_ids now_ms) = slot < max_accounts
IsCall _ = Unit

module _ {S A : Type 0} (ops : Store S) (to_allocvec : Rec → Option Bytes) where
  -- The server after a call, whatever it returned.
  unfoldable pub call : Call → Server S A → Server S A
  call (requested src dst reblogs wants now_ms) s =
      (request_follow ops to_allocvec src dst reblogs wants now_ms s).1
  call (authorized slot requester now_ms) s =
      (authorize_follow ops to_allocvec slot requester now_ms s).1
  call (rejected slot requester now_ms) s =
      (reject_follow ops to_allocvec slot requester now_ms s).1
  call (authorized_all slot) s = (authorize_all ops to_allocvec slot s).1
  call (blocked src dst on now_ms) s = (set_block ops to_allocvec src dst on now_ms s).1
  call (muted src dst on notifications duration_s now_ms) s =
      (set_mute ops to_allocvec src dst on notifications duration_s now_ms s).1
  call (list_created slot title policy exclusive now_ms) s =
      (create_list ops to_allocvec slot title policy exclusive now_ms s).1
  call (list_updated slot id update now_ms) s =
      (update_list ops to_allocvec slot id update now_ms s).1
  call (list_deleted slot id now_ms) s = (delete_list ops to_allocvec slot id now_ms s).1
  call (list_joined slot id account_ids now_ms) s =
      (add_to_list ops to_allocvec slot id account_ids now_ms s).1
  call (list_left slot id account_ids now_ms) s =
      (remove_from_list ops to_allocvec slot id account_ids now_ms s).1
  call (notified kind to from status now_ms) s =
      (notify ops to_allocvec kind to from status now_ms s).1
  call (persisted event) s = (persist_notification ops to_allocvec event s).1
  call (retained keep) s = (retain_notifications ops to_allocvec keep s).1

  unfoldable pub calls : List Call → Server S A → Server S A
  unfolding call
  calls [] s = s
  calls (c ∷ cs) s = calls cs (call c s)

module _ {S : Type 0} (ops : Store S) (IsValid : S → Type 0) (view : S → View)
    (store : IsStore ops IsValid view) (exact : IsExact ops IsValid view)
    (to_allocvec : Rec → Option Bytes) (A : Type 0) where
  abbrev Sound : Server S A → Type 0
  Sound = IsSound ops IsValid view store exact to_allocvec A

  call-IsSound : (c : Call) (s : Server S A) → IsCall c → Sound s → Sound (call ops to_allocvec c s)
  unfolding call
  call-IsSound (requested src dst reblogs wants now_ms) s h = Keeps-after Sound _ s (
      request_follow-Keeps ops IsValid view store exact to_allocvec A src dst reblogs wants now_ms
        h)
  call-IsSound (authorized slot requester now_ms) s h = Keeps-after Sound _ s (
      authorize_follow-Keeps ops IsValid view store exact to_allocvec A slot requester now_ms h.0
        h.1)
  call-IsSound (rejected slot requester now_ms) s h =
      Keeps-after Sound _ s (
        reject_follow-Keeps ops IsValid view store exact to_allocvec A slot requester now_ms h.0
          h.1)
  call-IsSound (authorized_all slot) s h =
      Keeps-after Sound _ s (authorize_all-Keeps ops IsValid view store exact to_allocvec A slot)
  call-IsSound (blocked src dst on now_ms) s h =
      Keeps-after Sound _ s
        (set_block-Keeps ops IsValid view store exact to_allocvec A src dst on now_ms h.0 h.1)
  call-IsSound (muted src dst on notifications duration_s now_ms) s h = Keeps-after Sound _ s (
      set_mute-Keeps ops IsValid view store exact to_allocvec A src dst on notifications duration_s
        now_ms h.0 h.1)
  call-IsSound (list_created slot title policy exclusive now_ms) s h = Keeps-after Sound _ s (
      create_list-Keeps ops IsValid view store exact to_allocvec A slot title policy exclusive
        now_ms h)
  call-IsSound (list_updated slot id update now_ms) s h =
      Keeps-after Sound _ s
        (update_list-Keeps ops IsValid view store exact to_allocvec A slot id update now_ms h)
  call-IsSound (list_deleted slot id now_ms) s h =
      Keeps-after Sound _ s
        (delete_list-Keeps ops IsValid view store exact to_allocvec A slot id now_ms h)
  call-IsSound (list_joined slot id account_ids now_ms) s h =
      Keeps-after Sound _ s
        (add_to_list-Keeps ops IsValid view store exact to_allocvec A slot id account_ids now_ms h)
  call-IsSound (list_left slot id account_ids now_ms) s h = Keeps-after Sound _ s (
      remove_from_list-Keeps ops IsValid view store exact to_allocvec A slot id account_ids now_ms
        h)
  call-IsSound (notified kind to from status now_ms) s h =
      Keeps-after Sound _ s
        (notify-Keeps ops IsValid view store exact to_allocvec A kind to from status now_ms)
  call-IsSound (persisted event) s h =
      Keeps-after Sound _ s
        (persist_notification-Keeps ops IsValid view store exact to_allocvec A event)
  call-IsSound (retained keep) s h = Keeps-after Sound _ s (
      Keeps-Refreshes ops IsValid view store exact to_allocvec A _
        (retain_notifications-Runs ops IsValid view store exact to_allocvec A keep))

  -- Over any store that keeps the contract `IsStore`, refuses a `set` only by changing nothing
  -- and never refuses an `erase`, and for any sequence of follow requests, their answers, blocks,
  -- mutes, changes of lists and notifications between slots of the account table: if the store is
  -- valid, every row of the tables of follows, follow requests, blocks, mutes, lists and codes is
  -- in range, and, unless the service has latched, is the record that the store holds under the
  -- row's key, encoded, and the store holds no other record under a row's key, then all this
  -- holds again after the sequence, whatever each operation of it returned.
  pub calls-IsSound :
      (cs : List Call) (s : Server S A)
      → All IsCall cs
      → Sound s
      → Sound (calls ops to_allocvec cs s)
  unfolding calls
  calls-IsSound [] s h sound = sound
  calls-IsSound (c ∷ cs) s (hc, h) sound =
      calls-IsSound cs (call ops to_allocvec c s) h (call-IsSound c s hc sound)
