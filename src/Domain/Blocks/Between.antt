-- ===== src/Domain/Blocks/Between.antt =====
-- What `set_block` of mastomini_rs/src/domain/moderation.rs leaves between two accounts when it
-- succeeds.
use mastomini.Prelude.Map.{Map, get, insert, remove, contains_key, get-insert_self, get-remove_self}
use mastomini.Prelude.Ord.{nat_ord, pair_ord}
use mastomini.Domain.Codec.{Kind}
use mastomini.Domain.Blocks.{block_now, erase_block, write_block, is_between}
use mastomini.Domain.Notify.{retain_notifications}
use mastomini.Domain.Server.Aside.{
  Leads, Leads-modify, Leads-bind, Leads-aside, put_rec-IsAside, erase_rec-IsAside, next_id-IsAside,
  Leads-both,
}
use mastomini.Domain.Server.{put_rec, erase_rec, next_id}
use mastomini.Domain.Keys.{Name, key}
use mastomini.Store.Trait.{Store}
use mastomini.Store.Base.{Ns}
use mastomini.Prelude.Bytes.{Bytes}
use mastomini.Prelude.{ℕ, ◌≡◌, refl, Bool, true, false, Option, none, not, All}
use mastomini.Domain.State.{State, Rec, BlockRec, block_rec}
use mastomini.Domain.Blocks.Severed.{
  IsStable, NoFollow, NoRequest, end_relation-Leads, ended-IsStable, retain-Leads,
}
use mastomini.Domain.Notify.Retain.{retain_notifications-All, All-map}

abbrev IsBlocked : ℕ → ℕ → State → Type 0
IsBlocked src dst t = contains_key (src, dst) t.blocks ≡ true

-- The block stands, and nothing else is left between the two.
pub record IsSevered (src dst : ℕ) (t : State) : Type 0 where
  pub blocked : contains_key (src, dst) t.blocks ≡ true
  pub follows : (get (src, dst) t.follows ≡ none) × (get (dst, src) t.follows ≡ none)
  pub requests :
      (get (src, dst) t.follow_requests ≡ none) × (get (dst, src) t.follow_requests ≡ none)
  pub events : All (λ n. is_between src dst n ≡ false) t.notifications

IsBlocked-IsStable : (src dst : ℕ) → IsStable (IsBlocked src dst)
IsBlocked-IsStable src dst = record {
  less_follow = λ k t h. h;
  less_request = λ k t h. h;
  with_list = λ k l t h. h;
  with_events = λ f t h. h;
}

inserted :
    {V : Type 0} (k : ℕ × ℕ) (v : V) (m : Map (ℕ × ℕ) V) → contains_key k (insert k v m) ≡ true
unfolding contains_key
inserted k v m = rw (contains_key, get-insert_self k v m) refl

removed : {V : Type 0} (k : ℕ × ℕ) (m : Map (ℕ × ℕ) V) → contains_key k (remove k m) ≡ false
unfolding contains_key
removed k m = rw (contains_key, get-remove_self k m) refl

abbrev Ended : ℕ → ℕ → (State → Type 0) → State → Type 0
Ended a b C t = (C t × NoFollow a b t) × NoRequest a b t

abbrev Parted : ℕ → ℕ → State → Type 0
Parted src dst = Ended dst src (Ended src dst (IsBlocked src dst))

module _ {S : Type 0} (A : Type 0) (ops : Store S) (to_allocvec : Rec → Option Bytes) where
  write_block-Leads :
      (C : State → Type 0) (src dst : ℕ) (rec : BlockRec)
      → Leads {S = S} {A = A} C (IsBlocked src dst) (write_block ops to_allocvec src dst rec)
  unfolding write_block
  write_block-Leads C src dst rec =
      Leads-bind C C (IsBlocked src dst) _ _
        (Leads-aside C
          (put_rec ops to_allocvec Ns.rel (key (Name.block src dst)) Kind.block (block_rec rec))
          (put_rec-IsAside ops to_allocvec Ns.rel (key (Name.block src dst)) Kind.block
            (block_rec rec)))
        (λ _.
          Leads-modify S A C (IsBlocked src dst)
            (λ t. record t { blocks = insert (src, dst) rec t.blocks })
            (λ t h. inserted (src, dst) rec t.blocks))

  first-IsStable : (src dst : ℕ) → IsStable (Ended src dst (IsBlocked src dst))
  first-IsStable src dst =
      ended-IsStable A ops to_allocvec (IsBlocked src dst) (IsBlocked-IsStable src dst) src dst

  Parted-IsStable : (src dst : ℕ) → IsStable (Parted src dst)
  Parted-IsStable src dst =
      ended-IsStable A ops to_allocvec (Ended src dst (IsBlocked src dst)) (first-IsStable src dst)
        dst src

  -- The last step: what has parted stays so, and the events between the two go.
  forgotten-Leads :
      (src dst : ℕ)
      → Leads {S = S} {A = A}
          (Parted src dst)
          (IsSevered src dst)
          (retain_notifications ops to_allocvec (λ n. not (is_between src dst n)))
  forgotten-Leads src dst =
      Leads-both (Parted src dst) (Parted src dst)
        (λ t. All (λ n. not (is_between src dst n) ≡ true) t.notifications) (IsSevered src dst) _
        (retain-Leads A ops to_allocvec (Parted src dst) (Parted-IsStable src dst)
          (λ n. not (is_between src dst n)))
        (retain_notifications-All A ops to_allocvec (Parted src dst)
          (λ n. not (is_between src dst n)))
        (λ t p a. severed t p a)
    where
      apart : (b : Bool) → not b ≡ true → b ≡ false
      apart true h = absurd (cc h)
      apart false h = refl

      severed :
          (t : State)
          → Parted src dst t
          → All (λ n. not (is_between src dst n) ≡ true) t.notifications
          → IsSevered src dst t
      severed t p a = record {
        blocked = p.0.0.0.0;
        follows = (p.0.0.0.1, p.0.1);
        requests = (p.0.0.1, p.1);
        events =
            All-map (λ n. not (is_between src dst n) ≡ true) (λ n. is_between src dst n ≡ false)
              t.notifications (λ n h. apart (is_between src dst n) h) a;
      }

  pub block_now-Leads :
      (src dst now_ms : ℕ) (C : State → Type 0)
      → Leads {S = S} {A = A} C (IsSevered src dst) (block_now ops to_allocvec src dst now_ms)
  unfolding block_now
  block_now-Leads src dst now_ms C =
      Leads-bind C C (IsSevered src dst) _ _
        (Leads-aside C (next_id now_ms) (next_id-IsAside now_ms))
        (λ id.
          Leads-bind C (IsBlocked src dst) (IsSevered src dst) _ _
            (write_block-Leads C src dst (record { id = id }))
            (λ _.
              Leads-bind (IsBlocked src dst) (Ended src dst (IsBlocked src dst)) (IsSevered src dst)
                _ _
                (end_relation-Leads A ops to_allocvec (IsBlocked src dst)
                  (IsBlocked-IsStable src dst) src dst)
                (λ _.
                  Leads-bind (Ended src dst (IsBlocked src dst)) (Parted src dst)
                    (IsSevered src dst) _ _
                    (end_relation-Leads A ops to_allocvec (Ended src dst (IsBlocked src dst))
                      (first-IsStable src dst) dst src)
                    (λ _. forgotten-Leads src dst))))

  pub erase_block-Leads :
      (src dst : ℕ) (C : State → Type 0)
      → Leads {S = S} {A = A} C
          (λ t. contains_key (src, dst) t.blocks ≡ false)
          (erase_block ops to_allocvec src dst)
  unfolding erase_block
  erase_block-Leads src dst C =
      Leads-bind C C (λ t. contains_key (src, dst) t.blocks ≡ false) _ _
        (Leads-aside C (erase_rec ops to_allocvec Ns.rel (key (Name.block src dst)))
          (erase_rec-IsAside ops to_allocvec Ns.rel (key (Name.block src dst))))
        (λ _.
          Leads-modify S A C (λ t. contains_key (src, dst) t.blocks ≡ false)
            (λ t. record t { blocks = remove (src, dst) t.blocks })
            (λ t h. removed (src, dst) t.blocks))
