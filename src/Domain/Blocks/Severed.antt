-- ===== src/Domain/Blocks/Severed.antt =====
-- What a block leaves between two accounts: the two `set_block` branches of
-- mastomini_rs/src/domain/moderation.rs.
use mastomini.Domain.Blocks.{end_relation, erase_follow}
use mastomini.Domain.Lists.{
  leave_lists, leave_each, write_list, commit_list, is_stored, lists_of, affected, without,
}
use mastomini.Domain.Requests.{drop_follow_request, forget_request, is_request}
use mastomini.Domain.Notify.{retain_notifications, forget_each, keep_where}
use mastomini.Domain.Server.Logic.{Runs, Runs-if, Runs-pure, Runs-the_state}
use mastomini.Domain.Server.Aside.{
  Leads, Leads-pure, Leads-modify, Leads-bind, Leads-state, Leads-aside, Anything, put_rec-IsAside,
  erase_rec-IsAside, check_writable-IsAside,
}
use mastomini.Domain.Server.{Method, ◌>>◌, pure, modify, erase_rec}
use mastomini.Domain.State.Relations.{account}
use mastomini.Domain.Keys.{Name, key}
use mastomini.Store.Trait.{Store}
use mastomini.Store.Base.{Ns}
use mastomini.Prelude.Bytes.{Bytes}
use mastomini.Prelude.{
  Option-cases, false, ℕ, ◌≡◌, ap, ◌∙◌, none, List, if◌then◌else◌, Bool-cases, inl, inr, refl, Bool,
  true, Option, some, [], ◌∷◌, not, ◌==◌, map,
}
use mastomini.Prelude.Ord.{nat_ord, pair_ord}
use mastomini.Prelude.Map.{
  contains_key, Map, get, insert, remove, get-remove, same, get-remove_self,
}
use mastomini.Domain.State.{State, ListRec, Notification, Rec, Account}

-- No follow of `b` by `a`, and no request for one.
abbrev pub NoFollow : ℕ → ℕ → State → Type 0
NoFollow a b t = get (a, b) t.follows ≡ none

abbrev pub NoRequest : ℕ → ℕ → State → Type 0
NoRequest a b t = get (a, b) t.follow_requests ≡ none

-- What stays true while follows, requests and notifications go and lists change.
pub record IsStable (C : State → Type 0) : Type 0 where
  pub less_follow : (k : ℕ × ℕ) (t : State) → C t → C (record t { follows = remove k t.follows })
  pub less_request :
      (k : ℕ × ℕ) (t : State) → C t → C (record t { follow_requests = remove k t.follow_requests })
  pub with_list :
      (k : ℕ × ℕ) (l : ListRec) (t : State) → C t → C (record t { lists = insert k l t.lists })
  pub with_events :
      (f : List Notification → List Notification) (t : State)
      → C t
      → C (record t { notifications = f t.notifications })

removed-none :
    {V : Type 0} (j k : ℕ × ℕ) (m : Map (ℕ × ℕ) V) → get j m ≡ none → get j (remove k m) ≡ none
removed-none j k m e = elim (Bool-cases (same k j)) [
  | inl hit ↦ get-remove k j m ∙ ap (λ b. if b then none else get j m) hit
  | inr miss ↦ get-remove k j m ∙ ap (λ b. if b then none else get j m) miss ∙ e
]

absent : {V : Type 0} (k : ℕ × ℕ) (m : Map (ℕ × ℕ) V) → contains_key k m ≡ false → get k m ≡ none
unfolding contains_key
absent k m e = elim (Option-cases (get k m)) [
  | inl gone ↦ gone
  | inr (v, held) ↦ absurd (cc (rw (held, contains_key) at e))
]

NoFollow-IsStable : (a b : ℕ) → IsStable (NoFollow a b)
NoFollow-IsStable a b = record {
  less_follow = λ k t. removed-none (a, b) k t.follows;
  less_request = λ k t h. h;
  with_list = λ k l t h. h;
  with_events = λ f t h. h;
}

NoRequest-IsStable : (a b : ℕ) → IsStable (NoRequest a b)
NoRequest-IsStable a b = record {
  less_follow = λ k t h. h;
  less_request = λ k t. removed-none (a, b) k t.follow_requests;
  with_list = λ k l t h. h;
  with_events = λ f t h. h;
}

pub both-IsStable : (C D : State → Type 0) → IsStable C → IsStable D → IsStable (λ t. C t × D t)
both-IsStable C D c d = record {
  less_follow = λ k t h. (c.less_follow k t h.0, d.less_follow k t h.1);
  less_request = λ k t h. (c.less_request k t h.0, d.less_request k t h.1);
  with_list = λ k l t h. (c.with_list k l t h.0, d.with_list k l t h.1);
  with_events = λ f t h. (c.with_events f t h.0, d.with_events f t h.1);
}

module _ {S : Type 0} (A : Type 0) (ops : Store S) (to_allocvec : Rec → Option Bytes) where
  module _ (C : State → Type 0) (stable : IsStable C) where
    commit_list-Leads :
        (slot n : ℕ) (l : ListRec)
        → Leads {S = S} {A = A} C C (commit_list ops to_allocvec slot n l)
    unfolding commit_list
    commit_list-Leads slot n l =
        Leads-bind C C C _ _ (Leads-aside C _ (put_rec-IsAside ops to_allocvec _ _ _ _))
          (λ _. Leads-modify S A C C _ (stable.with_list (slot, n) l))

    write_list-Leads :
        (slot n : ℕ) (l : ListRec) → Leads {S = S} {A = A} C C (write_list ops to_allocvec slot n l)
    unfolding write_list
    write_list-Leads slot n l =
        Runs-the_state (λ s. C s.state) (λ _ s. C s.state) Anything _
          (λ t.
            Runs-if (λ s. C s.state) (λ _ s. C s.state) Anything
              (is_stored (get (slot, n) t.lists) l) _ _ (Runs-pure (λ s. C s.state) Anything tt)
              (commit_list-Leads slot n l))

    leave_each-Leads :
        (owner id : ℕ) (ls : List (ℕ × ListRec))
        → Leads {S = S} {A = A} C C (leave_each ops to_allocvec owner id ls)
    unfolding leave_each
    leave_each-Leads owner id [] = Runs-pure (λ s. C s.state) Anything tt
    leave_each-Leads owner id ((n, l) ∷ ls) =
        Leads-bind C C C _ _
          (write_list-Leads owner n (record l { members = without (id ∷ []) l.members }))
          (λ _. leave_each-Leads owner id ls)

    leave_lists-Leads :
        (owner member : ℕ) → Leads {S = S} {A = A} C C (leave_lists ops to_allocvec owner member)
    unfolding leave_lists
    leave_lists-Leads owner member =
        Runs-the_state (λ s. C s.state) (λ _ s. C s.state) Anything _
          (λ t. left t (account member t))
      where
        left :
            (t : State) (o : Option Account)
            → Leads {S = S} {A = A} C C (elim o as (λ _. Method S A (Unit {0})) [
              | none ↦ pure tt
              | some a ↦
                  leave_each ops to_allocvec owner a.rec.id
                    (affected a.rec.id (lists_of owner t.lists))
            ])
        left t none = Runs-pure (λ s. C s.state) Anything tt
        left t (some a) =
            leave_each-Leads owner a.rec.id (affected a.rec.id (lists_of owner t.lists))

    forget_each-Leads : (ids : List ℕ) → Leads {S = S} {A = A} C C (forget_each ops to_allocvec ids)
    unfolding forget_each
    forget_each-Leads [] = Runs-pure (λ s. C s.state) Anything tt
    forget_each-Leads (id ∷ ids) =
        Leads-bind C C C _ _
          (Leads-bind C C C _ _ (Leads-aside C _ (erase_rec-IsAside ops to_allocvec _ _))
            (λ _. Leads-modify S A C C _ (stable.with_events (keep_where (λ n. not (n.id == id))))))
          (λ _. forget_each-Leads ids)

    pub retain-Leads :
        (keep : Notification → Bool)
        → Leads {S = S} {A = A} C C (retain_notifications ops to_allocvec keep)
    unfolding retain_notifications
    retain-Leads keep = Leads-bind C C C _ _ (Leads-aside C _ check_writable-IsAside) (λ _.
        Runs-the_state (λ s. C s.state) (λ _ s. C s.state) Anything _
          (λ t.
            forget_each-Leads (map (λ n. n.id) (keep_where (λ n. not (keep n)) t.notifications))))

    -- A request that is forgotten is not there.
    forget_request-Leads :
        (a b : ℕ)
        → Leads {S = S} {A = A} C (λ t. C t × NoRequest a b t) (forget_request ops to_allocvec a b)
    unfolding forget_request
    forget_request-Leads a b =
        Leads-state C (λ t. C t × NoRequest a b t) _
          (λ t. split t (contains_key (a, b) t.follow_requests) refl)
      where
        split :
            (t : State) (held : Bool)
            → contains_key (a, b) t.follow_requests ≡ held
            → Leads {S = S} {A = A}
                (λ u. C u × (u ≡ t))
                (λ u. C u × NoRequest a b u)
                (if held
                  then (modify (λ u. record u { follow_requests = remove (a, b) u.follow_requests })
                      >> erase_rec ops to_allocvec Ns.rel (key (Name.follow_request a b)))
                  else pure tt)
        split t true e =
            Leads-bind (λ u. C u × (u ≡ t)) (λ u. C u × NoRequest a b u)
              (λ u. C u × NoRequest a b u) _ _
              (Leads-modify S A (λ u. C u × (u ≡ t)) (λ u. C u × NoRequest a b u) _
                (λ u h.
                  (stable.less_request (a, b) u h.0, get-remove_self (a, b) u.follow_requests)))
              (λ _.
                Leads-aside (λ u. C u × NoRequest a b u)
                  (erase_rec ops to_allocvec Ns.rel (key (Name.follow_request a b)))
                  (erase_rec-IsAside ops to_allocvec Ns.rel (key (Name.follow_request a b))))
        split t false e =
            Leads-pure S A (λ u. C u × (u ≡ t)) (λ u. C u × NoRequest a b u) tt
              (λ u h. (
                h.0,
                absent (a, b) u.follow_requests
                    (ap (λ (v : State). contains_key (a, b) v.follow_requests) h.1 ∙ e),
              ))

  module _ (C : State → Type 0) (stable : IsStable C) where
    requestless-IsStable : (a b : ℕ) → IsStable (λ t. C t × NoRequest a b t)
    requestless-IsStable a b = both-IsStable C (NoRequest a b) stable (NoRequest-IsStable a b)

    pub drop_follow_request-Leads :
        (a b : ℕ)
        → Leads {S = S} {A = A} C
            (λ t. C t × NoRequest a b t)
            (drop_follow_request ops to_allocvec a b)
    unfolding drop_follow_request
    drop_follow_request-Leads a b =
        Leads-bind C (λ t. C t × NoRequest a b t) (λ t. C t × NoRequest a b t) _ _
          (forget_request-Leads C stable a b)
          (λ _.
            retain-Leads (λ t. C t × NoRequest a b t) (requestless-IsStable a b)
              (λ n. not (is_request a b n)))

    erase_follow-Leads :
        (a b : ℕ)
        → Leads {S = S} {A = A} C (λ t. C t × NoFollow a b t) (erase_follow ops to_allocvec a b)
    unfolding erase_follow
    erase_follow-Leads a b =
        Leads-bind C C (λ t. C t × NoFollow a b t) _ _
          (Leads-aside C (erase_rec ops to_allocvec Ns.rel (key (Name.follow a b)))
            (erase_rec-IsAside ops to_allocvec Ns.rel (key (Name.follow a b))))
          (λ _.
            Leads-modify S A C (λ t. C t × NoFollow a b t) _
              (λ u h. (stable.less_follow (a, b) u h, get-remove_self (a, b) u.follows)))

    followless-IsStable : (a b : ℕ) → IsStable (λ t. C t × NoFollow a b t)
    followless-IsStable a b = both-IsStable C (NoFollow a b) stable (NoFollow-IsStable a b)

    unfollowed-Leads :
        (a b : ℕ) (t : State) (held : Bool)
        → contains_key (a, b) t.follows ≡ held
        → Leads {S = S} {A = A}
            (λ u. C u × (u ≡ t))
            (λ u. C u × NoFollow a b u)
            (if held
              then (erase_follow ops to_allocvec a b >> leave_lists ops to_allocvec a b)
              else pure tt)
    unfolding Runs
    unfollowed-Leads a b t true e s h =
        Leads-bind C (λ u. C u × NoFollow a b u) (λ u. C u × NoFollow a b u) _ _
          (erase_follow-Leads a b)
          (λ _. leave_lists-Leads (λ u. C u × NoFollow a b u) (followless-IsStable a b) a b) s h.0
    unfollowed-Leads a b t false e s h = (
      h.0,
      absent (a, b) s.state.follows (ap (λ (v : State). contains_key (a, b) v.follows) h.1 ∙ e),
    )

  module _ (C : State → Type 0) (stable : IsStable C) where
    -- Neither a follow nor a request is left.
    pub end_relation-Leads :
        (a b : ℕ)
        → Leads {S = S} {A = A} C
            (λ t. (C t × NoFollow a b t) × NoRequest a b t)
            (end_relation ops to_allocvec a b)
    unfolding end_relation
    end_relation-Leads a b =
        Leads-state C (λ t. (C t × NoFollow a b t) × NoRequest a b t) _
          (λ t.
            Leads-bind (λ u. C u × (u ≡ t)) (λ u. C u × NoFollow a b u)
              (λ u. (C u × NoFollow a b u) × NoRequest a b u) _ _
              (unfollowed-Leads C stable a b t (contains_key (a, b) t.follows) refl)
              (λ _.
                drop_follow_request-Leads (λ u. C u × NoFollow a b u)
                  (followless-IsStable C stable a b) a b))

    pub ended-IsStable : (a b : ℕ) → IsStable (λ t. (C t × NoFollow a b t) × NoRequest a b t)
    ended-IsStable a b =
        both-IsStable (λ t. C t × NoFollow a b t) (NoRequest a b) (followless-IsStable C stable a b)
          (NoRequest-IsStable a b)
