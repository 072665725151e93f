-- ===== src/Domain/Notify/Retain.antt =====
-- What `retain_notifications` of mastomini_rs/src/domain/notifications.rs leaves.
use mathlib.Core.Path.{subst}
use mastomini.Prelude.Ord.{nat_ord, pair_ord}
use mastomini.Domain.Lists.{contains}
use mastomini.Domain.Notify.{check_writable, retain_notifications, forget_each, keep_where}
use mastomini.Domain.Server.Aside.{
  Leads, Leads-pure, Leads-modify, Leads-bind, Leads-state, Leads-aside, erase_rec-IsAside,
  check_writable-IsAside, Leads-weaken,
}
use mastomini.Domain.Server.{erase_rec}
use mastomini.Domain.Keys.{of_id}
use mastomini.Store.Trait.{Store}
use mastomini.Store.Base.{Ns}
use mastomini.Prelude.Bytes.{Bytes}
use mastomini.Prelude.{
  ℕ, ◌≡◌, refl, sym, Bool, true, false, Option, List, [], ◌∷◌, if◌then◌else◌, not, All, ◌==◌, ◌||◌,
  map, arith,
}
use mastomini.Domain.State.{State, Notification, Rec}

pub All-map :
    {B : Type 0} (P Q : B → Type 0) (bs : List B) → ((b : B) → P b → Q b) → All P bs → All Q bs
All-map P Q [] f a = tt
All-map P Q (b ∷ bs) f (p, a) = (f b p, All-map P Q bs f a)

abbrev Covered : (Notification → Bool) → List ℕ → Notification → Type 0
Covered keep ids n = (keep n || contains n.id ids) ≡ true

abbrev doomed : (Notification → Bool) → List Notification → List ℕ
doomed keep ns = map (λ n. n.id) (keep_where (λ n. not (keep n)) ns)

wider :
    (keep : Notification → Bool) (id : ℕ) (ids : List ℕ) (n : Notification)
    → Covered keep ids n
    → Covered keep (id ∷ ids) n
wider keep id ids n h = go (keep n) (contains n.id ids) (id == n.id) h
  where
    go : (a b c : Bool) → (a || b) ≡ true → (a || (c || b)) ≡ true
    go true b c h = refl
    go false true true h = refl
    go false true false h = refl
    go false false c h = absurd (cc h)

-- Each event is kept or is one of those that go.
all-Covered :
    (keep : Notification → Bool) (ns : List Notification) → All (Covered keep (doomed keep ns)) ns
all-Covered keep [] = tt
all-Covered keep (n ∷ ns) = step (keep n) refl (all-Covered keep ns)
  where
    self_covered : (a b : Bool) (id : ℕ) → (a || ((id == id) || b)) ≡ true
    self_covered true b id = refl
    self_covered false b id = ground arith

    step :
        (k : Bool)
        → keep n ≡ k
        → All (Covered keep (doomed keep ns)) ns
        → All
            (Covered keep (
              map
                (λ (m : Notification). m.id)
                (if not k
                  then n ∷ keep_where (λ m. not (keep m)) ns
                  else keep_where (λ m. not (keep m)) ns)))
            (n ∷ ns)
    step true e a = (rw (e) refl, a)
    step false e a = (
      self_covered (keep n) (contains n.id (doomed keep ns)) n.id,
      All-map (Covered keep (doomed keep ns)) (Covered keep (n.id ∷ doomed keep ns)) ns
          (wider keep n.id (doomed keep ns)) a,
    )

narrower :
    (keep : Notification → Bool) (id : ℕ) (ids : List ℕ) (n : Notification)
    → (n.id == id) ≡ false
    → Covered keep (id ∷ ids) n
    → Covered keep ids n
narrower keep id ids n other h =
    go (keep n) (id == n.id) (contains n.id ids) (apart n.id id other) h
  where
    apart : (x y : ℕ) → (x == y) ≡ false → (y == x) ≡ false
    apart x y h = ground arith

    go : (a b c : Bool) → b ≡ false → (a || (b || c)) ≡ true → (a || c) ≡ true
    go true b c e h = refl
    go false true c e h = absurd (cc e)
    go false false c e h = h

-- One id goes.
cut-Covered :
    (keep : Notification → Bool) (id : ℕ) (ids : List ℕ) (ns : List Notification)
    → All (Covered keep (id ∷ ids)) ns
    → All (Covered keep ids) (keep_where (λ n. not (n.id == id)) ns)
cut-Covered keep id ids [] a = tt
cut-Covered keep id ids (n ∷ ns) (h, a) = step (n.id == id) refl (cut-Covered keep id ids ns a)
  where
    step :
        (hit : Bool)
        → (n.id == id) ≡ hit
        → All (Covered keep ids) (keep_where (λ (m : Notification). not (m.id == id)) ns)
        → All (Covered keep ids) (
            if not hit
            then n ∷ keep_where (λ (m : Notification). not (m.id == id)) ns
            else keep_where (λ (m : Notification). not (m.id == id)) ns)
    step true e rest = rest
    step false e rest = (narrower keep id ids n e h, rest)

kept-all :
    (keep : Notification → Bool) (ns : List Notification)
    → All (Covered keep []) ns
    → All (λ n. keep n ≡ true) ns
kept-all keep ns = All-map (Covered keep []) (λ n. keep n ≡ true) ns (λ n h. go (keep n) h)
  where
    go : (a : Bool) → (a || false) ≡ true → a ≡ true
    go true h = refl
    go false h = h

module _ {S : Type 0} (A : Type 0) (ops : Store S) (to_allocvec : Rec → Option Bytes) where
  abbrev AllCovered : (Notification → Bool) → List ℕ → State → Type 0
  AllCovered keep ids t = All (Covered keep ids) t.notifications

  forget_each-All :
      (keep : Notification → Bool) (ids : List ℕ)
      → Leads {S = S} {A = A}
          (AllCovered keep ids)
          (AllCovered keep [])
          (forget_each ops to_allocvec ids)
  unfolding forget_each
  forget_each-All keep [] = Leads-pure S A (AllCovered keep []) (AllCovered keep []) tt (λ t h. h)
  forget_each-All keep (id ∷ ids) =
      Leads-bind (AllCovered keep (id ∷ ids)) (AllCovered keep ids) (AllCovered keep []) _ _
        (Leads-bind (AllCovered keep (id ∷ ids)) (AllCovered keep (id ∷ ids)) (AllCovered keep ids)
          _ _
          (Leads-aside (AllCovered keep (id ∷ ids))
            (erase_rec ops to_allocvec Ns.notif (of_id 110 id))
            (erase_rec-IsAside ops to_allocvec Ns.notif (of_id 110 id)))
          (λ _.
            Leads-modify S A (AllCovered keep (id ∷ ids)) (AllCovered keep ids)
              (λ t. record t { notifications = keep_where (λ n. not (n.id == id)) t.notifications })
              (λ t h. cut-Covered keep id ids t.notifications h)))
        (λ _. forget_each-All keep ids)

  -- Every event that is left is one to keep.
  pub retain_notifications-All :
      (C : State → Type 0) (keep : Notification → Bool)
      → Leads {S = S} {A = A} C
          (λ t. All (λ n. keep n ≡ true) t.notifications)
          (retain_notifications ops to_allocvec keep)
  unfolding retain_notifications
  retain_notifications-All C keep =
      Leads-bind C C (λ t. All (λ n. keep n ≡ true) t.notifications) _ _
        (Leads-aside C check_writable check_writable-IsAside)
        (λ _. Leads-state C (λ t. All (λ n. keep n ≡ true) t.notifications) _ (λ t. left t))
    where
      left :
          (t : State)
          → Leads {S = S} {A = A}
              (λ u. C u × (u ≡ t))
              (λ u. All (λ n. keep n ≡ true) u.notifications)
              (forget_each ops to_allocvec (doomed keep t.notifications))
      left t =
          Leads-weaken (AllCovered keep (doomed keep t.notifications)) (λ u. C u × (u ≡ t))
            (AllCovered keep []) (λ u. All (λ n. keep n ≡ true) u.notifications)
            (forget_each ops to_allocvec (doomed keep t.notifications))
            (forget_each-All keep (doomed keep t.notifications))
            (λ u h.
              subst (λ v. AllCovered keep (doomed keep t.notifications) v) (sym h.1)
                (all-Covered keep t.notifications))
            (λ u h. kept-all keep u.notifications h)
