-- ===== src/Domain/State/Access.antt =====
-- Who may see a status, as a relation: `can_see` of mastomini_rs/src/domain/query.rs.
use mathlib.Core.Path.{subst}
use mastomini.Prelude.Ord.{nat_ord, pair_ord}
use mastomini.Prelude.{
  ◌↔◌, ◌⊎◌, ℕ, ◌≡◌, refl, sym, Bool, true, false, Option, none, some, if◌then◌else◌, not, ◌==◌,
  ◌&&◌, ◌||◌, Bool-cases, inl, inr, arith,
}
use mastomini.Domain.State.{State, Status, Visibility, has_bit}
use mastomini.Domain.State.Relations.{suspended, blocks, follows, blocked_either}
use mastomini.Domain.State.Visible.{can_see, admits, is_shut_out, wants_notification}

abbrev IsOpen : Visibility → Type 0
IsOpen Visibility.everyone = Unit
IsOpen Visibility.unlisted = Unit
IsOpen Visibility.private = ⊥
IsOpen Visibility.direct = ⊥

abbrev IsPrivate : Visibility → Type 0
IsPrivate Visibility.private = Unit
IsPrivate _ = ⊥

-- Why a viewer may see a status of an author who is not suspended.
pub data Sees (status : Status) (s : State) : Option ℕ → Type 0 where
  author : Sees status s (some status.rec.author)
  anyone : IsOpen status.rec.visibility → Sees status s none
  reader :
      (v : ℕ)
      → IsOpen status.rec.visibility
      → blocks status.rec.author v s ≡ false
      → Sees status s (some v)
  follower :
      (v : ℕ)
      → IsPrivate status.rec.visibility
      → blocks status.rec.author v s ≡ false
      → follows v status.rec.author s ≡ true
      → Sees status s (some v)
  addressee :
      (v : ℕ)
      → blocks status.rec.author v s ≡ false
      → has_bit status.mentions v ≡ true
      → Sees status s (some v)

allowed :
    (a b c : Bool)
    → a ≡ false
    → b ≡ false
    → c ≡ true
    → (if a then false else if b then false else c) ≡ true
allowed a b c ha hb hc = rw (ha, hb, hc) refl

only_allowed :
    (a b c : Bool)
    → (if a then false else if b then false else c) ≡ true
    → (a ≡ false) × (b ≡ false) × (c ≡ true)
only_allowed true b c h = absurd (cc h)
only_allowed false true c h = absurd (cc h)
only_allowed false false c h = (refl, refl, h)

eq_true : (x y : ℕ) → (x == y) ≡ true → x ≡ y
eq_true x y h = ground arith

eq_self : (x : ℕ) → (x == x) ≡ true
eq_self x = ground arith

module _ (status : Status) (s : State) where
  self_open : (a : ℕ) → is_shut_out (some a) a s ≡ false
  self_open a = go (a == a) (blocks a a s) (eq_self a)
    where
      go : (x y : Bool) → x ≡ true → (not x && y) ≡ false
      go true y e = refl
      go false y e = absurd (cc e)

  -- Nobody shuts out themselves, and an author who has not blocked the viewer shuts out nobody.
  not_blocked :
      (v : ℕ)
      → blocks status.rec.author v s ≡ false
      → is_shut_out (some v) status.rec.author s ≡ false
  not_blocked v h = go (v == status.rec.author) (blocks status.rec.author v s) h
    where
      go : (a b : Bool) → b ≡ false → (not a && b) ≡ false
      go true b e = refl
      go false b e = e

  admits-open :
      (viewer : Option ℕ) (vis : Visibility) → IsOpen vis → admits viewer vis status s ≡ true
  admits-open viewer Visibility.everyone h = refl
  admits-open viewer Visibility.unlisted h = refl
  admits-open viewer Visibility.private h = absurd h
  admits-open viewer Visibility.direct h = absurd h

  or_last : (a b : Bool) → b ≡ true → (a || b) ≡ true
  or_last true b h = refl
  or_last false b h = h

  or_first : (a b : Bool) → a ≡ true → (a || b) ≡ true
  or_first true b h = refl
  or_first false b h = absurd (cc h)

  admits-author : (vis : Visibility) → admits (some status.rec.author) vis status s ≡ true
  admits-author Visibility.everyone = refl
  admits-author Visibility.unlisted = refl
  admits-author Visibility.private = or_first _ _ (eq_self status.rec.author)
  admits-author Visibility.direct = or_first _ _ (eq_self status.rec.author)

  admits-follower :
      (v : ℕ) (vis : Visibility)
      → IsPrivate vis
      → follows v status.rec.author s ≡ true
      → admits (some v) vis status s ≡ true
  admits-follower v Visibility.private p h = or_last (v == status.rec.author) _ (or_first _ _ h)
  admits-follower v Visibility.everyone p h = absurd p
  admits-follower v Visibility.unlisted p h = absurd p
  admits-follower v Visibility.direct p h = absurd p

  admits-addressee :
      (v : ℕ) (vis : Visibility)
      → has_bit status.mentions v ≡ true
      → admits (some v) vis status s ≡ true
  admits-addressee v Visibility.everyone h = refl
  admits-addressee v Visibility.unlisted h = refl
  admits-addressee v Visibility.private h =
      or_last (v == status.rec.author) _ (or_last (follows v status.rec.author s) _ h)
  admits-addressee v Visibility.direct h = or_last (v == status.rec.author) _ h

  shown :
      (viewer : Option ℕ)
      → suspended status.rec.author s ≡ false
      → Sees status s viewer
      → can_see viewer status s ≡ true
  unfolding can_see
  shown viewer free author =
      allowed _ _ _ free (self_open status.rec.author) (admits-author status.rec.visibility)
  shown viewer free (anyone known) =
      allowed _ _ _ free refl (admits-open none status.rec.visibility known)
  shown viewer free (reader v known unblocked) =
      allowed _ _ _ free (not_blocked v unblocked)
        (admits-open (some v) status.rec.visibility known)
  shown viewer free (follower v private unblocked follow) =
      allowed _ _ _ free (not_blocked v unblocked)
        (admits-follower v status.rec.visibility private follow)
  shown viewer free (addressee v unblocked mentioned) =
      allowed _ _ _ free (not_blocked v unblocked)
        (admits-addressee v status.rec.visibility mentioned)

  or_either : (a b : Bool) → (a || b) ≡ true → (a ≡ true) ⊎ (b ≡ true)
  or_either true b h = inl refl
  or_either false b h = inr h

  unblocked_of :
      (v : ℕ)
      → (v == status.rec.author) ≡ false
      → is_shut_out (some v) status.rec.author s ≡ false
      → blocks status.rec.author v s ≡ false
  unblocked_of v other h = go (v == status.rec.author) (blocks status.rec.author v s) other h
    where
      go : (a b : Bool) → a ≡ false → (not a && b) ≡ false → b ≡ false
      go true b e k = absurd (cc e)
      go false b e k = k

  by_author : (v : ℕ) → (v == status.rec.author) ≡ true → Sees status s (some v)
  by_author v h = subst (λ x. Sees status s (some x)) (sym (eq_true v status.rec.author h)) author

  -- The reasons behind `admits`, for another viewer than the author.
  reason :
      (v : ℕ) (vis : Visibility)
      → status.rec.visibility ≡ vis
      → blocks status.rec.author v s ≡ false
      → (v == status.rec.author) ≡ false
      → admits (some v) vis status s ≡ true
      → Sees status s (some v)
  reason v Visibility.everyone at unblocked other h = reader v (subst IsOpen (sym at) tt) unblocked
  reason v Visibility.unlisted at unblocked other h = reader v (subst IsOpen (sym at) tt) unblocked
  reason v Visibility.private at unblocked other h =
      elim (or_either (v == status.rec.author)
        (follows v status.rec.author s || has_bit status.mentions v) h) [
          | inl own ↦ by_author v own
          | inr rest ↦
              elim (or_either (follows v status.rec.author s) (has_bit status.mentions v) rest) [
                | inl follow ↦ follower v (subst IsPrivate (sym at) tt) unblocked follow
                | inr mentioned ↦ addressee v unblocked mentioned
              ]
        ]
  reason v Visibility.direct at unblocked other h =
      elim (or_either (v == status.rec.author) (has_bit status.mentions v) h) [
        | inl own ↦ by_author v own
        | inr mentioned ↦ addressee v unblocked mentioned
      ]

  anonymous :
      (vis : Visibility)
      → status.rec.visibility ≡ vis
      → admits none vis status s ≡ true
      → Sees status s none
  anonymous Visibility.everyone at h = anyone (subst IsOpen (sym at) tt)
  anonymous Visibility.unlisted at h = anyone (subst IsOpen (sym at) tt)
  anonymous Visibility.private at h = absurd (cc h)
  anonymous Visibility.direct at h = absurd (cc h)

  sees :
      (viewer : Option ℕ)
      → is_shut_out viewer status.rec.author s ≡ false
      → admits viewer status.rec.visibility status s ≡ true
      → Sees status s viewer
  sees none free h = anonymous status.rec.visibility refl h
  sees (some v) free h = elim (Bool-cases (v == status.rec.author)) [
    | inl own ↦ by_author v own
    | inr other ↦ reason v status.rec.visibility refl (unblocked_of v other free) other h
  ]

  seen :
      (viewer : Option ℕ)
      → can_see viewer status s ≡ true
      → (suspended status.rec.author s ≡ false) × Sees status s viewer
  unfolding can_see
  seen viewer h =
      let (free, open_to, admitted) = only_allowed _ _ _ h in (free, sees viewer open_to admitted)

-- Somebody, signed in as a member or not signed in, can see a status exactly when its author is
-- not suspended and there is a reason. For who is not signed in, the one reason is that the
-- status is public or unlisted. For a member it is: the member is the author; or the status is
-- public or unlisted; or it is private and the member follows the author; or it mentions the
-- member, who need not follow the author, even if it is private; the last three only if the
-- author has not blocked the member.
pub can_see_iff :
    (viewer : Option ℕ) (status : Status) (s : State)
    → (can_see viewer status s ≡ true)
      ↔ ((suspended status.rec.author s ≡ false) × Sees status s viewer)
can_see_iff viewer status s = (seen status s viewer, λ h. shown status s viewer h.0 h.1)

-- Nothing of an author is seen by whom the author has blocked.
pub can_see_blocked :
    (v : ℕ) (status : Status) (s : State)
    → blocks status.rec.author v s ≡ true
    → (v == status.rec.author) ≡ false
    → can_see (some v) status s ≡ false
unfolding can_see
can_see_blocked v status s blocked other =
    shut (suspended status.rec.author s) (v == status.rec.author) (blocks status.rec.author v s) _
      blocked other
  where
    shut :
        (a b c d : Bool)
        → c ≡ true
        → b ≡ false
        → (if a then false else if not b && c then false else d) ≡ false
    shut true b c d hc hb = refl
    shut false b true d hc hb = rw (hb) refl
    shut false b false d hc hb = absurd (cc hc)

-- Nobody is told of what someone does with whom they have a block.
pub wants_notification_blocked :
    (to from : ℕ) (about : Option ℕ) (s : State)
    → blocked_either to from s ≡ true
    → wants_notification to from about s ≡ false
unfolding wants_notification
wants_notification_blocked to from about s blocked =
    quiet (to == from) (blocked_either to from s) (suspended from s) _ blocked
  where
    quiet : (a b c d : Bool) → b ≡ true → (if a || (b || c) then false else d) ≡ false
    quiet true b c d h = refl
    quiet false true c d h = refl
    quiet false false c d h = absurd (cc h)
