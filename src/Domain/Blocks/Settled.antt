-- ===== src/Domain/Blocks/Settled.antt =====
-- What a success of `set_block` of mastomini_rs/src/domain/moderation.rs settles.
use mathlib.Core.Path.{subst}
use mastomini.Domain.State.Visible.{can_see, wants_notification}
use mastomini.Domain.State.Access.{can_see_blocked, wants_notification_blocked}
use mastomini.Prelude.Map.{contains_key}
use mastomini.Prelude.Ord.{nat_ord, pair_ord}
use mastomini.Domain.Blocks.{set_block, block_now, erase_block, not_allowed}
use mastomini.Domain.Requests.{same_bool}
use mastomini.Domain.Server.Aside.{
  Leads, Leads-pure, Leads-bind, Leads-weaken, Leads-state, Leads-aside, Leads-ok,
  govern_call-IsAside, Leads-refuse_if,
}
use mastomini.Domain.Server.{Server, ◌>>◌, pure, govern_call}
use mastomini.Domain.State.Relations.{account, is_some, blocks, blocked_either}
use mastomini.Domain.Base.{not_found}
use mastomini.Store.Trait.{Store}
use mastomini.Prelude.Bytes.{Bytes}
use mastomini.Prelude.{
  ◌⊎◌, ℕ, ◌≡◌, refl, sym, ap, ◌∙◌, Bool, true, false, Option, some, ok, if◌then◌else◌, not, ◌==◌,
  ◌||◌, arith, inl, inr,
}
use mastomini.Domain.State.{State, Rec, Status}
use mastomini.Domain.Blocks.Between.{IsSevered, block_now-Leads, erase_block-Leads}

module _ {S : Type 0} (A : Type 0) (ops : Store S) (to_allocvec : Rec → Option Bytes) where
  -- What a success of `set_block` leaves, `before` being the state it has found.
  abbrev pub Settled : ℕ → ℕ → Bool → State → State → Type 0
  Settled src dst on before t =
      (contains_key (src, dst) t.blocks ≡ on)
      × (on ≡ true → contains_key (src, dst) before.blocks ≡ false → IsSevered src dst t)

  changed-Leads :
      (src dst now_ms : ℕ) (on : Bool) (u : State) (C : State → Type 0)
      → Leads {S = S} {A = A} C (Settled src dst on u) (
          if not on
          then erase_block ops to_allocvec src dst
          else block_now ops to_allocvec src dst now_ms)
  changed-Leads src dst now_ms true u C =
      Leads-weaken C C (IsSevered src dst) (Settled src dst true u) _
        (block_now-Leads A ops to_allocvec src dst now_ms C) (λ t h. h)
        (λ t h. (h.blocked, λ _ _. h))
  changed-Leads src dst now_ms false u C =
      Leads-weaken C C (λ t. contains_key (src, dst) t.blocks ≡ false) (Settled src dst false u) _
        (erase_block-Leads A ops to_allocvec src dst C) (λ t h. h)
        (λ t h. (h, λ on. absurd (cc on)))

  idle :
      (src dst : ℕ) (on : Bool) (u t : State)
      → same_bool on (contains_key (src, dst) u.blocks) ≡ true
      → t ≡ u
      → Settled src dst on u t
  idle src dst true u t same_on e = (
    ap (λ (v : State). contains_key (src, dst) v.blocks) e ∙ same_on,
    λ _ new. absurd (cc (sym new ∙ same_on)),
  )
  idle src dst false u t same_on e = (
    ap (λ (v : State). contains_key (src, dst) v.blocks) e
        ∙ negated (contains_key (src, dst) u.blocks) same_on,
    λ on. absurd (cc on),
  )
    where
      negated : (b : Bool) → not b ≡ true → b ≡ false
      negated true h = absurd (cc h)
      negated false h = refl

  abbrev Done : ℕ → ℕ → Bool → State → State → Type 0
  Done src dst on u t = ((src == dst) ≡ false) × Settled src dst on u t

  set_block-Leads :
      (src dst now_ms : ℕ) (on : Bool) (u : State)
      → Leads {S = S} {A = A}
          (λ t. t ≡ u)
          (Done src dst on u)
          (set_block ops to_allocvec src dst on now_ms)
  unfolding set_block
  set_block-Leads src dst now_ms on u =
      Leads-state (λ t. t ≡ u) (Done src dst on u) _
        (λ t.
          Leads-refuse_if (λ v. (v ≡ u) × (v ≡ t)) (Done src dst on u)
            (not (is_some (account dst t))) not_found _
            (λ _ _.
              Leads-refuse_if (λ v. (v ≡ u) × (v ≡ t)) (Done src dst on u) (src == dst) not_allowed
                _
                (λ _ other.
                  Leads-weaken (λ v. (v ≡ u) × (v ≡ t)) (λ v. (v ≡ u) × (v ≡ t))
                    (Settled src dst on u) (Done src dst on u) _
                    (decided t (same_bool on (contains_key (src, dst) t.blocks)) refl) (λ v h. h)
                    (λ v h. (other, h)))))
    where
      decided :
          (t : State) (b : Bool)
          → same_bool on (contains_key (src, dst) t.blocks) ≡ b
          → Leads {S = S} {A = A}
              (λ v. (v ≡ u) × (v ≡ t))
              (Settled src dst on u)
              (if b
                then pure tt
                else (govern_call (some src) now_ms
                    >> (if not on
                        then erase_block ops to_allocvec src dst
                        else block_now ops to_allocvec src dst now_ms)))
      decided t true e =
          Leads-pure S A (λ v. (v ≡ u) × (v ≡ t)) (Settled src dst on u) tt
            (λ v h.
              idle src dst on u v
                (ap (λ (w : State). same_bool on (contains_key (src, dst) w.blocks)) (sym h.0 ∙ h.1)
                  ∙ e)
                h.0)
      decided t false e =
          Leads-bind (λ v. (v ≡ u) × (v ≡ t)) (λ v. (v ≡ u) × (v ≡ t)) (Settled src dst on u)
            (govern_call (some src) now_ms)
            (λ _.
              if not on
              then erase_block ops to_allocvec src dst
              else block_now ops to_allocvec src dst now_ms)
            (Leads-aside (λ v. (v ≡ u) × (v ≡ t)) (govern_call (some src) now_ms)
              (govern_call-IsAside (some src) now_ms))
            (λ _. changed-Leads src dst now_ms on u (λ v. (v ≡ u) × (v ≡ t)))

  -- Over any store, when `set_block` succeeds the two accounts are different, the blocker's entry
  -- for the other one is there exactly if the block was to be on, and unless the block was to be
  -- off or was there before, there is no follow and no follow request between the two in either
  -- direction, and no notification of the one about the other.
  pub set_block-settled :
      (src dst now_ms : ℕ) (on : Bool) (s t : Server S A)
      → set_block ops to_allocvec src dst on now_ms s ≡ (ok tt, t)
      → ((src == dst) ≡ false)
        × (contains_key (src, dst) t.state.blocks ≡ on)
        × ((on ≡ false)
            ⊎ (contains_key (src, dst) s.state.blocks ≡ true)
            ⊎ IsSevered src dst t.state)
  set_block-settled src dst now_ms on s t e =
      let (other, settled) =
        Leads-ok (λ v. v ≡ s.state) (Done src dst on s.state)
          (set_block ops to_allocvec src dst on now_ms) s t tt
          (set_block-Leads src dst now_ms on s.state) refl e in
      (other, settled.0, left on (contains_key (src, dst) s.state.blocks) settled.1)
    where
      left :
          (a b : Bool)
          → (a ≡ true → b ≡ false → IsSevered src dst t.state)
          → (a ≡ false) ⊎ (b ≡ true) ⊎ IsSevered src dst t.state
      left false b h = inl refl
      left true true h = inr (inl refl)
      left true false h = inr (inr (h refl refl))

  -- Over any store, once `set_block` has succeeded in putting a block on, the blocked account can
  -- see no status of the blocker, and neither of the two wants a notification about what the
  -- other does.
  pub set_block-hidden :
      (src dst now_ms : ℕ) (s t : Server S A) (status : Status) (about : Option ℕ)
      → set_block ops to_allocvec src dst true now_ms s ≡ (ok tt, t)
      → status.rec.author ≡ src
      → (can_see (some dst) status t.state ≡ false)
        × (wants_notification src dst about t.state ≡ false)
        × (wants_notification dst src about t.state ≡ false)
  unfolding blocks blocked_either
  set_block-hidden src dst now_ms s t status about e by =
      let (other, blocked, _) = set_block-settled src dst now_ms true s t e in
      (
        can_see_blocked dst status t.state
            (subst (λ a. blocks a dst t.state ≡ true) (sym by) blocked)
            (subst (λ a. (dst == a) ≡ false) (sym by) (apart src dst other)),
        wants_notification_blocked src dst about t.state
            (first (blocks src dst t.state) (blocks dst src t.state) blocked),
        wants_notification_blocked dst src about t.state
            (last (blocks dst src t.state) (blocks src dst t.state) blocked),
      )
    where
      apart : (x y : ℕ) → (x == y) ≡ false → (y == x) ≡ false
      apart x y h = ground arith

      first : (a b : Bool) → a ≡ true → (a || b) ≡ true
      first true b h = refl
      first false b h = absurd (cc h)

      last : (a b : Bool) → b ≡ true → (a || b) ≡ true
      last true b h = refl
      last false b h = h
