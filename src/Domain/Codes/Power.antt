-- ===== src/Domain/Codes/Power.antt =====
-- Power over accounts: `require_power_over` of mastomini_rs/src/domain/moderation.rs.
use mastomini.Prelude.Ord.{nat_ord, pair_ord}
use mastomini.Domain.Blocks.{not_allowed}
use mastomini.Domain.Base.{Error, not_found}
use mastomini.Prelude.{
  ◌↔◌, ◌⊎◌, ◌≢◌, ℕ, ◌≡◌, refl, sym, ap, ◌∙◌, Bool, true, false, Option, none, some, Result, ok, err,
  if◌then◌else◌, not, ◌==◌, ◌&&◌, ◌||◌, inl, inr,
}
use mastomini.Domain.State.{State, Role, Account}
use mastomini.Domain.State.Relations.{account, is_admin}
use mastomini.Domain.Codes.{require_admin, require_power_over, owner_acts, is_owner, is_plain_admin}

-- The role of a live account.
abbrev pub HasRole : ℕ → Role → State → Type 0
HasRole slot role s = (a : Account) × (account slot s ≡ some a) × (a.rec.role ≡ role)

-- Who has power over whom: the owner over everyone else, an administrator over members.
pub data Over (s : State) (actor target : ℕ) : Type 0 where
  owner_over :
      (role : Role)
      → (actor == target) ≡ false
      → HasRole actor Role.owner s
      → HasRole target role s
      → role ≢ Role.owner
      → Over s actor target
  admin_over :
      (actor == target) ≡ false
      → HasRole actor Role.admin s
      → HasRole target Role.member s
      → Over s actor target

abbrev first_role : Option Account → Result Error (Unit {0})
first_role none = err not_allowed
first_role (some a) = if is_admin a.rec.role then ok tt else err not_allowed

abbrev verdict : Bool → Option Account → Option Account → Result Error (Unit {0})
verdict self o t = elim (first_role o) as (λ _. Result Error (Unit {0})) [
  | err e ↦ err e
  | ok _ ↦ elim t as (λ _. Result Error (Unit {0})) [
    | none ↦ err not_found
    | some b ↦
        if self || (is_owner b.rec.role || (is_plain_admin b.rec.role && not (owner_acts o)))
        then err not_allowed
        else ok tt
  ]
]

abbrev Ranks : Role → Role → Type 0
Ranks a b = ((a ≡ Role.owner) × (b ≢ Role.owner)) ⊎ ((a ≡ Role.admin) × (b ≡ Role.member))

-- What a verdict rests on: the roles, and that nobody has power over themselves.
ranked :
    (self : Bool) (a b : Role)
    → (if is_admin a
        then (if self || (is_owner b || (is_plain_admin b && not (is_owner a)))
            then false
            else true)
        else false)
      ≡ true
    → (self ≡ false) × Ranks a b
unfolding is_admin
ranked true Role.owner b h = absurd (cc h)
ranked true Role.admin b h = absurd (cc h)
ranked false Role.owner Role.owner h = absurd (cc h)
ranked false Role.owner Role.admin h = (refl, inl (refl, λ e. cc e))
ranked false Role.owner Role.member h = (refl, inl (refl, λ e. cc e))
ranked false Role.admin Role.owner h = absurd (cc h)
ranked false Role.admin Role.admin h = absurd (cc h)
ranked false Role.admin Role.member h = (refl, inr (refl, refl))
ranked self Role.member b h = absurd (cc h)

judged :
    (self : Bool) (a b : Account)
    → verdict self (some a) (some b) ≡ ok tt
    → (self ≡ false) × Ranks a.rec.role b.rec.role
judged self a b h = ranked self a.rec.role b.rec.role (
    go (is_admin a.rec.role)
      (self || (is_owner b.rec.role || (is_plain_admin b.rec.role && not (is_owner a.rec.role)))) h)
  where
    go :
        (x y : Bool)
        → (elim (if x then ok tt else err not_allowed)
            as (λ (r : Result Error (Unit {0})). Result Error (Unit {0})) [
              | err e ↦ err e
              | ok _ ↦ if y then err not_allowed else ok tt
            ])
          ≡ ok tt
        → (if x then (if y then false else true) else false) ≡ true
    go true true k = absurd (cc k)
    go true false k = refl
    go false y k = absurd (cc k)

lost :
    (x : Bool)
    → ¬ (
        (elim (if x then ok tt else err not_allowed)
          as (λ (r : Result Error (Unit {0})). Result Error (Unit {0})) [
            | err e ↦ err e
            | ok _ ↦ err not_found
          ])
        ≡ ok tt)
lost true h = cc h
lost false h = cc h

granted :
    (actor target : ℕ) (s : State) (o t : Option Account)
    → account actor s ≡ o
    → account target s ≡ t
    → verdict (actor == target) o t ≡ ok tt
    → Over s actor target
granted actor target s none t eo et h = absurd (cc h)
granted actor target s (some a) none eo et h = absurd (lost (is_admin a.rec.role) h)
granted actor target s (some a) (some b) eo et h =
    let (other, roles) = judged (actor == target) a b h in
    elim roles [
      | inl (first, second) ↦ owner_over b.rec.role other (a, eo, first) (b, et, refl) second
      | inr (first, second) ↦ admin_over other (a, eo, first) (b, et, second)
    ]

power_Over :
    (actor target : ℕ) (s : State) → require_power_over actor target s ≡ ok tt → Over s actor target
unfolding require_power_over require_admin
power_Over actor target s h =
    granted actor target s (account actor s) (account target s) refl refl h

-- The way back.
permitted :
    (x : Bool) (ra rb : Role)
    → x ≡ false
    → Ranks ra rb
    → (elim (if is_admin ra then ok tt else err not_allowed)
        as (λ (r : Result Error (Unit {0})). Result Error (Unit {0})) [
          | err e ↦ err e
          | ok _ ↦
              if x || (is_owner rb || (is_plain_admin rb && not (is_owner ra)))
              then err not_allowed
              else ok tt
        ])
      ≡ ok tt
unfolding is_admin
permitted true ra rb e roles = absurd (cc e)
permitted false Role.owner Role.owner e (inl (_, not_owner)) = absurd (not_owner refl)
permitted false Role.owner Role.owner e (inr (first, _)) = absurd (cc first)
permitted false Role.owner Role.admin e roles = refl
permitted false Role.owner Role.member e roles = refl
permitted false Role.admin Role.owner e (inl (first, _)) = absurd (cc first)
permitted false Role.admin Role.owner e (inr (_, second)) = absurd (cc second)
permitted false Role.admin Role.admin e (inl (first, _)) = absurd (cc first)
permitted false Role.admin Role.admin e (inr (_, second)) = absurd (cc second)
permitted false Role.admin Role.member e roles = refl
permitted false Role.member rb e (inl (first, _)) = absurd (cc first)
permitted false Role.member rb e (inr (first, _)) = absurd (cc first)

allowed :
    (self : Bool) (o t : Option Account) (a b : Account)
    → o ≡ some a
    → t ≡ some b
    → self ≡ false
    → Ranks a.rec.role b.rec.role
    → verdict self o t ≡ ok tt
allowed self o t a b eo et other roles =
    rw (eo, et) (permitted self a.rec.role b.rec.role other roles)

power_back :
    (actor target : ℕ) (s : State) → Over s actor target → require_power_over actor target s ≡ ok tt
unfolding require_power_over require_admin
power_back actor target s (owner_over role other (a, ea, ra) (b, eb, rb) not_owner) =
    allowed (actor == target) (account actor s) (account target s) a b ea eb other
      (inl (ra, λ e. not_owner (sym rb ∙ e)))
power_back actor target s (admin_over other (a, ea, ra) (b, eb, rb)) =
    allowed (actor == target) (account actor s) (account target s) a b ea eb other (inr (ra, rb))

-- `require_power_over` succeeds exactly when the actor and the target are different live accounts
-- and either the actor is the owner and the target is not, or the actor is an administrator and
-- the target a member.
pub require_power_over_iff :
    (actor target : ℕ) (s : State)
    → (require_power_over actor target s ≡ ok tt) ↔ Over s actor target
require_power_over_iff actor target s = (power_Over actor target s, power_back actor target s)

same_role : (slot : ℕ) (p q : Role) (s : State) → HasRole slot p s → HasRole slot q s → p ≡ q
same_role slot p q s (a, ea, ra) (b, eb, rb) =
    let same_account : a ≡ b = some_eq (sym ea ∙ eb) in
    sym ra ∙ ap (λ (x : Account). x.rec.role) same_account ∙ rb
  where
    some_eq : {x y : Account} → some x ≡ some y → x ≡ y
    some_eq e = cc e

one_way : (a b : ℕ) (s : State) → Over s a b → ¬ Over s b a
one_way a b s (owner_over role _ ra rb _) (owner_over _ _ qb qa not_owner) =
    not_owner (same_role a _ _ s qa ra)
one_way a b s (owner_over role _ ra rb _) (admin_over _ qb qa) = cc (same_role a _ _ s ra qa)
one_way a b s (admin_over _ ra rb) (owner_over role _ qb qa _) = cc (same_role b _ _ s rb qb)
one_way a b s (admin_over _ ra rb) (admin_over _ qb qa) = cc (same_role a _ _ s ra qa)

-- Two accounts never have power over each other: if `require_power_over` succeeds one way, it
-- does not succeed the other way.
pub require_power_over-one_way :
    (a b : ℕ) (s : State) → require_power_over a b s ≡ ok tt → require_power_over b a s ≢ ok tt
require_power_over-one_way a b s h k = one_way a b s (power_Over a b s h) (power_Over b a s k)
