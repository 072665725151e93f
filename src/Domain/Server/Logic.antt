-- ===== src/Domain/Server/Logic.antt =====
-- A program logic for methods: what holds before, after a success, and after an error.
use mathlib.Core.Path.{subst}
use mastomini.Prelude.{
  sym, ◌≡◌, refl, Bool, true, false, Option, none, some, Result, ok, err, if◌then◌else◌,
}
use mastomini.Domain.Base.{Error}
use mastomini.Domain.Server.{Server, Method, ◌>>=◌, found, refuse_if, pure, fail, the_state}
use mastomini.Domain.State.{State}

module _ {S A : Type 0} where
  abbrev pub Outcome :
      {B : Type 0}
      → (B → Server S A → Type 0)
      → (Server S A → Type 0)
      → Result Error B × Server S A
      → Type 0
  Outcome Q E (ok b, s) = Q b s
  Outcome Q E (err e, s) = E s

  -- From `P`, a success leads to `Q` and an error to `E`.
  unfoldable pub Runs :
      {B : Type 0}
      → (Server S A → Type 0)
      → (B → Server S A → Type 0)
      → (Server S A → Type 0)
      → Method S A B
      → Type 0
  Runs P Q E m = (s : Server S A) → P s → Outcome Q E (m s)

  -- A method that keeps `I`, on every branch.
  abbrev pub Keeps : {B : Type 0} → (Server S A → Type 0) → Method S A B → Type 0
  Keeps I m = Runs I (λ _. I) I m

  pub Runs-bind :
      {B C : Type 0} (P : Server S A → Type 0) (Q : B → Server S A → Type 0)
      (R : C → Server S A → Type 0) (E : Server S A → Type 0) (m : Method S A B)
      (f : B → Method S A C)
      → Runs P Q E m
      → ((b : B) → Runs (Q b) R E (f b))
      → Runs P R E (m >>= f)
  unfolding Runs
  Runs-bind {B} {C} P Q R E m f hm hf s p = go (m s).0 (m s).1 (hm s p)
    where
      go :
          (r : Result Error B) (s' : Server S A)
          → Outcome Q E (r, s')
          → Outcome R E
              (elim r as (λ _. Result Error C × Server S A) [ ok b ↦ f b s' | err e ↦ (err e, s') ])
      go (ok b) s' h = hf b s' h
      go (err e) s' h = h

  pub Keeps-bind :
      {B C : Type 0} (I : Server S A → Type 0) (m : Method S A B) (f : B → Method S A C)
      → Keeps I m
      → ((b : B) → Keeps I (f b))
      → Keeps I (m >>= f)
  Keeps-bind I m f hm hf = Runs-bind I (λ _. I) (λ _. I) I m f hm hf

  pub Keeps-found :
      {B : Type 0} (I : Server S A → Type 0) (e : Error) (o : Option B) → Keeps I (found e o)
  unfolding Runs
  Keeps-found I e none s h = h
  Keeps-found I e (some b) s h = h

  pub Keeps-refuse_if :
      (I : Server S A → Type 0) (test : Bool) (e : Error) → Keeps I (refuse_if test e)
  unfolding Runs
  Keeps-refuse_if I true e s h = h
  Keeps-refuse_if I false e s h = h

  pub Keeps-if :
      {B : Type 0} (I : Server S A → Type 0) (test : Bool) (m k : Method S A B)
      → Keeps I m
      → Keeps I k
      → Keeps I (if test then m else k)
  Keeps-if I true m k hm hk = hm
  Keeps-if I false m k hm hk = hk

  -- A weaker post, and a stronger precondition.
  pub Runs-weaken :
      {B : Type 0} (P P' Q Q' E : Server S A → Type 0) (m : Method S A B)
      → Runs P (λ _. Q) E m
      → ((s : Server S A) → P' s → P s)
      → ((s : Server S A) → Q s → Q' s)
      → Runs P' (λ _. Q') E m
  unfolding Runs
  Runs-weaken {B} P P' Q Q' E m h before after s p = go (m s) (h s (before s p))
    where
      go : (r : Result Error B × Server S A) → Outcome (λ _. Q) E r → Outcome (λ _. Q') E r
      go (ok b, t) q = after t q
      go (err e, t) q = q

  pub Runs-if :
      {B : Type 0} (P : Server S A → Type 0) (Q : B → Server S A → Type 0) (E : Server S A → Type 0)
      (test : Bool) (m k : Method S A B)
      → Runs P Q E m
      → Runs P Q E k
      → Runs P Q E (if test then m else k)
  Runs-if P Q E true m k hm hk = hm
  Runs-if P Q E false m k hm hk = hk

  pub Runs-pure : {B : Type 0} (P E : Server S A → Type 0) (b : B) → Runs P (λ _. P) E (pure b)
  unfolding Runs
  Runs-pure P E b s h = h

  pub Runs-fail :
      {B : Type 0} (P : Server S A → Type 0) (Q : B → Server S A → Type 0) (E : Server S A → Type 0)
      (e : Error)
      → ((s : Server S A) → P s → E s)
      → Runs P Q E (fail {S = S} {A = A} e)
  unfolding Runs
  Runs-fail P Q E e h s p = h s p

  pub Runs-the_state :
      {B : Type 0} (P : Server S A → Type 0) (Q : B → Server S A → Type 0) (E : Server S A → Type 0)
      (f : State → Method S A B)
      → ((t : State) → Runs P Q E (f t))
      → Runs P Q E (the_state >>= f)
  unfolding Runs
  Runs-the_state P Q E f h s p = h s.state s p

  -- What is found is known to be what the option holds.
  pub Runs-found_as :
      {B C : Type 0} (I : Server S A → Type 0) (Q : C → Server S A → Type 0) (e : Error)
      (o : Option B) (f : B → Method S A C)
      → ((b : B) → o ≡ some b → Runs I Q I (f b))
      → Runs I Q I (found e o >>= f)
  unfolding Runs
  Runs-found_as I Q e none f h s p = p
  Runs-found_as I Q e (some b) f h s p = h b refl s p

  pub Keeps-found_as :
      {B C : Type 0} (I : Server S A → Type 0) (e : Error) (o : Option B) (f : B → Method S A C)
      → ((b : B) → o ≡ some b → Keeps I (f b))
      → Keeps I (found e o >>= f)
  Keeps-found_as I = Runs-found_as I (λ _. I)

  -- A fact beside the precondition.
  pub Runs-given :
      {B : Type 0} (P : Server S A → Type 0) (C : Type 0) (Q : B → Server S A → Type 0)
      (E : Server S A → Type 0) (m : Method S A B)
      → (C → Runs P Q E m)
      → Runs (λ s. P s × C) Q E m
  unfolding Runs
  Runs-given P C Q E m h s (p, c) = h c s p

  pub Runs-pure_given :
      {B : Type 0} (P : Server S A → Type 0) (C : B → Type 0) (E : Server S A → Type 0) (b : B)
      → C b
      → Runs P (λ b' s. P s × C b') E (pure {S = S} {A = A} b)
  unfolding Runs
  Runs-pure_given P C E b c s p = (p, c)

  pub Runs-the_state_as :
      {B : Type 0} (P : Server S A → Type 0) (C : State → Type 0) (Q : B → Server S A → Type 0)
      (E : Server S A → Type 0) (f : State → Method S A B)
      → ((s : Server S A) → P s → C s.state)
      → ((t : State) → C t → Runs P Q E (f t))
      → Runs P Q E (the_state >>= f)
  unfolding Runs
  Runs-the_state_as P C Q E f c h s p = h s.state (c s p) s p

  -- What holds of the state beside a method that leaves it.
  pub Runs-frame :
      {B : Type 0} (P Q E : Server S A → Type 0) (C : State → Type 0) (m : Method S A B)
      → ((s : Server S A) → (m s).1.state ≡ s.state)
      → Runs P (λ _. Q) E m
      → Runs (λ s. P s × C s.state) (λ _ s. Q s × C s.state) E m
  unfolding Runs
  Runs-frame {B} P Q E C m same_state h s (p, c) = go (m s) (h s p) (subst C (sym (same_state s)) c)
    where
      go :
          (r : Result Error B × Server S A)
          → Outcome (λ _. Q) E r
          → C r.1.state
          → Outcome (λ _ t. Q t × C t.state) E r
      go (ok b, t) q c' = (q, c')
      go (err e, t) q c' = q

  -- The server after a method, whatever it returned.
  pub Keeps-after :
      {B : Type 0} (I : Server S A → Type 0) (m : Method S A B) (s : Server S A)
      → Keeps I m
      → I s
      → I (m s).1
  unfolding Runs
  Keeps-after {B} I m s h i = go (m s) (h s i)
    where
      go : (r : Result Error B × Server S A) → Outcome (λ _. I) I r → I r.1
      go (ok b, t) x = x
      go (err e, t) x = x

  -- The state that is read, as it is.
  pub Runs-the_state_at :
      {B : Type 0} (P : Server S A → Type 0) (Q : B → Server S A → Type 0) (E : Server S A → Type 0)
      (f : State → Method S A B)
      → ((t : State) → Runs (λ s. s.state ≡ t) Q E (f t))
      → Runs P Q E (the_state >>= f)
  unfolding Runs
  Runs-the_state_at P Q E f h s p = h s.state s refl

  pub Runs-pure_at :
      {B : Type 0} (P : Server S A → Type 0) (Q : B → Server S A → Type 0) (E : Server S A → Type 0)
      (b : B)
      → ((s : Server S A) → P s → Q b s)
      → Runs P Q E (pure {S = S} {A = A} b)
  unfolding Runs
  Runs-pure_at P Q E b h s p = h s p
