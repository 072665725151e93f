-- ===== src/Domain/Server/Aside.antt =====
-- Methods by what they do to the state in RAM.
use mathlib.Core.Path.{subst}
use mastomini.Prelude.{true, false, Bool, ℕ, ◌≡◌, refl, sym, Option, none, some, Result, ok, err}
use mastomini.Prelude.Bytes.{Bytes}
use mastomini.Prelude.Ord.{nat_ord, pair_ord}
use mastomini.Store.Base.{Ns, StoreError}
use mastomini.Store.Key.{Key}
use mastomini.Store.Trait.{Store}
use mastomini.Domain.Base.{Error, unavailable, literal}
use mastomini.Ids.{next, IdGen}
use mastomini.Domain.Codec.{Kind}
use mastomini.Domain.State.{Rec, State}
use mastomini.Domain.Server.{
  found, refuse_if, pure, Server, Method, ◌>>=◌, modify, the_state, put_rec, erase_rec, govern_call,
  next_id, check_writable,
}
use mastomini.Domain.Server.Logic.{Runs, Outcome, Runs-bind, Runs-weaken}

-- A method that leaves RAM alone.
abbrev pub IsAside : {S A B : Type 0} → Method S A B → Type 0
IsAside {S} {A} m = (s : Server S A) → (m s).1.state ≡ s.state

-- On an error, nothing is said of the state.
abbrev pub Anything : {S A : Type 0} → Server S A → Type 0
Anything s = Unit

-- From what holds of the state before to what holds of it after a success.
abbrev pub Leads : {S A B : Type 0} → (State → Type 0) → (State → Type 0) → Method S A B → Type 0
Leads C D m = Runs (λ s. C s.state) (λ _ s. D s.state) Anything m

pub Leads-modify :
    (S A : Type 0) (C D : State → Type 0) (f : State → State)
    → ((t : State) → C t → D (f t))
    → Leads C D (modify {S = S} {A = A} f)
unfolding Runs
Leads-modify S A C D f h s c = h s.state c

pub Leads-pure :
    {B : Type 0} (S A : Type 0) (C D : State → Type 0) (b : B)
    → ((t : State) → C t → D t)
    → Leads C D (pure {S = S} {A = A} b)
unfolding Runs
Leads-pure S A C D b h s c = h s.state c

module _ {S A : Type 0} where
  pub Leads-aside : {B : Type 0} (C : State → Type 0) (m : Method S A B) → IsAside m → Leads C C m
  unfolding Runs
  Leads-aside {B} C m same_state s c = go (m s) (subst C (sym (same_state s)) c)
    where
      go : (r : Result Error B × Server S A) → C r.1.state → Outcome (λ _ t. C t.state) Anything r
      go (ok b, t) d = d
      go (err e, t) d = tt

  pub Leads-weaken :
      {B : Type 0} (C C' D D' : State → Type 0) (m : Method S A B)
      → Leads C D m
      → ((t : State) → C' t → C t)
      → ((t : State) → D t → D' t)
      → Leads C' D' m
  Leads-weaken C C' D D' m h before after =
      Runs-weaken (λ s. C s.state) (λ s. C' s.state) (λ s. D s.state) (λ s. D' s.state) Anything m h
        (λ s. before s.state) (λ s. after s.state)

  -- What goes on only if a test fails.
  pub Leads-refuse_if :
      {B : Type 0} (C D : State → Type 0) (test : Bool) (e : Error) (f : Unit {0} → Method S A B)
      → ((x : Unit {0}) → test ≡ false → Leads C D (f x))
      → Leads C D (refuse_if test e >>= f)
  unfolding Runs
  Leads-refuse_if C D true e f h s c = tt
  Leads-refuse_if C D false e f h s c = h tt refl s c

  pub Leads-found_as :
      {B E : Type 0} (C D : State → Type 0) (e : Error) (o : Option B) (f : B → Method S A E)
      → ((b : B) → o ≡ some b → Leads C D (f b))
      → Leads C D (found e o >>= f)
  unfolding Runs
  Leads-found_as C D e none f h s c = tt
  Leads-found_as C D e (some b) f h s c = h b refl s c

  pub Leads-both :
      {B : Type 0} (C D F G : State → Type 0) (m : Method S A B)
      → Leads C D m
      → Leads C F m
      → ((t : State) → D t → F t → G t)
      → Leads C G m
  unfolding Runs
  Leads-both {B} C D F G m hd hf both s c = go (m s) (hd s c) (hf s c)
    where
      go :
          (r : Result Error B × Server S A)
          → Outcome (λ _ t. D t.state) Anything r
          → Outcome (λ _ t. F t.state) Anything r
          → Outcome (λ _ t. G t.state) Anything r
      go (ok b, t) d f = both t.state d f
      go (err e, t) d f = tt

  pub Leads-bind :
      {B E : Type 0} (C D F : State → Type 0) (m : Method S A B) (f : B → Method S A E)
      → Leads C D m
      → ((b : B) → Leads D F (f b))
      → Leads C F (m >>= f)
  Leads-bind C D F m f hm hf =
      Runs-bind (λ s. C s.state) (λ _ s. D s.state) (λ _ s. F s.state) Anything m f hm hf

  pub Leads-state :
      {B : Type 0} (C D : State → Type 0) (f : State → Method S A B)
      → ((t : State) → Leads (λ u. C u × (u ≡ t)) D (f t))
      → Leads C D (the_state >>= f)
  unfolding Runs
  Leads-state C D f h s c = h s.state s (c, refl)

  pub put_rec-IsAside :
      (ops : Store S) (to_allocvec : Rec → Option Bytes) (ns : Ns) (key : Result StoreError Key)
      (kind : Kind) (rec : Rec)
      → IsAside {A = A} (put_rec ops to_allocvec ns key kind rec)
  unfolding put_rec
  put_rec-IsAside ops to_allocvec ns (ok k) kind rec s = refl
  put_rec-IsAside ops to_allocvec ns (err e) kind rec s = refl

  pub erase_rec-IsAside :
      (ops : Store S) (to_allocvec : Rec → Option Bytes) (ns : Ns) (key : Result StoreError Key)
      → IsAside {A = A} (erase_rec ops to_allocvec ns key)
  unfolding erase_rec
  erase_rec-IsAside ops to_allocvec ns (ok k) s = refl
  erase_rec-IsAside ops to_allocvec ns (err e) s = refl

  pub govern_call-IsAside :
      (slot : Option ℕ) (now_ms : ℕ) → IsAside {S = S} {A = A} (govern_call slot now_ms)
  unfolding govern_call
  govern_call-IsAside slot now_ms s = refl

  pub check_writable-IsAside : IsAside {S = S} {A = A} check_writable
  unfolding check_writable
  check_writable-IsAside s = refl

  pub next_id-IsAside : (now_ms : ℕ) → IsAside {S = S} {A = A} (next_id now_ms)
  unfolding next_id
  next_id-IsAside now_ms s = go (next now_ms s.core.ids)
    where
      go :
          (p : Option ℕ × IdGen)
          → (elim p.0 as (λ _. Result Error ℕ × Server S A) [
            | none ↦ (
              err (unavailable (literal "Status ID space exhausted or clock out of range")),
              record s { core = record s.core { ids = p.1 } },
            )
            | some id ↦ (ok id, record s { core = record s.core { ids = p.1 } })
          ]).1.state
            ≡ s.state
      go (none, g) = refl
      go (some id, g) = refl

  -- A success of what leads from `C` to `D`.
  pub Leads-ok :
      {B : Type 0} (C D : State → Type 0) (m : Method S A B) (s t : Server S A) (b : B)
      → Leads C D m
      → C s.state
      → m s ≡ (ok b, t)
      → D t.state
  unfolding Runs
  Leads-ok C D m s t b h c e = subst (Outcome (λ _ u. D u.state) Anything) e (h s c)
