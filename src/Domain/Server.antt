-- ===== src/Domain/Server.antt =====
-- The service of mastomini_rs/src/domain/mod.rs with its state in RAM. A method takes the server
-- and returns its result and the server as it leaves it, on errors too.
pub mod Logic
pub mod Aside
use mastomini.Prelude.{List, ℕ, Bool, Option, none, some, Result, ok, err, if◌then◌else◌}
use mastomini.Ids.{next}
use mastomini.Store.Base.{Ns, StoreError}
use mastomini.Store.Key.{Key}
use mastomini.Store.Trait.{Store}
use mastomini.Domain.Base.{literal, rejected, Error, unavailable}
use mastomini.Domain.Codec.{Kind}
use mastomini.Domain.Writer.{Service, writable, put, erase}
use mastomini.Domain.Governor.{govern}
use mastomini.Domain.State.{State}

-- `core` is what the writes of the service stand on.
pub record Server (S A : Type 0) : Type 0 where
  pub core : Service S A
  pub state : State

abbrev pub Method : Type 0 → Type 0 → Type 0 → Type 0
Method S A B = Server S A → Result Error B × Server S A

abbrev pub pure : {S A B : Type 0} → B → Method S A B
pure b s = (ok b, s)

abbrev pub fail : {S A B : Type 0} → Error → Method S A B
fail e s = (err e, s)

infixl 5 ◌>>=◌ ◌>>◌
abbrev pub ◌>>=◌ : {S A B C : Type 0} → Method S A B → (B → Method S A C) → Method S A C
◌>>=◌ m f s = let (r, s') = m s in elim r [ ok b ↦ f b s' | err e ↦ (err e, s') ]

abbrev pub ◌>>◌ : {S A B C : Type 0} → Method S A B → Method S A C → Method S A C
m >> k = m >>= λ _. k

-- `self.state`
abbrev pub the_state : {S A : Type 0} → Method S A State
the_state s = (ok s.state, s)

abbrev pub modify : {S A : Type 0} → (State → State) → Method S A (Unit {0})
modify f s = (ok tt, record s { state = f s.state })

-- `.ok_or(error)?`
abbrev pub found : {S A B : Type 0} → Error → Option B → Method S A B
found e none = fail e
found e (some b) = pure b

-- Where the source goes on only if a test fails; `e` is what it returns otherwise.
abbrev pub refuse_if : {S A : Type 0} → Bool → Error → Method S A (Unit {0})
refuse_if test e = if test then fail e else pure tt

-- Stands for a panic of the source.
abbrev pub panic : Error
panic = unavailable (literal "panic")

-- `.expect(..)` of a key.
abbrev pub expect : {S A : Type 0} → Result StoreError Key → Method S A Key
expect (ok k) = pure k
expect (err _) = fail panic

-- A method that leaves the state alone.
abbrev pub on_core : {S A B : Type 0} → (Service S A → Result Error B × Service S A) → Method S A B
on_core m s = let (r, core') = m s.core in (r, record s { core = core' })

unfoldable pub check_writable : {S A : Type 0} → Method S A (Unit {0})
check_writable s = (writable s.core, s)

abbrev pub governed :
    {S A : Type 0}
    → Option (Result Error (Unit {0}) × Service S A)
    → Service S A
    → Result Error (Unit {0}) × Service S A
governed none core = (err panic, core)
governed (some (r, core')) core = (r, core')

unfoldable pub govern_call : {S A : Type 0} → Option ℕ → ℕ → Method S A (Unit {0})
unfolding govern
govern_call slot now_ms = on_core (λ core. governed (govern slot now_ms core) core)

unfoldable pub next_id : {S A : Type 0} → ℕ → Method S A ℕ
unfolding next
next_id now_ms s =
    let (o, ids') = next now_ms s.core.ids in
    let s' = record s { core = record s.core { ids = ids' } } in
    elim o [
      | none ↦ (err (unavailable (literal "Status ID space exhausted or clock out of range")), s')
      | some id ↦ (ok id, s')
    ]

module _ {S A T : Type 0} (ops : Store S) (to_allocvec : T → Option (List ℕ)) where
  unfoldable pub put_rec : Ns → Result StoreError Key → Kind → T → Method S A (Unit {0})
  put_rec ns key kind rec = do k ← expect key; on_core (put ops to_allocvec ns k kind rec)

  unfoldable pub erase_rec : Ns → Result StoreError Key → Method S A (Unit {0})
  erase_rec ns key = do k ← expect key; on_core (erase ops to_allocvec ns k)
