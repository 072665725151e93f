-- ===== src/Cloud/Hub/Readers.antt =====
-- Whom a message is for: the ids that `publish` of minicloud_rs/src/broker.rs collects.
use mathlib.Core.Path.{subst}
use mastomini.Prelude.Map.{Map, get}
use mastomini.Prelude.{
  ℕ, ◌≡◌, refl, sym, ap, ◌∙◌, Bool, true, false, some, List, [], ◌∷◌, if◌then◌else◌, All, ◌==◌,
  ◌||◌, arith, ◌<◌,
}
use mastomini.Prelude.Bytes.{Bytes}
use mastomini.Prelude.Ord.{nat_ord, pair_ord, list_ord}
use mastomini.Prelude.Map.Order.{IsSorted, IsBelow}
use mastomini.Domain.Lists.{contains}
use mastomini.Cloud.Hub.{Subscriber, Mqtt, readers, any_matches}

-- Ids that stand in their order, as the keys of a map do.
abbrev pub IsUp : List ℕ → Type 0
IsUp [] = Unit
IsUp (i ∷ ids) = All (λ j. i < j) ids × IsUp ids

pub eq_true : (a b : ℕ) → (a == b) ≡ true → a ≡ b
eq_true a b h = ground arith

pub absent : (i : ℕ) (ids : List ℕ) → All (λ j. i < j) ids → contains i ids ≡ false
absent i [] h = refl
absent i (j ∷ ids) (above, h) = rw (apart i j above) (absent i ids h)
  where
    apart : (i j : ℕ) → i < j → (j == i) ≡ false
    apart i j above = ground arith

pub above-readers :
    (mqtt : Mqtt) (topic : Bytes) (i : ℕ) (m : Map ℕ Subscriber)
    → IsBelow i m
    → All (λ j. i < j) (readers mqtt topic m)
above-readers mqtt topic i [] h = tt
above-readers mqtt topic i ((j, c) ∷ m) (h, below) =
    step (any_matches mqtt topic c.filters) (readers mqtt topic m) lower
      (above-readers mqtt topic i m below)
  where
    lower : i < j
    lower = ground (arith, h)

    step :
        (b : Bool) (ids : List ℕ)
        → i < j
        → All (λ k. i < k) ids
        → All (λ k. i < k) (if b then j ∷ ids else ids)
    step true ids l a = (l, a)
    step false ids l a = a

pub readers-IsUp :
    (mqtt : Mqtt) (topic : Bytes) (m : Map ℕ Subscriber) → IsSorted m → IsUp (readers mqtt topic m)
readers-IsUp mqtt topic [] h = tt
readers-IsUp mqtt topic ((j, c) ∷ m) (below, h) =
    step (any_matches mqtt topic c.filters) (readers mqtt topic m)
      (above-readers mqtt topic j m below) (readers-IsUp mqtt topic m h)
  where
    step :
        (b : Bool) (ids : List ℕ)
        → All (λ k. j < k) ids
        → IsUp ids
        → IsUp (if b then j ∷ ids else ids)
    step true ids a up = (a, up)
    step false ids a up = up

-- A client is among the readers exactly if a filter of it matches.
pub contains-readers :
    (mqtt : Mqtt) (topic : Bytes) (id : ℕ) (client : Subscriber) (m : Map ℕ Subscriber)
    → IsSorted m
    → get id m ≡ some client
    → contains id (readers mqtt topic m) ≡ any_matches mqtt topic client.filters
unfolding get
contains-readers mqtt topic id client [] h e = absurd (cc e)
contains-readers mqtt topic id client ((j, c) ∷ m) (below, h) e =
    step (j == id) refl (any_matches mqtt topic c.filters) refl
      (contains-readers mqtt topic id client m h)
  where
    Matches : Subscriber → Bool
    Matches d = any_matches mqtt topic d.filters

    found_here : (j == id) ≡ true → c ≡ client
    found_here eh = some_eq (sym (ap (λ t. if t then some c else get id m) eh) ∙ e)
      where
        some_eq : {x y : Subscriber} → some x ≡ some y → x ≡ y
        some_eq q = cc q

    found_later : (j == id) ≡ false → get id m ≡ some client
    found_later eh = sym (ap (λ t. if t then some c else get id m) eh) ∙ e

    step :
        (hit : Bool)
        → (j == id) ≡ hit
        → (b : Bool) → any_matches mqtt topic c.filters ≡ b
        → (get id m ≡ some client
            → contains id (readers mqtt topic m) ≡ any_matches mqtt topic client.filters)
        → contains id (if b then j ∷ readers mqtt topic m else readers mqtt topic m)
          ≡ any_matches mqtt topic client.filters
    step true eh true eb rest =
        ap (λ t. t || contains id (readers mqtt topic m)) eh ∙ sym eb ∙ ap Matches (found_here eh)
    step true eh false eb rest =
        absent id (readers mqtt topic m) (
          subst (λ i. All (λ k. i < k) (readers mqtt topic m)) (eq_true j id eh)
            (above-readers mqtt topic j m below))
        ∙ sym eb
        ∙ ap Matches (found_here eh)
    step false eh true eb rest =
        ap (λ t. t || contains id (readers mqtt topic m)) eh ∙ rest (found_later eh)
    step false eh false eb rest = rest (found_later eh)
