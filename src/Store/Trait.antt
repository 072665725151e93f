-- ===== src/Store/Trait.antt =====
-- The `Store` trait of mastomini_rs/src/store/mod.rs: operations over a state. A visitor takes and
-- returns the variables that it captures. `load` is that of mastomini_rs/src/domain/mod.rs.
use mathlib.Core.List.{append-nil, append_assoc}
use mastomini.Prelude.{ap, List, [], ◌∷◌, ◌++◌, Option, Result, ok, err, refl, ◌≡◌, ◌∙◌}
use mastomini.Prelude.Bytes.{Bytes}
use mastomini.Store.Base.{Ns, StoreError, StoreStats}
use mastomini.Store.Key.{Key}

abbrev pub Visitor : Type 0 → Type 0
Visitor A = Key → Bytes → A → Result StoreError (Unit {0}) × A

pub record Store (S : Type 0) : Type 1 where
  pub get : Ns → Key → S → Result StoreError (Option Bytes) × S
  pub set : Ns → Key → Bytes → S → Result StoreError (Unit {0}) × S
  pub erase : Ns → Key → S → Result StoreError (Unit {0}) × S
  pub for_each : (A : Type 0) → Ns → Visitor A → S → A → Result StoreError (Unit {0}) × S × A
  pub stats : S → Result StoreError StoreStats × S

-- The visitor of `load`: `out.push((*key, value.to_vec())); Ok(())`.
abbrev pub push_entry : Visitor (List (Key × Bytes))
push_entry key value out = (ok tt, out ++ ((key, value) ∷ []))

unfoldable pub load : {S : Type 0} → Store S → Ns → S → Result StoreError (List (Key × Bytes)) × S
load ops ns s =
    let (r, s', out) = ops.for_each (List (Key × Bytes)) ns push_entry s [] in
    elim r [ ok _ ↦ (ok out, s') | err e ↦ (err e, s') ]

-- A visit of the entries in turn, up to the visitor's first error.
abbrev pub walk :
    {A : Type 0} → Visitor A → List (Key × Bytes) → A → Result StoreError (Unit {0}) × A
walk visitor [] a = (ok tt, a)
walk visitor ((key, value) ∷ entries) a =
    let (r, a') = visitor key value a in
    let rest = walk visitor entries a' in elim r [ ok _ ↦ rest | err e ↦ (err e, a') ]

pub walk-push_entry :
    (entries out : List (Key × Bytes)) → walk push_entry entries out ≡ (ok tt, out ++ entries)
walk-push_entry [] out = rw append-nil
walk-push_entry ((k, v) ∷ entries) out =
    walk-push_entry entries (out ++ ((k, v) ∷ [])) ∙ rw append_assoc

pub load_of :
    {S : Type 0} (ops : Store S) (ns : Ns) (s : S) {s' : S} {out : List (Key × Bytes)}
    → ops.for_each (List (Key × Bytes)) ns push_entry s [] ≡ (ok tt, s', out)
    → load ops ns s ≡ (ok out, s')
unfolding load
load_of {S} ops ns s e =
    ap
      (λ (p : Result StoreError (Unit {0}) × S × List (Key × Bytes)).
        elim p.0 as (λ _. Result StoreError (List (Key × Bytes)) × S) [
          | ok _ ↦ (ok p.2, p.1)
          | err e ↦ (err e, p.1)
        ])
      e

-- What holds of a visit, from its first step.
pub walk-cons_post :
    {A : Type 0} (Q : Result StoreError (Unit {0}) → A → Type 0) (visitor : Visitor A) (k : Key)
    (v : Bytes) (entries : List (Key × Bytes)) (a : A)
    → ((e : StoreError) → (visitor k v a).0 ≡ err e → Q (err e) (visitor k v a).1)
    → ((u : Unit {0})
        → (visitor k v a).0 ≡ ok u
        → Q (walk visitor entries (visitor k v a).1).0 (walk visitor entries (visitor k v a).1).1)
    → Q (walk visitor ((k, v) ∷ entries) a).0 (walk visitor ((k, v) ∷ entries) a).1
walk-cons_post {A} Q visitor k v entries a failed done = go (visitor k v a).0 failed done
  where
    rest : Result StoreError (Unit {0}) × A
    rest = walk visitor entries (visitor k v a).1

    stop : Result StoreError (Unit {0}) → Result StoreError (Unit {0}) × A
    stop r = elim r [ ok _ ↦ rest | err e ↦ (err e, (visitor k v a).1) ]

    go :
        (r : Result StoreError (Unit {0}))
        → ((e : StoreError) → r ≡ err e → Q (err e) (visitor k v a).1)
        → ((u : Unit {0}) → r ≡ ok u → Q rest.0 rest.1)
        → Q (stop r).0 (stop r).1
    go (ok u) failed done = done u refl
    go (err e) failed done = failed e refl
