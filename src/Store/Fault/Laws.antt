-- ===== src/Store/Fault/Laws.antt =====
-- What a power cut does: the writes of the budget reach the inner store, and nothing after them.
use mastomini.Prelude.{
  ℕ, zero, suc, ◌+◌, ◌≡◌, refl, Bool, true, false, none, some, List, [], ◌∷◌, take, ap, ◌∙◌, leb,
  if◌then◌else◌, Result, ok, err, arith,
}
use mastomini.Prelude.Bytes.{Bytes}
use mastomini.Store.Base.{Ns, StoreError, io, power_cut}
use mastomini.Store.Key.{Key}
use mastomini.Store.Trait.{Store}
use mastomini.Store.Fault.{
  FaultStore, Method, ◌>>=◌, write_through, out_of_budget, mutation, fault_new, cut_after, fault,
  admit, fault_set, fault_erase, fault_ops,
}

pub data Change : Type 0 where
  set_key : Ns → Key → Bytes → Change
  erase_key : Ns → Key → Change

abbrev pub change : {S : Type 0} → Store S → Change → S → Result StoreError (Unit {0}) × S
change ops (set_key ns k value) s = ops.set ns k value s
change ops (erase_key ns k) s = ops.erase ns k s

-- The state after a sequence of writes, whatever each of them returned.
abbrev pub changed : {S : Type 0} → Store S → List Change → S → S
changed ops [] s = s
changed ops (c ∷ cs) s = changed ops cs (change ops c s).1

-- A store with `left` writes of its budget to go, and no other fault.
abbrev counting : {S : Type 0} → S → ℕ → ℕ → FaultStore S
counting inner left writes = record {
  inner = inner;
  budget = some (writes + left);
  writes = writes;
  cut = false;
  failure = none;
}

bind_of :
    {S A B : Type 0} (m : Method S A) (f : A → Method S B) (s : S) {r : Result StoreError A}
    {s' : S}
    → m s ≡ (r, s')
    → (m >>= f) s ≡ (elim r [ ok a ↦ f a s' | err e ↦ (err e, s') ])
bind_of {S} {A} {B} m f s e =
    ap
      (λ (p : Result StoreError A × S). elim p.0 as (λ _. Result StoreError B × S) [
        | ok a ↦ f a p.1
        | err e ↦ (err e, p.1)
      ])
      e

admit_cut : {S : Type 0} (s : FaultStore S) → s.cut ≡ true → admit s ≡ (err (io power_cut), s)
unfolding admit
admit_cut s h = ap (λ b. if b then (err (io power_cut), s) else if_open s) h
  where
    if_open : {S : Type 0} → FaultStore S → Result StoreError (Unit {0}) × FaultStore S
    if_open s =
        if out_of_budget s.budget s.writes
        then (err (io power_cut), record s { cut = true })
        else (ok tt, record s { writes = s.writes + 1 })

mutation_cut :
    {S : Type 0} (m : Method S (Unit {0})) (s : FaultStore S)
    → s.cut ≡ true
    → mutation m s ≡ (err (io power_cut), s)
unfolding mutation
mutation_cut m s h = bind_of admit (λ _. write_through m) s (admit_cut s h)

admit-counting :
    {S : Type 0} (inner : S) (left writes : ℕ)
    → admit (counting inner (suc left) writes) ≡ (ok tt, counting inner left (writes + 1))
unfolding admit
admit-counting {S} inner left writes =
    let room : leb (writes + suc left) writes ≡ false = ground arith in
    let total : writes + suc left ≡ writes + 1 + left = omega arith in
    let s = counting inner (suc left) writes in
    ap
      (λ (b : Bool).
        let p : Result StoreError (Unit {0}) × FaultStore S =
          if b
          then (err (io power_cut), record s { cut = true })
          else (ok tt, record s { writes = writes + 1 }) in
        p)
      room
    ∙ ap
        (λ (n : ℕ).
          let p : Result StoreError (Unit {0}) × FaultStore S =
            (ok tt, record s { budget = some n; writes = writes + 1 }) in
          p)
        total

admit_spent :
    {S : Type 0} (inner : S) (writes : ℕ)
    → admit (counting inner 0 writes)
      ≡ (err (io power_cut), record (counting inner 0 writes) { cut = true })
unfolding admit
admit_spent {S} inner writes =
    let spent : leb (writes + 0) writes ≡ true = ground arith in
    let s = counting inner 0 writes in
    ap
      (λ (b : Bool).
        let p : Result StoreError (Unit {0}) × FaultStore S =
          if b
          then (err (io power_cut), record s { cut = true })
          else (ok tt, record s { writes = writes + 1 }) in
        p)
      spent

write_through-counting :
    {S : Type 0} (m : Method S (Unit {0})) (inner : S) (left writes : ℕ)
    → (write_through m (counting inner left writes)).1 ≡ counting (m inner).1 left writes
unfolding write_through fault
write_through-counting {S} m inner left writes = go (m inner).0 (m inner).1
  where
    go :
        (r : Result StoreError (Unit {0})) (inner' : S)
        → (write_through (λ _. (r, inner')) (counting inner left writes)).1
          ≡ counting inner' left writes
    go (ok _) inner' = refl
    go (err e) inner' = refl

mutation-counting :
    {S : Type 0} (m : Method S (Unit {0})) (inner : S) (left writes : ℕ)
    → (mutation m (counting inner (suc left) writes)).1 ≡ counting (m inner).1 left (writes + 1)
unfolding mutation
mutation-counting {S} m inner left writes =
    ap (λ (p : Result StoreError (Unit {0}) × FaultStore S). p.1)
      (bind_of admit (λ _. write_through m) (counting inner (suc left) writes)
        (admit-counting inner left writes))
    ∙ write_through-counting m inner left (writes + 1)

mutation_spent :
    {S : Type 0} (m : Method S (Unit {0})) (inner : S) (writes : ℕ)
    → (mutation m (counting inner 0 writes)).1 ≡ record (counting inner 0 writes) { cut = true }
unfolding mutation
mutation_spent {S} m inner writes =
    ap (λ (p : Result StoreError (Unit {0}) × FaultStore S). p.1)
      (bind_of admit (λ _. write_through m) (counting inner 0 writes) (admit_spent inner writes))

module _ {S : Type 0} (ops : Store S) where
  cut_latches :
      (c : Change) (s : FaultStore S)
      → s.cut ≡ true
      → change (fault_ops ops) c s ≡ (err (io power_cut), s)
  unfolding fault_set fault_erase
  cut_latches (set_key ns k value) s h = mutation_cut (ops.set ns k value) s h
  cut_latches (erase_key ns k) s h = mutation_cut (ops.erase ns k) s h

  changed-cut :
      (cs : List Change) (s : FaultStore S) → s.cut ≡ true → changed (fault_ops ops) cs s ≡ s
  changed-cut [] s h = refl
  changed-cut (c ∷ cs) s h =
      ap (λ (p : Result StoreError (Unit {0}) × FaultStore S). changed (fault_ops ops) cs p.1)
        (cut_latches c s h)
      ∙ changed-cut cs s h

  change-counting :
      (c : Change) (inner : S) (left writes : ℕ)
      → (change (fault_ops ops) c (counting inner (suc left) writes)).1
        ≡ counting (change ops c inner).1 left (writes + 1)
  unfolding fault_set fault_erase
  change-counting (set_key ns k value) = mutation-counting (ops.set ns k value)
  change-counting (erase_key ns k) = mutation-counting (ops.erase ns k)

  change_spent :
      (c : Change) (inner : S) (writes : ℕ)
      → (change (fault_ops ops) c (counting inner 0 writes)).1
        ≡ record (counting inner 0 writes) { cut = true }
  unfolding fault_set fault_erase
  change_spent (set_key ns k value) = mutation_spent (ops.set ns k value)
  change_spent (erase_key ns k) = mutation_spent (ops.erase ns k)

  changed-counting :
      (cs : List Change) (inner : S) (left writes : ℕ)
      → (changed (fault_ops ops) cs (counting inner left writes)).inner
        ≡ changed ops (take left cs) inner
  changed-counting [] inner zero writes = refl
  changed-counting [] inner (suc left) writes = refl
  changed-counting (c ∷ cs) inner zero writes =
      ap (λ (t : FaultStore S). (changed (fault_ops ops) cs t).inner) (change_spent c inner writes)
      ∙ ap (λ (t : FaultStore S). t.inner)
          (changed-cut cs (record (counting inner 0 writes) { cut = true }) refl)
  changed-counting (c ∷ cs) inner (suc left) writes =
      ap (λ (t : FaultStore S). (changed (fault_ops ops) cs t).inner)
        (change-counting c inner left writes)
      ∙ changed-counting cs (change ops c inner).1 left (writes + 1)

  -- With power cut after `n` writes of a new `FaultStore`, exactly the first `n` of any sequence
  -- of `set` and `erase` calls reach the store inside, whether or not they succeed there.
  pub changed-cut_after :
      (cs : List Change) (inner : S) (n : ℕ)
      → (changed (fault_ops ops) cs (cut_after n (fault_new inner))).inner
        ≡ changed ops (take n cs) inner
  unfolding cut_after fault_new
  changed-cut_after cs inner n = changed-counting cs inner n 0
