-- ===== src/Store/Fault/Refines.antt =====
-- Around a store that keeps the contract, `FaultStore` keeps it: whatever fails, and wherever.
use mastomini.Prelude.{
  ◌+◌, ◌≡◌, refl, sym, ap, Bool, true, false, Option, if◌then◌else◌, Result, ok, err, inl, inr,
}
use mathlib.Core.Path.{subst}
use mastomini.Prelude.Bytes.{Bytes}
use mastomini.Store.Base.{
  Ns, StoreError, io, power_cut, Failure, write, full_store, persist_then_error,
}
use mastomini.Store.Key.{Key}
use mastomini.Store.Key.Order.{key_ord}
use mastomini.Store.Contract.{View, Updated, Writes}
use mastomini.Store.Fault.{
  FaultStore, Method, ◌>>=◌, ◌>>◌, inside, fault, admit, out_of_budget, write_through, mutation,
}

-- What holds of a method's result and of the state that it leaves, step by step.
pub bind_post :
    {S A B : Type 0} (Q : Result StoreError B → S → Type 0) (m : Method S A) (f : A → Method S B)
    (s : S)
    → ((e : StoreError) → (m s).0 ≡ err e → Q (err e) (m s).1)
    → ((a : A) → (m s).0 ≡ ok a → Q (f a (m s).1).0 (f a (m s).1).1)
    → Q ((m >>= f) s).0 ((m >>= f) s).1
bind_post {S} {A} {B} Q m f s failed done = go (m s).0 (m s).1 failed done
  where
    go :
        (r : Result StoreError A) (s' : S)
        → ((e : StoreError) → r ≡ err e → Q (err e) s')
        → ((a : A) → r ≡ ok a → Q (f a s').0 (f a s').1)
        → Q (((λ _. (r, s')) >>= f) s).0 (((λ _. (r, s')) >>= f) s).1
    go (ok a) s' failed done = done a refl
    go (err e) s' failed done = failed e refl

admit-inner : {S : Type 0} (s : FaultStore S) → (admit s).1.inner ≡ s.inner
unfolding admit
admit-inner {S} s = go s.cut (out_of_budget s.budget s.writes)
  where
    go :
        (b c : Bool)
        → (let p : Result StoreError (Unit {0}) × FaultStore S =
              if b
              then (err (io power_cut), s)
              else if c
              then (err (io power_cut), record s { cut = true })
              else (ok tt, record s { writes = s.writes + 1 }) in
            p.1.inner)
          ≡ s.inner
    go true c = refl
    go false true = refl
    go false false = refl

fault-inner : {S : Type 0} (at : Failure) (s : FaultStore S) → (fault at s).1.inner ≡ s.inner
unfolding fault
fault-inner at s = refl

module _ {S : Type 0} (view : S → View) where
  -- `i` is the inner store before the call.
  abbrev Wrote : Ns × Key → Option Bytes → S → Result StoreError (Unit {0}) → FaultStore S → Type 0
  Wrote slot o i r s = Writes slot o (view i) r (view s.inner)

  unwritten :
      (slot : Ns × Key) (o : Option Bytes) (i : S) (e : StoreError) (s : FaultStore S)
      → s.inner ≡ i
      → Wrote slot o i (err e) s
  unwritten slot o i e s same = inr (λ at. ap (λ t. view t at) same)

  acknowledged :
      (slot : Ns × Key) (o : Option Bytes) (i : S) (r : Result StoreError (Unit {0}))
      (s : FaultStore S)
      → Updated slot o (view i) (view s.inner)
      → Wrote slot o i r s
  acknowledged slot o i (ok _) s u = u
  acknowledged slot o i (err e) s u = inl u

  inside-Writes :
      (slot : Ns × Key) (o : Option Bytes) (m : Method S (Unit {0})) (s : FaultStore S)
      → Writes slot o (view s.inner) (m s.inner).0 (view (m s.inner).1)
      → Wrote slot o s.inner (write_through m s).0 (write_through m s).1
  unfolding write_through fault
  inside-Writes slot o m s w =
      bind_post (Wrote slot o s.inner) (fault write)
        (λ _. fault full_store >> (inside m >> fault persist_then_error)) s
        (λ e _. unwritten slot o s.inner e (fault write s).1 refl)
        λ _ _.
          let t = (fault write s).1 in
          bind_post (Wrote slot o s.inner) (fault full_store)
            (λ _. inside m >> fault persist_then_error) t
            (λ e _. unwritten slot o s.inner e (fault full_store t).1 refl)
            λ _ _.
              let u = (fault full_store t).1 in
              bind_post (Wrote slot o s.inner) (inside m) (λ _. fault persist_then_error) u
                (λ e failed.
                  subst (λ r. Writes slot o (view s.inner) r (view (m s.inner).1)) failed w)
                λ a done.
                  acknowledged slot o s.inner (fault persist_then_error (inside m u).1).0
                    (fault persist_then_error (inside m u).1).1
                    (subst (λ r. Writes slot o (view s.inner) r (view (m s.inner).1)) done w)

  pub mutation-Writes :
      (slot : Ns × Key) (o : Option Bytes) (m : Method S (Unit {0})) (s : FaultStore S)
      → Writes slot o (view s.inner) (m s.inner).0 (view (m s.inner).1)
      → Writes slot o (view s.inner) (mutation m s).0 (view (mutation m s).1.inner)
  unfolding mutation
  mutation-Writes slot o m s w =
      bind_post (Wrote slot o s.inner) admit (λ _. write_through m) s
        (λ e _. unwritten slot o s.inner e (admit s).1 (admit-inner s))
        λ _ _.
          let t = (admit s).1 in
          subst (λ i. Wrote slot o i (write_through m t).0 (write_through m t).1) (admit-inner s)
            (inside-Writes slot o m t
              (subst (λ i. Writes slot o (view i) (m i).0 (view (m i).1)) (sym (admit-inner s)) w))

-- A method changes the inner store by the inner call or not at all.
module _ {S : Type 0} (IsValid : S → Type 0) (m : Method S (Unit {0})) where
  abbrev Kept : Result StoreError (Unit {0}) → FaultStore S → Type 0
  Kept r s = IsValid s.inner

  inside-IsValid :
      (s : FaultStore S)
      → IsValid s.inner
      → IsValid (m s.inner).1
      → IsValid (write_through m s).1.inner
  unfolding write_through fault
  inside-IsValid s v w =
      bind_post Kept (fault write) (λ _. fault full_store >> (inside m >> fault persist_then_error))
        s (λ e _. v)
        λ _ _.
          let t = (fault write s).1 in
          bind_post Kept (fault full_store) (λ _. inside m >> fault persist_then_error) t (λ e _. v)
            λ _ _.
              bind_post Kept (inside m) (λ _. fault persist_then_error) (fault full_store t).1
                (λ e _. w) (λ _ _. w)

  pub mutation-IsValid :
      (s : FaultStore S) → IsValid s.inner → IsValid (m s.inner).1 → IsValid (mutation m s).1.inner
  unfolding mutation
  mutation-IsValid s v w =
      bind_post Kept admit (λ _. write_through m) s (λ e _. subst IsValid (sym (admit-inner s)) v)
        λ _ _.
          inside-IsValid (admit s).1 (subst IsValid (sym (admit-inner s)) v)
            (subst (λ i. IsValid (m i).1) (sym (admit-inner s)) w)
