-- ===== src/Domain/Mirror/Commit.antt =====
-- While the service has not latched, each row in RAM is the record that the store holds: the steps
-- that write, erase or forget one row keep it so.
use mathlib.Core.Path.{subst}
use mastomini.Prelude.{
  ◌≡◌, ◌≢◌, sym, ap, ◌∙◌, true, false, Option, if◌then◌else◌, Result, ok, Bool-cases, inl, inr,
}
use mastomini.Prelude.Bytes.{Bytes}
use mastomini.Prelude.Map.{same, same_refl, same_eq}
use mastomini.Store.Base.{Ns, StoreError}
use mastomini.Store.Key.{Key}
use mastomini.Store.Key.Order.{slot_ord}
use mastomini.Store.Contract.{View, Unchanged, Updated}
use mastomini.Domain.Codec.{encode}
use mastomini.Domain.Keys.{key}
use mastomini.Domain.State.{Rec, State}
use mastomini.Domain.Mirror.{
  some, Row, IsRow, name, ns_of, kind_of, transformed, lookup, key-row_eq, row-cases,
}

-- Where a row is stored.
abbrev pub slot : Row → Key → Ns × Key
slot row k = (ns_of row, k)

-- A change of the state that sets one row and leaves every other one.
abbrev pub SetsRow : Row → Option Rec → (State → State) → Type 0
SetsRow row o f =
    (st : State) → (lookup row (f st) ≡ o) × ((q : Row) → q ≢ row → lookup q (f st) ≡ lookup q st)

-- A change of the state that leaves every row.
abbrev pub IsSame : (State → State) → Type 0
IsSame f = (st : State) (q : Row) → lookup q (f st) ≡ lookup q st

-- Every row is in the range of its table.
abbrev pub IsIn : State → Type 0
IsIn st = (row : Row) (rec : Rec) → lookup row st ≡ some rec → IsRow row

pub set-IsIn :
    (row : Row) (o : Option Rec) (f : State → State) (st : State)
    → IsRow row
    → SetsRow row o f
    → IsIn st
    → IsIn (f st)
set-IsIn row o f st hr set h q rec e = elim (row-cases q) [
  | inl is ↦ is
  | inr isnt ↦
      h q rec (sym ((set st).1 q (λ same_row. isnt (subst (λ r. IsRow r) (sym same_row) hr))) ∙ e)
]

pub same-IsIn : (f : State → State) (st : State) → IsSame f → IsIn st → IsIn (f st)
same-IsIn f st same_rows h q rec e = h q rec (sym (same_rows st q) ∙ e)

module _ (to_allocvec : Rec → Option Bytes) where
  abbrev pub encoded : Row → Option Rec → Option (Result StoreError Bytes)
  encoded row o = transformed (encode to_allocvec (kind_of row)) o

  -- Every row in RAM is what the view holds under its key, encoded.
  abbrev pub IsMirror : View → State → Type 0
  IsMirror v st =
      (row : Row)
      → IsRow row
      → (k : Key) → key (name row) ≡ ok k
      → transformed ok (v (slot row k)) ≡ encoded row (lookup row st)

  pub set-IsMirror :
      (row : Row) (o : Option Rec) (ob : Option Bytes) (f : State → State) (k : Key) (v w : View)
      (st : State)
      → IsRow row
      → key (name row) ≡ ok k
      → SetsRow row o f
      → Updated (slot row k) ob v w
      → transformed ok ob ≡ encoded row o
      → IsMirror v st
      → IsMirror w (f st)
  set-IsMirror row o ob f k v w st hr made set up image m q hq j made_q =
      elim (Bool-cases (same (slot row k) (slot q j))) [
        | inl hit ↦
            let at : slot row k ≡ slot q j = same_eq (slot row k) (slot q j) hit in
            let row_q : row ≡ q =
              key-row_eq row q hr hq (made ∙ ap (λ (a : Ns × Key). ok a.1) at ∙ sym made_q) in
            ap (transformed ok) (up (slot q j) ∙ ap (λ b. if b then ob else v (slot q j)) hit)
            ∙ image
            ∙ ap (encoded row) (sym (set st).0)
            ∙ ap (λ (r : Row). encoded r (lookup r (f st))) row_q
        | inr miss ↦
            ap (transformed ok) (up (slot q j) ∙ ap (λ b. if b then ob else v (slot q j)) miss)
            ∙ m q hq j made_q
            ∙ ap (encoded q) (sym ((set st).1 q (other miss)))
      ]
    where
      ok_eq : {a b : Key} → ◌≡◌ {A = Result StoreError Key} (ok a) (ok b) → a ≡ b
      ok_eq e = cc

      other : same (slot row k) (slot q j) ≡ false → q ≢ row
      other miss e =
          let j_k : j ≡ k = ok_eq (sym made_q ∙ ap (λ (r : Row). key (name r)) e ∙ made) in
          let hit : same (slot row k) (slot q j) ≡ true =
            rw (j_k, ap ns_of e) (same_refl (slot row k)) in
          cc (sym hit ∙ miss)

  -- It stays one while the view changes beside the rows, and the state does.
  pub agree-IsMirror :
      (v w : View) (s t : State)
      → ((q : Row) (j : Key) → w (slot q j) ≡ v (slot q j))
      → ((q : Row) → lookup q t ≡ lookup q s)
      → IsMirror v s
      → IsMirror w t
  agree-IsMirror v w s t kept same_rows m q hq j made =
      ap (transformed ok) (kept q j) ∙ m q hq j made ∙ ap (encoded q) (sym (same_rows q))

  pub keep-IsMirror :
      (v w : View) (s t : State)
      → Unchanged v w
      → ((q : Row) → lookup q t ≡ lookup q s)
      → IsMirror v s
      → IsMirror w t
  keep-IsMirror v w s t kept = agree-IsMirror v w s t (λ q j. kept (slot q j))
