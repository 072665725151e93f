-- ===== src/Domain/Mirror/Rows.antt =====
-- What inserting a row into its table and removing it do to the rows.
use mastomini.Prelude.{
  ℕ, ◌≡◌, ◌≢◌, refl, sym, ap, ◌∙◌, Option, none, some, Bool-cases, inl, inr, if◌then◌else◌,
}
use mastomini.Prelude.Ord.{Ord, nat_ord, pair_ord}
use mastomini.Prelude.Map.{
  Map, same, same_eq, get, insert, remove, get-insert, get-remove, get-insert_self, get-remove_self,
}
use mastomini.Domain.State.{
  State, FollowRec, BlockRec, MuteRec, ListRec, CodeRec, follow_rec, block_rec, mute_rec, list_rec,
  code_rec,
}
use mastomini.Domain.Mirror.{Row, transformed, lookup}
use mastomini.Domain.Mirror.Commit.{SetsRow}

module _ {K V : Type 0} ⦃o : Ord K⦄ where
  missed : (k j : K) (a b : Option V) → k ≢ j → (if same k j then a else b) ≡ b
  missed k j a b other = elim (Bool-cases (same k j)) [
    | inl hit ↦ absurd (other (same_eq k j hit))
    | inr miss ↦ ap (λ t. if t then a else b) miss
  ]

  get-insert_other : (k j : K) (v : V) (m : Map K V) → k ≢ j → get j (insert k v m) ≡ get j m
  get-insert_other k j v m other = get-insert k j v m ∙ missed k j (some v) (get j m) other

  get-remove_other : (k j : K) (m : Map K V) → k ≢ j → get j (remove k m) ≡ get j m
  get-remove_other k j m other = get-remove k j m ∙ missed k j none (get j m) other

abbrev pub with_follow : (ℕ × ℕ) → FollowRec → State → State
with_follow k rec t = record t { follows = insert k rec t.follows }

follow_set_other :
    (a b : ℕ) (rec : FollowRec) (t : State) (q : Row)
    → q ≢ Row.follow_row a b
    → lookup q (with_follow (a, b) rec t) ≡ lookup q t
follow_set_other a b rec t (Row.follow_row c d) other = ap (transformed follow_rec) (
    get-insert_other (a, b) (c, d) rec t.follows
      (λ e. other (ap (λ (k : (ℕ × ℕ)). Row.follow_row k.0 k.1) (sym e))))
follow_set_other a b rec t (Row.request_row c d) other = refl
follow_set_other a b rec t (Row.block_row c d) other = refl
follow_set_other a b rec t (Row.mute_row c d) other = refl
follow_set_other a b rec t (Row.list_row c d) other = refl
follow_set_other a b rec t (Row.code_row c) other = refl

pub follow-SetsRow :
    (a b : ℕ) (rec : FollowRec)
    → SetsRow (Row.follow_row a b) (some (follow_rec rec)) (with_follow (a, b) rec)
follow-SetsRow a b rec t =
    (ap (transformed follow_rec) (get-insert_self (a, b) rec t.follows), follow_set_other a b rec t)

abbrev pub less_follow : (ℕ × ℕ) → State → State
less_follow k t = record t { follows = remove k t.follows }

follow_gone_other :
    (a b : ℕ) (t : State) (q : Row)
    → q ≢ Row.follow_row a b
    → lookup q (less_follow (a, b) t) ≡ lookup q t
follow_gone_other a b t (Row.follow_row c d) other = ap (transformed follow_rec) (
    get-remove_other (a, b) (c, d) t.follows
      (λ e. other (ap (λ (k : (ℕ × ℕ)). Row.follow_row k.0 k.1) (sym e))))
follow_gone_other a b t (Row.request_row c d) other = refl
follow_gone_other a b t (Row.block_row c d) other = refl
follow_gone_other a b t (Row.mute_row c d) other = refl
follow_gone_other a b t (Row.list_row c d) other = refl
follow_gone_other a b t (Row.code_row c) other = refl

pub follow_gone-SetsRow : (a b : ℕ) → SetsRow (Row.follow_row a b) none (less_follow (a, b))
follow_gone-SetsRow a b t =
    (ap (transformed follow_rec) (get-remove_self (a, b) t.follows), follow_gone_other a b t)

abbrev pub with_request : (ℕ × ℕ) → FollowRec → State → State
with_request k rec t = record t { follow_requests = insert k rec t.follow_requests }

request_set_other :
    (a b : ℕ) (rec : FollowRec) (t : State) (q : Row)
    → q ≢ Row.request_row a b
    → lookup q (with_request (a, b) rec t) ≡ lookup q t
request_set_other a b rec t (Row.follow_row c d) other = refl
request_set_other a b rec t (Row.request_row c d) other = ap (transformed follow_rec) (
    get-insert_other (a, b) (c, d) rec t.follow_requests
      (λ e. other (ap (λ (k : (ℕ × ℕ)). Row.request_row k.0 k.1) (sym e))))
request_set_other a b rec t (Row.block_row c d) other = refl
request_set_other a b rec t (Row.mute_row c d) other = refl
request_set_other a b rec t (Row.list_row c d) other = refl
request_set_other a b rec t (Row.code_row c) other = refl

pub request-SetsRow :
    (a b : ℕ) (rec : FollowRec)
    → SetsRow (Row.request_row a b) (some (follow_rec rec)) (with_request (a, b) rec)
request-SetsRow a b rec t = (
  ap (transformed follow_rec) (get-insert_self (a, b) rec t.follow_requests),
  request_set_other a b rec t,
)

abbrev pub less_request : (ℕ × ℕ) → State → State
less_request k t = record t { follow_requests = remove k t.follow_requests }

request_gone_other :
    (a b : ℕ) (t : State) (q : Row)
    → q ≢ Row.request_row a b
    → lookup q (less_request (a, b) t) ≡ lookup q t
request_gone_other a b t (Row.follow_row c d) other = refl
request_gone_other a b t (Row.request_row c d) other = ap (transformed follow_rec) (
    get-remove_other (a, b) (c, d) t.follow_requests
      (λ e. other (ap (λ (k : (ℕ × ℕ)). Row.request_row k.0 k.1) (sym e))))
request_gone_other a b t (Row.block_row c d) other = refl
request_gone_other a b t (Row.mute_row c d) other = refl
request_gone_other a b t (Row.list_row c d) other = refl
request_gone_other a b t (Row.code_row c) other = refl

pub request_gone-SetsRow : (a b : ℕ) → SetsRow (Row.request_row a b) none (less_request (a, b))
request_gone-SetsRow a b t = (
  ap (transformed follow_rec) (get-remove_self (a, b) t.follow_requests),
  request_gone_other a b t,
)

abbrev pub with_block : (ℕ × ℕ) → BlockRec → State → State
with_block k rec t = record t { blocks = insert k rec t.blocks }

block_set_other :
    (a b : ℕ) (rec : BlockRec) (t : State) (q : Row)
    → q ≢ Row.block_row a b
    → lookup q (with_block (a, b) rec t) ≡ lookup q t
block_set_other a b rec t (Row.follow_row c d) other = refl
block_set_other a b rec t (Row.request_row c d) other = refl
block_set_other a b rec t (Row.block_row c d) other = ap (transformed block_rec) (
    get-insert_other (a, b) (c, d) rec t.blocks
      (λ e. other (ap (λ (k : (ℕ × ℕ)). Row.block_row k.0 k.1) (sym e))))
block_set_other a b rec t (Row.mute_row c d) other = refl
block_set_other a b rec t (Row.list_row c d) other = refl
block_set_other a b rec t (Row.code_row c) other = refl

pub block-SetsRow :
    (a b : ℕ) (rec : BlockRec)
    → SetsRow (Row.block_row a b) (some (block_rec rec)) (with_block (a, b) rec)
block-SetsRow a b rec t =
    (ap (transformed block_rec) (get-insert_self (a, b) rec t.blocks), block_set_other a b rec t)

abbrev pub less_block : (ℕ × ℕ) → State → State
less_block k t = record t { blocks = remove k t.blocks }

block_gone_other :
    (a b : ℕ) (t : State) (q : Row)
    → q ≢ Row.block_row a b
    → lookup q (less_block (a, b) t) ≡ lookup q t
block_gone_other a b t (Row.follow_row c d) other = refl
block_gone_other a b t (Row.request_row c d) other = refl
block_gone_other a b t (Row.block_row c d) other = ap (transformed block_rec) (
    get-remove_other (a, b) (c, d) t.blocks
      (λ e. other (ap (λ (k : (ℕ × ℕ)). Row.block_row k.0 k.1) (sym e))))
block_gone_other a b t (Row.mute_row c d) other = refl
block_gone_other a b t (Row.list_row c d) other = refl
block_gone_other a b t (Row.code_row c) other = refl

pub block_gone-SetsRow : (a b : ℕ) → SetsRow (Row.block_row a b) none (less_block (a, b))
block_gone-SetsRow a b t =
    (ap (transformed block_rec) (get-remove_self (a, b) t.blocks), block_gone_other a b t)

abbrev pub with_mute : (ℕ × ℕ) → MuteRec → State → State
with_mute k rec t = record t { mutes = insert k rec t.mutes }

mute_set_other :
    (a b : ℕ) (rec : MuteRec) (t : State) (q : Row)
    → q ≢ Row.mute_row a b
    → lookup q (with_mute (a, b) rec t) ≡ lookup q t
mute_set_other a b rec t (Row.follow_row c d) other = refl
mute_set_other a b rec t (Row.request_row c d) other = refl
mute_set_other a b rec t (Row.block_row c d) other = refl
mute_set_other a b rec t (Row.mute_row c d) other = ap (transformed mute_rec) (
    get-insert_other (a, b) (c, d) rec t.mutes
      (λ e. other (ap (λ (k : (ℕ × ℕ)). Row.mute_row k.0 k.1) (sym e))))
mute_set_other a b rec t (Row.list_row c d) other = refl
mute_set_other a b rec t (Row.code_row c) other = refl

pub mute-SetsRow :
    (a b : ℕ) (rec : MuteRec)
    → SetsRow (Row.mute_row a b) (some (mute_rec rec)) (with_mute (a, b) rec)
mute-SetsRow a b rec t =
    (ap (transformed mute_rec) (get-insert_self (a, b) rec t.mutes), mute_set_other a b rec t)

abbrev pub less_mute : (ℕ × ℕ) → State → State
less_mute k t = record t { mutes = remove k t.mutes }

mute_gone_other :
    (a b : ℕ) (t : State) (q : Row)
    → q ≢ Row.mute_row a b
    → lookup q (less_mute (a, b) t) ≡ lookup q t
mute_gone_other a b t (Row.follow_row c d) other = refl
mute_gone_other a b t (Row.request_row c d) other = refl
mute_gone_other a b t (Row.block_row c d) other = refl
mute_gone_other a b t (Row.mute_row c d) other = ap (transformed mute_rec) (
    get-remove_other (a, b) (c, d) t.mutes
      (λ e. other (ap (λ (k : (ℕ × ℕ)). Row.mute_row k.0 k.1) (sym e))))
mute_gone_other a b t (Row.list_row c d) other = refl
mute_gone_other a b t (Row.code_row c) other = refl

pub mute_gone-SetsRow : (a b : ℕ) → SetsRow (Row.mute_row a b) none (less_mute (a, b))
mute_gone-SetsRow a b t =
    (ap (transformed mute_rec) (get-remove_self (a, b) t.mutes), mute_gone_other a b t)

abbrev pub with_list : (ℕ × ℕ) → ListRec → State → State
with_list k rec t = record t { lists = insert k rec t.lists }

list_set_other :
    (a b : ℕ) (rec : ListRec) (t : State) (q : Row)
    → q ≢ Row.list_row a b
    → lookup q (with_list (a, b) rec t) ≡ lookup q t
list_set_other a b rec t (Row.follow_row c d) other = refl
list_set_other a b rec t (Row.request_row c d) other = refl
list_set_other a b rec t (Row.block_row c d) other = refl
list_set_other a b rec t (Row.mute_row c d) other = refl
list_set_other a b rec t (Row.list_row c d) other = ap (transformed list_rec) (
    get-insert_other (a, b) (c, d) rec t.lists
      (λ e. other (ap (λ (k : (ℕ × ℕ)). Row.list_row k.0 k.1) (sym e))))
list_set_other a b rec t (Row.code_row c) other = refl

pub list-SetsRow :
    (a b : ℕ) (rec : ListRec)
    → SetsRow (Row.list_row a b) (some (list_rec rec)) (with_list (a, b) rec)
list-SetsRow a b rec t =
    (ap (transformed list_rec) (get-insert_self (a, b) rec t.lists), list_set_other a b rec t)

abbrev pub less_list : (ℕ × ℕ) → State → State
less_list k t = record t { lists = remove k t.lists }

list_gone_other :
    (a b : ℕ) (t : State) (q : Row)
    → q ≢ Row.list_row a b
    → lookup q (less_list (a, b) t) ≡ lookup q t
list_gone_other a b t (Row.follow_row c d) other = refl
list_gone_other a b t (Row.request_row c d) other = refl
list_gone_other a b t (Row.block_row c d) other = refl
list_gone_other a b t (Row.mute_row c d) other = refl
list_gone_other a b t (Row.list_row c d) other = ap (transformed list_rec) (
    get-remove_other (a, b) (c, d) t.lists
      (λ e. other (ap (λ (k : (ℕ × ℕ)). Row.list_row k.0 k.1) (sym e))))
list_gone_other a b t (Row.code_row c) other = refl

pub list_gone-SetsRow : (a b : ℕ) → SetsRow (Row.list_row a b) none (less_list (a, b))
list_gone-SetsRow a b t =
    (ap (transformed list_rec) (get-remove_self (a, b) t.lists), list_gone_other a b t)

abbrev pub with_code : ℕ → CodeRec → State → State
with_code k rec t = record t { invites = insert k rec t.invites }

code_set_other :
    (a : ℕ) (rec : CodeRec) (t : State) (q : Row)
    → q ≢ Row.code_row a
    → lookup q (with_code a rec t) ≡ lookup q t
code_set_other a rec t (Row.follow_row c d) other = refl
code_set_other a rec t (Row.request_row c d) other = refl
code_set_other a rec t (Row.block_row c d) other = refl
code_set_other a rec t (Row.mute_row c d) other = refl
code_set_other a rec t (Row.list_row c d) other = refl
code_set_other a rec t (Row.code_row c) other =
    ap (transformed code_rec)
      (get-insert_other a c rec t.invites (λ e. other (ap (λ (k : ℕ). Row.code_row k) (sym e))))

pub code-SetsRow :
    (a : ℕ) (rec : CodeRec) → SetsRow (Row.code_row a) (some (code_rec rec)) (with_code a rec)
code-SetsRow a rec t =
    (ap (transformed code_rec) (get-insert_self a rec t.invites), code_set_other a rec t)

abbrev pub less_code : ℕ → State → State
less_code k t = record t { invites = remove k t.invites }

code_gone_other :
    (a : ℕ) (t : State) (q : Row) → q ≢ Row.code_row a → lookup q (less_code a t) ≡ lookup q t
code_gone_other a t (Row.follow_row c d) other = refl
code_gone_other a t (Row.request_row c d) other = refl
code_gone_other a t (Row.block_row c d) other = refl
code_gone_other a t (Row.mute_row c d) other = refl
code_gone_other a t (Row.list_row c d) other = refl
code_gone_other a t (Row.code_row c) other =
    ap (transformed code_rec)
      (get-remove_other a c t.invites (λ e. other (ap (λ (k : ℕ). Row.code_row k) (sym e))))

pub code_gone-SetsRow : (a : ℕ) → SetsRow (Row.code_row a) none (less_code a)
code_gone-SetsRow a t =
    (ap (transformed code_rec) (get-remove_self a t.invites), code_gone_other a t)
