-- ===== src/Domain/Mirror.antt =====
-- The tables in RAM as a mirror of the store: which record each row of a table is.
pub mod Commit
pub mod Step
pub mod Aside
pub mod Rows
pub mod Relations
pub mod Lists
pub mod Codes
pub mod Blocks
pub mod Run
pub mod Notify
use mastomini.Prelude.{
  ℕ, ◌<◌, ◌≡◌, ◌⊎◌, ltb, ltb→lt, lt→ltb, Bool-cases, inl, inr, refl, sym, ap, ◌∙◌, Bool, true,
  false, Option, none, some, List, [], ◌∷◌, ◌++◌, concat, ◌==◌, if◌then◌else◌, Result, ok, err,
  arith,
}
use mathlib.Core.List.{append-nil}
use mastomini.Prelude.Bytes.{Bytes, is_graphic}
use mastomini.Prelude.Word.{u64_end, ◌>>=?◌}
use mastomini.Prelude.Ord.{nat_ord, pair_ord}
use mastomini.Prelude.Map.{get}
use mastomini.Prelude.Table.{all_below, all_below_at}
use mastomini.Ids.{b32, from_b32, position}
use mastomini.Ids.Text.{from_b32-b32}
use mastomini.Store.Base.{Ns, StoreError}
use mastomini.Store.Key.{Key, as_str, from_parts}
use mastomini.Store.Key.Parts.{from_parts-eq-key_new}
use mastomini.Store.Contract.{IsKey}
use mastomini.Domain.Base.{max_accounts}
use mastomini.Domain.Codec.{Kind}
use mastomini.Domain.Lists.{max_lists}
use mastomini.Domain.Keys.{Name, key, slot_digit, parse_slot, hex, slot_digits, of_slots, of_id}
use mastomini.Domain.Keys.Made.{spelled, IsName, key-Made, of_id-Made}
use mastomini.Domain.Keys.Slots.{parse_slot_iff}
use mastomini.Domain.Keys.Distinct.{spelled-same}
use mastomini.Domain.State.{State, Rec, follow_rec, block_rec, mute_rec, code_rec, list_rec}

pub data Row : Type 0 where
  follow_row request_row block_row mute_row list_row : ℕ → ℕ → Row
  code_row : ℕ → Row

abbrev pub IsRow : Row → Type 0
IsRow (follow_row a b) = (a < max_accounts) × (b < max_accounts)
IsRow (request_row a b) = (a < max_accounts) × (b < max_accounts)
IsRow (block_row a b) = (a < max_accounts) × (b < max_accounts)
IsRow (mute_row a b) = (a < max_accounts) × (b < max_accounts)
IsRow (list_row slot n) = (slot < max_accounts) × (n < max_lists)
IsRow (code_row id) = id < u64_end

abbrev pub name : Row → Name
name (follow_row a b) = Name.follow a b
name (request_row a b) = Name.follow_request a b
name (block_row a b) = Name.block a b
name (mute_row a b) = Name.mute a b
name (list_row slot n) = Name.list slot n
name (code_row id) = Name.code id

abbrev pub ns_of : Row → Ns
ns_of (follow_row a b) = Ns.rel
ns_of (request_row a b) = Ns.rel
ns_of (block_row a b) = Ns.rel
ns_of (mute_row a b) = Ns.rel
ns_of (list_row slot n) = Ns.list
ns_of (code_row id) = Ns.inv

abbrev pub kind_of : Row → Kind
kind_of (follow_row a b) = Kind.follow
kind_of (request_row a b) = Kind.follow_request
kind_of (block_row a b) = Kind.block
kind_of (mute_row a b) = Kind.mute
kind_of (list_row slot n) = Kind.list
kind_of (code_row id) = Kind.code

abbrev pub transformed : {B C : Type 0} → (B → C) → Option B → Option C
transformed f none = none
transformed f (some b) = some (f b)

abbrev pub lookup : Row → State → Option Rec
lookup (follow_row a b) s = transformed follow_rec (get (a, b) s.follows)
lookup (request_row a b) s = transformed follow_rec (get (a, b) s.follow_requests)
lookup (block_row a b) s = transformed block_rec (get (a, b) s.blocks)
lookup (mute_row a b) s = transformed mute_rec (get (a, b) s.mutes)
lookup (list_row slot n) s = transformed list_rec (get (slot, n) s.lists)
lookup (code_row id) s = transformed code_rec (get id s.invites)

below-cases : (a n : ℕ) → (a < n) ⊎ ¬ (a < n)
below-cases a n = elim (Bool-cases (ltb a n)) [
  | inl below ↦ inl (ltb→lt a n below)
  | inr miss ↦ inr (λ h. cc (sym miss ∙ lt→ltb a n h))
]

both-cases : (a b m n : ℕ) → ((a < m) × (b < n)) ⊎ ¬ ((a < m) × (b < n))
both-cases a b m n = elim (below-cases a m) [
  | inr miss ↦ inr (λ h. miss h.0)
  | inl ha ↦ elim (below-cases b n) [ inr miss ↦ inr (λ h. miss h.1) | inl hb ↦ inl (ha, hb) ]
]

pub row-cases : (row : Row) → IsRow row ⊎ ¬ IsRow row
row-cases (follow_row a b) = both-cases a b max_accounts max_accounts
row-cases (request_row a b) = both-cases a b max_accounts max_accounts
row-cases (block_row a b) = both-cases a b max_accounts max_accounts
row-cases (mute_row a b) = both-cases a b max_accounts max_accounts
row-cases (list_row slot n) = both-cases slot n max_accounts max_lists
row-cases (code_row id) = below-cases id u64_end

row-IsName : (row : Row) → IsRow row → IsName (name row)
row-IsName (follow_row a b) h = h
row-IsName (request_row a b) h = h
row-IsName (block_row a b) h = h
row-IsName (mute_row a b) h = h
row-IsName (list_row slot n) h = h.0
row-IsName (code_row id) h = tt

-- The row that a key's text is of.
abbrev read_pair : (ℕ → ℕ → Row) → Bytes → Option Row
read_pair c (x ∷ y ∷ []) = parse_slot x >>=? λ a. parse_slot y >>=? λ b. some (c a b)
read_pair c _ = none

abbrev read_row : Bytes → Option Row
read_row [] = none
read_row (p ∷ rest) =
    if p == 70
    then read_pair follow_row rest
    else if p == 81
    then read_pair request_row rest
    else if p == 66
    then read_pair block_row rest
    else if p == 77
    then read_pair mute_row rest
    else if p == 108
    then read_pair list_row rest
    else from_b32 rest >>=? λ id. some (code_row id)

slot_read : (slot : ℕ) → slot < max_accounts → parse_slot (slot_digit slot) ≡ some slot
slot_read slot h = (parse_slot_iff slot (slot_digit slot) h).1 refl

hex_table : all_below 8 (λ n. hex n == slot_digit n) ≡ true
unfolding hex slot_digit all_below
hex_table = refl

hex_slot : (n : ℕ) → n < max_lists → hex n ≡ slot_digit n
hex_slot n h =
    let same : (hex n == slot_digit n) ≡ true =
      all_below_at 8 (λ i. hex i == slot_digit i) hex_table n h in
    ground (arith, same)

row-read : (row : Row) → IsRow row → read_row (spelled (name row)) ≡ some row
unfolding spelled
row-read (follow_row a b) (ha, hb) = rw (slot_read a ha, slot_read b hb) refl
row-read (request_row a b) (ha, hb) = rw (slot_read a ha, slot_read b hb) refl
row-read (block_row a b) (ha, hb) = rw (slot_read a ha, slot_read b hb) refl
row-read (mute_row a b) (ha, hb) = rw (slot_read a ha, slot_read b hb) refl
row-read (list_row slot n) (hs, hn) =
    rw (hex_slot n hn, slot_read slot hs, slot_read n (omega arith)) refl
row-read (code_row id) h = rw (append-nil (b32 id), from_b32-b32 id h) refl

-- Rows under one key are one row.
pub key-row_eq : (r q : Row) → IsRow r → IsRow q → key (name r) ≡ key (name q) → r ≡ q
key-row_eq r q hr hq h = some_eq (
    sym (row-read r hr)
    ∙ ap read_row (spelled-same (name r) (name q) (row-IsName r hr) (row-IsName q hq) h)
    ∙ row-read q hq)
  where
    some_eq : {a b : Row} → some a ≡ some b → a ≡ b
    some_eq e = cc

from_parts-IsKey : (parts : List Bytes) (k : Key) → from_parts parts ≡ ok k → IsKey k
from_parts-IsKey parts k e = (concat parts, sym (from_parts-eq-key_new parts) ∙ e)

row_key-IsKey : (r : Row) (k : Key) → key (name r) ≡ ok k → IsKey k
unfolding key
row_key-IsKey (follow_row a b) k e = from_parts-IsKey _ k e
row_key-IsKey (request_row a b) k e = from_parts-IsKey _ k e
row_key-IsKey (block_row a b) k e = from_parts-IsKey _ k e
row_key-IsKey (mute_row a b) k e = from_parts-IsKey _ k e
row_key-IsKey (list_row slot n) k e = from_parts-IsKey _ k e
row_key-IsKey (code_row id) k e = from_parts-IsKey _ k e

pub row_key : (r : Row) → IsRow r → (k : Key) × (key (name r) ≡ ok k) × IsKey k
row_key r h =
    let (k, made, _) = key-Made (name r) (row-IsName r h) in (k, made, row_key-IsKey r k made)

pub id_key : (p id : ℕ) → is_graphic p ≡ true → (k : Key) × (of_id p id ≡ ok k) × IsKey k
id_key p id h = let (k, made, _) = of_id-Made p id h in (k, made, from_parts-IsKey _ k made)
