-- ===== src/Domain/Lists.antt =====
-- Lists of people: mastomini_rs/src/domain/lists.rs.
use mastomini.Prelude.{
  ℕ, ◌+◌, zero, suc, Bool, false, Option, none, some, List, [], ◌∷◌, ◌++◌, ◌==◌, ◌&&◌, ◌||◌, not,
  ltb, if◌then◌else◌, Result, ok, err,
}
use mastomini.Prelude.Bytes.{Bytes, bytes_eq}
use mastomini.Prelude.Text.{Chars, trim, byte_len}
use mastomini.Prelude.Ord.{nat_ord, pair_ord}
use mastomini.Prelude.Map.{Map, get, insert, remove, contains_key}
use mastomini.Store.Base.{Ns}
use mastomini.Store.Key.{is_empty}
use mastomini.Store.Trait.{Store}
use mastomini.Domain.Base.{Error, literal, invalid, not_found}
use mastomini.Domain.Codec.{Kind}
use mastomini.Domain.Keys.{Name, key}
use mastomini.Domain.State.{RepliesPolicy, ListRec, Rec, list_rec, State}
use mastomini.Domain.State.Relations.{account, slot_of, follows}
use mastomini.Domain.Server.{
  Method, pure, fail, ◌>>=◌, ◌>>◌, the_state, modify, found, govern_call, next_id, put_rec,
  erase_rec, panic,
}

abbrev pub max_list_title : ℕ
max_list_title = 40

abbrev pub max_lists : ℕ
max_lists = 8

pub record ListUpdate : Type 0 where
  pub new_title : Option Chars
  pub new_policy : Option RepliesPolicy
  pub new_exclusive : Option Bool

unfoldable pub check_title : Chars → Result Error Chars
check_title title =
    let trimmed = trim title in
    if is_empty trimmed || ltb max_list_title (byte_len trimmed)
    then err (invalid (literal "Validation failed: Title must be 1-40 bytes"))
    else ok trimmed

-- The lists of a member by their number: `range((slot, 0)..(slot, MAX_LISTS_PER_ACCOUNT))`.
unfoldable pub lists_of : ℕ → Map (ℕ × ℕ) ListRec → List (ℕ × ListRec)
lists_of slot [] = []
lists_of slot (((owner, n), l) ∷ m) =
    let rest = lists_of slot m in if owner == slot && ltb n max_lists then (n, l) ∷ rest else rest

abbrev pub numbered : ℕ → List (ℕ × ListRec) → Option ℕ
numbered id [] = none
numbered id ((n, l) ∷ ls) = if l.id == id then some n else numbered id ls

unfoldable pub list_index : ℕ → ℕ → State → Option ℕ
unfolding lists_of
list_index slot id s = numbered id (lists_of slot s.lists)

abbrev pub policy_number : RepliesPolicy → ℕ
policy_number RepliesPolicy.followed = 0
policy_number RepliesPolicy.members = 1
policy_number RepliesPolicy.nobody = 2

-- `get(..) == Some(&rec)`
abbrev pub is_stored : Option ListRec → ListRec → Bool
is_stored none rec = false
is_stored (some e) rec =
    (e.id == rec.id)
    && (bytes_eq e.title rec.title
        && ((policy_number e.replies_policy == policy_number rec.replies_policy)
            && ((if e.exclusive then rec.exclusive else not rec.exclusive)
                && bytes_eq e.members rec.members)))

abbrev pub contains : ℕ → List ℕ → Bool
contains x [] = false
contains x (y ∷ ys) = (y == x) || contains x ys

-- `retain(|m| !ids.contains(m))`
abbrev pub without : List ℕ → List ℕ → List ℕ
without ids [] = []
without ids (m ∷ ms) = let rest = without ids ms in if contains m ids then rest else m ∷ rest

-- The first free number: `(0..MAX_LISTS_PER_ACCOUNT).find(..)`, from `n` on.
unfoldable pub free_number : ℕ → ℕ → ℕ → State → Option ℕ
free_number zero n slot s = none
free_number (suc left) n slot s =
    let rest = free_number left (n + 1) slot s in
    if not (contains_key (slot, n) s.lists) then some n else rest

-- The loop of `add_to_list`.
unfoldable pub add_members : ℕ → List ℕ → List ℕ → State → Result Error (List ℕ)
unfolding slot_of follows
add_members slot [] members s = ok members
add_members slot (id ∷ ids) members s =
    let rest =
      add_members slot ids (if contains id members then members else members ++ (id ∷ [])) s in
    elim (slot_of id s) [
      | none ↦ err not_found
      | some member ↦
          if not (follows slot member s)
          then err
              (invalid (literal "Validation failed: You must follow someone to add them to a list"))
          else rest
    ]

abbrev pub returned : {S A B : Type 0} → Result Error B → Method S A B
returned (ok b) = pure b
returned (err e) = fail e

-- The lists that a departing member is in.
abbrev pub affected : ℕ → List (ℕ × ListRec) → List (ℕ × ListRec)
affected id [] = []
affected id ((n, l) ∷ ls) =
    let rest = affected id ls in if contains id l.members then (n, l) ∷ rest else rest

module _ {S A : Type 0} (ops : Store S) (to_allocvec : Rec → Option Bytes) where
  unfoldable pub commit_list : ℕ → ℕ → ListRec → Method S A (Unit {0})
  unfolding put_rec
  commit_list slot n rec = do
    put_rec ops to_allocvec Ns.list (key (Name.list slot n)) Kind.list (list_rec rec)
    modify (λ t. record t { lists = insert (slot, n) rec t.lists })

  unfoldable pub write_list : ℕ → ℕ → ListRec → Method S A (Unit {0})
  unfolding commit_list
  write_list slot n rec = do
    s ← the_state
    if is_stored (get (slot, n) s.lists) rec then pure tt else commit_list slot n rec

  unfoldable pub create_list : ℕ → Chars → RepliesPolicy → Bool → ℕ → Method S A ℕ
  unfolding check_title free_number govern_call next_id write_list
  create_list slot title replies_policy exclusive now_ms = do
    title' ← returned (check_title title)
    s ← the_state
    n ←
        found (invalid (literal "Validation failed: You can have at most 8 lists"))
          (free_number max_lists 0 slot s)
    govern_call (some slot) now_ms
    id ← next_id now_ms
    write_list slot n (record {
      id = id;
      title = title';
      replies_policy = replies_policy;
      exclusive = exclusive;
      members = [];
    })
    pure id

  -- The list at an index that `list_index` has found.
  unfoldable pub list_at : ℕ → ℕ → Method S A (ℕ × ListRec)
  unfolding list_index
  list_at slot id = do
    s ← the_state
    n ← found not_found (list_index slot id s)
    rec ← found panic (get (slot, n) s.lists)
    pure (n, rec)

  unfoldable pub update_list : ℕ → ℕ → ListUpdate → ℕ → Method S A (Unit {0})
  unfolding list_at check_title govern_call write_list
  update_list slot id update now_ms = do
    at ← list_at slot id
    title ← (elim update.new_title [ some t ↦ returned (check_title t) | none ↦ pure at.1.title ])
    govern_call (some slot) now_ms
    write_list slot at.0 (record at.1 {
      title = title;
      replies_policy = (elim update.new_policy [ some p ↦ p | none ↦ at.1.replies_policy ]);
      exclusive = (elim update.new_exclusive [ some e ↦ e | none ↦ at.1.exclusive ]);
    })

  unfoldable pub erase_list : ℕ → ℕ → Method S A (Unit {0})
  unfolding erase_rec
  erase_list slot n = do
    erase_rec ops to_allocvec Ns.list (key (Name.list slot n))
    modify (λ t. record t { lists = remove (slot, n) t.lists })

  unfoldable pub delete_list : ℕ → ℕ → ℕ → Method S A (Unit {0})
  unfolding list_index govern_call erase_list
  delete_list slot id now_ms = do
    s ← the_state
    n ← found not_found (list_index slot id s)
    govern_call (some slot) now_ms
    erase_list slot n

  unfoldable pub add_to_list : ℕ → ℕ → List ℕ → ℕ → Method S A (Unit {0})
  unfolding list_at add_members govern_call write_list
  add_to_list slot id account_ids now_ms = do
    at ← list_at slot id
    s ← the_state
    members ← returned (add_members slot account_ids at.1.members s)
    govern_call (some slot) now_ms
    write_list slot at.0 (record at.1 { members = members })

  unfoldable pub remove_from_list : ℕ → ℕ → List ℕ → ℕ → Method S A (Unit {0})
  unfolding list_at govern_call write_list
  remove_from_list slot id account_ids now_ms = do
    at ← list_at slot id
    govern_call (some slot) now_ms
    write_list slot at.0 (record at.1 { members = without account_ids at.1.members })

  -- The loop of `leave_lists`.
  unfoldable pub leave_each : ℕ → ℕ → List (ℕ × ListRec) → Method S A (Unit {0})
  unfolding write_list
  leave_each owner member_id [] = pure tt
  leave_each owner member_id ((n, l) ∷ rest) =
      write_list owner n (record l { members = without (member_id ∷ []) l.members })
      >> leave_each owner member_id rest

  unfoldable pub leave_lists : ℕ → ℕ → Method S A (Unit {0})
  unfolding account lists_of leave_each
  leave_lists owner member = do
    s ← the_state
    elim (account member s) [
      | none ↦ pure tt
      | some a ↦ leave_each owner a.rec.id (affected a.rec.id (lists_of owner s.lists))
    ]
