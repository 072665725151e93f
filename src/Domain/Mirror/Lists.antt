-- ===== src/Domain/Mirror/Lists.antt =====
-- Lists keep the mirror.
use mastomini.Prelude.{
  ℕ, zero, suc, ◌+◌, ◌<◌, ◌≡◌, refl, Bool, true, false, Option, none, some, List, [], ◌∷◌, Result,
  ok, err, if◌then◌else◌, arith, ltb, ltb→lt, ◌==◌, All, ◌&&◌,
}
use mastomini.Prelude.Bytes.{Bytes}
use mastomini.Prelude.Text.{Chars}
use mastomini.Prelude.Ord.{nat_ord, pair_ord}
use mastomini.Prelude.Map.{Map, get}
use mastomini.Store.Trait.{Store}
use mastomini.Store.Contract.{View, IsStore, IsExact}
use mastomini.Domain.Base.{Error, not_found, invalid, literal, max_accounts}
use mastomini.Domain.State.{Rec, State, ListRec, RepliesPolicy, list_rec}
use mastomini.Domain.Server.{Server, Method, ◌>>=◌, ◌>>◌, pure, panic, govern_call}
use mastomini.Domain.Server.Logic.{
  Runs, Keeps, Runs-bind, Runs-weaken, Runs-if, Keeps-bind, Keeps-found_as, Runs-found_as,
  Runs-given, Runs-pure_given, Keeps-if, Runs-pure, Runs-the_state, Runs-fail,
}
use mastomini.Domain.Lists.{
  max_lists, ListUpdate, check_title, lists_of, numbered, list_index, is_stored, free_number,
  add_members, returned, affected, commit_list, write_list, create_list, list_at, update_list,
  erase_list, delete_list, add_to_list, remove_from_list, leave_each, leave_lists, contains,
  without,
}
use mastomini.Domain.State.{Account}
use mastomini.Domain.State.Relations.{account}
use mastomini.Domain.Mirror.{Row, IsRow}
use mastomini.Domain.Mirror.Step.{IsSound, IsFresh, commit-Runs, erase-Runs}
use mastomini.Domain.Mirror.Aside.{govern_call-Runs, next_id-Keeps}
use mastomini.Domain.Mirror.Rows.{list-SetsRow, list_gone-SetsRow}
use mastomini.Domain.Mirror.Relations.{Keeps-Refreshes}

abbrev IsNumber : ℕ × ListRec → Type 0
IsNumber e = e.0 < max_lists

All-if :
    (b : Bool) (e : ℕ × ListRec) (rest : List (ℕ × ListRec))
    → (b ≡ true → IsNumber e)
    → All IsNumber rest
    → All IsNumber (if b then e ∷ rest else rest)
All-if true e rest h a = (h refl, a)
All-if false e rest h a = a

lists_of-bound : (slot : ℕ) (m : Map (ℕ × ℕ) ListRec) → All IsNumber (lists_of slot m)
unfolding lists_of
lists_of-bound slot [] = tt
lists_of-bound slot (((owner, n), l) ∷ m) =
    All-if (owner == slot && ltb n max_lists) (n, l) (lists_of slot m)
      (λ (both : (owner == slot && ltb n max_lists) ≡ true).
        ltb→lt n max_lists (second (owner == slot) (ltb n max_lists) both))
      (lists_of-bound slot m)
  where
    second : (a b : Bool) → (a && b) ≡ true → b ≡ true
    second true b h = h
    second false b h = absurd (cc h)

affected-bound :
    (id : ℕ) (ls : List (ℕ × ListRec)) → All IsNumber ls → All IsNumber (affected id ls)
affected-bound id [] h = tt
affected-bound id ((n, l) ∷ ls) (small, h) =
    All-if (contains id l.members) (n, l) (affected id ls) (λ _. small) (affected-bound id ls h)

numbered-bound :
    (id n : ℕ) (ls : List (ℕ × ListRec)) → All IsNumber ls → numbered id ls ≡ some n → n < max_lists
numbered-bound id n [] h e = absurd (cc e)
numbered-bound id n ((m, l) ∷ ls) (small, h) e = ground (arith, small, numbered-bound id n ls h)

free_number-bound :
    (left n slot m : ℕ) (s : State) → free_number left n slot s ≡ some m → m < n + left
unfolding free_number
free_number-bound zero n slot m s e = absurd (cc e)
free_number-bound (suc left) n slot m s e = ground (arith, free_number-bound left (n + 1) slot m s)

list_index-bound : (slot id n : ℕ) (s : State) → list_index slot id s ≡ some n → n < max_lists
unfolding list_index
list_index-bound slot id n s e =
    numbered-bound id n (lists_of slot s.lists) (lists_of-bound slot s.lists) e

module _ {S : Type 0} (ops : Store S) (IsValid : S → Type 0) (view : S → View)
    (store : IsStore ops IsValid view) (exact : IsExact ops IsValid view)
    (to_allocvec : Rec → Option Bytes) (A : Type 0) where
  abbrev Sound : Server S A → Type 0
  Sound = IsSound ops IsValid view store exact to_allocvec A

  abbrev Fresh : Server S A → Type 0
  Fresh = IsFresh ops IsValid view store exact to_allocvec A

  commit_list-Runs :
      (slot n : ℕ) (rec : ListRec)
      → IsRow (Row.list_row slot n)
      → Runs Sound (λ _. Fresh) Sound (commit_list ops to_allocvec slot n rec)
  unfolding commit_list
  commit_list-Runs slot n rec h =
      commit-Runs ops IsValid view store exact to_allocvec A (Row.list_row slot n) (list_rec rec) _
        h (list-SetsRow slot n rec)

  write_list-Keeps :
      (slot n : ℕ) (rec : ListRec)
      → IsRow (Row.list_row slot n)
      → Keeps Sound (write_list ops to_allocvec slot n rec)
  unfolding write_list
  write_list-Keeps slot n rec h =
      Runs-the_state Sound (λ _. Sound) Sound _
        (λ s.
          Keeps-if Sound (is_stored (get (slot, n) s.lists) rec) _ _ (Runs-pure Sound Sound tt) (
            Keeps-Refreshes ops IsValid view store exact to_allocvec A _
              (commit_list-Runs slot n rec h)))

  write_list-Fresh :
      (slot n : ℕ) (rec : ListRec)
      → IsRow (Row.list_row slot n)
      → Runs Fresh (λ _. Fresh) Sound (write_list ops to_allocvec slot n rec)
  unfolding write_list
  write_list-Fresh slot n rec h =
      Runs-the_state Fresh (λ _. Fresh) Sound _
        (λ s.
          Runs-if Fresh (λ _. Fresh) Sound (is_stored (get (slot, n) s.lists) rec) _ _
            (Runs-pure Fresh Sound tt)
            (Runs-weaken Sound Fresh Fresh Fresh Sound _ (commit_list-Runs slot n rec h)
              (λ _ x. x.0) (λ _ x. x)))

  governed : (slot : Option ℕ) (now_ms : ℕ) → Keeps Sound (govern_call slot now_ms)
  governed slot now_ms =
      Keeps-Refreshes ops IsValid view store exact to_allocvec A _
        (govern_call-Runs ops IsValid view store exact to_allocvec A slot now_ms)

  returned-Keeps : {B : Type 0} (r : Result Error B) → Keeps Sound (returned r)
  returned-Keeps (ok b) = Runs-pure Sound Sound b
  returned-Keeps (err e) = Runs-fail Sound (λ _. Sound) Sound e (λ _ x. x)

  pub create_list-Keeps :
      (slot : ℕ) (title : Chars) (policy : RepliesPolicy) (exclusive : Bool) (now_ms : ℕ)
      → slot < max_accounts
      → Keeps Sound (create_list ops to_allocvec slot title policy exclusive now_ms)
  unfolding create_list
  create_list-Keeps slot title policy exclusive now_ms hs =
      Keeps-bind Sound _ _ (returned-Keeps (check_title title)) (λ title'.
        Runs-the_state Sound (λ _. Sound) Sound _
          (λ s.
            Keeps-found_as Sound
              (invalid (literal "Validation failed: You can have at most 8 lists"))
              (free_number max_lists 0 slot s) _
              (λ n e. Keeps-bind Sound _ _ (governed (some slot) now_ms) (λ _.
                Keeps-bind Sound _ _
                  (next_id-Keeps ops IsValid view store exact to_allocvec A now_ms)
                  (λ id.
                    Keeps-bind Sound _ _
                      (write_list-Keeps slot n
                        (record {
                          id = id;
                          title = title';
                          replies_policy = policy;
                          exclusive = exclusive;
                          members = [];
                        })
                        (hs, free_number-bound max_lists 0 slot n s e))
                      (λ _. Runs-pure Sound Sound id))))))

  abbrev Found : ℕ × ListRec → Server S A → Type 0
  Found at s = Sound s × IsNumber at

  -- The list that is found has a number in range.
  list_at-Runs : (slot id : ℕ) → Runs Sound Found Sound (list_at ops to_allocvec slot id)
  unfolding list_at
  list_at-Runs slot id = Runs-the_state Sound Found Sound _ (λ s.
      Runs-found_as Sound Found not_found (list_index slot id s) _ (λ n e.
        Runs-found_as Sound Found panic (get (slot, n) s.lists) _ (λ rec _.
          Runs-pure_given Sound IsNumber Sound (n, rec) (list_index-bound slot id n s e))))

  listed-Keeps :
      {B : Type 0} (slot id : ℕ) (f : ℕ × ListRec → Method S A B)
      → ((at : ℕ × ListRec) → IsNumber at → Keeps Sound (f at))
      → Keeps Sound (list_at ops to_allocvec slot id >>= f)
  listed-Keeps slot id f h =
      Runs-bind Sound Found (λ _. Sound) Sound _ f (list_at-Runs slot id)
        (λ at. Runs-given Sound (IsNumber at) (λ _. Sound) Sound (f at) (h at))

  changed-Keeps :
      (slot n now_ms : ℕ) (rec : ListRec)
      → IsRow (Row.list_row slot n)
      → Keeps Sound (govern_call (some slot) now_ms >> write_list ops to_allocvec slot n rec)
  changed-Keeps slot n now_ms rec h =
      Keeps-bind Sound _ _ (governed (some slot) now_ms) (λ _. write_list-Keeps slot n rec h)

  title-Keeps :
      (o : Option Chars) (old : Chars)
      → Keeps Sound (elim o as (λ _. Method S A Chars) [
        | some t ↦ returned (check_title t)
        | none ↦ pure old
      ])
  title-Keeps none old = Runs-pure Sound Sound old
  title-Keeps (some t) old = returned-Keeps (check_title t)

  pub update_list-Keeps :
      (slot id : ℕ) (update : ListUpdate) (now_ms : ℕ)
      → slot < max_accounts
      → Keeps Sound (update_list ops to_allocvec slot id update now_ms)
  unfolding update_list
  update_list-Keeps slot id update now_ms hs = listed-Keeps slot id _ (λ at hn.
      Keeps-bind Sound _ _ (title-Keeps update.new_title at.1.title) (λ title.
        changed-Keeps slot at.0 now_ms
          (record at.1 {
            title = title;
            replies_policy = (elim update.new_policy [ some p ↦ p | none ↦ at.1.replies_policy ]);
            exclusive = (elim update.new_exclusive [ some e ↦ e | none ↦ at.1.exclusive ]);
          })
          (hs, hn)))

  pub delete_list-Keeps :
      (slot id now_ms : ℕ)
      → slot < max_accounts
      → Keeps Sound (delete_list ops to_allocvec slot id now_ms)
  unfolding delete_list erase_list
  delete_list-Keeps slot id now_ms hs =
      Runs-the_state Sound (λ _. Sound) Sound _
        (λ s. Keeps-found_as Sound not_found (list_index slot id s) _ (λ n e.
          Keeps-bind Sound _ _ (governed (some slot) now_ms) (λ _.
            Keeps-Refreshes ops IsValid view store exact to_allocvec A _ (
              erase-Runs ops IsValid view store exact to_allocvec A (Row.list_row slot n) _
                (hs, list_index-bound slot id n s e) (list_gone-SetsRow slot n)))))

  pub add_to_list-Keeps :
      (slot id : ℕ) (account_ids : List ℕ) (now_ms : ℕ)
      → slot < max_accounts
      → Keeps Sound (add_to_list ops to_allocvec slot id account_ids now_ms)
  unfolding add_to_list
  add_to_list-Keeps slot id account_ids now_ms hs = listed-Keeps slot id _ (λ at hn.
      Runs-the_state Sound (λ _. Sound) Sound _
        (λ s.
          Keeps-bind Sound _ _ (returned-Keeps (add_members slot account_ids at.1.members s))
            (λ members.
              changed-Keeps slot at.0 now_ms (record at.1 { members = members }) (hs, hn))))

  pub remove_from_list-Keeps :
      (slot id : ℕ) (account_ids : List ℕ) (now_ms : ℕ)
      → slot < max_accounts
      → Keeps Sound (remove_from_list ops to_allocvec slot id account_ids now_ms)
  unfolding remove_from_list
  remove_from_list-Keeps slot id account_ids now_ms hs = listed-Keeps slot id _ (λ at hn.
      changed-Keeps slot at.0 now_ms (record at.1 { members = without account_ids at.1.members })
        (hs, hn))

  leave_each-Runs :
      (owner member_id : ℕ) (ls : List (ℕ × ListRec))
      → owner < max_accounts
      → All IsNumber ls
      → Runs Fresh (λ _. Fresh) Sound (leave_each ops to_allocvec owner member_id ls)
  unfolding leave_each
  leave_each-Runs owner member_id [] ho a = Runs-pure Fresh Sound tt
  leave_each-Runs owner member_id ((n, l) ∷ rest) ho (hn, a) =
      Runs-bind Fresh (λ _. Fresh) (λ _. Fresh) Sound _ _
        (write_list-Fresh owner n (record l { members = without (member_id ∷ []) l.members })
          (ho, hn))
        (λ _. leave_each-Runs owner member_id rest ho a)

  pub leave_lists-Runs :
      (owner member : ℕ)
      → owner < max_accounts
      → Runs Fresh (λ _. Fresh) Sound (leave_lists ops to_allocvec owner member)
  unfolding leave_lists
  leave_lists-Runs owner member ho =
      Runs-the_state Fresh (λ _. Fresh) Sound _ (λ s. left s (account member s))
    where
      left :
          (s : State) (o : Option Account)
          → Runs Fresh
              (λ _. Fresh)
              Sound
              (elim o as (λ _. Method S A (Unit {0})) [
                | none ↦ pure tt
                | some a ↦
                    leave_each ops to_allocvec owner a.rec.id
                      (affected a.rec.id (lists_of owner s.lists))
              ])
      left s none = Runs-pure Fresh Sound tt
      left s (some a) =
          leave_each-Runs owner a.rec.id _ ho
            (affected-bound a.rec.id (lists_of owner s.lists) (lists_of-bound owner s.lists))
