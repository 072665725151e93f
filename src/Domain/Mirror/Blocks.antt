-- ===== src/Domain/Mirror/Blocks.antt =====
-- Blocks and mutes keep the mirror.
use mastomini.Prelude.{ℕ, ◌<◌, Bool, Option, none, some, not, ◌==◌}
use mastomini.Prelude.Bytes.{Bytes}
use mastomini.Prelude.Ord.{nat_ord, pair_ord}
use mastomini.Prelude.Map.{contains_key}
use mastomini.Store.Trait.{Store}
use mastomini.Store.Contract.{View, IsStore, IsExact}
use mastomini.Domain.Base.{not_found, max_accounts}
use mastomini.Domain.State.{Rec, BlockRec, MuteRec, block_rec, mute_rec}
use mastomini.Domain.State.Relations.{account, is_some}
use mastomini.Domain.Server.{Server, Method, pure, govern_call, next_id}
use mastomini.Domain.Server.Logic.{
  Runs, Keeps, Runs-bind, Runs-weaken, Runs-if, Keeps-bind, Keeps-if, Runs-pure, Runs-the_state,
  Keeps-refuse_if,
}
use mastomini.Domain.Blocks.{
  erase_mute, unmute_now, mute_now, set_mute, not_allowed, is_between, erase_block, write_block,
  erase_follow, end_relation, block_now, set_block, write_mute,
}
use mastomini.Domain.Requests.{same_bool}
use mastomini.Domain.Mirror.{get, Row, IsRow}
use mastomini.Domain.Mirror.Step.{IsSound, IsFresh, commit-Runs, erase-Runs}
use mastomini.Domain.Mirror.Aside.{govern_call-Runs, next_id-Keeps}
use mastomini.Domain.Mirror.Rows.{
  mute_gone-SetsRow, block-SetsRow, block_gone-SetsRow, mute-SetsRow, follow_gone-SetsRow,
}
use mastomini.Domain.Mirror.Notify.{retain_notifications-Runs}
use mastomini.Domain.Mirror.Relations.{Keeps-Refreshes, drop_follow_request-Runs}
use mastomini.Domain.Mirror.Lists.{leave_lists-Runs}

module _ {S : Type 0} (ops : Store S) (IsValid : S → Type 0) (view : S → View)
    (store : IsStore ops IsValid view) (exact : IsExact ops IsValid view)
    (to_allocvec : Rec → Option Bytes) (A : Type 0) where
  abbrev Sound : Server S A → Type 0
  Sound = IsSound ops IsValid view store exact to_allocvec A

  abbrev Fresh : Server S A → Type 0
  Fresh = IsFresh ops IsValid view store exact to_allocvec A

  kept : {B : Type 0} (m : Method S A B) → Runs Sound (λ _. Fresh) Sound m → Keeps Sound m
  kept = Keeps-Refreshes ops IsValid view store exact to_allocvec A

  refreshed :
      {B : Type 0} (m : Method S A B)
      → Runs Sound (λ _. Fresh) Sound m
      → Runs Fresh (λ _. Fresh) Sound m
  refreshed m h = Runs-weaken Sound Fresh Fresh Fresh Sound m h (λ _ x. x.0) (λ _ x. x)

  erase_block-Keeps :
      (src dst : ℕ)
      → IsRow (Row.block_row src dst)
      → Keeps Sound (erase_block ops to_allocvec src dst)
  unfolding erase_block
  erase_block-Keeps src dst h = kept _ (
      erase-Runs ops IsValid view store exact to_allocvec A (Row.block_row src dst) _ h
        (block_gone-SetsRow src dst))

  write_block-Runs :
      (src dst : ℕ) (rec : BlockRec)
      → IsRow (Row.block_row src dst)
      → Runs Sound (λ _. Fresh) Sound (write_block ops to_allocvec src dst rec)
  unfolding write_block
  write_block-Runs src dst rec h =
      commit-Runs ops IsValid view store exact to_allocvec A (Row.block_row src dst) (block_rec rec)
        _ h (block-SetsRow src dst rec)

  end_relation-Runs :
      (a b : ℕ)
      → a < max_accounts
      → b < max_accounts
      → Runs Fresh (λ _. Fresh) Sound (end_relation ops to_allocvec a b)
  unfolding end_relation erase_follow
  end_relation-Runs a b ha hb =
      Runs-the_state Fresh (λ _. Fresh) Sound _
        (λ s.
          Runs-bind Fresh (λ _. Fresh) (λ _. Fresh) Sound _ _
            (Runs-if Fresh (λ _. Fresh) Sound (contains_key (a, b) s.follows) _ _
              (Runs-bind Fresh (λ _. Fresh) (λ _. Fresh) Sound _ _
                (refreshed _ (
                  erase-Runs ops IsValid view store exact to_allocvec A (Row.follow_row a b) _
                    (ha, hb) (follow_gone-SetsRow a b)))
                (λ _. leave_lists-Runs ops IsValid view store exact to_allocvec A a b ha))
              (Runs-pure Fresh Sound tt))
            (λ _. drop_follow_request-Runs ops IsValid view store exact to_allocvec A a b (ha, hb)))

  block_now-Keeps :
      (src dst now_ms : ℕ)
      → src < max_accounts
      → dst < max_accounts
      → Keeps Sound (block_now ops to_allocvec src dst now_ms)
  unfolding block_now
  block_now-Keeps src dst now_ms hs hd =
      Keeps-bind Sound _ _ (next_id-Keeps ops IsValid view store exact to_allocvec A now_ms) (λ id.
        kept _ (
          Runs-bind Sound (λ _. Fresh) (λ _. Fresh) Sound _ _
            (write_block-Runs src dst (record { id = id }) (hs, hd))
            (λ _.
              Runs-bind Fresh (λ _. Fresh) (λ _. Fresh) Sound _ _ (end_relation-Runs src dst hs hd)
                (λ _.
                  Runs-bind Fresh (λ _. Fresh) (λ _. Fresh) Sound _ _
                    (end_relation-Runs dst src hd hs)
                    (λ _. refreshed _ (
                      retain_notifications-Runs ops IsValid view store exact to_allocvec A
                        (λ n. not (is_between src dst n))))))))

  governed : (slot : Option ℕ) (now_ms : ℕ) → Keeps Sound (govern_call slot now_ms)
  governed slot now_ms =
      kept _ (govern_call-Runs ops IsValid view store exact to_allocvec A slot now_ms)

  pub set_block-Keeps :
      (src dst : ℕ) (on : Bool) (now_ms : ℕ)
      → src < max_accounts
      → dst < max_accounts
      → Keeps Sound (set_block ops to_allocvec src dst on now_ms)
  unfolding set_block
  set_block-Keeps src dst on now_ms hs hd =
      Runs-the_state Sound (λ _. Sound) Sound _
        (λ s.
          Keeps-bind Sound _ _ (Keeps-refuse_if Sound (not (is_some (account dst s))) not_found)
            (λ _. Keeps-bind Sound _ _ (Keeps-refuse_if Sound (src == dst) not_allowed) (λ _.
              Keeps-if Sound (same_bool on (contains_key (src, dst) s.blocks)) _ _
                (Runs-pure Sound Sound tt)
                (Keeps-bind Sound _ _ (governed (some src) now_ms) (λ _.
                  Keeps-if Sound (not on) _ _ (erase_block-Keeps src dst (hs, hd))
                    (block_now-Keeps src dst now_ms hs hd))))))

  mute_id-Keeps :
      (o : Option MuteRec) (now_ms : ℕ)
      → Keeps Sound (elim o as (λ _. Method S A ℕ) [ some m ↦ pure m.id | none ↦ next_id now_ms ])
  mute_id-Keeps none now_ms = next_id-Keeps ops IsValid view store exact to_allocvec A now_ms
  mute_id-Keeps (some m) now_ms = Runs-pure Sound Sound m.id

  write_mute-Keeps :
      (src dst : ℕ) (rec : MuteRec)
      → IsRow (Row.mute_row src dst)
      → Keeps Sound (write_mute ops to_allocvec src dst rec)
  unfolding write_mute
  write_mute-Keeps src dst rec h = kept _ (
      commit-Runs ops IsValid view store exact to_allocvec A (Row.mute_row src dst) (mute_rec rec) _
        h (mute-SetsRow src dst rec))

  mute_now-Keeps :
      (src dst : ℕ) (notifications : Option Bool) (duration_s : Option ℕ) (now_ms : ℕ)
      → IsRow (Row.mute_row src dst)
      → Keeps Sound (mute_now ops to_allocvec src dst notifications duration_s now_ms)
  unfolding mute_now
  mute_now-Keeps src dst notifications duration_s now_ms h =
      Runs-the_state Sound (λ _. Sound) Sound _
        (λ s. Keeps-bind Sound _ _ (mute_id-Keeps (get (src, dst) s.mutes) now_ms) (λ id.
          Keeps-if Sound _ _ _ (Runs-pure Sound Sound tt) (
            Keeps-bind Sound _ _ (governed (some src) now_ms) (λ _. write_mute-Keeps src dst _ h))))

  unmute_now-Keeps :
      (src dst now_ms : ℕ)
      → IsRow (Row.mute_row src dst)
      → Keeps Sound (unmute_now ops to_allocvec src dst now_ms)
  unfolding unmute_now erase_mute
  unmute_now-Keeps src dst now_ms h =
      Runs-the_state Sound (λ _. Sound) Sound _
        (λ s.
          Keeps-if Sound (contains_key (src, dst) s.mutes) _ _
            (Keeps-bind Sound _ _ (governed (some src) now_ms) (λ _. kept _ (
              erase-Runs ops IsValid view store exact to_allocvec A (Row.mute_row src dst) _ h
                (mute_gone-SetsRow src dst))))
            (Runs-pure Sound Sound tt))

  pub set_mute-Keeps :
      (src dst : ℕ) (on : Bool) (notifications : Option Bool) (duration_s : Option ℕ) (now_ms : ℕ)
      → src < max_accounts
      → dst < max_accounts
      → Keeps Sound (set_mute ops to_allocvec src dst on notifications duration_s now_ms)
  unfolding set_mute
  set_mute-Keeps src dst on notifications duration_s now_ms hs hd =
      Runs-the_state Sound (λ _. Sound) Sound _
        (λ s.
          Keeps-bind Sound _ _ (Keeps-refuse_if Sound (not (is_some (account dst s))) not_found)
            (λ _. Keeps-bind Sound _ _ (Keeps-refuse_if Sound (src == dst) not_allowed) (λ _.
              Keeps-if Sound (not on) _ _ (unmute_now-Keeps src dst now_ms (hs, hd))
                (mute_now-Keeps src dst notifications duration_s now_ms (hs, hd)))))
