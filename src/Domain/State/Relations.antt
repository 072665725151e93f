-- ===== src/Domain/State/Relations.antt =====
-- `State` of mastomini_rs/src/domain/mod.rs: accounts, and the relations between them. A slot is
-- its number.
use mastomini.Prelude.{
  ℕ, Bool, true, false, Option, none, some, List, [], ◌∷◌, ltb, ◌==◌, ◌&&◌, ◌||◌, not,
  if◌then◌else◌, get_elem?,
}
use mastomini.Prelude.Word.{◌>>=?◌}
use mastomini.Prelude.Ord.{nat_ord, pair_ord}
use mastomini.Prelude.Map.{get, contains_key}
use mastomini.Domain.State.{Role, Account, MuteRec, AccountModRec, State}

abbrev pub is_some : {A : Type 0} → Option A → Bool
is_some none = false
is_some (some _) = true

abbrev pub keep_if : {A : Type 0} → (A → Bool) → Option A → Option A
keep_if test none = none
keep_if test (some a) = if test a then some a else none

-- `.get(slot)?.as_ref()` of a table of options
abbrev pub at_slot : {A : Type 0} → List (Option A) → ℕ → Option A
at_slot table slot = get_elem? table slot >>=? λ entry. entry

abbrev is_live : Account → Bool
is_live a = not a.rec.deleted

unfoldable pub account : ℕ → State → Option Account
account slot s = keep_if is_live (at_slot s.accounts slot)

abbrev pub with_id : ℕ → List (Option Account) → Option Account
with_id id [] = none
with_id id (none ∷ table) = with_id id table
with_id id (some a ∷ table) = if is_live a && (a.rec.id == id) then some a else with_id id table

unfoldable pub account_by_id : ℕ → State → Option Account
account_by_id id s = with_id id s.accounts

unfoldable pub slot_of : ℕ → State → Option ℕ
unfolding account_by_id
slot_of account_id s = account_by_id account_id s >>=? λ a. some a.slot

unfoldable pub follows : ℕ → ℕ → State → Bool
follows src dst s = contains_key (src, dst) s.follows

unfoldable pub blocks : ℕ → ℕ → State → Bool
blocks src dst s = contains_key (src, dst) s.blocks

unfoldable pub blocked_either : ℕ → ℕ → State → Bool
unfolding blocks
blocked_either a b s = blocks a b s || blocks b a s

-- `m.expires_ms.is_none_or(|e| e > self.now_ms)`
abbrev pub is_current : ℕ → MuteRec → Bool
is_current now_ms m = elim m.expires_ms [ none ↦ true | some e ↦ ltb now_ms e ]

unfoldable pub mute : ℕ → ℕ → State → Option MuteRec
mute src dst s = keep_if (is_current s.now_ms) (get (src, dst) s.mutes)

unfoldable pub hides : ℕ → ℕ → State → Bool
unfolding blocked_either mute
hides viewer author s =
    not (viewer == author) && (blocked_either viewer author s || is_some (mute viewer author s))

-- `AccountModRec::default()`
abbrev pub all_clear : AccountModRec
all_clear = record { account_id = 0; silenced = false; suspended_ms = none; sensitized = false }

-- `Some(m.account_id) == id`
abbrev pub is_of : Option Account → AccountModRec → Bool
is_of none m = false
is_of (some a) m = m.account_id == a.rec.id

unfoldable pub moderation : ℕ → State → AccountModRec
unfolding account
moderation slot s = elim (keep_if (is_of (account slot s)) (at_slot s.moderation slot)) [
  | some m ↦ m
  | none ↦ all_clear
]

unfoldable pub suspended : ℕ → State → Bool
unfolding moderation
suspended slot s = is_some (moderation slot s).suspended_ms

unfoldable pub silenced : ℕ → State → Bool
unfolding moderation
silenced slot s = (moderation slot s).silenced

unfoldable pub is_admin : Role → Bool
is_admin Role.owner = true
is_admin Role.admin = true
is_admin Role.member = false
