-- ===== src/Domain/ServerTests.antt =====
-- Operations on the state in RAM at concrete inputs.
use mastomini.Store.Key.{from_parts, key_new, as_str}
use mastomini.Domain.Writer.{writable, put, stored}
use mastomini.Prelude.Map.{get, contains_key}
use mastomini.Prelude.Ord.{nat_ord, pair_ord}
use mastomini.Domain.State.Visible.{can_see, wants_notification}
use mastomini.Domain.Codec.{encode}
use mastomini.Domain.Blocks.{set_block}
use mastomini.Domain.State.Relations.{suspended}
use mastomini.Domain.Keys.{key}
use mastomini.Domain.Base.{Error}
use mastomini.Store.Base.{entries_for}
use mastomini.Prelude.Bytes.{Bytes, is_utf8}
use mastomini.Prelude.{
  ◌⊎◌, ◌≢◌, ℕ, ◌≡◌, refl, sym, ap, ◌∙◌, true, false, Option, none, some, List, [], ◌∷◌, Result, ok,
  ◌==◌, arith, ◌≤◌, ◌+◌, ◌*◌, ◌↔◌, length,
}
use mastomini.Store.Mem.{MemStore, default, mem_ops, mem_set, check_fits}
use mastomini.Ids.{b32}
use mastomini.Store.Mem.Laws.{IsValid, view}
use mastomini.Store.Mem.Refines.{mem-IsStore, mem-IsExact}
use mastomini.Domain.State.{
  State, RepliesPolicy, Rec, Account, Role, Visibility, Status, CodeKind, CodeRec,
}
use mastomini.Domain.Server.{Server}
use mastomini.Domain.Governor.{fresh}
use mastomini.Domain.Mirror.Run.{
  Call, requested, authorized, blocked, list_created, calls, calls-IsSound,
}
use mastomini.Domain.Mirror.Step.{IsSound}
use mastomini.Domain.Mirror.{Row, lookup}
use mastomini.Domain.Mirror.Commit.{encoded}
use mastomini.Domain.Mirror.Codes.{issue_code-IsSound}
use mastomini.Domain.Codes.{issue_code, require_power_over, max_codes_live, code_lifetime_ms}
use mastomini.Domain.Codes.Room.{issue_code-issued}
use mastomini.Domain.Codes.Power.{require_power_over_iff, require_power_over-one_way, Over}
use mastomini.Domain.Blocks.Between.{IsSevered}
use mastomini.Domain.Blocks.Settled.{set_block-settled, set_block-hidden}
use mastomini.Domain.State.Access.{can_see_iff, Sees}

abbrev some_bytes : Rec → Option Bytes
some_bytes rec = some (7 ∷ [])

abbrev of_role : ℕ → Role → Option Account
of_role slot role = some (record {
  slot = slot;
  rec = record { id = 100 + slot; role = role; disabled = false; deleted = false; locked = false };
})

-- An owner, two administrators and a member, who follow nobody.
abbrev household : State
household = record {
  accounts =
      of_role 0 Role.owner
      ∷ of_role 1 Role.admin
      ∷ of_role 2 Role.admin
      ∷ of_role 3 Role.member
      ∷ [];
  statuses = [];
  follows = [];
  blocks = [];
  mutes = [];
  moderation = [];
  invites = [];
  follow_requests = [];
  lists = [];
  notifications = [];
  now_ms = 5000;
}

abbrev begun : Server MemStore ℕ
begun = record {
  core = record {
    store = default;
    latched = none;
    ids = record { last = 900 };
    governor = fresh 1000;
    caches = record {
      account_stats = none;
      rendered_accounts = none;
      session = none;
      next_poll_check = none;
    };
  };
  state = household;
}

-- No row is in RAM.
bare : (row : Row) → lookup row household ≡ none
unfolding get
bare (Row.follow_row a b) = refl
bare (Row.request_row a b) = refl
bare (Row.block_row a b) = refl
bare (Row.mute_row a b) = refl
bare (Row.list_row slot n) = refl
bare (Row.code_row id) = refl

begun-IsSound : IsSound mem_ops IsValid view mem-IsStore mem-IsExact some_bytes ℕ begun
unfolding view get default
begun-IsSound = (
  record { sorted = tt; records = tt; counted = refl; within = omega arith },
  λ row rec e. absurd (cc (sym (bare row) ∙ e)),
  λ _ row _ k _. ap (encoded some_bytes row) (sym (bare row)),
)

abbrev story : List Call
story =
    requested 3 1 none (some true) 60000000
    ∷ authorized 1 3 60001000
    ∷ list_created 3 (104 ∷ 105 ∷ []) RepliesPolicy.members false 60002000
    ∷ blocked 1 3 true 60003000
    ∷ []

calls-IsSound_example :
    IsSound mem_ops IsValid view mem-IsStore mem-IsExact some_bytes ℕ
      (calls mem_ops some_bytes story begun)
calls-IsSound_example =
    calls-IsSound mem_ops IsValid view mem-IsStore mem-IsExact some_bytes ℕ story begun
      (
        (omega arith, omega arith),
        ((omega arith, omega arith), (omega arith, ((omega arith, omega arith), tt))),
      )
      begun-IsSound

abbrev blocking : Result Error (Unit {0}) × Server MemStore ℕ
blocking = set_block mem_ops some_bytes 1 3 true 60003000 begun

blocking-ok : blocking ≡ (ok tt, blocking.1)
unfolding set_block contains_key get writable key from_parts key_new as_str is_utf8 put stored
    encode mem_set check_fits default entries_for
blocking-ok = refl

set_block-settled_example :
    ((1 == 3) ≡ false)
    × (contains_key (1, 3) blocking.1.state.blocks ≡ true)
    × ((true ≡ false)
        ⊎ (contains_key (1, 3) begun.state.blocks ≡ true)
        ⊎ IsSevered 1 3 blocking.1.state)
set_block-settled_example =
    set_block-settled ℕ mem_ops some_bytes 1 3 60003000 true begun blocking.1 blocking-ok

abbrev posted : Status
posted = record {
  rec = record { id = 70; author = 1; visibility = Visibility.everyone; in_reply_to_id = none };
  mentions = 8;
  muted = 0;
}

set_block-hidden_example :
    (can_see (some 3) posted blocking.1.state ≡ false)
    × (wants_notification 1 3 (some 70) blocking.1.state ≡ false)
    × (wants_notification 3 1 (some 70) blocking.1.state ≡ false)
set_block-hidden_example =
    set_block-hidden ℕ mem_ops some_bytes 1 3 60003000 begun blocking.1 posted (some 70) blocking-ok
      refl

can_see_iff_example :
    (can_see (some 3) posted household ≡ true)
    ↔ ((suspended 1 household ≡ false) × Sees posted household (some 3))
can_see_iff_example = can_see_iff (some 3) posted household

require_power_over_iff_example : (require_power_over 1 3 household ≡ ok tt) ↔ Over household 1 3
require_power_over_iff_example = require_power_over_iff 1 3 household

admin_may : require_power_over 1 3 household ≡ ok tt
unfolding require_power_over
admin_may = refl

require_power_over-one_way_example : require_power_over 3 1 household ≢ ok tt
require_power_over-one_way_example = require_power_over-one_way 1 3 household admin_may

-- A stand-in for the hash.
abbrev first_bytes : Bytes → Bytes
first_bytes code = 9 ∷ code

abbrev secret : Bytes
secret = 5 ∷ 6 ∷ []

abbrev issuing : Result Error (CodeRec × Bytes) × Server MemStore ℕ
issuing = issue_code mem_ops some_bytes first_bytes 0 CodeKind.invite secret 60000000 begun

abbrev issued : CodeRec
issued = record {
  id = 60000000 * 65536;
  hash = 9 ∷ 5 ∷ 6 ∷ [];
  kind = CodeKind.invite;
  expires_ms = 60000000 + code_lifetime_ms;
}

issuing-ok : issuing ≡ (ok (issued, secret), issuing.1)
unfolding issue_code writable key from_parts b32 key_new as_str is_utf8 put stored encode mem_set
    check_fits default get entries_for
issuing-ok = refl

issue_code-issued_example :
    (length issuing.1.state.invites ≤ max_codes_live)
    × (get issued.id issuing.1.state.invites ≡ some issued)
    × (issued.hash ≡ first_bytes secret)
    × (issued.kind ≡ CodeKind.invite)
    × (issued.expires_ms ≡ 60000000 + code_lifetime_ms)
    × (secret ≡ secret)
issue_code-issued_example =
    issue_code-issued ℕ mem_ops some_bytes first_bytes 0 CodeKind.invite secret 60000000 issued
      secret begun issuing.1 issuing-ok

issue_code-IsSound_example :
    IsSound mem_ops IsValid view mem-IsStore mem-IsExact some_bytes ℕ issuing.1
issue_code-IsSound_example =
    issue_code-IsSound mem_ops IsValid view mem-IsStore mem-IsExact some_bytes ℕ first_bytes 0
      CodeKind.invite secret 60000000 begun (begun-IsSound, tt)
