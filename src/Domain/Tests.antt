-- ===== src/Domain/Tests.antt =====
-- The service at concrete inputs.
use mastomini.Prelude.{
  ℕ, ◌+◌, ◌≤◌, ◌<◌, ◌^◌, ◌%◌, ◌≡◌, ◌↔◌, refl, Option, none, some, List, [], ◌∷◌, ◌==◌,
  if◌then◌else◌, length, replicate, Result, ok, err, All, arith,
}
use mastomini.Prelude.Bytes.{Bytes}
use mastomini.Store.Base.{Ns, corrupt, numbered, io, text}
use mastomini.Store.Key.{Key, key_new, as_str}
use mastomini.Store.Mem.{default, mem_ops, MemStore}
use mastomini.Store.File.{FileStore, durable, torn, file_ops, magic}
use mastomini.Store.File.Append.{IsLogged}
use mastomini.Domain.Base.{Error, restart_required}
use mastomini.Domain.Codec.{Kind, number, encode, decode, decode-encode}
use mastomini.Domain.Writer.{Service, Change, put_value, erase_value, change, changed}
use mastomini.Domain.Writer.Step.{IsChange}
use mastomini.Domain.Writer.Durable.{IsDurable, changed-IsDurable, change-latched}
use mastomini.Domain.Keys.{ReactionKind, Name, key, slot_digit, parse_slot}
use mastomini.Domain.Keys.Made.{spelled, key-Made}
use mastomini.Domain.Keys.Distinct.{reaction-key-injective, of_id-injective}
use mastomini.Domain.Keys.Slots.{parse_slot_iff}
use mastomini.Domain.Governor.{fresh, global_hour, govern}
use mastomini.Domain.Governor.Budget.{IsWithin, govern-IsWithin}
use mastomini.Domain.Governor.Window.{granted, granted-budget}

-- A writer and a reader of numbers, by their length.
abbrev to_allocvec : ℕ → Option Bytes
to_allocvec n = some (n ∷ [])

abbrev take_from_bytes : Bytes → Option (ℕ × Bytes)
take_from_bytes [] = none
take_from_bytes (n ∷ rest) = some (n, rest)

taken_back :
    (value : ℕ) (bytes : Bytes)
    → to_allocvec value ≡ some bytes
    → take_from_bytes bytes ≡ some (value, [])
taken_back value [] h = cc
taken_back value (b ∷ bytes) h = cc

encoded : encode to_allocvec Kind.poll 5 ≡ ok (1 ∷ 21 ∷ 5 ∷ [])
unfolding encode number
encoded = refl

decode-encode_example : decode take_from_bytes Kind.list (1 ∷ 21 ∷ 5 ∷ []) ≡ (
    if number Kind.poll == number Kind.list
    then ok 5
    else err
        (corrupt (numbered "expected and found kind" (number Kind.list ∷ number Kind.poll ∷ []))))
decode-encode_example =
    decode-encode to_allocvec take_from_bytes taken_back Kind.poll Kind.list 5 (1 ∷ 21 ∷ 5 ∷ [])
      encoded

-- The key "p".
abbrev key_p : Key
key_p = record { len = 1; buf = 112 ∷ replicate 14 0 }

key_p_made : key_new (112 ∷ []) ≡ ok key_p
unfolding key_new
key_p_made = refl

abbrev weak_sum : Bytes → ℕ
weak_sum bytes = length bytes % 2 ^ 32

weak_sum_bound : (bytes : Bytes) → weak_sum bytes < 2 ^ 32
weak_sum_bound bytes = omega arith

-- A service over a new log whose second append is torn.
abbrev started : Service FileStore ℕ
started = record {
  store = record { file = magic; mem = default; fates = durable ∷ torn 9 ∷ [] };
  latched = none;
  ids = record { last = 3 };
  governor = fresh 1000;
  caches = record {
    account_stats = none;
    rendered_accounts = none;
    session = none;
    next_poll_check = some 7;
  };
}

abbrev changes : List (Change ℕ)
changes =
    put_value Ns.stat key_p Kind.poll 4
    ∷ erase_value Ns.stat key_p
    ∷ put_value Ns.acct key_p Kind.account 5
    ∷ []

abbrev changes-IsChange : All IsChange changes
changes-IsChange = ((112 ∷ [], key_p_made), ((112 ∷ [], key_p_made), ((112 ∷ [], key_p_made), tt)))

abbrev started-IsLogged : IsLogged weak_sum magic default
started-IsLogged = record { ops = []; valid = tt; holds = refl; performed = refl }

changed-IsDurable_example :
    IsDurable weak_sum to_allocvec changes started
      (changed (file_ops weak_sum) to_allocvec changes started)
      default
changed-IsDurable_example =
    changed-IsDurable weak_sum to_allocvec weak_sum_bound changes started changes-IsChange refl
      started-IsLogged

abbrev stopped : Service MemStore ℕ
stopped = record {
  store = default;
  latched = some (restart_required (io (text "disk")));
  ids = started.ids;
  governor = started.governor;
  caches = started.caches;
}

change-latched_example :
    ((change mem_ops to_allocvec (erase_value Ns.stat key_p) stopped).1.store ≡ default)
    × ((change mem_ops to_allocvec (erase_value Ns.stat key_p) stopped).1.latched
        ≡ some (restart_required (io (text "disk"))))
    × ((e : Error) × ((change mem_ops to_allocvec (erase_value Ns.stat key_p) stopped).0 ≡ err e))
change-latched_example =
    change-latched mem_ops to_allocvec (erase_value Ns.stat key_p) stopped
      (restart_required (io (text "disk"))) refl

fresh-IsWithin : IsWithin (fresh 1000)
fresh-IsWithin = record { budget = omega arith; slots = refl; shares = ground arith }

govern-IsWithin_example :
    (r : Result Error (Unit {0})) × (s' : Service FileStore ℕ) × (govern (some 31) 2000 started
      ≡ some (r, s'))
    × IsWithin s'.governor
    × (s'.store ≡ started.store)
govern-IsWithin_example = govern-IsWithin (some 31) 2000 started (omega arith) fresh-IsWithin

granted-budget_example :
    granted ((some 3, 1000) ∷ (none, 3600999) ∷ []) (fresh 1000) + 0 ≤ global_hour
granted-budget_example =
    granted-budget ((some 3, 1000) ∷ (none, 3600999) ∷ []) (fresh 1000)
      ((omega arith, omega arith), ((omega arith, omega arith), tt)) (omega arith)

key-Made_example :
    (k : Key) × (key (Name.reaction ReactionKind.pin 77 31) ≡ ok k)
    × (as_str k ≡ spelled (Name.reaction ReactionKind.pin 77 31))
key-Made_example = key-Made (Name.reaction ReactionKind.pin 77 31) (omega arith)

parse_slot_iff_example : (parse_slot 103 ≡ some 16) ↔ (slot_digit 16 ≡ 103)
parse_slot_iff_example = parse_slot_iff 16 103 (omega arith)

abbrev an_id : ℕ
an_id = 900

abbrev a_slot : ℕ
a_slot = 4

abbrev a_prefix : ℕ
a_prefix = 115

reaction-key-injective_example :
    (ReactionKind.pin ≡ ReactionKind.pin) × (an_id ≡ an_id) × (a_slot ≡ a_slot)
reaction-key-injective_example =
    reaction-key-injective ReactionKind.pin ReactionKind.pin an_id an_id a_slot a_slot
      (omega arith, omega arith) (omega arith, omega arith) refl

of_id-injective_example : (a_prefix ≡ a_prefix) × (an_id ≡ an_id)
of_id-injective_example =
    of_id-injective a_prefix a_prefix an_id an_id (refl, refl) (omega arith, omega arith) refl
