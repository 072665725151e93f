-- ===== src/Store/Base.antt =====
-- mastomini_rs/src/store/mod.rs: the namespaces, the errors and the limits.
use Prim.Native.String.{String}
use mastomini.Prelude.{
  ℕ, ◌+◌, ◌-◌, ◌*◌, ◌/◌, Bool, Option, none, some, List, [], ◌∷◌, ltb, if◌then◌else◌, get_elem?,
  take, replicate, Result, ok, err, ◌>>=◌,
}
use mastomini.Prelude.Bytes.{Bytes}

pub data Ns : Type 0 where
  cfg acct app tok stat hist rx rel moderation coll key inv list filt social notif remote : Ns

-- `ns as u8`
unfoldable pub index : Ns → ℕ
index cfg = 0
index acct = 1
index app = 2
index tok = 3
index stat = 4
index hist = 5
index rx = 6
index rel = 7
index moderation = 8
index coll = 9
index key = 10
index inv = 11
index list = 12
index filt = 13
index social = 14
index notif = 15
index remote = 16

-- `Ns::ALL`
abbrev pub all_ns : List Ns
all_ns =
    cfg ∷ acct ∷ app ∷ tok ∷ stat ∷ hist ∷ rx ∷ rel ∷ moderation ∷ coll ∷ key ∷ inv ∷ list ∷ filt
    ∷ social ∷ notif ∷ remote ∷ []

unfoldable pub from_u8 : ℕ → Option Ns
from_u8 value = get_elem? all_ns value

-- The faults that `FaultStore` of store/mem.rs injects.
pub data Failure : Type 0 where
  write persist_then_error full_store read enumerate visit stats : Failure

-- An error's text, by the arguments of its `format!`; `io` errors of the operating system carry
-- a text of theirs.
pub data Message : Type 0 where
  text : String → Message
  at_byte : String → ℕ → Message
  -- record kinds and versions, by their numbers
  numbered : String → List ℕ → Message
  power_cut : Message
  injected : Failure → Message

pub data StoreError : Type 0 where
  bad_key : StoreError
  value_too_large : StoreError
  full : StoreError
  io : Message → StoreError
  corrupt : Message → StoreError

pub record StoreStats : Type 0 where
  pub used_entries : ℕ
  pub total_entries : ℕ

abbrev pub value_max : ℕ
value_max = 8 * 1024

abbrev pub entry_size : ℕ
entry_size = 32

abbrev pub nvs_8mib_entries : ℕ
nvs_8mib_entries = 2047 * 126

-- `2 + value_len.div_ceil(ENTRY_SIZE)`
unfoldable pub entries_for : ℕ → ℕ
entries_for value_len = 2 + (value_len + (entry_size - 1)) / entry_size

abbrev read_result : ℕ → Option ℕ → Bytes → Result StoreError (Option Bytes)
read_result len none buf = ok none
read_result len (some actual) buf =
    if ltb len actual
    then err (corrupt (text "blob grew while reading"))
    else ok (some (take actual buf))

-- `reserve` says whether the allocation succeeds; `fill` is the argument `read`, which returns its result and the buffer as it
-- has left it.
unfoldable pub read_blob :
    (ℕ → Bool)
    → ℕ
    → (Bytes → Result StoreError (Option ℕ) × Bytes)
    → Result StoreError (Option Bytes)
read_blob reserve len fill =
    if ltb value_max len
    then err (corrupt (text "stored blob exceeds record limit"))
    else if reserve len
    then (let (outcome, buf) = fill (replicate len 0) in
        outcome >>= λ actual. read_result len actual buf)
    else err (io (text "blob allocation failed"))
