-- ===== src/Domain/Keys.antt =====
-- The store keys of records: `keys` of mastomini_rs/src/domain/mod.rs. Each is a prefix and the
-- texts of ids and slots; where the source expects a key, an error here stands for its panic.
pub mod Made
pub mod Slots
pub mod Distinct
use mastomini.Prelude.{
  ℕ, ◌+◌, ◌/◌, ◌%◌, Option, none, some, List, [], ◌∷◌, ◌++◌, ◌==◌, if◌then◌else◌, take, drop,
  concat, map, Result, ◌>>=◌,
}
use mastomini.Prelude.Bytes.{Bytes}
use mastomini.Ids.{char_of, position, b32}
use mastomini.Store.Base.{StoreError}
use mastomini.Store.Key.{Key, as_str, key_new, from_parts}

-- b"0123456789abcdefghijklmnopqrstuv"
abbrev pub slot_digits : Bytes
slot_digits =
    48 ∷ 49 ∷ 50 ∷ 51 ∷ 52 ∷ 53 ∷ 54 ∷ 55 ∷ 56 ∷ 57 ∷ 97 ∷ 98 ∷ 99 ∷ 100 ∷ 101 ∷ 102 ∷ 103 ∷ 104
    ∷ 105 ∷ 106 ∷ 107 ∷ 108 ∷ 109 ∷ 110 ∷ 111 ∷ 112 ∷ 113 ∷ 114 ∷ 115 ∷ 116 ∷ 117 ∷ 118 ∷ []

-- Indexing; slots are below `max_accounts`, where it does not panic.
unfoldable pub slot_digit : ℕ → ℕ
slot_digit slot = char_of slot_digits slot

unfoldable pub parse_slot : ℕ → Option ℕ
parse_slot byte = position byte slot_digits

-- b"0123456789abcdef"
abbrev pub hex_digits : Bytes
hex_digits = take 16 slot_digits

unfoldable pub hex : ℕ → ℕ
hex slot = char_of hex_digits (slot % 16)

pub data ReactionKind : Type 0 where
  favourite bookmark pin mute : ReactionKind

unfoldable pub prefix : ReactionKind → ℕ
prefix ReactionKind.favourite = 102
prefix ReactionKind.bookmark = 98
prefix ReactionKind.pin = 112
prefix ReactionKind.mute = 109

unfoldable pub from_prefix : ℕ → Option ReactionKind
from_prefix byte =
    if byte == 102
    then some ReactionKind.favourite
    else if byte == 98
    then some ReactionKind.bookmark
    else if byte == 112
    then some ReactionKind.pin
    else if byte == 109
    then some ReactionKind.mute
    else none

-- The arguments of the functions of `keys`, by the function's name.
pub data Name : Type 0 where
  schema server led_phrase terms : Name
  account account_mod user_key : ℕ → Name
  app status boost report collection local_token dm code poll : ℕ → Name
  token token_seal : Bytes → Name
  reaction : ReactionKind → ℕ → ℕ → Name
  follow block mute follow_request : ℕ → ℕ → Name
  revision : ℕ → ℕ → Name
  list filter : ℕ → ℕ → Name

-- b"s" and the text of an id
abbrev pub of_id : ℕ → ℕ → Result StoreError Key
of_id p id = from_parts ((p ∷ []) ∷ b32 id ∷ [])

abbrev pub of_slot : ℕ → ℕ → Result StoreError Key
of_slot p slot = from_parts ((p ∷ []) ∷ (slot_digit slot ∷ []) ∷ [])

abbrev pub of_slots : ℕ → ℕ → ℕ → Result StoreError Key
of_slots p src dst = from_parts ((p ∷ []) ∷ (slot_digit src ∷ []) ∷ (slot_digit dst ∷ []) ∷ [])

-- The first seven bytes of a hash.
abbrev pub hex_part : Bytes → Bytes
hex_part hash = concat (map (λ byte. hex (byte / 16) ∷ hex (byte % 16) ∷ []) (take 7 hash))

abbrev pub of_hash : Bytes → Result StoreError Key
of_hash hash = from_parts ((116 ∷ []) ∷ hex_part hash ∷ [])

-- The functions of `keys`.
unfoldable pub key : Name → Result StoreError Key
unfolding slot_digit hex prefix
key Name.schema = key_new (115 ∷ 99 ∷ 104 ∷ 101 ∷ 109 ∷ 97 ∷ [])
key Name.server = key_new (115 ∷ 101 ∷ 114 ∷ 118 ∷ 101 ∷ 114 ∷ [])
key Name.led_phrase = key_new (108 ∷ 101 ∷ 100 ∷ 95 ∷ 112 ∷ 104 ∷ 114 ∷ 97 ∷ 115 ∷ 101 ∷ [])
key Name.terms = key_new (116 ∷ 101 ∷ 114 ∷ 109 ∷ 115 ∷ [])
key (Name.account slot) = of_slot 97 slot
key (Name.app id) = of_id 112 id
key (Name.token hash) = of_hash hash
key (Name.status id) = of_id 115 id
key (Name.boost id) = of_id 114 id
key (Name.reaction kind id slot) =
    from_parts ((prefix kind ∷ []) ∷ b32 id ∷ (slot_digit slot ∷ []) ∷ [])
key (Name.follow src dst) = of_slots 70 src dst
key (Name.block src dst) = of_slots 66 src dst
key (Name.mute src dst) = of_slots 77 src dst
key (Name.account_mod slot) = of_slot 109 slot
key (Name.report id) = of_id 82 id
key (Name.collection id) = of_id 99 id
key (Name.user_key slot) = of_slot 107 slot
key (Name.local_token id) = of_id 107 id
key (Name.token_seal hash) = of_hash hash >>= λ t. from_parts ((119 ∷ []) ∷ drop 1 (as_str t) ∷ [])
key (Name.dm id) = of_id 100 id
key (Name.code id) = of_id 105 id
key (Name.revision id n) = from_parts ((104 ∷ []) ∷ b32 id ∷ ((48 + n) ∷ []) ∷ [])
key (Name.poll id) = of_id 111 id
key (Name.follow_request src dst) = of_slots 81 src dst
key (Name.list slot n) = from_parts ((108 ∷ []) ∷ (slot_digit slot ∷ []) ∷ (hex n ∷ []) ∷ [])
key (Name.filter slot n) = from_parts ((120 ∷ []) ∷ (slot_digit slot ∷ []) ∷ (hex n ∷ []) ∷ [])
