-- ===== src/Domain/Keys/Made.antt =====
-- Every key of `keys` can be made.
use mathlib.Core.List.{append-nil}
use mastomini.Prelude.{
  ℕ, zero, suc, ◌+◌, ◌*◌, ◌/◌, ◌%◌, ◌-◌, replicate, ◌≤◌, ◌<◌, ◌≡◌, refl, ◌∙◌, true, List, [], ◌∷◌,
  ◌++◌, length, take, drop, concat, map, all, all-append, length-append, length-take, Result, ok,
  ◌>>=◌, arith,
}
use mastomini.Prelude.Bytes.{Bytes, is_graphic}
use mastomini.Prelude.Table.{all_below, all_below_at}
use mastomini.Ids.{char_of, alphabet, b32_len, b32}
use mastomini.Ids.Text.{digits, b32-eq-digits, length-digits}
use mastomini.Store.Base.{StoreError}
use mastomini.Store.Key.{Key, key_max, as_str, key_new, from_parts, IsText, as_str-key_new}
use mastomini.Store.Key.Parts.{from_parts-eq-key_new}
use mastomini.Domain.Base.{max_accounts}
use mastomini.Domain.Keys.{
  slot_digits, slot_digit, hex_digits, hex, ReactionKind, prefix, Name, key, hex_part, of_id,
  of_slot, of_slots, of_hash,
}

-- What the service passes: slots of the account table, hashes of 32 bytes, revisions 0 to 2.
abbrev pub IsName : Name → Type 0
IsName (Name.account slot) = slot < max_accounts
IsName (Name.account_mod slot) = slot < max_accounts
IsName (Name.user_key slot) = slot < max_accounts
IsName (Name.token hash) = length hash ≡ 32
IsName (Name.token_seal hash) = length hash ≡ 32
IsName (Name.reaction kind id slot) = slot < max_accounts
IsName (Name.follow src dst) = (src < max_accounts) × (dst < max_accounts)
IsName (Name.block src dst) = (src < max_accounts) × (dst < max_accounts)
IsName (Name.mute src dst) = (src < max_accounts) × (dst < max_accounts)
IsName (Name.follow_request src dst) = (src < max_accounts) × (dst < max_accounts)
IsName (Name.revision id n) = n ≤ 2
IsName (Name.list slot n) = slot < max_accounts
IsName (Name.filter slot n) = slot < max_accounts
IsName _ = Unit

slot_table : all_below 32 (λ d. is_graphic (char_of slot_digits d)) ≡ true
unfolding all_below
slot_table = refl

slot_graphic : (slot : ℕ) → slot < max_accounts → is_graphic (slot_digit slot) ≡ true
unfolding slot_digit
slot_graphic slot h = all_below_at 32 (λ d. is_graphic (char_of slot_digits d)) slot_table slot h

hex_table : all_below 16 (λ d. is_graphic (char_of hex_digits d)) ≡ true
unfolding all_below
hex_table = refl

hex_graphic : (n : ℕ) → is_graphic (hex n) ≡ true
unfolding hex
hex_graphic n =
    all_below_at 16 (λ d. is_graphic (char_of hex_digits d)) hex_table (n % 16) (omega arith)

b32_table : all_below 32 (λ d. is_graphic (char_of alphabet d)) ≡ true
unfolding all_below
b32_table = refl

digits_graphic : (n value : ℕ) → all is_graphic (digits n value) ≡ true
digits_graphic zero value = refl
digits_graphic (suc n) value =
    rw
      (
        all-append is_graphic (digits n (value / 32)) (char_of alphabet (value % 32) ∷ []),
        digits_graphic n (value / 32),
        all_below_at 32 (λ d. is_graphic (char_of alphabet d)) b32_table (value % 32) (omega arith),
      )
      refl

-- A key that is made, with the text of its parts.
abbrev pub Made : Result StoreError Key → Bytes → Type 0
Made r text = (k : Key) × (r ≡ ok k) × (as_str k ≡ text)

key_new-ok : (text : Bytes) → IsText text → (k : Key) × (key_new text ≡ ok k)
unfolding key_new
key_new-ok [] (nonempty, short, printable) = absurd (omega arith)
key_new-ok (b ∷ text) (nonempty, short, printable) = (
  record { len = length (b ∷ text); buf = b ∷ text ++ replicate (key_max - length (b ∷ text)) 0 },
  ground arith,
)

made : (parts : List Bytes) → IsText (concat parts) → Made (from_parts parts) (concat parts)
made parts h =
    let (k, e) = key_new-ok (concat parts) h in
    (k, from_parts-eq-key_new parts ∙ e, as_str-key_new (concat parts) e)

b32-IsText :
    (p id : ℕ) (rest : Bytes)
    → is_graphic p ≡ true
    → all is_graphic rest ≡ true
    → length rest ≤ 1
    → IsText (p ∷ (b32 id ++ rest))
b32-IsText p id rest hp hr short = rw (b32-eq-digits id) (
  omega arith,
  omega (arith, length-append (digits b32_len id) rest, length-digits b32_len id),
  rw (all-append is_graphic (digits b32_len id) rest, digits_graphic b32_len id, hp, hr) refl,
)

pub of_id-Made :
    (p id : ℕ)
    → is_graphic p ≡ true
    → (k : Key) × (of_id p id ≡ ok k) × (as_str k ≡ p ∷ (b32 id ++ []))
of_id-Made p id h = made ((p ∷ []) ∷ b32 id ∷ []) (b32-IsText p id [] h refl (omega arith))

of_slot-Made :
    (p slot : ℕ)
    → is_graphic p ≡ true
    → slot < max_accounts
    → (k : Key) × (of_slot p slot ≡ ok k) × (as_str k ≡ p ∷ slot_digit slot ∷ [])
of_slot-Made p slot hp hs =
    made ((p ∷ []) ∷ (slot_digit slot ∷ []) ∷ [])
      (omega arith, omega arith, rw (hp, slot_graphic slot hs) refl)

pair-Made :
    (p a b : ℕ)
    → is_graphic p ≡ true
    → is_graphic a ≡ true
    → is_graphic b ≡ true
    → (k : Key) × (from_parts ((p ∷ []) ∷ (a ∷ []) ∷ (b ∷ []) ∷ []) ≡ ok k)
      × (as_str k ≡ p ∷ a ∷ b ∷ [])
pair-Made p a b hp ha hb =
    made ((p ∷ []) ∷ (a ∷ []) ∷ (b ∷ []) ∷ []) (omega arith, omega arith, rw (hp, ha, hb) refl)

hex_part-IsHex :
    (hash : Bytes)
    → all is_graphic (concat (map (λ byte. hex (byte / 16) ∷ hex (byte % 16) ∷ []) hash)) ≡ true
hex_part-IsHex [] = refl
hex_part-IsHex (b ∷ hash) = rw (hex_graphic (b / 16), hex_graphic (b % 16)) (hex_part-IsHex hash)

length-hexed :
    (hash : Bytes)
    → length (concat (map (λ byte. hex (byte / 16) ∷ hex (byte % 16) ∷ []) hash)) ≡ 2 * length hash
length-hexed [] = refl
length-hexed (b ∷ hash) = omega (arith, length-hexed hash)

hash-IsText :
    (p : ℕ) (hash : Bytes)
    → is_graphic p ≡ true
    → length hash ≡ 32
    → IsText (p ∷ (hex_part hash ++ []))
hash-IsText p hash hp size =
    let long : length (hex_part hash) ≡ 14 =
      omega (arith, length-hexed (take 7 hash), length-take 7 hash (omega arith)) in
    rw (append-nil (hex_part hash))
      (omega arith, omega arith, rw (hp, hex_part-IsHex (take 7 hash)) refl)

of_hash-Made :
    (hash : Bytes)
    → length hash ≡ 32
    → (k : Key) × (of_hash hash ≡ ok k) × (as_str k ≡ 116 ∷ (hex_part hash ++ []))
of_hash-Made hash size = made ((116 ∷ []) ∷ hex_part hash ∷ []) (hash-IsText 116 hash refl size)

prefix_graphic : (kind : ReactionKind) → is_graphic (prefix kind) ≡ true
unfolding prefix
prefix_graphic ReactionKind.favourite = refl
prefix_graphic ReactionKind.bookmark = refl
prefix_graphic ReactionKind.pin = refl
prefix_graphic ReactionKind.mute = refl

-- The text of a record's key: a prefix, and the texts of its parts.
unfoldable pub spelled : Name → Bytes
unfolding prefix
spelled Name.schema = 115 ∷ 99 ∷ 104 ∷ 101 ∷ 109 ∷ 97 ∷ []
spelled Name.server = 115 ∷ 101 ∷ 114 ∷ 118 ∷ 101 ∷ 114 ∷ []
spelled Name.led_phrase = 108 ∷ 101 ∷ 100 ∷ 95 ∷ 112 ∷ 104 ∷ 114 ∷ 97 ∷ 115 ∷ 101 ∷ []
spelled Name.terms = 116 ∷ 101 ∷ 114 ∷ 109 ∷ 115 ∷ []
spelled (Name.account slot) = 97 ∷ slot_digit slot ∷ []
spelled (Name.account_mod slot) = 109 ∷ slot_digit slot ∷ []
spelled (Name.user_key slot) = 107 ∷ slot_digit slot ∷ []
spelled (Name.app id) = 112 ∷ (b32 id ++ [])
spelled (Name.status id) = 115 ∷ (b32 id ++ [])
spelled (Name.boost id) = 114 ∷ (b32 id ++ [])
spelled (Name.report id) = 82 ∷ (b32 id ++ [])
spelled (Name.collection id) = 99 ∷ (b32 id ++ [])
spelled (Name.local_token id) = 107 ∷ (b32 id ++ [])
spelled (Name.dm id) = 100 ∷ (b32 id ++ [])
spelled (Name.code id) = 105 ∷ (b32 id ++ [])
spelled (Name.poll id) = 111 ∷ (b32 id ++ [])
spelled (Name.token hash) = 116 ∷ (hex_part hash ++ [])
spelled (Name.token_seal hash) = 119 ∷ (hex_part hash ++ [])
spelled (Name.reaction kind id slot) = prefix kind ∷ (b32 id ++ (slot_digit slot ∷ []))
spelled (Name.follow src dst) = 70 ∷ slot_digit src ∷ slot_digit dst ∷ []
spelled (Name.block src dst) = 66 ∷ slot_digit src ∷ slot_digit dst ∷ []
spelled (Name.mute src dst) = 77 ∷ slot_digit src ∷ slot_digit dst ∷ []
spelled (Name.follow_request src dst) = 81 ∷ slot_digit src ∷ slot_digit dst ∷ []
spelled (Name.revision id n) = 104 ∷ (b32 id ++ ((48 + n) ∷ []))
spelled (Name.list slot n) = 108 ∷ slot_digit slot ∷ hex n ∷ []
spelled (Name.filter slot n) = 120 ∷ slot_digit slot ∷ hex n ∷ []

static-Made : (text : Bytes) → IsText text → (k : Key) × (key_new text ≡ ok k) × (as_str k ≡ text)
static-Made text h = let (k, e) = key_new-ok text h in (k, e, as_str-key_new text e)

slots-Made :
    (p src dst : ℕ)
    → is_graphic p ≡ true
    → (src < max_accounts) × (dst < max_accounts)
    → (k : Key) × (of_slots p src dst ≡ ok k)
      × (as_str k ≡ p ∷ slot_digit src ∷ slot_digit dst ∷ [])
slots-Made p src dst hp (hs, hd) =
    pair-Made p (slot_digit src) (slot_digit dst) hp (slot_graphic src hs) (slot_graphic dst hd)

sealed-Made :
    (hash : Bytes)
    → length hash ≡ 32
    → (k : Key) × ((of_hash hash >>= λ t. from_parts ((119 ∷ []) ∷ drop 1 (as_str t) ∷ [])) ≡ ok k)
      × (as_str k ≡ 119 ∷ (hex_part hash ++ []))
sealed-Made hash size =
    let (t, e, spelled_so) = of_hash-Made hash size in
    rw (e, spelled_so, append-nil (hex_part hash))
      (rw (append-nil (hex_part hash)) at
        (made ((119 ∷ []) ∷ hex_part hash ∷ []) (hash-IsText 119 hash refl size)))

-- For the arguments that the service passes (slots of the account table, hashes of 32 bytes,
-- revisions 0 to 2), every function of `keys` makes a key, so that none of its `expect` calls
-- panics, and the key's text is the prefix with the texts of its parts.
pub key-Made : (n : Name) → IsName n → (k : Key) × (key n ≡ ok k) × (as_str k ≡ spelled n)
unfolding key spelled
key-Made Name.schema h = static-Made _ (omega arith, omega arith, refl)
key-Made Name.server h = static-Made _ (omega arith, omega arith, refl)
key-Made Name.led_phrase h = static-Made _ (omega arith, omega arith, refl)
key-Made Name.terms h = static-Made _ (omega arith, omega arith, refl)
key-Made (Name.account slot) h = of_slot-Made 97 slot refl h
key-Made (Name.account_mod slot) h = of_slot-Made 109 slot refl h
key-Made (Name.user_key slot) h = of_slot-Made 107 slot refl h
key-Made (Name.app id) h = of_id-Made 112 id refl
key-Made (Name.status id) h = of_id-Made 115 id refl
key-Made (Name.boost id) h = of_id-Made 114 id refl
key-Made (Name.report id) h = of_id-Made 82 id refl
key-Made (Name.collection id) h = of_id-Made 99 id refl
key-Made (Name.local_token id) h = of_id-Made 107 id refl
key-Made (Name.dm id) h = of_id-Made 100 id refl
key-Made (Name.code id) h = of_id-Made 105 id refl
key-Made (Name.poll id) h = of_id-Made 111 id refl
key-Made (Name.token hash) h = of_hash-Made hash h
key-Made (Name.token_seal hash) h = sealed-Made hash h
key-Made (Name.reaction kind id slot) h =
    made ((prefix kind ∷ []) ∷ b32 id ∷ (slot_digit slot ∷ []) ∷ []) (
      b32-IsText (prefix kind) id (slot_digit slot ∷ []) (prefix_graphic kind)
        (rw (slot_graphic slot h) refl) (omega arith))
key-Made (Name.follow src dst) h = slots-Made 70 src dst refl h
key-Made (Name.block src dst) h = slots-Made 66 src dst refl h
key-Made (Name.mute src dst) h = slots-Made 77 src dst refl h
key-Made (Name.follow_request src dst) h = slots-Made 81 src dst refl h
key-Made (Name.revision id n) h =
    made ((104 ∷ []) ∷ b32 id ∷ ((48 + n) ∷ []) ∷ [])
      (b32-IsText 104 id ((48 + n) ∷ []) refl (ground arith) (omega arith))
key-Made (Name.list slot n) h =
    pair-Made 108 (slot_digit slot) (hex n) refl (slot_graphic slot h) (hex_graphic n)
key-Made (Name.filter slot n) h =
    pair-Made 120 (slot_digit slot) (hex n) refl (slot_graphic slot h) (hex_graphic n)
