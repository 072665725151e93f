-- ===== src/Store/Key.antt =====
-- `Key` of mastomini_rs/src/store/mod.rs: a short printable text, stored inline.
pub mod Parts
pub mod Order
use mastomini.Prelude.{
  ℕ, ◌+◌, ◌-◌, ◌≤◌, ◌<◌, ◌≡◌, refl, Bool, true, false, ◌&&◌, ◌||◌, not, List, [], ◌∷◌, ◌++◌, arith,
  ltb, if◌then◌else◌, length, take, drop, replicate, all, Result, ok, err, ◌>>=◌, take-append,
  length-append, length-replicate, Bool-cases, inl, inr,
}
use mastomini.Prelude.Bytes.{Bytes, is_graphic, is_utf8}
use mastomini.Prelude.Bytes.Laws.{is_utf8-graphic}
use mastomini.Store.Base.{StoreError, bad_key}

abbrev pub key_max : ℕ
key_max = 15

pub record Key : Type 0 where
  pub len : ℕ
  pub buf : Bytes

abbrev pub is_empty : Bytes → Bool
is_empty [] = true
is_empty (_ ∷ _) = false

unfoldable pub key_new : Bytes → Result StoreError Key
key_new text =
    if is_empty text || ltb key_max (length text) || not (all is_graphic text)
    then err bad_key
    else ok (record { len = length text; buf = text ++ replicate (key_max - length text) 0 })

unfoldable pub as_str : Key → Bytes
as_str k = if is_utf8 (take k.len k.buf) then take k.len k.buf else []

-- The loop of `Key::from_parts` over its variables `buf` and `len`.
unfoldable pub copy_parts : List Bytes → Bytes → ℕ → Result StoreError Key
copy_parts [] buf len = ok (record { len = len; buf = buf })
copy_parts (part ∷ parts) buf len =
    let rest =
      copy_parts parts (take len buf ++ (part ++ drop (len + length part) buf))
        (len + length part) in
    if ltb key_max (len + length part) then err bad_key else rest

unfoldable pub from_parts : List Bytes → Result StoreError Key
unfolding copy_parts
from_parts parts = copy_parts parts (replicate key_max 0) 0 >>= λ k. key_new (as_str k)

-- What `Key::new` accepts.
abbrev pub IsText : Bytes → Type 0
IsText text = (0 < length text) × (length text ≤ key_max) × (all is_graphic text ≡ true)

pub key_new-IsText : (text : Bytes) {k : Key} → key_new text ≡ ok k → IsText text
unfolding key_new
key_new-IsText [] h = cc
key_new-IsText (b ∷ text) h = ground arith

-- If `Key::new` makes a key from a text, the text of the key is that text.
pub as_str-key_new : (text : Bytes) {k : Key} → key_new text ≡ ok k → as_str k ≡ text
unfolding key_new as_str
as_str-key_new text {k} h = elim (Bool-cases (all is_graphic text)) [
  | inl fine ↦
      ground (arith, take-append text (replicate (key_max - length text) 0), is_utf8-graphic text)
  | inr bad ↦ ground arith
]
