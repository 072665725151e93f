-- ===== src/Store/Key/Parts.antt =====
-- `Key::from_parts` makes the key of the parts' concatenation.
use mathlib.Core.List.{append_assoc, append-nil}
use mastomini.Prelude.{
  ℕ, ◌+◌, ◌-◌, ◌≤◌, ◌≡◌, ap, List, [], ◌∷◌, ◌++◌, arith, ltb, if◌then◌else◌, length, take, drop,
  replicate, concat, Result, ok, err, take-append, drop-append_add, drop-replicate, length-append,
  Bool-cases, inl, inr,
}
use mastomini.Prelude.Bytes.{Bytes, is_utf8}
use mastomini.Prelude.Bytes.Laws.{is_utf8-graphic}
use mastomini.Store.Base.{StoreError, bad_key}
use mastomini.Store.Key.{Key, key_max, key_new, as_str, copy_parts, from_parts}

-- A buffer whose text is `text` and whose rest is zeros.
abbrev padded : Bytes → Key
padded text = record { len = length text; buf = text ++ replicate (key_max - length text) 0 }

abbrev if_fits : Bytes → Result StoreError Key
if_fits text = if ltb key_max (length text) then err bad_key else ok (padded text)

padded-copy :
    (text part : Bytes)
    → take (length text) (padded text).buf
        ++ (part ++ drop (length text + length part) (padded text).buf)
      ≡ (padded (text ++ part)).buf
padded-copy text part =
    rw
      (
        take-append text (replicate (key_max - length text) 0),
        drop-append_add text (replicate (key_max - length text) 0) (length part),
        drop-replicate {A = ℕ} (length part) (key_max - length text) 0,
        append_assoc text part (replicate (key_max - length (text ++ part)) 0),
      )
      (ap (λ n. text ++ (part ++ replicate n 0)) (omega (arith, length-append text part)))

copy_parts-padded :
    (parts : List Bytes) (text : Bytes)
    → length text ≤ key_max
    → copy_parts parts (padded text).buf (padded text).len ≡ if_fits (text ++ concat parts)
unfolding copy_parts
copy_parts-padded [] text h = rw append-nil (ground arith)
copy_parts-padded (part ∷ parts) text h =
    elim (Bool-cases (ltb key_max (length text + length part))) [
      | inl over ↦ ground (
        arith,
        append_assoc text part (concat parts),
        length-append text part,
        length-append (text ++ part) (concat parts),
      )
      | inr room ↦
          let len : length (text ++ part) ≡ length text + length part = length-append text part in
          let small : length text + length part ≤ key_max = ground arith in
          rw (room, padded-copy text part, ← len, ← append_assoc text part (concat parts))
            (copy_parts-padded parts (text ++ part) (omega arith))
    ]

-- What is not printable is refused, whether or not it is UTF-8.
key_new-as_str-padded :
    (text : Bytes) → length text ≤ key_max → key_new (as_str (padded text)) ≡ key_new text
unfolding key_new as_str
key_new-as_str-padded text h =
    rw (take-append text (replicate (key_max - length text) 0)) (elim (Bool-cases (is_utf8 text)) [
      | inl utf8 ↦ rw utf8
      | inr bad ↦ rw bad (ground (arith, is_utf8-graphic text))
    ])

-- For every list of parts `Key::from_parts` returns what `Key::new` returns for their
-- concatenation, the error included.
pub from_parts-eq-key_new : (parts : List Bytes) → from_parts parts ≡ key_new (concat parts)
unfolding from_parts
from_parts-eq-key_new parts =
    let copied : copy_parts parts (replicate key_max 0) 0 ≡ if_fits (concat parts) =
      copy_parts-padded parts [] (omega arith) in
    rw copied (elim (Bool-cases (ltb key_max (length (concat parts)))) [
      | inl over ↦ unfold key_new in ground arith
      | inr fits ↦ rw fits (key_new-as_str-padded (concat parts) (ground arith))
    ])
