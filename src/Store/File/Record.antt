-- ===== src/Store/File/Record.antt =====
-- A record reads back as it was written.
use mastomini.Prelude.{
  ℕ, ◌+◌, ◌≤◌, ◌<◌, ◌^◌, ◌≡◌, ap, ◌∙◌, true, some, ◌++◌, ◌==◌, not, if◌then◌else◌, length, drop,
  take_all, take-append, drop-append, length-append, err, ok_or, ◌>>=◌, arith,
}
use mastomini.Prelude.Bytes.{Bytes, get_to, get_range, le32, from_le32}
use mastomini.Prelude.Bytes.Laws.{is_utf8-graphic, from_le32-le32}
use mastomini.Store.Base.{Ns}
use mastomini.Store.Key.{Key, key_new-IsText, as_str-key_new}
use mastomini.Store.Key.Order.{from_u8-index}
use mastomini.Store.Contract.{IsKey}
use mastomini.Store.Mem.{MemStore}
use mastomini.Store.File.{encode, bad, dispatch, apply_value, apply_fields, apply}

get_to-append : (xs ys : Bytes) → get_to (length xs) (xs ++ ys) ≡ some xs
get_to-append xs ys = ground (arith, take-append xs ys, length-append xs ys)

get_to_all : (n : ℕ) (xs : Bytes) → n ≡ length xs → get_to n xs ≡ some xs
get_to_all n xs h = rw h (ground (arith, take_all xs))

apply_value_of :
    (op : ℕ) (ns : Ns) (key : Key) (rest vlen value : Bytes) (mem : MemStore)
    → get_to 4 rest ≡ some vlen
    → get_range 4 (4 + from_le32 vlen) rest ≡ some value
    → 4 + from_le32 vlen ≡ length rest
    → apply_value op ns key rest mem ≡ dispatch op ns key value mem
unfolding apply_value
apply_value_of op ns key rest vlen value mem head range total =
    let exact : (4 + from_le32 vlen == length rest) ≡ true = ground arith in
    ap
      (λ o. ok_or o bad >>= (λ v. ok_or (get_range 4 (4 + from_le32 v) rest) bad >>= (λ w.
        if not (4 + from_le32 v == length rest) then err bad else dispatch op ns key w mem)))
      head
    ∙ ap
        (λ o. ok_or o bad >>= (λ w.
          if not (4 + from_le32 vlen == length rest) then err bad else dispatch op ns key w mem))
        range
    ∙ ap (λ b. if not b then err bad else dispatch op ns key value mem) exact

get_range_of :
    (start end : ℕ) (bs all : Bytes)
    → start ≤ end
    → get_to end bs ≡ some all
    → get_range start end bs ≡ some (drop start all)
get_range_of start end bs all h e = ground arith

pub apply_value-written :
    (op : ℕ) (ns : Ns) (key : Key) (value : Bytes) (mem : MemStore)
    → length value < 2 ^ 32
    → apply_value op ns key (le32 (length value) ++ value) mem ≡ dispatch op ns key value mem
apply_value-written op ns key value mem h =
    let rest = le32 (length value) ++ value in
    let size : 4 + from_le32 (le32 (length value)) ≡ length rest =
      omega (arith, from_le32-le32 (length value) h) in
    apply_value_of op ns key rest (le32 (length value)) value mem
      (get_to-append (le32 (length value)) value)
      (get_range_of 4 (4 + from_le32 (le32 (length value))) rest rest (omega arith)
        (get_to_all (4 + from_le32 (le32 (length value))) rest size))
      size

-- For a key made by `Key::new` and a value of less than 2^32 bytes, applying the encoded record
-- does what its operation does: the parser recovers namespace, key and value.
pub apply-encode :
    (op : ℕ) (ns : Ns) (key : Key) (value : Bytes) (mem : MemStore)
    → IsKey key
    → length value < 2 ^ 32
    → apply (encode op ns key value) mem ≡ dispatch op ns key value mem
unfolding apply encode apply_fields
apply-encode op ns key value mem (name, made) h =
    let (nonempty, short, printable) = key_new-IsText name made in
    let tail = le32 (length value) ++ value in
    let spelled = as_str-key_new name made in
    rw (spelled, from_u8-index ns, get_to-append name tail, is_utf8-graphic name printable, made)
      (rw (drop-append name tail) (apply_value-written op ns key value mem h))
