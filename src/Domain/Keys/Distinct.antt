-- ===== src/Domain/Keys/Distinct.antt =====
-- Keys of different records differ.
use mastomini.Prelude.{
  true, ℕ, ◌<◌, ◌≡◌, refl, sym, ap, ◌∙◌, some, [], ◌∷◌, ◌++◌, length, take, drop, take-append,
  drop-append, Result, ok,
}
use mastomini.Prelude.Bytes.{Bytes, is_graphic}
use mastomini.Prelude.Word.{u64_end}
use mastomini.Ids.{b32_len, b32, from_b32}
use mastomini.Ids.Text.{b32-eq-digits, length-digits, from_b32-b32}
use mastomini.Store.Base.{StoreError}
use mastomini.Store.Key.{Key, as_str}
use mastomini.Domain.Base.{max_accounts}
use mastomini.Domain.Keys.{
  slot_digit, parse_slot, ReactionKind, prefix, from_prefix, Name, key, of_id,
}
use mastomini.Domain.Keys.Made.{spelled, IsName, key-Made, of_id-Made}
use mastomini.Domain.Keys.Slots.{parse_slot_iff}

from_prefix-prefix : (kind : ReactionKind) → from_prefix (prefix kind) ≡ some kind
unfolding from_prefix prefix
from_prefix-prefix ReactionKind.favourite = refl
from_prefix-prefix ReactionKind.bookmark = refl
from_prefix-prefix ReactionKind.pin = refl
from_prefix-prefix ReactionKind.mute = refl

some_eq : {A : Type 0} {a b : A} → some a ≡ some b → a ≡ b
some_eq h = cc

ok_eq : {a b : Key} → ◌≡◌ {A = Result StoreError Key} (ok a) (ok b) → a ≡ b
ok_eq h = cc

length-b32 : (id : ℕ) → length (b32 id) ≡ 13
length-b32 id = ap length (b32-eq-digits id) ∙ length-digits b32_len id

b32-front : (id : ℕ) (rest : Bytes) → take 13 (b32 id ++ rest) ≡ b32 id
b32-front id rest =
    ap (λ n. take n (b32 id ++ rest)) (sym (length-b32 id)) ∙ take-append (b32 id) rest

b32-back : (id : ℕ) (rest : Bytes) → drop 13 (b32 id ++ rest) ≡ rest
b32-back id rest =
    ap (λ n. drop n (b32 id ++ rest)) (sym (length-b32 id)) ∙ drop-append (b32 id) rest

b32-apart :
    (a b : ℕ) (xs ys : Bytes)
    → a < u64_end
    → b < u64_end
    → b32 a ++ xs ≡ b32 b ++ ys
    → (a ≡ b) × (xs ≡ ys)
b32-apart a b xs ys ha hb h =
    let same : b32 a ≡ b32 b = sym (b32-front a xs) ∙ ap (take 13) h ∙ b32-front b ys in
    (
      some_eq (sym (from_b32-b32 a ha) ∙ ap from_b32 same ∙ from_b32-b32 b hb),
      sym (b32-back a xs) ∙ ap (drop 13) h ∙ b32-back b ys,
    )

-- Two names with one key have one text.
pub spelled-same : (m n : Name) → IsName m → IsName n → key m ≡ key n → spelled m ≡ spelled n
spelled-same m n hm hn h =
    let (k, made_m, text_m) = key-Made m hm in
    let (l, made_n, text_n) = key-Made n hn in
    sym text_m ∙ ap as_str (ok_eq (sym made_m ∙ h ∙ made_n)) ∙ text_n

head_eq : {p q : ℕ} {xs ys : Bytes} → p ∷ xs ≡ q ∷ ys → (p ≡ q) × (xs ≡ ys)
head_eq h = (cc, cc)

-- For 64-bit ids and slots of the account table, the keys of two reactions are the same only if
-- kind, status and slot are the same: no reaction overwrites another one.
pub reaction-key-injective :
    (kind kind' : ReactionKind) (a b slot slot' : ℕ)
    → (a < u64_end) × (b < u64_end)
    → (slot < max_accounts) × (slot' < max_accounts)
    → key (Name.reaction kind a slot) ≡ key (Name.reaction kind' b slot')
    → (kind ≡ kind') × (a ≡ b) × (slot ≡ slot')
unfolding spelled
reaction-key-injective kind kind' a b slot slot' (ha, hb) (hs, hs') h =
    let (same_kind, tail) =
      head_eq (spelled-same (Name.reaction kind a slot) (Name.reaction kind' b slot') hs hs' h) in
    let (same_id, last) = b32-apart a b (slot_digit slot ∷ []) (slot_digit slot' ∷ []) ha hb tail in
    (
      some_eq (sym (from_prefix-prefix kind) ∙ ap from_prefix same_kind ∙ from_prefix-prefix kind'),
      same_id,
      some_eq (
          sym ((parse_slot_iff slot (slot_digit slot) hs).1 refl)
          ∙ ap parse_slot (head_eq last).0
          ∙ (parse_slot_iff slot' (slot_digit slot') hs').1 refl),
    )

-- For printable prefixes and 64-bit ids, the keys that are a prefix and an id are the same only
-- if both prefix and id are the same.
pub of_id-injective :
    (p q a b : ℕ)
    → (is_graphic p ≡ true) × (is_graphic q ≡ true)
    → (a < u64_end) × (b < u64_end)
    → of_id p a ≡ of_id q b
    → (p ≡ q) × (a ≡ b)
of_id-injective p q a b (hp, hq) (ha, hb) h =
    let (k, made_a, text_a) = of_id-Made p a hp in
    let (l, made_b, text_b) = of_id-Made q b hq in
    let (same, tail) =
      head_eq (sym text_a ∙ ap as_str (ok_eq (sym made_a ∙ h ∙ made_b)) ∙ text_b) in
    (same, (b32-apart a b [] [] ha hb tail).0)
