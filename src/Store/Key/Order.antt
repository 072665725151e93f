-- ===== src/Store/Key/Order.antt =====
-- The derived orders of `Ns`, of `Key` and of the map's keys `(Ns, Key)`.
use mastomini.Prelude.{ℕ, ◌≡◌, refl, ap, ◌∙◌, sym, some, compare, Ordering}
use mastomini.Prelude.Bytes.{Bytes}
use mastomini.Prelude.Ord.{
  Ord, reverse, nat_ord, list_ord, pair_ord, pair_cmp, pair_cmp_refl, pair_cmp_eq, pair_cmp_flip,
  pair_cmp_trans, compare_refl, compare_eq, compare_flip, compare_trans,
}
use mastomini.Store.Base.{Ns, index, from_u8}
use mastomini.Store.Key.{Key}

-- For every namespace `from_u8` of its number gives it back.
pub from_u8-index : (ns : Ns) → from_u8 (index ns) ≡ some ns
unfolding from_u8 index
from_u8-index Ns.cfg = refl
from_u8-index _ = refl

pub index-injective : (a b : Ns) → index a ≡ index b → a ≡ b
index-injective a b h = some_eq a b (sym (from_u8-index a) ∙ ap from_u8 h ∙ from_u8-index b)
  where
    some_eq : (a b : Ns) → some a ≡ some b → a ≡ b
    some_eq a b h = cc

abbrev pub ns_cmp : Ns → Ns → Ordering
ns_cmp a b = compare (index a) (index b)

pub ns_cmp_eq : (a b : Ns) → ns_cmp a b ≡ Ordering.eq → a ≡ b
ns_cmp_eq a b h = index-injective a b (compare_eq (index a) (index b) h)

pub ns_cmp_refl : (a : Ns) → ns_cmp a a ≡ Ordering.eq
ns_cmp_refl a = compare_refl (index a)

pub ns_cmp_flip : (a b : Ns) → ns_cmp b a ≡ reverse (ns_cmp a b)
ns_cmp_flip a b = compare_flip (index a) (index b)

pub ns_cmp_trans :
    (a b c : Ns) → ns_cmp a b ≡ Ordering.lt → ns_cmp b c ≡ Ordering.lt → ns_cmp a c ≡ Ordering.lt
ns_cmp_trans a b c h k = compare_trans (index a) (index b) (index c) h k

instance abbrev pub ns_ord : Ord Ns
ns_ord = record {
  cmp = ns_cmp;
  cmp_refl = ns_cmp_refl;
  cmp_eq = ns_cmp_eq;
  cmp_flip = ns_cmp_flip;
  cmp_trans = ns_cmp_trans;
}

-- The fields in the order of their declaration: `len`, then `buf`.
abbrev pub fields : Key → ℕ × Bytes
fields k = (k.len, k.buf)

abbrev pub key_cmp : Key → Key → Ordering
key_cmp a b = pair_cmp (fields a) (fields b)

pub key_cmp_refl : (a : Key) → key_cmp a a ≡ Ordering.eq
key_cmp_refl a = pair_cmp_refl (fields a)

pub key_cmp_eq : (a b : Key) → key_cmp a b ≡ Ordering.eq → a ≡ b
key_cmp_eq a b h =
    let e = pair_cmp_eq (fields a) (fields b) h in
    ap {A = ℕ × Bytes} {B = Key} (λ p. record { len = p.0; buf = p.1 }) e

pub key_cmp_flip : (a b : Key) → key_cmp b a ≡ reverse (key_cmp a b)
key_cmp_flip a b = pair_cmp_flip (fields a) (fields b)

pub key_cmp_trans :
    (a b c : Key)
    → key_cmp a b ≡ Ordering.lt
    → key_cmp b c ≡ Ordering.lt
    → key_cmp a c ≡ Ordering.lt
key_cmp_trans a b c h k = pair_cmp_trans (fields a) (fields b) (fields c) h k

instance abbrev pub key_ord : Ord Key
key_ord = record {
  cmp = key_cmp;
  cmp_refl = key_cmp_refl;
  cmp_eq = key_cmp_eq;
  cmp_flip = key_cmp_flip;
  cmp_trans = key_cmp_trans;
}

instance abbrev pub slot_ord : Ord (Ns × Key)
slot_ord = pair_ord
