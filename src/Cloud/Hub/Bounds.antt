-- ===== src/Cloud/Hub/Bounds.antt =====
-- What the hub of minicloud_rs/src/broker.rs bounds: the outputs, the filters and the retained
-- messages.
use mathlib.Core.Path.{subst}
use mastomini.Prelude.Ord.{Ord, nat_ord, pair_ord, list_ord}
use mastomini.Prelude.Map.{same_eq, Map, get, insert, remove, get-insert, get-remove, same}
use mastomini.Prelude.{
  ◌⊎◌, length-append, ℕ, ◌≡◌, refl, sym, ap, ◌∙◌, Bool, true, false, Option, none, some, List, [],
  ◌∷◌, ◌++◌, if◌then◌else◌, Bool-cases, inl, inr, arith, ◌≤◌, ◌+◌, length, ltb,
}
use mastomini.Prelude.Bytes.{Bytes}
use mastomini.Prelude.Map.Order.{sum, IsSorted, sum-insert, sum-remove}
use mastomini.Cloud.Hub.{
  Hub, Subscriber, output_limit, max_payload, new_subscriber, add, remove_client, queue_for, queue,
  queue_all,
}

pub record IsWithin (client : Subscriber) : Type 0 where
  pub output : length client.output ≤ output_limit
  pub filters : length client.filters ≤ 8

pub record IsBounded (hub : Hub) : Type 0 where
  pub clients : (id : ℕ) (client : Subscriber) → get id hub.clients ≡ some client → IsWithin client
  pub sorted : IsSorted hub.retained
  pub number : length hub.retained ≤ 8
  pub payloads :
      (topic payload : Bytes)
      → get topic hub.retained ≡ some payload
      → (length payload ≤ max_payload) × (length topic ≤ 128)

module _ {K V : Type 0} ⦃o : Ord K⦄ where
  pub same-key :
      (k j : K) (v w : V) (m : Map K V)
      → get j (insert k v m) ≡ some w
      → (k ≡ j) × (v ≡ w) ⊎ (get j m ≡ some w)
  same-key k j v w m e = elim (Bool-cases (same k j)) [
    | inl hit ↦ inl (
      same_eq k j hit,
      some_eq (sym (get-insert k j v m ∙ ap (λ b. if b then some v else get j m) hit) ∙ e),
    )
    | inr miss ↦ inr (sym (get-insert k j v m ∙ ap (λ b. if b then some v else get j m) miss) ∙ e)
  ]
    where
      some_eq : {a b : V} → some a ≡ some b → a ≡ b
      some_eq h = cc h

  pub still : (k j : K) (w : V) (m : Map K V) → get j (remove k m) ≡ some w → get j m ≡ some w
  still k j w m e = elim (Bool-cases (same k j)) [
    | inl hit ↦ absurd (cc (sym (get-remove k j m ∙ ap (λ b. if b then none else get j m) hit) ∙ e))
    | inr miss ↦ sym (get-remove k j m ∙ ap (λ b. if b then none else get j m) miss) ∙ e
  ]

pub ltb-false : (a b : ℕ) → ltb a b ≡ false → b ≤ a
ltb-false a b h = ground arith

length-sum : (m : Map Bytes Bytes) → sum (λ _. 1) m ≡ length m
length-sum [] = refl
length-sum ((k, v) ∷ m) = omega (arith, length-sum m)

pub length-insert_new :
    (k v : Bytes) (m : Map Bytes Bytes) → IsSorted m → length (insert k v m) ≤ length m + 1
length-insert_new k v m s =
    omega (arith, sum-insert (λ _. 1) k v m s, length-sum m, length-sum (insert k v m))

pub length-insert_old :
    (k v w : Bytes) (m : Map Bytes Bytes)
    → IsSorted m
    → get k m ≡ some w
    → length (insert k v m) ≡ length m
length-insert_old k v w m s e =
    omega (arith, rw (e) at (sum-insert (λ _. 1) k v m s), length-sum m, length-sum (insert k v m))

pub length-remove : (k : Bytes) (m : Map Bytes Bytes) → IsSorted m → length (remove k m) ≤ length m
length-remove k m s =
    omega (arith, sum-remove (λ _. 1) k m s, length-sum m, length-sum (remove k m))

-- A client that is put in place.
pub placed-IsBounded :
    (id : ℕ) (client : Subscriber) (hub : Hub)
    → IsWithin client
    → IsBounded hub
    → IsBounded (record hub { clients = insert id client hub.clients })
placed-IsBounded id client hub w h = record {
  clients = λ j c e. elim (same-key id j client c hub.clients e) [
    | inl (_, at) ↦ subst IsWithin at w
    | inr old ↦ h.clients j c old
  ];
  sorted = h.sorted;
  number = h.number;
  payloads = h.payloads;
}

queue_for-IsWithin :
    (bytes : Bytes) (client : Subscriber) → IsWithin client → IsWithin (queue_for bytes client)
unfolding queue_for
queue_for-IsWithin bytes client w =
    split (ltb output_limit (length client.output + length bytes)) refl
  where
    split :
        (b : Bool)
        → ltb output_limit (length client.output + length bytes) ≡ b
        → IsWithin (
            if b
            then record client { overflow = true }
            else record client { output = client.output ++ bytes })
    split true e = record { output = w.output; filters = w.filters }
    split false e = record { output = fits e; filters = w.filters }
      where
        fits :
            ltb output_limit (length client.output + length bytes) ≡ false
            → length (client.output ++ bytes) ≤ output_limit
        fits e = omega (
          arith,
          length-append client.output bytes,
          ltb-false output_limit (length client.output + length bytes) e,
        )

pub queue-IsBounded :
    (id : ℕ) (bytes : Bytes) (hub : Hub) → IsBounded hub → IsBounded (queue id bytes hub)
unfolding queue
queue-IsBounded id bytes hub h = go (get id hub.clients) refl
  where
    go :
        (o : Option Subscriber)
        → get id hub.clients ≡ o
        → IsBounded (elim o as (λ _. Hub) [
          | none ↦ hub
          | some client ↦ record hub { clients = insert id (queue_for bytes client) hub.clients }
        ])
    go none e = h
    go (some client) e =
        placed-IsBounded id (queue_for bytes client) hub
          (queue_for-IsWithin bytes client (h.clients id client e)) h

pub queue_all-IsBounded :
    (ids : List ℕ) (bytes : Bytes) (hub : Hub) → IsBounded hub → IsBounded (queue_all ids bytes hub)
unfolding queue_all
queue_all-IsBounded [] bytes hub h = h
queue_all-IsBounded (id ∷ ids) bytes hub h =
    queue_all-IsBounded ids bytes (queue id bytes hub) (queue-IsBounded id bytes hub h)

pub add-IsBounded : (id : ℕ) (hub : Hub) → IsBounded hub → IsBounded (add id hub)
unfolding add
add-IsBounded id hub h =
    placed-IsBounded id new_subscriber hub (record { output = omega arith; filters = omega arith })
      h

pub remove_client-IsBounded :
    (id : ℕ) (hub : Hub) → IsBounded hub → IsBounded (remove_client id hub)
unfolding remove_client
remove_client-IsBounded id hub h = record {
  clients = λ j c e. h.clients j c (still id j c hub.clients e);
  sorted = h.sorted;
  number = h.number;
  payloads = h.payloads;
}
