-- ===== src/Cloud/Hub/Outcome.antt =====
-- What a publication is to a client, and when it is refused: `publish` of
-- minicloud_rs/src/broker.rs, in the terms of its caller.
use mathlib.Core.List.{Mem, mem-cons_self, mem-cons_of_mem}
use mastomini.Prelude.{
  ℕ, ◌≡◌, ◌≢◌, refl, Bool, true, false, none, some, List, [], ◌∷◌, ◌++◌, Result, ok, err, All,
  arith, ◌<◌, ◌≤◌, ◌+◌, length, Bool-cases, inl, inr, ◌||◌, ltb,
}
use mastomini.Prelude.Bytes.{Bytes}
use mastomini.Prelude.Ord.{nat_ord, pair_ord, list_ord}
use mastomini.Prelude.Map.{get}
use mastomini.Cloud.Hub.{
  Hub, Subscriber, Mqtt, Refusal, invalid_topic, topic_limit, protocol, any_matches, queue_for,
  output_limit,
}

-- What becomes of a client when a packet is sent to the topic's readers.
pub data Receives (mqtt : Mqtt) (topic packet : Bytes) (before after : Subscriber) : Type 0 where
  unmatched :
      All (λ f. mqtt.matches topic f ≡ false) before.filters
      → after ≡ before
      → Receives mqtt topic packet before after
  received :
      (f : Bytes)
      → Mem f before.filters
      → mqtt.matches topic f ≡ true
      → length before.output + length packet ≤ 4096
      → after.output ≡ before.output ++ packet
      → after.overflow ≡ before.overflow
      → after.filters ≡ before.filters
      → Receives mqtt topic packet before after
  overflowed :
      (f : Bytes)
      → Mem f before.filters
      → mqtt.matches topic f ≡ true
      → 4096 < length before.output + length packet
      → after.output ≡ before.output
      → after.overflow ≡ true
      → after.filters ≡ before.filters
      → Receives mqtt topic packet before after

-- Why a publication is refused.
pub data Refuses (mqtt : Mqtt) (topic payload : Bytes) (is_retained : Bool) (hub : Hub)
    : Refusal → Type 0 where
  long_topic : 128 < length topic → Refuses mqtt topic payload is_retained hub invalid_topic
  bad_topic :
      mqtt.valid_topic topic ≡ false → Refuses mqtt topic payload is_retained hub invalid_topic
  large : 2048 < length payload → Refuses mqtt topic payload is_retained hub invalid_topic
  no_room :
      is_retained ≡ true
      → payload ≢ []
      → get topic hub.retained ≡ none
      → length hub.retained ≡ 8
      → Refuses mqtt topic payload is_retained hub topic_limit
  unwritten :
      (n : ℕ)
      → mqtt.write_publish topic payload false ≡ err n
      → Refuses mqtt topic payload is_retained hub (protocol n)

-- What a publication shows of a client, by its result.
abbrev pub Reaches :
    Mqtt → Bytes → Bytes → Bool → Hub → ℕ → Subscriber → Result Refusal (Unit {0}) × Hub → Type 0
Reaches mqtt topic payload is_retained hub id client (ok _, after) =
    (packet : Bytes) × (mqtt.write_publish topic payload false ≡ ok packet)
    × (client' : Subscriber) × (get id after.clients ≡ some client')
    × Receives mqtt topic packet client client'
Reaches mqtt topic payload is_retained hub id client (err e, after) =
    Refuses mqtt topic payload is_retained hub e × (get id after.clients ≡ some client)

matched :
    (mqtt : Mqtt) (topic : Bytes) (fs : List Bytes)
    → any_matches mqtt topic fs ≡ true
    → (f : Bytes) × Mem f fs × (mqtt.matches topic f ≡ true)
matched mqtt topic [] h = absurd (cc h)
matched mqtt topic (f ∷ fs) h = elim (Bool-cases (mqtt.matches topic f)) [
  | inl here ↦ (f, mem-cons_self, here)
  | inr other ↦
      let (g, at, hit) = matched mqtt topic fs (ground (arith, h, other)) in
      (g, mem-cons_of_mem f at, hit)
]

none_matched :
    (mqtt : Mqtt) (topic : Bytes) (fs : List Bytes)
    → any_matches mqtt topic fs ≡ false
    → All (λ f. mqtt.matches topic f ≡ false) fs
none_matched mqtt topic [] h = tt
none_matched mqtt topic (f ∷ fs) h =
    let (here, later) = neither (mqtt.matches topic f) (any_matches mqtt topic fs) h in
    (here, none_matched mqtt topic fs later)
  where
    neither : (a b : Bool) → (a || b) ≡ false → (a ≡ false) × (b ≡ false)
    neither true b h = absurd (cc h)
    neither false b h = (refl, h)

pub queue_for-Receives :
    (mqtt : Mqtt) (topic packet : Bytes) (client : Subscriber)
    → any_matches mqtt topic client.filters ≡ true
    → Receives mqtt topic packet client (queue_for packet client)
unfolding queue_for
queue_for-Receives mqtt topic packet client h =
    let (f, at, hit) = matched mqtt topic client.filters h in
    elim (Bool-cases (ltb output_limit (length client.output + length packet))) [
      | inl over ↦ overflowed f at hit (ground (arith, over)) (rw over) (rw over) (rw over)
      | inr fits ↦ received f at hit (ground (arith, fits)) (rw fits) (rw fits) (rw fits)
    ]

pub untouched-Receives :
    (mqtt : Mqtt) (topic packet : Bytes) (client : Subscriber)
    → any_matches mqtt topic client.filters ≡ false
    → Receives mqtt topic packet client client
untouched-Receives mqtt topic packet client h =
    unmatched (none_matched mqtt topic client.filters h) refl
