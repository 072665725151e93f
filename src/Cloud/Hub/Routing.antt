-- ===== src/Cloud/Hub/Routing.antt =====
-- Whom a message reaches: `publish` of minicloud_rs/src/broker.rs.
use mastomini.Cloud.Hub.Outcome.{
  Reaches, Receives, Refuses, long_topic, bad_topic, large, no_room, unwritten, queue_for-Receives,
  untouched-Receives,
}
use mastomini.Cloud.Hub.Readers.{IsUp, absent, eq_true, readers-IsUp, contains-readers}
use mastomini.Store.Key.{is_empty}
use mathlib.Core.Path.{subst}
use mastomini.Prelude.Map.{get, insert, get-insert_self, get-insert, remove, contains_key}
use mastomini.Prelude.{
  ℕ, ◌≡◌, refl, sym, ap, ◌∙◌, Bool, true, false, Option, none, some, List, [], ◌∷◌, ok,
  if◌then◌else◌, All, ◌==◌, ◌||◌, arith, ◌<◌, Result, err, not, ◌&&◌, length, ltb,
}
use mastomini.Prelude.Bytes.{Bytes}
use mastomini.Prelude.Ord.{nat_ord, pair_ord, list_ord}
use mastomini.Prelude.Map.Order.{IsSorted}
use mastomini.Domain.Lists.{contains}
use mastomini.Cloud.Hub.{
  Hub, Subscriber, Mqtt, queue_for, queue, queue_all, readers, any_matches, deliver, retain,
  publish, protocol, topic_limit, invalid_topic, max_payload, Refusal,
}

queue-hit :
    (id : ℕ) (client : Subscriber) (bytes : Bytes) (hub : Hub)
    → get id hub.clients ≡ some client
    → get id (queue id bytes hub).clients ≡ some (queue_for bytes client)
unfolding queue
queue-hit id client bytes hub e =
    rw (e, queue) (get-insert_self id (queue_for bytes client) hub.clients)

queue-miss :
    (id j : ℕ) (bytes : Bytes) (hub : Hub)
    → (j == id) ≡ false
    → get id (queue j bytes hub).clients ≡ get id hub.clients
unfolding queue
queue-miss id j bytes hub other = go (get j hub.clients)
  where
    go :
        (o : Option Subscriber)
        → get id
            (elim o as (λ _. Hub) [
              | none ↦ hub
              | some client ↦ record hub { clients = insert j (queue_for bytes client) hub.clients }
            ]).clients
          ≡ get id hub.clients
    go none = refl
    go (some client) =
        get-insert j id (queue_for bytes client) hub.clients
        ∙ ap (λ t. if t then some (queue_for bytes client) else get id hub.clients) other

-- Each id is queued for once.
get-queue_all :
    (id : ℕ) (client : Subscriber) (bytes : Bytes) (ids : List ℕ) (hub : Hub)
    → IsUp ids
    → get id hub.clients ≡ some client
    → get id (queue_all ids bytes hub).clients
      ≡ some (if contains id ids then queue_for bytes client else client)
unfolding queue_all
get-queue_all id client bytes [] hub up e = e
get-queue_all id client bytes (j ∷ ids) hub (above, up) e =
    step (j == id) refl (λ c h. get-queue_all id c bytes ids h up)
  where
    step :
        (hit : Bool)
        → (j == id) ≡ hit
        → ((c : Subscriber) (h : Hub)
            → get id h.clients ≡ some c
            → get id (queue_all ids bytes h).clients
              ≡ some (if contains id ids then queue_for bytes c else c))
        → get id (queue_all ids bytes (queue j bytes hub)).clients
          ≡ some (if (j == id) || contains id ids then queue_for bytes client else client)
    step true eh rest =
        let at : j ≡ id = eq_true j id eh in
        rest (queue_for bytes client) (queue j bytes hub) (
          subst (λ i. get id (queue i bytes hub).clients ≡ some (queue_for bytes client)) (sym at)
            (queue-hit id client bytes hub e))
        ∙ ap
            (λ t.
              some (if t then queue_for bytes (queue_for bytes client) else queue_for bytes client))
            (absent id ids (subst (λ i. All (λ k. i < k) ids) at above))
        ∙ sym (ap (λ t. some (if t || contains id ids then queue_for bytes client else client)) eh)
    step false eh rest =
        rest client (queue j bytes hub) (queue-miss id j bytes hub eh ∙ e)
        ∙ sym (ap (λ t. some (if t || contains id ids then queue_for bytes client else client)) eh)

-- What `queue_all` makes of a client that stands in the hub.
sent_to : Mqtt → Bytes → Bytes → Subscriber → Subscriber
sent_to mqtt topic packet client =
    if any_matches mqtt topic client.filters then queue_for packet client else client

sent_to-Receives :
    (mqtt : Mqtt) (topic packet : Bytes) (client : Subscriber)
    → Receives mqtt topic packet client (sent_to mqtt topic packet client)
unfolding sent_to
sent_to-Receives mqtt topic packet client = go (any_matches mqtt topic client.filters) refl
  where
    go :
        (b : Bool)
        → any_matches mqtt topic client.filters ≡ b
        → Receives mqtt topic packet client (if b then queue_for packet client else client)
    go true h = queue_for-Receives mqtt topic packet client h
    go false h = untouched-Receives mqtt topic packet client h

deliver_to :
    (mqtt : Mqtt) (topic packet : Bytes) (hub : Hub) (id : ℕ) (client : Subscriber)
    → IsSorted hub.clients
    → get id hub.clients ≡ some client
    → get id (queue_all (readers mqtt topic hub.clients) packet hub).clients
      ≡ some (sent_to mqtt topic packet client)
unfolding sent_to
deliver_to mqtt topic packet hub id client sorted e =
    get-queue_all id client packet (readers mqtt topic hub.clients) hub
      (readers-IsUp mqtt topic hub.clients sorted) e
    ∙ ap (λ t. some (if t then queue_for packet client else client))
        (contains-readers mqtt topic id client hub.clients sorted e)

module _ (mqtt : Mqtt) (topic payload : Bytes) (is_retained : Bool) (before : Hub) (id : ℕ)
    (client : Subscriber) where
  -- What `publish` from a hub `before` is to show.
  abbrev Shows : Result Refusal (Unit {0}) × Hub → Type 0
  Shows = Reaches mqtt topic payload is_retained before id client

  deliver-Shows :
      (hub : Hub)
      → IsSorted hub.clients
      → get id hub.clients ≡ some client
      → Shows (deliver mqtt topic payload hub)
  unfolding deliver
  deliver-Shows hub sorted e = go (mqtt.write_publish topic payload false) refl
    where
      go :
          (r : Result ℕ Bytes)
          → mqtt.write_publish topic payload false ≡ r
          → Shows (elim r as (λ _. Result Refusal (Unit {0}) × Hub) [
            | err e ↦ (err (protocol e), hub)
            | ok packet ↦ (ok tt, queue_all (readers mqtt topic hub.clients) packet hub)
          ])
      go (err n) written = (unwritten n written, e)
      go (ok packet) written = (
        packet,
        written,
        sent_to mqtt topic packet client,
        deliver_to mqtt topic packet hub id client sorted e,
        sent_to-Receives mqtt topic packet client,
      )

  -- What retaining leaves, or why it is refused.
  abbrev Retains : Result Refusal Hub → Type 0
  Retains (ok new) = new.clients ≡ before.clients
  Retains (err e) = Refuses mqtt topic payload is_retained before e

  retain-Retains : is_retained ≡ true → Retains (retain topic payload before)
  unfolding retain contains_key
  retain-Retains asked =
      go payload refl (get topic before.retained) refl (length before.retained == 8) refl
    where
      go :
          (bytes : Bytes)
          → payload ≡ bytes
          → (o : Option Bytes) → get topic before.retained ≡ o
          → (c : Bool) → (length before.retained == 8) ≡ c
          → Retains (
              if is_empty bytes
              then ok (record before { retained = remove topic before.retained })
              else if not (elim o [ none ↦ false | some _ ↦ true ]) && c
              then err topic_limit
              else ok (record before { retained = insert topic payload before.retained }))
      go [] eb o eo c ec = refl
      go (b ∷ bs) eb (some held) eo c ec = refl
      go (b ∷ bs) eb none eo true ec = no_room asked (λ h. cc) eo (ground (arith, ec))
      go (b ∷ bs) eb none eo false ec = refl

  guarded-Shows :
      (b : Bool)
      → (b ≡ true → Refuses mqtt topic payload is_retained before invalid_topic)
      → IsSorted before.clients
      → get id before.clients ≡ some client
      → Shows (
          if b
          then (err invalid_topic, before)
          else elim (if is_retained then retain topic payload before else ok before)
              as (λ _. Result Refusal (Unit {0}) × Hub) [
                | err e ↦ (err e, before)
                | ok new ↦ deliver mqtt topic payload new
              ])
  guarded-Shows true why sorted e = (why refl, e)
  guarded-Shows false why sorted e =
      sent (if is_retained then retain topic payload before else ok before)
        (chosen is_retained refl)
    where
      chosen :
          (flag : Bool)
          → is_retained ≡ flag
          → Retains (if flag then retain topic payload before else ok before)
      chosen true asked = retain-Retains asked
      chosen false asked = refl

      sent :
          (r : Result Refusal Hub)
          → Retains r
          → Shows (elim r as (λ _. Result Refusal (Unit {0}) × Hub) [
            | err e ↦ (err e, before)
            | ok new ↦ deliver mqtt topic payload new
          ])
      sent (err n) why_not = (why_not, e)
      sent (ok new) same_clients =
          deliver-Shows new (subst (λ m. IsSorted m) (sym same_clients) sorted)
            (subst (λ m. get id m ≡ some client) (sym same_clients) e)

  invalid :
      (a b c : Bool)
      → ltb 128 (length topic) ≡ a
      → mqtt.valid_topic topic ≡ b
      → ltb max_payload (length payload) ≡ c
      → (a || (not b || c)) ≡ true
      → Refuses mqtt topic payload is_retained before invalid_topic
  invalid true b c ea eb ec h = long_topic (ground (arith, ea))
  invalid false false c ea eb ec h = bad_topic eb
  invalid false true true ea eb ec h = large (ground (arith, ec))
  invalid false true false ea eb ec h = absurd (cc h)

-- In a hub whose clients stand in the order of their ids, for any client: when `publish`
-- succeeds, the packet has been written, and either none of the client's filters matches the
-- topic and the client is as before, or one of them matches and the client has the packet at the
-- end of its output, once, with nothing else changed, if the output is then of at most 4,096
-- bytes, and else has its output as before and its overflow flag set, with its filters unchanged.
-- When `publish` fails, the client is as before, and the error has its cause: a topic longer than
-- 128 bytes or not valid, or a payload of more than 2,048 bytes; or a payload to retain that is
-- not empty, for a topic that has none retained, while eight are; or a packet that cannot be
-- written.
pub publish-Reaches :
    (mqtt : Mqtt) (topic payload : Bytes) (is_retained : Bool) (hub : Hub) (id : ℕ)
    (client : Subscriber)
    → IsSorted hub.clients
    → get id hub.clients ≡ some client
    → Reaches mqtt topic payload is_retained hub id client
        (publish mqtt topic payload is_retained hub)
unfolding publish
publish-Reaches mqtt topic payload is_retained hub id client sorted e =
    guarded-Shows mqtt topic payload is_retained hub id client
      (ltb 128 (length topic) || (not (mqtt.valid_topic topic) || ltb max_payload (length payload)))
      (invalid mqtt topic payload is_retained hub id client _ _ _ refl refl refl) sorted e
