-- ===== src/Cloud/Hub/Kept.antt =====
-- Publishing and subscribing keep the bounds of the hub, on errors too.
use mastomini.Store.Key.{is_empty}
use mathlib.Core.Path.{subst}
use mastomini.Prelude.Ord.{nat_ord, pair_ord, list_ord}
use mastomini.Prelude.Map.{get, insert, remove, contains_key}
use mastomini.Prelude.{
  ◌≢◌, length-append, ℕ, ◌≡◌, refl, Bool, true, false, Option, none, some, List, [], ◌∷◌, ◌++◌,
  Result, ok, err, if◌then◌else◌, inl, inr, arith, ◌≤◌, length, ltb, not, ◌==◌, ◌&&◌, ◌||◌,
  Option-cases, ◌<◌, leb,
}
use mastomini.Prelude.Bytes.{Bytes}
use mastomini.Prelude.Map.Order.{insert-IsSorted, remove-IsSorted}
use mastomini.Cloud.Hub.{
  Hub, Subscriber, Refusal, max_payload, queue, queue_all, retain, deliver, publish, admit_filter,
  admit_each, retained_packets, replay_retained, answer, readers, is_shared, has_filter,
  topic_limit, protocol, invalid_topic, Mqtt, Admission, subscribe, missing_client,
  invalid_subscribe, call, calls, has_none, Call, added, removed, queued, published, subscribed,
}
use mastomini.Cloud.Hub.Bounds.{
  IsBounded, same-key, still, ltb-false, length-insert_new, length-insert_old, length-remove,
  placed-IsBounded, queue-IsBounded, queue_all-IsBounded, add-IsBounded, remove_client-IsBounded,
}

abbrev OkBounded : Result Refusal Hub → Type 0
OkBounded (ok hub) = IsBounded hub
OkBounded (err e) = Unit

kept-IsBounded :
    (topic payload : Bytes) (hub : Hub)
    → length topic ≤ 128
    → length payload ≤ max_payload
    → length (insert topic payload hub.retained) ≤ 8
    → IsBounded hub
    → IsBounded (record hub { retained = insert topic payload hub.retained })
kept-IsBounded topic payload hub short small few h = record {
  clients = h.clients;
  sorted = insert-IsSorted topic payload hub.retained h.sorted;
  number = few;
  payloads = λ t p e. elim (same-key topic t payload p hub.retained e) [
    | inl (at, same_payload) ↦ (
      subst (λ x. length x ≤ max_payload) same_payload small,
      subst (λ x. length x ≤ 128) at short,
    )
    | inr old ↦ h.payloads t p old
  ];
}

-- A new topic finds room, or replaces its own message.
few-topics :
    (topic payload : Bytes) (hub : Hub)
    → IsBounded hub
    → (not (contains_key topic hub.retained) && (length hub.retained == 8)) ≡ false
    → length (insert topic payload hub.retained) ≤ 8
unfolding contains_key
few-topics topic payload hub h free = elim (Option-cases (get topic hub.retained)) [
  | inr (old, e) ↦
      omega (arith, length-insert_old topic payload old hub.retained h.sorted e, h.number)
  | inl e ↦
      let room : (length hub.retained == 8) ≡ false = rw (e, contains_key) at free in
      omega (
        arith,
        length-insert_new topic payload hub.retained h.sorted,
        h.number,
        apart (length hub.retained) room,
      )
]
  where
    apart : (n : ℕ) → (n == 8) ≡ false → n ≢ 8
    apart n e = ground arith

retain-IsBounded :
    (topic payload : Bytes) (hub : Hub)
    → length topic ≤ 128
    → length payload ≤ max_payload
    → IsBounded hub
    → OkBounded (retain topic payload hub)
unfolding retain
retain-IsBounded topic payload hub short small h =
    split (is_empty payload) (not (contains_key topic hub.retained) && (length hub.retained == 8))
      refl
  where
    split :
        (none_left full : Bool)
        → (not (contains_key topic hub.retained) && (length hub.retained == 8)) ≡ full
        → OkBounded (
            if none_left
            then ok (record hub { retained = remove topic hub.retained })
            else if full
            then err topic_limit
            else ok (record hub { retained = insert topic payload hub.retained }))
    split true full e = record {
      clients = h.clients;
      sorted = remove-IsSorted topic hub.retained h.sorted;
      number = omega (arith, length-remove topic hub.retained h.sorted, h.number);
      payloads = λ t p held. h.payloads t p (still topic t p hub.retained held);
    }
    split false true e = tt
    split false false e =
        kept-IsBounded topic payload hub short small (few-topics topic payload hub h e) h

deliver-IsBounded :
    (mqtt : Mqtt) (topic payload : Bytes) (hub : Hub)
    → IsBounded hub
    → IsBounded (deliver mqtt topic payload hub).1
unfolding deliver
deliver-IsBounded mqtt topic payload hub h = go (mqtt.write_publish topic payload false)
  where
    go :
        (r : Result ℕ Bytes)
        → IsBounded
            (elim r as (λ _. Result Refusal (Unit {0}) × Hub) [
              | err e ↦ (err (protocol e), hub)
              | ok packet ↦ (ok tt, queue_all (readers mqtt topic hub.clients) packet hub)
            ]).1
    go (err e) = h
    go (ok packet) = queue_all-IsBounded (readers mqtt topic hub.clients) packet hub h

publish-IsBounded :
    (mqtt : Mqtt) (topic payload : Bytes) (is_retained : Bool) (hub : Hub)
    → IsBounded hub
    → IsBounded (publish mqtt topic payload is_retained hub).1
unfolding publish
publish-IsBounded mqtt topic payload is_retained hub h =
    split (ltb 128 (length topic)) (mqtt.valid_topic topic) (ltb max_payload (length payload)) refl
      refl
  where
    kept :
        (r : Result Refusal Hub)
        → OkBounded r
        → IsBounded
            (elim r as (λ _. Result Refusal (Unit {0}) × Hub) [
              | err e ↦ (err e, hub)
              | ok new ↦ deliver mqtt topic payload new
            ]).1
    kept (err e) b = h
    kept (ok new) b = deliver-IsBounded mqtt topic payload new b

    chosen :
        (flag : Bool)
        → length topic ≤ 128
        → length payload ≤ max_payload
        → OkBounded (if flag then retain topic payload hub else ok hub)
    chosen true short small = retain-IsBounded topic payload hub short small h
    chosen false short small = h

    split :
        (long valid large : Bool)
        → ltb 128 (length topic) ≡ long
        → ltb max_payload (length payload) ≡ large
        → IsBounded
            (if long || (not valid || large)
              then (err invalid_topic, hub)
              else elim (if is_retained then retain topic payload hub else ok hub)
                  as (λ _. Result Refusal (Unit {0}) × Hub) [
                    | err e ↦ (err e, hub)
                    | ok new ↦ deliver mqtt topic payload new
                  ]).1
    split true valid large el eg = h
    split false false large el eg = h
    split false true true el eg = h
    split false true false el eg = kept (if is_retained then retain topic payload hub else ok hub) (
        chosen is_retained (ltb-false 128 (length topic) el)
          (ltb-false max_payload (length payload) eg))

admit_filter-few :
    (mqtt : Mqtt) (path : Bytes) (a : Admission)
    → length a.filters ≤ 8
    → length (admit_filter mqtt path a).filters ≤ 8
unfolding admit_filter
admit_filter-few mqtt path a h =
    split (ltb 128 (length path)) (not (mqtt.valid_filter path)) (is_shared path)
      (leb 8 (length a.filters)) (has_filter path a.filters) refl
  where
    room : leb 8 (length a.filters) ≡ false → length (a.filters ++ (path ∷ [])) ≤ 8
    room e = omega (arith, length-append a.filters (path ∷ []), below (length a.filters) e)
      where
        below : (n : ℕ) → leb 8 n ≡ false → n < 8
        below n e = ground arith

    split :
        (p q r many known : Bool)
        → leb 8 (length a.filters) ≡ many
        → length
            (if p || (q || (r || many))
              then record a { codes = a.codes ++ (false ∷ []) }
              else record {
                filters = if known then a.filters else a.filters ++ (path ∷ []);
                codes = a.codes ++ (true ∷ []);
                added = a.added ++ (path ∷ []);
              }).filters
          ≤ 8
    split true q r many known e = h
    split false true r many known e = h
    split false false true many known e = h
    split false false false true known e = h
    split false false false false true e = h
    split false false false false false e = room e

admit_each-few :
    (mqtt : Mqtt) (paths : List Bytes) (a : Admission)
    → length a.filters ≤ 8
    → length (admit_each mqtt paths a).filters ≤ 8
unfolding admit_each
admit_each-few mqtt [] a h = h
admit_each-few mqtt (path ∷ paths) a h =
    admit_each-few mqtt paths (admit_filter mqtt path a) (admit_filter-few mqtt path a h)

replay_retained-IsBounded :
    (mqtt : Mqtt) (id : ℕ) (new : List Bytes) (hub : Hub)
    → IsBounded hub
    → IsBounded (replay_retained mqtt id new hub).1
unfolding replay_retained
replay_retained-IsBounded mqtt id new hub h = go (retained_packets mqtt new hub.retained)
  where
    go :
        (r : Result ℕ Bytes)
        → IsBounded
            (elim r as (λ _. Result Refusal (Unit {0}) × Hub) [
              | err e ↦ (err (protocol e), hub)
              | ok packets ↦ (ok tt, queue id packets hub)
            ]).1
    go (err e) = h
    go (ok packets) = queue-IsBounded id packets hub h

answer-IsBounded :
    (mqtt : Mqtt) (id pkid : ℕ) (a : Admission) (hub : Hub)
    → IsBounded hub
    → IsBounded (answer mqtt id pkid a hub).1
unfolding answer
answer-IsBounded mqtt id pkid a hub h = go (mqtt.write_suback pkid a.codes)
  where
    go :
        (r : Result ℕ Bytes)
        → IsBounded
            (elim r as (λ _. Result Refusal (Unit {0}) × Hub) [
              | err e ↦ (err (protocol e), hub)
              | ok ack ↦ replay_retained mqtt id a.added (queue id ack hub)
            ]).1
    go (err e) = h
    go (ok ack) =
        replay_retained-IsBounded mqtt id a.added (queue id ack hub) (queue-IsBounded id ack hub h)

subscribe-IsBounded :
    (mqtt : Mqtt) (id pkid : ℕ) (paths : List Bytes) (hub : Hub)
    → IsBounded hub
    → IsBounded (subscribe mqtt id pkid paths hub).1
unfolding subscribe
subscribe-IsBounded mqtt id pkid paths hub h = go (get id hub.clients) refl
  where
    admitted : Subscriber → Admission
    admitted client =
        admit_each mqtt paths (record { filters = client.filters; codes = []; added = [] })

    split :
        (bad : Bool) (client : Subscriber)
        → get id hub.clients ≡ some client
        → IsBounded
            (if bad
              then (err invalid_subscribe, hub)
              else answer mqtt id pkid (admitted client) (record hub {
                clients =
                    insert id (record client { filters = (admitted client).filters }) hub.clients;
              })).1
    split true client e = h
    split false client e = answer-IsBounded mqtt id pkid (admitted client) _ (
        placed-IsBounded id (record client { filters = (admitted client).filters }) hub
          (record {
            output = (h.clients id client e).output;
            filters =
                admit_each-few mqtt paths
                  (record { filters = client.filters; codes = []; added = [] })
                  (h.clients id client e).filters;
          })
          h)

    go :
        (o : Option Subscriber)
        → get id hub.clients ≡ o
        → IsBounded
            (elim o as (λ _. Result Refusal (Unit {0}) × Hub) [
              | none ↦ (err missing_client, hub)
              | some client ↦
                  if has_none paths || (pkid == 0)
                  then (err invalid_subscribe, hub)
                  else answer mqtt id pkid (admitted client) (record hub {
                    clients =
                        insert id
                          (record client { filters = (admitted client).filters })
                          hub.clients;
                  })
            ]).1
    go none e = h
    go (some client) e = split (has_none paths || (pkid == 0)) client e

call-IsBounded : (mqtt : Mqtt) (c : Call) (hub : Hub) → IsBounded hub → IsBounded (call mqtt c hub)
unfolding call
call-IsBounded mqtt (added id) hub h = add-IsBounded id hub h
call-IsBounded mqtt (removed id) hub h = remove_client-IsBounded id hub h
call-IsBounded mqtt (queued id bytes) hub h = queue-IsBounded id bytes hub h
call-IsBounded mqtt (published topic payload flag) hub h =
    publish-IsBounded mqtt topic payload flag hub h
call-IsBounded mqtt (subscribed id pkid paths) hub h = subscribe-IsBounded mqtt id pkid paths hub h

-- Whatever the functions of mqttbytes are: if in a hub every client has at most 4096 bytes of
-- output and at most eight filters, and at most eight messages are retained, in the order of
-- their topics, with topics of at most 128 bytes and payloads of at most 2048, then all this
-- holds after any sequence of adding, removing, queuing, publishing and subscribing, whatever
-- each of them returned.
pub calls-IsBounded :
    (mqtt : Mqtt) (cs : List Call) (hub : Hub) → IsBounded hub → IsBounded (calls mqtt cs hub)
unfolding calls
calls-IsBounded mqtt [] hub h = h
calls-IsBounded mqtt (c ∷ cs) hub h =
    calls-IsBounded mqtt cs (call mqtt c hub) (call-IsBounded mqtt c hub h)
