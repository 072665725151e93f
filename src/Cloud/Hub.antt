-- ===== src/Cloud/Hub.antt =====
-- The message hub of the cloud: `Hub` of minicloud_rs/src/broker.rs. The crate mqttbytes, which
-- tests topics and filters and writes packets, is a record of functions. A method returns its
-- result and the hub as it leaves it, on errors too.
pub mod Bounds
pub mod Kept
pub mod Outcome
pub mod Readers
pub mod Routing
use mastomini.Prelude.{
  ℕ, ◌+◌, Bool, true, false, ◌&&◌, ◌||◌, not, Option, none, some, List, [], ◌∷◌, ◌++◌, ◌==◌, ltb,
  leb, length, take, if◌then◌else◌, Result, ok, err,
}
use mastomini.Prelude.Bytes.{Bytes, bytes_eq}
use mastomini.Prelude.Ord.{nat_ord, list_ord}
use mastomini.Prelude.Map.{Map, get, insert, remove, contains_key}
use mastomini.Store.Key.{is_empty}

abbrev pub output_limit : ℕ
output_limit = 4096

-- `MAX_PAYLOAD`
abbrev pub max_payload : ℕ
max_payload = 2048

pub record Subscriber : Type 0 where
  pub filters : List Bytes
  pub output : Bytes
  pub overflow : Bool

pub record Hub : Type 0 where
  pub clients : Map ℕ Subscriber
  pub retained : Map Bytes Bytes

-- A status and a message.
pub data Refusal : Type 0 where
  invalid_topic topic_limit missing_client invalid_subscribe : Refusal
  protocol : ℕ → Refusal

-- The functions of mqttbytes. A packet that cannot be written gives the error's number.
pub record Mqtt : Type 0 where
  pub valid_topic : Bytes → Bool
  pub valid_filter : Bytes → Bool
  pub matches : Bytes → Bytes → Bool
  pub write_publish : Bytes → Bytes → Bool → Result ℕ Bytes
  pub write_suback : ℕ → List Bool → Result ℕ Bytes

-- `Subscriber::default()`
abbrev pub new_subscriber : Subscriber
new_subscriber = record { filters = []; output = []; overflow = false }

unfoldable pub add : ℕ → Hub → Hub
add id hub = record hub { clients = insert id new_subscriber hub.clients }

unfoldable pub remove_client : ℕ → Hub → Hub
remove_client id hub = record hub { clients = remove id hub.clients }

-- Bytes that do not fit are not queued: the client is to be dropped.
unfoldable pub queue_for : Bytes → Subscriber → Subscriber
queue_for bytes client =
    if ltb output_limit (length client.output + length bytes)
    then record client { overflow = true }
    else record client { output = client.output ++ bytes }

-- What `get_mut` gives is written back in its place.
unfoldable pub queue : ℕ → Bytes → Hub → Hub
unfolding queue_for
queue id bytes hub = elim (get id hub.clients) [
  | none ↦ hub
  | some client ↦ record hub { clients = insert id (queue_for bytes client) hub.clients }
]

abbrev pub any_matches : Mqtt → Bytes → List Bytes → Bool
any_matches mqtt topic [] = false
any_matches mqtt topic (f ∷ fs) = mqtt.matches topic f || any_matches mqtt topic fs

abbrev pub readers : Mqtt → Bytes → Map ℕ Subscriber → List ℕ
readers mqtt topic [] = []
readers mqtt topic ((id, client) ∷ m) =
    let rest = readers mqtt topic m in
    if any_matches mqtt topic client.filters then id ∷ rest else rest

unfoldable pub queue_all : List ℕ → Bytes → Hub → Hub
unfolding queue
queue_all [] bytes hub = hub
queue_all (id ∷ ids) bytes hub = queue_all ids bytes (queue id bytes hub)

-- The retained message of a topic, before the packet is written.
unfoldable pub retain : Bytes → Bytes → Hub → Result Refusal Hub
retain topic payload hub =
    if is_empty payload
    then ok (record hub { retained = remove topic hub.retained })
    else if not (contains_key topic hub.retained) && (length hub.retained == 8)
    then err topic_limit
    else ok (record hub { retained = insert topic payload hub.retained })

unfoldable pub deliver : Mqtt → Bytes → Bytes → Hub → Result Refusal (Unit {0}) × Hub
unfolding queue_all
deliver mqtt topic payload hub = elim (mqtt.write_publish topic payload false) [
  | err e ↦ (err (protocol e), hub)
  | ok packet ↦ (ok tt, queue_all (readers mqtt topic hub.clients) packet hub)
]

unfoldable pub publish : Mqtt → Bytes → Bytes → Bool → Hub → Result Refusal (Unit {0}) × Hub
unfolding retain deliver
publish mqtt topic payload is_retained hub =
    if ltb 128 (length topic) || (not (mqtt.valid_topic topic) || ltb max_payload (length payload))
    then (err invalid_topic, hub)
    else elim (if is_retained then retain topic payload hub else ok hub) [
      | err e ↦ (err e, hub)
      | ok kept ↦ deliver mqtt topic payload kept
    ]

-- `starts_with("$share/")`
abbrev pub is_shared : Bytes → Bool
is_shared path = bytes_eq (take 7 path) (36 ∷ 115 ∷ 104 ∷ 97 ∷ 114 ∷ 101 ∷ 47 ∷ [])

abbrev pub has_filter : Bytes → List Bytes → Bool
has_filter path [] = false
has_filter path (f ∷ fs) = bytes_eq f path || has_filter path fs

abbrev pub has_none : List Bytes → Bool
has_none [] = true
has_none (_ ∷ _) = false

-- The filters of the client, the codes of the answer, and the filters that were admitted.
pub record Admission : Type 0 where
  pub filters : List Bytes
  pub codes : List Bool
  pub added : List Bytes

unfoldable pub admit_filter : Mqtt → Bytes → Admission → Admission
admit_filter mqtt path a =
    if ltb 128 (length path)
      || (not (mqtt.valid_filter path) || (is_shared path || leb 8 (length a.filters)))
    then record a { codes = a.codes ++ (false ∷ []) }
    else record {
      filters = if has_filter path a.filters then a.filters else a.filters ++ (path ∷ []);
      codes = a.codes ++ (true ∷ []);
      added = a.added ++ (path ∷ []);
    }

unfoldable pub admit_each : Mqtt → List Bytes → Admission → Admission
unfolding admit_filter
admit_each mqtt [] a = a
admit_each mqtt (path ∷ paths) a = admit_each mqtt paths (admit_filter mqtt path a)

-- The packets of the retained messages; the first one that cannot be written ends the loop.
unfoldable pub retained_packets : Mqtt → List Bytes → Map Bytes Bytes → Result ℕ Bytes
retained_packets mqtt added [] = ok []
retained_packets mqtt added ((topic, payload) ∷ m) =
    let rest = retained_packets mqtt added m in
    if any_matches mqtt topic added
    then elim (mqtt.write_publish topic payload true) [
      | err e ↦ err e
      | ok packet ↦ elim rest [ err e ↦ err e | ok packets ↦ ok (packet ++ packets) ]
    ]
    else rest

-- What follows the answer: the retained messages.
unfoldable pub replay_retained : Mqtt → ℕ → List Bytes → Hub → Result Refusal (Unit {0}) × Hub
unfolding retained_packets queue
replay_retained mqtt id added hub = elim (retained_packets mqtt added hub.retained) [
  | err e ↦ (err (protocol e), hub)
  | ok packets ↦ (ok tt, queue id packets hub)
]

unfoldable pub answer : Mqtt → ℕ → ℕ → Admission → Hub → Result Refusal (Unit {0}) × Hub
unfolding replay_retained queue
answer mqtt id pkid a hub = elim (mqtt.write_suback pkid a.codes) [
  | err e ↦ (err (protocol e), hub)
  | ok ack ↦ replay_retained mqtt id a.added (queue id ack hub)
]

unfoldable pub subscribe : Mqtt → ℕ → ℕ → List Bytes → Hub → Result Refusal (Unit {0}) × Hub
unfolding admit_each answer
subscribe mqtt id pkid paths hub = elim (get id hub.clients) [
  | none ↦ (err missing_client, hub)
  | some client ↦
      let a = admit_each mqtt paths (record { filters = client.filters; codes = []; added = [] }) in
      if has_none paths || (pkid == 0)
      then (err invalid_subscribe, hub)
      else answer mqtt id pkid a
          (record hub { clients = insert id (record client { filters = a.filters }) hub.clients })
]

pub data Call : Type 0 where
  added removed : ℕ → Call
  queued : ℕ → Bytes → Call
  published : Bytes → Bytes → Bool → Call
  subscribed : ℕ → ℕ → List Bytes → Call

-- The hub after a call, whatever it returned.
unfoldable pub call : Mqtt → Call → Hub → Hub
unfolding add remove_client queue publish subscribe
call mqtt (added id) hub = add id hub
call mqtt (removed id) hub = remove_client id hub
call mqtt (queued id bytes) hub = queue id bytes hub
call mqtt (published topic payload is_retained) hub = (publish mqtt topic payload is_retained hub).1
call mqtt (subscribed id pkid paths) hub = (subscribe mqtt id pkid paths hub).1

unfoldable pub calls : Mqtt → List Call → Hub → Hub
unfolding call
calls mqtt [] hub = hub
calls mqtt (c ∷ cs) hub = calls mqtt cs (call mqtt c hub)
