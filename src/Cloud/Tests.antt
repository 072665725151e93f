-- ===== src/Cloud/Tests.antt =====
-- The hub at concrete inputs.
use mastomini.Prelude.Map.{get}
use mastomini.Prelude.Ord.{nat_ord, pair_ord}
use mastomini.Prelude.{◌≡◌, refl, true, false, some, List, [], ◌∷◌, ◌++◌, ok, arith}
use mastomini.Prelude.Bytes.{bytes_eq}
use mastomini.Cloud.Hub.{Hub, Mqtt, Call, Subscriber, added, subscribed, published, calls, publish}
use mastomini.Cloud.Hub.Bounds.{IsBounded}
use mastomini.Cloud.Hub.Kept.{calls-IsBounded}
use mastomini.Cloud.Hub.Outcome.{Reaches}
use mastomini.Cloud.Hub.Routing.{publish-Reaches}

-- Topics are matched by equality; a packet is the topic and the payload.
abbrev plain : Mqtt
plain = record {
  valid_topic = λ topic. true;
  valid_filter = λ filter. true;
  matches = λ topic filter. bytes_eq topic filter;
  write_publish = λ topic payload retained. ok (topic ++ payload);
  write_suback = λ pkid codes. ok (pkid ∷ []);
}

abbrev idle : Hub
idle = record { clients = []; retained = [] }

idle-IsBounded : IsBounded idle
unfolding get
idle-IsBounded = record {
  clients = λ id client e. absurd (cc e);
  sorted = tt;
  number = omega arith;
  payloads = λ topic payload e. absurd (cc e);
}

abbrev morning : List Call
morning =
    added 4 ∷ subscribed 4 1 ((97 ∷ 98 ∷ []) ∷ []) ∷ published (97 ∷ 98 ∷ []) (1 ∷ 2 ∷ []) true ∷ []

calls-IsBounded_example : IsBounded (calls plain morning idle)
calls-IsBounded_example = calls-IsBounded plain morning idle idle-IsBounded

abbrev listener : Subscriber
listener = record { filters = (97 ∷ 98 ∷ []) ∷ []; output = []; overflow = false }

abbrev attended : Hub
attended = record { clients = (4, listener) ∷ []; retained = [] }

listening : get 4 attended.clients ≡ some listener
unfolding get
listening = refl

publish-Reaches_example :
    Reaches plain
      (97 ∷ 98 ∷ [])
      (7 ∷ [])
      true
      attended
      4
      listener
      (publish plain (97 ∷ 98 ∷ []) (7 ∷ []) true attended)
publish-Reaches_example =
    publish-Reaches plain (97 ∷ 98 ∷ []) (7 ∷ []) true attended 4 listener (tt, tt) listening
