-- ===== src/Tests/World.antt =====
-- A message bus in memory: one stream, one registered recipient, one known sender.
use jet_core_service_bus.Prelude.{
  ℕ, suc, String, true, false, Option, none, some, List, [], ◌∷◌, ◌++◌, length, take, get_elem?,
  map, if◌then◌else◌, str_eq,
}
use jet_core_service_bus.Python.Exception.{Exception, Result, ok, err}
use jet_core_service_bus.Python.Json.{Bytes, Json, Fields}
use jet_core_service_bus.Jetcore.Platform.{Platform, PubAck, Msg, kv_put, caught_up, entry}
use jet_core_service_bus.Jetcore.BusClient.{Outside, Client}
use jet_core_service_bus.Jetcore.BusClient.Sealing.{Account, Publication}
use jet_core_service_bus.Tests.Codec.{dump}
use jet_core_service_bus.Tests.Libraries.{
  ticks, test_pydantic, test_primitives, test_json, public_text,
}

pub record World : Type 0 where
  pub sent : List (Option String × Bytes)
  pub draws : ℕ

abbrev pub empty_world : World
empty_world = record { sent = []; draws = 1 }

-- Where the id was sent before, from the given position on
unfoldable pub position : ℕ → Option String → List (Option String × Bytes) → Option ℕ
position i none sent = none
position i (some id) [] = none
position i (some id) ((none, bs) ∷ sent) = position (suc i) (some id) sent
position i (some id) ((some id', bs) ∷ sent) =
    let rest = position (suc i) (some id) sent in if str_eq id id' then some i else rest

abbrev pub ack_at : Option ℕ → Option String → Bytes → World → Result PubAck × World
ack_at (some i) id bs w = (ok (record { stream = "s"; seq = i; duplicate = true }), w)
ack_at none id bs w = (
  ok (record { stream = "s"; seq = length w.sent; duplicate = false }),
  record w { sent = w.sent ++ (id, bs) ∷ [] },
)

abbrev pub sent_bytes : Option (Option String × Bytes) → Result (Option Bytes)
sent_bytes (some (id, bs)) = ok (some bs)
sent_bytes none = err Exception.nats_error

abbrev pub as_msg : Option String × Bytes → Msg
as_msg (id, bs) = record { subject = "orders"; bytes = bs; reply = "r"; num_delivered = 1 }

abbrev pub identity_bytes : Bytes
identity_bytes = dump (Json.obj (Fields.field "signingPublicKey" (Json.str public_text) Fields.end))

abbrev pub registration_bytes : Bytes
registration_bytes =
    dump (Json.obj (Fields.field "encryptionPublicKey" (Json.str "receiver-key") Fields.end))

abbrev pub test_platform : Platform
test_platform = record {
  State = World;
  Subscription = String;
  connect = λ url creds w. (ok tt, w);
  close = λ w. (ok tt, w);
  read_bytes = λ path w. (ok [], w);
  generate_identity = λ w. ("receiver-key", w);
  key_value = λ bucket w. (ok tt, w);
  fresh = λ w. (
    record { new_event_id = ticks w.draws; utc_now = w.draws },
    record w { draws = suc w.draws },
  );
  now_isoformat = λ w. ("now", w);
  kv_put = λ bucket key value w. (ok tt, w);
  kv_delete = λ bucket key w. (ok tt, w);
  kv_get = λ bucket key w. (
    if str_eq key "sender" then ok (some identity_bytes) else err Exception.key_not_found_error,
    w,
  );
  kv_keys = λ bucket prefix w. (ok [], w);
  kv_watch = λ bucket pattern w.
      (ok (entry "orders.receiver" kv_put (some registration_bytes) ∷ caught_up ∷ []), w);
  sleep = λ ms w. (ok tt, w);
  js_publish = λ subject bs id ttl w. ack_at (position 0 id w.sent) id bs w;
  js_get_msg = λ stream seq w. (sent_bytes (get_elem? w.sent seq), w);
  pull_subscribe = λ subject name config w. (ok name, w);
  pull_fetch = λ sub batch timeout w. (ok (map as_msg (take batch w.sent)), w);
  msg_ack = λ msg w. (ok tt, w);
  msg_nak = λ msg delay w. (ok tt, w);
}

abbrev pub test_outside : Outside
test_outside = record {
  pydantic = test_pydantic;
  primitives = test_primitives;
  json = test_json;
  platform = test_platform;
}

abbrev pub test_client : Client test_outside
test_client = record {
  recipient_caches = [];
  subscriptions = [];
  background_tasks = [];
  state = empty_world;
}

abbrev pub sender : Account
sender = record {
  service_id = "sender";
  adapter_type = "test";
  encryption_keypair = record { private_key = "sender-key"; public_key = "sender-key" };
  signing_seed = "SU";
  signing_public_key = public_text;
}

abbrev pub receiver : Account
receiver = record {
  service_id = "receiver";
  adapter_type = "test";
  encryption_keypair = record { private_key = "receiver-key"; public_key = "receiver-key" };
  signing_seed = "SU";
  signing_public_key = public_text;
}

abbrev pub publication : Publication
publication = record {
  subject = "orders";
  payload = 104 ∷ 105 ∷ [];
  event_type = "OrderCreated";
  event_schema_version = "1.0.0";
  correlation_id = none;
  msg_id = some "k";
}
