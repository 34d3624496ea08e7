-- ===== src/Tests/Orders.antt =====
-- The properties of the orders endpoint and of the order handler at concrete inputs.
use jet_core_service_bus.Prelude.{some, ◌≡◌, refl, none, [], ◌∷◌, arith, String, true}
use jet_core_service_bus.Python.Dict
use jet_core_service_bus.Python.Equality.{string_eq}
use jet_core_service_bus.RestApi.PendingReplies.{no_replies}
use jet_core_service_bus.RestApi.Orders.{Api, create_order}
use jet_core_service_bus.RestApi.Orders.Cleanup.{create_order-unregisters}
use jet_core_service_bus.Python.Exception.{Exception, ok}
use jet_core_service_bus.Python.Exec.Hoare.{Ends}
use jet_core_service_bus.Jetcore.Bus.{Bus}
use jet_core_service_bus.Jetcore.BusClient.Sealing.{Publication}
use jet_core_service_bus.Jetcore.BusClient.{ReceivedEvent}
use jet_core_service_bus.DbAdapter.Payloads.{OrderCreatedRequest, decode_order_created}
use jet_core_service_bus.DbAdapter.Payloads.Decoding.{order_created, decode_order_created-dumps}
use jet_core_service_bus.DbAdapter.Write.{Database, handle}
use jet_core_service_bus.DbAdapter.Write.Settlement.{
  OrderProtocol, OrderSettled, OrderOpen, handle-OrderSettled,
}
use jet_core_service_bus.Tests.Codec.{dump}
use jet_core_service_bus.Tests.Bus.{received}
use jet_core_service_bus.Tests.Libraries.{test_json, test_json-RoundTrips}
use jet_core_service_bus.Tests.Files.{Stage, test_bus}

abbrev idle : Api Stage
idle = record { replies = no_replies; state = Stage.pending }

create_order-unregisters_example :
    Dict.lookup "id"
      (create_order test_json test_bus 3000
        (λ ms a. (true, a))
        (104 ∷ [])
        5000
        none
        idle).1.replies.pending
    ≡ none
create_order-unregisters_example =
    create_order-unregisters test_json test_bus 3000 (λ ms a. (true, a)) (104 ∷ []) 5000 none
      (omega arith) idle "id" Stage.published refl

-- How far the handling of one order is
data Storing : Type 0 where
  arrived : Storing
  failed : OrderCreatedRequest → Exception → Storing
  stored : OrderCreatedRequest → Storing
  stamped : OrderCreatedRequest → String → Storing
  published : OrderCreatedRequest → String → Publication → Storing
  completed : OrderCreatedRequest → String → Publication → Storing
  rejected : Storing
  retried : OrderCreatedRequest → Exception → Storing

abbrev stamped_order : Storing → Storing
stamped_order (stored request) = stamped request "now"
stamped_order s = s

abbrev published_order : Publication → Storing → Storing
published_order sent (stamped request now) = published request now sent
published_order sent s = s

abbrev acked_order : Storing → Storing
acked_order (published request now sent) = completed request now sent
acked_order _ = rejected

abbrev given_back : Storing → Storing
given_back (failed request e) = retried request e
given_back s = s

abbrev database : Database Storing
database = record {
  upsert = λ request s. (ok tt, stored request);
  now_iso = λ s. ("now", stamped_order s);
}

abbrev bus : Bus Storing
bus = record {
  publish = λ p s. (ok "id", published_order p s);
  subscribe = λ subject name s. (ok "d", s);
  fetch = λ name batch timeout s. (ok [], s);
  ack = λ e s. (ok tt, acked_order s);
  nak = λ e s. (ok tt, given_back s);
}

abbrev order : ReceivedEvent
order = record received { payload = dump (order_created "o-1" "tea" none) }

test_order_protocol : OrderProtocol database bus order
test_order_protocol = record {
  Received = λ s. s ≡ arrived;
  Failed = λ request e s. s ≡ failed request e;
  Stored = λ request s. s ≡ stored request;
  Stamped = λ request now s. s ≡ stamped request now;
  Published = λ request now sent s. s ≡ published request now sent;
  Completed = λ request now sent s. s ≡ completed request now sent;
  Rejected = λ s. s ≡ rejected;
  Retried = λ request e s. s ≡ retried request e;
  upsert = λ request s h. refl;
  now_iso = λ request s h. rw h refl;
  publish = λ request now sent s h. rw h refl;
  complete = λ request now sent s h. rw h refl;
  reject = λ s h. rw h refl;
  retry = λ request e held s h. rw h refl;
}

handle-OrderSettled_example :
    Ends
      (λ _. OrderSettled test_json database bus order test_order_protocol)
      (λ _. OrderOpen test_json database bus order test_order_protocol)
      (handle test_json database bus order arrived)
unfolding test_order_protocol
handle-OrderSettled_example =
    handle-OrderSettled test_json database bus order test_order_protocol arrived refl

decode_order_created-dumps_example :
    decode_order_created test_json (test_json.dumps (order_created "o-1" "tea" (some 2)))
    ≡ ok (record { order_id = "o-1"; item = "tea"; quantity = 3 })
decode_order_created-dumps_example =
    decode_order_created-dumps test_json test_json-RoundTrips "o-1" "tea" (some 2) refl refl
