-- ===== src/Tests/Bus.antt =====
-- The properties of the bus client at concrete inputs.
use jet_core_service_bus.Prelude.{[], ◌≡◌, refl, some, [], ◌∷◌, arith, ap}
use jet_core_service_bus.Python.Exception.{ok}
use jet_core_service_bus.Python.Json.{Json}
use jet_core_service_bus.Jetcore.Envelope.{Event, Fresh, to_wire}
use jet_core_service_bus.Jetcore.Platform.{Msg}
use jet_core_service_bus.Jetcore.Registry.{lookup_signing_key, signing_key_in}
use jet_core_service_bus.Jetcore.BusClient.{process, ReceivedEvent, Client}
use jet_core_service_bus.Jetcore.BusClient.Sealing.{seal, make_event}
use jet_core_service_bus.Jetcore.BusClient.Channel.{process-event}
use jet_core_service_bus.Jetcore.BusClient.Receive.{IsAuthentic, process-IsAuthentic}
use jet_core_service_bus.Jetcore.BusClient.Order.{Sublist, process_all-Sublist}
use jet_core_service_bus.Jetcore.BusClient.Frame.{fetch-Keeps}
use jet_core_service_bus.Jetcore.BusClient.{process_all, fetch}
use jet_core_service_bus.Jetcore.Crypto.{sign}
use jet_core_service_bus.Tests.Characters.{decode_text, encode_text}
use jet_core_service_bus.Python.Json.{get_item}
use jet_core_service_bus.Tests.Codec.{parse, dump}
use jet_core_service_bus.Tests.Libraries.{
  test_pydantic-IsFaithful, test_primitives-IsSound, key_bytes, public_text-IsUserKey,
}
use jet_core_service_bus.Tests.World.{test_outside, test_client, sender, receiver, publication}

abbrev pub fresh_values : Fresh
fresh_values = record { new_event_id = "e1"; utc_now = 3 }

abbrev pub sent : Event
sent = make_event sender publication fresh_values (104 ∷ 105 ∷ []) ("receiver-key" ∷ []) (2 ∷ [])

abbrev pub sent_msg : Msg
sent_msg = record {
  subject = "orders";
  bytes = to_wire test_outside.pydantic sent;
  reply = "r";
  num_delivered = 1;
}

sealed :
    seal test_outside.primitives (Json.str "receiver-key" ∷ []) publication.payload
    ≡ ok (104 ∷ 105 ∷ [], "receiver-key" ∷ [])
unfolding seal
sealed = refl

signed : sign test_outside.primitives sender.signing_seed publication.payload ≡ ok (2 ∷ [])
unfolding sign
signed = refl

known :
    (lookup_signing_key test_outside.json test_outside.platform "sender"
      (test_outside.platform.fresh test_client.state).1).0
    ≡ ok (some sender.signing_public_key)
unfolding lookup_signing_key signing_key_in parse dump decode_text encode_text get_item
known = refl

process-event_example :
    (process test_outside receiver sent_msg test_client).0
    ≡ ok (record { event = sent; payload = publication.payload; msg = sent_msg })
process-event_example =
    process-event test_outside test_pydantic-IsFaithful test_primitives-IsSound sender receiver
      publication fresh_values (Json.str "receiver-key" ∷ []) (104 ∷ 105 ∷ []) ("receiver-key" ∷ [])
      (2 ∷ []) sealed signed (omega arith, (omega arith, tt)) refl key_bytes public_text-IsUserKey
      refl sent_msg test_client refl known

abbrev pub received : ReceivedEvent
received = record { event = sent; payload = publication.payload; msg = sent_msg }

processed :
    process test_outside receiver sent_msg test_client
    ≡ (ok received, (process test_outside receiver sent_msg test_client).1)
processed =
    ap (λ r. (r, (process test_outside receiver sent_msg test_client).1)) process-event_example

process-IsAuthentic_example : IsAuthentic test_outside receiver sent_msg test_client received
process-IsAuthentic_example =
    process-IsAuthentic test_outside receiver sent_msg test_client received
      (process test_outside receiver sent_msg test_client).1 processed

all_processed :
    (process_all test_outside receiver (sent_msg ∷ []) test_client).0 ≡ ok (received ∷ [])
unfolding process_all
all_processed = rw process-event_example refl

process_all-Sublist_example : Sublist (sent_msg ∷ []) (sent_msg ∷ [])
process_all-Sublist_example =
    process_all-Sublist test_outside receiver (sent_msg ∷ []) test_client (received ∷ [])
      all_processed

abbrev subscribed : Client test_outside
subscribed = record test_client { subscriptions = ("d", "d") ∷ [] }

fetch-Keeps_example : (fetch test_outside receiver "d" 10 5000 subscribed).1.state.sent ≡ []
fetch-Keeps_example =
    fetch-Keeps test_outside receiver (λ w. w.sent ≡ []) (λ w h. h) (λ bucket key w h. h)
      (λ sub batch timeout w h. h) "d" 10 5000 subscribed refl
