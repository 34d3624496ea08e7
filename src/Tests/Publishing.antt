-- ===== src/Tests/Publishing.antt =====
-- Two publications with one message id, in the memory bus.
use jet_core_service_bus.Prelude.{◌≡◌, refl, some, [], ◌∷◌, true, false, String, ap, none}
use jet_core_service_bus.Python.Dict.{lookup, insert, values}
use jet_core_service_bus.Python.Exception.{ok}
use jet_core_service_bus.Python.Json.{Json, get_item}
use jet_core_service_bus.Jetcore.Crypto.{sign}
use jet_core_service_bus.Jetcore.Envelope.{to_wire, from_wire}
use jet_core_service_bus.Jetcore.Registry.{watch}
use jet_core_service_bus.Jetcore.Registry.Cache.{RecipientCache, start, current}
use jet_core_service_bus.Jetcore.BusClient.{Client, publish, cache_for, outside, published_id}
use jet_core_service_bus.Jetcore.BusClient.Sealing.{seal, make_event}
use jet_core_service_bus.Jetcore.BusClient.Publish.{
  HasSent, publish-HasSent, transmission, sent_event,
}
use jet_core_service_bus.Jetcore.BusClient.Idempotence.{publish-duplicate}
use jet_core_service_bus.Python.Base64.{b64encode}
use jet_core_service_bus.Tests.Characters.{decode_text, encode_text}
use jet_core_service_bus.Tests.Codec.{parse, dump}
use jet_core_service_bus.Tests.Libraries.{ticks, count, test_pydantic-IsFaithful}
use jet_core_service_bus.Tests.World.{position, test_outside, test_client, sender, publication}

abbrev after_first : Client test_outside
after_first = (publish test_outside sender publication test_client).1

published : (publish test_outside sender publication test_client).0 ≡ ok "t"
unfolding publish cache_for outside watch lookup start parse dump decode_text encode_text get_item
    seal current values insert sign position published_id ticks
published = refl

publish-HasSent_example : HasSent test_outside sender publication test_client "t" after_first
publish-HasSent_example =
    publish-HasSent test_outside sender publication test_client "t" after_first
      (ap (λ r. (r, after_first)) published)

abbrev cache : RecipientCache
cache = record {
  subject = "orders";
  entries = ("orders.receiver", Json.str "receiver-key") ∷ [];
  ready = true;
  failure = none;
}

first_sent : HasSent test_outside sender publication test_client "t" after_first
unfolding publish cache_for outside watch lookup start parse dump decode_text encode_text get_item
    seal current values insert sign position published_id ticks
first_sent = record {
  cache = cache;
  found = refl;
  ciphertext = 104 ∷ 105 ∷ [];
  keys = "receiver-key" ∷ [];
  sealed = refl;
  signature = 2 ∷ [];
  signed = refl;
  pub_ack = record { stream = "s"; seq = 0; duplicate = false };
  acked = refl;
  returned = refl;
}

after_second : Client test_outside
after_second = (publish test_outside sender publication after_first).1

second_sent : HasSent test_outside sender publication after_first "t" after_second
unfolding after_second publish cache_for outside watch lookup start parse dump decode_text
    encode_text get_item seal current values insert sign position published_id ticks from_wire
    to_wire make_event count b64encode
second_sent = record {
  cache = cache;
  found = refl;
  ciphertext = 104 ∷ 105 ∷ [];
  keys = "receiver-key" ∷ [];
  sealed = refl;
  signature = 2 ∷ [];
  signed = refl;
  pub_ack = record { stream = "s"; seq = 0; duplicate = true };
  acked = refl;
  returned = refl;
}

stored :
    (test_outside.platform.js_get_msg "s" 0
      (transmission test_outside sender publication after_first (
        sent_event test_outside sender publication after_first
          (104 ∷ 105 ∷ [])
          ("receiver-key" ∷ [])
          (2 ∷ []))).1).0
    ≡ ok (
        some (
          to_wire test_outside.pydantic (
            sent_event test_outside sender publication test_client
              (104 ∷ 105 ∷ [])
              ("receiver-key" ∷ [])
              (2 ∷ []))))
unfolding publish cache_for outside watch lookup start parse dump decode_text encode_text get_item
    seal current values insert sign position published_id ticks
stored = refl

-- What the two calls return
abbrev first_id : String
first_id = "t"

abbrev second_id : String
second_id = "t"

publish-duplicate_example : second_id ≡ first_id
unfolding first_sent second_sent
publish-duplicate_example =
    publish-duplicate test_outside test_pydantic-IsFaithful sender publication publication
      test_client after_first after_first after_second first_id second_id first_sent second_sent
      refl refl stored
