-- ===== src/Jetcore/BusClient/Idempotence.antt =====
-- A publication that JetStream has seen before (bus_client.py, the end of `publish`).
use jet_core_service_bus.Prelude.{◌≡◌, false, true, some, sym, ◌∙◌, String, arith}
use jet_core_service_bus.Python.Exception.{ok}
use jet_core_service_bus.Jetcore.Envelope.{IsFaithful, to_wire}
use jet_core_service_bus.Jetcore.Envelope.RoundTrip.{from_wire-to_wire}
use jet_core_service_bus.Jetcore.Platform.{PubAck}
use jet_core_service_bus.Jetcore.Envelope.{Event}
use jet_core_service_bus.Jetcore.BusClient.{Outside, Client, published_id, outside}
use jet_core_service_bus.Jetcore.BusClient.Sealing.{Account, Publication, make_event}
use jet_core_service_bus.Jetcore.BusClient.Publish.{HasSent, transmission, sent_event}

module _ (O : Outside) (faithful : IsFaithful O.pydantic) where
  published_id-new :
      (event_id id : String) (pub_ack : PubAck) (c c' : Client O)
      → pub_ack.duplicate ≡ false
      → published_id O event_id pub_ack c ≡ (ok id, c')
      → event_id ≡ id
  unfolding published_id
  published_id-new event_id id pub_ack c c' new h = ground arith

  published_id-duplicate :
      (event_id id : String) (pub_ack : PubAck) (c c' : Client O) (e : Event)
      → pub_ack.duplicate ≡ true
      → (O.platform.js_get_msg pub_ack.stream pub_ack.seq c.state).0
        ≡ ok (some (to_wire O.pydantic e))
      → published_id O event_id pub_ack c ≡ (ok id, c')
      → e.event.event_details.event_id ≡ id
  unfolding published_id outside
  published_id-duplicate event_id id pub_ack c c' e duplicate stored h =
      let again =
        from_wire-to_wire O.pydantic
          (O.platform.fresh (O.platform.js_get_msg pub_ack.stream pub_ack.seq c.state).1).0 e
          faithful in
      ground arith

  -- For faithful pydantic: when a first publication was new, and a second one is acknowledged as a
  -- duplicate whose stream position holds the message that the first one sent, the second returns
  -- the id of the first.
  pub publish-duplicate :
      (sender : Account) (p p' : Publication) (c c1 c2 c3 : Client O) (id id' : String)
      (first : HasSent O sender p c id c1) (second : HasSent O sender p' c2 id' c3)
      → first.pub_ack.duplicate ≡ false
      → second.pub_ack.duplicate ≡ true
      → (O.platform.js_get_msg second.pub_ack.stream second.pub_ack.seq
          (transmission O sender p' c2
            (sent_event O sender p' c2 second.ciphertext second.keys second.signature)).1).0
        ≡ ok (
            some (
              to_wire O.pydantic
                (sent_event O sender p c first.ciphertext first.keys first.signature)))
      → id' ≡ id
  unfolding make_event
  publish-duplicate sender p p' c c1 c2 c3 id id' first second new duplicate stored =
      sym (
        published_id-duplicate _ _ second.pub_ack _ c3
          (sent_event O sender p c first.ciphertext first.keys first.signature) duplicate stored
          second.returned)
      ∙ published_id-new _ _ first.pub_ack _ c1 new first.returned
