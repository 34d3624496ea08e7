-- ===== src/Jetcore/BusClient/Publish.antt =====
-- What a `publish` that returns has sent (bus_client.py, `publish`).
use jet_core_service_bus.Prelude.{◌≡◌, none, String, inl, inr, arith, List}
use jet_core_service_bus.Python.Exception.{Result, ok, Result-cases}
use jet_core_service_bus.Python.Json.{Bytes}
use jet_core_service_bus.Jetcore.Envelope.{Event, Fresh, to_wire}
use jet_core_service_bus.Jetcore.Crypto.{sign}
use jet_core_service_bus.Jetcore.Platform.{PubAck}
use jet_core_service_bus.Jetcore.Registry.Cache.{RecipientCache, current}
use jet_core_service_bus.Jetcore.BusClient.{
  Outside, Client, cache_for, publish, published_id, outside,
}
use jet_core_service_bus.Jetcore.BusClient.Sealing.{Account, Publication, seal, make_event}

module _ (O : Outside) (sender : Account) (p : Publication) (c : Client O) where
  -- The client once the cache is there, and the state behind it once the fresh values are drawn
  abbrev pub cached : Client O
  cached = (cache_for O p.subject c).1

  abbrev pub fresh : Fresh
  fresh = (O.platform.fresh cached.state).0

  abbrev pub drawn : O.platform.State
  drawn = (O.platform.fresh cached.state).1

  abbrev pub sent_event : Bytes → List String → Bytes → Event
  sent_event ciphertext keys signature = make_event sender p fresh ciphertext keys signature

  abbrev pub transmission : Event → Result PubAck × O.platform.State
  transmission event =
      O.platform.js_publish p.subject (to_wire O.pydantic event) p.msg_id none drawn

  -- One message went to the stream, with the caller's message id: the payload is sealed for the
  -- recipients that the cache held, and signed with the sender's seed.
  pub record HasSent (id : String) (c' : Client O) : Type 0 where
    pub cache : RecipientCache
    pub found : (cache_for O p.subject c).0 ≡ ok cache
    pub ciphertext : Bytes
    pub keys : List String
    pub sealed : seal O.primitives (current cache) p.payload ≡ ok (ciphertext, keys)
    pub signature : Bytes
    pub signed : sign O.primitives sender.signing_seed p.payload ≡ ok signature
    pub pub_ack : PubAck
    pub acked : (transmission (sent_event ciphertext keys signature)).0 ≡ ok pub_ack
    pub returned :
        published_id O fresh.new_event_id pub_ack
          (record cached { state = (transmission (sent_event ciphertext keys signature)).1 })
        ≡ (ok id, c')

  -- When `publish` returns an id, one event was transmitted: its payload sealed for the recipients
  -- of the cache, signed with the sender's seed, under the caller's message id, and acknowledged;
  -- the id comes from that acknowledgement.
  pub publish-HasSent :
      (id : String) (c' : Client O) → publish O sender p c ≡ (ok id, c') → HasSent id c'
  unfolding publish outside
  publish-HasSent id c' h = elim (Result-cases (cache_for O p.subject c).0) [
    | inr (x, failed) ↦ absurd (ground arith)
    | inl (cache, found) ↦ elim (Result-cases (seal O.primitives (current cache) p.payload)) [
      | inr (x, failed) ↦ absurd (ground arith)
      | inl ((ciphertext, keys), sealed) ↦
          elim (Result-cases (sign O.primitives sender.signing_seed p.payload)) [
            | inr (x, failed) ↦ absurd (ground arith)
            | inl (signature, signed) ↦
                elim (Result-cases (transmission (sent_event ciphertext keys signature)).0) [
                  | inr (x, failed) ↦ absurd (ground arith)
                  | inl (pub_ack, acked) ↦ record {
                    cache = cache;
                    found = found;
                    ciphertext = ciphertext;
                    keys = keys;
                    sealed = sealed;
                    signature = signature;
                    signed = signed;
                    pub_ack = pub_ack;
                    acked = acked;
                    returned = ground arith;
                  }
                ]
          ]
    ]
  ]
