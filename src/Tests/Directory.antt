-- ===== src/Tests/Directory.antt =====
-- The properties of the directory, of the wire format and of redelivery at concrete inputs.
use jet_core_service_bus.Prelude.{
  ℕ, ◌≡◌, ◌≤◌, refl, some, none, List, [], ◌∷◌, arith, false, ◌++◌, length,
}
use jet_core_service_bus.Python.Dict
use jet_core_service_bus.Python.Equality.{string_eq}
use jet_core_service_bus.Python.Exception.{ok}
use jet_core_service_bus.Python.Json.{Bytes, Json, get_item}
use jet_core_service_bus.Python.Base32.{b32decode}
use jet_core_service_bus.Jetcore.Crypto.{decode_nkey_public, padding}
use jet_core_service_bus.Jetcore.Crypto.Nkey.{
  decode-nkey_bytes, decode_nkey_public-IsChecked, IsChecked,
}
use jet_core_service_bus.Jetcore.Envelope.{from_wire, to_wire, Fresh}
use jet_core_service_bus.Jetcore.Envelope.RoundTrip.{from_wire-to_wire}
use jet_core_service_bus.Jetcore.Platform.{Update, caught_up, entry, kv_put, kv_del}
use jet_core_service_bus.Jetcore.Registry.Cache.{failed, new_cache, consume, public_key_of}
use jet_core_service_bus.Jetcore.Registry.Cache.Laws.{
  lookup-consume, consume_non_object, or_before, last_word,
}
use jet_core_service_bus.Jetcore.BusClient.{redelivery_delay}
use jet_core_service_bus.Jetcore.BusClient.Redelivery.{redelivery_delay_bounds}
use jet_core_service_bus.Tests.Characters.{decode_text, encode_text}
use jet_core_service_bus.Tests.Codec.{parse, dump}
use jet_core_service_bus.Tests.Libraries.{
  codes, test_json, test_pydantic, test_pydantic-IsFaithful, test_primitives, key_bytes,
  key_bytes-AreBytes, written_key, public_text,
}
use jet_core_service_bus.Tests.World.{registration_bytes}
use jet_core_service_bus.Tests.Bus.{sent}

abbrev other_fresh : Fresh
other_fresh = record { new_event_id = "e2"; utc_now = 4 }

from_wire-to_wire_example :
    from_wire test_pydantic other_fresh (to_wire test_pydantic sent) ≡ ok sent
from_wire-to_wire_example =
    from_wire-to_wire test_pydantic other_fresh sent test_pydantic-IsFaithful

decode-nkey_bytes_example : decode_nkey_public test_primitives public_text ≡ ok key_bytes
decode-nkey_bytes_example =
    decode-nkey_bytes test_primitives key_bytes key_bytes-AreBytes refl (omega arith) public_text
      written_key

read_key : decode_nkey_public test_primitives public_text ≡ ok key_bytes
unfolding decode_nkey_public codes b32decode
read_key = refl

decode_nkey_public-IsChecked_example :
    (raw : Bytes) × (b32decode (codes public_text ++ padding (length (codes public_text))) ≡ ok raw)
    × IsChecked test_primitives key_bytes raw
decode_nkey_public-IsChecked_example =
    decode_nkey_public-IsChecked test_primitives public_text key_bytes read_key

abbrev updates : List Update
updates =
    entry "orders.a" kv_put (some registration_bytes)
    ∷ caught_up
    ∷ entry "orders.b" kv_del none
    ∷ []

is_read : public_key_of test_json (some registration_bytes) ≡ ok (Json.str "receiver-key")
unfolding public_key_of parse dump decode_text encode_text get_item
is_read = refl

lookup-consume_example :
    (Dict.lookup "orders.a" (consume test_json (new_cache "orders") updates).entries
      ≡ or_before test_json
          (Dict.lookup "orders.a" (new_cache "orders").entries)
          (last_word test_json "orders.a" updates))
    × (failed (consume test_json (new_cache "orders") updates) ≡ false)
unfolding new_cache
lookup-consume_example =
    lookup-consume test_json "orders.a" updates (new_cache "orders")
      (rw is_read refl, (tt, (tt, tt))) refl

loaded_null : test_json.loads (dump Json.null) ≡ ok Json.null
unfolding parse dump
loaded_null = refl

consume_non_object_example :
    (consume test_json
      (new_cache "orders")
      (entry "orders.a" kv_put (some (dump Json.null)) ∷ updates)).entries
    ≡ (new_cache "orders").entries
consume_non_object_example =
    consume_non_object test_json (new_cache "orders") "orders.a" (dump Json.null) Json.null updates
      loaded_null refl

redelivery_delay_bounds_example : (d : ℕ) × (redelivery_delay 3 ≡ some d) × (2 ≤ d) × (d ≤ 60)
redelivery_delay_bounds_example = redelivery_delay_bounds 3
