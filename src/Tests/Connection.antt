-- ===== src/Tests/Connection.antt =====
-- The properties of the credentials, of the settings and of the connection at concrete inputs.
use jet_core_service_bus.Prelude.{
  ◌∷◌, String, subst, true, ◌++◌, [], ◌≡◌, ◌<>◌, false, some, ap, none, refl,
}
use jet_core_service_bus.Python.Exception.{Exception, Result, ok, err}
use jet_core_service_bus.Python.Dict
use jet_core_service_bus.Python.Dict.{Dict, lookup, insert, lookup-insert_self}
use jet_core_service_bus.Python.Equality.{string_eq}
use jet_core_service_bus.Python.Json.{Bytes, Json}
use jet_core_service_bus.Python.Text.{codes, is_space, strip, lstrip, rstrip}
use jet_core_service_bus.Jetcore.Config.{AdapterSettings, default_settings, texts, parse_subjects}
use jet_core_service_bus.Jetcore.Config.Subjects.{IsSubject, join_commas, parse_subjects-join}
use jet_core_service_bus.Jetcore.Creds.{
  literal, search_seed, load_signing_keypair, match_here, after_dashes, dashes, skip_dashes,
  skip_blanks, newline, line,
}
use jet_core_service_bus.Jetcore.Creds.Finding.{seed_block, search_seed-block}
use jet_core_service_bus.Jetcore.Crypto.{keypair_from_seed, encryption_keypair}
use jet_core_service_bus.Jetcore.Platform.{Platform, PubAck}
use jet_core_service_bus.Jetcore.Registry
use jet_core_service_bus.Jetcore.Registry.{identity_bucket_name, register_identity}
use jet_core_service_bus.Jetcore.Registry.Identity.{IsBucket}
use jet_core_service_bus.Jetcore.Registry.Cache.{RecipientCache}
use jet_core_service_bus.Jetcore.BusClient.{Outside, Client, outside}
use jet_core_service_bus.Jetcore.BusClient.Sealing.{Account}
use jet_core_service_bus.Jetcore.BusClient.Connection.{
  connect, connect_as_adapter, close, new_client, new_account,
}
use jet_core_service_bus.Jetcore.BusClient.Connection.Closing.{first_broken, close-first_broken}
use jet_core_service_bus.Jetcore.BusClient.Connection.Trust.{
  IsTrusted, connect_as_adapter-IsTrusted,
}
use jet_core_service_bus.Tests.Libraries.{
  test_json, test_json-RoundTrips, test_pydantic, test_primitives, public_text,
}
use jet_core_service_bus.Tests.World.{test_outside, test_client}

-- The block comes after a line of dashes.
abbrev block : Bytes
block = seed_block true (b'S' ∷ b'U' ∷ []) 4 4 4 4 (10 ∷ [])

abbrev before_block : Bytes
before_block = b'-' ∷ b'-' ∷ 10 ∷ []

search_seed-block_example : search_seed (before_block ++ block) ≡ some (b'S' ∷ b'U' ∷ [])
unfolding literal codes
search_seed-block_example =
    search_seed-block true b'S' (b'U' ∷ []) 4 4 4 (10 ∷ []) (refl, (refl, tt)) 4 before_block
      (refl, (refl, (refl, tt)))

abbrev no_json : String → Result Json
no_json s = err Exception.json_decode_error

orders-IsSubject : IsSubject "orders.*"
unfolding is_space
orders-IsSubject = record { first = refl; last = refl; plain = refl }

files-IsSubject : IsSubject "files"
unfolding is_space
files-IsSubject = record { first = refl; last = refl; plain = refl }

parse_subjects-join_example :
    parse_subjects no_json (Json.str (join_commas "orders.*" ("files" ∷ [])))
    ≡ ok (Json.arr (texts ("orders.*" ∷ "files" ∷ [])))
parse_subjects-join_example =
    parse_subjects-join no_json "orders.*" ("files" ∷ []) (orders-IsSubject, (files-IsSubject, tt))
      refl

abbrev ack_of : String → PubAck
ack_of stream = record { stream = stream; seq = 1; duplicate = false }

-- A world that holds what was published under each subject last
abbrev bucket_platform : Platform
bucket_platform = record {
  State = Dict String Bytes;
  Subscription = String;
  connect = λ url creds s. (ok tt, s);
  close = λ s. (ok tt, s);
  key_value = λ bucket s. (ok tt, s);
  read_bytes = λ path s. (ok block, s);
  generate_identity = λ s. ("adapter-key", s);
  fresh = λ s. (record { new_event_id = "e"; utc_now = 1 }, s);
  now_isoformat = λ s. ("now", s);
  kv_put = λ bucket key value s. (ok tt, s);
  kv_delete = λ bucket key s. (ok tt, s);
  kv_get = λ bucket key s. (ok (lookup ("$KV." <> bucket <> "." <> key) s), s);
  kv_keys = λ bucket prefix s. (ok [], s);
  kv_watch = λ bucket pattern s. (ok [], s);
  sleep = λ ms s. (ok tt, s);
  js_publish = λ subject bs id ttl s. (ok (ack_of "s"), insert subject bs s);
  js_get_msg = λ stream seq s. (ok none, s);
  pull_subscribe = λ subject name config s. (ok name, s);
  pull_fetch = λ sub batch timeout s. (ok [], s);
  msg_ack = λ msg s. (ok tt, s);
  msg_nak = λ msg delay s. (ok tt, s);
}

bucket_platform-IsBucket : IsBucket bucket_platform identity_bucket_name
bucket_platform-IsBucket = record {
  get-published = λ key value ttl s s' pub_ack h.
      subst
        (λ (d : Dict String Bytes).
          ok (lookup ("$KV." <> identity_bucket_name <> "." <> key) d) ≡ ok (some value))
        (ap (λ (out : Result PubAck × Dict String Bytes). out.1) h)
        (ap ok (lookup-insert_self ("$KV." <> identity_bucket_name <> "." <> key) value s));
}

abbrev bucket_outside : Outside
bucket_outside = record {
  pydantic = test_pydantic;
  primitives = test_primitives;
  json = test_json;
  platform = bucket_platform;
}

abbrev settings : AdapterSettings
settings = default_settings "adapter" "/creds"

abbrev adapter : Account
adapter =
    new_account settings "test" (encryption_keypair test_primitives "adapter-key")
      (record { seed = "SU"; public_key = public_text })

abbrev world_after : Dict String Bytes
world_after = (connect_as_adapter bucket_outside settings "test" []).1

connected :
    connect_as_adapter bucket_outside settings "test" []
    ≡ (ok (adapter, new_client bucket_outside world_after), world_after)
unfolding connect_as_adapter connect register_identity load_signing_keypair keypair_from_seed
    search_seed match_here after_dashes dashes skip_dashes skip_blanks newline line literal codes
    strip lstrip rstrip is_space Registry.connect
connected = refl

connect_as_adapter-IsTrusted_example :
    IsTrusted bucket_outside test_json-RoundTrips bucket_platform-IsBucket settings adapter
      (new_client bucket_outside world_after)
connect_as_adapter-IsTrusted_example =
    connect_as_adapter-IsTrusted bucket_outside test_json-RoundTrips bucket_platform-IsBucket
      settings "test" [] world_after adapter (new_client bucket_outside world_after) connected

abbrev broken : RecipientCache
broken = record {
  subject = "orders";
  entries = [];
  ready = true;
  failure = some Exception.type_error;
}

abbrev broken_client : Client test_outside
broken_client = record test_client { recipient_caches = ("orders", broken) ∷ [] }

close-first_broken_example :
    close test_outside broken_client
    ≡ (elim (first_broken (Dict.values broken_client.recipient_caches)) [
      | none ↦ outside test_outside test_outside.platform.close broken_client
      | some e ↦ (err e, broken_client)
    ])
close-first_broken_example = close-first_broken test_outside broken_client
