-- ===== src/Jetcore/Registry/Identity.antt =====
-- An identity that was registered is found (registry.py, `register_identity`, `lookup_signing_key`).
use jet_core_service_bus.Prelude.{ℕ, String, ◌<>◌, ◌≡◌, refl, Option, none, some, inl, inr, arith}
use jet_core_service_bus.Python.Exception.{Result, ok, Result-cases}
use jet_core_service_bus.Python.Json.{
  Bytes, JsonModule, RoundTrips, load_item, get_item, find_field, to_str,
}
use jet_core_service_bus.Jetcore.Platform.{Platform, PubAck}
use jet_core_service_bus.Jetcore.Registry.{
  identity_bucket_name, identity_ttl_seconds, identity_value, register_identity, lookup_signing_key,
  signing_key_in, signing_key,
}

-- A bucket is a stream: what was published under the subject of a key is the key's value.
pub record IsBucket (P : Platform) (bucket : String) : Type 0 where
  pub get-published :
      (key : String) (value : Bytes) (ttl : Option ℕ) (s s' : P.State) (pub_ack : PubAck)
      → P.js_publish ("$KV." <> bucket <> "." <> key) value none ttl s ≡ (ok pub_ack, s')
      → (P.kv_get bucket key s').0 ≡ ok (some value)

module _ (J : JsonModule) (P : Platform) (trips : RoundTrips J)
    (bucket : IsBucket P identity_bucket_name) where
  signing_key_in-identity_value :
      (service_id adapter_type key at : String)
      → signing_key_in J (some (identity_value J service_id adapter_type key at)) ≡ ok (some key)
  unfolding signing_key_in identity_value signing_key load_item get_item find_field to_str
  signing_key_in-identity_value service_id adapter_type key at = rw (trips.loads-dumps _) refl

  pub lookup-register_identity :
      (service_id adapter_type key : String) (s s' : P.State)
      → register_identity J P service_id adapter_type key s ≡ (ok tt, s')
      → (lookup_signing_key J P service_id s').0 ≡ ok (some key)
  unfolding register_identity lookup_signing_key
  lookup-register_identity service_id adapter_type key s s' h =
      let (at, s1) = P.now_isoformat s in
      let value : Bytes = identity_value J service_id adapter_type key at in
      let sent : Result PubAck × P.State =
        P.js_publish ("$KV." <> identity_bucket_name <> "." <> service_id) value none
          (some identity_ttl_seconds) s1 in
      elim (Result-cases sent.0) [
        | inr (e, failed) ↦ absurd (ground arith)
        | inl (pub_ack, acked) ↦
            rw
              (bucket.get-published service_id value (some identity_ttl_seconds) s1 s' pub_ack
                (ground arith))
              (signing_key_in-identity_value service_id adapter_type key at)
      ]
