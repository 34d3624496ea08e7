-- ===== src/FileStorage/Payloads/Decoding.antt =====
-- What the decoders of the file commands make of their input (file_storage_adapter/payloads.py).
use jet_core_service_bus.Prelude.{
  String, ◌≡◌, refl, Bool, true, false, inl, inr, arith, Option-cases, ◌⊎◌, str_eq,
}
use jet_core_service_bus.Python.Exception.{Exception, ok, err, Result-cases, is_value_error}
use jet_core_service_bus.Python.Json.{
  Bytes, Json, Fields, JsonModule, RoundTrips, get_item, find_field,
}
use jet_core_service_bus.Python.Base64.{b64encode}
use jet_core_service_bus.Python.Base64.Errors.{b64decode-err}
use jet_core_service_bus.Python.Base64.RoundTrip.{AreBytes, b64decode-b64encode}
use jet_core_service_bus.FileStorage.Payloads.{
  read_write_requested, decode_write_requested, decode_path_only_request, read_path,
  is_shape_or_value_error, b64decode_item, non_empty_path,
}

-- What `json.loads` raises on bytes
pub record IsJson (J : JsonModule) : Type 0 where
  pub raises :
      (raw : Bytes) (e : Exception)
      → J.loads raw ≡ err e
      → (e ≡ Exception.json_decode_error) ⊎ (e ≡ Exception.unicode_decode_error)

abbrev pub write_requested : String → Bytes → Json
write_requested path content = Json.obj (
    Fields.field "path" (Json.str path)
      (Fields.field "content" (Json.str (b64encode content)) Fields.end))

get_item-err :
    (v : Json) (key : String) (e : Exception)
    → get_item v key ≡ err e
    → is_shape_or_value_error e ≡ true
unfolding get_item
get_item-err (Json.obj fs) key e h = elim (Option-cases (find_field fs key)) [
  | inl missing ↦ ground arith
  | inr (v, found) ↦ ground arith
]
get_item-err v key e h = ground arith

b64decode_item-err :
    (v : Json) (e : Exception) → b64decode_item v ≡ err e → is_shape_or_value_error e ≡ true
b64decode_item-err (Json.str s) e h = ground (arith, b64decode-err true s e h)
b64decode_item-err v e h = ground arith

non_empty_path-err :
    (v : Json) (e : Exception) → non_empty_path v ≡ err e → e ≡ Exception.malformed_payload_error
non_empty_path-err (Json.str p) e h = ground arith
non_empty_path-err v e h = ground arith

module _ (J : JsonModule) where
  -- For a JSON module that reads back what it writes, a command with a path that is not empty and a
  -- content of bytes, written with the content in base64, is decoded to that path and that content.
  pub decode_write_requested-dumps :
      RoundTrips J
      → (path : String) (content : Bytes) → str_eq path "" ≡ false
      → AreBytes content
      → decode_write_requested J (J.dumps (write_requested path content))
        ≡ ok (record { path = path; content = content })
  unfolding decode_write_requested read_write_requested get_item find_field
  decode_write_requested-dumps trips path content named bytes =
      let again = trips.loads-dumps (write_requested path content) in
      let decoded = b64decode-b64encode true content bytes in rw (again, decoded, named) refl

  module _ (is_json : IsJson J) where
    read_write_requested-err :
        (raw : Bytes) (e : Exception)
        → read_write_requested J raw ≡ err e
        → is_shape_or_value_error e ≡ true
    unfolding read_write_requested is_value_error
    read_write_requested-err raw e h = elim (Result-cases (J.loads raw)) [
      | inr (x, failed) ↦ elim (is_json.raises raw x failed) [
        | inl syntax ↦ ground arith
        | inr unicode ↦ ground arith
      ]
      | inl (v, loaded) ↦ elim (Result-cases (get_item v "path")) [
        | inr (x, failed) ↦ ground (arith, get_item-err v "path" x failed)
        | inl (path, found) ↦ elim (Result-cases (get_item v "content")) [
          | inr (x, failed) ↦ ground (arith, get_item-err v "content" x failed)
          | inl (item, there) ↦ elim (Result-cases (b64decode_item item)) [
            | inr (x, failed) ↦ ground (arith, b64decode_item-err item x failed)
            | inl (content, decoded) ↦ absurd (ground arith)
          ]
        ]
      ]
    ]

    -- Where `json.loads` raises no more than `JSONDecodeError` and `UnicodeDecodeError`, all that
    -- `decode_write_requested` raises is `MalformedPayloadError`.
    pub decode_write_requested-err :
        (raw : Bytes) (e : Exception)
        → decode_write_requested J raw ≡ err e
        → e ≡ Exception.malformed_payload_error
    unfolding decode_write_requested
    decode_write_requested-err raw e h = elim (Result-cases (read_write_requested J raw)) [
      | inr (x, failed) ↦ ground (arith, read_write_requested-err raw x failed)
      | inl ((item, content), there) ↦ elim (Result-cases (non_empty_path item)) [
        | inr (x, failed) ↦ ground (arith, non_empty_path-err item x failed)
        | inl (path, named) ↦ absurd (ground arith)
      ]
    ]

  -- bug
  pub decode_path_only_request-unicode :
      (allow_empty : Bool) (raw : Bytes)
      → J.loads raw ≡ err Exception.unicode_decode_error
      → decode_path_only_request J allow_empty raw ≡ err Exception.unicode_decode_error
  unfolding decode_path_only_request read_path
  decode_path_only_request-unicode allow_empty raw h = ground arith
