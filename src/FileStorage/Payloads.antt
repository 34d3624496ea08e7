-- ===== src/FileStorage/Payloads.antt =====
-- The payloads of the file commands and of what they report (file_storage_adapter/payloads.py). The
-- time of an encoder is the text that `_iso` makes of it.
pub mod Decoding
use jet_core_service_bus.Prelude.{
  ℕ, ℤ, String, Bool, true, false, ◌||◌, ◌&&◌, not, List, [], ◌∷◌, length, if◌then◌else◌, str_eq,
}
use jet_core_service_bus.Adapter.{is_shape_error, or_malformed}
use jet_core_service_bus.Python.Exception.{Exception, Result, ok, err, ◌>>=◌, is_value_error}
use jet_core_service_bus.Python.Json.{Bytes, Json, Items, Fields, JsonModule, get_item}
use jet_core_service_bus.Python.Base64.{b64encode, b64decode}

pub record WriteRequest : Type 0 where
  pub path : String
  pub content : Bytes

abbrev pub operation_failed_subject : String
operation_failed_subject = "events.files.FileOperationFailed"

-- What `except (json.JSONDecodeError, KeyError, TypeError, ValueError)` catches
abbrev pub is_shape_or_value_error : Exception → Bool
is_shape_or_value_error e = is_shape_error e || is_value_error e

-- `base64.b64decode(v, validate=True)`: only a text will do.
abbrev pub b64decode_item : Json → Result Bytes
b64decode_item (Json.str s) = b64decode true s
b64decode_item v = err Exception.type_error

abbrev pub non_empty_path : Json → Result String
non_empty_path (Json.str p) = if str_eq p "" then err Exception.malformed_payload_error else ok p
non_empty_path v = err Exception.malformed_payload_error

-- `allow_empty_path`
abbrev pub text_path : Bool → Json → Result String
text_path allow_empty (Json.str p) =
    if str_eq p "" && not allow_empty then err Exception.malformed_payload_error else ok p
text_path allow_empty v = err Exception.malformed_payload_error

module _ (J : JsonModule) where
  -- What stands in the `try`
  unfoldable pub read_write_requested : Bytes → Result (Json × Bytes)
  read_write_requested raw = do
    data_ ← J.loads raw
    path ← get_item data_ "path"
    item ← get_item data_ "content"
    content ← b64decode_item item
    ok (path, content)

  unfoldable pub decode_write_requested : Bytes → Result WriteRequest
  decode_write_requested raw = do
    (item, content) ← or_malformed is_shape_or_value_error (read_write_requested raw)
    path ← non_empty_path item
    ok (record { path = path; content = content })

  unfoldable pub read_path : Bytes → Result Json
  read_path raw = do data_ ← J.loads raw; get_item data_ "path"

  -- A `PathOnlyRequest` is its path.
  unfoldable pub decode_path_only_request : Bool → Bytes → Result String
  decode_path_only_request allow_empty raw = do
    item ← or_malformed is_shape_error (read_path raw)
    text_path allow_empty item

  unfoldable pub encode_completed : String → ℤ → String → Bytes
  encode_completed path size_bytes occurred_at = J.dumps (
      Json.obj (
        Fields.field "path" (Json.str path) (
          Fields.field "sizeBytes" (Json.int size_bytes)
            (Fields.field "occurredAt" (Json.str occurred_at) Fields.end))))

  unfoldable pub encode_read_completed : String → Bytes → String → Bytes
  encode_read_completed path content occurred_at = J.dumps (
      Json.obj (
        Fields.field "path" (Json.str path) (
          Fields.field "content" (Json.str (b64encode content)) (
            Fields.field "sizeBytes" (Json.int (ℤ.pos (length content)))
              (Fields.field "occurredAt" (Json.str occurred_at) Fields.end)))))

  unfoldable pub encode_delete_completed : String → String → Bytes
  encode_delete_completed path occurred_at = J.dumps (
      Json.obj (
        Fields.field "path" (Json.str path)
          (Fields.field "occurredAt" (Json.str occurred_at) Fields.end)))

  unfoldable pub encode_operation_failed : String → String → String → String → Bytes
  encode_operation_failed path operation reason occurred_at = J.dumps (
      Json.obj (
        Fields.field "path" (Json.str path) (
          Fields.field "operation" (Json.str operation) (
            Fields.field "reason" (Json.str reason)
              (Fields.field "occurredAt" (Json.str occurred_at) Fields.end)))))

pub record FileEntry : Type 0 where
  pub name : String
  pub is_directory : Bool
  pub size_bytes : ℕ

pub entry_items : List FileEntry → Items
entry_items [] = Items.nil
entry_items (e ∷ es) =
    Items.cons
      (Json.obj (
        Fields.field "name" (Json.str e.name) (
          Fields.field "isDirectory" (Json.bool e.is_directory)
            (Fields.field "sizeBytes" (Json.int (ℤ.pos e.size_bytes)) Fields.end))))
      (entry_items es)

unfoldable pub encode_list_completed : JsonModule → String → List FileEntry → String → Bytes
unfolding entry_items
encode_list_completed J path entries occurred_at = J.dumps (
    Json.obj (
      Fields.field "path" (Json.str path) (
        Fields.field "entries" (Json.arr (entry_items entries))
          (Fields.field "occurredAt" (Json.str occurred_at) Fields.end))))
