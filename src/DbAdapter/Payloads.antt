-- ===== src/DbAdapter/Payloads.antt =====
-- The payloads of orders (db_adapter_mysql/payloads.py).
pub mod Decoding
use jet_core_service_bus.Prelude.{
  ℕ, zero, suc, ℤ, String, List, [], ◌∷◌, Option, none, some, str_eq, if◌then◌else◌,
}
use jet_core_service_bus.Python.Exception.{Exception, Result, ok, err, ◌>>=◌}
use jet_core_service_bus.Python.Json.{Bytes, Json, Fields, JsonModule, get_item, find_field}
use jet_core_service_bus.Python.Dict.{Dict}
use jet_core_service_bus.Adapter.{is_shape_error, or_malformed}

pub record OrderCreatedRequest : Type 0 where
  pub order_id : String
  pub item : String
  pub quantity : ℕ

abbrev or_one : Option Json → Json
or_one none = Json.int (ℤ.pos 1)
or_one (some v) = v

-- `data.get("quantity", 1)`: it is reached for a dict only, since the items were read before it.
unfoldable pub get_quantity : Json → Result Json
get_quantity (Json.obj fs) = ok (or_one (find_field fs "quantity"))
get_quantity v = err Exception.type_error

abbrev pub non_empty_text : Json → Result String
non_empty_text (Json.str s) = if str_eq s "" then err Exception.malformed_payload_error else ok s
non_empty_text v = err Exception.malformed_payload_error

-- A truth value is no quantity, and `int` is exact: a float is refused.
abbrev pub positive_int : Json → Result ℕ
positive_int (Json.int (ℤ.pos zero)) = err Exception.malformed_payload_error
positive_int (Json.int (ℤ.pos (suc n))) = ok (suc n)
positive_int v = err Exception.malformed_payload_error

module _ (J : JsonModule) where
  -- What stands in the `try`
  unfoldable pub read_order_created : Bytes → Result (Json × Json × Json)
  read_order_created raw = do
    order ← J.loads raw
    order_id ← get_item order "orderId"
    item ← get_item order "item"
    quantity ← get_quantity order
    ok (order_id, item, quantity)

  unfoldable pub decode_order_created : Bytes → Result OrderCreatedRequest
  decode_order_created raw = do
    (order_item, item_item, quantity_item) ← or_malformed is_shape_error (read_order_created raw)
    order_id ← non_empty_text order_item
    item ← non_empty_text item_item
    quantity ← positive_int quantity_item
    ok (record { order_id = order_id; item = item; quantity = quantity })

  unfoldable pub encode_order_persisted : String → String → Bytes
  encode_order_persisted order_id occurred_at = J.dumps (
      Json.obj (
        Fields.field "orderId" (Json.str order_id) (
          Fields.field "status" (Json.str "persisted")
            (Fields.field "occurredAt" (Json.str occurred_at) Fields.end))))

-- A value of a row as the binlog reader gives it: one that JSON has, or a `datetime` with what its
-- `isoformat()` gives.
pub data ColumnValue : Type 0 where
  plain : Json → ColumnValue
  datetime : String → ColumnValue

abbrev pub Row : Type 0
Row = Dict String ColumnValue

abbrev json_safe : ColumnValue → Json
json_safe (plain v) = v
json_safe (datetime isoformat) = Json.str isoformat

-- `_json_safe_row`
unfoldable pub json_safe_row : Row → Fields
json_safe_row [] = Fields.end
json_safe_row ((k, v) ∷ row) = Fields.field k (json_safe v) (json_safe_row row)

abbrev previous_field : Option Row → Fields
previous_field none = Fields.end
previous_field (some row) = Fields.field "previousRow" (Json.obj (json_safe_row row)) Fields.end

unfoldable pub encode_row_changed : JsonModule → String → String → Row → Option Row → Bytes
encode_row_changed J operation table row previous_row = J.dumps (
    Json.obj (
      Fields.field "operation" (Json.str operation) (
        Fields.field "table" (Json.str table)
          (Fields.field "row" (Json.obj (json_safe_row row)) (previous_field previous_row)))))
