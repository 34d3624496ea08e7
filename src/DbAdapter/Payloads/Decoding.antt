-- ===== src/DbAdapter/Payloads/Decoding.antt =====
-- What the decoder of orders makes of its input (db_adapter_mysql/payloads.py).
use jet_core_service_bus.Prelude.{ℕ, suc, ℤ, String, ◌≡◌, refl, false, Option, none, some, str_eq}
use jet_core_service_bus.Python.Exception.{ok}
use jet_core_service_bus.Python.Json.{Json, Fields, JsonModule, RoundTrips, get_item, find_field}
use jet_core_service_bus.DbAdapter.Payloads.{decode_order_created, read_order_created, get_quantity}

-- The fields that follow the item: the quantity may be left out.
abbrev pub quantity_field : Option ℕ → Fields
quantity_field none = Fields.end
quantity_field (some n) = Fields.field "quantity" (Json.int (ℤ.pos (suc n))) Fields.end

abbrev pub order_created : String → String → Option ℕ → Json
order_created order_id item more = Json.obj (
    Fields.field "orderId" (Json.str order_id)
      (Fields.field "item" (Json.str item) (quantity_field more)))

abbrev pub ordered : Option ℕ → ℕ
ordered none = 1
ordered (some n) = suc n

-- For a JSON module that reads back what it writes, an order whose id and item are not empty, with
-- a positive quantity or none, is decoded to that id, that item and that quantity, or 1.
pub decode_order_created-dumps :
    (J : JsonModule)
    → RoundTrips J
    → (order_id item : String) (more : Option ℕ) → str_eq order_id "" ≡ false
    → str_eq item "" ≡ false
    → decode_order_created J (J.dumps (order_created order_id item more))
      ≡ ok (record { order_id = order_id; item = item; quantity = ordered more })
unfolding decode_order_created read_order_created get_item find_field get_quantity
decode_order_created-dumps J trips order_id item none named what =
    rw (trips.loads-dumps (order_created order_id item none), named, what) refl
decode_order_created-dumps J trips order_id item (some n) named what =
    rw (trips.loads-dumps (order_created order_id item (some n)), named, what) refl
