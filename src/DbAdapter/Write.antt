-- ===== src/DbAdapter/Write.antt =====
-- The handler that stores orders (db_adapter_mysql/write_handler.py). `upsert` is the statement in its
-- transaction.
pub mod Settlement
use jet_core_service_bus.Prelude.{ℕ, String, Bool, true, false, Option}
use jet_core_service_bus.Python.Exception.{Exception}
use jet_core_service_bus.Python.Exec.{Exec, lift, ◌>>=◌, except_return, always}
use jet_core_service_bus.Python.Json.{JsonModule}
use jet_core_service_bus.Jetcore.Bus.{Bus}
use jet_core_service_bus.Jetcore.BusClient.{ReceivedEvent}
use jet_core_service_bus.Adapter.{is_malformed, report, run_once}
use jet_core_service_bus.DbAdapter.Payloads.{
  OrderCreatedRequest, decode_order_created, encode_order_persisted,
}

abbrev pub order_created_subject : String
order_created_subject = "events.orders.OrderCreated"

abbrev pub order_persisted_subject : String
order_persisted_subject = "events.orders.OrderPersisted"

-- `isinstance(e, DBAPIError)`
abbrev pub is_db_api_error : Exception → Bool
is_db_api_error Exception.db_api_error = true
is_db_api_error _ = false

-- SQLAlchemy's engine, and the clock
pub record Database (S : Type 0) : Type 0 where
  pub upsert : OrderCreatedRequest → Exec S (Unit {0})
  pub now_iso : S → String × S

module _ {S : Type 0} (J : JsonModule) (D : Database S) (B : Bus S) where
  -- The report, and the acknowledgement after it
  unfoldable pub report_persisted : OrderCreatedRequest → ReceivedEvent → Exec S (Unit {0})
  report_persisted request event = do
    occurred_at ← always D.now_iso
    _ ← B.publish (
        report order_persisted_subject (encode_order_persisted J request.order_id occurred_at)
          "OrderPersisted" event)
    B.ack event

  unfoldable pub store_order : OrderCreatedRequest → ReceivedEvent → Exec S (Unit {0})
  store_order request event =
      except_return (D.upsert request) is_db_api_error (B.nak event)
        λ _. report_persisted request event

  -- `_handle`
  unfoldable pub handle : ReceivedEvent → Exec S (Unit {0})
  handle event =
      except_return (lift (decode_order_created J event.payload)) is_malformed (B.ack event)
        λ request. store_order request event

  unfoldable pub start : Option String → Exec S String
  start durable_name = B.subscribe order_created_subject durable_name

  unfoldable pub run_handler : String → ℕ → ℕ → Exec S ℕ
  run_handler durable_name batch timeout = run_once handle (B.fetch durable_name batch timeout)
