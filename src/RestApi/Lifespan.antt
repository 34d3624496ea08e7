-- ===== src/RestApi/Lifespan.antt =====
-- The settings (rest_api_service/settings.py) and the lifespan of the REST API service
-- (rest_api_service/app.py, `lifespan`), where the caller gives no client: it connects one, subscribes
-- to the replies and serves; in whatever way serving ends, it cancels the task of the reply watcher,
-- awaits it, and closes the client.
use jet_core_service_bus.Jetcore.Bus.{client_bus}
use jet_core_service_bus.Python.Json.{Bytes}
use jet_core_service_bus.RestApi.Orders.{Api, Response, create_order}
use jet_core_service_bus.Prelude.{String, ◌<>◌, Option, none, some, ℕ, Bool}
use jet_core_service_bus.Python.Exception.{Exception, Result, ok, err}
use jet_core_service_bus.Python.Exec.{Exec, ◌>>=◌, finally}
use jet_core_service_bus.Python.Text.{replace_dots}
use jet_core_service_bus.Jetcore.Config.{AdapterSettings}
use jet_core_service_bus.Jetcore.BusClient.{Outside, Client, Run, subscribe}
use jet_core_service_bus.Jetcore.BusClient.Connection.{with_client, close}
use jet_core_service_bus.Jetcore.BusClient.Sealing.{Account}

abbrev pub order_persisted_subject : String
order_persisted_subject = "events.orders.OrderPersisted"

abbrev pub adapter_type : String
adapter_type = "rest-api-service"

unfoldable pub reply_name : String → String
reply_name service_id = service_id <> "-" <> replace_dots order_persisted_subject

abbrev awaited : Option Exception → Result (Unit {0})
awaited none = ok tt
awaited (some e) = err e

-- `base` has the fields of `AdapterSettings`; the timeout is in milliseconds.
pub record RestApiServiceSettings : Type 0 where
  pub base : AdapterSettings
  pub http_port : ℕ
  pub default_reply_timeout : ℕ

-- `watcher` tells the exception by which the watcher's task has ended, if it has: awaiting the task
-- raises it, and only a `CancelledError` is suppressed.
module _ (O : Outside) (watcher : Client O → Option Exception) where
  unfoldable pub stop_watcher : Run O (Unit {0})
  stop_watcher c = (awaited (watcher c), c)

  -- What stands in the `finally`
  unfoldable pub stop_serving : Run O (Unit {0})
  stop_serving = do _ ← stop_watcher; close O

  -- `serve` is given the durable name that the reply watcher fetches by.
  unfoldable pub lifespan :
      RestApiServiceSettings
      → (Account → String → Run O (Unit {0}))
      → Exec O.platform.State (Unit {0})
  lifespan settings serve = with_client O settings.base adapter_type λ account. do
    name ← subscribe O account order_persisted_subject (some (reply_name settings.base.service_id))
    finally (serve account (reply_name settings.base.service_id)) stop_serving

module _ (O : Outside) (settings : RestApiServiceSettings)
    (meanwhile : ℕ → Api (Client O) → Bool × Api (Client O)) where
  -- The endpoint on the client that the lifespan has connected
  unfoldable pub endpoint : Account → Bytes → ℕ → Option String → Exec (Api (Client O)) Response
  endpoint account =
      create_order O.json (client_bus O account) settings.default_reply_timeout meanwhile
