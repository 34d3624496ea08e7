-- ===== src/WebhookListener/Lifespan.antt =====
-- The settings (webhook_listener/settings.py) and the lifespan of the webhook listener
-- (webhook_listener/app.py, `lifespan`), where the caller gives no client: it connects one, and closes
-- it when serving ends, in whatever way.
use jet_core_service_bus.Jetcore.Bus.{client_bus}
use jet_core_service_bus.WebhookListener.App.{WebhookRequest, WebhookResponse, receive_webhook}
use jet_core_service_bus.Prelude.{String, ℕ}
use jet_core_service_bus.Python.Exec.{Exec, finally}
use jet_core_service_bus.Jetcore.Config.{AdapterSettings}
use jet_core_service_bus.Jetcore.BusClient.{Outside, Run}
use jet_core_service_bus.Jetcore.BusClient.Connection.{with_client, close}
use jet_core_service_bus.Jetcore.BusClient.Sealing.{Account}

abbrev pub adapter_type : String
adapter_type = "webhook-listener"

-- `base` has the fields of `AdapterSettings`.
pub record WebhookListenerSettings : Type 0 where
  pub base : AdapterSettings
  pub webhook_secret : String
  pub http_port : ℕ

module _ (O : Outside) (settings : WebhookListenerSettings) where
  -- The endpoint on the client that the lifespan has connected
  unfoldable pub endpoint : Account → WebhookRequest → Run O WebhookResponse
  endpoint account = receive_webhook O.json (client_bus O account) settings.webhook_secret

  unfoldable pub lifespan : (Account → Run O (Unit {0})) → Exec O.platform.State (Unit {0})
  lifespan serve =
      with_client O settings.base adapter_type λ account. finally (serve account) (close O)
