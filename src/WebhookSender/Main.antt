-- ===== src/WebhookSender/Main.antt =====
-- The settings of the webhook sender and its `main` (webhook_sender/settings.py,
-- webhook_sender/__main__.py).
use jet_core_service_bus.Prelude.{String, Option, List}
use jet_core_service_bus.Python.Exec.{Exec}
use jet_core_service_bus.Python.HttpClient.{HttpClient}
use jet_core_service_bus.Jetcore.Config.{AdapterSettings}
use jet_core_service_bus.Jetcore.Bus.{client_bus}
use jet_core_service_bus.Jetcore.BusClient.{Outside, Client}
use jet_core_service_bus.Entrypoint.{Event}
use jet_core_service_bus.Entrypoint.Main.{main_of}
use jet_core_service_bus.WebhookSender.Entrypoint.{run_sender}

-- `base` has the fields of `AdapterSettings`.
pub record WebhookSenderSettings : Type 0 where
  pub base : AdapterSettings
  pub target_url : String
  pub outbound_secret : Option String

abbrev adapter_type : String
adapter_type = "webhook-sender"

module _ (O : Outside) (H : HttpClient (Client O)) where
  unfoldable pub main : WebhookSenderSettings → List Event → Exec O.platform.State (Unit {0})
  main settings = main_of O settings.base adapter_type λ account.
      run_sender H (client_bus O account) settings.target_url settings.outbound_secret
        settings.base.service_id settings.base.subjects
