-- ===== src/HttpAdapter/Main.antt =====
-- The settings of the HTTP adapter and its `main` (http_adapter/settings.py,
-- http_adapter/__main__.py).
use jet_core_service_bus.Prelude.{String, Option, List}
use jet_core_service_bus.Python.Exec.{Exec}
use jet_core_service_bus.Python.HttpClient.{HttpClient}
use jet_core_service_bus.Jetcore.Config.{AdapterSettings}
use jet_core_service_bus.Jetcore.Bus.{client_bus}
use jet_core_service_bus.Jetcore.BusClient.{Outside, Client}
use jet_core_service_bus.Entrypoint.{Event}
use jet_core_service_bus.Entrypoint.Main.{main_of}
use jet_core_service_bus.HttpAdapter.Entrypoint.{run_adapter}

-- `base` has the fields of `AdapterSettings`.
pub record HttpAdapterSettings : Type 0 where
  pub base : AdapterSettings
  pub target_base_url : String
  pub auth_token : Option String

abbrev adapter_type : String
adapter_type = "http-adapter"

module _ (O : Outside) (H : HttpClient (Client O)) (now_iso : Client O → String × Client O) where
  unfoldable pub main : HttpAdapterSettings → List Event → Exec O.platform.State (Unit {0})
  main settings = main_of O settings.base adapter_type λ account.
      run_adapter O.json H now_iso (client_bus O account) settings.target_base_url
        settings.auth_token settings.base.service_id settings.base.subjects
