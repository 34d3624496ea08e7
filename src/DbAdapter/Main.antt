-- ===== src/DbAdapter/Main.antt =====
-- The settings of the database adapter and its `main` (db_adapter_mysql/settings.py,
-- db_adapter_mysql/__main__.py). The database and the binlog reader stand for connections made with
-- these settings.
use jet_core_service_bus.Prelude.{ℕ, String, List}
use jet_core_service_bus.Python.Exec.{Exec}
use jet_core_service_bus.Jetcore.Config.{AdapterSettings}
use jet_core_service_bus.Jetcore.Bus.{client_bus}
use jet_core_service_bus.Jetcore.BusClient.{Outside, Client}
use jet_core_service_bus.Entrypoint.{Event}
use jet_core_service_bus.Entrypoint.Main.{main_of}
use jet_core_service_bus.DbAdapter.Write.{Database}
use jet_core_service_bus.DbAdapter.Cdc.{Binlog}
use jet_core_service_bus.DbAdapter.Entrypoint.{run_database}

-- `base` has the fields of `AdapterSettings`.
pub record DbAdapterSettings : Type 0 where
  pub base : AdapterSettings
  pub mysql_host : String
  pub mysql_port : ℕ
  pub mysql_database : String
  pub mysql_write_user : String
  pub mysql_write_password : String
  pub mysql_cdc_user : String
  pub mysql_cdc_password : String

abbrev adapter_type : String
adapter_type = "database-adapter-mysql"

module _ (O : Outside) (database : DbAdapterSettings → Database (Client O))
    (binlog : DbAdapterSettings → Binlog (Client O)) (events : ℕ) where
  unfoldable pub main : DbAdapterSettings → List Event → Exec O.platform.State (Unit {0})
  main settings = main_of O settings.base adapter_type λ account.
      run_database O.json (database settings) (client_bus O account) (binlog settings)
        settings.base.service_id events
