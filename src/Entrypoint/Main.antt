-- ===== src/Entrypoint/Main.antt =====
-- What the `main` of the adapters' __main__.py files has in common: a client is connected, `run` is
-- awaited, and the client is closed however `run` has ended. The signal handlers set the shutdown
-- event: a signal is an event of the process.
use jet_core_service_bus.Prelude.{String, Option, none, some, List}
use jet_core_service_bus.Python.Exception.{Exception, Result}
use jet_core_service_bus.Python.Exec.{Exec, raise, lift, finally}
use jet_core_service_bus.Jetcore.Config.{AdapterSettings}
use jet_core_service_bus.Jetcore.BusClient.{Outside, Client, Run}
use jet_core_service_bus.Jetcore.BusClient.Connection.{with_client, close}
use jet_core_service_bus.Jetcore.BusClient.Sealing.{Account}
use jet_core_service_bus.Entrypoint.{Process, Event, run_events, gathered}

module _ (O : Outside) where
  -- Nothing is closed while `run` waits.
  abbrev pub close_after : Option (Result (Unit {0})) → Run O (Unit {0})
  close_after none = raise Exception.blocked
  close_after (some r) = finally (lift r) (close O)

  -- `try: await run(…) finally: await client.close()`, where these events happen
  unfoldable pub run_and_close : (Client O → Process (Client O)) → List Event → Run O (Unit {0})
  run_and_close run events c = let p = run_events events (run c) in close_after (gathered p) p.world

  unfoldable pub main_of :
      AdapterSettings
      → String
      → (Account → Client O → Process (Client O))
      → List Event
      → Exec O.platform.State (Unit {0})
  main_of settings adapter_type run events =
      with_client O settings adapter_type λ account. run_and_close (run account) events
