-- ===== src/FileStorage/Main/Closing.antt =====
-- The file storage adapter closes its client after a signal (file_storage_adapter/__main__.py).
use jet_core_service_bus.Prelude.{ℕ, ◌<◌, ◌≡◌, true, List, ◌++◌, inl, inr, Option-cases, ap, ◌∙◌}
use jet_core_service_bus.Python.Exception.{Result, ok}
use jet_core_service_bus.Python.Exec.{Exec, lift, finally}
use jet_core_service_bus.Python.PurePath.{PosixPath}
use jet_core_service_bus.Jetcore.Bus.{client_bus}
use jet_core_service_bus.Jetcore.BusClient.{Outside, Client}
use jet_core_service_bus.Jetcore.BusClient.Connection.{close}
use jet_core_service_bus.Jetcore.BusClient.Sealing.{Account}
use jet_core_service_bus.Entrypoint.{Process, Event, run_events, gathered}
use jet_core_service_bus.Entrypoint.Main.{close_after}
use jet_core_service_bus.Entrypoint.Ending.{has_signal, has_turn}
use jet_core_service_bus.Entrypoint.Launched.{run_events-append}
use jet_core_service_bus.FileStorage.FileSystem.{FileSystem}
use jet_core_service_bus.FileStorage.Commands.Write.{Shared}
use jet_core_service_bus.FileStorage.CreateWatch.{Change}
use jet_core_service_bus.FileStorage.Entrypoint.{start_handlers, run_storage}
use jet_core_service_bus.FileStorage.Entrypoint.Ending.{gathered-run_storage}
use jet_core_service_bus.FileStorage.Main.{FileStorageSettings, shared, run_and_close}

module _ (O : Outside) (F : FileSystem (Client O)) (fuel : ℕ)
    (changes : Exec (Client O) (List (Change × PosixPath))) (settings : FileStorageSettings)
    (account : Account) where
  -- The process of `run` on a client
  abbrev pub running : Client O → Process (Shared (Client O))
  running c =
      run_storage O.json F (client_bus O account) settings.watch_dir settings.base.service_id fuel
        changes (shared O F fuel changes c)

  abbrev pub begin : Client O → Result (Unit {0}) × Shared (Client O)
  begin c =
      start_handlers O.json F (client_bus O account) settings.watch_dir settings.base.service_id
        fuel changes (shared O F fuel changes c)

  -- Let the four handlers of the file storage adapter start, and let some events include a signal.
  -- With any further events in which each of the five tasks has a turn, `run` ends, the client is
  -- closed whatever `run` has come to, and between those first events and the closing nothing
  -- happens to the client.
  pub run_and_close-close :
      (c : Client O) (c' : Shared (Client O)) (before after : List Event)
      → begin c ≡ (ok tt, c')
      → has_signal before ≡ true
      → ((i : ℕ) → i < 5 → has_turn i after ≡ true)
      → (r : Result (Unit {0})) × (run_and_close O F fuel changes settings account
            (before ++ after)
            c
          ≡ finally (lift r) (close O) (run_events before (running c)).world.state)
  unfolding run_and_close
  run_and_close-close c c' before after begun sent turns =
      let p = run_events before (running c) in
      let (ended, same) =
        gathered-run_storage O.json F (client_bus O account) settings.watch_dir
          settings.base.service_id fuel changes (shared O F fuel changes c) c' before after begun
          sent turns in
      elim (Option-cases (gathered (run_events after p))) [
        | inl waits ↦ absurd (ended waits)
        | inr (r, came) ↦ (
          r,
          ap (λ (q : Process (Shared (Client O))). close_after O (gathered q) q.world.state)
                (run_events-append before after (running c))
              ∙ ap (λ o. close_after O o (run_events after p).world.state) came
              ∙ ap (λ (w : Shared (Client O)). finally (lift r) (close O) w.state) same,
        )
      ]
