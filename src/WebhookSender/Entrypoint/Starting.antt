-- ===== src/WebhookSender/Entrypoint/Starting.antt =====
-- The tasks that the webhook sender starts (webhook_sender/__main__.py).
use jet_core_service_bus.Prelude.{some, String, Option, List, [], ◌∷◌, map, All}
use jet_core_service_bus.Python.Exception.{Result, ok, err}
use jet_core_service_bus.Python.Exec.{pure, ◌>>=◌}
use jet_core_service_bus.Python.Exec.Hoare.{Ends}
use jet_core_service_bus.Python.HttpClient.{HttpClient}
use jet_core_service_bus.Jetcore.Bus.{Bus}
use jet_core_service_bus.Entrypoint.{loop, fetch_batch, fetch_timeout}
use jet_core_service_bus.Entrypoint.Shutdown.{Heeds, Makes, loop-Heeds}
use jet_core_service_bus.WebhookSender.Relay.{start, run_handler}
use jet_core_service_bus.WebhookSender.Entrypoint.{start_relay, relay_name, relay_handler}

module _ {S : Type 0} (H : HttpClient S) (B : Bus S) (target_url : String)
    (outbound_secret : Option String) (service_id : String) where
  start_relay-Makes :
      (subject : String)
      → Makes Heeds (start_relay H B target_url outbound_secret service_id subject)
  unfolding start_relay start
  start_relay-Makes subject s =
      made (B.subscribe subject (some (relay_name service_id subject)) s).0
        (B.subscribe subject (some (relay_name service_id subject)) s).1
    where
      made :
          (r : Result String) (s' : S)
          → Ends {S = S}
              (λ t _. Heeds t)
              (λ _ _. Unit {0})
              (((λ _. (r, s')) >>= λ _. pure (
                  loop (
                    run_handler H B
                      (relay_handler target_url outbound_secret subject)
                      (relay_name service_id subject)
                      fetch_batch
                      fetch_timeout)))
                s')
      made (ok name) s' = loop-Heeds _
      made (err e) s' = tt

  pub start_relays-Make :
      (subjects : List String)
      → All (Makes Heeds) (map (start_relay H B target_url outbound_secret service_id) subjects)
  start_relays-Make [] = tt
  start_relays-Make (subject ∷ subjects) = (start_relay-Makes subject, start_relays-Make subjects)
