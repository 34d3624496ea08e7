-- ===== src/WebhookSender/Entrypoint.antt =====
-- The entrypoint of the webhook sender (webhook_sender/__main__.py, `run`): one relay for each subject.
pub mod Starting
use jet_core_service_bus.Prelude.{String, ◌<>◌, Option, some, List, [], ◌∷◌, map}
use jet_core_service_bus.Python.Exec.{Exec, pure, ◌>>=◌}
use jet_core_service_bus.Python.HttpClient.{HttpClient}
use jet_core_service_bus.Python.Text.{replace_dots}
use jet_core_service_bus.Jetcore.Bus.{Bus}
use jet_core_service_bus.Entrypoint.{
  Task, Process, launch, loop, wait_for_shutdown, fetch_batch, fetch_timeout,
}
use jet_core_service_bus.WebhookSender.Relay.{RelayHandler, start, run_handler}

unfoldable pub relay_name : String → String → String
relay_name service_id subject = service_id <> "-relay-" <> replace_dots subject

module _ (target_url : String) (outbound_secret : Option String) where
  abbrev pub relay_handler : String → RelayHandler
  relay_handler subject = record {
    subject = subject;
    target_url = target_url;
    outbound_secret = outbound_secret;
  }

module _ {S : Type 0} (H : HttpClient S) (B : Bus S) (target_url : String)
    (outbound_secret : Option String) (service_id : String) where
  -- The start of one handler, and the loop that runs it
  unfoldable pub start_relay : String → Exec S (Task S)
  start_relay subject = do
    let handler = relay_handler target_url outbound_secret subject
    _ ← start H B handler (some (relay_name service_id subject))
    pure (loop (run_handler H B handler (relay_name service_id subject) fetch_batch fetch_timeout))

  -- `run`: the task that waits for the shutdown is there whatever the subjects are.
  unfoldable pub run_sender : List String → S → Process S
  run_sender subjects = launch (map start_relay subjects) (wait_for_shutdown ∷ [])
