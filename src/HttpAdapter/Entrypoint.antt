-- ===== src/HttpAdapter/Entrypoint.antt =====
-- The entrypoint of the HTTP adapter (http_adapter/__main__.py, `run`): one trigger handler for each
-- subject.
use jet_core_service_bus.Prelude.{String, ◌<>◌, Option, some, List, [], ◌∷◌, map}
use jet_core_service_bus.Python.Exec.{Exec, pure, ◌>>=◌}
use jet_core_service_bus.Python.Json.{JsonModule}
use jet_core_service_bus.Python.HttpClient.{HttpClient}
use jet_core_service_bus.Python.Text.{replace_dots}
use jet_core_service_bus.Jetcore.Bus.{Bus}
use jet_core_service_bus.Entrypoint.{
  Task, Process, launch, loop, wait_for_shutdown, fetch_batch, fetch_timeout,
}
use jet_core_service_bus.HttpAdapter.Trigger.{TriggerHandler, start, run_handler}

unfoldable pub trigger_name : String → String → String
trigger_name service_id subject = service_id <> "-trigger-" <> replace_dots subject

module _ (target_base_url : String) (auth_token : Option String) where
  abbrev trigger_handler : String → TriggerHandler
  trigger_handler subject = record {
    subject = subject;
    target_base_url = target_base_url;
    auth_token = auth_token;
  }

module _ {S : Type 0} (J : JsonModule) (H : HttpClient S) (now_iso : S → String × S) (B : Bus S)
    (target_base_url : String) (auth_token : Option String) (service_id : String) where
  -- The start of one handler, and the loop that runs it
  unfoldable pub start_trigger : String → Exec S (Task S)
  start_trigger subject = do
    let handler = trigger_handler target_base_url auth_token subject
    _ ← start J H now_iso B handler (some (trigger_name service_id subject))
    pure (
        loop (
          run_handler J H now_iso B handler (trigger_name service_id subject) fetch_batch
            fetch_timeout))

  unfoldable pub run_adapter : List String → S → Process S
  run_adapter subjects = launch (map start_trigger subjects) (wait_for_shutdown ∷ [])
