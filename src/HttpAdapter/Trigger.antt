-- ===== src/HttpAdapter/Trigger.antt =====
-- The handler that calls the external API for every event of its subject, and reports what it said
-- (http_adapter/trigger_handler.py).
pub mod Settlement
use jet_core_service_bus.Prelude.{ℕ, String, ◌<>◌, Option, none, some, [], if◌then◌else◌}
use jet_core_service_bus.Python.Exec.{Exec, ◌>>=◌, except_return, always}
use jet_core_service_bus.Python.Json.{JsonModule}
use jet_core_service_bus.Python.Dict.{Dict, insert}
use jet_core_service_bus.Python.Equality.{string_eq}
use jet_core_service_bus.Python.HttpClient.{HttpResponse, HttpClient, is_request_error}
use jet_core_service_bus.Jetcore.Bus.{Bus}
use jet_core_service_bus.Jetcore.BusClient.{ReceivedEvent}
use jet_core_service_bus.Jetcore.BusClient.Sealing.{Publication}
use jet_core_service_bus.Adapter.{report, run_once}
use jet_core_service_bus.HttpAdapter.Payloads.{encode_request_completed}

abbrev pub request_completed_subject : String
request_completed_subject = "events.http.RequestCompleted"

-- The fields of a `TriggerHandler` besides its two clients
pub record TriggerHandler : Type 0 where
  pub subject : String
  pub target_base_url : String
  pub auth_token : Option String

unfoldable pub auth_headers : Option String → Dict String String
auth_headers none = []
auth_headers (some token) = insert "Authorization" ("Bearer " <> token) []

-- What is published for a response, of whatever status
unfoldable pub request_completed : JsonModule → HttpResponse → String → ReceivedEvent → Publication
request_completed J response occurred_at event =
    report request_completed_subject
      (encode_request_completed J (if response.is_success then "success" else "error")
        response.status_code response.content occurred_at)
      "RequestCompleted" event

-- `now_iso` is the clock of the payload.
module _ {S : Type 0} (J : JsonModule) (H : HttpClient S) (now_iso : S → String × S) (B : Bus S)
    (h : TriggerHandler) where
  unfoldable pub report_response : HttpResponse → ReceivedEvent → Exec S (Unit {0})
  report_response response event = do
    occurred_at ← always now_iso
    _ ← B.publish (request_completed J response occurred_at event)
    B.ack event

  -- `_handle`
  unfoldable pub handle : ReceivedEvent → Exec S (Unit {0})
  handle event =
      except_return (H.post h.target_base_url event.payload (auth_headers h.auth_token))
        is_request_error (B.nak event) (λ response. report_response response event)

  unfoldable pub start : Option String → Exec S String
  start durable_name = B.subscribe h.subject durable_name

  unfoldable pub run_handler : String → ℕ → ℕ → Exec S ℕ
  run_handler durable_name batch timeout = run_once handle (B.fetch durable_name batch timeout)
