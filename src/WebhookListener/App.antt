-- ===== src/WebhookListener/App.antt =====
-- The endpoint that takes a webhook (webhook_listener/app.py). FastAPI's part is done: the path is
-- taken from the URL, the headers are looked up, the body is read. An `HTTPException` is the answer
-- that FastAPI makes of it.
pub mod Handling
use jet_core_service_bus.Prelude.{
  ℕ, String, Bool, true, false, Option, none, some, str_eq, if◌then◌else◌,
}
use jet_core_service_bus.Python.Exec.{Exec, pure, lift, ◌>>=◌}
use jet_core_service_bus.Python.Json.{Bytes, Json, Fields, JsonModule}
use jet_core_service_bus.Python.Base64.{b64encode}
use jet_core_service_bus.Python.Secrets.{compare_digest}
use jet_core_service_bus.Jetcore.Bus.{Bus}
use jet_core_service_bus.Jetcore.BusClient.Sealing.{Publication}

abbrev pub write_requested_subject : String
write_requested_subject = "events.files.FileWriteRequested"

pub record WebhookRequest : Type 0 where
  pub path : String
  -- `X-Webhook-Secret`
  pub header_secret : Option String
  -- `Idempotency-Key`
  pub idempotency_key : Option String
  pub body : Bytes

-- The status, and the `detail` of an `HTTPException`
pub record WebhookResponse : Type 0 where
  pub status_code : ℕ
  pub detail : Option String

abbrev pub unauthorized : WebhookResponse
unauthorized = record { status_code = 401; detail = some "missing or invalid X-Webhook-Secret" }

abbrev pub bad_request : WebhookResponse
bad_request = record { status_code = 400; detail = some "a target file path is required" }

abbrev pub accepted : WebhookResponse
accepted = record { status_code = 202; detail = none }

unfoldable pub write_command : JsonModule → WebhookRequest → Publication
write_command J request = record {
  subject = write_requested_subject;
  payload = J.dumps (
      Json.obj (
        Fields.field "path" (Json.str request.path)
          (Fields.field "content" (Json.str (b64encode request.body)) Fields.end)));
  event_type = "FileWriteRequested";
  event_schema_version = "1.0.0";
  correlation_id = none;
  msg_id = request.idempotency_key;
}

module _ {S : Type 0} (J : JsonModule) (B : Bus S) (expected_secret : String) where
  -- What follows the check of the secret
  unfoldable pub forward : WebhookRequest → Exec S WebhookResponse
  forward request =
      if str_eq request.path ""
      then pure bad_request
      else (do _ ← B.publish (write_command J request); pure accepted)

  unfoldable pub check_secret : Option String → WebhookRequest → Exec S WebhookResponse
  check_secret none request = pure unauthorized
  check_secret (some secret) request = do
    same ← lift (compare_digest secret expected_secret)
    if same then forward request else pure unauthorized

  -- `receive_webhook`
  unfoldable pub receive_webhook : WebhookRequest → Exec S WebhookResponse
  unfolding forward check_secret
  receive_webhook request = check_secret request.header_secret request
