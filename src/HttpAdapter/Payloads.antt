-- ===== src/HttpAdapter/Payloads.antt =====
-- The payload that reports a call (http_adapter/payloads.py). The time is the text that `_iso` makes of
-- it.
use jet_core_service_bus.Prelude.{ℕ, ℤ, String}
use jet_core_service_bus.Python.Json.{Bytes, Json, Fields, JsonModule}
use jet_core_service_bus.Python.Base64.{b64encode}

module _ (J : JsonModule) where
  unfoldable pub encode_request_completed : String → ℕ → Bytes → String → Bytes
  encode_request_completed status status_code body occurred_at = J.dumps (
      Json.obj (
        Fields.field "status" (Json.str status) (
          Fields.field "statusCode" (Json.int (ℤ.pos status_code)) (
            Fields.field "body" (Json.str (b64encode body))
              (Fields.field "occurredAt" (Json.str occurred_at) Fields.end)))))
