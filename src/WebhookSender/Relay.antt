-- ===== src/WebhookSender/Relay.antt =====
-- The handler that posts every payload of its subject to one address, once
-- (webhook_sender/relay_handler.py).
pub mod BestEffort
use jet_core_service_bus.Prelude.{ℕ, String, Option, none, some, [], ◌∷◌}
use jet_core_service_bus.Python.Exception.{Exception, is_http_error}
use jet_core_service_bus.Python.Exec.{Exec, pure, lift, ◌>>=◌, except}
use jet_core_service_bus.Python.Dict.{Dict, insert}
use jet_core_service_bus.Python.Equality.{string_eq}
use jet_core_service_bus.Python.HttpClient.{HttpClient}
use jet_core_service_bus.Jetcore.Bus.{Bus}
use jet_core_service_bus.Jetcore.BusClient.{ReceivedEvent, details}
use jet_core_service_bus.Adapter.{run_once}

-- The fields of a `RelayHandler` besides its two clients
pub record RelayHandler : Type 0 where
  pub subject : String
  pub target_url : String
  pub outbound_secret : Option String

abbrev with_secret : Option String → Dict String String → Dict String String
with_secret none headers = headers
with_secret (some secret) headers = insert "X-Webhook-Secret" secret headers

unfoldable pub relay_headers : Option String → ReceivedEvent → Dict String String
relay_headers secret event =
    with_secret secret
      (("X-Event-Type", (details event).event_type) ∷ ("X-Event-Id", (details event).event_id) ∷ [])

module _ {S : Type 0} (H : HttpClient S) (B : Bus S) (h : RelayHandler) where
  -- What stands in the `try`
  unfoldable pub attempt : ReceivedEvent → Exec S (Unit {0})
  attempt event = do
    response ← H.post h.target_url event.payload (relay_headers h.outbound_secret event)
    lift (H.raise_for_status response)

  -- `_handle`: a failure is logged, and the event is acknowledged all the same.
  unfoldable pub handle : ReceivedEvent → Exec S (Unit {0})
  unfolding attempt
  handle event = do _ ← except (attempt event) is_http_error (λ _. pure tt); B.ack event

  unfoldable pub start : Option String → Exec S String
  start durable_name = B.subscribe h.subject durable_name

  unfoldable pub run_handler : String → ℕ → ℕ → Exec S ℕ
  run_handler durable_name batch timeout = run_once handle (B.fetch durable_name batch timeout)
