-- ===== src/Tests/Adapters.antt =====
-- The properties of the HTTP adapter and of the webhook adapters at concrete inputs.
use jet_core_service_bus.Prelude.{
  [], ◌++◌, ◌∷◌, String, some, List, ◌≡◌, false, length, arith, refl,
}
use jet_core_service_bus.Python.Exec.Hoare.{Ends}
use jet_core_service_bus.Python.HttpClient.{HttpResponse, HttpClient}
use jet_core_service_bus.Python.Exception.{Exception, ok, err}
use jet_core_service_bus.Jetcore.Bus.{Bus}
use jet_core_service_bus.Jetcore.BusClient.{ReceivedEvent}
use jet_core_service_bus.Jetcore.BusClient.Sealing.{Publication}
use jet_core_service_bus.HttpAdapter.Trigger
use jet_core_service_bus.HttpAdapter.Trigger.{TriggerHandler}
use jet_core_service_bus.HttpAdapter.Trigger.Settlement.{
  TriggerProtocol, TriggerSettled, TriggerOpen, handle-TriggerSettled,
}
use jet_core_service_bus.WebhookSender.Relay.{RelayHandler, run_handler}
use jet_core_service_bus.WebhookSender.Relay.BestEffort.{RelayProtocol, Stopped, run_handler-Acked}
use jet_core_service_bus.WebhookListener.App.{WebhookRequest, receive_webhook, check_secret}
use jet_core_service_bus.WebhookListener.App.Handling.{Outcome, receive_webhook-Outcome}
use jet_core_service_bus.Python.Secrets.{is_ascii, compare_digest}
use jet_core_service_bus.Tests.Libraries.{test_json, test_json-RoundTrips}
use jet_core_service_bus.Tests.Bus.{received}

-- How far one trigger is
data Trip : Type 0 where
  arrived : Trip
  unanswered : Exception → Trip
  answered : HttpResponse → Trip
  stamped : HttpResponse → String → Trip
  published : HttpResponse → String → Publication → Trip
  completed : HttpResponse → String → Publication → Trip
  retried : Trip

abbrev acked_trip : Trip → Trip
acked_trip (published response now p) = completed response now p
acked_trip s = s

abbrev published_trip : Publication → Trip → Trip
published_trip p (stamped response now) = published response now p
published_trip p s = s

abbrev stamped_trip : Trip → Trip
stamped_trip (answered response) = stamped response "now"
stamped_trip s = s

abbrev response : HttpResponse
response = record { status_code = 503; content = 1 ∷ []; is_success = false }

abbrev trip_http : HttpClient Trip
trip_http = record {
  post = λ url content headers s. (ok response, answered response);
  raise_for_status = λ r. ok tt;
}

abbrev trip_bus : Bus Trip
trip_bus = record {
  publish = λ p s. (ok "id", published_trip p s);
  subscribe = λ subject name s. (ok "d", s);
  fetch = λ name batch timeout s. (ok [], s);
  ack = λ e s. (ok tt, acked_trip s);
  nak = λ e s. (ok tt, retried);
}

abbrev now : Trip → String × Trip
now s = ("now", stamped_trip s)

abbrev trigger : TriggerHandler
trigger = record { subject = "orders"; target_base_url = "http://api"; auth_token = some "t" }

trip_protocol : TriggerProtocol trip_http now trip_bus trigger received
trip_protocol = record {
  Received = λ s. s ≡ arrived;
  Unanswered = λ e s. s ≡ unanswered e;
  Answered = λ r s. s ≡ answered r;
  Stamped = λ r now s. s ≡ stamped r now;
  Published = λ r now p s. s ≡ published r now p;
  Completed = λ r now p s. s ≡ completed r now p;
  Retried = λ s. s ≡ retried;
  post = λ s h. refl;
  clock = λ r s h. rw h refl;
  publish = λ r now p s h. rw h refl;
  complete = λ r now p s h. rw h refl;
  retry = λ s h. refl;
}

handle-TriggerSettled_example :
    Ends
      (λ _. TriggerSettled test_json trip_http now trip_bus trigger received trip_protocol)
      (TriggerOpen test_json trip_http now trip_bus trigger received trip_protocol)
      (Trigger.handle test_json trip_http now trip_bus trigger received arrived)
unfolding trip_protocol
handle-TriggerSettled_example =
    handle-TriggerSettled test_json trip_http now trip_bus trigger received trip_protocol arrived
      refl

-- How far one round of a relay is
pub data Round : Type 0 where
  ready : Round
  acked : List ReceivedEvent → List ReceivedEvent → Round
  posted : List ReceivedEvent → List ReceivedEvent → Round

abbrev after_post : Round → Round
after_post (acked batch done) = posted batch done
after_post s = s

abbrev after_ack : ReceivedEvent → Round → Round
after_ack e (posted batch done) = acked batch (done ++ e ∷ [])
after_ack e s = s

-- Nobody listens at the address.
abbrev pub round_http : HttpClient Round
round_http = record {
  post = λ url content headers s. (err Exception.request_error, after_post s);
  raise_for_status = λ r. ok tt;
}

abbrev pub round_bus : Bus Round
round_bus = record {
  publish = λ p s. (ok "id", s);
  subscribe = λ subject name s. (ok "d", s);
  fetch =
      λ name batch timeout s. (ok (received ∷ received ∷ []), acked (received ∷ received ∷ []) []);
  ack = λ e s. (ok tt, after_ack e s);
  nak = λ e s. (ok tt, s);
}

abbrev relay : RelayHandler
relay = record { subject = "orders"; target_url = "http://hook"; outbound_secret = some "s" }

round_protocol : RelayProtocol round_http round_bus relay "d" 10 2000
round_protocol = record {
  Ready = λ s. s ≡ ready;
  Acked = λ batch done s. s ≡ acked batch done;
  Posted = λ batch done e s. s ≡ posted batch done;
  fetch = λ s h. refl;
  post = λ batch done e s h. rw h refl;
  ack = λ batch done e s h. rw h refl;
}

run_handler-Acked_example :
    Ends
      (λ n s. (batch : List ReceivedEvent) × (n ≡ length batch) × (s ≡ acked batch batch))
      (Stopped round_http round_bus relay "d" 10 2000 round_protocol)
      (run_handler round_http round_bus relay "d" 10 2000 ready)
unfolding round_protocol
run_handler-Acked_example =
    run_handler-Acked round_http round_bus relay "d" 10 2000 round_protocol ready refl

abbrev hook_bus : Bus (List Publication)
hook_bus = record {
  publish = λ p s. (ok "id", p ∷ s);
  subscribe = λ subject name s. (ok "d", s);
  fetch = λ name batch timeout s. (ok [], s);
  ack = λ e s. (ok tt, s);
  nak = λ e s. (ok tt, s);
}

abbrev webhook : WebhookRequest
webhook = record {
  path = "a/b";
  header_secret = some "s3";
  idempotency_key = some "k";
  body = 104 ∷ 105 ∷ [];
}

receive_webhook-Outcome_example :
    Outcome test_json hook_bus "s3" webhook [] webhook.header_secret
      (receive_webhook test_json hook_bus "s3" webhook [])
receive_webhook-Outcome_example =
    receive_webhook-Outcome test_json hook_bus "s3" webhook [] test_json-RoundTrips
      (omega arith, (omega arith, tt))

abbrev accented : WebhookRequest
accented = record webhook { header_secret = some "é" }

-- A header that is not ASCII
no_answer : receive_webhook test_json hook_bus "s3" accented [] ≡ (err Exception.type_error, [])
unfolding receive_webhook check_secret compare_digest is_ascii
no_answer = refl
