-- ===== src/HttpAdapter/Trigger/Settlement.antt =====
-- How the handling of a trigger ends (http_adapter/trigger_handler.py, `_handle`).
use jet_core_service_bus.Prelude.{String, ◌≡◌, refl, ◌⊎◌, inl, inr, true, arith, subst}
use jet_core_service_bus.Python.Exception.{Exception}
use jet_core_service_bus.Python.Exec.{◌>>=◌, always}
use jet_core_service_bus.Python.Exec.Hoare.{Triple, bind-Triple, except_return-Ends, weaken-Triple}
use jet_core_service_bus.Python.Json.{JsonModule}
use jet_core_service_bus.Python.HttpClient.{HttpResponse, HttpClient, is_request_error}
use jet_core_service_bus.Jetcore.Bus.{Bus}
use jet_core_service_bus.Jetcore.BusClient.{ReceivedEvent}
use jet_core_service_bus.Jetcore.BusClient.Sealing.{Publication}
use jet_core_service_bus.HttpAdapter.Trigger.{
  TriggerHandler, auth_headers, request_completed, report_response, handle,
}

-- The stages of one trigger: received; then either no response came, by that exception, or this
-- response; the time read; a report published; in the end completed, or given back. The stages after
-- the call keep the response that it returned. The call may be made once, with this event's payload,
-- to the handler's own address.
pub record TriggerProtocol {S : Type 0} (H : HttpClient S) (now_iso : S → String × S) (B : Bus S)
    (h : TriggerHandler) (event : ReceivedEvent) : Type 1 where
  pub Received : S → Type 0
  pub Unanswered : Exception → S → Type 0
  pub Answered : HttpResponse → S → Type 0
  pub Stamped : HttpResponse → String → S → Type 0
  pub Published : HttpResponse → String → Publication → S → Type 0
  pub Completed : HttpResponse → String → Publication → S → Type 0
  pub Retried : S → Type 0
  pub post :
      Triple Received
        (H.post h.target_base_url event.payload (auth_headers h.auth_token))
        Answered
        Unanswered
  pub clock :
      (response : HttpResponse) (s : S)
      → Answered response s
      → Stamped response (now_iso s).0 (now_iso s).1
  pub publish :
      (response : HttpResponse) (now : String) (sent : Publication)
      → Triple
          (Stamped response now)
          (B.publish sent)
          (λ _. Published response now sent)
          (λ _. Stamped response now)
  pub complete :
      (response : HttpResponse) (now : String) (sent : Publication)
      → Triple
          (Published response now sent)
          (B.ack event)
          (λ _. Completed response now sent)
          (λ _. Published response now sent)
  pub retry :
      Triple
        (Unanswered Exception.request_error)
        (B.nak event)
        (λ _. Retried)
        (λ _. Unanswered Exception.request_error)

is_request_error-eq : (e : Exception) → is_request_error e ≡ true → e ≡ Exception.request_error
is_request_error-eq Exception.request_error h = refl
is_request_error-eq e h = absurd (ground arith)

module _ {S : Type 0} (J : JsonModule) (H : HttpClient S) (now_iso : S → String × S) (B : Bus S)
    (h : TriggerHandler) (event : ReceivedEvent) (p : TriggerProtocol H now_iso B h event) where
  -- Completed with the report of the response that the call returned, or given back because none
  -- came.
  abbrev pub TriggerSettled : S → Type 0
  TriggerSettled s =
      ((response : HttpResponse) × (now : String) × p.Completed response now
          (request_completed J response now event) s)
      ⊎ p.Retried s

  -- Not settled: no response came, or it was not reported, or the report is not acknowledged.
  abbrev pub TriggerOpen : Exception → S → Type 0
  TriggerOpen e s =
      p.Unanswered e s
      ⊎ p.Unanswered Exception.request_error s
      ⊎ ((response : HttpResponse) × (now : String) × p.Stamped response now s)
      ⊎ ((response : HttpResponse) × (now : String) × p.Published response now
            (request_completed J response now event) s)

  announced-settles :
      (response : HttpResponse) (now : String)
      → Triple
          (p.Stamped response now)
          (do _ ← B.publish (request_completed J response now event); B.ack event)
          (λ _. TriggerSettled)
          TriggerOpen
  announced-settles response now =
      let sent = request_completed J response now event in
      bind-Triple (p.Stamped response now) (λ _. p.Published response now sent)
        (λ _. TriggerSettled) TriggerOpen (B.publish sent) (λ _. B.ack event)
        (weaken-Triple (B.publish sent) (λ _ _ q. q) (λ _ _ q. inr (inr (inl (response, now, q))))
          (p.publish response now sent))
        λ _.
          weaken-Triple (B.ack event) (λ _ _ q. inl (response, now, q))
            (λ _ _ q. inr (inr (inr (response, now, q)))) (p.complete response now sent)

  report_response-settles :
      (response : HttpResponse)
      → Triple
          (p.Answered response)
          (report_response J H now_iso B h response event)
          (λ _. TriggerSettled)
          TriggerOpen
  unfolding report_response
  report_response-settles response =
      bind-Triple (p.Answered response) (p.Stamped response) (λ _. TriggerSettled) TriggerOpen
        (always now_iso) _ (λ s a. p.clock response s a) (announced-settles response)

  -- Let an event be received, and let the calls lead from stage to stage as the protocol says. When
  -- `handle` returns, the event was acknowledged after the report of the very response that the
  -- call returned, of whatever status, and of the time that was read was published, or it was given
  -- back, which it is only when no response came; when `handle` raises, the event is at a stage
  -- before its settlement.
  pub handle-TriggerSettled :
      Triple p.Received (handle J H now_iso B h event) (λ _. TriggerSettled) TriggerOpen
  unfolding handle
  handle-TriggerSettled s r =
      except_return-Ends p.Answered (λ _. TriggerSettled) p.Unanswered TriggerOpen
        (H.post h.target_base_url event.payload (auth_headers h.auth_token)) is_request_error
        (B.nak event) (λ response. report_response J H now_iso B h response event)
        (λ e caught s' q.
          weaken-Triple (B.nak event) (λ _ _ z. inr z) (λ _ _ z. inr (inl z)) p.retry s'
            (subst (λ x. p.Unanswered x s') (is_request_error-eq e caught) q))
        (λ e s' passed q. inl q) report_response-settles s (p.post s r)
