-- ===== src/WebhookSender/Relay/BestEffort.antt =====
-- Every event of a batch is posted once and acknowledged, whatever the address answers
-- (webhook_sender/relay_handler.py).
use jet_core_service_bus.Prelude.{ℕ, String, ◌≡◌, ◌⊎◌, inl, inr, List, [], ◌∷◌, ◌++◌, length}
use jet_core_service_bus.Python.Exception.{Exception, Result, ok, err, is_http_error}
use jet_core_service_bus.Python.Exec.{pure, lift}
use jet_core_service_bus.Python.Exec.Hoare.{Triple, bind-Triple, except-Ends, weaken-Triple}
use jet_core_service_bus.Python.HttpClient.{HttpClient}
use jet_core_service_bus.Jetcore.Bus.{Bus}
use jet_core_service_bus.Jetcore.BusClient.{ReceivedEvent}
use jet_core_service_bus.Adapter.Batch.{run_once-Done}
use jet_core_service_bus.WebhookSender.Relay.{
  RelayHandler, relay_headers, attempt, handle, run_handler,
}

-- The stages of one round: ready; a batch fetched, of which these events were acknowledged, in this
-- order; the next one posted. There is no stage for a publication or a redelivery: none may be asked
-- for. A post leads on whether it raises or not.
pub record RelayProtocol {S : Type 0} (H : HttpClient S) (B : Bus S) (h : RelayHandler)
    (durable_name : String) (size timeout : ℕ) : Type 1 where
  pub Ready : S → Type 0
  pub Acked : List ReceivedEvent → List ReceivedEvent → S → Type 0
  pub Posted : List ReceivedEvent → List ReceivedEvent → ReceivedEvent → S → Type 0
  pub fetch :
      Triple Ready (B.fetch durable_name size timeout) (λ batch. Acked batch []) (λ _. Ready)
  pub post :
      (batch done : List ReceivedEvent) (event : ReceivedEvent)
      → Triple
          (Acked batch done)
          (H.post h.target_url event.payload (relay_headers h.outbound_secret event))
          (λ _. Posted batch done event)
          (λ _. Posted batch done event)
  pub ack :
      (batch done : List ReceivedEvent) (event : ReceivedEvent)
      → Triple
          (Posted batch done event)
          (B.ack event)
          (λ _. Acked batch (done ++ event ∷ []))
          (λ _. Posted batch done event)

lift-Triple : {S A : Type 0} (P : S → Type 0) (r : Result A) → Triple P (lift r) (λ _. P) (λ _. P)
lift-Triple P (ok a) s h = h
lift-Triple P (err e) s h = h

module _ {S : Type 0} (H : HttpClient S) (B : Bus S) (h : RelayHandler) (durable_name : String)
    (size timeout : ℕ) (p : RelayProtocol H B h durable_name size timeout) where
  -- Where a round stops by an exception: nothing was fetched, or one event was posted and not
  -- acknowledged.
  abbrev pub Stopped : Exception → S → Type 0
  Stopped e s =
      p.Ready s
      ⊎ ((batch : List ReceivedEvent) × (done : List ReceivedEvent) × (event : ReceivedEvent)
          × p.Posted batch done event s)

  module _ (batch done : List ReceivedEvent) (event : ReceivedEvent) where
    attempt-Posted :
        Triple
          (p.Acked batch done)
          (attempt H B h event)
          (λ _. p.Posted batch done event)
          (λ _. p.Posted batch done event)
    unfolding attempt
    attempt-Posted =
        bind-Triple (p.Acked batch done) (λ _. p.Posted batch done event)
          (λ _. p.Posted batch done event) (λ _. p.Posted batch done event)
          (H.post h.target_url event.payload (relay_headers h.outbound_secret event)) _
          (p.post batch done event)
          (λ response. lift-Triple (p.Posted batch done event) (H.raise_for_status response))

    handle-Acked :
        Triple
          (p.Acked batch done)
          (handle H B h event)
          (λ _. p.Acked batch (done ++ event ∷ []))
          Stopped
    unfolding handle
    handle-Acked =
        bind-Triple (p.Acked batch done) (λ _. p.Posted batch done event)
          (λ _. p.Acked batch (done ++ event ∷ [])) Stopped _ (λ _. B.ack event)
          (λ s a.
            except-Ends (λ _. p.Posted batch done event) (λ _. p.Posted batch done event) Stopped
              (attempt H B h event) is_http_error (λ _. pure tt) (λ e caught s' q. q)
              (λ e s' passed q. inr (batch, done, event, q)) s (attempt-Posted s a))
          λ _.
            weaken-Triple (B.ack event) (λ _ _ q. q) (λ _ _ q. inr (batch, done, event, q))
              (p.ack batch done event)

  -- Let the calls lead from stage to stage as the protocol says. When `run_handler` returns `n`, it
  -- fetched a batch of `n` events and posted and acknowledged each of them in order, whether the
  -- posts succeeded or not; when it raises, nothing was fetched, or the events before one that was
  -- posted are acknowledged. No post may be made twice, and nothing may be published or given back.
  pub run_handler-Acked :
      Triple p.Ready
        (run_handler H B h durable_name size timeout)
        (λ n s. (batch : List ReceivedEvent) × (n ≡ length batch) × p.Acked batch batch s)
        Stopped
  unfolding run_handler
  run_handler-Acked =
      run_once-Done p.Acked Stopped (handle H B h) handle-Acked p.Ready
        (B.fetch durable_name size timeout)
        (weaken-Triple (B.fetch durable_name size timeout) (λ _ _ q. q) (λ _ _ q. inl q) p.fetch)
