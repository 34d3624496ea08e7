-- ===== src/Adapter/Batch.antt =====
-- What one `run_once` brings about, from what the handling of each event does (the handlers under
-- adapters/).
use jet_core_service_bus.Prelude.{
  ◌≡◌, refl, List, [], ◌∷◌, ◌++◌, length, append_assoc, append-nil, subst, sym,
}
use jet_core_service_bus.Python.Exception.{Exception}
use jet_core_service_bus.Python.Exec.{Exec, pure}
use jet_core_service_bus.Python.Exec.Hoare.{Triple, Ends, bind-Triple}
use jet_core_service_bus.Jetcore.BusClient.{ReceivedEvent}
use jet_core_service_bus.Adapter.{handle_all, run_once}

-- `Done batch events`: of the batch that was fetched, these events were handled, in this order.
module _ {S : Type 0} (Done : List ReceivedEvent → List ReceivedEvent → S → Type 0)
    (E : Exception → S → Type 0) (handle : ReceivedEvent → Exec S (Unit {0}))
    (one : (batch done : List ReceivedEvent) (event : ReceivedEvent)
      → Triple (Done batch done) (handle event) (λ _. Done batch (done ++ event ∷ [])) E) where
  handle_all-Done :
      (batch done events : List ReceivedEvent)
      → Triple (Done batch done) (handle_all handle events) (λ _. Done batch (done ++ events)) E
  unfolding handle_all
  handle_all-Done batch done [] s h = subst (λ l. Done batch l s) (sym (append-nil done)) h
  handle_all-Done batch done (event ∷ events) s h =
      bind-Triple (Done batch done) (λ _. Done batch (done ++ event ∷ []))
        (λ _. Done batch (done ++ event ∷ events)) E (handle event) _ (one batch done event)
        (λ _ s' h'.
          subst (λ l. Ends {S = S} (λ _. Done batch l) E (handle_all handle events s'))
            (append_assoc done (event ∷ []) events)
            (handle_all-Done batch (done ++ event ∷ []) events s' h'))
        s h

  pub run_once-Done :
      (P : S → Type 0) (fetch : Exec S (List ReceivedEvent))
      → Triple P fetch (λ batch. Done batch []) E
      → Triple P
          (run_once handle fetch)
          (λ n s. (batch : List ReceivedEvent) × (n ≡ length batch) × Done batch batch s)
          E
  unfolding run_once
  run_once-Done P fetch fetched =
      bind-Triple P (λ batch. Done batch [])
        (λ n s. (batch : List ReceivedEvent) × (n ≡ length batch) × Done batch batch s) E fetch _
        fetched
        λ batch.
          bind-Triple (Done batch []) (λ _. Done batch batch)
            (λ n s. (batch : List ReceivedEvent) × (n ≡ length batch) × Done batch batch s) E
            (handle_all handle batch) (λ _. pure (length batch)) (handle_all-Done batch [] batch)
            (λ _ s h. (batch, refl, h))
