-- ===== src/DbAdapter/Cdc/Published.antt =====
-- Every row of every event that the change-data capture reads is published, in order
-- (db_adapter_mysql/cdc_watcher.py).
use jet_core_service_bus.Prelude.{
  ℕ, zero, suc, ◌≡◌, refl, Bool, true, false, Option, none, some, List, [], ◌∷◌, ◌++◌, append-nil,
  append_assoc, sym, subst, if◌then◌else◌,
}
use jet_core_service_bus.Python.Exception.{Exception, Result, ok, err}
use jet_core_service_bus.Python.Exec.{Exec, pure, ◌>>=◌, always}
use jet_core_service_bus.Python.Exec.Keeps.{Keeps}
use jet_core_service_bus.Python.Exec.Hoare.{
  Triple, Ends, bind-Triple, weaken-Triple, finally-Ends, if-Triple,
}
use jet_core_service_bus.Python.Json.{JsonModule}
use jet_core_service_bus.Jetcore.Bus.{Bus}
use jet_core_service_bus.Jetcore.BusClient.Sealing.{Publication}
use jet_core_service_bus.DbAdapter.Cdc.{
  BinlogEvent, Binlog, found, publish_event, handle_found, run_pass, scan, round, run_rounds,
  run_stream, poll_interval,
}
use jet_core_service_bus.DbAdapter.Cdc.Log.{
  CdcProtocol, row_changes, changes, changes-append, publish_each, publish_event-each,
}

module _ {S : Type 0} (J : JsonModule) (B : Bus S) (L : Binlog S) (p : CdcProtocol B L) where
  -- The publications are some of those that were due, from the first on.
  abbrev pub Short : List BinlogEvent → List Publication → S → Type 0
  Short es due s =
      (ps : List Publication) × (qs : List Publication) × (ps ++ qs ≡ due) × p.At es ps s

  publish_each-At :
      (es : List BinlogEvent) (ps qs : List Publication)
      → Triple
          (p.At es ps)
          (publish_each J B L qs)
          (λ _. p.At es (ps ++ qs))
          (λ _. Short es (ps ++ qs))
  unfolding publish_each
  publish_each-At es ps [] s h = subst (λ l. p.At es l s) (sym (append-nil ps)) h
  publish_each-At es ps (q ∷ qs) s h =
      bind-Triple (p.At es ps) (λ _. p.At es (ps ++ q ∷ [])) (λ _. p.At es (ps ++ q ∷ qs))
        (λ _. Short es (ps ++ q ∷ qs)) _ (λ _. publish_each J B L qs)
        (bind-Triple (p.At es ps) (λ _. p.At es (ps ++ q ∷ [])) (λ _. p.At es (ps ++ q ∷ []))
          (λ _. Short es (ps ++ q ∷ qs)) (B.publish q) (λ _. pure tt)
          (weaken-Triple (B.publish q) (λ _ _ z. z) (λ _ _ z. (ps, q ∷ qs, refl, z))
            (p.publish es ps q))
          (λ _ _ z. z))
        (λ _ s' h'.
          subst (λ l. Ends {S = S} (λ _. p.At es l) (λ _. Short es l) (publish_each J B L qs s'))
            (append_assoc ps (q ∷ []) qs) (publish_each-At es (ps ++ q ∷ []) qs s' h'))
        s h

  -- All that was read is published.
  abbrev Good : S → Type 0
  Good s = (es : List BinlogEvent) × p.At es (changes J es) s

  abbrev Bad : Exception → S → Type 0
  Bad e s = (es : List BinlogEvent) × Short es (changes J es) s

  Good-Bad : (e : Exception) (s : S) → Good s → Bad e s
  Good-Bad e s (es, h) = (es, (changes J es, [], append-nil (changes J es), h))

  good :
      {A : Type 0} (m : Exec S A)
      → ((es : List BinlogEvent) (ps : List Publication) → Keeps (p.At es ps) m)
      → Triple Good m (λ _. Good) Bad
  good {A = A} m keeps s (es, h) = ends (m s).0 (m s).1 (keeps es (changes J es) s h)
    where
      ends :
          (r : Result A) (s' : S) → p.At es (changes J es) s' → Ends {S = S} (λ _. Good) Bad (r, s')
      ends (ok a) s' q = (es, q)
      ends (err e) s' q = Good-Bad e s' (es, q)

  publish_event-Good :
      (es : List BinlogEvent) (event : BinlogEvent)
      → Triple (p.At (es ++ event ∷ []) (changes J es)) (publish_event J B L event) (λ _. Good) Bad
  publish_event-Good es event s h =
      subst (λ (m : Exec S (Unit {0})). Ends {S = S} (λ _. Good) Bad (m s))
        (sym (publish_event-each J B L event))
        (ends (publish_each J B L (row_changes J event) s).0
          (publish_each J B L (row_changes J event) s).1
          (publish_each-At (es ++ event ∷ []) (changes J es) (row_changes J event) s h))
    where
      ends :
          (r : Result (Unit {0})) (s' : S)
          → Ends {S = S}
              (λ _. p.At (es ++ event ∷ []) (changes J es ++ row_changes J event))
              (λ _. Short (es ++ event ∷ []) (changes J es ++ row_changes J event))
              (r, s')
          → Ends {S = S} (λ _. Good) Bad (r, s')
      ends (ok _) s' q = (
        es ++ event ∷ [],
        subst (λ l. p.At (es ++ event ∷ []) l s') (sym (changes-append J es event)) q,
      )
      ends (err e) s' q = (
        es ++ event ∷ [],
        subst (λ l. Short (es ++ event ∷ []) l s') (sym (changes-append J es event)) q,
      )

  check-Good :
      {A : Type 0} (k : Bool → Exec S A) (Q : A → S → Type 0)
      → ((b : Bool) → Triple Good (k b) Q Bad)
      → Triple Good (always L.is_set >>= k) Q Bad
  check-Good k Q hk =
      bind-Triple Good (λ _. Good) Q Bad (always L.is_set) k (good (always L.is_set) p.is_set) hk

  run_pass-Good : (n : ℕ) → Triple Good (run_pass J B L n) (λ _. Good) Bad
  unfolding run_pass
  run_pass-Good zero s h = Good-Bad Exception.blocked s h
  run_pass-Good (suc n) s (es, h) =
      bind-Triple (p.At es (changes J es)) (λ o. p.At (es ++ found o) (changes J es)) (λ _. Good)
        Bad L.next_event (handle_found J B L (run_pass J B L n))
        (weaken-Triple L.next_event (λ _ _ z. z) (λ e s' z. Good-Bad e s' (es, z))
          (p.caught_up es (changes J es)))
        (handled n es (run_pass-Good n)) s h
    where
      handled :
          (n : ℕ) (es : List BinlogEvent)
          → Triple Good (run_pass J B L n) (λ _. Good) Bad
          → (o : Option BinlogEvent)
          → Triple
              (p.At (es ++ found o) (changes J es))
              (handle_found J B L (run_pass J B L n) o)
              (λ _. Good)
              Bad
      handled n es ih none s' z = (es, subst (λ l. p.At l (changes J es) s') (append-nil es) z)
      handled n es ih (some event) s' z =
          bind-Triple (p.At (es ++ event ∷ []) (changes J es)) (λ _. Good) (λ _. Good) Bad
            (publish_event J B L event) _ (publish_event-Good es event)
            (λ _.
              check-Good (λ stop. if stop then pure tt else run_pass J B L n) (λ _. Good)
                (λ b. if-Triple Good (λ _. Good) Bad b (pure tt) (run_pass J B L n) (λ _ h. h) ih))
            s' z

  scan-Good : (events : ℕ) → Triple Good (scan J B L events) (λ _. Good) Bad
  unfolding scan
  scan-Good events =
      bind-Triple Good (λ _. Good) (λ _. Good) Bad (run_pass J B L events) _ (run_pass-Good events)
        λ _.
          check-Good _ (λ _. Good)
            λ b.
              bind-Triple Good (λ _. Good) (λ _. Good) Bad
                (if b then pure tt else L.wait poll_interval) (λ _. pure true)
                (if-Triple Good (λ _. Good) Bad b (pure tt) (L.wait poll_interval) (λ _ h. h)
                  (good (L.wait poll_interval) p.wait))
                (λ _ s h. h)

  round-Good : (events : ℕ) → Triple Good (round J B L events) (λ _. Good) Bad
  unfolding round
  round-Good events =
      check-Good _ (λ _. Good)
        λ b.
          if-Triple Good (λ _. Good) Bad b (pure false) (scan J B L events) (λ _ h. h)
            (scan-Good events)

  run_rounds-Good : (events n : ℕ) → Triple Good (run_rounds J B L events n) (λ _. Good) Bad
  unfolding run_rounds
  run_rounds-Good events zero s h = Good-Bad Exception.blocked s h
  run_rounds-Good events (suc n) s h =
      bind-Triple Good (λ _. Good) (λ _. Good) Bad (round J B L events) _ (round-Good events)
        (λ b.
          if-Triple Good (λ _. Good) Bad b (run_rounds J B L events n) (pure tt)
            (run_rounds-Good events n) (λ _ h. h))
        s h

  -- The stream is closed, and all that was read is published.
  abbrev pub AllPublished : S → Type 0
  AllPublished s = (es : List BinlogEvent) × p.Closed es (changes J es) s

  -- The stream is closed, and of what was read the first publications are made.
  abbrev pub SomePublished : S → Type 0
  SomePublished s =
      (es : List BinlogEvent) × (ps : List Publication) × (qs : List Publication) × (ps ++ qs
        ≡ changes J es)
      × p.Closed es ps s

  -- Let the calls lead from stage to stage as the protocol says. When `run_stream` returns, the
  -- stream is closed and the publications are those of all rows of all events that were read, in
  -- order; when it raises, the stream is closed and the publications are the first of these.
  pub run_stream-AllPublished :
      (events rounds : ℕ)
      → Triple
          (p.At [] [])
          (run_stream J B L events rounds)
          (λ _. AllPublished)
          (λ _. SomePublished)
  unfolding run_stream changes
  run_stream-AllPublished events rounds s h =
      finally-Ends (λ _. Good) (λ _. AllPublished) Bad (λ _. SomePublished)
        (run_rounds J B L events rounds) L.close
        (λ _ s' (es, q).
          weaken-Triple L.close (λ _ _ z. (es, z))
            (λ _ _ z. (es, changes J es, [], append-nil (changes J es), z))
            (p.close es (changes J es)) s' q)
        (λ e s' (es, (ps, qs, short, q)).
          weaken-Triple L.close (λ _ _ z. (es, ps, qs, short, z)) (λ _ _ z. (es, ps, qs, short, z))
            (p.close es ps) s' q)
        s (run_rounds-Good events rounds s ([], h))
