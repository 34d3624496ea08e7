-- ===== src/DbAdapter/Cdc/Termination.antt =====
-- The change-data capture ends once the shutdown event is set (db_adapter_mysql/cdc_watcher.py).
use jet_core_service_bus.Prelude.{
  ℕ, zero, suc, ◌≤◌, ◌<◌, ◌≡◌, ◌≢◌, refl, ◌⊎◌, inl, inr, Bool, true, false, Option, none, some,
  List, [], ◌∷◌, arith, subst, sym, if◌then◌else◌,
}
use jet_core_service_bus.Python.Exception.{Exception}
use jet_core_service_bus.Python.Exec.{Exec, pure, ◌>>=◌, always}
use jet_core_service_bus.Python.Exec.Hoare.{Triple, Ends, bind-Triple, weaken-Triple, finally-Ends}
use jet_core_service_bus.Python.Json.{JsonModule}
use jet_core_service_bus.Jetcore.Bus.{Bus}
use jet_core_service_bus.Jetcore.BusClient.Sealing.{Publication}
use jet_core_service_bus.DbAdapter.Cdc.{
  BinlogEvent, Binlog, publish_event, handle_found, run_pass, scan, round, run_rounds, run_stream,
  poll_interval,
}
use jet_core_service_bus.DbAdapter.Cdc.Log.{row_changes, publish_each, publish_event-each}

abbrev pub NotBlocked : {S : Type 0} → Exception → S → Type 0
NotBlocked e s = e ≢ Exception.blocked

-- The states from which the event is found set after at most so many checks that find it clear. A
-- check that does not find it set brings that moment nearer, nothing else puts it off, and no call
-- waits for ever.
pub record StopProtocol {S : Type 0} (B : Bus S) (L : Binlog S) : Type 1 where
  pub Due : ℕ → S → Type 0
  pub found_set : (s : S) → Due 0 s → ((L.is_set s).0 ≡ true) × Due 0 (L.is_set s).1
  pub nearer : (n : ℕ) (s : S) → Due (suc n) s → Due n (L.is_set s).1
  pub next_event : (n : ℕ) → Triple (Due n) L.next_event (λ _. Due n) NotBlocked
  pub publish : (n : ℕ) (p : Publication) → Triple (Due n) (B.publish p) (λ _. Due n) NotBlocked
  pub wait : (n : ℕ) → Triple (Due n) (L.wait poll_interval) (λ _. Due n) NotBlocked
  pub close : (s : S) → Ends (λ _ _. Unit {0}) NotBlocked (L.close s)

module _ {S : Type 0} (J : JsonModule) (B : Bus S) (L : Binlog S) (p : StopProtocol B L) where
  abbrev Within : ℕ → S → Type 0
  Within n s = (m : ℕ) × (m ≤ n) × p.Due m s

  wider : (m n : ℕ) (s : S) → m ≤ n → Within m s → Within n s
  wider m n s h (k, below, due) = (k, omega (arith, h, below), due)

  keeps :
      {A : Type 0} (m : Exec S A)
      → ((n : ℕ) → Triple (p.Due n) m (λ _. p.Due n) NotBlocked)
      → (n : ℕ) → Triple (Within n) m (λ _. Within n) NotBlocked
  keeps m h n s (k, below, due) = weaken-Triple m (λ _ _ z. (k, below, z)) (λ _ _ z. z) (h k) s due

  -- A check finds the event set, or the moment is nearer.
  abbrev Checked : ℕ → Bool → S → Type 0
  Checked n b s = ((b ≡ true) × Within n s) ⊎ ((j : ℕ) × (n ≡ suc j) × Within j s)

  is_set-Checked : (n : ℕ) (s : S) → Within n s → Checked n (L.is_set s).0 (L.is_set s).1
  is_set-Checked n s (zero, below, due) =
      let (set, still) = p.found_set s due in inl (set, (0, below, still))
  is_set-Checked zero s (suc k, below, due) = absurd (omega (arith, below))
  is_set-Checked (suc n) s (suc k, below, due) =
      inr (n, refl, (k, omega (arith, below), p.nearer k s due))

  check-Triple :
      {A : Type 0} (n : ℕ) (k : Bool → Exec S A) (Q : A → S → Type 0)
      → Triple (Within n) (k true) Q NotBlocked
      → ((j : ℕ) → n ≡ suc j → Triple (Within j) (k false) Q NotBlocked)
      → Triple (Within n) (always L.is_set >>= k) Q NotBlocked
  check-Triple n k Q ht hf s w = chosen (L.is_set s).0 (L.is_set s).1 (is_set-Checked n s w)
    where
      chosen : (b : Bool) (s' : S) → Checked n b s' → Ends Q NotBlocked (k b s')
      chosen true s' (inl (_, z)) = ht s' z
      chosen true s' (inr (j, e, z)) = ht s' (wider j n s' (omega (arith, e)) z)
      chosen false s' (inl (set, z)) = absurd (ground (arith, set))
      chosen false s' (inr (j, e, z)) = hf j e s' z

  publish_each-Within :
      (ps : List Publication) (n : ℕ)
      → Triple (Within n) (publish_each J B L ps) (λ _. Within n) NotBlocked
  unfolding publish_each
  publish_each-Within [] n = λ _ w. w
  publish_each-Within (q ∷ ps) n =
      bind-Triple (Within n) (λ _. Within n) (λ _. Within n) NotBlocked _
        (λ _. publish_each J B L ps)
        (bind-Triple (Within n) (λ _. Within n) (λ _. Within n) NotBlocked (B.publish q)
          (λ _. pure tt) (keeps (B.publish q) (λ m. p.publish m q) n) (λ _ _ z. z))
        (λ _. publish_each-Within ps n)

  publish_event-Within :
      (event : BinlogEvent) (n : ℕ)
      → Triple (Within n) (publish_event J B L event) (λ _. Within n) NotBlocked
  publish_event-Within event n =
      subst (λ (m : Exec S (Unit {0})). Triple (Within n) m (λ _. Within n) NotBlocked)
        (sym (publish_event-each J B L event)) (publish_each-Within (row_changes J event) n)

  handled-Within :
      (n : ℕ) (rest : Exec S (Unit {0}))
      → ((j : ℕ) → n ≡ suc j → Triple (Within j) rest (λ _. Within j) NotBlocked)
      → (o : Option BinlogEvent)
      → Triple (Within n) (handle_found J B L rest o) (λ _. Within n) NotBlocked
  handled-Within n rest h none = λ _ w. w
  handled-Within n rest h (some event) =
      bind-Triple (Within n) (λ _. Within n) (λ _. Within n) NotBlocked (publish_event J B L event)
        _ (publish_event-Within event n)
        λ _.
          check-Triple n (λ stop. if stop then pure tt else rest) (λ _. Within n) (λ _ z. z)
            (λ j e.
              weaken-Triple rest (λ _ s' z. wider j n s' (omega (arith, e)) z) (λ _ _ z. z) (h j e))

  run_pass-Within :
      (events n : ℕ)
      → n < events
      → Triple (Within n) (run_pass J B L events) (λ _. Within n) NotBlocked
  unfolding run_pass
  run_pass-Within zero n h = absurd (omega (arith, h))
  run_pass-Within (suc events) n h =
      bind-Triple (Within n) (λ _. Within n) (λ _. Within n) NotBlocked L.next_event
        (handle_found J B L (run_pass J B L events)) (keeps L.next_event p.next_event n)
        (handled-Within n (run_pass J B L events)
          (λ j e. run_pass-Within events j (omega (arith, e, h))))

  scan-Within :
      (events n : ℕ) → n < events → Triple (Within n) (scan J B L events) (λ _. Within n) NotBlocked
  unfolding scan
  scan-Within events n h =
      bind-Triple (Within n) (λ _. Within n) (λ _. Within n) NotBlocked (run_pass J B L events) _
        (run_pass-Within events n h)
        λ _.
          check-Triple {A = Bool} n
            (λ stop. do _ ← if stop then pure tt else L.wait poll_interval; pure true)
            (λ _. Within n) (λ _ z. z)
            (λ j e.
              bind-Triple (Within j) (λ _. Within n) (λ _. Within n) NotBlocked
                (L.wait poll_interval) (λ _. pure true)
                (weaken-Triple (L.wait poll_interval) (λ _ s' z. wider j n s' (omega (arith, e)) z)
                  (λ _ _ z. z) (keeps (L.wait poll_interval) p.wait j))
                (λ _ _ z. z))

  -- What a round leads to: the loop is over, or the moment is nearer.
  abbrev Nearer : ℕ → Bool → S → Type 0
  Nearer n more s = ((more ≡ false) × Within n s) ⊎ ((j : ℕ) × (n ≡ suc j) × Within j s)

  round-Nearer :
      (events n : ℕ) → n ≤ events → Triple (Within n) (round J B L events) (Nearer n) NotBlocked
  unfolding round
  round-Nearer events n h =
      check-Triple {A = Bool} n (λ stop. if stop then pure false else scan J B L events) (Nearer n)
        (λ _ z. inl (refl, z))
        (λ j e.
          weaken-Triple (scan J B L events) (λ _ _ z. inr (j, e, z)) (λ _ _ z. z)
            (scan-Within events j (omega (arith, e, h))))

  again-Within :
      (n : ℕ) (rest : Exec S (Unit {0}))
      → ((j : ℕ) → n ≡ suc j → Triple (Within j) rest (λ _. Within j) NotBlocked)
      → (more : Bool)
      → Triple (Nearer n more) (if more then rest else pure tt) (λ _. Within n) NotBlocked
  again-Within n rest h true s (inl (over, w)) = absurd (ground (arith, over))
  again-Within n rest h true s (inr (j, e, w)) =
      weaken-Triple rest (λ _ s' z. wider j n s' (omega (arith, e)) z) (λ _ _ z. z) (h j e) s w
  again-Within n rest h false s (inl (over, w)) = w
  again-Within n rest h false s (inr (j, e, w)) = wider j n s (omega (arith, e)) w

  run_rounds-Within :
      (events rounds n : ℕ)
      → n ≤ events
      → n < rounds
      → Triple (Within n) (run_rounds J B L events rounds) (λ _. Within n) NotBlocked
  unfolding run_rounds
  run_rounds-Within events zero n h k = absurd (omega (arith, k))
  run_rounds-Within events (suc rounds) n h k =
      bind-Triple (Within n) (Nearer n) (λ _. Within n) NotBlocked (round J B L events) _
        (round-Nearer events n h)
        (again-Within n (run_rounds J B L events rounds)
          (λ j e. run_rounds-Within events rounds j (omega (arith, e, h)) (omega (arith, e, k))))

  -- Let the shutdown event be found set after at most `n` checks that find it clear, and let no
  -- call wait for ever. Then `n` events for a pass and `n + 1` rounds are enough: `run_stream`
  -- ends, by returning or by an exception of a call, however many events the stream would still
  -- give.
  pub run_stream-NotBlocked :
      (events rounds n : ℕ)
      → n ≤ events
      → n < rounds
      → Triple (p.Due n) (run_stream J B L events rounds) (λ _ _. Unit {0}) NotBlocked
  unfolding run_stream
  run_stream-NotBlocked events rounds n h k s due =
      finally-Ends (λ _. Within n) (λ _ _. Unit {0}) NotBlocked NotBlocked
        (run_rounds J B L events rounds) L.close (λ _ s' _. p.close s')
        (λ e s' other.
          weaken-Triple {P = λ _. Unit} L.close (λ _ _ _. other) (λ _ _ z. z) (λ x _. p.close x) s'
            tt)
        s (run_rounds-Within events rounds n h k s (n, omega arith, due))
