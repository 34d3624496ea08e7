-- ===== src/Jetcore/BusClient/Frame.antt =====
-- What `fetch` does to the world outside, and which messages it hands over (bus_client.py).
use jet_core_service_bus.Prelude.{
  String, ℕ, some, none, true, false, List, [], ◌∷◌, inl, inr, Option,
}
use jet_core_service_bus.Python.Exception.{Result-cases}
use jet_core_service_bus.Python.Exec.{any_exception, pure, lift, ◌>>=◌}
use jet_core_service_bus.Python.Dict
use jet_core_service_bus.Python.Equality.{string_eq}
use jet_core_service_bus.Python.Exec.Keeps.{Keeps, bind-Keeps, except_return-Keeps}
use jet_core_service_bus.Jetcore.Platform.{Msg}
use jet_core_service_bus.Jetcore.Registry.{
  lookup_signing_key, signing_key_in, identity_bucket_name, is_key_not_found,
}
use jet_core_service_bus.Jetcore.BusClient.{
  Outside, Client, process, process_all, fetch, fetch_from, outside, is_timeout,
}
use jet_core_service_bus.Jetcore.BusClient.Sealing.{Account, unseal, check_signature}

module _ (O : Outside) (account : Account) (Q : O.platform.State → Type 0)
    (keeps_fresh : (s : O.platform.State) → Q s → Q (O.platform.fresh s).1)
    (keeps_get : (bucket key : String) → Keeps Q (O.platform.kv_get bucket key)) where
  abbrev Holds : Client O → Type 0
  Holds c = Q c.state

  lookup-Keeps : (id : String) → Keeps Q (lookup_signing_key O.json O.platform id)
  unfolding lookup_signing_key
  lookup-Keeps id s h =
      except_return-Keeps Q (O.platform.kv_get identity_bucket_name id) is_key_not_found (pure none)
        (λ value. lift (signing_key_in O.json value)) (keeps_get identity_bucket_name id) (λ s q. q)
        (λ value s q. q) s h

  process-Keeps : (msg : Msg) → Keeps Holds (process O account msg)
  unfolding process outside
  process-Keeps msg c h =
      let q = keeps_fresh c.state h in
      elim (Result-cases
        (unseal O.pydantic O.primitives account (O.platform.fresh c.state).0 msg.bytes)) [
          | inr (x, failed) ↦ rw failed q
          | inl ((event, plaintext, text), opened) ↦
              let id = event.event.event_details.source_service_id in
              let s = (O.platform.fresh c.state).1 in
              let q' = lookup-Keeps id s q in
              elim (Result-cases (lookup_signing_key O.json O.platform id s).0) [
                | inr (x, failed) ↦ rw (opened, failed) q'
                | inl (none, found) ↦ rw (opened, found) q'
                | inl (some key, found) ↦
                    elim (Result-cases (check_signature O.primitives key plaintext text)) [
                      | inr (x, failed) ↦ rw (opened, found, failed) q'
                      | inl (true, checked) ↦ rw (opened, found, checked) q'
                      | inl (false, checked) ↦ rw (opened, found, checked) q'
                    ]
              ]
        ]

  process_all-Keeps : (msgs : List Msg) → Keeps Holds (process_all O account msgs)
  unfolding process_all
  process_all-Keeps [] c h = h
  process_all-Keeps (msg ∷ msgs) c h =
      except_return-Keeps Holds (process O account msg) any_exception (process_all O account msgs)
        (λ e c. (do es ← process_all O account msgs; pure (e ∷ es)) c) (process-Keeps msg)
        (process_all-Keeps msgs)
        (λ e c q.
          bind-Keeps Holds (process_all O account msgs) (λ es. pure (e ∷ es))
            (process_all-Keeps msgs) (λ es s q. q) c q)
        c h

  module _
      (keeps_fetch : (sub : O.platform.Subscription) (batch timeout : ℕ)
        → Keeps Q (O.platform.pull_fetch sub batch timeout)) where
    fetch_from-Keeps :
        (found : Option O.platform.Subscription) (batch timeout : ℕ)
        → Keeps Holds (fetch_from O account found batch timeout)
    unfolding fetch_from outside
    fetch_from-Keeps none batch timeout c h = h
    fetch_from-Keeps (some sub) batch timeout c h =
        except_return-Keeps Holds (outside O (O.platform.pull_fetch sub batch timeout)) is_timeout
          (pure []) (process_all O account) (λ c q. keeps_fetch sub batch timeout c.state q)
          (λ c q. q) process_all-Keeps c h

    -- Whatever drawing fresh values, reading a key-value bucket and pulling from a subscription
    -- leave true of the world, a `fetch` leaves true too, on every branch.
    pub fetch-Keeps :
        (name : String) (batch timeout : ℕ) (c : Client O)
        → Q c.state
        → Q (fetch O account name batch timeout c).1.state
    unfolding fetch
    fetch-Keeps name batch timeout c h =
        fetch_from-Keeps (Dict.lookup name c.subscriptions) batch timeout c h
