-- ===== src/Jetcore/BusClient/Order.antt =====
-- Which messages `fetch` hands over, and in which order (bus_client.py, `fetch`).
use jet_core_service_bus.Prelude.{
  List, [], ◌∷◌, ◌≡◌, inl, inr, arith, map, ap, sym, subst, Bool-cases,
}
use jet_core_service_bus.Python.Exception.{Result-cases, ok}
use jet_core_service_bus.Python.Exec.{any_exception}
use jet_core_service_bus.Jetcore.Platform.{Msg}
use jet_core_service_bus.Jetcore.BusClient.{Outside, Client, process, process_all, ReceivedEvent}
use jet_core_service_bus.Jetcore.BusClient.Receive.{process-IsAuthentic}
use jet_core_service_bus.Jetcore.BusClient.Sealing.{Account}

-- The second list is the first with more put in between.
pub data Sublist {ℓ} {A : Type ℓ} : List A → List A → Type ℓ where
  done : Sublist [] []
  skip : {x : A} {xs ys : List A} → Sublist xs ys → Sublist xs (x ∷ ys)
  keep : {x : A} {xs ys : List A} → Sublist xs ys → Sublist (x ∷ xs) (x ∷ ys)

module _ (O : Outside) (account : Account) where
  process-msg :
      (msg : Msg) (c : Client O) (e : ReceivedEvent)
      → (process O account msg c).0 ≡ ok e
      → msg ≡ e.msg
  process-msg msg c e h =
      let a =
        process-IsAuthentic O account msg c e (process O account msg c).1
          (ap (λ r. (r, (process O account msg c).1)) h) in
      sym a.same_msg

  -- When the loop of `fetch` returns, the messages of the events that it returns are a sublist of
  -- the messages that were fetched.
  pub process_all-Sublist :
      (msgs : List Msg) (c : Client O) (es : List ReceivedEvent)
      → (process_all O account msgs c).0 ≡ ok es
      → Sublist (map (λ e. e.msg) es) msgs
  unfolding process_all
  process_all-Sublist [] c [] h = done
  process_all-Sublist [] c (x ∷ es) h = absurd (ground arith)
  process_all-Sublist (msg ∷ msgs) c es h = elim (Result-cases (process O account msg c).0) [
    | inl (e, opened) ↦
        elim (Result-cases (process_all O account msgs (process O account msg c).1).0) [
          | inl (rest, e2) ↦
              let same : e ∷ rest ≡ es = ground arith in
              subst (λ l. Sublist (map (λ e. e.msg) l) (msg ∷ msgs)) same
                (subst (λ m. Sublist (m ∷ map (λ e. e.msg) rest) (msg ∷ msgs))
                  (process-msg msg c e opened) (keep (process_all-Sublist msgs _ rest e2)))
          | inr (x, e2) ↦ absurd (ground arith)
        ]
    | inr (x, failed) ↦ elim (Bool-cases (any_exception x)) [
      | inl held ↦ skip (process_all-Sublist msgs (process O account msg c).1 es (ground arith))
      | inr passed ↦ absurd (ground arith)
    ]
  ]
