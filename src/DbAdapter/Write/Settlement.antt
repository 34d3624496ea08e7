-- ===== src/DbAdapter/Write/Settlement.antt =====
-- How the handling of an order ends (db_adapter_mysql/write_handler.py, `_handle`).
use jet_core_service_bus.Prelude.{◌≡◌, ◌⊎◌, inl, inr, ap, subst, ◌∙◌, String, true}
use jet_core_service_bus.Python.Exception.{Exception, ok, err}
use jet_core_service_bus.Python.Exec.{◌>>=◌, always, lift}
use jet_core_service_bus.Python.Exec.Hoare.{
  Triple, bind-Triple, except_return-Ends, weaken-Triple, lift-Ends,
}
use jet_core_service_bus.Python.Json.{JsonModule}
use jet_core_service_bus.Jetcore.Bus.{Bus}
use jet_core_service_bus.Jetcore.BusClient.{ReceivedEvent}
use jet_core_service_bus.Jetcore.BusClient.Sealing.{Publication}
use jet_core_service_bus.Adapter.{is_malformed, is_malformed-eq, report}
use jet_core_service_bus.DbAdapter.Payloads.{
  OrderCreatedRequest, decode_order_created, encode_order_persisted,
}
use jet_core_service_bus.DbAdapter.Write.{
  Database, report_persisted, store_order, handle, is_db_api_error, order_persisted_subject,
}

-- What the handler reports for a request, at the time `now`: the id of that request's order
abbrev pub persisted : JsonModule → OrderCreatedRequest → String → ReceivedEvent → Publication
persisted J request now event =
    report order_persisted_subject (encode_order_persisted J request.order_id now) "OrderPersisted"
      event

-- The stages of one order: received, stored under a request, the time read, a report published; the
-- storing may fail instead. In the end the order is rejected, completed, or given back for a
-- redelivery, after an error of the database and no other.
pub record OrderProtocol {S : Type 0} (D : Database S) (B : Bus S) (event : ReceivedEvent)
    : Type 1 where
  pub Received : S → Type 0
  pub Failed : OrderCreatedRequest → Exception → S → Type 0
  pub Stored : OrderCreatedRequest → S → Type 0
  pub Stamped : OrderCreatedRequest → String → S → Type 0
  pub Published : OrderCreatedRequest → String → Publication → S → Type 0
  pub Completed : OrderCreatedRequest → String → Publication → S → Type 0
  pub Rejected : S → Type 0
  pub Retried : OrderCreatedRequest → Exception → S → Type 0
  pub upsert :
      (request : OrderCreatedRequest)
      → Triple Received (D.upsert request) (λ _. Stored request) (Failed request)
  pub now_iso :
      (request : OrderCreatedRequest) (s : S)
      → Stored request s
      → Stamped request (D.now_iso s).0 (D.now_iso s).1
  pub publish :
      (request : OrderCreatedRequest) (now : String) (sent : Publication)
      → Triple
          (Stamped request now)
          (B.publish sent)
          (λ _. Published request now sent)
          (λ _. Stamped request now)
  pub complete :
      (request : OrderCreatedRequest) (now : String) (sent : Publication)
      → Triple
          (Published request now sent)
          (B.ack event)
          (λ _. Completed request now sent)
          (λ _. Published request now sent)
  pub reject : Triple Received (B.ack event) (λ _. Rejected) (λ _. Received)
  pub retry :
      (request : OrderCreatedRequest) (e : Exception)
      → is_db_api_error e ≡ true
      → Triple (Failed request e) (B.nak event) (λ _. Retried request e) (λ _. Failed request e)

module _ {S : Type 0} (J : JsonModule) (D : Database S) (B : Bus S) (event : ReceivedEvent)
    (p : OrderProtocol D B event) where
  -- The payload holds the request.
  abbrev pub IsOrder : OrderCreatedRequest → Type 0
  IsOrder request = decode_order_created J event.payload ≡ ok request

  -- The order is settled: rejected as malformed, completed for the request that it holds with the
  -- report of that request, or given back because the database failed to store it.
  abbrev pub OrderSettled : S → Type 0
  OrderSettled s =
      ((decode_order_created J event.payload ≡ err Exception.malformed_payload_error)
        × p.Rejected s)
      ⊎ ((request : OrderCreatedRequest) × (now : String) × IsOrder request
          × p.Completed request now (persisted J request now event) s)
      ⊎ ((request : OrderCreatedRequest) × (e : Exception) × IsOrder request
          × (is_db_api_error e ≡ true)
          × p.Retried request e s)

  -- The order is not settled: only received, or not stored, or stored and not reported, or reported
  -- and not acknowledged.
  abbrev pub OrderOpen : S → Type 0
  OrderOpen s =
      p.Received s
      ⊎ ((request : OrderCreatedRequest) × IsOrder request × (e : Exception) × p.Failed request e s)
      ⊎ ((request : OrderCreatedRequest) × IsOrder request
          × (now : String) × (p.Stamped request now s
              ⊎ p.Published request now (persisted J request now event) s))

  module _ (request : OrderCreatedRequest)
      (decoded : decode_order_created J event.payload ≡ ok request) where
    announced-settles :
        (now : String)
        → Triple
            (p.Stamped request now)
            (do _ ← B.publish (persisted J request now event); B.ack event)
            (λ _. OrderSettled)
            (λ _. OrderOpen)
    announced-settles now =
        let sent = persisted J request now event in
        bind-Triple (p.Stamped request now) (λ _. p.Published request now sent) (λ _. OrderSettled)
          (λ _. OrderOpen) (B.publish sent) (λ _. B.ack event)
          (weaken-Triple (B.publish sent) (λ _ _ q. q)
            (λ _ _ q. inr (inr (request, decoded, now, inl q))) (p.publish request now sent))
          λ _.
            weaken-Triple (B.ack event) (λ _ _ q. inr (inl (request, now, decoded, q)))
              (λ _ _ q. inr (inr (request, decoded, now, inr q))) (p.complete request now sent)

    report_persisted-settles :
        Triple
          (p.Stored request)
          (report_persisted J D B request event)
          (λ _. OrderSettled)
          (λ _. OrderOpen)
    unfolding report_persisted
    report_persisted-settles =
        bind-Triple (p.Stored request) (p.Stamped request) (λ _. OrderSettled) (λ _. OrderOpen)
          (always D.now_iso) _ (λ s h. p.now_iso request s h) announced-settles

    store_order-settles :
        Triple p.Received (store_order J D B request event) (λ _. OrderSettled) (λ _. OrderOpen)
    unfolding store_order
    store_order-settles s h =
        except_return-Ends (λ _. p.Stored request) (λ _. OrderSettled) (p.Failed request)
          (λ _. OrderOpen) (D.upsert request) is_db_api_error (B.nak event)
          (λ _. report_persisted J D B request event)
          (λ e caught.
            weaken-Triple (B.nak event) (λ _ _ q. inr (inr (request, e, decoded, caught, q)))
              (λ _ _ q. inr (inl (request, decoded, e, q))) (p.retry request e caught))
          (λ e s' passed q. inr (inl (request, decoded, e, q))) (λ _. report_persisted-settles) s
          (p.upsert request s h)

  reject-settles :
      decode_order_created J event.payload ≡ err Exception.malformed_payload_error
      → Triple p.Received (B.ack event) (λ _. OrderSettled) (λ _. OrderOpen)
  reject-settles malformed =
      weaken-Triple (B.ack event) (λ _ _ q. inl (malformed, q)) (λ _ _ q. inl q) p.reject

  -- Let an order be received, and let the calls lead from stage to stage as the protocol says. When
  -- `handle` returns, the order was rejected and its payload is malformed; or it was completed
  -- after the request that the payload holds was stored, and the report of that request's id and of
  -- the time that was read was published on the subject of the persisted orders; or it was given
  -- back after an error of the database. When `handle` raises, the order is at a stage before its
  -- settlement.
  pub handle-OrderSettled :
      Triple p.Received (handle J D B event) (λ _. OrderSettled) (λ _. OrderOpen)
  unfolding handle
  handle-OrderSettled s h =
      except_return-Ends
        (λ request s'. (decode_order_created J event.payload ≡ ok request) × (s ≡ s'))
        (λ _. OrderSettled) (λ e s'. (decode_order_created J event.payload ≡ err e) × (s ≡ s'))
        (λ _. OrderOpen) (lift (decode_order_created J event.payload)) is_malformed (B.ack event)
        (λ request. store_order J D B request event)
        (λ e caught s' (failed, same).
          reject-settles (failed ∙ ap err (is_malformed-eq e caught)) s' (subst p.Received same h))
        (λ e s' passed (failed, same). inl (subst p.Received same h))
        (λ request s' (decoded, same).
          store_order-settles request decoded s' (subst p.Received same h))
        s (lift-Ends (decode_order_created J event.payload) s)
