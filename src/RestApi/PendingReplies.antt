-- ===== src/RestApi/PendingReplies.antt =====
-- The requests that wait for a reply (rest_api_service/pending_replies.py). A future is known by its
-- place in the order of creation.
pub mod Delivery
pub mod Lost
use jet_core_service_bus.Prelude.{
  ℕ, zero, suc, String, Bool, true, false, Option, none, some, List, [], ◌∷◌, ◌++◌, length,
  get_elem?,
}
use jet_core_service_bus.Python.Dict
use jet_core_service_bus.Python.Dict.{Dict}
use jet_core_service_bus.Python.Equality.{string_eq}
use jet_core_service_bus.Jetcore.BusClient.{ReceivedEvent, details}

-- `asyncio.Future`: a wait that times out cancels it.
pub data Future : Type 0 where
  waiting : Future
  resolved : ReceivedEvent → Future
  cancelled : Future

pub record Replies : Type 0 where
  pub pending : Dict String ℕ
  pub futures : List Future

abbrev pub no_replies : Replies
no_replies = record { pending = []; futures = [] }

-- The future at that place
pub set_future : ℕ → Future → List Future → List Future
set_future i x [] = []
set_future zero x (y ∷ ys) = x ∷ ys
set_future (suc i) x (y ∷ ys) = y ∷ set_future i x ys

-- `register`, with the place of the new future
unfoldable pub register : String → Replies → ℕ × Replies
register correlation_id r = (
  length r.futures,
  record {
    pending = Dict.insert correlation_id (length r.futures) r.pending;
    futures = r.futures ++ Future.waiting ∷ [];
  },
)

unfoldable pub unregister : String → Replies → Replies
unregister correlation_id r = record r { pending = Dict.erase correlation_id r.pending }

-- `future.set_result(event)`, unless it is done
abbrev pub set_result : ReceivedEvent → ℕ → Option Future → Replies → Bool × Replies
set_result event i (some Future.waiting) r =
    (true, record r { futures = set_future i (Future.resolved event) r.futures })
set_result event i _ r = (false, r)

abbrev pub resolve_found : ReceivedEvent → Option ℕ → Replies → Bool × Replies
resolve_found event none r = (false, r)
resolve_found event (some i) r = set_result event i (get_elem? r.futures i) r

abbrev pub resolve_for : ReceivedEvent → Option String → Replies → Bool × Replies
resolve_for event none r = (false, r)
resolve_for event (some correlation_id) r =
    resolve_found event (Dict.lookup correlation_id r.pending) r

unfoldable pub resolve : ReceivedEvent → Replies → Bool × Replies
unfolding set_future
resolve event r = resolve_for event (details event).correlation_id r

-- `wait_for` gives the future up when its time is over.
abbrev pub cancel_found : ℕ → Option Future → Replies → Replies
cancel_found i (some Future.waiting) r = record r {
  futures = set_future i Future.cancelled r.futures;
}
cancel_found i _ r = r

unfoldable pub expire : ℕ → Replies → Replies
unfolding set_future
expire i r = cancel_found i (get_elem? r.futures i) r
