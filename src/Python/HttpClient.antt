-- ===== src/Python/HttpClient.antt =====
-- What the adapters use of httpx: a client that posts.
use jet_core_service_bus.Prelude.{ℕ, String, Bool, true, false}
use jet_core_service_bus.Python.Exception.{Exception, Result}
use jet_core_service_bus.Python.Exec.{Exec}
use jet_core_service_bus.Python.Json.{Bytes}
use jet_core_service_bus.Python.Dict.{Dict}

-- A response, with the value of its property `is_success`.
pub record HttpResponse : Type 0 where
  pub status_code : ℕ
  pub content : Bytes
  pub is_success : Bool

pub record HttpClient (S : Type 0) : Type 0 where
  -- `client.post(url, content=…, headers=…)`
  pub post : String → Bytes → Dict String String → Exec S HttpResponse
  -- `response.raise_for_status()`
  pub raise_for_status : HttpResponse → Result (Unit {0})

-- `isinstance(e, httpx.RequestError)`
abbrev pub is_request_error : Exception → Bool
is_request_error Exception.request_error = true
is_request_error _ = false
