-- ===== src/Python/Exception.antt =====
-- The exceptions that the program raises, catches or lets pass. The text of a message reaches only
-- the log and is not kept.
use jet_core_service_bus.Prelude.{◌≡◌, refl, ◌⊎◌, inl, inr, Bool, true, false, arith}

pub data Exception : Type 0 where
  value_error unicode_decode_error json_decode_error binascii_error validation_error : Exception
  malformed_payload_error path_traversal_error creds_parse_error : Exception
  key_error type_error index_error runtime_error signature_verification_error : Exception
  os_error file_not_found_error timeout_error : Exception
  key_not_found_error no_keys_error nats_error : Exception
  -- `asyncio.CancelledError`, a `BaseException`: `except Exception` lets it pass.
  cancelled_error : Exception
  -- No exception: it stands for a call that never returns.
  blocked : Exception
  decrypt_error bad_signature_error db_api_error request_error http_status_error : Exception

-- `isinstance(e, ValueError)`
unfoldable pub is_value_error : Exception → Bool
is_value_error Exception.value_error = true
is_value_error Exception.unicode_decode_error = true
is_value_error Exception.json_decode_error = true
is_value_error Exception.binascii_error = true
is_value_error Exception.validation_error = true
is_value_error Exception.malformed_payload_error = true
is_value_error Exception.path_traversal_error = true
is_value_error Exception.creds_parse_error = true
is_value_error _ = false

-- `isinstance(e, OSError)`: since Python 3.3 `TimeoutError` is one too.
unfoldable pub is_os_error : Exception → Bool
is_os_error Exception.os_error = true
is_os_error Exception.file_not_found_error = true
is_os_error Exception.timeout_error = true
is_os_error _ = false

-- `isinstance(e, httpx.HTTPError)`
unfoldable pub is_http_error : Exception → Bool
is_http_error Exception.request_error = true
is_http_error Exception.http_status_error = true
is_http_error _ = false

-- A call that may raise, and changes nothing.
pub data Result {ℓ} (A : Type ℓ) : Type ℓ where
  ok : A → Result A
  err : Exception → Result A

infixl 5 ◌>>=◌
abbrev pub ◌>>=◌ {ℓ κ} : {A : Type ℓ} {B : Type κ} → Result A → (A → Result B) → Result B
ok a >>= f = f a
err e >>= f = err e

pub Result-cases {ℓ} :
    {A : Type ℓ} (r : Result A) → ((a : A) × (r ≡ ok a)) ⊎ ((e : Exception) × (r ≡ err e))
Result-cases (ok a) = inl (a, refl)
Result-cases (err e) = inr (e, refl)

pub >>=-eq-ok {ℓ κ} :
    {A : Type ℓ} {B : Type κ} (r : Result A) (f : A → Result B) {b : B}
    → (r >>= f) ≡ ok b
    → (a : A) × (r ≡ ok a) × (f a ≡ ok b)
>>=-eq-ok (ok a) f h = (a, refl, h)
>>=-eq-ok (err e) f h = ground arith

pub ok-injective {ℓ} : {A : Type ℓ} {a b : A} → ok a ≡ ok b → a ≡ b
ok-injective h = ground arith
