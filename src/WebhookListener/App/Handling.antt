-- ===== src/WebhookListener/App/Handling.antt =====
-- What a webhook brings about (webhook_listener/app.py, `receive_webhook`).
use jet_core_service_bus.Prelude.{
  String, ◌≡◌, ◌≢◌, refl, ◌⊎◌, inl, inr, true, false, Option, none, some, str_eq, eq_iff,
  Bool-cases, arith, ◌∙◌, ap, ◌&&◌,
}
use jet_core_service_bus.Python.Exception.{Exception, Result, ok, err}
use jet_core_service_bus.Python.Exec.{pure, ◌>>=◌}
use jet_core_service_bus.Python.Json.{JsonModule, RoundTrips}
use jet_core_service_bus.Python.Secrets.{is_ascii, compare_digest-plain, compare_digest-foreign}
use jet_core_service_bus.Python.Base64.RoundTrip.{AreBytes}
use jet_core_service_bus.Jetcore.Bus.{Bus}
use jet_core_service_bus.FileStorage.Payloads.{decode_write_requested}
use jet_core_service_bus.FileStorage.Payloads.Decoding.{decode_write_requested-dumps}
use jet_core_service_bus.WebhookListener.App.{
  WebhookRequest, WebhookResponse, unauthorized, bad_request, accepted, write_command, forward,
  check_secret, receive_webhook,
}

module _ {S : Type 0} (J : JsonModule) (B : Bus S) (expected_secret : String)
    (request : WebhookRequest) (s : S) where
  -- The command is what the file storage adapter decodes to the path and the body of the request.
  abbrev pub Commands : Type 0
  Commands =
      decode_write_requested J (write_command J request).payload
      ≡ ok (record { path = request.path; content = request.body })

  -- The answer tells whether the command was published.
  abbrev pub Tells : Result String × S → Result WebhookResponse × S → Type 0
  Tells sent out =
      ((id : String) × (sent ≡ (ok id, out.1)) × (out.0 ≡ ok accepted))
      ⊎ ((e : Exception) × (sent ≡ (err e, out.1)) × (out.0 ≡ err e))

  -- The three ways a webhook goes: the first two leave the world alone; in the third the secret is
  -- right, there is a path, and the command is published.
  abbrev pub Handled : Result WebhookResponse × S → Type 0
  Handled out =
      ((request.header_secret ≢ some expected_secret) × (out ≡ (ok unauthorized, s)))
      ⊎ ((request.header_secret ≡ some expected_secret)
          × (request.path ≡ "")
          × (out ≡ (ok bad_request, s)))
      ⊎ ((request.header_secret ≡ some expected_secret)
          × (request.path ≢ "")
          × Commands
          × Tells (B.publish (write_command J request) s) out)

  -- The header is there, and it or the expected secret is not ASCII.
  abbrev pub IsForeign : Option String → Type 0
  IsForeign none = ⊥
  IsForeign (some secret) = (is_ascii secret && is_ascii expected_secret) ≡ false

  -- The two can be compared, if the header is there.
  abbrev pub IsComparable : Option String → Type 0
  IsComparable none = Unit
  IsComparable (some secret) = (is_ascii secret && is_ascii expected_secret) ≡ true

  -- What cannot be compared ends the request by a `TypeError` and leaves the world alone.
  abbrev pub Outcome : Option String → Result WebhookResponse × S → Type 0
  Outcome header out =
      (IsForeign header × (out ≡ (err Exception.type_error, s)))
      ⊎ (IsComparable header × Handled out)

  publish-Tells :
      (r : Result String) (s' : S) → Tells (r, s') (((λ _. (r, s')) >>= λ _. pure accepted) s)
  publish-Tells (ok id) s' = inl (id, refl, refl)
  publish-Tells (err e) s' = inr (e, refl, refl)

  forward-Handled :
      RoundTrips J
      → AreBytes request.body
      → request.header_secret ≡ some expected_secret
      → Handled (forward J B expected_secret request s)
  unfolding forward
  forward-Handled trips bytes same = elim (Bool-cases (str_eq request.path "")) [
    | inl empty ↦ rw empty (inr (inl (same, (eq_iff request.path "").0 empty, refl)))
    | inr named ↦ rw named (
        inr (
          inr (
            same,
            (λ (e : request.path ≡ ""). ground (arith, eq_iff request.path "")),
            unfold write_command in
                decode_write_requested-dumps J trips request.path request.body named bytes,
            publish-Tells (B.publish (write_command J request) s).0
                (B.publish (write_command J request) s).1,
          )))
  ]

  check_secret-Outcome :
      RoundTrips J
      → AreBytes request.body
      → (header : Option String) → request.header_secret ≡ header
      → Outcome header (check_secret J B expected_secret header request s)
  unfolding check_secret
  check_secret-Outcome trips bytes none header = inr (tt, inl (ground arith, refl))
  check_secret-Outcome trips bytes (some secret) header =
      elim (Bool-cases (is_ascii secret && is_ascii expected_secret)) [
        | inr foreign ↦
            inl (foreign, rw (compare_digest-foreign secret expected_secret foreign) refl)
        | inl plain ↦ inr (
          plain,
          rw (compare_digest-plain secret expected_secret plain)
              (elim (Bool-cases (str_eq secret expected_secret)) [
                | inl same ↦ rw same (
                    forward-Handled trips bytes
                      (header ∙ ap some ((eq_iff secret expected_secret).0 same)))
                | inr other ↦ rw other (inl (ground (arith, eq_iff secret expected_secret), refl))
              ]),
        )
      ]

  -- For a JSON module that reads back what it writes, and a body of bytes: when a secret is given
  -- and it or the expected one is not ASCII, a `TypeError` ends the request. Else another secret or
  -- none gets 401, the right one without a path 400, and with a path a command is published that
  -- the file storage adapter decodes to the path and the body, and the answer is 202 when that
  -- returns, and its exception when it raises. In all but the last case the world stays as it was.
  pub receive_webhook-Outcome :
      RoundTrips J
      → AreBytes request.body
      → Outcome request.header_secret (receive_webhook J B expected_secret request s)
  unfolding receive_webhook
  receive_webhook-Outcome trips bytes = check_secret-Outcome trips bytes request.header_secret refl
