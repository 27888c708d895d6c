-- ===== src/Failure.antt =====
-- The errors that the server's functions return (internal/contracts/errors.go,
-- internal/apierr/apierr.go) and the result type of fallible code. Message texts are left out.
use mortris_server.Prelude.{ℕ, ◌≡◌, refl, Bool, true, false}

-- The machine error codes.
pub data Code : Type 0 where
  install_conflict invalid_request unknown_field invalid_credential invalid_uuid : Code
  invalid_timestamp invalid_batch_size duplicate_event_id_in_batch invalid_event_name : Code
  reserved_event_name too_many_properties invalid_property_key invalid_property_type : Code
  property_too_large unknown_event properties_too_large unauthorized rate_limited : Code
  payload_too_large server_storage_pressure internal_error ai_unavailable : Code
  not_found unknown_content_revision : Code
  invalid_credentials session_invalid session_expired csrf_mismatch too_many_attempts : Code
  forbidden_project forbidden_role : Code

-- apierr.Error; `retry_after` is in seconds, 0 for no Retry-After header.
pub record ApiError : Type 0 where
  pub status : ℕ
  pub code : Code
  pub retry_after : ℕ

-- A Go `error`: a ValidationError, an apierr.Error, encoding/json's unknown-field error, io.EOF,
-- any other error of the database driver or a library, and the model's own end of fuel.
pub data Failure : Type 0 where
  validation : Code → Failure
  api : ApiError → Failure
  unknown_field_error eof other exhausted : Failure

pub data Result {ℓ} (A : Type ℓ) : Type ℓ where
  ok : A → Result A
  err : Failure → Result A

abbrev pub is_ok {ℓ} : {A : Type ℓ} → Result A → Bool
is_ok (ok a) = true
is_ok (err e) = false

-- `if err != nil { return err }` between a step and what follows it.
infixl 5 ◌>>=◌
abbrev pub ◌>>=◌ {ℓ κ} : {V : Type ℓ} {W : Type κ} → Result V → (V → Result W) → Result W
err failure >>= next = err failure
ok value >>= next = next value

-- The same for a step that gives no value.
infixl 5 ◌>>◌
abbrev pub ◌>>◌ {κ} : {W : Type κ} → Result (Unit {0}) → Result W → Result W
check >> next = check >>= λ done. next

-- `if bad { return failure }`.
abbrev pub reject_if : Bool → Failure → Result (Unit {0})
reject_if true e = err e
reject_if false e = ok tt

-- invalid(code, message)
abbrev pub invalid {ℓ} : {A : Type ℓ} → Code → Result A
invalid c = err (validation c)

-- apierr.New and apierr.WithRetryAfter
abbrev pub new_error : ℕ → Code → Failure
new_error status code = api (record { status = status; code = code; retry_after = 0 })

abbrev pub with_retry_after : ℕ → Code → ℕ → Failure
with_retry_after status code retry =
    api (record { status = status; code = code; retry_after = retry })

-- Inversion of a successful step.
module _ {ℓ κ} {V : Type ℓ} {W : Type κ} where
  pub >>=-eq-ok :
      (step : Result V) (next : V → Result W) {w : W}
      → (step >>= next) ≡ ok w
      → (v : V) × (step ≡ ok v) × (next v ≡ ok w)
  >>=-eq-ok (err failure) next e = cc
  >>=-eq-ok (ok value) next e = (value, refl, e)
