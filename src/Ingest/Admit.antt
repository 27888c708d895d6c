-- ===== src/Ingest/Admit.antt =====
-- admitBatch and admitRegistration: disk pressure, rate limits and validation, in their order.
use Prim.Native.String.{◌++◌ as str_append}
use mortris_server.Prelude.{String, Bool, true, false, not, ◌*◌}
use mortris_server.Prelude.Int.{ℤ}
use mortris_server.Failure.{
  Failure, Result, ok, err, validation, new_error, with_retry_after, rate_limited,
  server_storage_pressure, reject_if,
}
use mortris_server.Diskstate
use mortris_server.Contracts.Types.{BatchIngestRequest, RegisterRequest}
use mortris_server.Contracts.Library.{Library}
use mortris_server.Contracts.Validate.{validate_batch, validate_register}
use mortris_server.Ratelimit.{RateLibrary, Limiter, allow}
use mortris_server.Ingest.Exec.{World, Exec, lift, now, ◌>>=◌, ◌>>◌}

abbrev pub is_rejecting : Diskstate.State → Bool
is_rejecting Diskstate.State.rejecting = true
is_rejecting _ = false

-- apierr.New(400, ve.Code, ve.Message) for a validation error.
abbrev pub as_bad_request : Result (Unit {0}) → Result (Unit {0})
as_bad_request (err (validation c)) = err (new_error 400 c)
as_bad_request r = r

module _ {rate : RateLibrary} where
  unfoldable pub get_disk : Exec rate Diskstate.State
  get_disk w = (ok w.disk, w)

  unfoldable pub fail_if : Bool → Failure → Exec rate (Unit {0})
  fail_if b e = lift (reject_if b e)

  -- One call of Allow on a limiter of the service.
  unfoldable pub ask :
      (World rate → Limiter rate)
      → (Limiter rate → World rate → World rate)
      → String
      → ℤ
      → Exec rate Bool
  ask get put key t w = let (allowed, l) = allow rate (get w) t key in (ok allowed, put l w)

  -- `if !limiter.Allow(key) { return refusal }`
  unfoldable pub require_allowed :
      (World rate → Limiter rate)
      → (Limiter rate → World rate → World rate)
      → String
      → Failure
      → Exec rate (Unit {0})
  unfolding ask fail_if
  require_allowed get put key refusal = do
    t ← now
    allowed ← ask get put key t
    fail_if (not allowed) refusal

  unfoldable pub require_ingest_ip : String → Exec rate (Unit {0})
  require_ingest_ip ip =
      require_allowed (λ w. w.ingest_ip) (λ l w. record w { ingest_ip = l }) ip
        (with_retry_after 429 rate_limited 1)

  unfoldable pub require_ingest_install : String → String → Exec rate (Unit {0})
  require_ingest_install project install =
      require_allowed (λ w. w.ingest_install) (λ l w. record w { ingest_install = l })
        (str_append project (str_append "/" install)) (with_retry_after 429 rate_limited 60)

  -- (*Service).admitBatch
  unfoldable pub admit_batch : BatchIngestRequest → String → Exec rate (Unit {0})
  admit_batch req source_ip = do
    disk ← get_disk
    fail_if (is_rejecting disk) (with_retry_after 503 server_storage_pressure (5 * 60))
    require_ingest_ip source_ip
    lift (as_bad_request (validate_batch req))
    require_allowed (λ w. w.ingest_project) (λ l w. record w { ingest_project = l }) req.project_id
        (with_retry_after 429 rate_limited 1)
    require_ingest_install req.project_id req.install_id

  -- (*Service).admitRegistration
  unfoldable pub admit_registration : Library → RegisterRequest → String → Exec rate (Unit {0})
  admit_registration lib req source_ip = do
    require_allowed (λ w. w.reg_ip) (λ l w. record w { reg_ip = l }) source_ip
        (with_retry_after 429 rate_limited 60)
    lift (as_bad_request (validate_register lib req))
    require_allowed (λ w. w.reg_project) (λ l w. record w { reg_project = l }) req.project_id
        (with_retry_after 429 rate_limited 60)
