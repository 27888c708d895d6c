-- ===== src/Httpapi/Ingestion.antt =====
-- internal/httpapi/handlers.go: the handlers that an SDK calls, around internal/ingest, and the
-- deliberate faults of a test project. The reading of a body, with gzip, is not modelled.
pub mod Isolated
mod Tests
pub mod Unsized
use mortris_server.Prelude.{
  String, Bool, true, false, not, Option, none, some, List, str_eq, if◌then◌else◌,
}
use mortris_server.Failure.{
  Failure, Result, ok, err, new_error, with_retry_after, reject_if, invalid_request,
  payload_too_large, unauthorized, rate_limited as too_many,
}
use mortris_server.Contracts.Types.{
  ClientPolicy, BatchIngestRequest, BatchIngestResponse, RegisterResponse, PolicyResponse,
  PolicyRequest, RejectedEvent,
}
use mortris_server.Contracts.Library.{Library}
use mortris_server.Contracts.Decode.{
  JsonLibrary, decode_register_request, decode_batch_ingest_request, decode_policy_request,
}
use mortris_server.Ratelimit.{RateLibrary}
use mortris_server.Ingest.Exec.{World, Exec, pure, fail, lift, ◌>>=◌, ◌>>◌}
use mortris_server.Ingest.Register.{register}
use mortris_server.Ingest.Batch.{batch}
use mortris_server.Ingest.Probe.{policy}
use mortris_server.Sdktest.{
  Scenario, lost_acknowledgement, unauthorized_once, payload_too_large as too_large, rate_limited,
  policy_active, policy_pause_upload, policy_disable, no_scenario, Controller, first_unauthorized,
  scenario_policy,
}
use mortris_server.Adminauth.Sessions.{AuthLibrary}
use mortris_server.Httpapi.Guards.{decode_err}
use mortris_server.Httpapi.SdkControl.{sdk_test_scenario}

-- What readBody comes to.
pub data Read (Raw : Type 0) : Type 0 where
  over_limit broken : Read Raw
  bytes : Raw → Read Raw

-- readBody's errors through bodyRequestErr
unfoldable pub body_of : {Raw : Type 0} → Read Raw → Result Raw
body_of over_limit = err (new_error 413 payload_too_large)
body_of broken = err (new_error 400 invalid_request)
body_of (bytes raw) = ok raw

-- An error of internal/contracts through decodeErr; the flag says whether its text has "unknown
-- field".
unfoldable pub classify_decode : {A : Type 0} → Bool → Result A → Result A
classify_decode unknown (ok a) = ok a
classify_decode unknown (err e) = err (decode_err unknown)

-- The parts of a request of the SDK beside its body; an absent header is empty.
pub record SdkRequest : Type 0 where
  pub content_encoding : String
  pub content_type : String
  pub test_token : String
  pub test_scenario : String
  pub bearer_token : String
  pub source_ip : String

-- An answer, or a connection that is cut after the work is done.
pub data Answer (A : Type 0) : Type 0 where
  answered : A → Answer A
  cut_off : Answer A

-- The fault of batchTestFailure, if there is one.
unfoldable pub fault_of : Bool → Scenario → Option Failure
fault_of true s = some (new_error 401 unauthorized)
fault_of false too_large = some (new_error 413 payload_too_large)
fault_of false rate_limited = some (with_retry_after 429 too_many 2)
fault_of false s = none

abbrev pub policy_or : Option ClientPolicy → ClientPolicy → ClientPolicy
policy_or none p = p
policy_or (some q) p = q

abbrev pub acknowledge : Scenario → BatchIngestResponse → Answer BatchIngestResponse
acknowledge lost_acknowledgement r = cut_off
acknowledge s r =
    answered (record r { client_policy = policy_or (scenario_policy s) r.client_policy })

abbrev pub probed : Scenario → PolicyResponse → PolicyResponse
probed s r = record r { client_policy = policy_or (scenario_policy s) r.client_policy }

-- The checks of handleBatch before it works. `mentions_unknown_field` tells of a body whether the text
-- of the error that its decoding ends with has "unknown field".
module _ (json : JsonLibrary) (mentions_unknown_field : json.Raw → Bool) where
  open json use {Raw}

  abbrev pub batch_request :
      SdkRequest → Read Raw → Result (BatchIngestRequest × List RejectedEvent)
  batch_request http read =
      if not (str_eq http.content_encoding "gzip")
      then err (new_error 400 invalid_request)
      else if not (str_eq http.content_type "application/json")
      then err (new_error 400 invalid_request)
      else elim (body_of read) [
        | err e ↦ err e
        | ok raw ↦
            classify_decode (mentions_unknown_field raw) (decode_batch_ingest_request json raw)
      ]

module _ {rate : RateLibrary} (lib : Library) (auth : AuthLibrary) where
  abbrev pub run_batch :
      BatchIngestRequest
      → List RejectedEvent
      → SdkRequest
      → Scenario
      → Option Failure
      → Exec rate (Answer BatchIngestResponse)
  run_batch req rejections http s (some fault) = fail fault
  run_batch req rejections http s none = do
    r ← batch lib req rejections http.bearer_token http.source_ip
    pure (acknowledge s r)

  -- A scenario that is read never fails; the controller is the one of the server.
  abbrev pub after_scenario :
      Controller
      → BatchIngestRequest
      → List RejectedEvent
      → SdkRequest
      → Result Scenario × World rate
      → (Result (Answer BatchIngestResponse) × World rate) × Controller
  after_scenario c req rejections http (err e, w) = ((err e, w), c)
  after_scenario c req rejections http (ok s, w) =
      let (refused, c') = first_unauthorized c req.project_id req.install_id s in
      (run_batch req rejections http s (fault_of refused s) w, c')

  -- processBatch and batchTestFailure
  unfoldable pub process_batch :
      Controller
      → BatchIngestRequest
      → List RejectedEvent
      → SdkRequest
      → World rate
      → (Result (Answer BatchIngestResponse) × World rate) × Controller
  process_batch c req rejections http w =
      after_scenario c req rejections http
        (sdk_test_scenario auth (some c) http.test_token http.test_scenario req.project_id w)

  module _ (json : JsonLibrary) (mentions_unknown_field : json.Raw → Bool) where
    open json use {Raw}

    abbrev pub decoded_batch :
        Controller
        → SdkRequest
        → Result (BatchIngestRequest × List RejectedEvent)
        → World rate
        → (Result (Answer BatchIngestResponse) × World rate) × Controller
    decoded_batch c http (err e) w = ((err e, w), c)
    decoded_batch c http (ok (req, rejections)) w = process_batch c req rejections http w

    -- handleBatch
    unfoldable pub handle_batch :
        Controller
        → SdkRequest
        → Read Raw
        → World rate
        → (Result (Answer BatchIngestResponse) × World rate) × Controller
    handle_batch c http read w =
        decoded_batch c http (batch_request json mentions_unknown_field http read) w

    -- handleRegister
    unfoldable pub handle_register : SdkRequest → Read Raw → Exec rate RegisterResponse
    handle_register http read = do
      raw ← lift (body_of read)
      req ← lift (classify_decode (mentions_unknown_field raw) (decode_register_request json raw))
      register lib req http.source_ip

    -- handlePolicy
    unfoldable pub handle_policy : Controller → SdkRequest → Read Raw → Exec rate PolicyResponse
    handle_policy c http read = do
      raw ← lift (body_of read)
      req ← lift (classify_decode (mentions_unknown_field raw) (decode_policy_request json raw))
      s ← sdk_test_scenario auth (some c) http.test_token http.test_scenario req.project_id
      r ← policy lib req http.bearer_token http.source_ip
      pure (probed s r)
