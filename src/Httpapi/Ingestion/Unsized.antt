-- ===== src/Httpapi/Ingestion/Unsized.antt =====
-- The answer to a batch with too few or too many events.
use mortris_server.Prelude.{
  ℕ, ◌≡◌, ◌≤◌, ◌⊎◌, refl, ap, Bool, true, false, not, ◌&&◌, ◌||◌, List, length, str_eq, ltb,
  if◌then◌else◌, arith,
}
use mortris_server.Failure.{Result, ok, err, validation, invalid_batch_size}
use mortris_server.Contracts.Types.{BatchIngestRequest, RejectedEvent}
use mortris_server.Contracts.Library.{Library}
use mortris_server.Contracts.Validate.{min_events_per_batch, max_events_per_batch}
use mortris_server.Contracts.Decode.{
  JsonLibrary, BatchEnvelope, decode_batch_envelope, decode_batch_ingest_request,
}
use mortris_server.Ratelimit.{RateLibrary}
use mortris_server.Ingest.Exec.{World}
use mortris_server.Sdktest.{Controller}
use mortris_server.Adminauth.Sessions.{AuthLibrary}
use mortris_server.Httpapi.Guards.{decode_err}
use mortris_server.Httpapi.Ingestion.{
  SdkRequest, bytes, batch_request, classify_decode, body_of, decoded_batch, handle_batch,
}

out_of_range :
    (n : ℕ)
    → (n ≡ 0) ⊎ (101 ≤ n)
    → (ltb n min_events_per_batch || ltb max_events_per_batch n) ≡ true
out_of_range n size = ground arith

refused :
    (gzip is_json unknown : Bool)
    → ◌≡◌ {A = Result (BatchIngestRequest × List RejectedEvent)}
        (if not gzip
          then err (decode_err false)
          else if not is_json
          then err (decode_err false)
          else err (decode_err unknown))
        (err (decode_err (gzip && is_json && unknown)))
unfolding decode_err
refused false is_json unknown = refl
refused true false unknown = refl
refused true true unknown = refl

module _ (json : JsonLibrary) where
  open json use {Raw}

  decode_batch_ingest_request-unsized :
      (raw : Raw) (env : BatchEnvelope Raw)
      → decode_batch_envelope json raw ≡ ok env
      → (length env.events ≡ 0) ⊎ (101 ≤ length env.events)
      → decode_batch_ingest_request json raw ≡ err (validation invalid_batch_size)
  unfolding decode_batch_ingest_request
  decode_batch_ingest_request-unsized raw env h size =
      rw h (rw (out_of_range (length env.events) size) refl)

  batch_request-unsized :
      (mentions_unknown_field : json.Raw → Bool) (http : SdkRequest) (raw : Raw)
      (env : BatchEnvelope Raw)
      → decode_batch_envelope json raw ≡ ok env
      → (length env.events ≡ 0) ⊎ (101 ≤ length env.events)
      → batch_request json mentions_unknown_field http (bytes raw)
        ≡ err (
            decode_err (
              str_eq http.content_encoding "gzip"
              && str_eq http.content_type "application/json"
              && mentions_unknown_field raw))
  unfolding body_of classify_decode decode_err
  batch_request-unsized mentions_unknown_field http raw env h size =
      rw (decode_batch_ingest_request-unsized raw env h size) (
        refused (str_eq http.content_encoding "gzip") (str_eq http.content_type "application/json")
          (mentions_unknown_field raw))

  -- A batch body whose envelope holds no events or more than 100 is answered with status 400 and code
  -- invalid_request, or unknown_field where the text of the error has "unknown field" and the headers
  -- are right, and never with invalid_batch_size; no table, limiter or controller is touched.
  pub handle_batch-unsized :
      {rate : RateLibrary} (lib : Library) (auth : AuthLibrary)
      (mentions_unknown_field : json.Raw → Bool) (c : Controller) (http : SdkRequest)
      (w : World rate) (raw : Raw) (env : BatchEnvelope Raw)
      → decode_batch_envelope json raw ≡ ok env
      → (length env.events ≡ 0) ⊎ (101 ≤ length env.events)
      → handle_batch lib auth json mentions_unknown_field c http (bytes raw) w ≡ (
        (
          err (
              decode_err (
                str_eq http.content_encoding "gzip"
                && str_eq http.content_type "application/json"
                && mentions_unknown_field raw)),
          w,
        ),
        c,
      )
  unfolding handle_batch
  handle_batch-unsized lib auth mentions_unknown_field c http w raw env h size =
      ap (λ r. decoded_batch lib auth json mentions_unknown_field c http r w)
        (batch_request-unsized mentions_unknown_field http raw env h size)
