-- ===== src/Contracts/Decode.antt =====
-- internal/contracts/decode.go. encoding/json's decoding into Go structs is a parameter.
pub mod Partition
use mortris_server.Prelude.{
  ℕ, ◌*◌, String, Bool, true, false, not, ◌||◌, List, [], ◌∷◌, ltb, if◌then◌else◌, str_eq,
  string_eq, contains, length,
}
use mortris_server.Prelude.Int.{ℤ}
use mortris_server.Failure.{
  Code, Failure, Result, ok, err, eof, other, exhausted, api, unknown_field_error, validation,
  ◌>>=◌, ◌>>◌, invalid, invalid_request, unknown_field, invalid_batch_size,
  duplicate_event_id_in_batch, reject_if,
}
use mortris_server.Contracts.Types.{
  RegisterRequest, PolicyRequest, BatchIngestRequest, Event, RejectedEvent, SdkInfo,
}
use mortris_server.Contracts.Json.Decoder.{Decoder}
use mortris_server.Contracts.Json.Scan.{reject_duplicate_keys, reject_batch_envelope_duplicate_keys}
use mortris_server.Contracts.Validate.{max_events_per_batch, min_events_per_batch}

-- batchEnvelope
pub record BatchEnvelope (Raw : Type 0) : Type 0 where
  pub schema_version : ℤ
  pub project_id : String
  pub install_id : String
  pub sdk : SdkInfo
  pub sent_at_client : String
  pub events : List Raw

-- The fields that the best-effort probes of a raw event read, empty where they are missing.
pub record Probe : Type 0 where
  pub event_id : String
  pub name : String
  pub app_version : String
  pub build_number : String

-- encoding/json and unicode/utf8 on raw JSON: a body's length in bytes, a decoder at its start,
-- Decode with DisallowUnknownFields into each struct, and Unmarshal into a probe.
pub record JsonLibrary : Type 1 where
  pub Raw : Type 0
  pub utf8_valid : Raw → Bool
  pub size : Raw → ℕ
  pub decoder : Decoder
  open decoder use {State}
  pub start : Raw → State
  pub decode_register : State → Result (RegisterRequest × State)
  pub decode_policy : State → Result (PolicyRequest × State)
  pub decode_envelope : State → Result (BatchEnvelope Raw × State)
  pub decode_event : State → Result (Event × State)
  pub decode_any : State → Result State
  pub probe : Raw → Probe

-- decodeErrorCode
unfoldable pub decode_error_code : Failure → Code
decode_error_code (validation c) = c
decode_error_code unknown_field_error = unknown_field
decode_error_code _ = invalid_request

module _ (json : JsonLibrary) where
  open json use {Raw, utf8_valid, size, decoder, start, decode_any, probe}
  open decoder use {State}

  -- Two units of fuel for each byte: a token takes a byte at least.
  abbrev pub scan_fuel : Raw → ℕ
  scan_fuel raw = 2 * size raw

  only_value {ℓ} : {V : Type ℓ} → V → Result State → Result V
  only_value v (err eof) = ok v
  only_value v _ = invalid invalid_request

  unfoldable pub decode_json {ℓ} : {V : Type ℓ} → (State → Result (V × State)) → Raw → Result V
  unfolding only_value
  decode_json decode raw = do (v, s) ← decode (start raw); only_value v (decode_any s)

  unfoldable pub decode_strict {ℓ} : {V : Type ℓ} → (State → Result (V × State)) → Raw → Result V
  unfolding decode_json
  decode_strict decode raw = do
    reject_if (not (utf8_valid raw)) (validation invalid_request)
    reject_duplicate_keys decoder (scan_fuel raw) true (start raw)
    decode_json decode raw

  unfoldable pub decode_batch_envelope : Raw → Result (BatchEnvelope Raw)
  unfolding decode_json
  decode_batch_envelope raw = do
    reject_if (not (utf8_valid raw)) (validation invalid_request)
    reject_batch_envelope_duplicate_keys decoder (scan_fuel raw) (start raw)
    decode_json json.decode_envelope raw

  pub decode_register_request : Raw → Result RegisterRequest
  decode_register_request raw = decode_strict json.decode_register raw

  pub decode_policy_request : Raw → Result PolicyRequest
  decode_policy_request raw = decode_strict json.decode_policy raw

  unfoldable pub best_effort_event_id : Raw → String
  best_effort_event_id raw = (probe raw).event_id

  unfoldable pub best_effort_rejected_event : Raw → Code → RejectedEvent
  best_effort_rejected_event raw code = record {
    event_id = (probe raw).event_id;
    name = (probe raw).name;
    code = code;
    app_version = (probe raw).app_version;
    build_number = (probe raw).build_number;
  }

  -- The first loop over the raw events: no id that can be read comes twice.
  unfoldable pub distinct_raw_ids : List String → List Raw → Result (Unit {0})
  unfolding best_effort_event_id
  distinct_raw_ids seen [] = ok tt
  distinct_raw_ids seen (raw ∷ raws) =
      let id = best_effort_event_id raw in
      let rest = distinct_raw_ids (if str_eq id "" then seen else id ∷ seen) raws in
      if str_eq id ""
      then rest
      else if contains seen id
      then invalid duplicate_event_id_in_batch
      else rest

  sort_out : Result Event → Raw → List Event × List RejectedEvent → List Event × List RejectedEvent
  unfolding best_effort_rejected_event decode_error_code
  sort_out (ok e) raw (events, rejected) = (e ∷ events, rejected)
  sort_out (err f) raw (events, rejected) =
      (events, best_effort_rejected_event raw (decode_error_code f) ∷ rejected)

  -- The second loop: each raw event by itself.
  unfoldable pub decode_events : List Raw → List Event × List RejectedEvent
  unfolding sort_out decode_strict
  decode_events [] = ([], [])
  decode_events (raw ∷ raws) =
      sort_out (decode_strict json.decode_event raw) raw (decode_events raws)

  -- DecodeBatchIngestRequest
  unfoldable pub decode_batch_ingest_request :
      Raw → Result (BatchIngestRequest × List RejectedEvent)
  unfolding decode_events
  decode_batch_ingest_request raw = do
    env ← decode_batch_envelope raw
    reject_if
        (ltb (length env.events) min_events_per_batch
          || ltb max_events_per_batch (length env.events))
        (validation invalid_batch_size)
    distinct_raw_ids [] env.events
    let (events, rejected) = decode_events env.events
    ok (
      record {
        schema_version = env.schema_version;
        project_id = env.project_id;
        install_id = env.install_id;
        sdk = env.sdk;
        sent_at_client = env.sent_at_client;
        events = events;
        event_count = length env.events;
      },
      rejected,
    )
