-- ===== src/Contracts/Tests.antt =====
-- Concrete requests, and the validation on them.
use mortris_server.Prelude.{
  ℕ, zero, suc, ◌+◌, ◌≤◌, ◌≡◌, ◌↔◌, refl, true, false, String, some, List, [], ◌∷◌, length,
  contains,
}
use mathlib.Core.List.{Permᴰ}
use mortris_server.Prelude.Int.{pos}
use mortris_server.Failure.{Result, ok, err, eof, other, is_ok}
use mortris_server.Contracts.Types.{Event, EventProperties, BatchIngestRequest, number, boolean}
use mortris_server.Contracts.Library.{Library}
use mortris_server.Contracts.Json.Decoder.{Token, open_brace, close_brace}
use mortris_server.Contracts.Json.Tests.{list_decoder}
use mortris_server.Contracts.Decode.{
  JsonLibrary, Probe, decode_batch_ingest_request, decode_batch_envelope, distinct_raw_ids,
}
use mortris_server.Contracts.Json.Scan.{
  reject_batch_envelope_duplicate_keys, reject_duplicate_keys, envelope_rest,
  scan_json_value_at_depth,
}
use mortris_server.Contracts.Decode.Partition.{decode_batch_partition}
use mortris_server.Contracts.Pattern.{is_valid_uuid, is_valid_timestamp}
use mortris_server.Contracts.Validate.{validate_batch, validate_properties}
use mortris_server.Contracts.Validate.Batches.{IsBatch, validate_batch_iff}
use mortris_server.Contracts.Validate.Order.{validate_properties-perm}

uuid_accepted : is_valid_uuid "0190a5b2-7c1e-4f3a-9b2d-1234567890ab" ≡ true
unfolding is_valid_uuid
uuid_accepted = refl

uuid_version_1 : is_valid_uuid "0190a5b2-7c1e-1f3a-9b2d-1234567890ab" ≡ false
unfolding is_valid_uuid
uuid_version_1 = refl

-- The pattern checks digits and not the calendar: month 13 passes.
timestamp_month_13 : is_valid_timestamp "2026-13-01T00:00:00.000Z" ≡ true
unfolding is_valid_timestamp
timestamp_month_13 = refl

abbrev pub zeros : ℕ → List ℕ
zeros zero = []
zeros (suc n) = 0 ∷ zeros n

-- Every text decodes to 32 zeros, and every time is 2000 seconds from the zero time.
abbrev pub library : Library
library = record {
  decode_base64 = λ s. some (zeros 32);
  sha256 = λ b. b;
  marshal_length = λ ps. some 20;
  parse_time = λ s. some (pos 2000000000000);
}

abbrev pub install_id : String
install_id = "0190a5b2-7c1e-4f3a-9b2d-1234567890ab"

abbrev pub event_id : String
event_id = "0190a5b2-7c1e-4f3a-9b2d-1234567890ac"

abbrev pub level_start : Event
level_start = record {
  event_id = event_id;
  session_id = install_id;
  sequence = pos 1;
  session_elapsed_ms = pos 10;
  name = "level_start";
  occurred_at_client = "2026-01-01T00:00:00.000Z";
  app_version = "1.0";
  build_number = "7";
  platform = "ios";
  os_version = "17";
  device_class = "phone";
  locale = "en";
  timezone_offset_minutes = pos 0;
  properties = [];
}

abbrev pub request : BatchIngestRequest
request = record {
  schema_version = pos 1;
  project_id = "game";
  install_id = install_id;
  sdk = record { name = "sdk"; version = "2" };
  sent_at_client = "2026-01-01T00:00:00.000Z";
  events = level_start ∷ [];
  event_count = 1;
}

validate_batch_example : (validate_batch request ≡ ok tt) ↔ IsBatch request
validate_batch_example = validate_batch_iff request

abbrev two_properties : EventProperties
two_properties = ("level", number (pos 3)) ∷ ("won", boolean true) ∷ []

abbrev reordered : EventProperties
reordered = ("won", boolean true) ∷ ("level", number (pos 3)) ∷ []

validate_properties_example :
    is_ok (validate_properties library two_properties)
    ≡ is_ok (validate_properties library reordered)
validate_properties_example =
    validate_properties-perm library (λ ps qs h. refl) two_properties reordered
      ∣ Permᴰ.swap refl refl ∣₁

abbrev decode_rest : List Token → Result (List Token)
decode_rest [] = err eof
decode_rest (t ∷ ts) = ok ts

abbrev no_probe : Probe
no_probe = record { event_id = event_id; name = ""; app_version = ""; build_number = "" }

-- A decoding that reads each body as `request` with the raw events, and each of these as `level_start`.
abbrev pub json : List String → JsonLibrary
json events = record {
  Raw = String;
  utf8_valid = λ raw. true;
  size = λ raw. 2;
  decoder = list_decoder;
  start = λ raw. open_brace ∷ close_brace ∷ [];
  decode_register = λ s. err other;
  decode_policy = λ s. err other;
  decode_envelope = λ s. ok (
    record {
      schema_version = request.schema_version;
      project_id = request.project_id;
      install_id = request.install_id;
      sdk = request.sdk;
      sent_at_client = request.sent_at_client;
      events = events;
    },
    [],
  );
  decode_event = λ s. ok (level_start, []);
  decode_any = decode_rest;
  probe = λ raw. no_probe;
}

decode_batch_example :
    (length request.events + 0 ≡ request.event_count)
    × (1 ≤ request.event_count)
    × (request.event_count ≤ 100)
unfolding decode_batch_ingest_request decode_batch_envelope reject_batch_envelope_duplicate_keys
    envelope_rest distinct_raw_ids contains reject_duplicate_keys scan_json_value_at_depth
decode_batch_example = decode_batch_partition (json ("{}" ∷ [])) "{}" request [] refl
