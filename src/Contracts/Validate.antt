-- ===== src/Contracts/Validate.antt =====
-- internal/contracts/validate.go.
pub mod Batches
pub mod Events
pub mod Order
use Prim.Native.String.{len, count}
use mortris_server.Prelude.{
  ℕ, ◌*◌, String, Bool, true, false, not, ◌&&◌, ◌||◌, Option, none, some, List, [], ◌∷◌, ltb, leb,
  ◌==◌, if◌then◌else◌, str_eq, string_eq, contains, length, starts_with,
}
use mortris_server.Prelude.Int.{ℤ, pos, ltb_ℤ, eqb_ℤ}
use mortris_server.Failure.{
  Result, ok, ◌>>=◌, ◌>>◌, invalid, invalid_request, invalid_uuid, invalid_credential,
  invalid_timestamp, invalid_batch_size, duplicate_event_id_in_batch, invalid_event_name,
  reserved_event_name, too_many_properties, invalid_property_key, invalid_property_type,
  property_too_large, properties_too_large, validation, reject_if,
}
use mortris_server.Contracts.Types.{
  RegisterRequest, BatchIngestRequest, PolicyRequest, Event, EventProperties, PropertyValue, null,
  boolean, number, text, nested, SdkInfo,
}
use mortris_server.Contracts.Pattern.{is_valid_uuid, is_valid_timestamp, is_event_name}
use mortris_server.Contracts.Library.{Library}

abbrev pub reserved_system_events : List String
reserved_system_events = "sys_session_start" ∷ "sys_app_background" ∷ "sys_sdk_health" ∷ []

abbrev pub max_events_per_batch : ℕ
max_events_per_batch = 100

abbrev pub min_events_per_batch : ℕ
min_events_per_batch = 1

abbrev pub max_properties : ℕ
max_properties = 32

abbrev pub max_property_key_bytes : ℕ
max_property_key_bytes = 64

abbrev pub max_property_value_bytes : ℕ
max_property_value_bytes = 1024

abbrev pub max_properties_bytes : ℕ
max_properties_bytes = 8 * 1024

abbrev pub credential_bytes : ℕ
credential_bytes = 32

abbrev pub is_credential : Option (List ℕ) → Bool
is_credential none = false
is_credential (some bytes) = length bytes == credential_bytes

-- (*RegisterRequest).Validate
unfoldable pub validate_register : Library → RegisterRequest → Result (Unit {0})
validate_register lib r = do
  reject_if (not (eqb_ℤ r.schema_version (pos 1))) (validation invalid_request)
  reject_if (str_eq r.project_id "") (validation invalid_request)
  reject_if (not (is_valid_uuid r.install_id)) (validation invalid_uuid)
  reject_if (not (is_credential (lib.decode_base64 r.installation_credential)))
      (validation invalid_credential)
  reject_if (str_eq r.sdk_name "" || str_eq r.sdk_version "") (validation invalid_request)
  reject_if (str_eq r.platform "") (validation invalid_request)

-- The loop over the events with the map `seen`.
unfoldable pub distinct_ids : List String → List Event → Result (Unit {0})
distinct_ids seen [] = ok tt
distinct_ids seen (e ∷ es) =
    let rest = distinct_ids (e.event_id ∷ seen) es in
    if contains seen e.event_id then invalid duplicate_event_id_in_batch else rest

unfoldable pub batch_size : BatchIngestRequest → ℕ
batch_size b = if b.event_count == 0 then length b.events else b.event_count

-- (*BatchIngestRequest).Validate
unfoldable pub validate_batch : BatchIngestRequest → Result (Unit {0})
validate_batch b = do
  reject_if (not (eqb_ℤ b.schema_version (pos 1))) (validation invalid_request)
  reject_if (str_eq b.project_id "") (validation invalid_request)
  reject_if (not (is_valid_uuid b.install_id)) (validation invalid_uuid)
  reject_if (str_eq b.sdk.name "" || str_eq b.sdk.version "") (validation invalid_request)
  reject_if (not (is_valid_timestamp b.sent_at_client)) (validation invalid_timestamp)
  reject_if (ltb (batch_size b) min_events_per_batch || ltb max_events_per_batch (batch_size b))
      (validation invalid_batch_size)
  distinct_ids [] b.events

-- The type switch on one property value.
unfoldable pub validate_value : PropertyValue → Result (Unit {0})
validate_value (text v) =
    reject_if (ltb 0 (count v) && ltb max_property_value_bytes (len v))
      (validation property_too_large)
validate_value nested = invalid invalid_property_type
validate_value _ = ok tt

-- The loop over the properties, in the order of the map's iteration.
unfoldable pub validate_entries : EventProperties → Result (Unit {0})
unfolding validate_value
validate_entries [] = ok tt
validate_entries ((key, value) ∷ props) = do
  reject_if (ltb max_property_key_bytes (len key)) (validation invalid_property_key)
  validate_value value
  validate_entries props

abbrev pub fits_encoded : Option ℕ → Bool
fits_encoded none = false
fits_encoded (some n) = leb n max_properties_bytes

unfoldable pub validate_properties : Library → EventProperties → Result (Unit {0})
unfolding validate_entries
validate_properties lib props = do
  reject_if (ltb max_properties (length props)) (validation too_many_properties)
  validate_entries props
  reject_if (not (fits_encoded (lib.marshal_length props))) (validation properties_too_large)

-- A name that only the SDK may use.
unfoldable pub is_forged_system_name : String → Bool
is_forged_system_name name =
    ltb 4 (len name) && starts_with name "sys_" && not (contains reserved_system_events name)

-- ValidateEvent
unfoldable pub validate_event : Library → Event → Result (Unit {0})
unfolding validate_properties is_forged_system_name
validate_event lib e = do
  reject_if (not (is_valid_uuid e.event_id)) (validation invalid_uuid)
  reject_if (not (is_valid_uuid e.session_id)) (validation invalid_uuid)
  reject_if (ltb_ℤ e.sequence (pos 0)) (validation invalid_request)
  reject_if (ltb_ℤ e.session_elapsed_ms (pos 0)) (validation invalid_request)
  reject_if (not (is_event_name e.name)) (validation invalid_event_name)
  reject_if (is_forged_system_name e.name) (validation reserved_event_name)
  reject_if (not (is_valid_timestamp e.occurred_at_client)) (validation invalid_timestamp)
  validate_properties lib e.properties

-- (*PolicyRequest).Validate
unfoldable pub validate_policy : PolicyRequest → Result (Unit {0})
validate_policy p = do
  reject_if (not (eqb_ℤ p.schema_version (pos 1))) (validation invalid_request)
  reject_if (str_eq p.project_id "") (validation invalid_request)
  reject_if (not (is_valid_uuid p.install_id)) (validation invalid_uuid)
  reject_if (str_eq p.sdk.name "" || str_eq p.sdk.version "") (validation invalid_request)
