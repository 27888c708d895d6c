-- ===== src/Contracts/Validate/Batches.antt =====
-- Which batch envelopes are valid.
use mortris_server.Prelude.{
  ◌≤◌, ◌≡◌, ◌≢◌, ◌↔◌, refl, String, true, false, List, [], ◌∷◌, eq_iff, contains, string_eq, arith,
}
use mortris_server.Prelude.Int.{pos, eqb_ℤ_iff}
use mortris_server.Failure.{ok}
use mortris_server.Contracts.Types.{BatchIngestRequest, Event}
use mortris_server.Contracts.Pattern.{is_valid_uuid, is_valid_timestamp}
use mortris_server.Contracts.Validate.{distinct_ids, batch_size, validate_batch}

-- No event has the id of an earlier one, nor one of `seen`.
abbrev pub DistinctIds : List String → List Event → Type 0
DistinctIds seen [] = Unit
DistinctIds seen (e ∷ es) = (contains seen e.event_id ≡ false) × DistinctIds (e.event_id ∷ seen) es

pub record IsBatch (b : BatchIngestRequest) : Type 0 where
  pub version : b.schema_version ≡ pos 1
  pub project : b.project_id ≢ ""
  pub install : is_valid_uuid b.install_id ≡ true
  pub sdk_name : b.sdk.name ≢ ""
  pub sdk_version : b.sdk.version ≢ ""
  pub sent : is_valid_timestamp b.sent_at_client ≡ true
  pub some_events : 1 ≤ batch_size b
  pub few_events : batch_size b ≤ 100
  pub distinct : DistinctIds [] b.events

pub distinct_ids-DistinctIds :
    (seen : List String) (es : List Event) → distinct_ids seen es ≡ ok tt → DistinctIds seen es
unfolding distinct_ids
distinct_ids-DistinctIds seen [] h = tt
distinct_ids-DistinctIds seen (e ∷ es) h =
    ground (arith, distinct_ids-DistinctIds (e.event_id ∷ seen) es)

DistinctIds-distinct_ids :
    (seen : List String) (es : List Event) → DistinctIds seen es → distinct_ids seen es ≡ ok tt
unfolding distinct_ids
DistinctIds-distinct_ids seen [] d = refl
DistinctIds-distinct_ids seen (e ∷ es) d =
    ground (arith, DistinctIds-distinct_ids (e.event_id ∷ seen) es d.1)

pub validate_batch-IsBatch : (b : BatchIngestRequest) → validate_batch b ≡ ok tt → IsBatch b
unfolding validate_batch
validate_batch-IsBatch b h = ground (
  arith,
  eqb_ℤ_iff b.schema_version (pos 1),
  eq_iff b.project_id "",
  eq_iff b.sdk.name "",
  eq_iff b.sdk.version "",
  distinct_ids-DistinctIds [] b.events,
)

complete : (b : BatchIngestRequest) → IsBatch b → validate_batch b ≡ ok tt
unfolding validate_batch
complete b v = ground (
  arith,
  eqb_ℤ_iff b.schema_version (pos 1),
  eq_iff b.project_id "",
  eq_iff b.sdk.name "",
  eq_iff b.sdk.version "",
  DistinctIds-distinct_ids [] b.events,
)

-- A batch passes the envelope's validation exactly when its version is 1, its project, SDK name
-- and SDK version are not empty, its installation is a UUID, its timestamp has the required form,
-- it counts 1 to 100 events, and the ids of its events differ.
pub validate_batch_iff : (b : BatchIngestRequest) → (validate_batch b ≡ ok tt) ↔ IsBatch b
validate_batch_iff b = (validate_batch-IsBatch b, complete b)
