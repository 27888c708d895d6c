-- ===== src/Ingest/Prepare.antt =====
-- prepareBatch and the catalog checks of internal/ingest/batch_processing.go.
use mortris_server.Prelude.{
  String, Bool, true, false, not, Option, none, some, List, [], ◌∷◌, ◌++◌, str_eq, string_eq,
  contains, is_empty, keep, if◌then◌else◌,
}
use mortris_server.Prelude.Int.{ℤ}
use mortris_server.Failure.{Code, Result, ok, err, unknown_event, invalid_property_key}
use mortris_server.Contracts.Types.{Event, EventProperties, RejectedEvent, BatchIngestRequest}
use mortris_server.Contracts.Library.{Library}
use mortris_server.Contracts.Validate.{validate_event, reserved_system_events}
use mortris_server.Contracts.Decode.{decode_error_code}
use mortris_server.Ratelimit.{RateLibrary}
use mortris_server.Ingest.Time.{TimeQuality, parse_timestamp, sub_time, effective_time}
use mortris_server.Ingest.Db.{Kind, product, system, CatalogRow, select_catalog}
use mortris_server.Ingest.Exec.{Exec, pure, query, ◌>>=◌}

pub record PreparedEvent : Type 0 where
  pub event : Event
  pub kind : Kind
  pub effective_at : ℤ
  pub quality : TimeQuality

-- driftObservation
pub record Drift : Type 0 where
  pub name : String
  pub keys : List String

-- What prepareEvent returns besides a database error.
pub data Preparation : Type 0 where
  refused : RejectedEvent → Preparation
  prepared : PreparedEvent → Option Drift → Preparation

unfoldable pub reject_event : Event → Code → RejectedEvent
reject_event e c = record {
  event_id = e.event_id;
  name = e.name;
  code = c;
  app_version = e.app_version;
  build_number = e.build_number;
}

unfoldable pub kind_of : String → Kind
kind_of name = if contains reserved_system_events name then system else product

abbrev declared : Option CatalogRow → Option (List String)
declared none = none
declared (some row) = some (keep (λ p. not (str_eq p "")) row.properties)

-- (*Service).catalogProperties: `none` where the name is not in the catalog.
unfoldable pub catalog_properties :
    {rate : RateLibrary} → String → String → Exec rate (Option (List String))
catalog_properties project name = query (λ db. declared (select_catalog project name db))

-- The keys of the properties that the catalog does not declare.
unfoldable pub undeclared : List String → EventProperties → List String
undeclared allowed [] = []
undeclared allowed ((key, v) ∷ props) =
    let rest = undeclared allowed props in if contains allowed key then rest else key ∷ rest

abbrev refuse_undeclared : Event → List String → Option RejectedEvent
refuse_undeclared e [] = none
refuse_undeclared e (k ∷ ks) = some (reject_event e invalid_property_key)

-- enforceCatalogStrict
unfoldable pub enforce_catalog_strict : Event → Option (List String) → Option RejectedEvent
unfolding undeclared
enforce_catalog_strict e none = some (reject_event e unknown_event)
enforce_catalog_strict e (some allowed) =
    if is_empty allowed then none else refuse_undeclared e (undeclared allowed e.properties)

abbrev observe : Event → List String → Option Drift
observe e [] = none
observe e (k ∷ ks) = some (record { name = e.name; keys = k ∷ ks })

-- detectDrift
unfoldable pub detect_drift : Event → List String → Option Drift
unfolding undeclared
detect_drift e allowed =
    if is_empty allowed then none else observe e (undeclared allowed e.properties)

-- What the catalog makes of a product event.
abbrev pub product_check : Bool → Event → Option (List String) → Option RejectedEvent × Option Drift
product_check true e catalog = (enforce_catalog_strict e catalog, none)
product_check false e none = (none, none)
product_check false e (some allowed) = (none, detect_drift e allowed)

abbrev pub check_catalog :
    {rate : RateLibrary}
    → String
    → Event
    → Bool
    → Kind
    → Exec rate (Option RejectedEvent × Option Drift)
check_catalog project e strict system = pure (none, none)
check_catalog project e strict product = do
  catalog ← catalog_properties project e.name
  pure (product_check strict e catalog)

unfoldable pub stamp : Library → Event → Kind → ℤ → ℤ → PreparedEvent
stamp lib e kind received skew =
    let (effective, quality) =
      effective_time (parse_timestamp lib e.occurred_at_client) received skew in
    record { event = e; kind = kind; effective_at = effective; quality = quality }

unfoldable pub conclude : PreparedEvent → Option RejectedEvent × Option Drift → Preparation
conclude pe (some r, drift) = refused r
conclude pe (none, drift) = prepared pe drift

-- (*Service).prepareEvent, after and with its validation.
abbrev pub prepare_valid :
    {rate : RateLibrary} → Library → String → Event → Bool → ℤ → ℤ → Exec rate Preparation
prepare_valid lib project e strict received skew = do
  checked ← check_catalog project e strict (kind_of e.name)
  pure (conclude (stamp lib e (kind_of e.name) received skew) checked)

abbrev pub prepare_checked :
    {rate : RateLibrary}
    → Library
    → String
    → Event
    → Bool
    → ℤ
    → ℤ
    → Result (Unit {0})
    → Exec rate Preparation
prepare_checked lib project e strict received skew (err f) =
    pure (refused (reject_event e (decode_error_code f)))
prepare_checked lib project e strict received skew (ok _) =
    prepare_valid lib project e strict received skew

unfoldable pub prepare_event :
    {rate : RateLibrary} → Library → String → Event → Bool → ℤ → ℤ → Exec rate Preparation
prepare_event lib project e strict received skew =
    prepare_checked lib project e strict received skew (validate_event lib e)

pub record Batch : Type 0 where
  pub events : List PreparedEvent
  pub rejected : List RejectedEvent
  pub drifts : List Drift

abbrev some_drift : Option Drift → List Drift → List Drift
some_drift none ds = ds
some_drift (some d) ds = d ∷ ds

unfoldable pub add_preparation : Preparation → Batch → Batch
add_preparation (refused r) b = record b { rejected = r ∷ b.rejected }
add_preparation (prepared pe drift) b = record b {
  events = pe ∷ b.events;
  drifts = some_drift drift b.drifts;
}

-- The loop of prepareBatch.
unfoldable pub prepare_events :
    {rate : RateLibrary} → Library → String → Bool → ℤ → ℤ → List Event → Exec rate Batch
prepare_events lib project strict received skew [] =
    pure (record { events = []; rejected = []; drifts = [] })
prepare_events lib project strict received skew (e ∷ es) = do
  p ← prepare_event lib project e strict received skew
  b ← prepare_events lib project strict received skew es
  pure (add_preparation p b)

-- (*Service).prepareBatch: the rejections of the decoder come first.
unfoldable pub prepare_batch :
    {rate : RateLibrary}
    → Library
    → BatchIngestRequest
    → List RejectedEvent
    → Bool
    → ℤ
    → Exec rate Batch
prepare_batch lib req decode_rejections strict received = do
  let skew = sub_time received (parse_timestamp lib req.sent_at_client)
  b ← prepare_events lib req.project_id strict received skew req.events
  pure (record b { rejected = decode_rejections ++ b.rejected })
