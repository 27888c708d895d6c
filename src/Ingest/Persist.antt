-- ===== src/Ingest/Persist.antt =====
-- internal/ingest/batch_persist.go: the transaction that stores a batch.
use mortris_server.Prelude.{
  ℕ, suc, String, Bool, true, false, ◌&&◌, Option, none, some, List, [], ◌∷◌, ◌++◌, str_eq, any,
  get_last?, if◌then◌else◌, ◌/◌, ◌^◌,
}
use mortris_server.Prelude.Int.{ℤ, pos, negsuc, sub_ℕ, ltb_ℤ}
use mortris_server.Failure.{Result, ok, err, other}
use mortris_server.Contracts.Types.{Event, BatchIngestRequest}
use mortris_server.Contracts.Library.{Library}
use mortris_server.Ratelimit.{RateLibrary}
use mortris_server.Ingest.Time.{parse_timestamp, sub_time}
use mortris_server.Ingest.Db.{
  Db, Kind, product, system, Installation, EventRow, CatalogRow, is_installation, is_event_key,
  update_installations,
}
use mortris_server.Ingest.Prepare.{PreparedEvent}
use mortris_server.Ingest.Exec.{Exec, pure, lift, statement, execute, transaction, ◌>>=◌, ◌>>◌}

-- persistedEvents
pub record PersistedEvents : Type 0 where
  pub accepted : List String
  pub duplicates : List String
  pub activated : Bool
  pub first_product_effective_at : Option ℤ

-- Duration.Milliseconds, which truncates toward zero.
abbrev pub milliseconds : ℤ → ℤ
milliseconds (pos n) = pos (n / 10 ^ 6)
milliseconds (negsuc n) = sub_ℕ 0 (suc n / 10 ^ 6)

unfoldable pub touch : BatchIngestRequest → Event → ℤ → Installation → Installation
touch req last t i = record i {
  last_seen_at = some t;
  last_app_version = last.app_version;
  last_build_number = last.build_number;
  last_sdk_version = req.sdk.version;
}

-- updateBatchInstallation
unfoldable pub update_batch_installation :
    {rate : RateLibrary} → BatchIngestRequest → Event → Exec rate (Unit {0})
update_batch_installation req last = execute λ t db. record db {
  installations =
      update_installations (touch req last t) req.project_id req.install_id db.installations;
}

unfoldable pub event_row : Library → BatchIngestRequest → PreparedEvent → ℤ → EventRow
event_row lib req pe received = record {
  project_id = req.project_id;
  install_id = req.install_id;
  event = pe.event;
  event_kind = pe.kind;
  occurred_at_client = parse_timestamp lib pe.event.occurred_at_client;
  sent_at_client = parse_timestamp lib req.sent_at_client;
  received_at = received;
  effective_at = pe.effective_at;
  clock_skew_ms = milliseconds (sub_time received (parse_timestamp lib req.sent_at_client));
  time_quality = pe.quality;
}

-- INSERT ... ON CONFLICT (project_id, event_id) DO NOTHING RETURNING event_id; a new row must
-- name an installation.
unfoldable pub insert_event : EventRow → Db → Result (Bool × Db)
insert_event row db =
    if any (is_event_key row.project_id row.event.event_id) db.events
    then ok (false, db)
    else if any (is_installation row.project_id row.install_id) db.installations
    then ok (true, record db { events = row ∷ db.events })
    else err other

abbrev marshalled : Option ℕ → Result (Unit {0})
marshalled none = err other
marshalled (some n) = ok tt

-- insertPreparedEvent: whether the event was new.
unfoldable pub insert_prepared_event :
    {rate : RateLibrary} → Library → BatchIngestRequest → PreparedEvent → ℤ → Exec rate Bool
insert_prepared_event lib req pe received = do
  lift (marshalled (lib.marshal_length pe.event.properties))
  statement (λ _ db. insert_event (event_row lib req pe received) db)

abbrev pub earlier : Option ℤ → ℤ → Option ℤ
earlier none t = some t
earlier (some first) t = if ltb_ℤ t first then some t else some first

-- INSERT INTO event_catalog ... ON CONFLICT DO UPDATE SET last_seen_at
unfoldable pub upsert_catalog : String → String → ℤ → List CatalogRow → List CatalogRow
upsert_catalog project name t [] =
    record {
      project_id = project;
      name = name;
      kind = product;
      properties = [];
      first_seen_at = t;
      last_seen_at = t;
    }
    ∷ []
upsert_catalog project name t (c ∷ cs) =
    let rest = upsert_catalog project name t cs in
    if str_eq c.project_id project && str_eq c.name name
    then record c { last_seen_at = t } ∷ cs
    else c ∷ rest

abbrev pub see_product :
    {rate : RateLibrary}
    → Kind
    → String
    → PreparedEvent
    → Bool
    → ℤ
    → PersistedEvents
    → Exec rate PersistedEvents
see_product system project pe strict received result = pure result
see_product product project pe strict received result = do
  if strict
      then pure tt
      else execute (λ _ db. record db {
        event_catalog = upsert_catalog project pe.event.name received db.event_catalog;
      })
  pure (record result {
    first_product_effective_at = earlier result.first_product_effective_at pe.effective_at;
  })

-- trackProductEvent
unfoldable pub track_product_event :
    {rate : RateLibrary}
    → String
    → PreparedEvent
    → Bool
    → ℤ
    → PersistedEvents
    → Exec rate PersistedEvents
track_product_event project pe strict received result =
    see_product pe.kind project pe strict received result

abbrev pub add_duplicate : String → PersistedEvents → PersistedEvents
add_duplicate id result = record result { duplicates = result.duplicates ++ id ∷ [] }

abbrev pub add_accepted : String → PersistedEvents → PersistedEvents
add_accepted id result = record result { accepted = result.accepted ++ id ∷ []; activated = true }

-- What follows the insertion of one event.
unfoldable pub record_insertion :
    {rate : RateLibrary}
    → String
    → PreparedEvent
    → Bool
    → ℤ
    → PersistedEvents
    → Bool
    → Exec rate PersistedEvents
record_insertion project pe strict received result false =
    pure (add_duplicate pe.event.event_id result)
record_insertion project pe strict received result true =
    track_product_event project pe strict received (add_accepted pe.event.event_id result)

-- The loop of persistPreparedEvents.
unfoldable pub persist_prepared_events :
    {rate : RateLibrary}
    → Library
    → BatchIngestRequest
    → Bool
    → ℤ
    → PersistedEvents
    → List PreparedEvent
    → Exec rate PersistedEvents
persist_prepared_events lib req strict received result [] = pure result
persist_prepared_events lib req strict received result (pe ∷ pes) = do
  inserted ← insert_prepared_event lib req pe received
  result' ← record_insertion req.project_id pe strict received result inserted
  persist_prepared_events lib req strict received result' pes

-- COALESCE
abbrev pub coalesce : Option ℤ → Option ℤ → Option ℤ
coalesce none b = b
coalesce (some a) b = some a

unfoldable pub activate : Option ℤ → ℤ → Installation → Installation
activate first t i = record i {
  activated_at = coalesce i.activated_at (some t);
  first_product_event_at = coalesce i.first_product_event_at first;
}

-- activateInstallation
unfoldable pub activate_installation :
    {rate : RateLibrary} → BatchIngestRequest → Option ℤ → Exec rate (Unit {0})
activate_installation req first = execute λ t db. record db {
  installations =
      update_installations (activate first t) req.project_id req.install_id db.installations;
}

abbrev pub no_events : PersistedEvents
no_events = record {
  accepted = [];
  duplicates = [];
  activated = false;
  first_product_effective_at = none;
}

-- The body of the transaction of persistBatch.
unfoldable pub persist_body :
    {rate : RateLibrary}
    → Library
    → BatchIngestRequest
    → Event
    → List PreparedEvent
    → Bool
    → ℤ
    → Exec rate PersistedEvents
persist_body lib req last prepared strict received = do
  update_batch_installation req last
  persisted ← persist_prepared_events lib req strict received no_events prepared
  if persisted.activated
      then activate_installation req persisted.first_product_effective_at
      else pure tt
  pure persisted

abbrev pub persist_up_to :
    {rate : RateLibrary}
    → Library
    → BatchIngestRequest
    → List PreparedEvent
    → Bool
    → ℤ
    → Option PreparedEvent
    → Exec rate (PersistedEvents × String × String)
persist_up_to lib req prepared strict received none = pure (no_events, "", "")
persist_up_to lib req prepared strict received (some last) = do
  persisted ← transaction (persist_body lib req last.event prepared strict received)
  pure (persisted, last.event.app_version, last.event.build_number)

-- (*Service).persistBatch: what was accepted and what was there, and the last event's versions.
unfoldable pub persist_batch :
    {rate : RateLibrary}
    → Library
    → BatchIngestRequest
    → List PreparedEvent
    → Bool
    → ℤ
    → Exec rate (PersistedEvents × String × String)
persist_batch lib req prepared strict received =
    persist_up_to lib req prepared strict received (get_last? prepared)
