-- ===== src/Ingest/Tests.antt =====
-- One installation of one project, and what the handlers do for it.
use mortris_server.Prelude.{
  ◌^◌, ◌*◌, ◌+◌, ◌≡◌, refl, true, false, String, map, Option, none, some, List, [], ◌∷◌, length,
  find, lookup, insert, contains, ◌⊎◌, arith,
}
use mortris_server.Prelude.Int.{pos, ◌+ℤ◌, ◌-ℤ◌, ◌≤ℤ◌, +ℤ_parts}
use mortris_server.Failure.{ok, other}
use mortris_server.Diskstate
use mortris_server.Contracts.Types.{BatchIngestResponse, ClientPolicy}
use mortris_server.Contracts.Tests.{library, zeros, install_id, event_id, level_start, request}
use mortris_server.Contracts.Validate.Batches.{IsBatch}
use mortris_server.Ratelimit.{Limiter, per_second, allow}
use mortris_server.Ratelimit.Tests.{counting}
use mortris_server.Ingest.Time.{
  client, abs_duration, parse_timestamp, plausible, effective_time, sub_time, effective_time-bounds,
  effective_time_overflow,
}
use mortris_server.Ingest.Db.{
  Db, Installation, EventRow, PolicyRule, product, is_event_key, select_installation,
  select_project, select_catalog, update_installations,
}
use mortris_server.Ingest.Exec.{
  World, ◌>>=◌, transaction, lift, now, pure, statement, query, execute,
}
use mortris_server.Ingest.Prepare.{
  PreparedEvent, prepare_batch, prepare_events, prepare_event, kind_of, catalog_properties, stamp,
  conclude, add_preparation,
}
use mortris_server.Ingest.Persist.{
  PersistedEvents, persist_batch, persist_body, update_batch_installation, touch,
  persist_prepared_events, insert_prepared_event, event_row, insert_event, record_insertion,
  track_product_event, upsert_catalog, activate_installation, activate,
}
use mortris_server.Ingest.Authorize.{
  authorize_batch, batch_credential_hash, select_credentials, check_credentials, same_bytes,
}
use mortris_server.Ingest.Stats.{
  record_batch_stats, batch_counts, by_event, count_ids, add_counts, count_rejected, insert_stats,
  record_rejection_stats, insert_occurrences, tally, upsert_rejections, record_drift_stats,
  upsert_drifts,
}
use mortris_server.Contracts.Pattern.{is_valid_uuid, is_valid_timestamp, is_event_name}
use mortris_server.Contracts.Validate.{
  validate_batch, batch_size, distinct_ids, validate_event, validate_properties, validate_entries,
  is_forged_system_name,
}
use mortris_server.Ingest.Policy.{
  Target, best_rule, default_policy, match_policy_audited, match_policy_row,
}
use mortris_server.Ingest.Choice.{IsAnswer, match_policy_audited-IsAnswer}
use mortris_server.Ingest.Failures.{persist_batch-err}
use mortris_server.Ingest.Batch.{batch, batch_authorized}
use mortris_server.Ingest.Guard.{batch_guarded, Authorized}
use mortris_server.Ingest.Accounting.{batch_accounts}
use mortris_server.Ingest.Admit.{
  is_rejecting, admit_batch, get_disk, fail_if, ask, require_allowed, require_ingest_ip,
  require_ingest_install,
}
use mortris_server.Ingest.Progress.{new_ids, old_ids, store_all}
use mortris_server.Ingest.Progress.Redelivery.{
  persist_batch-stores, persist_batch-redelivered, prepared_id,
}
use mortris_server.Ingest.Rows.{Stored, UniqueInstallations, UniqueEvents}
use mortris_server.Ingest.Service.{Request, batch_call, serve_all, serve_all-Stored}
use mortris_server.Ingest.History.{Later, serve_all-installation, serve_all-event}

abbrev pub installation : Installation
installation = record {
  project_id = "game";
  install_id = install_id;
  credential_hash = zeros 32;
  registered_at = pos 5;
  activated_at = none;
  first_product_event_at = none;
  last_seen_at = none;
  last_app_version = "1.0";
  last_build_number = "7";
  last_sdk_version = "2";
}

abbrev pub db : Db
db = record {
  projects =
      record {
        id = "game";
        environment = "production";
        retention_days = 90;
        strict_catalog = false;
        enabled = true;
        display_name = "Game";
        archived_at = none;
        sdk_test_enabled = false;
        sdk_test_token_hash = none;
        sdk_test_scenario = "";
      }
      ∷ [];
  installations = installation ∷ [];
  events = [];
  event_catalog = [];
  policy_rules = [];
  next_rule_id = 1;
  audit_log = [];
  ingestion_stats = [];
  rejections = [];
  rejection_stats = [];
  property_drift = [];
  registrations = [];
  maintenance_runs = [];
  content_revisions = [];
  admin_users = [];
  next_account_id = 1;
  admin_user_projects = [];
  admin_sessions = [];
}

abbrev pub limiter : Limiter counting
limiter = record { buckets = []; rate = per_second 5; burst = 5 }

abbrev pub world : World counting
world = record {
  db = db;
  disk = Diskstate.State.normal;
  reg_ip = limiter;
  reg_project = limiter;
  ingest_install = limiter;
  ingest_project = limiter;
  ingest_ip = limiter;
  daily_registration_cap = 10;
  faults = λ n. false;
  clocks = λ n. pos 2000000000000;
}

-- The server's time is the client's.
effective_time-bounds_example :
    (pos 200 ≤ℤ (effective_time (pos 100) (pos 200) (pos 100)).0 +ℤ pos (8 * 24 * 60 * 60 * 10 ^ 9))
    × ((effective_time (pos 100) (pos 200) (pos 100)).0 ≤ℤ pos 200 +ℤ pos (5 * 60 * 10 ^ 9))
effective_time-bounds_example = effective_time-bounds (pos 100) (pos 200) (pos 100)

effective_time_overflow_example :
    effective_time (pos 100) (pos 200) (sub_time (pos 200) (pos (2 ^ 63 + 200))) ≡ (pos 100, client)
unfolding plausible ◌-ℤ◌ ◌+ℤ◌
effective_time_overflow_example =
    effective_time_overflow (pos 100) (pos 200) (pos (2 ^ 63 + 200))
      (omega (arith, +ℤ_parts (pos 200) (pos (2 ^ 63)))) refl

answer : BatchIngestResponse
answer = record {
  server_time = pos 2000000000000;
  accepted = event_id ∷ [];
  duplicates = [];
  rejected = [];
  client_policy = default_policy;
}

batch_accounts_example :
    length answer.accepted + length answer.duplicates + length answer.rejected
    ≡ length request.events + 0
unfolding batch answer ◌>>=◌ lift now pure statement query execute transaction admit_batch get_disk
    fail_if ask require_allowed require_ingest_ip require_ingest_install allow lookup insert
    contains validate_batch is_valid_uuid is_valid_timestamp batch_size distinct_ids authorize_batch
    batch_credential_hash select_credentials select_installation select_project check_credentials
    same_bytes batch_authorized prepare_batch prepare_events prepare_event validate_event
    validate_properties validate_entries is_event_name is_forged_system_name kind_of
    catalog_properties select_catalog stamp conclude add_preparation effective_time parse_timestamp
    sub_time abs_duration plausible ◌-ℤ◌ ◌+ℤ◌ persist_batch persist_body update_batch_installation
    update_installations touch persist_prepared_events insert_prepared_event event_row insert_event
    record_insertion track_product_event upsert_catalog activate_installation activate
    match_policy_audited match_policy_row best_rule record_batch_stats batch_counts by_event
    count_ids add_counts count_rejected insert_stats record_rejection_stats insert_occurrences tally
    upsert_rejections record_drift_stats upsert_drifts
batch_accounts_example = batch_accounts library request [] "token" "1.2.3.4" world answer refl

batch_guarded_example :
    ((batch library request [] "token" "1.2.3.4" world).1.db ≡ db)
    ⊎ ((is_rejecting Diskstate.State.normal ≡ false)
        × IsBatch request
        × Authorized library db "game" install_id "token")
batch_guarded_example = batch_guarded library request [] "token" "1.2.3.4" world

abbrev prepared : PreparedEvent
prepared = record {
  event = level_start;
  kind = product;
  effective_at = pos 2000000000000;
  quality = client;
}

-- The same identifier twice in one batch.
persist_batch_stores_example :
    (a : PersistedEvents × String × String) × ((persist_batch library request
        (prepared ∷ prepared ∷ [])
        false
        (pos 2000000000000)
        world).0
      ≡ ok a)
    × (a.0.accepted ≡ new_ids library request (pos 2000000000000) (prepared ∷ prepared ∷ []) [])
    × (a.0.duplicates ≡ old_ids library request (pos 2000000000000) (prepared ∷ prepared ∷ []) [])
    × ((persist_batch library request
          (prepared ∷ prepared ∷ [])
          false
          (pos 2000000000000)
          world).1.db.events
        ≡ store_all library request (pos 2000000000000) (prepared ∷ prepared ∷ []) [])
persist_batch_stores_example =
    persist_batch-stores library request (pos 2000000000000) false (prepared ∷ prepared ∷ []) world
      (λ n. refl) refl ((_, refl), ((_, refl), tt))

abbrev delivered : World counting
delivered = (persist_batch library request (prepared ∷ []) false (pos 2000000000000) world).1

persist_batch_redelivered_example :
    (a : PersistedEvents × String × String) × ((persist_batch library request
        (prepared ∷ [])
        true
        (pos 3000000000000)
        (record world { db = delivered.db })).0
      ≡ ok a)
    × (a.0.accepted ≡ [])
    × (a.0.duplicates ≡ map prepared_id (prepared ∷ []))
    × ((persist_batch library request
          (prepared ∷ [])
          true
          (pos 3000000000000)
          (record world { db = delivered.db })).1.db.events
        ≡ delivered.db.events)
persist_batch_redelivered_example =
    persist_batch-redelivered library request (pos 2000000000000) (pos 3000000000000) false true
      (prepared ∷ []) world (record world { db = delivered.db }) (λ n. refl) refl ((_, refl), tt)
      (λ n. refl) refl

abbrev failing : World counting
failing = record world { faults = λ n. true }

persist_batch_example :
    (persist_batch library request (prepared ∷ []) false (pos 2000000000000) failing).1.db ≡ db
unfolding persist_batch ◌>>=◌ transaction
persist_batch_example =
    persist_batch-err library request (prepared ∷ []) false (pos 2000000000000) failing other refl

abbrev calls : List Request
calls = batch_call request [] "token" "1.2.3.4" ∷ batch_call request [] "token" "1.2.3.4" ∷ []

serve_all-Stored_example : Stored library (serve_all library calls world).db
unfolding UniqueInstallations UniqueEvents
serve_all-Stored_example = serve_all-Stored library calls world stored
  where
    stored : Stored library db
    stored = record { installations = (refl, tt); events = tt; rows = tt }

serve_all_installation_example :
    (j : Installation) × (select_installation "game" install_id (serve_all library calls world).db
      ≡ some j)
    × Later installation j
unfolding select_installation
serve_all_installation_example =
    serve_all-installation library "game" install_id installation calls world refl

abbrev pub row : EventRow
row = record {
  project_id = "game";
  install_id = install_id;
  event = level_start;
  event_kind = product;
  occurred_at_client = pos 1;
  sent_at_client = pos 1;
  received_at = pos 2;
  effective_at = pos 1;
  clock_skew_ms = pos 0;
  time_quality = client;
}

abbrev pub with_event : World counting
with_event = record world { db = record db { events = row ∷ [] } }

serve_all_event_example :
    find (is_event_key "game" event_id) (serve_all library calls with_event).db.events ≡ some row
serve_all_event_example = serve_all-event library "game" event_id row calls with_event refl

abbrev target : Target
target = record {
  project_id = "game";
  environment = "production";
  app_version = "1.0";
  build_number = "7";
  sdk_version = "2";
}

abbrev rule : Option String → PolicyRule
rule version = record {
  id = 1;
  created_at = pos 0;
  updated_at = pos 0;
  project_id = "game";
  environment = none;
  app_version = version;
  build_number = none;
  sdk_version = none;
  mode = "paused";
  next_check_seconds = pos 60;
  discard_pending = false;
  reason = "";
  enabled = true;
}

abbrev with_rules : World counting
with_rules = record world { db = record db { policy_rules = rule none ∷ rule (some "1.0") ∷ [] } }

match_policy_audited-IsAnswer_example :
    (p : ClientPolicy) × ((match_policy_audited "id" target with_rules).0 ≡ ok p)
    × IsAnswer target "id" with_rules.db p (match_policy_audited "id" target with_rules).1.db
match_policy_audited-IsAnswer_example =
    match_policy_audited-IsAnswer "id" target with_rules (λ n. refl)
