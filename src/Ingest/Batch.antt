-- ===== src/Ingest/Batch.antt =====
-- (*Service).Batch of internal/ingest/batch.go.
use mortris_server.Prelude.{String, Bool, List}
use mortris_server.Contracts.Types.{BatchIngestRequest, BatchIngestResponse, RejectedEvent}
use mortris_server.Contracts.Library.{Library}
use mortris_server.Ratelimit.{RateLibrary}
use mortris_server.Ingest.Admit.{admit_batch}
use mortris_server.Ingest.Authorize.{authorize_batch}
use mortris_server.Ingest.Prepare.{prepare_batch}
use mortris_server.Ingest.Persist.{persist_batch}
use mortris_server.Ingest.Policy.{match_policy_audited}
use mortris_server.Ingest.Stats.{record_batch_stats, record_rejection_stats, record_drift_stats}
use mortris_server.Ingest.Exec.{Exec, pure, now, ◌>>=◌, ◌>>◌}

module _ {rate : RateLibrary} (lib : Library) where
  -- From the clock reading to the response.
  unfoldable pub batch_authorized :
      BatchIngestRequest → List RejectedEvent → String × Bool → Exec rate BatchIngestResponse
  batch_authorized req decode_rejections (environment, strict) = do
    received ← now
    b ← prepare_batch lib req decode_rejections strict received
    (persisted, app, build) ← persist_batch lib req b.events strict received
    policy ← match_policy_audited req.install_id (record {
      project_id = req.project_id;
      environment = environment;
      app_version = app;
      build_number = build;
      sdk_version = req.sdk.version;
    })
    record_batch_stats req b.events persisted.accepted persisted.duplicates b.rejected received
    record_rejection_stats req b.rejected received
    record_drift_stats req.project_id b.drifts received
    server_time ← now
    pure (record {
      server_time = server_time;
      accepted = persisted.accepted;
      duplicates = persisted.duplicates;
      rejected = b.rejected;
      client_policy = policy;
    })

  -- (*Service).Batch
  unfoldable pub batch :
      BatchIngestRequest → List RejectedEvent → String → String → Exec rate BatchIngestResponse
  batch req decode_rejections bearer_token source_ip = do
    admit_batch req source_ip
    granted ← authorize_batch lib req.project_id req.install_id bearer_token
    batch_authorized req decode_rejections granted
