-- ===== src/Ingest/Probe.antt =====
-- (*Service).Policy of internal/ingest/policyprobe.go: the authenticated policy probe.
use mortris_server.Prelude.{String, some}
use mortris_server.Contracts.Types.{PolicyRequest, PolicyResponse}
use mortris_server.Contracts.Library.{Library}
use mortris_server.Contracts.Validate.{validate_policy}
use mortris_server.Ratelimit.{RateLibrary}
use mortris_server.Ingest.Db.{update_installations}
use mortris_server.Ingest.Admit.{require_ingest_ip, require_ingest_install, as_bad_request}
use mortris_server.Ingest.Authorize.{authorize_batch}
use mortris_server.Ingest.Policy.{match_policy_audited}
use mortris_server.Ingest.Exec.{Exec, pure, lift, execute, now, ◌>>=◌, ◌>>◌}

-- The credential checks are those of authorizeBatch, in the same order; the strictness of the
-- catalog is not read.
unfoldable pub policy :
    {rate : RateLibrary} → Library → PolicyRequest → String → String → Exec rate PolicyResponse
policy lib req bearer_token source_ip = do
  require_ingest_ip source_ip
  lift (as_bad_request (validate_policy req))
  require_ingest_install req.project_id req.install_id
  (environment, _) ← authorize_batch lib req.project_id req.install_id bearer_token
  policy ← match_policy_audited req.install_id (record {
    project_id = req.project_id;
    environment = environment;
    app_version = req.app_version;
    build_number = req.build_number;
    sdk_version = req.sdk.version;
  })
  execute (λ t db. record db {
    installations =
        update_installations (λ i. record i { last_seen_at = some t }) req.project_id req.install_id
          db.installations;
  })
  server_time ← now
  pure (record { server_time = server_time; client_policy = policy })
