-- ===== src/Httpapi/Ingestion/Tests.antt =====
-- A batch for a project that is no test project, with the headers of a test, and one without events.
use mortris_server.Prelude.{◌≡◌, refl, String, false, inl, []}
use mortris_server.Contracts.Tests.{library, json, request}
use mortris_server.Failure.{err}
use mortris_server.Ingest.Exec.{advance}
use mortris_server.Contracts.Json.Scan.{reject_batch_envelope_duplicate_keys, envelope_rest}
use mortris_server.Contracts.Decode.{BatchEnvelope, decode_batch_envelope}
use mortris_server.Ingest.Batch.{batch}
use mortris_server.Ingest.Tests.{world}
use mortris_server.Sdktest.{Controller}
use mortris_server.Adminauth.Tests.{auth}
use mortris_server.Httpapi.Ingestion.{SdkRequest, bytes, process_batch, handle_batch}
use mortris_server.Httpapi.Guards.{decode_err}
use mortris_server.Httpapi.Ingestion.Unsized.{handle_batch-unsized}
use mortris_server.Httpapi.Ingestion.Isolated.{process_batch-isolated, plainly}

abbrev http : SdkRequest
http = record {
  content_encoding = "gzip";
  content_type = "application/json";
  test_token = "token";
  test_scenario = "rate_limited";
  bearer_token = "token";
  source_ip = "1.2.3.4";
}

abbrev controller : Controller
controller = record { project_id = "sdk-test"; token = "token"; seen401 = [] }

process_batch_isolated_example :
    process_batch library auth controller request [] http world
    ≡ (plainly (batch library request [] "token" "1.2.3.4" (advance world)), controller)
process_batch_isolated_example =
    process_batch-isolated library auth controller request [] http world refl refl

abbrev without_events : BatchEnvelope String
without_events = record {
  schema_version = request.schema_version;
  project_id = request.project_id;
  install_id = request.install_id;
  sdk = request.sdk;
  sent_at_client = request.sent_at_client;
  events = [];
}

handle_batch_unsized_example :
    handle_batch library auth (json []) (λ raw. false) controller http (bytes "{}") world
    ≡ ((err (decode_err false), world), controller)
unfolding decode_batch_envelope reject_batch_envelope_duplicate_keys envelope_rest
handle_batch_unsized_example =
    handle_batch-unsized (json []) library auth (λ raw. false) controller http world "{}"
      without_events refl (inl refl)
