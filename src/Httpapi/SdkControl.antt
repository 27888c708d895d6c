-- ===== src/Httpapi/SdkControl.antt =====
-- internal/httpapi/sdk_test_control.go and project_sdk_test_handler.go: the deliberate faults that an
-- owner sets for a test project, and what a request of the SDK is given.
pub mod Setting
use mortris_server.Prelude.{
  ℕ, String, Bool, true, false, not, ◌&&◌, Option, none, some, List, ◌∷◌, [], str_eq, any, find,
  if◌then◌else◌,
}
use mortris_server.Prelude.Int.{ℤ}
use mortris_server.Failure.{Result, ok, err, new_error, reject_if, invalid_request}
use mortris_server.Ratelimit.{RateLibrary}
use mortris_server.Ingest.Db.{Db, Project, is_project, sdk_test_scenario_updated}
use mortris_server.Ingest.Exec.{Exec, pure, lift, query, statement, attempt, ◌>>=◌, ◌>>◌}
use mortris_server.Ingest.Authorize.{same_bytes}
use mortris_server.Sdktest.{
  Scenario, lost_acknowledgement, unauthorized_once, payload_too_large, rate_limited, policy_active,
  policy_pause_upload, policy_disable, no_scenario, Controller, known_scenario, scenario,
}
use mortris_server.Adminauth.{Session}
use mortris_server.Adminauth.Sessions.{AuthLibrary}
use mortris_server.Httpapi.Guards.{HttpRequest, decode_request, require_owner, guard, audit}
use mortris_server.Httpapi.Projects.{is_active, update_projects}

-- knownSDKScenario, which lists the same texts as knownScenario of internal/sdktest.
abbrev pub is_known : Scenario → Bool
is_known no_scenario = false
is_known s = true

-- WHERE id = $1 AND environment = 'test' AND sdk_test_enabled AND archived_at IS NULL
abbrev pub is_test_project : String → Project → Bool
is_test_project project p =
    is_project project p && (str_eq p.environment "test" && (p.sdk_test_enabled && is_active p))

abbrev pub with_scenario : String → Project → Project
with_scenario s p = record p { sdk_test_scenario = s }

unfoldable pub set_scenario : String → String → ℤ → Db → Result (Bool × Db)
set_scenario project s t db = ok (
  any (is_test_project project) db.projects,
  record db { projects = update_projects (is_test_project project) (with_scenario s) db.projects },
)

-- What a row of the query gives a request with a token, or the legacy controller's answer.
abbrev pub granted : AuthLibrary → String → List ℕ → String → Scenario
granted lib token hash s =
    if same_bytes (lib.hash_token token) hash then known_scenario s else no_scenario

abbrev pub chosen : AuthLibrary → String → Scenario → Result (Option Project) → Scenario
chosen lib token legacy (err e) = legacy
chosen lib token legacy (ok none) = legacy
chosen lib token legacy (ok (some p)) = elim p.sdk_test_token_hash [
  | none ↦ legacy
  | some hash ↦ elim hash [ [] ↦ legacy | x ∷ xs ↦ granted lib token (x ∷ xs) p.sdk_test_scenario ]
]

module _ {rate : RateLibrary} where
  -- handleSDKTestControl
  unfoldable pub handle_sdk_test_control :
      Session → String → HttpRequest String → Exec rate (Unit {0})
  handle_sdk_test_control sess project http = do
    lift (guard (require_owner sess) http)
    s ← lift (decode_request http.body)
    lift (
        reject_if (not (str_eq s "") && not (is_known (known_scenario s)))
          (new_error 400 invalid_request))
    changed ← statement (set_scenario project s)
    lift (reject_if (not changed) (new_error 400 invalid_request))
    attempt (audit (sdk_test_scenario_updated sess.admin_user_id project s))
    pure tt

  -- sdkTestScenario, with the two headers of the request
  unfoldable pub sdk_test_scenario :
      AuthLibrary → Option Controller → String → String → String → Exec rate Scenario
  sdk_test_scenario lib legacy token header project = do
    row ← attempt (query (λ db. find (is_test_project project) db.projects))
    pure (chosen lib token (scenario legacy token header project) row)
