-- ===== src/Httpapi/Policies.antt =====
-- internal/httpapi/policy_handlers.go: the administration of the client policy rules by a session.
pub mod Outside
pub mod Tests
use mortris_server.Prelude.{ℕ, String, Option, List}
use mortris_server.Prelude.Int.{ℤ, pos, negsuc}
use mortris_server.Failure.{Result, err, new_error, not_found}
use mortris_server.Ratelimit.{RateLibrary}
use mortris_server.Ingest.Db.{PolicyRule}
use mortris_server.Ingest.Exec.{Exec, lift, statement, transaction, ◌>>=◌, ◌>>◌}
use mortris_server.Policyadmin.{CreateInput, list_rules, create, delete}
use mortris_server.Adminauth.{Session, check_csrf}
use mortris_server.Httpapi.Guards.{
  HttpRequest, decode_request, path_account, require_project_access, require_project_admin,
}

module _ {rate : RateLibrary} where
  -- handlePolicyList
  unfoldable pub handle_policy_list : Session → String → Exec rate (List PolicyRule)
  handle_policy_list sess project = do p ← lift (require_project_access sess project); list_rules p

  -- handlePolicyCreate, whose policyCreateRequest has the fields of CreateInput
  unfoldable pub handle_policy_create : Session → HttpRequest CreateInput → Exec rate PolicyRule
  handle_policy_create sess http = do
    lift (check_csrf http.csrf_cookie http.csrf_header)
    input ← lift (decode_request http.body)
    lift (require_project_admin sess input.project_id)
    create sess.admin_user_id input

  -- policyadmin.Delete on an int64: no rule has a negative id.
  unfoldable pub delete_numbered : ℤ → String → ℤ → Exec rate (Unit {0})
  delete_numbered admin project (pos id) = delete admin project id
  delete_numbered admin project (negsuc id) =
      transaction (statement (λ _ db. err (new_error 404 not_found)))

  -- handlePolicyDelete, on the query's project and the number in the path
  unfoldable pub handle_policy_delete :
      Session → String → Option ℤ → HttpRequest (Unit {0}) → Exec rate (Unit {0})
  handle_policy_delete sess project number http = do
    lift (check_csrf http.csrf_cookie http.csrf_header)
    p ← lift (require_project_access sess project)
    lift (require_project_admin sess p)
    id ← lift (path_account number)
    delete_numbered sess.admin_user_id p id
