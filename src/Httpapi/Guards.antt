-- ===== src/Httpapi/Guards.antt =====
-- internal/httpapi: what a handler of the dashboard checks before it acts (auth_middleware.go), the
-- body of its request (project_handlers.go, errors.go) and its entry in the audit log.
use mortris_server.Prelude.{
  String, Bool, true, false, not, Option, none, some, ◌∷◌, str_eq, if◌then◌else◌,
}
use mortris_server.Prelude.Int.{ℤ}
use mortris_server.Failure.{
  Failure, Result, ok, err, new_error, reject_if, invalid_request, unknown_field, session_invalid,
  forbidden_project, forbidden_role, ◌>>◌ as then_result,
}
use mortris_server.Ratelimit.{RateLibrary}
use mortris_server.Ingest.Db.{AuditEntry}
use mortris_server.Ingest.Exec.{Exec, fail, execute, ◌>>=◌}
use mortris_server.Adminauth.{Session, check_csrf, has_project_access, can_manage_project, is_owner}
use mortris_server.Adminauth.Sessions.{AuthLibrary, validate_session}

-- What reading and decoding a body comes to; the reader and encoding/json are not modelled. An
-- undecodable body may be so for a field that is not known.
pub data Body (A : Type 0) : Type 0 where
  unreadable : Body A
  undecodable : Bool → Body A
  decoded : A → Body A

-- badRequest and decodeErr
unfoldable pub decode_err : Bool → Failure
decode_err true = new_error 400 unknown_field
decode_err false = new_error 400 invalid_request

-- decodeRequestWithLimits
unfoldable pub decode_request : {A : Type 0} → Body A → Result A
unfolding decode_err
decode_request unreadable = err (new_error 400 invalid_request)
decode_request (undecodable unknown) = err (decode_err unknown)
decode_request (decoded a) = ok a

-- strconv.ParseInt on the account in a path; `none` is a text that is no number.
unfoldable pub path_account : Option ℤ → Result ℤ
path_account none = err (new_error 400 invalid_request)
path_account (some id) = ok id

-- The parts of a request that the handlers look at, its path apart.
pub record HttpRequest (A : Type 0) : Type 0 where
  pub session_cookie : Option String
  pub csrf_cookie : Option String
  pub csrf_header : String
  pub body : Body A

-- requireProjectAccess, on the query's "project", which is empty where there is none.
unfoldable pub require_project_access : Session → String → Result String
require_project_access sess project =
    then_result (reject_if (str_eq project "") (new_error 400 invalid_request)) (
      then_result
        (reject_if (not (has_project_access sess project)) (new_error 403 forbidden_project))
        (ok project))

-- requireProjectAdmin
unfoldable pub require_project_admin : Session → String → Result (Unit {0})
require_project_admin sess project =
    reject_if (not (can_manage_project sess project)) (new_error 403 forbidden_role)

-- requireOwner
unfoldable pub require_owner : Session → Result (Unit {0})
require_owner sess = reject_if (not (is_owner sess)) (new_error 403 forbidden_role)

-- The role and then the CSRF token, at the head of each handler that changes something.
unfoldable pub guard : {A : Type 0} → Result (Unit {0}) → HttpRequest A → Result (Unit {0})
guard role http = then_result role (check_csrf http.csrf_cookie http.csrf_header)

module _ {rate : RateLibrary} where
  -- requireSession
  unfoldable pub require_session :
      {A : Type 0} → AuthLibrary → Option String → (Session → Exec rate A) → Exec rate A
  require_session lib none next = fail (new_error 401 session_invalid)
  require_session lib (some token) next =
      if str_eq token ""
      then fail (new_error 401 session_invalid)
      else (validate_session lib token >>= next)

  -- INSERT INTO admin_audit_log
  unfoldable pub audit : AuditEntry → Exec rate (Unit {0})
  audit entry = execute λ _ db. record db { audit_log = entry ∷ db.audit_log }
