-- ===== src/Httpapi/Projects.antt =====
-- internal/httpapi/project_handlers_projects.go: a project's settings, its creation, its archive and
-- its restoration. What generatedID draws is an argument, `none` where the draw fails.
use Prim.Native.String.{◌++◌ as str_append}
use mortris_server.Prelude.{
  ℕ, String, Bool, true, false, not, ◌&&◌, ◌||◌, Option, none, some, List, [], ◌∷◌, ◌++◌, str_eq,
  any, find, if◌then◌else◌,
}
use mortris_server.Prelude.Int.{ℤ, pos, pos_part, ltb_ℤ}
use mortris_server.Failure.{
  Result, ok, err, other, new_error, reject_if, invalid_request, ◌>>◌ as then_result,
  ◌>>=◌ as bind_result,
}
use mortris_server.Ratelimit.{RateLibrary}
use mortris_server.Ingest.Db.{
  Db, Project, AuditEntry, is_project, project_created, project_updated, project_archived,
  project_restored,
}
use mortris_server.Ingest.Exec.{
  Exec, pure, lift, query, statement, attempt, transaction, ◌>>=◌, ◌>>◌,
}
use mortris_server.Adminauth.{Session}
use mortris_server.Adminauth.Sessions.{AuthLibrary}
use mortris_server.Httpapi.Guards.{
  HttpRequest, decode_request, require_project_admin, require_owner, guard, audit,
}
use mortris_server.Httpapi.Accounts.{has_value, coalesce}

-- managedProject
pub record ManagedProject : Type 0 where
  pub id : String
  pub display_name : String
  pub environment : String
  pub retention_days : ℤ
  pub strict_catalog : Bool
  pub enabled : Bool
  pub archived_at : Option ℤ
  pub sdk_test_enabled : Bool
  pub sdk_test_scenario : String

pub record ProjectCreateRequest : Type 0 where
  pub display_name : String
  pub environment : String
  pub retention_days : ℤ
  pub strict_catalog : Option Bool
  pub sdk_test_enabled : Bool

pub record ProjectUpdateRequest : Type 0 where
  pub display_name : Option String
  pub environment : Option String
  pub retention_days : Option ℤ
  pub strict_catalog : Option Bool

-- The columns that the queries read.
abbrev pub managed : Project → ManagedProject
managed p = record {
  id = p.id;
  display_name = p.display_name;
  environment = p.environment;
  retention_days = pos p.retention_days;
  strict_catalog = p.strict_catalog;
  enabled = p.enabled;
  archived_at = p.archived_at;
  sdk_test_enabled = p.sdk_test_enabled;
  sdk_test_scenario = p.sdk_test_scenario;
}

abbrev pub is_bad_retention : ℤ → Bool
is_bad_retention days = ltb_ℤ days (pos 1) || ltb_ℤ (pos 3650) days

-- generatedID, with the drawn bytes in hexadecimal digits.
unfoldable pub generated_id : String → Option String → Result String
generated_id prefix none = err other
generated_id prefix (some digits) = ok (str_append prefix (str_append "_" digits))

-- A new project, the token that is shown once, and the hash of it that is stored.
pub record NewProject : Type 0 where
  pub project : ManagedProject
  pub sdk_token : String
  pub sdk_hash : Option (List ℕ)

abbrev pub is_strict : Option Bool → Bool
is_strict none = true
is_strict (some strict) = strict

abbrev pub project_of : AuthLibrary → ProjectCreateRequest → String → ManagedProject
project_of lib req id = record {
  id = id;
  display_name = lib.trim_space req.display_name;
  environment = lib.trim_space req.environment;
  retention_days = req.retention_days;
  strict_catalog = is_strict req.strict_catalog;
  enabled = true;
  archived_at = none;
  sdk_test_enabled = req.sdk_test_enabled;
  sdk_test_scenario = "";
}

abbrev pub with_token : AuthLibrary → Bool → Option String → ManagedProject → Result NewProject
with_token lib false drawn project =
    ok (record { project = project; sdk_token = ""; sdk_hash = none })
with_token lib true drawn project = bind_result (generated_id "sdk_test" drawn) λ token.
    ok (record { project = project; sdk_token = token; sdk_hash = some (lib.hash_token token) })

-- newManagedProject
unfoldable pub new_managed_project :
    AuthLibrary → Option String → Option String → ProjectCreateRequest → Result NewProject
new_managed_project lib drawn_id drawn_token req =
    then_result
      (reject_if
        (str_eq (lib.trim_space req.display_name) ""
          || str_eq (lib.trim_space req.environment) ""
          || is_bad_retention req.retention_days)
        (new_error 400 invalid_request))
      (then_result
        (reject_if (req.sdk_test_enabled && not (str_eq (lib.trim_space req.environment) "test"))
          (new_error 400 invalid_request))
        (bind_result (generated_id "project" drawn_id)
          λ id. with_token lib req.sdk_test_enabled drawn_token (project_of lib req id)))

abbrev pub project_row : NewProject → Project
project_row n = record {
  id = n.project.id;
  environment = n.project.environment;
  retention_days = pos_part n.project.retention_days;
  strict_catalog = n.project.strict_catalog;
  enabled = true;
  display_name = n.project.display_name;
  archived_at = none;
  sdk_test_enabled = n.project.sdk_test_enabled;
  sdk_test_token_hash = n.sdk_hash;
  sdk_test_scenario = "";
}

-- INSERT INTO projects, whose key is the id
unfoldable pub insert_project : NewProject → ℤ → Db → Result (Unit {0} × Db)
insert_project n t db =
    if any (is_project n.project.id) db.projects
    then err other
    else ok (tt, record db { projects = db.projects ++ (project_row n ∷ []) })

abbrev pub is_active : Project → Bool
is_active p = not (has_value p.archived_at)

-- UPDATE projects SET ... WHERE a condition
unfoldable pub update_projects :
    (Project → Bool) → (Project → Project) → List Project → List Project
update_projects p f [] = []
update_projects p f (x ∷ xs) = (if p x then f x else x) ∷ update_projects p f xs

abbrev days_of : Option ℤ → Option ℕ
days_of none = none
days_of (some d) = some (pos_part d)

-- trimmed
unfoldable pub trimmed : AuthLibrary → Option String → Option String
trimmed lib none = none
trimmed lib (some s) = some (lib.trim_space s)

unfoldable pub updated_project : AuthLibrary → ProjectUpdateRequest → Project → Project
unfolding trimmed
updated_project lib req p = record p {
  display_name = coalesce (trimmed lib req.display_name) p.display_name;
  environment = coalesce (trimmed lib req.environment) p.environment;
  retention_days = coalesce (days_of req.retention_days) p.retention_days;
  strict_catalog = coalesce req.strict_catalog p.strict_catalog;
}

abbrev pub is_active_project : String → Project → Bool
is_active_project project p = is_project project p && is_active p

abbrev pub updated_row : Option Project → Result ManagedProject
updated_row none = err (new_error 404 invalid_request)
updated_row (some p) = ok (managed p)

-- UPDATE ... RETURNING
unfoldable pub update_project_row :
    AuthLibrary → String → ProjectUpdateRequest → ℤ → Db → Result (Option Project × Db)
update_project_row lib project req t db = ok (
  elim (find (is_active_project project) db.projects) [
    | none ↦ none
    | some p ↦ some (updated_project lib req p)
  ],
  record db {
    projects = update_projects (is_active_project project) (updated_project lib req) db.projects;
  },
)

abbrev pub is_blank : AuthLibrary → Option String → Bool
is_blank lib none = false
is_blank lib (some s) = str_eq (lib.trim_space s) ""

abbrev pub is_bad_days : Option ℤ → Bool
is_bad_days none = false
is_bad_days (some d) = is_bad_retention d

-- The condition and the change of the UPDATE by which a project is archived or restored.
abbrev pub can_turn : String → Bool → Project → Bool
can_turn project archive p =
    is_project project p && (archive && is_active p || not archive && has_value p.archived_at)

abbrev pub turned : Bool → ℤ → Project → Project
turned archive t p = record p {
  archived_at = if archive then some t else none;
  enabled = not archive;
}

unfoldable pub turn_project : String → Bool → ℤ → Db → Result (Bool × Db)
turn_project project archive t db = ok (
  any (can_turn project archive) db.projects,
  record db {
    projects = update_projects (can_turn project archive) (turned archive t) db.projects;
  },
)

abbrev turned_entry : Bool → ℤ → String → AuditEntry
turned_entry true admin project = project_archived admin project
turned_entry false admin project = project_restored admin project

module _ {rate : RateLibrary} (lib : AuthLibrary) where
  -- createProject
  unfoldable pub create_project : ℤ → NewProject → Exec rate (Unit {0})
  create_project owner n = transaction (do
    statement (insert_project n)
    audit (project_created owner n.project.id n.project.sdk_test_enabled))

  -- handleProjectCreate
  unfoldable pub handle_project_create :
      Session
      → Option String
      → Option String
      → HttpRequest ProjectCreateRequest
      → Exec rate NewProject
  handle_project_create sess drawn_id drawn_token http = do
    lift (guard (require_owner sess) http)
    req ← lift (decode_request http.body)
    n ← lift (new_managed_project lib drawn_id drawn_token req)
    create_project sess.admin_user_id n
    pure n

  -- handleProjectGet
  unfoldable pub handle_project_get : Session → String → Exec rate ManagedProject
  handle_project_get sess project = do
    lift (require_project_admin sess project)
    row ← query (λ db. find (is_active_project project) db.projects)
    lift (updated_row row)

  -- updateProject
  unfoldable pub update_project : String → ProjectUpdateRequest → Exec rate ManagedProject
  update_project project req = do
    lift (
        reject_if
          (not (has_value req.display_name)
            && not (has_value req.environment)
            && not (has_value req.retention_days)
            && not (has_value req.strict_catalog))
          (new_error 400 invalid_request))
    lift (
        reject_if
          (is_blank lib req.display_name
            || is_blank lib req.environment
            || is_bad_days req.retention_days)
          (new_error 400 invalid_request))
    row ← statement (update_project_row lib project req)
    lift (updated_row row)

  -- handleProjectUpdate
  unfoldable pub handle_project_update :
      Session → String → HttpRequest ProjectUpdateRequest → Exec rate ManagedProject
  handle_project_update sess project http = do
    lift (guard (require_project_admin sess project) http)
    req ← lift (decode_request http.body)
    p ← update_project project req
    attempt (audit (project_updated sess.admin_user_id project))
    pure p

module _ {rate : RateLibrary} where
  -- handleProjectArchiveState, called with true by handleProjectArchive and with false by
  -- handleProjectRestore
  unfoldable pub handle_project_archive_state :
      Session → String → Bool → HttpRequest (Unit {0}) → Exec rate (Unit {0})
  handle_project_archive_state sess project archive http = do
    lift (guard (require_owner sess) http)
    changed ← statement (turn_project project archive)
    lift (reject_if (not changed) (new_error 404 invalid_request))
    attempt (audit (turned_entry archive sess.admin_user_id project))
    pure tt
