-- ===== src/Httpapi/Members.antt =====
-- internal/httpapi/project_handlers_members.go: the members of a project, granted, updated and
-- revoked by an owner or an administrator of the project.
use mortris_server.Prelude.{
  ℕ, String, Bool, not, ◌&&◌, ◌||◌, Option, none, some, List, [], ◌∷◌, str_eq, ◌==◌, any, keep,
  find, length, if◌then◌else◌,
}
use mortris_server.Prelude.Int.{ℤ, eqb_ℤ}
use mortris_server.Failure.{
  Result, ok, err, other, new_error, reject_if, invalid_request, forbidden_role,
  ◌>>◌ as then_result,
}
use mortris_server.Ratelimit.{RateLibrary}
use mortris_server.Ingest.Db.{
  Db, AdminUser, ProjectAccess, is_project, project_member_granted, project_member_revoked,
  project_member_updated,
}
use mortris_server.Ingest.Exec.{
  Exec, pure, lift, query, statement, execute, attempt, transaction, ◌>>=◌, ◌>>◌,
}
use mortris_server.Adminauth.{Session, is_owner}
use mortris_server.Adminauth.Sessions.{AuthLibrary, is_user}
use mortris_server.Httpapi.Guards.{
  HttpRequest, path_account, decode_request, require_project_admin, guard, audit,
}
use mortris_server.Httpapi.Accounts.{
  create_named_account, hash_drawn, is_short, has_value, update_users, revoke_sessions_of,
}

pub record MemberCreateRequest : Type 0 where
  pub account_id : Option ℤ
  pub username : String
  pub password : String
  pub email : String
  pub access_role : String

pub record MemberUpdateRequest : Type 0 where
  pub access_role : Option String
  pub password : Option String

-- A viewer, where the request names no role.
unfoldable pub with_role : MemberCreateRequest → MemberCreateRequest
with_role req = if str_eq req.access_role "" then record req { access_role = "viewer" } else req

abbrev pub is_access_role : String → Bool
is_access_role role = str_eq role "viewer" || str_eq role "project_admin"

abbrev pub is_access : String → ℤ → ProjectAccess → Bool
is_access project account a = str_eq a.project_id project && eqb_ℤ a.admin_user_id account

-- UPDATE admin_user_projects SET access_role = $3 WHERE project_id = $1 AND admin_user_id = $2
unfoldable pub set_access : String → ℤ → String → List ProjectAccess → List ProjectAccess
set_access project account role [] = []
set_access project account role (a ∷ as') =
    (if is_access project account a then record a { access_role = role } else a)
    ∷ set_access project account role as'

abbrev pub access : String → ℤ → String → ProjectAccess
access project account role = record {
  admin_user_id = account;
  project_id = project;
  access_role = role;
}

-- INSERT INTO admin_user_projects ... ON CONFLICT DO UPDATE, of an account and a project that exist
unfoldable pub grant : String → ℤ → String → ℤ → Db → Result (Unit {0} × Db)
unfolding set_access
grant project account role t db =
    if not (any (is_user account) db.admin_users && any (is_project project) db.projects)
    then err other
    else if any (is_access project account) db.admin_user_projects
    then ok (
      tt,
      record db { admin_user_projects = set_access project account role db.admin_user_projects },
    )
    else ok (
      tt,
      record db { admin_user_projects = access project account role ∷ db.admin_user_projects },
    )

-- DELETE FROM admin_user_projects ..., with whether it affected a row
unfoldable pub revoke_access : String → ℤ → ℤ → Db → Result (Bool × Db)
revoke_access project account t db = ok (
  any (is_access project account) db.admin_user_projects,
  record db {
    admin_user_projects = keep (λ a. not (is_access project account a)) db.admin_user_projects;
  },
)

-- validateMemberUpdate
unfoldable pub validate_member_update : MemberUpdateRequest → Result (Unit {0})
validate_member_update req =
    then_result
      (reject_if (not (has_value req.access_role) && not (has_value req.password))
        (new_error 400 invalid_request))
      (then_result
        (elim req.access_role [
          | none ↦ ok tt
          | some role ↦ reject_if (not (is_access_role role)) (new_error 400 invalid_request)
        ])
        (elim req.password [
          | none ↦ ok tt
          | some password ↦ reject_if (is_short password) (new_error 400 invalid_request)
        ]))

-- How many projects an account belongs to.
abbrev pub memberships_of : ℤ → List ProjectAccess → ℕ
memberships_of account rows = length (keep (λ a. eqb_ℤ a.admin_user_id account) rows)

-- The query of canChangeProjectMember: the account's role and the number of its memberships, if it
-- is a member of the project.
unfoldable pub select_member : String → ℤ → Db → Option (String × ℕ)
select_member project account db =
    if any (is_access project account) db.admin_user_projects
    then (elim (find (is_user account) db.admin_users) [
      | none ↦ none
      | some u ↦ some (u.role, memberships_of account db.admin_user_projects)
    ])
    else none

abbrev pub judge_member : Session → Option (String × ℕ) → Result (Unit {0})
judge_member sess none = err (new_error 404 invalid_request)
judge_member sess (some (role, memberships)) =
    reject_if (not (is_owner sess) && (not (str_eq role "member") || not (memberships == 1)))
      (new_error 403 forbidden_role)

abbrev pub judged : Db → Result (Unit {0}) → Result (Unit {0} × Db)
judged db (ok done) = ok (done, db)
judged db (err e) = err e

abbrev pub set_password : String → AdminUser → AdminUser
set_password hash u = record u { password_hash = hash }

module _ {rate : RateLibrary} (lib : AuthLibrary) where
  abbrev pub assign_account : Session → ℤ → Exec rate ℤ
  assign_account sess id = do
    lift (reject_if (not (is_owner sess)) (new_error 403 forbidden_role))
    exists ← query (λ db. any (is_user id) db.admin_users)
    lift (reject_if (not exists) (new_error 400 invalid_request))
    pure id

  -- projectMemberAccountID
  unfoldable pub project_member_account_id :
      Session → Option (List ℕ) → Option ℤ → MemberCreateRequest → Exec rate ℤ
  project_member_account_id sess drawn none req =
      create_named_account lib drawn req.username req.password req.email
  project_member_account_id sess drawn (some id) req = assign_account sess id

  -- createProjectMember, with a role that is not empty
  unfoldable pub create_project_member :
      Session → String → Option (List ℕ) → MemberCreateRequest → Exec rate ℤ
  create_project_member sess project drawn req = do
    lift (reject_if (not (is_access_role req.access_role)) (new_error 400 invalid_request))
    transaction (do
      account ← project_member_account_id sess drawn req.account_id req
      statement (grant project account req.access_role)
      audit (project_member_granted sess.admin_user_id project account req.access_role)
      pure account)

  -- canChangeProjectMember
  unfoldable pub can_change_project_member : Session → String → ℤ → Exec rate (Unit {0})
  can_change_project_member sess project account =
      statement λ _ db. judged db (judge_member sess (select_member project account db))

  abbrev pub change_role : String → ℤ → Option String → Exec rate (Unit {0})
  change_role project account none = pure tt
  change_role project account (some role) = execute λ _ db. record db {
    admin_user_projects = set_access project account role db.admin_user_projects;
  }

  abbrev pub change_password : ℤ → Option (List ℕ) → Option String → Exec rate (Unit {0})
  change_password account drawn none = pure tt
  change_password account drawn (some password) = do
    hash ← lift (hash_drawn lib drawn password)
    execute
        λ _ db. record db { admin_users = update_users account (set_password hash) db.admin_users }
    execute λ t db. record db { admin_sessions = revoke_sessions_of account t db.admin_sessions }

  -- applyMemberUpdate
  unfoldable pub apply_member_update :
      String → ℤ → Option (List ℕ) → MemberUpdateRequest → Exec rate (Unit {0})
  apply_member_update project account drawn req = do
    change_role project account req.access_role
    change_password account drawn req.password

  -- updateProjectMember
  unfoldable pub update_project_member :
      Session → String → ℤ → Option (List ℕ) → MemberUpdateRequest → Exec rate (Unit {0})
  update_project_member sess project account drawn req = do
    lift (validate_member_update req)
    transaction (do
      can_change_project_member sess project account
      apply_member_update project account drawn req
      audit (project_member_updated sess.admin_user_id project account))

  -- handleProjectMemberCreate
  unfoldable pub handle_project_member_create :
      Session → String → Option (List ℕ) → HttpRequest MemberCreateRequest → Exec rate ℤ
  handle_project_member_create sess project drawn http = do
    lift (guard (require_project_admin sess project) http)
    req ← lift (decode_request http.body)
    create_project_member sess project drawn (with_role req)

  -- handleProjectMemberUpdate
  unfoldable pub handle_project_member_update :
      Session
      → String
      → Option ℤ
      → Option (List ℕ)
      → HttpRequest MemberUpdateRequest
      → Exec rate (Unit {0})
  handle_project_member_update sess project account drawn http = do
    lift (guard (require_project_admin sess project) http)
    id ← lift (path_account account)
    req ← lift (decode_request http.body)
    update_project_member sess project id drawn req

  -- handleProjectMemberDelete, which has no body
  unfoldable pub handle_project_member_delete :
      Session → String → Option ℤ → HttpRequest (Unit {0}) → Exec rate (Unit {0})
  handle_project_member_delete sess project account http = do
    lift (guard (require_project_admin sess project) http)
    id ← lift (path_account account)
    removed ← statement (revoke_access project id)
    lift (reject_if (not removed) (new_error 404 invalid_request))
    attempt (audit (project_member_revoked sess.admin_user_id project id))
    pure tt
