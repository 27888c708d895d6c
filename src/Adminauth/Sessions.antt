-- ===== src/Adminauth/Sessions.antt =====
-- internal/adminauth/service.go: Login, Logout and ValidateSession. SHA-256, Argon2id and the
-- case folding of texts are parameters, and so are the two tokens that a login draws.
pub mod Verified
pub mod Validity
pub mod Revoked
use mortris_server.Prelude.{
  ℕ, ◌+◌, ◌*◌, ◌^◌, String, Bool, true, false, not, ◌&&◌, ◌||◌, Option, none, some, List, [], ◌∷◌,
  str_eq, find, any, if◌then◌else◌,
}
use mortris_server.Prelude.Int.{ℤ, pos, ◌+ℤ◌, eqb_ℤ, ltb_ℤ}
use mortris_server.Failure.{
  Failure, Result, ok, err, reject_if, new_error, too_many_attempts, invalid_credentials,
  session_invalid, session_expired,
}
use mortris_server.Ratelimit.{RateLibrary}
use mortris_server.Ingest.Time.{sub_time, minute}
use mortris_server.Ingest.Db.{
  Db, Project, AdminUser, AdminSession, ProjectAccess, AuditEntry, login_success, login_failure,
  logged_out,
}
use mortris_server.Ingest.Exec.{
  Exec, pure, fail, lift, query, statement, execute, attempt, now, ◌>>=◌, ◌>>◌,
}
use mortris_server.Ingest.Authorize.{same_bytes}
use mortris_server.Adminauth.{Session, Membership, Throttle, allow_login, new_session, string_value}

-- HashPassword with its drawn salt, VerifyPassword, hashToken, strings.TrimSpace and SQL's lower. Of the decoy that Login verifies for
-- an unknown account nothing is left: its result is not used.
pub record AuthLibrary : Type 0 where
  pub hash_password : (salt : List ℕ) (password : String) → String
  pub verify_password : (encoded password : String) → Bool
  pub hash_token : String → List ℕ
  pub trim_space : String → String
  pub lower : String → String

abbrev pub hours : ℕ → ℤ
hours n = pos (n * 60 * minute)

abbrev pub absolute_timeout : ℤ
absolute_timeout = hours 12

abbrev pub idle_timeout : ℤ
idle_timeout = pos (30 * minute)

pub record LoginResult : Type 0 where
  pub session_token : String
  pub csrf_token : String
  pub expires_at : ℤ
  pub session : Session

-- COALESCE(name, '')
abbrev pub or_empty : Option String → String
or_empty (some s) = s
or_empty none = ""

-- SELECT ... FROM admin_users WHERE lower(username) = lower($1) OR lower(email) = lower($1)
-- ORDER BY id LIMIT 1; the accounts stand in the order of their ids.
unfoldable pub select_login : AuthLibrary → String → Db → Option AdminUser
select_login lib identifier db =
    find
      (λ u.
        str_eq (lib.lower (or_empty u.username)) (lib.lower identifier)
        || str_eq (lib.lower (or_empty u.email)) (lib.lower identifier))
      db.admin_users

abbrev pub is_user : ℤ → AdminUser → Bool
is_user id u = eqb_ℤ u.id id

abbrev pub has_hash : List ℕ → AdminSession → Bool
has_hash hash s = same_bytes s.token_hash hash

abbrev pub is_none : Option ℤ → Bool
is_none none = true
is_none (some t) = false

abbrev access_of : ℤ → Project → List ProjectAccess → Option ProjectAccess
access_of user p rows = find (λ a. str_eq a.project_id p.id && eqb_ℤ a.admin_user_id user) rows

abbrev membership : Project → String → Membership
membership p role = record {
  id = p.id;
  display_name = p.display_name;
  environment = p.environment;
  role = role;
}

abbrev add_membership :
    Bool → Bool → Option ProjectAccess → Project → List Membership → List Membership
add_membership false owner access p rest = rest
add_membership true true access p rest = membership p "project_admin" ∷ rest
add_membership true false (some a) p rest = membership p a.access_role ∷ rest
add_membership true false none p rest = rest

-- loadProjects; the rows come in the order of the table.
unfoldable pub load_projects : ℤ → String → List ProjectAccess → List Project → List Membership
load_projects user role rows [] = []
load_projects user role rows (p ∷ ps) =
    add_membership (is_none p.archived_at) (str_eq role "owner") (access_of user p rows) p
      (load_projects user role rows ps)

abbrev pub session_of : Db → AdminUser → Session
session_of db u =
    new_session u.id (string_value u.username u.email) (string_value u.email u.username) u.role
      (load_projects u.id u.role db.admin_user_projects db.projects)

abbrev pub revoke : List ℕ → ℤ → AdminSession → AdminSession
revoke hash t s =
    if has_hash hash s && is_none s.revoked_at then record s { revoked_at = some t } else s

unfoldable pub revoke_all : List ℕ → ℤ → List AdminSession → List AdminSession
revoke_all hash t [] = []
revoke_all hash t (s ∷ ss) = revoke hash t s ∷ revoke_all hash t ss

-- UPDATE admin_sessions SET revoked_at ... WHERE token_hash = $1 AND revoked_at IS NULL RETURNING
abbrev pub revoke_statement : List ℕ → ℤ → Db → Result (Option AdminSession × Db)
revoke_statement hash t db = ok (
  find (λ s. has_hash hash s && is_none s.revoked_at) db.admin_sessions,
  record db { admin_sessions = revoke_all hash t db.admin_sessions },
)

abbrev pub with_user : Db → Option AdminSession → Option (AdminSession × AdminUser)
with_user db none = none
with_user db (some s) = elim (find (is_user s.admin_user_id) db.admin_users) [
  | none ↦ none
  | some u ↦ some (s, u)
]

-- SELECT ... FROM admin_sessions s JOIN admin_users u ... WHERE s.token_hash = $1
unfoldable pub select_session : List ℕ → Db → Option (AdminSession × AdminUser)
select_session hash db = with_user db (find (has_hash hash) db.admin_sessions)

abbrev refresh : List ℕ → ℤ → AdminSession → AdminSession
refresh hash t s = if has_hash hash s then record s { last_seen_at = t } else s

unfoldable pub refresh_all : List ℕ → ℤ → List AdminSession → List AdminSession
refresh_all hash t [] = []
refresh_all hash t (s ∷ ss) = refresh hash t s ∷ refresh_all hash t ss

abbrev pub has_expired : AdminSession → ℤ → Bool
has_expired s t = ltb_ℤ s.expires_at t || ltb_ℤ idle_timeout (sub_time t s.last_seen_at)

module _ {rate : RateLibrary} (lib : AuthLibrary) where
  abbrev audit : AuditEntry → Exec rate (Unit {0})
  audit entry = execute λ _ db. record db { audit_log = entry ∷ db.audit_log }

  -- auditLoginFailure, and the answer to every failed login.
  abbrev pub refuse_login : String → String → Exec rate LoginResult
  refuse_login identifier reason = do
    attempt (audit (login_failure identifier reason))
    fail (new_error 401 invalid_credentials)

  -- What follows a login whose password is right.
  unfoldable pub open_session : AdminUser → String → String → String → Exec rate LoginResult
  open_session u identifier session_token csrf_token = do
    session ← query (λ db. session_of db u)
    started ← now
    execute λ t db. record db {
      admin_sessions =
          record {
            admin_user_id = u.id;
            token_hash = lib.hash_token session_token;
            expires_at = started +ℤ absolute_timeout;
            last_seen_at = t;
            revoked_at = none;
          }
          ∷ db.admin_sessions;
    }
    audit (login_success u.id identifier)
    pure (record {
      session_token = session_token;
      csrf_token = csrf_token;
      expires_at = started +ℤ absolute_timeout;
      session = session;
    })

  abbrev pub check_login :
      Option AdminUser → String → String → String → String → Exec rate LoginResult
  check_login none identifier password session_token csrf_token =
      refuse_login identifier "no such user"
  check_login (some u) identifier password session_token csrf_token =
      if u.disabled
      then refuse_login identifier "account disabled"
      else if not (lib.verify_password u.password_hash password)
      then refuse_login identifier "wrong password"
      else open_session u identifier session_token csrf_token

  -- Login after the throttle.
  unfoldable pub login_admitted :
      (identifier password session_token csrf_token : String) → Exec rate LoginResult
  login_admitted identifier password session_token csrf_token = do
    u ← query (select_login lib identifier)
    check_login u identifier password session_token csrf_token

  -- Login, at a time, with the throttle that it leaves.
  unfoldable pub login :
      Throttle rate
      → ℤ
      → (identifier password source_ip session_token csrf_token : String)
      → Exec rate LoginResult × Throttle rate
  login throttle t identifier password source_ip session_token csrf_token =
      let (allowed, after) = allow_login rate throttle t (lib.trim_space identifier) source_ip in
      (
        if allowed
            then login_admitted (lib.trim_space identifier) password session_token csrf_token
            else fail (new_error 429 too_many_attempts),
        after,
      )

  abbrev pub log_logout : Option AdminSession → Exec rate (Unit {0})
  log_logout none = pure tt
  log_logout (some s) = audit (logged_out s.admin_user_id)

  unfoldable pub logout : String → Exec rate (Unit {0})
  logout token = do
    revoked ← statement (revoke_statement (lib.hash_token token))
    log_logout revoked

  abbrev pub check_session : List ℕ → Option (AdminSession × AdminUser) → Exec rate Session
  check_session hash none = fail (new_error 401 session_invalid)
  check_session hash (some (s, u)) = do
    lift (reject_if (not (is_none s.revoked_at) || u.disabled) (new_error 401 session_invalid))
    t ← now
    lift (reject_if (has_expired s t) (new_error 401 session_expired))
    execute λ t db. record db { admin_sessions = refresh_all hash t db.admin_sessions }
    query (λ db. session_of db u)

  unfoldable pub validate_session : String → Exec rate Session
  validate_session token = do
    row ← query (select_session (lib.hash_token token))
    check_session (lib.hash_token token) row
