-- ===== src/Adminauth.antt =====
-- internal/adminauth: the roles of a session (service.go), the CSRF check (csrf.go) and the login
-- throttle (throttle.go).
pub mod Roles
pub mod Sessions
pub mod Tests
use mortris_server.Prelude.{
  ℕ, String, Bool, true, false, not, ◌||◌, Option, none, some, List, [], ◌∷◌, str_eq, contains,
  string_eq, map, if◌then◌else◌,
}
use mortris_server.Prelude.Int.{ℤ}
use mortris_server.Failure.{Result, ok, err, new_error, csrf_mismatch, reject_if, ◌>>◌}
use mortris_server.Ratelimit.{RateLibrary, Limiter, per_minute, new_limiter, allow}

-- Project: a project and the caller's role in it.
pub record Membership : Type 0 where
  pub id : String
  pub display_name : String
  pub environment : String
  pub role : String

pub record Session : Type 0 where
  pub admin_user_id : ℤ
  pub username : String
  pub email : String
  pub role : String
  pub project_ids : List String
  pub projects : List Membership

abbrev pub ids : List Membership → List String
ids [] = []
ids (p ∷ ps) = p.id ∷ ids ps

-- newSession
unfoldable pub new_session : ℤ → String → String → String → List Membership → Session
new_session user username email role projects = record {
  admin_user_id = user;
  username = username;
  email = email;
  role = role;
  project_ids = ids projects;
  projects = projects;
}

-- stringValue
unfoldable pub string_value : Option String → Option String → String
string_value (some primary) fallback = primary
string_value none (some fallback) = fallback
string_value none none = ""

-- (*Session).HasProjectAccess
unfoldable pub has_project_access : Session → String → Bool
has_project_access s project = contains s.project_ids project

unfoldable pub role_in : List Membership → String → String
role_in [] project = ""
role_in (p ∷ ps) project =
    let rest = role_in ps project in if str_eq p.id project then p.role else rest

-- (*Session).ProjectRole
unfoldable pub project_role : Session → String → String
project_role s project =
    if str_eq s.role "owner" then "project_admin" else role_in s.projects project

-- (*Session).CanManageProject
unfoldable pub can_manage_project : Session → String → Bool
can_manage_project s project =
    str_eq s.role "owner" || str_eq (project_role s project) "project_admin"

-- (*Session).IsOwner
unfoldable pub is_owner : Session → Bool
is_owner s = str_eq s.role "owner"

-- CheckCSRF, on the cookie (`none` where there is none) and the header (empty where there is none).
-- A comparison in constant time gives 1 exactly for equal contents.
unfoldable pub check_csrf : Option String → String → Result (Unit {0})
check_csrf none header = err (new_error 403 csrf_mismatch)
check_csrf (some cookie) header =
    reject_if (str_eq cookie "") (new_error 403 csrf_mismatch)
    >> reject_if (str_eq header "") (new_error 403 csrf_mismatch)
    >> reject_if (not (str_eq cookie header)) (new_error 403 csrf_mismatch)

pub record Throttle (rate : RateLibrary) : Type 0 where
  pub by_email : Limiter rate
  pub by_ip : Limiter rate

module _ (rate : RateLibrary) where
  -- NewThrottle
  unfoldable pub new_throttle : Throttle rate
  new_throttle = record {
    by_email = new_limiter rate (per_minute 10) 10;
    by_ip = new_limiter rate (per_minute 30) 30;
  }

  -- (*Throttle).Allow, at a time: the second limiter is asked only if the first allows.
  unfoldable pub allow_login : Throttle rate → ℤ → String → String → Bool × Throttle rate
  allow_login t now email source_ip =
      let (by_email, l) = allow rate t.by_email now email in
      let (by_ip, m) = allow rate t.by_ip now source_ip in
      if by_email
      then (by_ip, record { by_email = l; by_ip = m })
      else (false, record t { by_email = l })
