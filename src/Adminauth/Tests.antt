-- ===== src/Adminauth/Tests.antt =====
-- A project administrator, and a request with its CSRF token.
use mortris_server.Prelude.{
  ◌≡◌, refl, true, String, some, none, false, length, str_eq, List, [], ◌∷◌,
}
use mortris_server.Contracts.Pattern.{codes}
use mortris_server.Prelude.Int.{pos, ◌+ℤ◌, ◌-ℤ◌}
use mortris_server.Failure.{Failure, err}
use mortris_server.Ratelimit.Tests.{counting}
use mortris_server.Ingest.Db.{AdminUser, AdminSession}
use mortris_server.Ingest.Exec.{World, pure, lift, query, statement, execute, now, ◌>>=◌}
use mortris_server.Ingest.Time.{sub_time}
use mortris_server.Ingest.Authorize.{same_bytes}
use mortris_server.Ingest.Tests.{world}
use mortris_server.Adminauth.Sessions.{
  AuthLibrary, LoginResult, login_admitted, open_session, select_login, absolute_timeout,
  validate_session, select_session, logout, load_projects, refresh_all, revoke_all,
}
use mortris_server.Adminauth.Sessions.Verified.{login_admitted-verified}
use mortris_server.Adminauth.Sessions.Validity.{IsLive, validate_session-IsLive}
use mortris_server.Adminauth.Sessions.Revoked.{Calls, logout-revokes}
use mortris_server.Adminauth.{Membership, new_session, string_value}

abbrev memberships : List Membership
memberships =
    record {
      id = "game";
      display_name = "Game";
      environment = "production";
      role = "project_admin";
    }
    ∷ []

-- A token hashes to its length, and each password is the encoded one.
abbrev pub auth : AuthLibrary
auth = record {
  hash_password = λ salt password. password;
  verify_password = λ encoded password. str_eq encoded password;
  hash_token = λ s. length (codes s) ∷ [];
  trim_space = λ s. s;
  lower = λ s. s;
}

abbrev pub ann : AdminUser
ann = record {
  id = pos 1;
  username = some "ann";
  email = none;
  password_hash = "secret";
  role = "owner";
  disabled = false;
}

abbrev session : AdminSession
session = record {
  admin_user_id = pos 1;
  token_hash = 2 ∷ [];
  expires_at = pos 3000000000000;
  last_seen_at = pos 1999999999999;
  revoked_at = none;
}

abbrev pub dashboard : World counting
dashboard = record world {
  db = record world.db { admin_users = ann ∷ []; admin_sessions = session ∷ [] };
}

validate_session-IsLive_example :
    (s : AdminSession) × (u : AdminUser) × (select_session (2 ∷ []) dashboard.db ≡ some (s, u))
    × IsLive (pos 2000000000000) s u
    × (pos 1 ≡ u.id)
unfolding validate_session select_session load_projects refresh_all new_session string_value ◌>>=◌
    lift query statement execute now same_bytes sub_time ◌-ℤ◌
validate_session-IsLive_example =
    validate_session-IsLive auth "t0" dashboard
      (new_session (pos 1) "ann" "ann" "owner" memberships) refl

logout_revokes_example :
    (e : Failure) × ((validate_session auth "t0" (logout auth "t0" dashboard).1).0 ≡ err e)
unfolding logout revoke_all ◌>>=◌ statement execute same_bytes
logout_revokes_example =
    logout-revokes auth "t0" dashboard (logout auth "t0" dashboard).1 refl Calls.none_yet

abbrev opened : LoginResult
opened = record {
  session_token = "t0";
  csrf_token = "t1";
  expires_at = pos 2000000000000 +ℤ absolute_timeout;
  session = new_session (pos 1) "ann" "ann" "owner" memberships;
}

login_admitted_verified_example :
    (u : AdminUser) × (select_login auth "ann" dashboard.db ≡ some u)
    × (u.disabled ≡ false)
    × (str_eq u.password_hash "secret" ≡ true)
    × (pos 1 ≡ u.id)
    × (◌≡◌ {A = String} "t0" "t0")
unfolding login_admitted open_session select_login load_projects new_session string_value ◌>>=◌
    query statement execute now pure
login_admitted_verified_example =
    login_admitted-verified auth "ann" "secret" "t0" "t1" dashboard opened refl
