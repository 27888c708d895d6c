-- ===== src/Httpapi/Changes.antt =====
-- One call of a handler that changes accounts, members or projects.
use mortris_server.Prelude.{ℕ, String, Bool, Option, List}
use mortris_server.Prelude.Int.{ℤ}
use mortris_server.Ratelimit.{RateLibrary}
use mortris_server.Ingest.Exec.{World}
use mortris_server.Adminauth.{Session}
use mortris_server.Adminauth.Sessions.{AuthLibrary}
use mortris_server.Httpapi.Guards.{HttpRequest}
use mortris_server.Httpapi.Accounts.{
  AccountCreateRequest, AccountUpdateRequest, handle_account_create, handle_account_update,
}
use mortris_server.Httpapi.Members.{
  MemberCreateRequest, MemberUpdateRequest, handle_project_member_create,
  handle_project_member_update, handle_project_member_delete,
}
use mortris_server.Httpapi.Projects.{
  ProjectCreateRequest, ProjectUpdateRequest, handle_project_create, handle_project_update,
  handle_project_archive_state,
}
use mortris_server.Httpapi.Purge.{handle_project_purge}
use mortris_server.Httpapi.SdkControl.{handle_sdk_test_control}

-- A call, with its session, the parts of its path, its request and what it draws.
pub data Call : Type 0 where
  account_create : Session → Option (List ℕ) → HttpRequest AccountCreateRequest → Call
  account_update : Session → Option ℤ → Option (List ℕ) → HttpRequest AccountUpdateRequest → Call
  member_create : Session → String → Option (List ℕ) → HttpRequest MemberCreateRequest → Call
  member_update :
      Session → String → Option ℤ → Option (List ℕ) → HttpRequest MemberUpdateRequest → Call
  member_delete : Session → String → Option ℤ → HttpRequest (Unit {0}) → Call
  project_create : Session → Option String → Option String → HttpRequest ProjectCreateRequest → Call
  settings_update : Session → String → HttpRequest ProjectUpdateRequest → Call
  project_turn : Session → String → Bool → HttpRequest (Unit {0}) → Call
  project_purge : Session → String → HttpRequest (Unit {0}) → Call
  sdk_control : Session → String → HttpRequest String → Call

abbrev pub caller : Call → Session
caller (account_create s d h) = s
caller (account_update s a d h) = s
caller (member_create s p d h) = s
caller (member_update s p a d h) = s
caller (member_delete s p a h) = s
caller (project_create s d t h) = s
caller (settings_update s p h) = s
caller (project_turn s p a h) = s
caller (project_purge s p h) = s
caller (sdk_control s p h) = s

module _ {rate : RateLibrary} (lib : AuthLibrary) where
  -- The tables after a call, whether it succeeds or fails.
  unfoldable pub apply_call : Call → World rate → World rate
  apply_call (account_create s d h) w = (handle_account_create lib s d h w).1
  apply_call (account_update s a d h) w = (handle_account_update lib s a d h w).1
  apply_call (member_create s p d h) w = (handle_project_member_create lib s p d h w).1
  apply_call (member_update s p a d h) w = (handle_project_member_update lib s p a d h w).1
  apply_call (member_delete s p a h) w = (handle_project_member_delete lib s p a h w).1
  apply_call (project_create s d t h) w = (handle_project_create lib s d t h w).1
  apply_call (settings_update s p h) w = (handle_project_update lib s p h w).1
  apply_call (project_turn s p a h) w = (handle_project_archive_state s p a h w).1
  apply_call (project_purge s p h) w = (handle_project_purge s p h w).1
  apply_call (sdk_control s p h) w = (handle_sdk_test_control s p h w).1
