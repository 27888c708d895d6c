-- ===== src/Httpapi/Tests.antt =====
-- An owner, an administrator of one project, and what they do.
use mortris_server.Prelude.{◌≡◌, refl, true, false, some, none, List, [], ◌∷◌, find, arith, inl}
use mortris_server.Httpapi.Accounts.{is_short}
use mortris_server.Prelude.Int.{pos, eqb_ℤ}
use mortris_server.Failure.{Failure, ok, err}
use mortris_server.Ratelimit.Tests.{counting}
use mortris_server.Ingest.Db.{Project}
use mortris_server.Ingest.Exec.{World}
use mortris_server.Ingest.Authorize.{same_bytes}
use mortris_server.Ingest.Tests.{world}
use mortris_server.Sdktest.{rate_limited, known_scenario}
use mortris_server.Adminauth.{
  Session, new_session, is_owner, can_manage_project, project_role, role_in, check_csrf,
}
use mortris_server.Adminauth.Tests.{auth, ann}
use mortris_server.Httpapi.Guards.{HttpRequest, decoded, guard, require_owner}
use mortris_server.Httpapi.Changes.{Call, account_create, member_update, apply_call}
use mortris_server.Httpapi.Distinct.{Distinct, apply_calls, apply_calls-Distinct}
use mortris_server.Httpapi.Privilege.{own_access, apply_call-outside}
use mortris_server.Httpapi.Purge.{purge_project, has_content}
use mortris_server.Httpapi.Purge.Refused.{purge_project-refused}
use mortris_server.Httpapi.Purge.Removes.{Purged, purge_project-removes}
use mortris_server.Httpapi.SdkControl.{handle_sdk_test_control, sdk_test_scenario}
use mortris_server.Httpapi.SdkControl.Setting.{sdk_test_scenario-control}

abbrev owner : Session
owner = new_session (pos 1) "ann" "" "owner" []

abbrev admin : Session
admin = new_session (pos 2) "bob" "" "member" (
    record {
      id = "game";
      display_name = "Game";
      environment = "production";
      role = "project_admin";
    }
    ∷ [])

abbrev request : {A : Type 0} → A → HttpRequest A
request a = record {
  session_cookie = some "t0";
  csrf_cookie = some "t1";
  csrf_header = "t1";
  body = decoded a;
}

abbrev test_project : Project
test_project = record {
  id = "test";
  environment = "test";
  retention_days = 30;
  strict_catalog = true;
  enabled = true;
  display_name = "Test";
  archived_at = none;
  sdk_test_enabled = true;
  sdk_test_token_hash = some (2 ∷ []);
  sdk_test_scenario = "";
}

abbrev old_project : Project
old_project = record test_project { id = "old"; archived_at = some (pos 7) }

abbrev office : World counting
office = record world {
  db = record world.db {
    projects = test_project ∷ old_project ∷ world.db.projects;
    admin_users = ann ∷ [];
    next_account_id = 2;
    content_revisions = record { project_id = "game"; content_revision = "r0" } ∷ [];
  };
}

abbrev calls : List Call
calls =
    account_create owner (some [])
      (request (record { username = "carol"; password = "long enough"; email = "" }))
    ∷ []

apply_calls-Distinct_example :
    Distinct auth
      (apply_calls auth calls office).db.admin_users
      (apply_calls auth calls office).db.next_account_id
apply_calls-Distinct_example =
    apply_calls-Distinct auth calls office
      (record { apart = (tt, tt); below = ((1, refl, omega arith), tt) })

abbrev reset : Call
reset =
    member_update admin "game" (some (pos 1)) (some [])
      (request (record { access_role = none; password = some "taken over" }))

apply_call-outside_example :
    (own_access "test" (apply_call auth reset office).db.admin_user_projects ≡ [])
    × (find (λ u. eqb_ℤ u.id (pos 1)) (apply_call auth reset office).db.admin_users ≡ some ann)
unfolding is_owner can_manage_project project_role role_in new_session
apply_call-outside_example =
    apply_call-outside auth reset office "test" ann refl refl refl (inl (λ e. cc))

purge_project_refused_example :
    (e : Failure) × ((purge_project "game" office).0 ≡ err e)
    × ((purge_project "game" office).1.db ≡ office.db)
unfolding has_content
purge_project_refused_example = purge_project-refused "game" office refl

purge_project_removes_example :
    ((purge_project "old" office).0 ≡ ok tt)
    × Purged "old" office.db (purge_project "old" office).1.db
unfolding has_content
purge_project_removes_example =
    purge_project-removes "old" office (record { calm = λ n. refl }) refl refl

sdk_test_scenario_control_example :
    ((handle_sdk_test_control owner "test" (request "rate_limited") office).0 ≡ ok tt)
    × ((sdk_test_scenario auth none "t0" "" "test"
          (handle_sdk_test_control owner "test" (request "rate_limited") office).1).0
        ≡ ok rate_limited)
unfolding guard require_owner check_csrf is_owner new_session known_scenario same_bytes
sdk_test_scenario_control_example =
    sdk_test_scenario-control auth none "t0" "" "test" "rate_limited" test_project 2 [] owner
      (request "rate_limited") office (record { calm = λ n. refl }) refl refl refl refl refl

-- Five characters of two bytes each are ten bytes.
two_byte_password : is_short "ééééé" ≡ false
two_byte_password = refl
