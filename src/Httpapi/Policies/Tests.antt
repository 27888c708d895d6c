-- ===== src/Httpapi/Policies/Tests.antt =====
-- A viewer of one project deletes its rule.
use mortris_server.Prelude.{◌≡◌, refl, some, [], ◌∷◌}
use mortris_server.Prelude.Int.{pos}
use mortris_server.Policyadmin.{rule_of}
use mortris_server.Policyadmin.Rules.{own_rules}
use mortris_server.Policyadmin.Tests.{input, paused}
use mortris_server.Adminauth.{
  Session, new_session, can_manage_project, project_role, role_in, is_owner,
}
use mortris_server.Httpapi.Guards.{decoded}
use mortris_server.Httpapi.Policies.Outside.{PolicyCall, deleting, policy_call, policy_call-outside}

abbrev viewer : Session
viewer = new_session (pos 1) "ann" "" "member" (
    record { id = "game"; display_name = "Game"; environment = "production"; role = "viewer" } ∷ [])

abbrev rule_deletion : PolicyCall
rule_deletion = deleting "game" (some (pos 1)) (record {
  session_cookie = some "session";
  csrf_cookie = some "csrf";
  csrf_header = "csrf";
  body = decoded tt;
})

policy_call_outside_example :
    own_rules "game" (policy_call viewer rule_deletion paused).db.policy_rules
    ≡ own_rules "game" (rule_of input 1 (pos 5) ∷ [])
unfolding can_manage_project project_role role_in is_owner new_session
policy_call_outside_example = policy_call-outside viewer rule_deletion "game" paused refl
