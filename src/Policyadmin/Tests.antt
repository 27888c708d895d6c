-- ===== src/Policyadmin/Tests.antt =====
-- A rule that a project creates.
use mortris_server.Prelude.{none, false, [], ◌∷◌, All}
use mortris_server.Prelude.Int.{pos}
use mortris_server.Ingest.Tests.{world, db}
use mortris_server.Ratelimit.Tests.{counting}
use mortris_server.Ingest.Exec.{World}
use mortris_server.Policyadmin.{CreateInput, rule_of}
use mortris_server.Policyadmin.Rules.{creation, apply_change, IsRule, apply_change-IsRule}

abbrev pub input : CreateInput
input = record {
  project_id = "game";
  environment = none;
  app_version = none;
  build_number = none;
  sdk_version = none;
  mode = "pause_upload";
  next_check_seconds = pos 60;
  discard_pending = false;
  reason = "a bad build";
}

abbrev pub paused : World counting
paused = record world { db = record db { policy_rules = rule_of input 1 (pos 5) ∷ [] } }

apply_change-IsRule_example :
    All IsRule (apply_change (creation (pos 1) input) world).db.policy_rules
apply_change-IsRule_example = apply_change-IsRule (creation (pos 1) input) world tt
