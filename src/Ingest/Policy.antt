-- ===== src/Ingest/Policy.antt =====
-- internal/ingest/policy.go: the most specific enabled rule.
use mortris_server.Prelude.{
  ℕ, ◌+◌, String, Bool, true, false, ◌&&◌, Option, none, some, List, [], ◌∷◌, str_eq, ltb,
  if◌then◌else◌,
}
use mortris_server.Prelude.Int.{pos}
use mortris_server.Contracts.Types.{ClientPolicy}
use mortris_server.Ratelimit.{RateLibrary}
use mortris_server.Ingest.Db.{PolicyRule, client_policy_applied}
use mortris_server.Ingest.Exec.{Exec, pure, query, execute, ◌>>=◌, ◌>>◌}

-- DefaultPolicy
abbrev pub default_policy : ClientPolicy
default_policy = record { mode = "active"; next_check_seconds = pos 21600; discard_pending = false }

-- What a request is matched on.
pub record Target : Type 0 where
  pub project_id : String
  pub environment : String
  pub app_version : String
  pub build_number : String
  pub sdk_version : String

-- column IS NULL OR column = $n
abbrev pub field_matches : Option String → String → Bool
field_matches none s = true
field_matches (some r) s = str_eq r s

abbrev pub specified : Option String → ℕ
specified none = 0
specified (some s) = 1

-- The WHERE clause.
unfoldable pub rule_matches : Target → PolicyRule → Bool
rule_matches t r =
    str_eq r.project_id t.project_id
    && (r.enabled
        && (field_matches r.environment t.environment
            && (field_matches r.app_version t.app_version
                && (field_matches r.build_number t.build_number
                    && field_matches r.sdk_version t.sdk_version))))

-- The ORDER BY expression.
unfoldable pub specificity : PolicyRule → ℕ
specificity r =
    specified r.environment
    + specified r.app_version
    + specified r.build_number
    + specified r.sdk_version

unfoldable pub more_specific : PolicyRule → Option PolicyRule → PolicyRule
more_specific r none = r
more_specific r (some best) = if ltb (specificity r) (specificity best) then best else r

-- ORDER BY specificity DESC LIMIT 1, over the rules that match. Of rules that are equally specific
-- SQL leaves the choice open; here the first in the table is taken.
unfoldable pub best_rule : Target → List PolicyRule → Option PolicyRule
best_rule t [] = none
best_rule t (r ∷ rs) =
    let best = best_rule t rs in if rule_matches t r then some (more_specific r best) else best

unfoldable pub policy_of : PolicyRule → ClientPolicy
policy_of r = record {
  mode = r.mode;
  next_check_seconds = r.next_check_seconds;
  discard_pending = r.discard_pending;
}

-- matchPolicyRow: `none` where no rule matches.
unfoldable pub match_policy_row : {rate : RateLibrary} → Target → Exec rate (Option PolicyRule)
match_policy_row t = query λ db. best_rule t db.policy_rules

abbrev pub audited :
    {rate : RateLibrary} → String → Target → Option PolicyRule → Exec rate ClientPolicy
audited install t none = pure default_policy
audited install t (some r) = do
  execute (λ _ db. record db {
    audit_log = client_policy_applied t.project_id install r.mode r.reason ∷ db.audit_log;
  })
  pure (policy_of r)

-- MatchPolicyAudited
unfoldable pub match_policy_audited :
    {rate : RateLibrary} → String → Target → Exec rate ClientPolicy
match_policy_audited install t = do matched ← match_policy_row t; audited install t matched
