-- ===== src/Policyadmin.antt =====
-- internal/policyadmin: the administration of the client policy rules. The tables and the effects
-- are those of Ingest. That the administrator has an account, which the audit log refers to, is the
-- caller's check; a broken reference shows as a statement that fails.
pub mod Rules
pub mod Tests
use mortris_server.Prelude.{
  ℕ, ◌+◌, String, Bool, true, false, not, ◌&&◌, ◌||◌, Option, none, some, List, [], ◌∷◌, str_eq,
  ◌==◌, any, keep, if◌then◌else◌,
}
use mortris_server.Prelude.Int.{ℤ, pos, leb_ℤ, ltb_ℤ}
use mortris_server.Failure.{
  Result, ok, err, other, new_error, invalid_request, not_found, reject_if, ◌>>◌ as then_result,
}
use mortris_server.Ratelimit.{RateLibrary}
use mortris_server.Ingest.Db.{Db, PolicyRule, is_project, policy_rule_created, policy_rule_deleted}
use mortris_server.Ingest.Exec.{
  Exec, pure, lift, query, statement, execute, transaction, ◌>>=◌, ◌>>◌,
}

-- Of two rules the later one first, for ORDER BY created_at DESC.
unfoldable pub insert_latest : PolicyRule → List PolicyRule → List PolicyRule
insert_latest r [] = r ∷ []
insert_latest r (s ∷ ss) =
    let rest = insert_latest r ss in
    if ltb_ℤ r.created_at s.created_at then s ∷ rest else r ∷ s ∷ ss

unfoldable pub rules_of : String → List PolicyRule → List PolicyRule
unfolding insert_latest
rules_of project [] = []
rules_of project (r ∷ rs) =
    let rest = rules_of project rs in
    if str_eq r.project_id project then insert_latest r rest else rest

-- List
unfoldable pub list_rules : {rate : RateLibrary} → String → Exec rate (List PolicyRule)
list_rules project = query λ db. rules_of project db.policy_rules

pub record CreateInput : Type 0 where
  pub project_id : String
  pub environment : Option String
  pub app_version : Option String
  pub build_number : Option String
  pub sdk_version : Option String
  pub mode : String
  pub next_check_seconds : ℤ
  pub discard_pending : Bool
  pub reason : String

-- validModes
unfoldable pub is_valid_mode : String → Bool
is_valid_mode m = str_eq m "active" || str_eq m "pause_upload" || str_eq m "disable_collection"

-- CreateInput.Validate
unfoldable pub validate_input : CreateInput → Result (Unit {0})
validate_input i =
    then_result (reject_if (str_eq i.project_id "") (new_error 400 invalid_request)) (
      then_result (reject_if (not (is_valid_mode i.mode)) (new_error 400 invalid_request)) (
        then_result (reject_if (leb_ℤ i.next_check_seconds (pos 0)) (new_error 400 invalid_request))
          (reject_if (str_eq i.reason "") (new_error 400 invalid_request))))

unfoldable pub rule_of : CreateInput → ℕ → ℤ → PolicyRule
rule_of i id t = record {
  id = id;
  project_id = i.project_id;
  environment = i.environment;
  app_version = i.app_version;
  build_number = i.build_number;
  sdk_version = i.sdk_version;
  mode = i.mode;
  next_check_seconds = i.next_check_seconds;
  discard_pending = i.discard_pending;
  reason = i.reason;
  enabled = true;
  created_at = t;
  updated_at = t;
}

-- INSERT INTO client_policy_rules: a fresh id, of a project that is there, with a mode that the
-- table allows.
unfoldable pub insert_rule : CreateInput → ℤ → Db → Result (PolicyRule × Db)
unfolding rule_of
insert_rule i t db =
    if any (is_project i.project_id) db.projects && is_valid_mode i.mode
    then ok (
      rule_of i db.next_rule_id t,
      record db {
        policy_rules = rule_of i db.next_rule_id t ∷ db.policy_rules;
        next_rule_id = db.next_rule_id + 1;
      },
    )
    else err other

unfoldable pub is_rule : ℕ → String → PolicyRule → Bool
is_rule id project r = r.id == id && str_eq r.project_id project

abbrev pub behind :
    PolicyRule → Option (String × List PolicyRule) → Option (String × List PolicyRule)
behind r none = none
behind r (some (mode, rs)) = some (mode, r ∷ rs)

-- DELETE ... WHERE id = $1 AND project_id = $2 RETURNING mode; no row is a 404.
unfoldable pub delete_rule : ℕ → String → List PolicyRule → Option (String × List PolicyRule)
delete_rule id project [] = none
delete_rule id project (r ∷ rs) =
    let rest = delete_rule id project rs in
    if is_rule id project r then some (r.mode, rs) else behind r rest

abbrev pub deleted : Db → Option (String × List PolicyRule) → Result (String × Db)
deleted db none = err (new_error 404 not_found)
deleted db (some (mode, rules)) = ok (mode, record db { policy_rules = rules })

module _ {rate : RateLibrary} where
  -- The transaction of Create.
  unfoldable pub create_body : ℤ → CreateInput → Exec rate PolicyRule
  create_body admin i = do
    r ← statement (insert_rule i)
    execute (λ _ db. record db {
      audit_log = policy_rule_created admin r.id r.project_id r.mode r.reason ∷ db.audit_log;
    })
    pure r

  -- Create
  unfoldable pub create : ℤ → CreateInput → Exec rate PolicyRule
  create admin i = do lift (validate_input i); transaction (create_body admin i)

  -- The transaction of Delete.
  unfoldable pub delete_body : ℤ → String → ℕ → Exec rate (Unit {0})
  delete_body admin project id = do
    mode ← statement (λ _ db. deleted db (delete_rule id project db.policy_rules))
    execute
        (λ _ db. record db { audit_log = policy_rule_deleted admin id project mode ∷ db.audit_log })

  -- Delete
  unfoldable pub delete : ℤ → String → ℕ → Exec rate (Unit {0})
  delete admin project id = transaction (delete_body admin project id)
