-- ===== src/Ingest/Choice.antt =====
-- The rule that internal/ingest/policy.go picks.
use mortris_server.Prelude.{
  ℕ, ◌↔◌, ◌⊎◌, ◌++◌, length, length-append, String, eq_iff, ◌≤◌, ◌≡◌, refl, sym, Bool, true, false,
  Option, none, some, List, [], ◌∷◌, In, All, arith, ltb, if◌then◌else◌,
}
use mathlib.Core.Path.{subst}
use mortris_server.Prelude.Int.{pos}
use mortris_server.Failure.{ok}
use mortris_server.Contracts.Types.{ClientPolicy}
use mortris_server.Ratelimit.{RateLibrary}
use mortris_server.Ingest.Db.{Db, PolicyRule, client_policy_applied}
use mortris_server.Ingest.Exec.{World}
use mortris_server.Ingest.Exec.Runs.{Runs, Runs-bind, Runs-query, Runs-execute, Runs-pure, Runs-map}
use mortris_server.Ingest.Policy.{
  Target, rule_matches, field_matches, specified, specificity, more_specific, best_rule,
  default_policy, policy_of, audited, match_policy_row, match_policy_audited,
}

module _ (t : Target) where
  -- No rule of the list matches, or `b` is of the list, matches, and is the most specific.
  IsBest : List PolicyRule → Option PolicyRule → Type 0
  IsBest rs none = All (λ r. rule_matches t r ≡ false) rs
  IsBest rs (some b) =
      In b rs
      × (rule_matches t b ≡ true)
      × All (λ r. rule_matches t r ≡ true → specificity r ≤ specificity b) rs

  weaken :
      (a b : PolicyRule) (rs : List PolicyRule)
      → specificity a ≤ specificity b
      → All (λ r. rule_matches t r ≡ true → specificity r ≤ specificity a) rs
      → All (λ r. rule_matches t r ≡ true → specificity r ≤ specificity b) rs
  weaken a b [] le h = tt
  weaken a b (r ∷ rs) le h = (λ m. omega (arith, le, h.0 m), weaken a b rs le h.1)

  unmatched :
      (b : PolicyRule) (rs : List PolicyRule)
      → All (λ r. rule_matches t r ≡ false) rs
      → All (λ r. rule_matches t r ≡ true → specificity r ≤ specificity b) rs
  unmatched b [] h = tt
  unmatched b (r ∷ rs) h = (λ m. absurd (cc (m, h.0)), unmatched b rs h.1)

  choose :
      (r : PolicyRule) (rs : List PolicyRule) (o : Option PolicyRule) (m : Bool)
      → rule_matches t r ≡ m
      → IsBest rs o
      → IsBest (r ∷ rs) (if m then some (more_specific r o) else o)
  unfolding IsBest more_specific
  choose r rs none false e h = (e, h)
  choose r rs none true e h = (In.head refl, e, (λ _. omega arith, unmatched r rs h))
  choose r rs (some b) false e (i, m, h) = (In.tail i, m, (λ k. absurd (cc (k, e)), h))
  choose r rs (some b) true e (i, m, h) = go (ltb (specificity r) (specificity b)) refl
    where
      go :
          (less : Bool)
          → ltb (specificity r) (specificity b) ≡ less
          → In (if less then b else r) (r ∷ rs)
            × (rule_matches t (if less then b else r) ≡ true)
            × All
                (λ x. rule_matches t x ≡ true → specificity x ≤ specificity (if less then b else r))
                (r ∷ rs)
      go true l = (In.tail i, m, (λ _. ground arith, h))
      go false l = (In.head refl, e, (λ _. omega arith, weaken b r rs (ground arith) h))

  best_rule-IsBest : (rs : List PolicyRule) → IsBest rs (best_rule t rs)
  unfolding best_rule IsBest
  best_rule-IsBest [] = tt
  best_rule-IsBest (r ∷ rs) =
      choose r rs (best_rule t rs) (rule_matches t r) refl (best_rule-IsBest rs)

-- A rule leaves a property open, or asks for the value that the request has.
abbrev pub Admits : Option String → String → Type 0
Admits asked s = (asked ≡ none) ⊎ (asked ≡ some s)

-- An enabled rule for the project of a request, each of whose conditions the request meets.
pub record Applies (t : Target) (r : PolicyRule) : Type 0 where
  pub project : r.project_id ≡ t.project_id
  pub enabled : r.enabled ≡ true
  pub environment : Admits r.environment t.environment
  pub app_version : Admits r.app_version t.app_version
  pub build_number : Admits r.build_number t.build_number
  pub sdk_version : Admits r.sdk_version t.sdk_version

abbrev given : Option String → List String
given none = []
given (some s) = s ∷ []

-- The values that a rule asks for.
abbrev pub conditions : PolicyRule → List String
conditions r =
    given r.environment ++ (given r.app_version ++ (given r.build_number ++ given r.sdk_version))

field_matches_iff :
    (asked : Option String) (s : String) → (field_matches asked s ≡ true) ↔ Admits asked s
field_matches_iff none s = ground arith
field_matches_iff (some r) s = ground (arith, eq_iff r s)

rule_matches→Applies : (t : Target) (r : PolicyRule) → rule_matches t r ≡ true → Applies t r
unfolding rule_matches
rule_matches→Applies t r h = record {
  project = ground (arith, eq_iff r.project_id t.project_id);
  enabled = ground arith;
  environment = (field_matches_iff r.environment t.environment).0 (ground arith);
  app_version = (field_matches_iff r.app_version t.app_version).0 (ground arith);
  build_number = (field_matches_iff r.build_number t.build_number).0 (ground arith);
  sdk_version = (field_matches_iff r.sdk_version t.sdk_version).0 (ground arith);
}

Applies→rule_matches : (t : Target) (r : PolicyRule) → Applies t r → rule_matches t r ≡ true
unfolding rule_matches
Applies→rule_matches t r h =
    rw
      (
        h.enabled,
        (eq_iff r.project_id t.project_id).1 h.project,
        (field_matches_iff r.environment t.environment).1 h.environment,
        (field_matches_iff r.app_version t.app_version).1 h.app_version,
        (field_matches_iff r.build_number t.build_number).1 h.build_number,
        (field_matches_iff r.sdk_version t.sdk_version).1 h.sdk_version,
      )
      refl

given-length : (s : Option String) → length (given s) ≡ specified s
given-length none = refl
given-length (some s) = refl

specificity-conditions : (r : PolicyRule) → specificity r ≡ length (conditions r)
unfolding specificity
specificity-conditions r = omega (
  arith,
  length-append (given r.environment)
      (given r.app_version ++ (given r.build_number ++ given r.sdk_version)),
  length-append (given r.app_version) (given r.build_number ++ given r.sdk_version),
  length-append (given r.build_number) (given r.sdk_version),
  given-length r.environment,
  given-length r.app_version,
  given-length r.build_number,
  given-length r.sdk_version,
)

-- The answer of MatchPolicyAudited by the rules of the table: the default and nothing recorded where
-- no rule applies, or the policy of a rule that applies and has as many conditions as any other that
-- does, and one entry of the log.
pub data IsAnswer (t : Target) (install : String) (db : Db) : ClientPolicy → Db → Type 0 where
  by_default :
      All (λ r. Applies t r → ⊥) db.policy_rules
      → IsAnswer t install db
          (record { mode = "active"; next_check_seconds = pos 21600; discard_pending = false })
          db
  by_rule :
      (b : PolicyRule)
      → In b db.policy_rules
      → Applies t b
      → All (λ r. Applies t r → length (conditions r) ≤ length (conditions b)) db.policy_rules
      → IsAnswer t install db
          (record {
            mode = b.mode;
            next_check_seconds = b.next_check_seconds;
            discard_pending = b.discard_pending;
          })
          (record db {
            audit_log = client_policy_applied t.project_id install b.mode b.reason ∷ db.audit_log;
          })

none-Applies :
    (t : Target) (rs : List PolicyRule)
    → All (λ r. rule_matches t r ≡ false) rs
    → All (λ r. Applies t r → ⊥) rs
none-Applies t [] h = tt
none-Applies t (r ∷ rs) h =
    (λ a. absurd (cc (Applies→rule_matches t r a, h.0)), none-Applies t rs h.1)

none_above :
    (t : Target) (b : PolicyRule) (rs : List PolicyRule)
    → All (λ r. rule_matches t r ≡ true → specificity r ≤ specificity b) rs
    → All (λ r. Applies t r → length (conditions r) ≤ length (conditions b)) rs
none_above t b [] h = tt
none_above t b (r ∷ rs) h = (
  λ a.
      omega (
        arith,
        h.0 (Applies→rule_matches t r a),
        specificity-conditions r,
        specificity-conditions b,
      ),
  none_above t b rs h.1,
)

module _ {rate : RateLibrary} (t : Target) (install : String) (before : Db) where
  audited-Runs :
      (o : Option PolicyRule)
      → Runs {rate = rate}
          (λ db. (o ≡ best_rule t before.policy_rules) × (db ≡ before))
          (audited install t o)
          (IsAnswer t install before)
  unfolding IsBest policy_of
  audited-Runs none = Runs-pure _ _ _ λ db (e, same).
      subst (IsAnswer t install before default_policy) (sym same) (
        IsAnswer.by_default (
          none-Applies t before.policy_rules (
            subst (IsBest t before.policy_rules) (sym e) (best_rule-IsBest t before.policy_rules))))
  audited-Runs (some b) =
      Runs-bind _ (λ _ db. IsAnswer t install before (policy_of b) db) _ _ _
        (Runs-execute _ _ _ λ time db (e, same).
          let (i, matches, above) =
            subst (IsBest t before.policy_rules) (sym e) (best_rule-IsBest t before.policy_rules) in
          subst
            (λ d. IsAnswer t install before (policy_of b) (record d {
              audit_log = client_policy_applied t.project_id install b.mode b.reason ∷ d.audit_log;
            }))
            (sym same)
            (IsAnswer.by_rule b i (rule_matches→Applies t b matches)
              (none_above t b before.policy_rules above)))
        λ _. Runs-pure _ _ _ λ db h. h

  match_policy_audited-Runs :
      Runs {rate = rate}
        (λ db. db ≡ before)
        (match_policy_audited install t)
        (IsAnswer t install before)
  unfolding match_policy_audited match_policy_row
  match_policy_audited-Runs =
      Runs-bind _ (λ o db. (o ≡ best_rule t before.policy_rules) × (db ≡ before)) _ _ _
        (Runs-map _ _ _ _
          (λ o db (e, same). (subst (λ d. o ≡ best_rule t d.policy_rules) same e, same))
          (Runs-query _ _))
        audited-Runs

-- Where no statement fails, MatchPolicyAudited succeeds. If no enabled rule of the project applies to
-- the request it answers with the default policy and records nothing; else it answers with the
-- policy of a rule that applies, than which no rule that applies has more conditions, and records
-- this rule's mode and reason.
pub match_policy_audited-IsAnswer :
    {rate : RateLibrary} (install : String) (t : Target) (w : World rate)
    → ((n : ℕ) → w.faults n ≡ false)
    → (p : ClientPolicy) × ((match_policy_audited install t w).0 ≡ ok p)
      × IsAnswer t install w.db p (match_policy_audited install t w).1.db
match_policy_audited-IsAnswer install t w calm =
    let o = (match_policy_audited-Runs t install w.db).at w (record { calm = calm }) refl in
    (o.value, o.succeeds, o.post)
