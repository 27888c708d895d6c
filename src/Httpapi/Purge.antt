-- ===== src/Httpapi/Purge.antt =====
-- internal/httpapi: the permanent deletion of an archived project (purgeProject, and
-- projectPurgeQueries of project_handlers.go). The tables that reference a project are those of
-- migrations/; no reference to a project cascades.
pub mod Refused
pub mod Removes
use mortris_server.Prelude.{
  String, Bool, true, false, not, ◌||◌, Option, none, some, List, [], ◌∷◌, str_eq, any, find, keep,
  if◌then◌else◌,
}
use mortris_server.Prelude.Int.{ℤ}
use mortris_server.Failure.{Result, ok, err, other, new_error, invalid_request}
use mortris_server.Ratelimit.{RateLibrary}
use mortris_server.Ingest.Db.{
  Db, Project, Installation, EventRow, CatalogRow, PolicyRule, StatsRow, RejectionRow, DayCount,
  RegistrationCount, ProjectAccess, ContentRevision, AuditEntry, is_project, client_policy_applied,
  policy_rule_created, policy_rule_deleted, project_member_granted, project_member_revoked,
  project_member_updated, project_created, sdk_test_scenario_updated, project_updated,
  project_archived, project_restored,
}
use mortris_server.Ingest.Exec.{
  Exec, pure, lift, query, statement, attempt, transaction, ◌>>=◌, ◌>>◌,
}
use mortris_server.Adminauth.{Session}
use mortris_server.Httpapi.Guards.{HttpRequest, require_owner, guard}
use mortris_server.Httpapi.Accounts.{has_value}

-- detail->>'project_id', the empty text where there is none.
unfoldable pub audit_project : AuditEntry → Option String
audit_project (client_policy_applied p i m r) = some p
audit_project (policy_rule_created a r p m s) = some p
audit_project (policy_rule_deleted a r p m) = some p
audit_project (project_member_granted a p u r) = some p
audit_project (project_member_revoked a p u) = some p
audit_project (project_member_updated a p u) = some p
audit_project (project_created a p s) = some p
audit_project (sdk_test_scenario_updated a p s) = some p
audit_project (project_updated a p) = some p
audit_project (project_archived a p) = some p
audit_project (project_restored a p) = some p
audit_project e = none

-- The rows of each table that belong to a project.
abbrev pub owns_occurrence : String → RejectionRow → Bool
owns_occurrence project r = str_eq r.project_id project

abbrev pub owns_stats : String → StatsRow → Bool
owns_stats project r = str_eq r.project_id project

abbrev pub owns_registrations : String → RegistrationCount → Bool
owns_registrations project r = str_eq r.project_id project

abbrev pub owns_rule : String → PolicyRule → Bool
owns_rule project r = str_eq r.project_id project

abbrev pub owns_catalog : String → CatalogRow → Bool
owns_catalog project r = str_eq r.project_id project

abbrev pub owns_event : String → EventRow → Bool
owns_event project r = str_eq r.project_id project

abbrev pub owns_installation : String → Installation → Bool
owns_installation project r = str_eq r.project_id project

abbrev pub owns_access : String → ProjectAccess → Bool
owns_access project r = str_eq r.project_id project

abbrev pub owns_count : {K : Type 0} → String → DayCount K → Bool
owns_count project r = str_eq r.project_id project

abbrev pub owns_revision : String → ContentRevision → Bool
owns_revision project r = str_eq r.project_id project

abbrev pub owns_entry : String → AuditEntry → Bool
owns_entry project e = elim (audit_project e) [ none ↦ false | some p ↦ str_eq p project ]

-- DELETE ... WHERE the row belongs to the project
abbrev pub others {ℓ} : {A : Type ℓ} → (A → Bool) → List A → List A
others p = keep (λ x. not (p x))

abbrev pub Purge : Type 0
Purge = String → Db → Result (Unit {0} × Db)

-- A deletion of rows that nothing references.
abbrev pub free : (String → Db → Db) → Purge
free f project db = ok (tt, f project db)

-- An event references its installation.
unfoldable pub delete_installations : Purge
delete_installations project db =
    if any (owns_event project) db.events
    then err other
    else ok (tt, record db { installations = others (owns_installation project) db.installations })

-- The content and the daily counters of a project, which no query of the purge deletes.
unfoldable pub has_content : String → Db → Bool
has_content project db =
    any (owns_count project) db.rejection_stats
    || (any (owns_count project) db.property_drift
        || any (owns_revision project) db.content_revisions)

unfoldable pub is_referenced : String → Db → Bool
unfolding has_content
is_referenced project db =
    any (owns_installation project) db.installations
    || any (owns_catalog project) db.event_catalog
    || any (owns_rule project) db.policy_rules
    || any (owns_access project) db.admin_user_projects
    || any (owns_registrations project) db.registrations
    || any (owns_stats project) db.ingestion_stats
    || any (owns_occurrence project) db.rejections
    || has_content project db

unfoldable pub delete_project : Purge
delete_project project db =
    if is_referenced project db
    then err other
    else ok (tt, record db { projects = others (is_project project) db.projects })

-- projectPurgeQueries
abbrev pub project_purge_queries : List Purge
project_purge_queries =
    free (λ p db. record db { rejections = others (owns_occurrence p) db.rejections })
    ∷ free (λ p db. record db { ingestion_stats = others (owns_stats p) db.ingestion_stats })
    ∷ free (λ p db. record db { registrations = others (owns_registrations p) db.registrations })
    ∷ free (λ p db. record db { policy_rules = others (owns_rule p) db.policy_rules })
    ∷ free (λ p db. record db { event_catalog = others (owns_catalog p) db.event_catalog })
    ∷ free (λ p db. record db { events = others (owns_event p) db.events })
    ∷ delete_installations
    ∷ free
        (λ p db. record db { admin_user_projects = others (owns_access p) db.admin_user_projects })
    ∷ free (λ p db. record db { audit_log = others (owns_entry p) db.audit_log })
    ∷ delete_project
    ∷ []

-- SELECT archived_at IS NOT NULL FROM projects WHERE id = $1
abbrev pub select_archived : String → Db → Option Bool
select_archived project db = elim (find (is_project project) db.projects) [
  | none ↦ none
  | some p ↦ some (has_value p.archived_at)
]

-- A query that fails leaves `archived` false, so it is answered like a project that is not archived.
unfoldable pub require_archived : Result (Option Bool) → Result (Unit {0})
require_archived (ok (some true)) = ok tt
require_archived r = err (new_error 400 invalid_request)

module _ {rate : RateLibrary} where
  unfoldable pub run_queries : String → List Purge → Exec rate (Unit {0})
  run_queries project [] = pure tt
  run_queries project (q ∷ qs) = do statement (λ _ db. q project db); run_queries project qs

  -- purgeProject
  unfoldable pub purge_project : String → Exec rate (Unit {0})
  purge_project project = transaction (do
    archived ← attempt (query (select_archived project))
    lift (require_archived archived)
    run_queries project project_purge_queries)

  -- handleProjectPurge
  unfoldable pub handle_project_purge :
      Session → String → HttpRequest (Unit {0}) → Exec rate (Unit {0})
  handle_project_purge sess project http = do
    lift (guard (require_owner sess) http)
    purge_project project
