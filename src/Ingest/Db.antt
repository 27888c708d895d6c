-- ===== src/Ingest/Db.antt =====
-- The tables that internal/ingest, policyadmin, adminauth, maintenance and httpapi read and write
-- (migrations/), and the SQL statements as functions on them. A statement that breaks a constraint
-- gives an error.
use mortris_server.Prelude.{
  ℕ, String, Bool, Option, List, [], ◌∷◌, str_eq, ◌&&◌, find, if◌then◌else◌,
}
use mortris_server.Prelude.Int.{ℤ}
use mortris_server.Failure.{Code}
use mortris_server.Contracts.Types.{Event}
use mortris_server.Ingest.Time.{TimeQuality}

-- event_kind
pub data Kind : Type 0 where
  product system : Kind

pub record Project : Type 0 where
  pub id : String
  pub environment : String
  pub retention_days : ℕ
  pub strict_catalog : Bool
  pub enabled : Bool
  pub display_name : String
  pub archived_at : Option ℤ
  pub sdk_test_enabled : Bool
  pub sdk_test_token_hash : Option (List ℕ)
  pub sdk_test_scenario : String

pub record Installation : Type 0 where
  pub project_id : String
  pub install_id : String
  pub credential_hash : List ℕ
  pub registered_at : ℤ
  pub activated_at : Option ℤ
  pub first_product_event_at : Option ℤ
  pub last_seen_at : Option ℤ
  pub last_app_version : String
  pub last_build_number : String
  pub last_sdk_version : String

-- A row of `events`: the event as the client sent it, and what the server adds to it.
pub record EventRow : Type 0 where
  pub project_id : String
  pub install_id : String
  pub event : Event
  pub event_kind : Kind
  pub occurred_at_client : ℤ
  pub sent_at_client : ℤ
  pub received_at : ℤ
  pub effective_at : ℤ
  pub clock_skew_ms : ℤ
  pub time_quality : TimeQuality

-- A row of `event_catalog`; `properties` are the declared names.
pub record CatalogRow : Type 0 where
  pub project_id : String
  pub name : String
  pub kind : Kind
  pub properties : List String
  pub first_seen_at : ℤ
  pub last_seen_at : ℤ

-- A row of `client_policy_rules`; `none` is NULL, which matches anything.
pub record PolicyRule : Type 0 where
  pub id : ℕ
  pub project_id : String
  pub environment : Option String
  pub app_version : Option String
  pub build_number : Option String
  pub sdk_version : Option String
  pub mode : String
  pub next_check_seconds : ℤ
  pub discard_pending : Bool
  pub reason : String
  pub enabled : Bool
  pub created_at : ℤ
  pub updated_at : ℤ

-- A row of `admin_audit_log`, by its action: a policy that a request was given, the rules that an
-- administrator created or deleted, what happened to logins and sessions, and what was done to
-- accounts, project members and projects.
pub data AuditEntry : Type 0 where
  client_policy_applied : (project install mode reason : String) → AuditEntry
  policy_rule_created : (admin : ℤ) (rule : ℕ) (project mode reason : String) → AuditEntry
  policy_rule_deleted : (admin : ℤ) (rule : ℕ) (project mode : String) → AuditEntry
  login_success : (admin : ℤ) (identifier : String) → AuditEntry
  login_failure : (identifier reason : String) → AuditEntry
  logged_out : (admin : ℤ) → AuditEntry
  account_created account_updated : (admin account : ℤ) → AuditEntry
  project_member_granted : (admin : ℤ) (project : String) (account : ℤ) (role : String) → AuditEntry
  project_member_revoked : (admin : ℤ) (project : String) (account : ℤ) → AuditEntry
  project_member_updated : (admin : ℤ) (project : String) (account : ℤ) → AuditEntry
  project_created : (admin : ℤ) (project : String) (sdk_test : Bool) → AuditEntry
  sdk_test_scenario_updated : (admin : ℤ) (project scenario : String) → AuditEntry
  project_updated project_archived project_restored : (admin : ℤ) (project : String) → AuditEntry

pub record StatsRow : Type 0 where
  pub project_id : String
  pub install_id : String
  pub received_at : ℤ
  pub app_version : String
  pub build_number : String
  pub accepted : ℕ
  pub duplicates : ℕ
  pub rejected : ℕ

pub record RejectionRow : Type 0 where
  pub project_id : String
  pub install_id : String
  pub event_id : String
  pub name : String
  pub code : Code
  pub app_version : String
  pub build_number : String
  pub received_at : ℤ

-- A row of `event_rejection_stats` or `event_property_drift`: a counter for a day.
pub record DayCount (K : Type 0) : Type 0 where
  pub project_id : String
  pub key : K
  pub day : ℕ
  pub count : ℕ
  pub last_seen_at : ℤ

-- A row of `daily_registration_counters`.
pub record RegistrationCount : Type 0 where
  pub project_id : String
  pub day : ℕ
  pub count : ℕ

pub record AdminUser : Type 0 where
  pub id : ℤ
  pub username : Option String
  pub email : Option String
  pub password_hash : String
  pub role : String
  pub disabled : Bool

-- A row of `admin_user_projects`.
pub record ProjectAccess : Type 0 where
  pub admin_user_id : ℤ
  pub project_id : String
  pub access_role : String

pub record AdminSession : Type 0 where
  pub admin_user_id : ℤ
  pub token_hash : List ℕ
  pub expires_at : ℤ
  pub last_seen_at : ℤ
  pub revoked_at : Option ℤ

-- A row of `maintenance_runs`; the text of an error is left out.
pub record MaintenanceRun : Type 0 where
  pub kind : String
  pub started_at : ℤ
  pub finished_at : ℤ
  pub rows_affected : ℕ
  pub failed : Bool

-- A row of `puzzle_content_revisions`; its catalogue is left out.
pub record ContentRevision : Type 0 where
  pub project_id : String
  pub content_revision : String

pub record Db : Type 0 where
  pub projects : List Project
  pub installations : List Installation
  pub events : List EventRow
  pub event_catalog : List CatalogRow
  pub policy_rules : List PolicyRule
  pub next_rule_id : ℕ
  pub audit_log : List AuditEntry
  pub ingestion_stats : List StatsRow
  pub rejections : List RejectionRow
  pub rejection_stats : List (DayCount (String × Code))
  pub property_drift : List (DayCount (String × String))
  pub registrations : List RegistrationCount
  pub maintenance_runs : List MaintenanceRun
  pub content_revisions : List ContentRevision
  pub admin_users : List AdminUser
  pub next_account_id : ℕ
  pub admin_user_projects : List ProjectAccess
  pub admin_sessions : List AdminSession

abbrev pub is_project : String → Project → Bool
is_project project p = str_eq p.id project

abbrev pub is_installation : String → String → Installation → Bool
is_installation project install i = str_eq i.project_id project && str_eq i.install_id install

abbrev pub is_event_key : String → String → EventRow → Bool
is_event_key project event r = str_eq r.project_id project && str_eq r.event.event_id event

-- SELECT ... FROM projects WHERE id = $1
unfoldable pub select_project : String → Db → Option Project
select_project project db = find (is_project project) db.projects

-- SELECT ... FROM installations WHERE project_id = $1 AND install_id = $2
unfoldable pub select_installation : String → String → Db → Option Installation
select_installation project install db = find (is_installation project install) db.installations

-- UPDATE installations SET ... WHERE project_id = $1 AND install_id = $2
unfoldable pub update_installations :
    (Installation → Installation) → String → String → List Installation → List Installation
update_installations f project install [] = []
update_installations f project install (i ∷ is) =
    (if is_installation project install i then f i else i)
    ∷ update_installations f project install is

-- SELECT properties FROM event_catalog WHERE project_id = $1 AND name = $2
unfoldable pub select_catalog : String → String → Db → Option CatalogRow
select_catalog project name db =
    find (λ c. str_eq c.project_id project && str_eq c.name name) db.event_catalog
