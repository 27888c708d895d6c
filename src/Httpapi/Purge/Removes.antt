-- ===== src/Httpapi/Purge/Removes.antt =====
-- What the purge of a project removes, and what it leaves.
use mortris_server.Prelude.{
  ◌≡◌, refl, sym, ap, ◌∙◌, String, Bool, true, false, ◌||◌, Option, some, List, [], ◌∷◌, any, arith,
}
use mathlib.Core.Path.{subst}
use mortris_server.Failure.{Result, ok}
use mortris_server.Ratelimit.{RateLibrary}
use mortris_server.Ingest.Db.{Db, is_project}
use mortris_server.Ingest.Exec.{World}
use mortris_server.Ingest.Exec.Runs.{
  IsCalm, Runs, Runs-pure, Runs-lift, Runs-statement, Runs-bind, Runs-transaction, Runs-attempt,
  Runs-query, Runs-given,
}
use mortris_server.Httpapi.Purge.{
  Purge, others, owns_occurrence, owns_stats, owns_registrations, owns_rule, owns_catalog,
  owns_event, owns_installation, owns_access, owns_entry, has_content, is_referenced,
  delete_project, delete_installations, run_queries, project_purge_queries, select_archived,
  require_archived, purge_project,
}

-- Each table with rows of projects has lost those of the project, and only those; the accounts, the
-- sessions and the numbering are the same.
pub record Purged (project : String) (before after : Db) : Type 0 where
  pub projects : after.projects ≡ others (is_project project) before.projects
  pub installations : after.installations ≡ others (owns_installation project) before.installations
  pub events : after.events ≡ others (owns_event project) before.events
  pub event_catalog : after.event_catalog ≡ others (owns_catalog project) before.event_catalog
  pub policy_rules : after.policy_rules ≡ others (owns_rule project) before.policy_rules
  pub audit_log : after.audit_log ≡ others (owns_entry project) before.audit_log
  pub ingestion_stats : after.ingestion_stats ≡ others (owns_stats project) before.ingestion_stats
  pub rejections : after.rejections ≡ others (owns_occurrence project) before.rejections
  pub registrations : after.registrations ≡ others (owns_registrations project) before.registrations
  pub admin_user_projects :
      after.admin_user_projects ≡ others (owns_access project) before.admin_user_projects
  pub content : has_content project after ≡ false
  pub rejection_stats : after.rejection_stats ≡ before.rejection_stats
  pub property_drift : after.property_drift ≡ before.property_drift
  pub content_revisions : after.content_revisions ≡ before.content_revisions
  pub maintenance_runs : after.maintenance_runs ≡ before.maintenance_runs
  pub admin_users : after.admin_users ≡ before.admin_users
  pub admin_sessions : after.admin_sessions ≡ before.admin_sessions
  pub next_rule_id : after.next_rule_id ≡ before.next_rule_id
  pub next_account_id : after.next_account_id ≡ before.next_account_id

any-others {ℓ} : {A : Type ℓ} (p : A → Bool) (xs : List A) → any p (others p xs) ≡ false
any-others p [] = refl
any-others p (x ∷ xs) = ground (arith, any-others p xs)

data Steps (project : String) : List Purge → Db → Db → Type 1 where
  finished : (d : Db) → Steps project [] d d
  step :
      {q : Purge} {qs : List Purge} {d d' d'' : Db}
      → q project d ≡ ok (tt, d')
      → Steps project qs d' d''
      → Steps project (q ∷ qs) d d''

run_queries-Runs :
    {rate : RateLibrary} (project : String) (qs : List Purge) (d d' : Db)
    → Steps project qs d d'
    → Runs {rate = rate} (λ db. db ≡ d) (run_queries project qs) (λ _ db. db ≡ d')
unfolding run_queries
run_queries-Runs project _ d _ (finished _) = Runs-pure _ _ tt λ db h. h
run_queries-Runs project _ d d'' (step {q = q} {qs = qs} {d' = d'} e s) =
    Runs-bind (λ db. db ≡ d) (λ _ db. db ≡ d') (λ _ db. db ≡ d'') _ _
      (Runs-statement _ _ _
        λ t db h. (tt, d', subst (λ x. q project x ≡ ok (tt, d')) (sym h) e, refl))
      λ _. run_queries-Runs project qs d' d'' s

delete_installations-eq :
    (project : String) (db : Db)
    → any (owns_event project) db.events ≡ false
    → delete_installations project db
      ≡ ok (tt, record db { installations = others (owns_installation project) db.installations })
unfolding delete_installations
delete_installations-eq project db h = rw h

delete_project-eq :
    (project : String) (db : Db)
    → is_referenced project db ≡ false
    → delete_project project db
      ≡ ok (tt, record db { projects = others (is_project project) db.projects })
unfolding delete_project
delete_project-eq project db h = rw h

queries-Steps :
    (project : String) (d : Db)
    → has_content project d ≡ false
    → (d' : Db) × Steps project project_purge_queries d d' × Purged project d d'
unfolding is_referenced has_content
queries-Steps project d free = (
  _,
  step refl (
      step refl (
        step refl (
          step refl (
            step refl (
              step refl (
                step (delete_installations-eq project _ (any-others (owns_event project) d.events))
                  (step refl (
                    step refl
                      (step (delete_project-eq project _ unreferenced) (finished _)))))))))),
  record {
    projects = refl;
    installations = refl;
    events = refl;
    event_catalog = refl;
    policy_rules = refl;
    audit_log = refl;
    ingestion_stats = refl;
    rejections = refl;
    registrations = refl;
    admin_user_projects = refl;
    content = free;
    rejection_stats = refl;
    property_drift = refl;
    content_revisions = refl;
    maintenance_runs = refl;
    admin_users = refl;
    admin_sessions = refl;
    next_rule_id = refl;
    next_account_id = refl;
  },
)
  where
    unreferenced :
        (any (owns_installation project) (others (owns_installation project) d.installations)
          || any (owns_catalog project) (others (owns_catalog project) d.event_catalog)
          || any (owns_rule project) (others (owns_rule project) d.policy_rules)
          || any (owns_access project) (others (owns_access project) d.admin_user_projects)
          || any (owns_registrations project) (others (owns_registrations project) d.registrations)
          || any (owns_stats project) (others (owns_stats project) d.ingestion_stats)
          || any (owns_occurrence project) (others (owns_occurrence project) d.rejections)
          || has_content project d)
        ≡ false
    unreferenced = simp (
      any-others (owns_installation project) d.installations,
      any-others (owns_catalog project) d.event_catalog,
      any-others (owns_rule project) d.policy_rules,
      any-others (owns_access project) d.admin_user_projects,
      any-others (owns_registrations project) d.registrations,
      any-others (owns_stats project) d.ingestion_stats,
      any-others (owns_occurrence project) d.rejections,
      free,
    )

-- Where no statement fails, the project is archived and it has no row in event_rejection_stats,
-- event_property_drift or puzzle_content_revisions, the purge succeeds: the project and its rows in
-- the other tables are gone, the entries of the audit log that name it too, and all other rows, the
-- accounts and the sessions stay as they were.
pub purge_project-removes :
    {rate : RateLibrary} (project : String) (w : World rate)
    → IsCalm w
    → select_archived project w.db ≡ some true
    → has_content project w.db ≡ false
    → ((purge_project project w).0 ≡ ok tt) × Purged project w.db (purge_project project w).1.db
unfolding purge_project require_archived
purge_project-removes {rate} project w calm archived free =
    let (d, steps, purged) = queries-Steps project w.db free in
    let run = (runs d steps).at w calm refl in
    (run.succeeds, subst (Purged project w.db) (sym run.post) purged)
  where
    Read : Result (Option Bool) → Db → Type 0
    Read r db = (a : Option Bool) × (r ≡ ok a) × ((a ≡ select_archived project db) × (db ≡ w.db))

    passes : (r : Result (Option Bool)) (db : Db) → Read r db → require_archived r ≡ ok tt
    passes r db (a, e, (s, same)) =
        subst (λ r. require_archived r ≡ ok tt)
          (sym (e ∙ ap ok (s ∙ ap (select_archived project) same ∙ archived))) refl

    runs :
        (d : Db)
        → Steps project project_purge_queries w.db d
        → Runs {rate = rate} (λ db. db ≡ w.db) (purge_project project) (λ _ db. db ≡ d)
    runs d steps = Runs-transaction _ _ _ (
        Runs-bind _ Read _ _ _ (Runs-attempt _ _ _ (Runs-query _ _)) λ r.
          Runs-given (require_archived r ≡ ok tt) _ _ _ (passes r) λ ready.
            Runs-bind _ (λ _ db. db ≡ w.db) _ _ _ (Runs-lift _ _ _ tt ready λ db h. h.2.1)
              λ _. run_queries-Runs project project_purge_queries w.db d steps)
