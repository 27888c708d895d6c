-- ===== src/Httpapi/Purge/Refused.antt =====
-- A project that has content or daily counters cannot be purged.
use mortris_server.Prelude.{
  ◌≡◌, refl, ◌∙◌, String, Bool, true, false, List, [], ◌∷◌, any, arith, if◌then◌else◌,
}
use mathlib.Core.Path.{subst}
use mortris_server.Failure.{Failure, Result, ok, err, other}
use mortris_server.Ratelimit.{RateLibrary}
use mortris_server.Ingest.Db.{Db}
use mortris_server.Ingest.Rows.{statement-eq-ok}
use mortris_server.Ingest.Exec.{World}
use mortris_server.Ingest.Exec.Keeps.{Keeps-statement, Keeps-lift, Keeps-query, Keeps-attempt}
use mortris_server.Ingest.Exec.Atomic.{transaction-err}
use mortris_server.Ingest.Exec.Refuses.{
  Refuses, Refuses-statement, Refuses-first, Refuses-bind, Refuses-transaction,
}
use mortris_server.Httpapi.Purge.{
  Purge, has_content, is_referenced, delete_project, delete_installations, owns_event, others,
  owns_installation, run_queries, project_purge_queries, purge_project,
}

abbrev Content : String → Db → Type 0
Content project db = has_content project db ≡ true

-- A list of statements that keep the content up to the deletion of the project itself.
data IsDoomed (project : String) : List Purge → Type 1 where
  at_last : (qs : List Purge) → IsDoomed project (delete_project ∷ qs)
  before :
      (q : Purge) (qs : List Purge)
      → ((db db' : Db) → q project db ≡ ok (tt, db') → Content project db → Content project db')
      → IsDoomed project qs
      → IsDoomed project (q ∷ qs)

delete_project-err :
    (project : String) (db : Db) → Content project db → delete_project project db ≡ err other
unfolding delete_project is_referenced
delete_project-err project db h = rw h (ground arith)

run_queries-Refuses :
    {rate : RateLibrary} (project : String) (qs : List Purge)
    → IsDoomed project qs
    → Refuses {rate = rate} (Content project) (run_queries project qs)
unfolding run_queries
run_queries-Refuses project _ (at_last qs) =
    Refuses-first _ _ (Refuses-statement _ λ t db h. (other, delete_project-err project db h))
run_queries-Refuses project _ (before q qs k d) =
    Refuses-bind _ _ (Keeps-statement _ λ t db b db' h e. k db db' e h)
      λ _. run_queries-Refuses project qs d

spared :
    (project : String) (db next db' : Db)
    → has_content project next ≡ has_content project db
    → ◌≡◌ {A = Result (Unit {0} × Db)} (ok (tt, next)) (ok (tt, db'))
    → Content project db
    → Content project db'
spared project db next db' same e h = subst (Content project) (statement-eq-ok e) (same ∙ h)

delete_installations-Content :
    (project : String) (db db' : Db)
    → delete_installations project db ≡ ok (tt, db')
    → Content project db
    → Content project db'
unfolding delete_installations has_content
delete_installations-Content project db db' e h = go (any (owns_event project) db.events) e
  where
    after : Db
    after = record db { installations = others (owns_installation project) db.installations }

    go :
        (b : Bool)
        → ◌≡◌ {A = Result (Unit {0} × Db)} (if b then err other else ok (tt, after)) (ok (tt, db'))
        → Content project db'
    go true e = absurd (cc)
    go false e = spared project db after db' refl e h

queries-IsDoomed : (project : String) → IsDoomed project project_purge_queries
unfolding has_content
queries-IsDoomed project =
    before _ _ (λ db db' e h. spared project db _ db' refl e h)
      (before _ _ (λ db db' e h. spared project db _ db' refl e h)
        (before _ _ (λ db db' e h. spared project db _ db' refl e h)
          (before _ _ (λ db db' e h. spared project db _ db' refl e h)
            (before _ _ (λ db db' e h. spared project db _ db' refl e h)
              (before _ _ (λ db db' e h. spared project db _ db' refl e h)
                (before _ _ (delete_installations-Content project) (
                  before _ _ (λ db db' e h. spared project db _ db' refl e h)
                    (before _ _ (λ db db' e h. spared project db _ db' refl e h)
                      (at_last [])))))))))

-- A project with a row in event_rejection_stats, event_property_drift or puzzle_content_revisions is
-- never purged: whatever fails and whether it is archived or not, the call ends with an error and
-- the database is as it was.
pub purge_project-refused :
    {rate : RateLibrary} (project : String) (w : World rate)
    → has_content project w.db ≡ true
    → (e : Failure) × ((purge_project project w).0 ≡ err e)
      × ((purge_project project w).1.db ≡ w.db)
unfolding purge_project
purge_project-refused {rate} project w h =
    let (e, r) = refuses.at w h in (e, r, transaction-err _ e w r)
  where
    refuses : Refuses {rate = rate} (Content project) (purge_project project)
    refuses = Refuses-transaction _ (
        Refuses-bind _ _ (Keeps-attempt _ (Keeps-query _)) λ archived.
          Refuses-bind _ _ (Keeps-lift _)
            λ _. run_queries-Refuses project project_purge_queries (queries-IsDoomed project))
