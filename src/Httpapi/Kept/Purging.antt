-- ===== src/Httpapi/Kept/Purging.antt =====
-- The purge of a project keeps what its statements keep.
use mortris_server.Prelude.{
  ℕ, ◌≡◌, String, Bool, true, false, List, [], ◌∷◌, All, any, if◌then◌else◌,
}
use mathlib.Core.Path.{subst}
use mortris_server.Prelude.Int.{ℤ}
use mortris_server.Failure.{Result, ok, err, other}
use mortris_server.Ingest.Rows.{statement-eq-ok}
use mortris_server.Ratelimit.{RateLibrary}
use mortris_server.Ingest.Db.{Db, AdminUser, ProjectAccess}
use mortris_server.Ingest.Exec.Keeps.{
  Keeps, Keeps-pure, Keeps-lift, Keeps-query, Keeps-statement, Keeps-transaction, Keeps-bind,
  Keeps-attempt,
}
use mortris_server.Ingest.Exec.Yields.{Yields-lift, Keeps-bind-Yields}
use mortris_server.Adminauth.{Session, is_owner}
use mortris_server.Adminauth.Sessions.{AuthLibrary}
use mortris_server.Httpapi.Guards.{HttpRequest}
use mortris_server.Httpapi.Purge.{
  Purge, run_queries, project_purge_queries, purge_project, handle_project_purge,
  delete_installations, delete_project, owns_event, is_referenced,
}
use mortris_server.Httpapi.Kept.{IsKept, Holds, guard-owner}

abbrev KeepsRows : (List AdminUser → ℕ → List ProjectAccess → Type 0) → String → Purge → Type 0
KeepsRows Q project q = (db db' : Db) → q project db ≡ ok (tt, db') → Holds Q db → Holds Q db'

either_Holds :
    (Q : List AdminUser → ℕ → List ProjectAccess → Type 0) (next db' : Db) (b : Bool)
    → ◌≡◌ {A = Result (Unit {0} × Db)} (if b then err other else ok (tt, next)) (ok (tt, db'))
    → Holds Q next
    → Holds Q db'
either_Holds Q next db' true e h = absurd (cc)
either_Holds Q next db' false e h = subst (Holds Q) (statement-eq-ok e) h

run_queries-Holds :
    {rate : RateLibrary} (Q : List AdminUser → ℕ → List ProjectAccess → Type 0) (project : String)
    (qs : List Purge)
    → All (KeepsRows Q project) qs
    → Keeps {rate = rate} (Holds Q) (run_queries project qs)
unfolding run_queries
run_queries-Holds Q project [] k = Keeps-pure tt
run_queries-Holds Q project (q ∷ qs) (k, ks) =
    Keeps-bind _ _ (Keeps-statement _ λ t db b db' h e. k db db' e h)
      λ _. run_queries-Holds Q project qs ks

module _ {rate : RateLibrary} {lib : AuthLibrary} {sess : Session}
    {Q : List AdminUser → ℕ → List ProjectAccess → Type 0} {MayChange : ℤ → Type 0}
    (kept : IsKept lib sess Q MayChange) (project : String) where
  pub purge_project-Holds :
      (http : HttpRequest (Unit {0}))
      → Keeps {rate = rate} (Holds Q) (handle_project_purge sess project http)
  unfolding handle_project_purge purge_project delete_installations delete_project
  purge_project-Holds http =
      Keeps-bind-Yields (λ _. is_owner sess ≡ true) _ _ (Keeps-lift _)
        (Yields-lift _ _ λ done e. guard-owner sess http e)
        λ done owner. Keeps-transaction _ (
          Keeps-bind _ _ (Keeps-attempt _ (Keeps-query _)) λ archived.
            Keeps-bind _ _ (Keeps-lift _) λ _. run_queries-Holds Q project project_purge_queries (
              (λ db db' e h. subst (Holds Q) (statement-eq-ok e) h),
              (
                (λ db db' e h. subst (Holds Q) (statement-eq-ok e) h),
                (
                  (λ db db' e h. subst (Holds Q) (statement-eq-ok e) h),
                  (
                    (λ db db' e h. subst (Holds Q) (statement-eq-ok e) h),
                    (
                      (λ db db' e h. subst (Holds Q) (statement-eq-ok e) h),
                      (
                        (λ db db' e h. subst (Holds Q) (statement-eq-ok e) h),
                        (
                          λ db db' e h.
                              either_Holds Q _ db' (any (owns_event project) db.events) e h,
                          (
                            λ db db' e h. subst (Holds Q) (statement-eq-ok e) (
                                kept.purged db.admin_users db.next_account_id db.admin_user_projects
                                  project owner h),
                            (
                              (λ db db' e h. subst (Holds Q) (statement-eq-ok e) h),
                              (
                                λ db db' e h. either_Holds Q _ db' (is_referenced project db) e h,
                                tt,
                              ),
                            ),
                          ),
                        ),
                      ),
                    ),
                  ),
                ),
              ),
            ))
