-- ===== src/Httpapi/Kept/Calls.antt =====
-- Every call keeps what its statements keep.
use mortris_server.Prelude.{
  ℕ, ◌≡◌, String, Bool, true, false, Option, List, [], ◌∷◌, ◌++◌, any, if◌then◌else◌,
}
use mathlib.Core.Path.{subst}
use mortris_server.Prelude.Int.{ℤ}
use mortris_server.Failure.{Result, ok, err, other}
use mortris_server.Ingest.Rows.{statement-eq-ok}
use mortris_server.Ratelimit.{RateLibrary}
use mortris_server.Ingest.Db.{Db, AdminUser, ProjectAccess, is_project}
use mortris_server.Ingest.Exec.{World, statement}
use mortris_server.Ingest.Exec.Keeps.{
  Keeps, Keeps-pure, Keeps-lift, Keeps-statement, Keeps-transaction, Keeps-bind, Keeps-attempt,
}
use mortris_server.Adminauth.{Session}
use mortris_server.Adminauth.Sessions.{AuthLibrary}
use mortris_server.Httpapi.Guards.{HttpRequest}
use mortris_server.Httpapi.Projects.{
  NewProject, project_row, ProjectCreateRequest, ProjectUpdateRequest, insert_project,
  update_project_row, turn_project, create_project, update_project, handle_project_create,
  handle_project_update, handle_project_archive_state,
}
use mortris_server.Httpapi.Changes.{
  Call, account_create, account_update, member_create, member_update, member_delete, project_create,
  settings_update, project_turn, project_purge, sdk_control, caller, apply_call,
}
use mortris_server.Httpapi.SdkControl.{handle_sdk_test_control, set_scenario}
use mortris_server.Httpapi.Kept.{
  IsKept, Holds, audit-Holds, create_account-Holds, update_account-Holds,
}
use mortris_server.Httpapi.Kept.Purging.{purge_project-Holds}
use mortris_server.Httpapi.Kept.Members.{
  create_member-Holds, update_member-Holds, delete_member-Holds,
}

insert_project-Holds :
    (Q : List AdminUser → ℕ → List ProjectAccess → Type 0) (n : NewProject) (t : ℤ) (db db' : Db)
    → insert_project n t db ≡ ok (tt, db')
    → Holds Q db
    → Holds Q db'
unfolding insert_project
insert_project-Holds Q n t db db' e h = go (any (is_project n.project.id) db.projects) e
  where
    go :
        (b : Bool)
        → ◌≡◌ {A = Result (Unit {0} × Db)}
            (if b
              then err other
              else ok (tt, record db { projects = db.projects ++ (project_row n ∷ []) }))
            (ok (tt, db'))
        → Holds Q db'
    go true e = absurd (cc)
    go false e = subst (Holds Q) (statement-eq-ok e) h

module _ {rate : RateLibrary} (sess : Session)
    (Q : List AdminUser → ℕ → List ProjectAccess → Type 0) where
  create_project-Holds :
      (lib : AuthLibrary) (drawn_id drawn_token : Option String)
      (http : HttpRequest ProjectCreateRequest)
      → Keeps {rate = rate} (Holds Q) (handle_project_create lib sess drawn_id drawn_token http)
  unfolding handle_project_create create_project
  create_project-Holds lib drawn_id drawn_token http = Keeps-bind _ _ (Keeps-lift _) λ _.
      Keeps-bind _ _ (Keeps-lift _) λ req. Keeps-bind _ _ (Keeps-lift _) λ n.
        Keeps-bind _ _ (Keeps-transaction _ (Keeps-bind _ _ (inserted n) λ _. audit-Holds Q _))
          λ _. Keeps-pure n
    where
      inserted : (n : NewProject) → Keeps {rate = rate} (Holds Q) (statement (insert_project n))
      inserted n = Keeps-statement _ λ t db b db' h e. insert_project-Holds Q n t db db' e h

  update_project-Holds :
      (lib : AuthLibrary) (project : String) (http : HttpRequest ProjectUpdateRequest)
      → Keeps {rate = rate} (Holds Q) (handle_project_update lib sess project http)
  unfolding handle_project_update update_project update_project_row
  update_project-Holds lib project http = Keeps-bind _ _ (Keeps-lift _) λ _.
      Keeps-bind _ _ (Keeps-lift _) λ req.
        Keeps-bind _ _
          (Keeps-bind _ _ (Keeps-lift _) λ _. Keeps-bind _ _ (Keeps-lift _) λ _.
            Keeps-bind _ _
              (Keeps-statement _ λ t db b db' h e. subst (Holds Q) (statement-eq-ok e) h)
              λ row. Keeps-lift _)
          λ p. Keeps-bind _ _ (Keeps-attempt _ (audit-Holds Q _)) λ _. Keeps-pure p

  turn_project-Holds :
      (project : String) (archive : Bool) (http : HttpRequest (Unit {0}))
      → Keeps {rate = rate} (Holds Q) (handle_project_archive_state sess project archive http)
  unfolding handle_project_archive_state turn_project
  turn_project-Holds project archive http = Keeps-bind _ _ (Keeps-lift _) λ _.
      Keeps-bind _ _ (Keeps-statement _ λ t db b db' h e. subst (Holds Q) (statement-eq-ok e) h)
        λ changed.
          Keeps-bind _ _ (Keeps-lift _)
            λ _. Keeps-bind _ _ (Keeps-attempt _ (audit-Holds Q _)) λ _. Keeps-pure tt

sdk_control-Holds :
    {rate : RateLibrary} (sess : Session) (Q : List AdminUser → ℕ → List ProjectAccess → Type 0)
    (project : String) (http : HttpRequest String)
    → Keeps {rate = rate} (Holds Q) (handle_sdk_test_control sess project http)
unfolding handle_sdk_test_control set_scenario
sdk_control-Holds sess Q project http = Keeps-bind _ _ (Keeps-lift _) λ _.
    Keeps-bind _ _ (Keeps-lift _) λ s. Keeps-bind _ _ (Keeps-lift _) λ _.
      Keeps-bind _ _ (Keeps-statement _ λ t db b db' h e. subst (Holds Q) (statement-eq-ok e) h)
        λ changed.
          Keeps-bind _ _ (Keeps-lift _)
            λ _. Keeps-bind _ _ (Keeps-attempt _ (audit-Holds Q _)) λ _. Keeps-pure tt

module _ {rate : RateLibrary} {lib : AuthLibrary}
    {Q : List AdminUser → ℕ → List ProjectAccess → Type 0} {MayChange : ℤ → Type 0} where
  pub apply_call-Holds :
      (c : Call) (w : World rate)
      → IsKept lib (caller c) Q MayChange
      → Holds Q w.db
      → Holds Q (apply_call lib c w).db
  unfolding apply_call
  apply_call-Holds (account_create s d h) w kept = (create_account-Holds kept d h).at w
  apply_call-Holds (account_update s a d h) w kept = (update_account-Holds kept a d h).at w
  apply_call-Holds (member_create s p d h) w kept = (create_member-Holds kept p d h).at w
  apply_call-Holds (member_update s p a d h) w kept = (update_member-Holds kept p a d h).at w
  apply_call-Holds (member_delete s p a h) w kept = (delete_member-Holds kept p a h).at w
  apply_call-Holds (project_create s d t h) w kept = (create_project-Holds s Q lib d t h).at w
  apply_call-Holds (settings_update s p h) w kept = (update_project-Holds s Q lib p h).at w
  apply_call-Holds (project_turn s p a h) w kept = (turn_project-Holds s Q p a h).at w
  apply_call-Holds (project_purge s p h) w kept = (purge_project-Holds kept p h).at w
  apply_call-Holds (sdk_control s p h) w kept = (sdk_control-Holds s Q p h).at w
