-- ===== src/Httpapi/Kept/Members.antt =====
-- The calls that change the members of a project keep what their statements keep.
use mortris_server.Prelude.{
  ℕ, ◌≡◌, refl, String, Bool, true, false, not, ◌&&◌, Option, none, some, List, ◌∷◌, any,
  if◌then◌else◌,
}
use mathlib.Core.Path.{subst}
use mortris_server.Prelude.Int.{ℤ}
use mortris_server.Failure.{Result, ok, err, other}
use mortris_server.Ingest.Rows.{statement-eq-ok}
use mortris_server.Ratelimit.{RateLibrary}
use mortris_server.Ingest.Db.{Db, AdminUser, ProjectAccess, is_project}
use mortris_server.Ingest.Exec.Keeps.{
  Keeps, Keeps-pure, Keeps-lift, Keeps-query, Keeps-statement, Keeps-execute, Keeps-transaction,
  Keeps-bind, Keeps-attempt,
}
use mortris_server.Ingest.Exec.Yields.{Yields-lift, Keeps-bind-Yields}
use mortris_server.Ingest.Exec.Checks.{Keeps-check}
use mortris_server.Adminauth.{Session, can_manage_project}
use mortris_server.Adminauth.Sessions.{AuthLibrary, is_user}
use mortris_server.Httpapi.Guards.{HttpRequest}
use mortris_server.Httpapi.Members.{
  MemberCreateRequest, MemberUpdateRequest, grant, is_access, access, revoke_access, set_access,
  judged, judge_member, select_member, with_role, project_member_account_id, create_project_member,
  can_change_project_member, change_role, change_password, apply_member_update,
  update_project_member, handle_project_member_create, handle_project_member_update,
  handle_project_member_delete,
}
use mortris_server.Httpapi.Kept.{
  IsKept, Holds, guard-admin, audit-Holds, create_named_account-Holds,
}

module _ {lib : AuthLibrary} {sess : Session} {Q : List AdminUser → ℕ → List ProjectAccess → Type 0}
    {MayChange : ℤ → Type 0} (kept : IsKept lib sess Q MayChange) where
  grant-Holds :
      (project : String) (id : ℤ) (role : String) (t : ℤ) (db db' : Db)
      → can_manage_project sess project ≡ true
      → grant project id role t db ≡ ok (tt, db')
      → Holds Q db
      → Holds Q db'
  unfolding grant
  grant-Holds project id role t db db' admin e h =
      go (any (is_user id) db.admin_users && any (is_project project) db.projects)
        (any (is_access project id) db.admin_user_projects) e
    where
      go :
          (known member : Bool)
          → ◌≡◌ {A = Result (Unit {0} × Db)}
              (if not known
                then err other
                else if member
                then ok (
                  tt,
                  record db {
                    admin_user_projects = set_access project id role db.admin_user_projects;
                  },
                )
                else ok (
                  tt,
                  record db {
                    admin_user_projects = access project id role ∷ db.admin_user_projects;
                  },
                ))
              (ok (tt, db'))
          → Holds Q db'
      go false member e = absurd (cc)
      go true true e = subst (Holds Q) (statement-eq-ok e) (
          kept.access_set db.admin_users db.next_account_id db.admin_user_projects project id role
            admin h)
      go true false e = subst (Holds Q) (statement-eq-ok e) (
          kept.granted db.admin_users db.next_account_id db.admin_user_projects project id role
            admin h)

  judged-Holds :
      (project : String) (id : ℤ) (db db' : Db) (r : Result (Unit {0}))
      → can_manage_project sess project ≡ true
      → judge_member sess (select_member project id db) ≡ r
      → judged db r ≡ ok (tt, db')
      → Holds Q db
      → Holds Q db' × MayChange id
  judged-Holds project id db db' (ok done) admin same e h =
      (subst (Holds Q) (statement-eq-ok e) h, kept.checked db project id admin same h)
  judged-Holds project id db db' (err f) admin same e h = absurd (cc)

module _ {rate : RateLibrary} {lib : AuthLibrary} {sess : Session}
    {Q : List AdminUser → ℕ → List ProjectAccess → Type 0} {MayChange : ℤ → Type 0}
    (kept : IsKept lib sess Q MayChange) where
  member_account-Holds :
      (drawn : Option (List ℕ)) (account : Option ℤ) (req : MemberCreateRequest)
      → Keeps {rate = rate} (Holds Q) (project_member_account_id lib sess drawn account req)
  unfolding project_member_account_id
  member_account-Holds drawn none req =
      create_named_account-Holds kept drawn req.username req.password req.email
  member_account-Holds drawn (some id) req =
      Keeps-bind _ _ (Keeps-lift _) λ _.
        Keeps-bind _ _ (Keeps-query _) λ known. Keeps-bind _ _ (Keeps-lift _) λ _. Keeps-pure id

  pub create_member-Holds :
      (project : String) (drawn : Option (List ℕ)) (http : HttpRequest MemberCreateRequest)
      → Keeps {rate = rate} (Holds Q) (handle_project_member_create lib sess project drawn http)
  unfolding handle_project_member_create create_project_member
  create_member-Holds project drawn http =
      Keeps-bind-Yields (λ _. can_manage_project sess project ≡ true) _ _ (Keeps-lift _)
        (Yields-lift _ _ λ done e. guard-admin sess project http e)
        λ done admin. Keeps-bind _ _ (Keeps-lift _) λ req. Keeps-bind _ _ (Keeps-lift _) λ _.
          Keeps-transaction _ (
            Keeps-bind _ _ (member_account-Holds drawn (with_role req).account_id (with_role req))
              λ id.
                Keeps-bind _ _
                  (Keeps-statement _ λ t db b db' h e.
                    grant-Holds kept project id (with_role req).access_role t db db' admin e h)
                  λ _. Keeps-bind _ _ (audit-Holds Q _) λ _. Keeps-pure id)

  apply_update-Holds :
      (project : String) (id : ℤ) (drawn : Option (List ℕ)) (req : MemberUpdateRequest)
      → can_manage_project sess project ≡ true
      → MayChange id
      → Keeps {rate = rate} (Holds Q) (apply_member_update lib project id drawn req)
  unfolding apply_member_update
  apply_update-Holds project id drawn req admin may =
      Keeps-bind _ _ (role-Holds req.access_role) λ _. password-Holds req.password
    where
      role-Holds :
          (role : Option String) → Keeps {rate = rate} (Holds Q) (change_role lib project id role)
      role-Holds none = Keeps-pure tt
      role-Holds (some role) = Keeps-execute _ λ t db h.
          kept.access_set db.admin_users db.next_account_id db.admin_user_projects project id role
            admin h

      password-Holds :
          (password : Option String)
          → Keeps {rate = rate} (Holds Q) (change_password lib id drawn password)
      password-Holds none = Keeps-pure tt
      password-Holds (some password) = Keeps-bind _ _ (Keeps-lift _) λ hash.
          Keeps-bind _ _
            (Keeps-execute _ λ t db h.
              kept.password_set db.admin_users db.next_account_id db.admin_user_projects id hash may
                h)
            λ _. Keeps-execute _ λ t db h. h

  pub update_member-Holds :
      (project : String) (account : Option ℤ) (drawn : Option (List ℕ))
      (http : HttpRequest MemberUpdateRequest)
      → Keeps {rate = rate}
          (Holds Q)
          (handle_project_member_update lib sess project account drawn http)
  unfolding handle_project_member_update update_project_member can_change_project_member
  update_member-Holds project account drawn http =
      Keeps-bind-Yields (λ _. can_manage_project sess project ≡ true) _ _ (Keeps-lift _)
        (Yields-lift _ _ λ done e. guard-admin sess project http e)
        λ done admin. Keeps-bind _ _ (Keeps-lift _) λ id. Keeps-bind _ _ (Keeps-lift _) λ req.
          Keeps-bind _ _ (Keeps-lift _) λ _. Keeps-transaction _ (
            Keeps-check (λ _. MayChange id) _ _
              (λ t db b db' h e. judged-Holds kept project id db db' _ admin refl e h)
              λ _ may.
                Keeps-bind _ _ (apply_update-Holds project id drawn req admin may)
                  λ _. audit-Holds Q _)

  pub delete_member-Holds :
      (project : String) (account : Option ℤ) (http : HttpRequest (Unit {0}))
      → Keeps {rate = rate} (Holds Q) (handle_project_member_delete lib sess project account http)
  unfolding handle_project_member_delete revoke_access
  delete_member-Holds project account http =
      Keeps-bind-Yields (λ _. can_manage_project sess project ≡ true) _ _ (Keeps-lift _)
        (Yields-lift _ _ λ done e. guard-admin sess project http e)
        λ done admin. Keeps-bind _ _ (Keeps-lift _) λ id.
          Keeps-bind _ _
            (Keeps-statement _ λ t db b db' h e. subst (Holds Q) (statement-eq-ok e) (
              kept.revoked db.admin_users db.next_account_id db.admin_user_projects project id admin
                h))
            λ removed.
              Keeps-bind _ _ (Keeps-lift _)
                λ _. Keeps-bind _ _ (Keeps-attempt _ (audit-Holds Q _)) λ _. Keeps-pure tt
