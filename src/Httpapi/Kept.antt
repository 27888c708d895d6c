-- ===== src/Httpapi/Kept.antt =====
-- What the calls keep of the accounts and the memberships, from what their statements keep.
pub mod Members
pub mod Purging
pub mod Calls
use mortris_server.Prelude.{
  ℕ, ◌+◌, ◌≡◌, refl, ◌≢◌, String, Bool, true, false, not, ◌&&◌, Option, none, some, List, [], ◌∷◌,
  ◌++◌, keep, any, if◌then◌else◌, str_eq, find, ◌||◌, ltb, length,
}
use mathlib.Core.Path.{subst}
use mortris_server.Prelude.Int.{ℤ, pos}
use mortris_server.Failure.{
  Result, ok, err, other, new_error, reject_if, invalid_request, forbidden_role,
}
use mortris_server.Ingest.Rows.{statement-eq-ok}
use mortris_server.Ratelimit.{RateLibrary}
use mortris_server.Ingest.Db.{Db, AdminUser, ProjectAccess, AuditEntry}
use mortris_server.Ingest.Exec.{
  World, Exec, pure, lift, query, statement, execute, attempt, transaction, ◌>>=◌, outcome, advance,
}
use mortris_server.Ingest.Exec.Keeps.{
  Keeps, Keeps-pure, Keeps-lift, Keeps-query, Keeps-statement, Keeps-execute, Keeps-transaction,
  Keeps-bind, Keeps-attempt,
}
use mortris_server.Ingest.Exec.Yields.{Yields-lift, Keeps-bind-Yields}
use mortris_server.Ingest.Exec.Checks.{Keeps-check, Keeps-query-statement}
use mortris_server.Adminauth.{Session, is_owner, can_manage_project}
use mortris_server.Adminauth.Sessions.{AuthLibrary}
use mortris_server.Httpapi.Guards.{
  HttpRequest, Body, decode_request, path_account, guard, require_owner, require_project_admin,
  audit,
}
use mortris_server.Httpapi.Accounts.{
  AccountCreateRequest, AccountUpdateRequest, is_taken, new_account, insert_account, changed_user,
  update_account_row, update_users, create_named_account, create_account, update_account,
  revoke_for, has_value, is_true, handle_account_create, handle_account_update, hash_drawn,
  account_password_hash, collides,
}
use mortris_server.Httpapi.Members.{
  MemberCreateRequest, MemberUpdateRequest, grant, is_access, revoke_access, set_access, judged,
  judge_member, select_member, set_password, with_role, project_member_account_id,
  create_project_member, can_change_project_member, change_role, change_password,
  apply_member_update, update_project_member, handle_project_member_create,
  handle_project_member_update, handle_project_member_delete, validate_member_update,
}
use mortris_server.Httpapi.Projects.{
  NewProject, ProjectCreateRequest, ProjectUpdateRequest, insert_project, update_project_row,
  turn_project, create_project, update_project, handle_project_create, handle_project_update,
  handle_project_archive_state, new_managed_project,
}
use mortris_server.Httpapi.Changes.{Call, caller, apply_call}
use mortris_server.Httpapi.Purge.{owns_access}

-- What each statement must keep, for calls by one session. `MayChange` is what is known of an
-- account once canChangeProjectMember has let the session pass.
pub record IsKept (lib : AuthLibrary) (sess : Session)
    (Q : List AdminUser → ℕ → List ProjectAccess → Type 0) (MayChange : ℤ → Type 0) : Type 0 where
  pub inserted :
      (users : List AdminUser) (next : ℕ) (rows : List ProjectAccess) (username email hash : String)
      → is_taken lib username email users ≡ false
      → Q users next rows
      → Q (users ++ (new_account next username email hash ∷ [])) (next + 1) rows
  pub owner_changed :
      (users : List AdminUser) (next : ℕ) (rows : List ProjectAccess) (id : ℤ)
      (hash : Option String) (disabled : Option Bool)
      → is_owner sess ≡ true
      → Q users next rows
      → Q (update_users id (changed_user hash disabled) users) next rows
  pub checked :
      (db : Db) (project : String) (id : ℤ)
      → can_manage_project sess project ≡ true
      → judge_member sess (select_member project id db) ≡ ok tt
      → Q db.admin_users db.next_account_id db.admin_user_projects
      → MayChange id
  pub password_set :
      (users : List AdminUser) (next : ℕ) (rows : List ProjectAccess) (id : ℤ) (hash : String)
      → MayChange id
      → Q users next rows
      → Q (update_users id (set_password hash) users) next rows
  pub granted :
      (users : List AdminUser) (next : ℕ) (rows : List ProjectAccess) (project : String) (id : ℤ)
      (role : String)
      → can_manage_project sess project ≡ true
      → Q users next rows
      → Q users next
          (record { admin_user_id = id; project_id = project; access_role = role } ∷ rows)
  pub access_set :
      (users : List AdminUser) (next : ℕ) (rows : List ProjectAccess) (project : String) (id : ℤ)
      (role : String)
      → can_manage_project sess project ≡ true
      → Q users next rows
      → Q users next (set_access project id role rows)
  pub revoked :
      (users : List AdminUser) (next : ℕ) (rows : List ProjectAccess) (project : String) (id : ℤ)
      → can_manage_project sess project ≡ true
      → Q users next rows
      → Q users next (keep (λ a. not (is_access project id a)) rows)
  pub purged :
      (users : List AdminUser) (next : ℕ) (rows : List ProjectAccess) (project : String)
      → is_owner sess ≡ true
      → Q users next rows
      → Q users next (keep (λ a. not (owns_access project a)) rows)

pub guard-owner :
    {A : Type 0} (sess : Session) (http : HttpRequest A)
    → guard (require_owner sess) http ≡ ok tt
    → is_owner sess ≡ true
unfolding guard require_owner
guard-owner sess http h = go (is_owner sess) h
  where
    go :
        (b : Bool)
        → guard (reject_if (not b) (new_error 403 forbidden_role)) http ≡ ok tt
        → b ≡ true
    go true h = refl
    go false h = absurd (cc)

pub guard-admin :
    {A : Type 0} (sess : Session) (project : String) (http : HttpRequest A)
    → guard (require_project_admin sess project) http ≡ ok tt
    → can_manage_project sess project ≡ true
unfolding guard require_project_admin
guard-admin sess project http h = go (can_manage_project sess project) h
  where
    go :
        (b : Bool)
        → guard (reject_if (not b) (new_error 403 forbidden_role)) http ≡ ok tt
        → b ≡ true
    go true h = refl
    go false h = absurd (cc)

untested : (taken : Bool) → reject_if taken (new_error 400 invalid_request) ≡ ok tt → taken ≡ false
untested true h = absurd (cc)
untested false h = refl

abbrev pub Holds : (List AdminUser → ℕ → List ProjectAccess → Type 0) → Db → Type 0
Holds Q db = Q db.admin_users db.next_account_id db.admin_user_projects

module _ {lib : AuthLibrary} {sess : Session} {Q : List AdminUser → ℕ → List ProjectAccess → Type 0}
    {MayChange : ℤ → Type 0} (kept : IsKept lib sess Q MayChange) where
  insert_account-Holds :
      (username email hash : String) (t : ℤ) (db db' : Db) (id : ℤ)
      → is_taken lib username email db.admin_users ≡ false
      → insert_account lib username email hash t db ≡ ok (id, db')
      → Holds Q db
      → Holds Q db'
  unfolding insert_account
  insert_account-Holds username email hash t db db' id new e h =
      go (any (collides lib username email) db.admin_users) e
    where
      after : Db
      after = record db {
        admin_users = db.admin_users ++ (new_account db.next_account_id username email hash ∷ []);
        next_account_id = db.next_account_id + 1;
      }

      go :
          (b : Bool)
          → ◌≡◌ {A = Result (ℤ × Db)}
              (if b then err other else ok (pos db.next_account_id, after))
              (ok (id, db'))
          → Holds Q db'
      go true e = absurd (cc)
      go false e = subst (Holds Q) (statement-eq-ok e) (
          kept.inserted db.admin_users db.next_account_id db.admin_user_projects username email hash
            new h)

pub audit-Holds :
    {rate : RateLibrary} (Q : List AdminUser → ℕ → List ProjectAccess → Type 0) (entry : AuditEntry)
    → Keeps {rate = rate} (Holds Q) (audit entry)
unfolding audit
audit-Holds Q entry = Keeps-execute _ λ t db h. h

module _ {rate : RateLibrary} {lib : AuthLibrary} {sess : Session}
    {Q : List AdminUser → ℕ → List ProjectAccess → Type 0} {MayChange : ℤ → Type 0}
    (kept : IsKept lib sess Q MayChange) where
  pub create_named_account-Holds :
      (drawn : Option (List ℕ)) (username password email : String)
      → Keeps {rate = rate} (Holds Q) (create_named_account lib drawn username password email)
  unfolding create_named_account
  create_named_account-Holds drawn username password email = Keeps-bind _ _ (Keeps-lift _) λ done.
      Keeps-bind _ _ (Keeps-lift _) λ hash. Keeps-query-statement _ _ _ λ t db id db' h new e.
        insert_account-Holds kept (lib.trim_space username) (lib.trim_space email) hash t db db' id
          (untested _ new) e h

  pub create_account-Holds :
      (drawn : Option (List ℕ)) (http : HttpRequest AccountCreateRequest)
      → Keeps {rate = rate} (Holds Q) (handle_account_create lib sess drawn http)
  unfolding handle_account_create create_account
  create_account-Holds drawn http = Keeps-bind _ _ (Keeps-lift _) λ done.
      Keeps-bind _ _ (Keeps-lift _) λ req. Keeps-transaction _ (
        Keeps-bind _ _ (create_named_account-Holds drawn req.username req.password req.email)
          λ id. Keeps-bind _ _ (audit-Holds Q _) λ _. Keeps-pure id)

  pub update_account-Holds :
      (account : Option ℤ) (drawn : Option (List ℕ)) (http : HttpRequest AccountUpdateRequest)
      → Keeps {rate = rate} (Holds Q) (handle_account_update lib sess account drawn http)
  unfolding handle_account_update update_account
  update_account-Holds account drawn http =
      Keeps-bind-Yields (λ _. is_owner sess ≡ true) _ _ (Keeps-lift _)
        (Yields-lift _ _ λ done e. guard-owner sess http e)
        λ done owner. Keeps-bind _ _ (Keeps-lift _) λ id. Keeps-bind _ _ (Keeps-lift _) λ req.
          Keeps-bind _ _ (Keeps-lift _) λ _. Keeps-bind _ _ (Keeps-lift _) λ hash.
            Keeps-bind _ _
              (Keeps-statement _ λ t db b db' h e. subst (Holds Q) (statement-eq-ok e) (
                kept.owner_changed db.admin_users db.next_account_id db.admin_user_projects id hash
                  req.disabled owner h))
              λ updated. Keeps-bind _ _ (Keeps-lift _) λ _.
                Keeps-bind _ _
                  (Keeps-attempt _
                    (revoke_for-Holds (has_value req.password || is_true req.disabled) id))
                  λ _. Keeps-bind _ _ (Keeps-attempt _ (audit-Holds Q _)) λ _. Keeps-pure tt
    where
      revoke_for-Holds : (b : Bool) (id : ℤ) → Keeps {rate = rate} (Holds Q) (revoke_for lib b id)
      revoke_for-Holds true id = Keeps-execute _ λ t db h. h
      revoke_for-Holds false id = Keeps-pure tt
