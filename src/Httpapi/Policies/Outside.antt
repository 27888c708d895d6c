-- ===== src/Httpapi/Policies/Outside.antt =====
-- What a session cannot do to the rules of a project that it may not manage.
use mortris_server.Prelude.{◌≡◌, ◌≢◌, refl, ap, ◌∙◌, String, Bool, true, false, not, Option, List}
use mortris_server.Prelude.Int.{ℤ, pos, negsuc}
use mortris_server.Failure.{ok, new_error, forbidden_role, reject_if}
use mortris_server.Ratelimit.{RateLibrary}
use mortris_server.Ingest.Db.{Db, PolicyRule}
use mortris_server.Ingest.Exec.{World}
use mortris_server.Ingest.Exec.Keeps.{
  Keeps, Keeps-bind, Keeps-lift, Keeps-query, Keeps-statement, Keeps-transaction,
}
use mortris_server.Ingest.Exec.Yields.{Yields-lift, Keeps-bind-Yields}
use mortris_server.Policyadmin.{CreateInput, list_rules}
use mortris_server.Policyadmin.Rules.{
  own_rules, Own-invariant, creation, deletion, create-Keeps, delete-Keeps,
}
use mortris_server.Adminauth.{Session, can_manage_project}
use mortris_server.Httpapi.Guards.{HttpRequest, require_project_admin}
use mortris_server.Httpapi.Policies.{
  handle_policy_list, handle_policy_create, handle_policy_delete, delete_numbered,
}

-- A call of one of the three handlers.
pub data PolicyCall : Type 0 where
  listing : String → PolicyCall
  creating : HttpRequest CreateInput → PolicyCall
  deleting : String → Option ℤ → HttpRequest (Unit {0}) → PolicyCall

module _ {rate : RateLibrary} where
  abbrev pub policy_call : Session → PolicyCall → World rate → World rate
  policy_call sess (listing project) w = (handle_policy_list sess project w).1
  policy_call sess (creating http) w = (handle_policy_create sess http w).1
  policy_call sess (deleting project number http) w =
      (handle_policy_delete sess project number http w).1

require_project_admin-eq-ok :
    (sess : Session) (project : String)
    → require_project_admin sess project ≡ ok tt
    → can_manage_project sess project ≡ true
unfolding require_project_admin
require_project_admin-eq-ok sess project h = go (can_manage_project sess project) h
  where
    go : (b : Bool) → reject_if (not b) (new_error 403 forbidden_role) ≡ ok tt → b ≡ true
    go true h = refl
    go false h = cc

module _ (sess : Session) (p : String) (before : List PolicyRule)
    (unmanaged : can_manage_project sess p ≡ false) where
  other : (project : String) → require_project_admin sess project ≡ ok tt → project ≢ p
  other project h e =
      go (can_manage_project sess project) (require_project_admin-eq-ok sess project h)
        (ap (can_manage_project sess) e ∙ unmanaged)
    where
      go : (b : Bool) → b ≡ true → b ≡ false → ⊥
      go b h k = cc

  abbrev Same : Db → Type 0
  Same db = own_rules p db.policy_rules ≡ own_rules p before

  list-Same :
      {rate : RateLibrary} (project : String)
      → Keeps {rate = rate} Same (handle_policy_list sess project)
  unfolding handle_policy_list list_rules
  list-Same project = Keeps-bind _ _ (Keeps-lift _) λ q. Keeps-query _

  create-Same :
      {rate : RateLibrary} (http : HttpRequest CreateInput)
      → Keeps {rate = rate} Same (handle_policy_create sess http)
  unfolding handle_policy_create
  create-Same http = Keeps-bind _ _ (Keeps-lift _) λ _. Keeps-bind _ _ (Keeps-lift _) λ input.
      Keeps-bind-Yields (λ _. require_project_admin sess input.project_id ≡ ok tt) _ _
        (Keeps-lift _) (Yields-lift _ _ λ x e. e)
        λ x admitted. create-Keeps sess.admin_user_id input (
          Own-invariant p before (creation sess.admin_user_id input)
            (other input.project_id admitted))

  delete-Same :
      {rate : RateLibrary} (project : String) (number : Option ℤ) (http : HttpRequest (Unit {0}))
      → Keeps {rate = rate} Same (handle_policy_delete sess project number http)
  unfolding handle_policy_delete delete_numbered
  delete-Same {rate} project number http = Keeps-bind _ _ (Keeps-lift _) λ _.
      Keeps-bind _ _ (Keeps-lift _) λ q.
        Keeps-bind-Yields (λ _. require_project_admin sess q ≡ ok tt) _ _ (Keeps-lift _)
          (Yields-lift _ _ λ x e. e)
          λ x admitted. Keeps-bind _ _ (Keeps-lift _) λ id. numbered q (other q admitted) id
    where
      numbered :
          (q : String)
          → q ≢ p
          → (id : ℤ) → Keeps {rate = rate} Same (delete_numbered sess.admin_user_id q id)
      numbered q d (pos id) =
          delete-Keeps sess.admin_user_id q id
            (Own-invariant p before (deletion sess.admin_user_id q id) d)
      numbered q d (negsuc id) = Keeps-transaction _ (Keeps-statement _ λ t db a db' h e. cc)

-- No call of the three handlers by a session, whether it succeeds or fails, changes, adds or removes
-- a rule of a project that the session may not manage.
pub policy_call-outside :
    {rate : RateLibrary} (sess : Session) (call : PolicyCall) (p : String) (w : World rate)
    → can_manage_project sess p ≡ false
    → own_rules p (policy_call sess call w).db.policy_rules ≡ own_rules p w.db.policy_rules
policy_call-outside sess (listing project) p w unmanaged =
    (list-Same sess p w.db.policy_rules unmanaged project).at w refl
policy_call-outside sess (creating http) p w unmanaged =
    (create-Same sess p w.db.policy_rules unmanaged http).at w refl
policy_call-outside sess (deleting project number http) p w unmanaged =
    (delete-Same sess p w.db.policy_rules unmanaged project number http).at w refl
