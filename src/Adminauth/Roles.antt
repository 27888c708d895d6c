-- ===== src/Adminauth/Roles.antt =====
-- Who may do what.
use mortris_server.Prelude.{
  ◌≡◌, ap, ◌↔◌, ◌≢◌, String, true, false, Option, none, some, List, [], ◌∷◌, eq_iff, contains,
  string_eq, arith,
}
use mortris_server.Prelude.Int.{ℤ}
use mortris_server.Failure.{ok}
use mortris_server.Adminauth.{
  Membership, new_session, has_project_access, role_in, project_role, can_manage_project, is_owner,
  ids, check_csrf,
}

role_in-contains :
    (ps : List Membership) (project role : String)
    → role_in ps project ≡ role
    → role ≢ ""
    → contains (ids ps) project ≡ true
unfolding role_in contains
role_in-contains [] project role h d = absurd (d (cc))
role_in-contains (p ∷ ps) project role h d = ground (arith, role_in-contains ps project role)

-- A session that may manage a project is an owner's, or has the project among those it may view.
can_manage_project-access :
    (user : ℤ) (username email role project : String) (projects : List Membership)
    → can_manage_project (new_session user username email role projects) project ≡ true
    → is_owner (new_session user username email role projects) ≡ false
    → has_project_access (new_session user username email role projects) project ≡ true
unfolding can_manage_project project_role new_session is_owner has_project_access
can_manage_project-access user username email role project projects h o =
    role_in-contains projects project "project_admin"
      (ground (arith, eq_iff (role_in projects project) "project_admin")) (λ e. cc)

-- A state-changing request passes exactly when it has a CSRF cookie that is not empty and a header
-- equal to it.
pub check_csrf_iff :
    (cookie : Option String) (header : String)
    → (check_csrf cookie header ≡ ok tt) ↔ ((cookie ≡ some header) × (header ≢ ""))
unfolding check_csrf
check_csrf_iff none header = (λ h. absurd (ground arith), λ h. absurd (cc (h.0)))
check_csrf_iff (some c) header =
    (λ h. (ap some (same h), filled h), λ h. passes (some_eq (h.0)) (h.1))
  where
    same : check_csrf (some c) header ≡ ok tt → c ≡ header
    same h = ground (arith, eq_iff c "", eq_iff header "", eq_iff c header)

    filled : check_csrf (some c) header ≡ ok tt → header ≢ ""
    filled h = ground (arith, eq_iff c "", eq_iff header "", eq_iff c header)

    some_eq : ◌≡◌ {A = Option String} (some c) (some header) → c ≡ header
    some_eq e = cc

    passes : c ≡ header → header ≢ "" → check_csrf (some c) header ≡ ok tt
    passes e d = ground (arith, eq_iff c "", eq_iff header "", eq_iff c header)
