-- ===== src/Httpapi/Privilege.antt =====
-- What a session that is not an owner's cannot do by any call.
use mortris_server.Prelude.{
  ℕ, ◌≤◌, ◌≡◌, ◌≢◌, refl, ap, sym, ◌∙◌, String, Bool, true, false, not, ◌&&◌, ◌||◌, Option, none,
  some, List, [], ◌∷◌, ◌++◌, str_eq, eq_iff, find, any, keep, arith, ◌⊎◌, inl, inr, ◌==◌,
  if◌then◌else◌,
}
use mathlib.Core.Path.{subst}
use mortris_server.Prelude.Int.{ℤ, eqb_ℤ_iff}
use mortris_server.Failure.{ok, new_error, reject_if, forbidden_role}
use mortris_server.Ratelimit.{RateLibrary}
use mortris_server.Ingest.Db.{Db, AdminUser, ProjectAccess}
use mortris_server.Ingest.Exec.{World}
use mortris_server.Adminauth.{Session, is_owner, can_manage_project}
use mortris_server.Adminauth.Sessions.{AuthLibrary, is_user}
use mortris_server.Httpapi.Accounts.{update_users}
use mortris_server.Httpapi.Members.{
  is_access, set_access, set_password, memberships_of, select_member, judge_member, access,
}
use mortris_server.Httpapi.Changes.{Call, caller, apply_call}
use mortris_server.Httpapi.Kept.{IsKept}
use mortris_server.Httpapi.Kept.Calls.{apply_call-Holds}

-- The memberships in a project.
abbrev pub own_access : String → List ProjectAccess → List ProjectAccess
own_access project = keep (λ a. str_eq a.project_id project)

-- An account out of the reach of a session: not a member's, or one that also belongs to a project
-- that the session may not manage.
abbrev pub IsBeyond : Session → List ProjectAccess → AdminUser → Type 0
IsBeyond sess rows u =
    (u.role ≢ "member")
    ⊎ ((p : String) × (can_manage_project sess p ≡ false) × (any (is_access p u.id) rows ≡ true))

find-append :
    (p : AdminUser → Bool) (us vs : List AdminUser) (u : AdminUser)
    → find p us ≡ some u
    → find p (us ++ vs) ≡ some u
find-append p [] vs u e = absurd (cc)
find-append p (x ∷ xs) vs u e = ground (arith, find-append p xs vs u)

find-update_users :
    (id key : ℤ) (hash : String) (us : List AdminUser)
    → key ≢ id
    → find (is_user key) (update_users id (set_password hash) us) ≡ find (is_user key) us
unfolding update_users
find-update_users id key hash [] d = refl
find-update_users id key hash (u ∷ us) d =
    ground (arith, eqb_ℤ_iff u.id key, eqb_ℤ_iff u.id id, find-update_users id key hash us d)

one_membership :
    (p : String) (id : ℤ) (rows : List ProjectAccess)
    → any (is_access p id) rows ≡ true
    → 1 ≤ memberships_of id rows
one_membership p id [] h = absurd (cc)
one_membership p id (a ∷ as') h = ground (arith, one_membership p id as')

two_memberships :
    (p q : String) (id : ℤ) (rows : List ProjectAccess)
    → p ≢ q
    → any (is_access p id) rows ≡ true
    → any (is_access q id) rows ≡ true
    → 2 ≤ memberships_of id rows
two_memberships p q id [] d h k = absurd (cc)
two_memberships p q id (a ∷ as') d h k = ground (
  arith,
  eq_iff a.project_id p,
  eq_iff a.project_id q,
  one_membership p id as',
  one_membership q id as',
  two_memberships p q id as' d,
)

own_access-set_access :
    (p q : String) (id : ℤ) (role : String) (rows : List ProjectAccess)
    → q ≢ p
    → own_access p (set_access q id role rows) ≡ own_access p rows
unfolding set_access
own_access-set_access p q id role [] d = refl
own_access-set_access p q id role (a ∷ as') d =
    ground
      (arith, eq_iff a.project_id p, eq_iff a.project_id q, own_access-set_access p q id role as' d)

own_access-revoked :
    (p q : String) (id : ℤ) (rows : List ProjectAccess)
    → q ≢ p
    → own_access p (keep (λ a. not (is_access q id a)) rows) ≡ own_access p rows
own_access-revoked p q id [] d = refl
own_access-revoked p q id (a ∷ as') d =
    ground (arith, eq_iff a.project_id p, eq_iff a.project_id q, own_access-revoked p q id as' d)

-- A membership in a project shows in the project's own rows.
any-own_access :
    (p : String) (id : ℤ) (rows : List ProjectAccess)
    → any (is_access p id) (own_access p rows) ≡ any (is_access p id) rows
any-own_access p id [] = refl
any-own_access p id (a ∷ as') = ground (arith, any-own_access p id as')

record IsOutside (sess : Session) (p : String) (u : AdminUser) (before : List ProjectAccess)
    (users : List AdminUser) (rows : List ProjectAccess) : Type 0 where
  found : find (is_user u.id) users ≡ some u
  own : own_access p rows ≡ own_access p before
  beyond : IsBeyond sess rows u

-- The rows of the projects that the session may not manage are the same.
abbrev SameElsewhere : Session → List ProjectAccess → List ProjectAccess → Type 0
SameElsewhere sess rows' rows =
    (q : String) → can_manage_project sess q ≡ false → own_access q rows' ≡ own_access q rows

other_project :
    (sess : Session) (m q : String)
    → can_manage_project sess m ≡ true
    → can_manage_project sess q ≡ false
    → m ≢ q
other_project sess m q admin denied e =
    both (can_manage_project sess q) (sym (ap (can_manage_project sess) e) ∙ admin) denied
  where
    both : (b : Bool) → b ≡ true → b ≡ false → ⊥
    both b h k = cc

module _ (sess : Session) (p : String) (u : AdminUser) (before : List ProjectAccess)
    (stranger : is_owner sess ≡ false) (unmanaged : can_manage_project sess p ≡ false) where
  rows-IsOutside :
      (users : List AdminUser) (rows' rows : List ProjectAccess)
      → SameElsewhere sess rows' rows
      → IsOutside sess p u before users rows
      → IsOutside sess p u before users rows'
  rows-IsOutside users rows' rows same h = record {
    found = h.found;
    own = same p unmanaged ∙ h.own;
    beyond = further h.beyond;
  }
    where
      further : IsBeyond sess rows u → IsBeyond sess rows' u
      further (inl role) = inl role
      further (inr (q, denied, member)) = inr (
        q,
        denied,
        sym (any-own_access q u.id rows')
            ∙ ap (any (is_access q u.id)) (same q denied)
            ∙ any-own_access q u.id rows
            ∙ member,
      )

  judge_member-ne :
      (db : Db) (project : String) (id : ℤ)
      → can_manage_project sess project ≡ true
      → judge_member sess (select_member project id db) ≡ ok tt
      → IsOutside sess p u before db.admin_users db.admin_user_projects
      → u.id ≢ id
  unfolding select_member
  judge_member-ne db project id admin passed h e =
      go (any (is_access project id) db.admin_user_projects) refl (find (is_user id) db.admin_users)
        (subst (λ k. find (is_user k) db.admin_users ≡ some u) e h.found) passed
    where
      judged_role :
          (role : String) (n : ℕ)
          → reject_if
              (not (is_owner sess) && (not (str_eq role "member") || not (n == 1)))
              (new_error 403 forbidden_role)
            ≡ ok tt
          → (role ≡ "member") × (n ≡ 1)
      judged_role role n r = ground (arith, eq_iff role "member")

      few :
          any (is_access project id) db.admin_user_projects ≡ true
          → (u.role ≡ "member") × (memberships_of id db.admin_user_projects ≡ 1)
          → IsBeyond sess db.admin_user_projects u
          → ⊥
      few member (role, count) (inl denied) = denied role
      few member (role, count) (inr (q, denied, other)) = omega (
        arith,
        two_memberships project q id db.admin_user_projects
            (other_project sess project q admin denied) member
            (subst (λ k. any (is_access q k) db.admin_user_projects ≡ true) e other),
      )

      go :
          (b : Bool)
          → any (is_access project id) db.admin_user_projects ≡ b
          → (o : Option AdminUser) → o ≡ some u
          → judge_member sess (
              if b
              then (elim o [
                | none ↦ none
                | some u ↦ some (u.role, memberships_of id db.admin_user_projects)
              ])
              else none)
            ≡ ok tt
          → ⊥
      go false member o f r = absurd (cc)
      go true member none f r = absurd (cc)
      go true member (some v) f r =
          few member
            (judged_role u.role (memberships_of id db.admin_user_projects) (
              subst
                (λ (x : AdminUser).
                  judge_member sess (some (x.role, memberships_of id db.admin_user_projects))
                  ≡ ok tt)
                (same f) r))
            h.beyond
        where
          same : ◌≡◌ {A = Option AdminUser} (some v) (some u) → v ≡ u
          same q = cc

  IsOutside-IsKept :
      (lib : AuthLibrary)
      → IsKept lib sess (λ users next rows. IsOutside sess p u before users rows) (λ id. u.id ≢ id)
  IsOutside-IsKept lib = record {
    inserted = λ users next rows username email hash free h. record {
      found = find-append (is_user u.id) users _ u h.found;
      own = h.own;
      beyond = h.beyond;
    };
    owner_changed = λ users next rows id hash disabled owner h. absurd (cc);
    checked = λ db project id admin passed h. judge_member-ne db project id admin passed h;
    password_set = λ users next rows id hash far h. record {
      found = find-update_users id u.id hash users far ∙ h.found;
      own = h.own;
      beyond = h.beyond;
    };
    granted = λ users next rows project id role admin h.
        rows-IsOutside users _ rows
          (λ q denied.
            granted_elsewhere project q id role rows (other_project sess project q admin denied))
          h;
    access_set = λ users next rows project id role admin h.
        rows-IsOutside users _ rows
          (λ q denied.
            own_access-set_access q project id role rows
              (other_project sess project q admin denied))
          h;
    revoked = λ users next rows project id admin h.
        rows-IsOutside users _ rows
          (λ q denied.
            own_access-revoked q project id rows (other_project sess project q admin denied))
          h;
    purged = λ users next rows project owner h. absurd (cc);
  }
    where
      granted_elsewhere :
          (m q : String) (id : ℤ) (role : String) (rows : List ProjectAccess)
          → m ≢ q
          → own_access q (access m id role ∷ rows) ≡ own_access q rows
      granted_elsewhere m q id role rows d = ground (arith, eq_iff m q)

-- Whatever a call by a session that is not an owner's comes to: the memberships of a project that
-- the session may not manage stay as they are and in their order, and an account that is not a
-- member's, or that also belongs to a project that the session may not manage, is found under its
-- id as it was, with its names, its password, its role and its state.
pub apply_call-outside :
    {rate : RateLibrary} (lib : AuthLibrary) (c : Call) (w : World rate) (p : String)
    (u : AdminUser)
    → is_owner (caller c) ≡ false
    → can_manage_project (caller c) p ≡ false
    → find (is_user u.id) w.db.admin_users ≡ some u
    → IsBeyond (caller c) w.db.admin_user_projects u
    → let after = (apply_call lib c w).db in
      (own_access p after.admin_user_projects ≡ own_access p w.db.admin_user_projects)
      × (find (is_user u.id) after.admin_users ≡ some u)
apply_call-outside lib c w p u stranger unmanaged found beyond =
    let after =
      apply_call-Holds c w
        (IsOutside-IsKept (caller c) p u w.db.admin_user_projects stranger unmanaged lib)
        (record { found = found; own = refl; beyond = beyond }) in
    (after.own, after.found)
