-- ===== src/Httpapi/Distinct.antt =====
-- No login name fits two accounts, and no two accounts have one id.
use mortris_server.Prelude.{
  ℕ, ◌+◌, ◌<◌, ◌≡◌, ◌≢◌, refl, ◌∙◌, sym, String, Bool, true, false, not, ◌&&◌, ◌||◌, Option, List,
  [], ◌∷◌, ◌++◌, All, All-append, ap₂, str_eq, eq_iff, arith, if◌then◌else◌,
}
use mathlib.Core.Path.{subst}
use mortris_server.Prelude.Int.{ℤ, pos}
use mortris_server.Ratelimit.{RateLibrary}
use mortris_server.Ingest.Db.{AdminUser}
use mortris_server.Ingest.Exec.{World}
use mortris_server.Adminauth.{Session}
use mortris_server.Adminauth.Sessions.{AuthLibrary, or_empty, is_user}
use mortris_server.Httpapi.Accounts.{
  answers_to, is_taken, new_account, update_users, set_user, changed_user,
}
use mortris_server.Httpapi.Members.{set_password}
use mortris_server.Httpapi.Changes.{Call, caller, apply_call}
use mortris_server.Httpapi.Kept.{IsKept}
use mortris_server.Httpapi.Kept.Calls.{apply_call-Holds}

-- Two accounts have different ids, and no name fits both but one that SQL's lower takes to what it
-- takes the empty text to.
pub record Apart (lib : AuthLibrary) (u v : AdminUser) : Type 0 where
  pub ids : u.id ≢ v.id
  pub names :
      (name : String)
      → answers_to lib name u ≡ true
      → answers_to lib name v ≡ true
      → lib.lower name ≡ lib.lower ""

abbrev pub AreApart : AuthLibrary → List AdminUser → Type 0
AreApart lib [] = Unit {0}
AreApart lib (u ∷ us) = All (Apart lib u) us × AreApart lib us

-- The accounts are apart, and the next id is greater than each.
pub record Distinct (lib : AuthLibrary) (users : List AdminUser) (next : ℕ) : Type 0 where
  pub apart : AreApart lib users
  pub below : All (λ u. (n : ℕ) × (u.id ≡ pos n) × (n < next)) users

new_account-Apart :
    (lib : AuthLibrary) (u : AdminUser) (next n : ℕ) (username email hash : String)
    → u.id ≡ pos n
    → n < next
    → (answers_to lib username u || not (str_eq email "") && answers_to lib email u) ≡ false
    → Apart lib u (new_account next username email hash)
unfolding new_account
new_account-Apart lib u next n username email hash e lt free = record {
  ids = λ same. ground (arith);
  names = λ name fits new. ground (
    arith,
    eq_iff email "",
    eq_iff (lib.lower (or_empty u.username)) (lib.lower username),
    eq_iff (lib.lower (or_empty u.email)) (lib.lower username),
    eq_iff (lib.lower (or_empty u.username)) (lib.lower email),
    eq_iff (lib.lower (or_empty u.email)) (lib.lower email),
    eq_iff (lib.lower (or_empty u.username)) (lib.lower name),
    eq_iff (lib.lower (or_empty u.email)) (lib.lower name),
    eq_iff (lib.lower username) (lib.lower name),
    eq_iff (lib.lower email) (lib.lower name),
    eq_iff (lib.lower "") (lib.lower name),
  );
}

AreApart-snoc :
    (lib : AuthLibrary) (us : List AdminUser) (v : AdminUser)
    → AreApart lib us
    → All (λ u. Apart lib u v) us
    → AreApart lib (us ++ (v ∷ []))
AreApart-snoc lib [] v h k = (tt, tt)
AreApart-snoc lib (u ∷ us) v h k =
    (All-append (Apart lib u) us (v ∷ []) h.0 (k.0, tt), AreApart-snoc lib us v h.1 k.1)

new_account-AllApart :
    (lib : AuthLibrary) (us : List AdminUser) (next : ℕ) (username email hash : String)
    → All (λ u. (n : ℕ) × (u.id ≡ pos n) × (n < next)) us
    → is_taken lib username email us ≡ false
    → All (λ u. Apart lib u (new_account next username email hash)) us
unfolding is_taken
new_account-AllApart lib [] next username email hash h free = tt
new_account-AllApart lib (u ∷ us) next username email hash ((n, e, lt), hs) free = (
  new_account-Apart lib u next n username email hash e lt (ground arith),
  new_account-AllApart lib us next username email hash hs (ground arith),
)

-- An update that leaves the ids and the names alone.
pub record SameLogin (u v : AdminUser) : Type 0 where
  pub id : u.id ≡ v.id
  pub username : u.username ≡ v.username
  pub email : u.email ≡ v.email

Apart-same :
    (lib : AuthLibrary) (u v u' v' : AdminUser)
    → SameLogin u' u
    → SameLogin v' v
    → Apart lib u v
    → Apart lib u' v'
Apart-same lib u v u' v' su sv a = record {
  ids = λ e. a.ids (sym su.id ∙ e ∙ sv.id);
  names = λ name fu fv.
      a.names name
        (subst
          (λ (p : Option String × Option String).
            (str_eq (lib.lower (or_empty p.0)) (lib.lower name)
              || str_eq (lib.lower (or_empty p.1)) (lib.lower name))
            ≡ true)
          (ap₂ (λ a b. (a, b)) su.username su.email) fu)
        (subst
          (λ (p : Option String × Option String).
            (str_eq (lib.lower (or_empty p.0)) (lib.lower name)
              || str_eq (lib.lower (or_empty p.1)) (lib.lower name))
            ≡ true)
          (ap₂ (λ a b. (a, b)) sv.username sv.email) fv);
}

module _ (lib : AuthLibrary) (id : ℤ) (f : AdminUser → AdminUser)
    (same : (u : AdminUser) → SameLogin (f u) u) where
  set_user-same : (u : AdminUser) → SameLogin (set_user id f u) u
  set_user-same u = go (is_user id u)
    where
      go : (b : Bool) → SameLogin (if b then f u else u) u
      go true = same u
      go false = record { id = refl; username = refl; email = refl }

  update_users-AllApart :
      (u : AdminUser) (us : List AdminUser)
      → All (Apart lib u) us
      → All (Apart lib (set_user id f u)) (update_users id f us)
  unfolding update_users
  update_users-AllApart u [] h = tt
  update_users-AllApart u (v ∷ vs) h = (
    Apart-same lib u v _ _ (set_user-same u) (set_user-same v) h.0,
    update_users-AllApart u vs h.1,
  )

  update_users-AreApart :
      (us : List AdminUser) → AreApart lib us → AreApart lib (update_users id f us)
  unfolding update_users
  update_users-AreApart [] h = tt
  update_users-AreApart (u ∷ us) h = (update_users-AllApart u us h.0, update_users-AreApart us h.1)

  update_users-below :
      (next : ℕ) (us : List AdminUser)
      → All (λ u. (n : ℕ) × (u.id ≡ pos n) × (n < next)) us
      → All (λ u. (n : ℕ) × (u.id ≡ pos n) × (n < next)) (update_users id f us)
  unfolding update_users
  update_users-below next [] h = tt
  update_users-below next (u ∷ us) ((n, e, lt), hs) =
      ((n, (set_user-same u).id ∙ e, lt), update_users-below next us hs)

  pub update_users-Distinct :
      (us : List AdminUser) (next : ℕ)
      → Distinct lib us next
      → Distinct lib (update_users id f us) next
  update_users-Distinct us next d = record {
    apart = update_users-AreApart us d.apart;
    below = update_users-below next us d.below;
  }

All-below :
    (next : ℕ) (us : List AdminUser)
    → All (λ u. (n : ℕ) × (u.id ≡ pos n) × (n < next)) us
    → All (λ u. (n : ℕ) × (u.id ≡ pos n) × (n < next + 1)) us
All-below next [] h = tt
All-below next (u ∷ us) ((n, e, lt), hs) = ((n, e, omega arith), All-below next us hs)

pub new_account-Distinct :
    (lib : AuthLibrary) (us : List AdminUser) (next : ℕ) (username email hash : String)
    → is_taken lib username email us ≡ false
    → Distinct lib us next
    → Distinct lib (us ++ (new_account next username email hash ∷ [])) (next + 1)
unfolding new_account
new_account-Distinct lib us next username email hash free d = record {
  apart =
      AreApart-snoc lib us _ d.apart
        (new_account-AllApart lib us next username email hash d.below free);
  below = All-append _ us _ (All-below next us d.below) ((next, refl, omega arith), tt);
}

pub Distinct-IsKept :
    (lib : AuthLibrary) (sess : Session)
    → IsKept lib sess (λ users next rows. Distinct lib users next) (λ id. Unit {0})
Distinct-IsKept lib sess = record {
  inserted = λ users next rows username email hash free d.
      new_account-Distinct lib users next username email hash free d;
  owner_changed = λ users next rows id hash disabled owner d.
      update_users-Distinct lib id (changed_user hash disabled)
        (λ u. record { id = refl; username = refl; email = refl }) users next d;
  checked = λ db project id admin passed d. tt;
  password_set = λ users next rows id hash may d.
      update_users-Distinct lib id (set_password hash)
        (λ u. record { id = refl; username = refl; email = refl }) users next d;
  granted = λ users next rows project id role admin d. d;
  access_set = λ users next rows project id role admin d. d;
  revoked = λ users next rows project id admin d. d;
  purged = λ users next rows project owner d. d;
}

-- A sequence of calls.
unfoldable pub apply_calls :
    {rate : RateLibrary} → AuthLibrary → List Call → World rate → World rate
apply_calls lib [] w = w
apply_calls lib (c ∷ cs) w = apply_calls lib cs (apply_call lib c w)

-- However many calls change accounts, members and projects, and whatever they come
-- to: if at first the accounts' ids differ and are below the next one, and no login name fits two
-- accounts but one that SQL's lower takes to the same as the empty text, then so it is afterwards.
pub apply_calls-Distinct :
    {rate : RateLibrary} (lib : AuthLibrary) (cs : List Call) (w : World rate)
    → Distinct lib w.db.admin_users w.db.next_account_id
    → Distinct lib (apply_calls lib cs w).db.admin_users (apply_calls lib cs w).db.next_account_id
unfolding apply_calls
apply_calls-Distinct lib [] w d = d
apply_calls-Distinct lib (c ∷ cs) w d =
    apply_calls-Distinct lib cs (apply_call lib c w)
      (apply_call-Holds c w (Distinct-IsKept lib (caller c)) d)
