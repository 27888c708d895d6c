-- ===== src/Adminauth/Sessions/Revoked.antt =====
-- A session that was revoked stays so, whatever the dashboard is asked afterwards.
use mortris_server.Prelude.{
  ℕ, ◌≡◌, refl, sym, ap, String, Bool, true, false, not, ◌&&◌, Option, none, some, List, [], ◌∷◌,
  All, find, inl, inr, if◌then◌else◌, arith,
}
use mathlib.Core.Path.{subst}
use mortris_server.Prelude.Int.{ℤ}
use mortris_server.Failure.{Failure, ok, err}
use mortris_server.Ratelimit.{RateLibrary}
use mortris_server.Ingest.Db.{Db, AdminSession, AdminUser}
use mortris_server.Ingest.Exec.{World, statement, outcome, advance}
use mortris_server.Ingest.Exec.Keeps.{
  Keeps, Keeps-bind, Keeps-lift, Keeps-pure, Keeps-if, Keeps-execute, Keeps-statement, Keeps-query,
  Keeps-now, Keeps-fail, Keeps-attempt,
}
use mortris_server.Ingest.Exec.Atomic.{bind-ok, bind-eq-ok, Result-cases}
use mortris_server.Ingest.Authorize.{same_bytes}
use mortris_server.Adminauth.Sessions.Validity.{validate_session-IsLive}
use mortris_server.Adminauth.Sessions.{
  AuthLibrary, login_admitted, check_login, refuse_login, open_session, logout, validate_session,
  check_session, select_session, revoke, revoke_all, revoke_statement, refresh_all, log_logout,
  with_user, is_user, has_hash, is_none,
}

-- No session of the hash can be used any more.
abbrev pub Revoked : List ℕ → Db → Type 0
Revoked hash db = All (λ s. (has_hash hash s && is_none s.revoked_at) ≡ false) db.admin_sessions

abbrev IsOff : List ℕ → AdminSession → Type 0
IsOff hash s = (has_hash hash s && is_none s.revoked_at) ≡ false

revoke-IsOff : (hash : List ℕ) (t : ℤ) (s : AdminSession) → IsOff hash (revoke hash t s)
revoke-IsOff hash t s = go (has_hash hash s && is_none s.revoked_at) refl
  where
    go :
        (b : Bool)
        → (has_hash hash s && is_none s.revoked_at) ≡ b
        → let r : AdminSession = if b then record s { revoked_at = some t } else s in IsOff hash r
    go true e = ground arith
    go false e = e

revoke_all-Revoked :
    (hash : List ℕ) (t : ℤ) (ss : List AdminSession) → All (IsOff hash) (revoke_all hash t ss)
unfolding revoke_all
revoke_all-Revoked hash t [] = tt
revoke_all-Revoked hash t (s ∷ ss) = (revoke-IsOff hash t s, revoke_all-Revoked hash t ss)

-- A session that is off stays off.
revoke-IsOff_still :
    (hash other : List ℕ) (t : ℤ) (s : AdminSession) → IsOff hash s → IsOff hash (revoke other t s)
revoke-IsOff_still hash other t s h = go (has_hash other s && is_none s.revoked_at)
  where
    go :
        (b : Bool)
        → let r : AdminSession = if b then record s { revoked_at = some t } else s in IsOff hash r
    go true = ground arith
    go false = h

revoke_all-IsOff :
    (hash other : List ℕ) (t : ℤ) (ss : List AdminSession)
    → All (IsOff hash) ss
    → All (IsOff hash) (revoke_all other t ss)
unfolding revoke_all
revoke_all-IsOff hash other t [] h = tt
revoke_all-IsOff hash other t (s ∷ ss) (h, hs) =
    (revoke-IsOff_still hash other t s h, revoke_all-IsOff hash other t ss hs)

refresh_all-IsOff :
    (hash other : List ℕ) (t : ℤ) (ss : List AdminSession)
    → All (IsOff hash) ss
    → All (IsOff hash) (refresh_all other t ss)
unfolding refresh_all
refresh_all-IsOff hash other t [] h = tt
refresh_all-IsOff hash other t (s ∷ ss) (h, hs) =
    (go (has_hash other s), refresh_all-IsOff hash other t ss hs)
  where
    go :
        (b : Bool)
        → let r : AdminSession = if b then record s { last_seen_at = t } else s in IsOff hash r
    go true = h
    go false = h

module _ {rate : RateLibrary} (lib : AuthLibrary) where
  log_logout-Keeps :
      (hash : List ℕ) (s : Option AdminSession)
      → Keeps {rate = rate} (Revoked hash) (log_logout lib s)
  log_logout-Keeps hash none = Keeps-pure _
  log_logout-Keeps hash (some s) = Keeps-execute _ λ t db h. h

module _ {rate : RateLibrary} (lib : AuthLibrary) (hash : List ℕ) where
  statement-Revoked :
      (other : List ℕ) → Keeps {rate = rate} (Revoked hash) (statement (revoke_statement other))
  statement-Revoked other = Keeps-statement _ λ t db a db' h e.
      subst (Revoked hash) (same_db t db a db' e)
        (revoke_all-IsOff hash other t db.admin_sessions h)
    where
      same_db :
          (t : ℤ) (db : Db) (a : Option AdminSession) (db' : Db)
          → revoke_statement other t db ≡ ok (a, db')
          → record db { admin_sessions = revoke_all other t db.admin_sessions } ≡ db'
      same_db t db a db' e = cc

  logout-Keeps : (token : String) → Keeps {rate = rate} (Revoked hash) (logout lib token)
  unfolding logout
  logout-Keeps token =
      Keeps-bind _ _ (statement-Revoked (lib.hash_token token)) (log_logout-Keeps lib hash)

  validate_session-Keeps :
      (token : String) → Keeps {rate = rate} (Revoked hash) (validate_session lib token)
  unfolding validate_session
  validate_session-Keeps token = Keeps-bind _ _ (Keeps-query _) checked
    where
      checked :
          (row : Option (AdminSession × AdminUser))
          → Keeps {rate = rate} (Revoked hash) (check_session lib (lib.hash_token token) row)
      checked none = Keeps-fail _
      checked (some (s, u)) = Keeps-bind _ _ (Keeps-lift _) λ _. Keeps-bind _ _ Keeps-now λ t.
          Keeps-bind _ _ (Keeps-lift _) λ _.
            Keeps-bind _ _
              (Keeps-execute _
                λ t db h. refresh_all-IsOff hash (lib.hash_token token) t db.admin_sessions h)
              λ _. Keeps-query _

  refuse_login-Keeps :
      (identifier reason : String)
      → Keeps {rate = rate} (Revoked hash) (refuse_login lib identifier reason)
  refuse_login-Keeps identifier reason =
      Keeps-bind _ _ (Keeps-attempt _ (Keeps-execute _ λ t db h. h)) λ _. Keeps-fail _

  login_admitted-Keeps :
      (identifier password token csrf : String)
      → same_bytes (lib.hash_token token) hash ≡ false
      → Keeps {rate = rate} (Revoked hash) (login_admitted lib identifier password token csrf)
  unfolding login_admitted open_session
  login_admitted-Keeps identifier password token csrf new = Keeps-bind _ _ (Keeps-query _) checked
    where
      checked :
          (u : Option AdminUser)
          → Keeps {rate = rate} (Revoked hash) (check_login lib u identifier password token csrf)
      checked none = refuse_login-Keeps identifier "no such user"
      checked (some u) =
          Keeps-if u.disabled _ _ (λ _. refuse_login-Keeps identifier "account disabled")
            λ _.
              Keeps-if (not (lib.verify_password u.password_hash password)) _ _
                (λ _. refuse_login-Keeps identifier "wrong password")
                λ _. Keeps-bind _ _ (Keeps-query _) λ session. Keeps-bind _ _ Keeps-now λ started.
                  Keeps-bind _ _ (Keeps-execute _ λ t db h. (rw new refl, h))
                    λ _. Keeps-bind _ _ (Keeps-execute _ λ t db h. h) λ _. Keeps-pure _

-- What can happen to the tables: the calls of this package, where no login draws a token with the
-- hash, and whatever leaves the sessions alone.
pub data Call {rate : RateLibrary} (lib : AuthLibrary) (hash : List ℕ)
    : World rate → World rate → Type 0 where
  logs_in :
      (w : World rate) (identifier password token csrf : String)
      → same_bytes (lib.hash_token token) hash ≡ false
      → Call lib hash w (login_admitted lib identifier password token csrf w).1
  logs_out : (w : World rate) (token : String) → Call lib hash w (logout lib token w).1
  validates : (w : World rate) (token : String) → Call lib hash w (validate_session lib token w).1
  works : (w w' : World rate) → w'.db.admin_sessions ≡ w.db.admin_sessions → Call lib hash w w'

pub data Calls {rate : RateLibrary} (lib : AuthLibrary) (hash : List ℕ) (w : World rate)
    : World rate → Type 0 where
  none_yet : Calls lib hash w w
  then_call : {v u : World rate} → Calls lib hash w v → Call lib hash v u → Calls lib hash w u

module _ {rate : RateLibrary} (lib : AuthLibrary) (hash : List ℕ) where
  Call-Revoked : {w v : World rate} → Call lib hash w v → Revoked hash w.db → Revoked hash v.db
  Call-Revoked (logs_in w identifier password token csrf new) h =
      (login_admitted-Keeps lib hash identifier password token csrf new).at w h
  Call-Revoked (logs_out w token) h = (logout-Keeps lib hash token).at w h
  Call-Revoked (validates w token) h = (validate_session-Keeps lib hash token).at w h
  Call-Revoked (works w v same) h = subst (All (IsOff hash)) (sym same) h

  Calls-Revoked : {w v : World rate} → Calls lib hash w v → Revoked hash w.db → Revoked hash v.db
  Calls-Revoked none_yet h = h
  Calls-Revoked (then_call cs c) h = Call-Revoked c (Calls-Revoked cs h)

find-IsOff :
    (hash : List ℕ) (ss : List AdminSession) (s : AdminSession)
    → All (IsOff hash) ss
    → find (has_hash hash) ss ≡ some s
    → is_none s.revoked_at ≡ false
find-IsOff hash [] s h e = absurd (cc)
find-IsOff hash (x ∷ xs) s (h, hs) e = go (has_hash hash x) refl h e (find-IsOff hash xs s hs)
  where
    go :
        (b : Bool)
        → has_hash hash x ≡ b
        → (b && is_none x.revoked_at) ≡ false
        → (if b then some x else find (has_hash hash) xs) ≡ some s
        → (find (has_hash hash) xs ≡ some s → is_none s.revoked_at ≡ false)
        → is_none s.revoked_at ≡ false
    go true q h e rest = subst (λ (s : AdminSession). is_none s.revoked_at ≡ false) (same e) h
      where
        same : ◌≡◌ {A = Option AdminSession} (some x) (some s) → x ≡ s
        same e = cc
    go false q h e rest = rest e

select_session-find :
    (hash : List ℕ) (db : Db) (s : AdminSession) (u : AdminUser)
    → select_session hash db ≡ some (s, u)
    → find (has_hash hash) db.admin_sessions ≡ some s
unfolding select_session
select_session-find hash db s u e = go (find (has_hash hash) db.admin_sessions) e
  where
    found :
        (x : AdminSession) (v : Option AdminUser)
        → ◌≡◌ {A = Option (AdminSession × AdminUser)}
            (elim v [ none ↦ none | some u ↦ some (x, u) ])
            (some (s, u))
        → x ≡ s
    found x none e = absurd (cc)
    found x (some v) e = cc

    go : (r : Option AdminSession) → with_user db r ≡ some (s, u) → r ≡ some s
    go none e = absurd (cc)
    go (some x) e = ap some (found x (find (is_user x.admin_user_id) db.admin_users) e)

module _ {rate : RateLibrary} (lib : AuthLibrary) where
  statement-revokes :
      (hash : List ℕ) (w : World rate) (s : Option AdminSession)
      → (statement (revoke_statement hash) w).0 ≡ ok s
      → Revoked hash (statement (revoke_statement hash) w).1.db
  unfolding statement
  statement-revokes hash w s e = go (w.faults 0) e
    where
      go :
          (fault : Bool)
          → (outcome fault (revoke_statement hash (w.clocks 0) w.db) (advance w)).0 ≡ ok s
          → Revoked hash (outcome fault (revoke_statement hash (w.clocks 0) w.db) (advance w)).1.db
      go true e = absurd (cc)
      go false e = revoke_all-Revoked hash (w.clocks 0) w.db.admin_sessions

  logout-Revoked :
      (token : String) (w : World rate)
      → (logout lib token w).0 ≡ ok tt
      → Revoked (lib.hash_token token) (logout lib token w).1.db
  unfolding logout
  logout-Revoked token w e =
      let (s, updated, _) = bind-eq-ok _ (log_logout lib) w tt e in
      subst (λ r. Revoked (lib.hash_token token) r.1.db)
        (sym (bind-ok _ (log_logout lib) w s updated))
        ((log_logout-Keeps lib (lib.hash_token token) s).at _
          (statement-revokes (lib.hash_token token) w s updated))

  -- After a successful logout the token is refused, however many logins that draw other tokens,
  -- logouts, validations and changes elsewhere in the tables come in between.
  pub logout-revokes :
      (token : String) (w v : World rate)
      → (logout lib token w).0 ≡ ok tt
      → Calls lib (lib.hash_token token) (logout lib token w).1 v
      → (e : Failure) × ((validate_session lib token v).0 ≡ err e)
  logout-revokes token w v done calls = elim (Result-cases (validate_session lib token v).0) [
    | inr (e, refused) ↦ (e, refused)
    | inl (a, accepted) ↦
        let (s, u, found, live, _) = validate_session-IsLive lib token v a accepted in
        absurd (
          both (is_none s.revoked_at) live.unrevoked (
            find-IsOff (lib.hash_token token) v.db.admin_sessions s
              (Calls-Revoked lib (lib.hash_token token) calls (logout-Revoked token w done))
              (select_session-find (lib.hash_token token) v.db s u found)))
  ]
    where
      both : (b : Bool) → b ≡ true → b ≡ false → ⊥
      both b e f = cc
