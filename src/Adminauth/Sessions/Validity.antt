-- ===== src/Adminauth/Sessions/Validity.antt =====
-- What ValidateSession has found out when it accepts a token.
use mortris_server.Prelude.{
  ◌≡◌, refl, sym, ap, ◌∙◌, String, Bool, true, false, not, ◌||◌, Option, none, some, List, ℕ, arith,
}
use mathlib.Core.Path.{subst}
use mortris_server.Prelude.Int.{ℤ, ◌≤ℤ◌, ltb_ℤ→le}
use mortris_server.Failure.{Failure, ok, reject_if}
use mortris_server.Ratelimit.{RateLibrary}
use mortris_server.Ingest.Time.{sub_time}
use mortris_server.Ingest.Db.{Db, AdminSession, AdminUser}
use mortris_server.Ingest.Exec.{World, fail, lift, query, statement, now, outcome, advance}
use mortris_server.Ingest.Exec.Atomic.{bind-eq-ok, query-eq-ok}
use mortris_server.Adminauth.{Session, new_session}
use mortris_server.Adminauth.Sessions.{
  AuthLibrary, validate_session, check_session, select_session, is_none, has_expired, idle_timeout,
}

-- A session that is in use at a time, and its account.
pub record IsLive (t : ℤ) (s : AdminSession) (u : AdminUser) : Type 0 where
  pub unrevoked : is_none s.revoked_at ≡ true
  pub enabled : u.disabled ≡ false
  pub before_end : t ≤ℤ s.expires_at
  pub not_idle : sub_time t s.last_seen_at ≤ℤ idle_timeout

reject_if-false : (b : Bool) (e : Failure) → reject_if b e ≡ ok tt → b ≡ false
reject_if-false b e h = ground arith

live :
    (t : ℤ) (s : AdminSession) (u : AdminUser)
    → (not (is_none s.revoked_at) || u.disabled) ≡ false
    → has_expired s t ≡ false
    → IsLive t s u
live t s u h k = record {
  unrevoked = ground arith;
  enabled = ground arith;
  before_end = ltb_ℤ→le s.expires_at t (ground arith);
  not_idle = ltb_ℤ→le idle_timeout (sub_time t s.last_seen_at) (ground arith);
}

module _ {rate : RateLibrary} where
  query-world :
      {A : Type 0} (f : Db → A) (w : World rate) (a : A)
      → (query f w).0 ≡ ok a
      → (query f w).1 ≡ advance w
  unfolding query statement
  query-world f w a e = go (w.faults 0) e
    where
      go :
          (fault : Bool)
          → (outcome fault (ok (f w.db, w.db)) (advance w)).0 ≡ ok a
          → (outcome fault (ok (f w.db, w.db)) (advance w)).1 ≡ advance w
      go true e = refl
      go false e = refl

  now-time : (w : World rate) (t : ℤ) → (now w).0 ≡ ok t → w.clocks 0 ≡ t
  unfolding now
  now-time w t e = cc

  check_session-IsLive :
      (lib : AuthLibrary) (hash : List ℕ) (row : Option (AdminSession × AdminUser)) (w : World rate)
      (a : Session)
      → (check_session lib hash row w).0 ≡ ok a
      → (s : AdminSession) × (u : AdminUser) × (row ≡ some (s, u))
        × IsLive (w.clocks 0) s u
        × (a.admin_user_id ≡ u.id)
  unfolding lift fail new_session
  check_session-IsLive lib hash none w a e = absurd (cc)
  check_session-IsLive lib hash (some (s, u)) w a e =
      let (_, unrevoked, e) = bind-eq-ok _ _ w a e in
      let (t, at, e) = bind-eq-ok _ _ w a e in
      let (_, fresh, e) = bind-eq-ok _ _ (now w).1 a e in
      let (_, _, e) = bind-eq-ok _ _ (now w).1 a e in
      (
        s,
        u,
        refl,
        subst (λ t. IsLive t s u) (sym (now-time w t at))
            (live t s u (reject_if-false _ _ unrevoked) (reject_if-false _ _ fresh)),
        ap (λ a. a.admin_user_id) (sym (query-eq-ok _ _ a e)),
      )

  -- A token that ValidateSession accepts is that of a session with an account: the session was not
  -- revoked, the account is not disabled, at the time of the check the session had neither
  -- expired nor been idle for more than half an hour, and the answer is about the account.
  pub validate_session-IsLive :
      (lib : AuthLibrary) (token : String) (w : World rate) (a : Session)
      → (validate_session lib token w).0 ≡ ok a
      → (s : AdminSession) × (u : AdminUser) × (select_session (lib.hash_token token) w.db
          ≡ some (s, u))
        × IsLive (w.clocks 1) s u
        × (a.admin_user_id ≡ u.id)
  unfolding validate_session
  validate_session-IsLive lib token w a e =
      let (row, found, e) = bind-eq-ok _ _ w a e in
      let (s, u, same, l, about) = check_session-IsLive lib (lib.hash_token token) row _ a e in
      (
        s,
        u,
        query-eq-ok _ w row found ∙ same,
        subst (λ v. IsLive (v.clocks 0) s u) (query-world _ w row found) l,
        about,
      )
