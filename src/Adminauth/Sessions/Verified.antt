-- ===== src/Adminauth/Sessions/Verified.antt =====
-- What Login has found out when it opens a session.
use mortris_server.Prelude.{
  ◌≡◌, refl, sym, ap, ◌∙◌, String, Bool, true, false, not, Option, none, some, if◌then◌else◌,
}
use mortris_server.Failure.{Result, ok}
use mortris_server.Ratelimit.{RateLibrary}
use mortris_server.Ingest.Db.{AdminUser}
use mortris_server.Ingest.Exec.{World, pure, fail, query}
use mortris_server.Ingest.Exec.Atomic.{bind-eq-ok, query-eq-ok}
use mortris_server.Adminauth.{new_session}
use mortris_server.Adminauth.Sessions.{
  AuthLibrary, LoginResult, login_admitted, check_login, refuse_login, open_session, select_login,
}

ok_eq : {a b : LoginResult} → ◌≡◌ {A = Result LoginResult} (ok a) (ok b) → a ≡ b
ok_eq e = cc

module _ {rate : RateLibrary} (lib : AuthLibrary) where
  refuse_login-err :
      (identifier reason : String) (w : World rate) (r : LoginResult)
      → (refuse_login lib identifier reason w).0 ≡ ok r
      → ⊥
  unfolding fail
  refuse_login-err identifier reason w r e = let (_, _, e) = bind-eq-ok _ _ w r e in cc

  open_session-eq-ok :
      (u : AdminUser) (identifier token csrf : String) (w : World rate) (r : LoginResult)
      → (open_session lib u identifier token csrf w).0 ≡ ok r
      → (r.session.admin_user_id ≡ u.id) × (r.session_token ≡ token)
  unfolding open_session pure new_session
  open_session-eq-ok u identifier token csrf w r e =
      let (session, loaded, e) = bind-eq-ok _ _ w r e in
      let (_, _, e) = bind-eq-ok _ _ _ r e in
      let (_, _, e) = bind-eq-ok _ _ _ r e in
      let (_, _, e) = bind-eq-ok _ _ _ r e in
      let same = ok_eq e in
      (
        ap (λ r. r.session.admin_user_id) (sym same)
            ∙ ap (λ s. s.admin_user_id) (sym (query-eq-ok _ w session loaded)),
        ap (λ r. r.session_token) (sym same),
      )

  -- A login that succeeds is for the first account with the identifier: the account is not
  -- disabled, the password verifies against its stored hash, and the answer has the drawn token and a session
  -- of the account.
  pub login_admitted-verified :
      (identifier password token csrf : String) (w : World rate) (r : LoginResult)
      → (login_admitted lib identifier password token csrf w).0 ≡ ok r
      → (u : AdminUser) × (select_login lib identifier w.db ≡ some u)
        × (u.disabled ≡ false)
        × (lib.verify_password u.password_hash password ≡ true)
        × (r.session.admin_user_id ≡ u.id)
        × (r.session_token ≡ token)
  unfolding login_admitted
  login_admitted-verified identifier password token csrf w r e =
      let (found, q, e) = bind-eq-ok _ _ w r e in
      let (u, same, enabled, right, about, drawn) =
        checked found (query (select_login lib identifier) w).1 e in
      (u, query-eq-ok _ w found q ∙ same, enabled, right, about, drawn)
    where
      checked :
          (found : Option AdminUser) (v : World rate)
          → (check_login lib found identifier password token csrf v).0 ≡ ok r
          → (u : AdminUser) × (found ≡ some u)
            × (u.disabled ≡ false)
            × (lib.verify_password u.password_hash password ≡ true)
            × (r.session.admin_user_id ≡ u.id)
            × (r.session_token ≡ token)
      checked none v e = absurd (refuse_login-err identifier "no such user" v r e)
      checked (some u) v e =
          go u.disabled (lib.verify_password u.password_hash password) refl refl e
        where
          go :
              (disabled right : Bool)
              → u.disabled ≡ disabled
              → lib.verify_password u.password_hash password ≡ right
              → ((if disabled
                    then refuse_login lib identifier "account disabled"
                    else if not right
                    then refuse_login lib identifier "wrong password"
                    else open_session lib u identifier token csrf)
                  v).0
                ≡ ok r
              → (u' : AdminUser) × (some u ≡ some u')
                × (u'.disabled ≡ false)
                × (lib.verify_password u'.password_hash password ≡ true)
                × (r.session.admin_user_id ≡ u'.id)
                × (r.session_token ≡ token)
          go true right d p e = absurd (refuse_login-err identifier "account disabled" v r e)
          go false false d p e = absurd (refuse_login-err identifier "wrong password" v r e)
          go false true d p e =
              let (about, drawn) = open_session-eq-ok u identifier token csrf v r e in
              (u, refl, d, p, about, drawn)
