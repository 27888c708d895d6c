-- ===== src/Httpapi/Accounts.antt =====
-- internal/httpapi/project_handlers_accounts.go: the accounts of the dashboard, created and updated
-- by an owner. What HashPassword draws is an argument, `none` where the draw fails.
use Prim.Native.String.{len}
use mortris_server.Prelude.{
  ℕ, ◌+◌, String, Bool, true, false, not, ◌&&◌, ◌||◌, Option, none, some, List, [], ◌∷◌, ◌++◌,
  str_eq, ltb, ◌==◌, any, if◌then◌else◌,
}
use mortris_server.Prelude.Int.{ℤ, pos, eqb_ℤ}
use mortris_server.Failure.{Result, ok, err, other, new_error, reject_if, invalid_request}
use mortris_server.Contracts.Pattern.{codes}
use mortris_server.Ratelimit.{RateLibrary}
use mortris_server.Ingest.Db.{Db, AdminUser, AdminSession, account_created, account_updated}
use mortris_server.Ingest.Exec.{
  Exec, pure, lift, query, statement, execute, attempt, transaction, ◌>>=◌, ◌>>◌,
}
use mortris_server.Adminauth.{Session}
use mortris_server.Adminauth.Sessions.{AuthLibrary, or_empty, is_user, is_none}
use mortris_server.Httpapi.Guards.{
  HttpRequest, path_account, decode_request, require_owner, guard, audit,
}

pub record AccountCreateRequest : Type 0 where
  pub username : String
  pub password : String
  pub email : String

pub record AccountUpdateRequest : Type 0 where
  pub password : Option String
  pub disabled : Option Bool

-- Go's len counts bytes.
abbrev pub is_short : String → Bool
is_short password = ltb (len password) 8

abbrev pub has_space : String → Bool
has_space s = any (λ (c : ℕ). c == 32 || (c == 9 || c == 10)) (codes s)

abbrev pub has_value {ℓ} : {A : Type ℓ} → Option A → Bool
has_value none = false
has_value (some a) = true

-- The account answers to a login name.
abbrev pub answers_to : AuthLibrary → String → AdminUser → Bool
answers_to lib name u =
    str_eq (lib.lower (or_empty u.username)) (lib.lower name)
    || str_eq (lib.lower (or_empty u.email)) (lib.lower name)

-- SELECT EXISTS(...), on the new account's name and address.
unfoldable pub is_taken : AuthLibrary → String → String → List AdminUser → Bool
is_taken lib username email users =
    any (λ u. answers_to lib username u || not (str_eq email "") && answers_to lib email u) users

abbrev pub optional : String → Option String
optional s = if str_eq s "" then none else some s

unfoldable pub new_account : ℕ → String → String → String → AdminUser
new_account id username email hash = record {
  id = pos id;
  username = some username;
  email = optional email;
  password_hash = hash;
  role = "member";
  disabled = false;
}

-- The unique index on lower(username) and the unique column email.
unfoldable pub collides : AuthLibrary → String → String → AdminUser → Bool
collides lib username email u =
    has_value u.username && str_eq (lib.lower (or_empty u.username)) (lib.lower username)
    || not (str_eq email "") && str_eq (or_empty u.email) email

-- INSERT INTO admin_users ... RETURNING id
unfoldable pub insert_account : AuthLibrary → String → String → String → ℤ → Db → Result (ℤ × Db)
insert_account lib username email hash t db =
    if any (collides lib username email) db.admin_users
    then err other
    else ok (
      pos db.next_account_id,
      record db {
        admin_users = db.admin_users ++ (new_account db.next_account_id username email hash ∷ []);
        next_account_id = db.next_account_id + 1;
      },
    )

-- HashPassword
unfoldable pub hash_drawn : AuthLibrary → Option (List ℕ) → String → Result String
hash_drawn lib none password = err other
hash_drawn lib (some salt) password = ok (lib.hash_password salt password)

-- accountPasswordHash
unfoldable pub account_password_hash :
    AuthLibrary → Option (List ℕ) → Option String → Result (Option String)
account_password_hash lib drawn none = ok none
account_password_hash lib drawn (some password) =
    if is_short password
    then err (new_error 400 invalid_request)
    else elim (hash_drawn lib drawn password) [ ok hash ↦ ok (some hash) | err e ↦ err e ]

abbrev pub coalesce {ℓ} : {A : Type ℓ} → Option A → A → A
coalesce none a = a
coalesce (some b) a = b

abbrev pub set_user : ℤ → (AdminUser → AdminUser) → AdminUser → AdminUser
set_user id f u = if is_user id u then f u else u

-- UPDATE admin_users SET ... WHERE id = $1
unfoldable pub update_users : ℤ → (AdminUser → AdminUser) → List AdminUser → List AdminUser
update_users id f [] = []
update_users id f (u ∷ us) = set_user id f u ∷ update_users id f us

abbrev pub changed_user : Option String → Option Bool → AdminUser → AdminUser
changed_user hash disabled u = record u {
  password_hash = coalesce hash u.password_hash;
  disabled = coalesce disabled u.disabled;
}

-- The statement, with whether it affected a row.
abbrev pub update_account_row : ℤ → Option String → Option Bool → ℤ → Db → Result (Bool × Db)
update_account_row id hash disabled t db = ok (
  any (is_user id) db.admin_users,
  record db { admin_users = update_users id (changed_user hash disabled) db.admin_users },
)

abbrev pub revoke_of : ℤ → ℤ → AdminSession → AdminSession
revoke_of id t s =
    if eqb_ℤ s.admin_user_id id && is_none s.revoked_at then record s { revoked_at = some t } else s

-- UPDATE admin_sessions SET revoked_at ... WHERE admin_user_id = $1 AND revoked_at IS NULL
unfoldable pub revoke_sessions_of : ℤ → ℤ → List AdminSession → List AdminSession
revoke_sessions_of id t [] = []
revoke_sessions_of id t (s ∷ ss) = revoke_of id t s ∷ revoke_sessions_of id t ss

abbrev pub is_true : Option Bool → Bool
is_true (some b) = b
is_true none = false

module _ {rate : RateLibrary} (lib : AuthLibrary) where
  -- createNamedAccount
  unfoldable pub create_named_account :
      Option (List ℕ) → (username password email : String) → Exec rate ℤ
  create_named_account drawn username password email = do
    lift (
        reject_if
          (str_eq (lib.trim_space username) ""
            || ltb 80 (len (lib.trim_space username))
            || has_space (lib.trim_space username)
            || is_short password)
          (new_error 400 invalid_request))
    hash ← lift (hash_drawn lib drawn password)
    taken ←
        query (λ db. is_taken lib (lib.trim_space username) (lib.trim_space email) db.admin_users)
    lift (reject_if taken (new_error 400 invalid_request))
    statement (insert_account lib (lib.trim_space username) (lib.trim_space email) hash)

  -- createAccount
  unfoldable pub create_account : ℤ → Option (List ℕ) → AccountCreateRequest → Exec rate ℤ
  create_account owner drawn req = transaction (do
    id ← create_named_account drawn req.username req.password req.email
    audit (account_created owner id)
    pure id)

  abbrev pub revoke_for : Bool → ℤ → Exec rate (Unit {0})
  revoke_for true id =
      execute λ t db. record db { admin_sessions = revoke_sessions_of id t db.admin_sessions }
  revoke_for false id = pure tt

  -- updateAccount
  unfoldable pub update_account :
      ℤ → ℤ → Option (List ℕ) → AccountUpdateRequest → Exec rate (Unit {0})
  update_account owner id drawn req = do
    lift (
        reject_if (not (has_value req.password) && not (has_value req.disabled))
          (new_error 400 invalid_request))
    hash ← lift (account_password_hash lib drawn req.password)
    updated ← statement (update_account_row id hash req.disabled)
    lift (reject_if (not updated) (new_error 404 invalid_request))
    attempt (revoke_for (has_value req.password || is_true req.disabled) id)
    attempt (audit (account_updated owner id))
    pure tt

  -- handleAccountCreate
  unfoldable pub handle_account_create :
      Session → Option (List ℕ) → HttpRequest AccountCreateRequest → Exec rate ℤ
  handle_account_create sess drawn http = do
    lift (guard (require_owner sess) http)
    req ← lift (decode_request http.body)
    create_account sess.admin_user_id drawn req

  -- handleAccountUpdate
  unfoldable pub handle_account_update :
      Session → Option ℤ → Option (List ℕ) → HttpRequest AccountUpdateRequest → Exec rate (Unit {0})
  handle_account_update sess account drawn http = do
    lift (guard (require_owner sess) http)
    id ← lift (path_account account)
    req ← lift (decode_request http.body)
    update_account sess.admin_user_id id drawn req
