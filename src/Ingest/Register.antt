-- ===== src/Ingest/Register.antt =====
-- (*Service).Register: internal/ingest/register.go and register_helpers.go.
use mortris_server.Prelude.{
  ℕ, ◌+◌, ◌*◌, String, not, ◌&&◌, Option, none, some, List, [], ◌∷◌, ltb, ◌==◌, str_eq, any,
  if◌then◌else◌,
}
use mortris_server.Prelude.Int.{ℤ}
use mortris_server.Failure.{
  Result, ok, err, other, new_error, with_retry_after, invalid_request, install_conflict,
  rate_limited, reject_if,
}
use mortris_server.Contracts.Types.{RegisterRequest, RegisterResponse}
use mortris_server.Contracts.Library.{Library}
use mortris_server.Ratelimit.{RateLibrary}
use mortris_server.Ingest.Db.{
  Db, Project, Installation, RegistrationCount, is_installation, select_project,
  select_installation,
}
use mortris_server.Ingest.Admit.{admit_registration}
use mortris_server.Ingest.Authorize.{same_bytes}
use mortris_server.Ingest.Stats.{day_of}
use mortris_server.Ingest.Policy.{match_policy_audited}
use mortris_server.Ingest.Exec.{Exec, pure, lift, query, statement, transaction, now, ◌>>=◌, ◌>>◌}

abbrev enabled_project : Option Project → Result String
enabled_project none = err (new_error 400 invalid_request)
enabled_project (some p) =
    if p.enabled then ok p.environment else err (new_error 400 invalid_request)

-- registrationEnvironment
unfoldable pub registration_environment : {rate : RateLibrary} → String → Exec rate String
registration_environment project = do p ← query (select_project project); lift (enabled_project p)

-- The row of the counter after ON CONFLICT (project_id, day) DO UPDATE SET count = count + 1, and
-- the count that it returns.
unfoldable pub count_registration : String → ℕ → List RegistrationCount → ℕ × List RegistrationCount
count_registration project day [] = (1, record { project_id = project; day = day; count = 1 } ∷ [])
count_registration project day (c ∷ cs) =
    let (n, rest) = count_registration project day cs in
    if str_eq c.project_id project && c.day == day
    then (c.count + 1, record c { count = c.count + 1 } ∷ cs)
    else (n, c ∷ rest)

unfoldable pub bump_counter : String → ℤ → Db → ℕ × Db
bump_counter project t db =
    let (n, counts) = count_registration project (day_of t) db.registrations in
    (n, record db { registrations = counts })

unfoldable pub new_installation : RegisterRequest → List ℕ → ℤ → Installation
new_installation req hash t = record {
  project_id = req.project_id;
  install_id = req.install_id;
  credential_hash = hash;
  registered_at = t;
  activated_at = none;
  first_product_event_at = none;
  last_seen_at = none;
  last_app_version = req.app_version;
  last_build_number = req.build_number;
  last_sdk_version = req.sdk_version;
}

-- INSERT INTO installations: the key must be new and the project there.
unfoldable pub add_installation : Installation → Db → Result (Unit {0} × Db)
add_installation i db =
    if any (is_installation i.project_id i.install_id) db.installations
    then err other
    else ok (tt, record db { installations = i ∷ db.installations })

abbrev bytes_or_empty : Option (List ℕ) → List ℕ
bytes_or_empty none = []
bytes_or_empty (some b) = b

module _ {rate : RateLibrary} where
  unfoldable pub get_cap : Exec rate ℕ
  get_cap w = (ok w.daily_registration_cap, w)

  -- (*Service).insertInstallation
  unfoldable pub insert_installation : RegisterRequest → List ℕ → Exec rate (Unit {0})
  unfolding get_cap
  insert_installation req hash = do
    count ← statement (λ t db. ok (bump_counter req.project_id t db))
    cap ← get_cap
    lift (reject_if (ltb cap count) (with_retry_after 429 rate_limited (60 * 60)))
    statement (λ t db. add_installation (new_installation req hash t) db)

  unfoldable pub create_or_verify :
      RegisterRequest → List ℕ → Option Installation → Exec rate (Unit {0})
  create_or_verify req hash none = insert_installation req hash
  create_or_verify req hash (some i) =
      lift (reject_if (not (same_bytes i.credential_hash hash)) (new_error 409 install_conflict))

  -- (*Service).createOrVerifyInstallation
  unfoldable pub create_or_verify_installation : Library → RegisterRequest → Exec rate (Unit {0})
  create_or_verify_installation lib req = do
    existing ← query (select_installation req.project_id req.install_id)
    create_or_verify req
        (lib.sha256 (bytes_or_empty (lib.decode_base64 req.installation_credential))) existing

  -- The transaction of Register.
  unfoldable pub register_body : Library → RegisterRequest → Exec rate String
  register_body lib req = do
    environment ← registration_environment req.project_id
    create_or_verify_installation lib req
    pure environment

  -- (*Service).Register
  unfoldable pub register : Library → RegisterRequest → String → Exec rate RegisterResponse
  register lib req source_ip = do
    admit_registration lib req source_ip
    environment ← transaction (register_body lib req)
    policy ← match_policy_audited req.install_id (record {
      project_id = req.project_id;
      environment = environment;
      app_version = req.app_version;
      build_number = req.build_number;
      sdk_version = req.sdk_version;
    })
    server_time ← now
    pure (record {
      server_time = server_time;
      installation_status = "registered";
      client_policy = policy;
    })
