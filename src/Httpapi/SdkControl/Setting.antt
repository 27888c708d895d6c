-- ===== src/Httpapi/SdkControl/Setting.antt =====
-- The scenario that an owner sets is the one that the test project's requests are given.
use mortris_server.Prelude.{
  ◌≡◌, refl, ap, ◌∙◌, ℕ, String, Bool, true, false, not, ◌&&◌, ◌||◌, Option, some, List, [], ◌∷◌,
  any, find, str_eq, arith, if◌then◌else◌,
}
use mortris_server.Failure.{Result, ok, reject_if, new_error, invalid_request}
use mortris_server.Ratelimit.{RateLibrary}
use mortris_server.Ingest.Db.{Db, Project, AuditEntry, sdk_test_scenario_updated}
use mortris_server.Ingest.Exec.{World, statement, attempt}
use mortris_server.Ingest.Exec.Runs.{
  IsCalm, Runs, Runs-pure, Runs-lift, Runs-statement, Runs-execute, Runs-bind, Runs-attempt,
  Runs-query, Runs-given, Runs-map,
}
use mortris_server.Ingest.Authorize.{same_bytes}
use mortris_server.Sdktest.{no_scenario, Controller, known_scenario, scenario}
use mortris_server.Adminauth.{Session}
use mortris_server.Adminauth.Sessions.{AuthLibrary}
use mortris_server.Httpapi.Guards.{
  HttpRequest, decoded, decode_request, require_owner, guard, audit,
}
use mortris_server.Httpapi.Projects.{update_projects}
use mortris_server.Httpapi.SdkControl.{
  is_known, is_test_project, with_scenario, set_scenario, chosen, granted, handle_sdk_test_control,
  sdk_test_scenario,
}

find-any :
    (q : Project → Bool) (ps : List Project) (p : Project) → find q ps ≡ some p → any q ps ≡ true
find-any q [] p e = absurd (cc)
find-any q (x ∷ xs) p e = ground (arith, find-any q xs p)

find-update_projects :
    (project s : String) (ps : List Project) (p : Project)
    → find (is_test_project project) ps ≡ some p
    → find
        (is_test_project project)
        (update_projects (is_test_project project) (with_scenario s) ps)
      ≡ some (with_scenario s p)
unfolding update_projects
find-update_projects project s [] p e = absurd (cc)
find-update_projects project s (x ∷ xs) p e =
    go (is_test_project project x) refl e (find-update_projects project s xs p)
  where
    go :
        (b : Bool)
        → is_test_project project x ≡ b
        → (if b then some x else find (is_test_project project) xs) ≡ some p
        → (find (is_test_project project) xs ≡ some p
            → find
                (is_test_project project)
                (update_projects (is_test_project project) (with_scenario s) xs)
              ≡ some (with_scenario s p))
        → find (is_test_project project) (
            (if b then with_scenario s x else x)
            ∷ update_projects (is_test_project project) (with_scenario s) xs)
          ≡ some (with_scenario s p)
    go true q e rest = rw q (ap (λ x. some (with_scenario s x)) (same e))
      where
        same : ◌≡◌ {A = Option Project} (some x) (some p) → x ≡ p
        same e = cc
    go false q e rest = rw q (rest e)

-- The test project carries the scenario.
abbrev Carries : String → String → Project → Db → Type 0
Carries project s p db = find (is_test_project project) db.projects ≡ some (with_scenario s p)

audit-Runs :
    {rate : RateLibrary} (P : Db → Type 0) (entry : AuditEntry)
    → ((db : Db) (log : List AuditEntry) → P db → P (record db { audit_log = log }))
    → Runs {rate = rate} P (audit entry) (λ _ db. P db)
unfolding audit
audit-Runs P entry k = Runs-execute P P _ λ t db h. k db _ h

module _ {rate : RateLibrary} (lib : AuthLibrary) (legacy : Option Controller)
    (token header project s : String) (p : Project) (x : ℕ) (xs : List ℕ) where
  control-Runs :
      (sess : Session) (http : HttpRequest String)
      → guard (require_owner sess) http ≡ ok tt
      → http.body ≡ decoded s
      → (str_eq s "" || is_known (known_scenario s)) ≡ true
      → Runs {rate = rate}
          (λ db. find (is_test_project project) db.projects ≡ some p)
          (handle_sdk_test_control sess project http)
          (λ _ db. Carries project s p db)
  unfolding handle_sdk_test_control decode_request set_scenario
  control-Runs sess http passed body known =
      Runs-bind P (λ _. P) _ _ _ (Runs-lift _ _ _ tt passed λ db h. h)
        λ _.
          Runs-bind P (λ r db. (r ≡ s) × P db) _ _ _
            (Runs-lift _ _ _ s (decodes body) λ db h. (refl, h))
            λ r.
              Runs-given (r ≡ s) _ _ _ (λ db h. h.0)
                λ same.
                  Runs-bind _ (λ _. P) _ _ _ (Runs-lift _ _ _ tt (allowed r same) λ db h. h.1)
                    λ _.
                      Runs-bind P (λ b db. (b ≡ true) × Carries project s p db) _ _ _ (sets r same)
                        λ b.
                          Runs-given (b ≡ true) _ _ _ (λ db h. h.0)
                            λ changed.
                              Runs-bind _ (λ _ db. Carries project s p db) _ _ _
                                (Runs-lift _ _ _ tt (kept b changed) λ db h. h.1)
                                λ _.
                                  Runs-bind (Carries project s p) (λ _ db. Carries project s p db) _
                                    _ _ (logs r) λ _. Runs-pure _ _ tt λ db h. h
    where
      P : Db → Type 0
      P db = find (is_test_project project) db.projects ≡ some p

      decodes : http.body ≡ decoded s → decode_request http.body ≡ ok s
      decodes e = rw e refl

      allowed :
          (r : String)
          → r ≡ s
          → reject_if
              (not (str_eq r "") && not (is_known (known_scenario r)))
              (new_error 400 invalid_request)
            ≡ ok tt
      allowed r same = rw same (ground arith)

      kept : (b : Bool) → b ≡ true → reject_if (not b) (new_error 400 invalid_request) ≡ ok tt
      kept b e = rw e refl

      sets :
          (r : String)
          → r ≡ s
          → Runs {rate = rate} P
              (statement (set_scenario project r))
              (λ b db. (b ≡ true) × Carries project s p db)
      sets r same = Runs-statement _ _ _ λ t db h. (
        true,
        record db {
          projects = update_projects (is_test_project project) (with_scenario r) db.projects;
        },
        rw (find-any (is_test_project project) db.projects p h) refl,
        (refl, rw same (find-update_projects project s db.projects p h)),
      )

      logs :
          (r : String)
          → Runs {rate = rate}
              (Carries project s p)
              (attempt (audit (sdk_test_scenario_updated sess.admin_user_id project r)))
              (λ _ db. Carries project s p db)
      logs r =
          Runs-map _ _ _ _ (λ a db h. h.2)
            (Runs-attempt _ _ _ (audit-Runs (Carries project s p) _ λ db log h. h))

  scenario-Runs :
      p.sdk_test_token_hash ≡ some (x ∷ xs)
      → Runs {rate = rate}
          (Carries project s p)
          (sdk_test_scenario lib legacy token header project)
          (λ a _. a ≡ granted lib token (x ∷ xs) s)
  unfolding sdk_test_scenario
  scenario-Runs hash =
      Runs-bind _
        (λ r db.
          chosen lib token (scenario legacy token header project) r ≡ granted lib token (x ∷ xs) s)
        _ _ _ (Runs-map _ _ _ _ (λ r db h. choice r db h) (Runs-attempt _ _ _ (Runs-query _ _)))
        λ r. Runs-pure _ _ _ λ db h. h
    where
      choice :
          (r : Result (Option Project)) (db : Db)
          → (a : Option Project) × (r ≡ ok a)
            × ((a ≡ find (is_test_project project) db.projects) × Carries project s p db)
          → chosen lib token (scenario legacy token header project) r ≡ granted lib token (x ∷ xs) s
      choice r db (a, e, (f, carried)) = rw (e, f, carried, hash) refl

  -- Where no statement fails, an owner's request with its CSRF token that sets a known scenario, or
  -- none, for a test project succeeds. Each request to this project then gets the scenario exactly
  -- if its token hashes to the stored hash, and none otherwise, whatever the legacy controller says.
  pub sdk_test_scenario-control :
      (sess : Session) (http : HttpRequest String) (w : World rate)
      → IsCalm w
      → guard (require_owner sess) http ≡ ok tt
      → http.body ≡ decoded s
      → (str_eq s "" || is_known (known_scenario s)) ≡ true
      → find (is_test_project project) w.db.projects ≡ some p
      → p.sdk_test_token_hash ≡ some (x ∷ xs)
      → let (r, w') = handle_sdk_test_control sess project http w in
        (r ≡ ok tt)
        × ((sdk_test_scenario lib legacy token header project w').0
            ≡ ok (
                if same_bytes (lib.hash_token token) (x ∷ xs)
                then known_scenario s
                else no_scenario))
  sdk_test_scenario-control sess http w calm passed body known found hash =
      let set = (control-Runs sess http passed body known).at w calm found in
      let asked = (scenario-Runs hash).at _ set.calm set.post in
      (set.succeeds, asked.succeeds ∙ ap ok asked.post)
