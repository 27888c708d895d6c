-- ===== src/Ingest/Guard.antt =====
-- Nothing is written for a batch that is not admitted and authorized.
use mortris_server.Prelude.{
  ℕ, ◌≡◌, refl, ◌∙◌, sym, ap, String, Bool, true, false, ◌⊎◌, inl, inr, Option, none, some, List,
  length, arith, Option-cases, ◌*◌,
}
use mortris_server.Prelude.Int.{ℤ}
use mathlib.Core.Path.{subst}
use mortris_server.Failure.{Failure, Result, ok, with_retry_after, server_storage_pressure}
use mortris_server.Contracts.Types.{RegisterRequest, BatchIngestRequest, RejectedEvent}
use mortris_server.Contracts.Library.{Library}
use mortris_server.Contracts.Validate.{validate_batch}
use mortris_server.Contracts.Validate.Batches.{IsBatch, validate_batch-IsBatch}
use mortris_server.Ratelimit.{RateLibrary, Limiter, allow}
use mortris_server.Ingest.Db.{Db, Installation, Project}
use mortris_server.Ingest.Admit.{
  is_rejecting, as_bad_request, get_disk, fail_if, ask, require_allowed, require_ingest_ip,
  require_ingest_install, admit_batch, admit_registration,
}
use mortris_server.Ingest.Authorize.{
  same_bytes-eq, batch_credential_hash, select_credentials, check_credentials, authorize_batch,
}
use mortris_server.Ingest.Batch.{batch}
use mortris_server.Ingest.Exec.{World, lift, query}
use mortris_server.Ingest.Exec.Keeps.{Keeps, keeps_rules, Keeps-bind, Keeps-lift}
use mortris_server.Ingest.Exec.Atomic.{Result-cases, bind-ok, bind-err, bind-eq-ok, query-eq-ok}

module _ {rate : RateLibrary} {P : Db → Type 0} where
  ask-Keeps :
      (get : World rate → Limiter rate) (put : Limiter rate → World rate → World rate)
      (key : String)
      → ((l : Limiter rate) (w : World rate) → (put l w).db ≡ w.db)
      → (t : ℤ) → Keeps P (ask get put key t)
  unfolding ask
  ask-Keeps get put key same t = record { at = λ w h. rw (same (allow rate (get w) t key).1 w) h }

  require_allowed-Keeps :
      (get : World rate → Limiter rate) (put : Limiter rate → World rate → World rate)
      (key : String) (refusal : Failure)
      → ((l : Limiter rate) (w : World rate) → (put l w).db ≡ w.db)
      → Keeps P (require_allowed get put key refusal)
  unfolding require_allowed
  require_allowed-Keeps get put key refusal same = search (keeps_rules, ask-Keeps get put key same)

  get_disk-Keeps : Keeps {rate = rate} P get_disk
  unfolding get_disk
  get_disk-Keeps = record { at = λ w h. h }

  fail_if-Keeps : (b : Bool) (e : Failure) → Keeps {rate = rate} P (fail_if b e)
  unfolding fail_if
  fail_if-Keeps b e = search keeps_rules

  pub require_ingest_ip-Keeps : (ip : String) → Keeps {rate = rate} P (require_ingest_ip ip)
  unfolding require_ingest_ip
  require_ingest_ip-Keeps ip = require_allowed-Keeps _ _ ip _ (λ l w. refl)

  pub require_ingest_install-Keeps :
      (project install : String) → Keeps {rate = rate} P (require_ingest_install project install)
  unfolding require_ingest_install
  require_ingest_install-Keeps project install = require_allowed-Keeps _ _ _ _ (λ l w. refl)

  pub admit_batch-Keeps :
      (req : BatchIngestRequest) (ip : String) → Keeps {rate = rate} P (admit_batch req ip)
  unfolding admit_batch
  admit_batch-Keeps req ip = Keeps-bind _ _ get_disk-Keeps λ disk.
      Keeps-bind _ _ (fail_if-Keeps _ _) λ _. Keeps-bind _ _ (require_ingest_ip-Keeps ip) λ _.
        Keeps-bind _ _ (Keeps-lift _) λ _.
          Keeps-bind _ _ (require_allowed-Keeps _ _ req.project_id _ (λ l w. refl))
            λ _. require_ingest_install-Keeps req.project_id req.install_id

  pub admit_registration-Keeps :
      (lib : Library) (req : RegisterRequest) (ip : String)
      → Keeps {rate = rate} P (admit_registration lib req ip)
  unfolding admit_registration
  admit_registration-Keeps lib req ip =
      Keeps-bind _ _ (require_allowed-Keeps _ _ ip _ (λ l w. refl)) λ _.
        Keeps-bind _ _ (Keeps-lift _) λ _. require_allowed-Keeps _ _ req.project_id _ (λ l w. refl)

  pub authorize_batch-Keeps :
      (lib : Library) (project install token : String)
      → Keeps {rate = rate} P (authorize_batch lib project install token)
  unfolding authorize_batch
  authorize_batch-Keeps lib project install token = search keeps_rules

-- The bearer token is the credential of the installation, whose project is enabled.
pub record Authorized (lib : Library) (db : Db) (project install token : String) : Type 0 where
  pub installation : Installation
  pub of_project : Project
  pub found : select_credentials project install db ≡ some (installation, of_project)
  pub enabled : of_project.enabled ≡ true
  pub credential : List ℕ
  pub decoded : lib.decode_base64 token ≡ some credential
  pub size : length credential ≡ 32
  pub matches : installation.credential_hash ≡ lib.sha256 credential

credential_hash-eq-ok :
    (lib : Library) (token : String) (hash : List ℕ)
    → batch_credential_hash lib token ≡ ok hash
    → (c : List ℕ) × (lib.decode_base64 token ≡ some c) × (length c ≡ 32) × (lib.sha256 c ≡ hash)
unfolding batch_credential_hash
credential_hash-eq-ok lib token hash h = elim (Option-cases (lib.decode_base64 token)) [
  | inl e ↦ absurd (ground arith)
  | inr (c, e) ↦ (c, e, ground arith, ground arith)
]

check_credentials-eq-ok :
    (hash : List ℕ) (row : Option (Installation × Project)) (g : String × Bool)
    → check_credentials hash row ≡ ok g
    → (i : Installation) × (p : Project) × (row ≡ some (i, p))
      × (p.enabled ≡ true)
      × (i.credential_hash ≡ hash)
unfolding check_credentials
check_credentials-eq-ok hash none g h = absurd (ground arith)
check_credentials-eq-ok hash (some (i, p)) g h =
    (i, p, refl, ground arith, ground (arith, same_bytes-eq i.credential_hash hash))

as_bad_request-eq-ok : (r : Result (Unit {0})) (x : Unit {0}) → as_bad_request r ≡ ok x → r ≡ ok tt
as_bad_request-eq-ok r x h = ground arith

module _ {rate : RateLibrary} (lib : Library) where
  pub authorize_batch-Authorized :
      (project install token : String) (w : World rate) (g : String × Bool)
      → (authorize_batch lib project install token w).0 ≡ ok g
      → Authorized lib w.db project install token
  unfolding authorize_batch lift
  authorize_batch-Authorized project install token w g h =
      let (hash, p, h₁) = bind-eq-ok (lift (batch_credential_hash lib token)) _ w g h in
      let (row, q, h₂) = bind-eq-ok (query (select_credentials project install)) _ w g h₁ in
      let (c, decoded, size, hashed) = credential_hash-eq-ok lib token hash p in
      let (i, pr, found, enabled, same) = check_credentials-eq-ok hash row g h₂ in
      record {
        installation = i;
        of_project = pr;
        found = query-eq-ok (select_credentials project install) w row q ∙ found;
        enabled = enabled;
        credential = c;
        decoded = decoded;
        size = size;
        matches = same ∙ sym hashed;
      }

module _ {rate : RateLibrary} where
  fail_if-eq-ok :
      (b : Bool) (e : Failure) (w : World rate) (x : Unit {0})
      → (fail_if b e w).0 ≡ ok x
      → b ≡ false
  unfolding fail_if lift
  fail_if-eq-ok b e w x h = ground arith

  admit_batch-eq-ok :
      (req : BatchIngestRequest) (ip : String) (w : World rate) (x : Unit {0})
      → (admit_batch req ip w).0 ≡ ok x
      → (is_rejecting w.disk ≡ false) × (validate_batch req ≡ ok tt)
  unfolding admit_batch get_disk lift
  admit_batch-eq-ok req ip w x h =
      let (disk, p, h₁) = bind-eq-ok get_disk _ w x h in
      let (_, q, h₂) =
        bind-eq-ok
          (fail_if (is_rejecting disk) (with_retry_after 503 server_storage_pressure (5 * 60))) _ w
          x h₁ in
      let (_, r, h₃) = bind-eq-ok (require_ingest_ip ip) _ _ x h₂ in
      let (_, s, h₄) = bind-eq-ok (lift (as_bad_request (validate_batch req))) _ _ x h₃ in
      (
        cc (p, fail_if-eq-ok (is_rejecting disk) _ w _ q),
        as_bad_request-eq-ok (validate_batch req) _ s,
      )

module _ {rate : RateLibrary} (lib : Library) where
  -- Whatever a call of Batch comes to, the database is as it was, or the disk was not rejecting,
  -- the envelope valid, and the bearer token the 32-byte credential of the installation, with the
  -- project enabled.
  pub batch_guarded :
      (req : BatchIngestRequest) (decoded : List RejectedEvent) (token ip : String) (w : World rate)
      → ((batch lib req decoded token ip w).1.db ≡ w.db)
        ⊎ ((is_rejecting w.disk ≡ false)
            × IsBatch req
            × Authorized lib w.db req.project_id req.install_id token)
  unfolding batch
  batch_guarded req decoded token ip w = elim (Result-cases (admit_batch req ip w).0) [
    | inr (e, h) ↦ inl (ap (λ r. r.1.db) (bind-err (admit_batch req ip) _ w e h) ∙ admitted)
    | inl (x, h) ↦
        elim (Result-cases
          (authorize_batch lib req.project_id req.install_id token (admit_batch req ip w).1).0) [
            | inr (e, k) ↦ inl (
                ap (λ r. r.1.db) (bind-ok (admit_batch req ip) _ w x h)
                ∙ ap (λ r. r.1.db)
                    (bind-err (authorize_batch lib req.project_id req.install_id token) _
                      (admit_batch req ip w).1 e k)
                ∙ unauthorized_keeps)
            | inl (g, k) ↦
                let (disk, valid) = admit_batch-eq-ok req ip w x h in
                inr (
                  disk,
                  validate_batch-IsBatch req valid,
                  subst (λ db. Authorized lib db req.project_id req.install_id token) admitted
                      (authorize_batch-Authorized lib req.project_id req.install_id token
                        (admit_batch req ip w).1 g k),
                )
          ]
  ]
    where
      admitted : (admit_batch req ip w).1.db ≡ w.db
      admitted = (admit_batch-Keeps {P = λ db. db ≡ w.db} req ip).at w refl

      unauthorized_keeps :
          (authorize_batch lib req.project_id req.install_id token (admit_batch req ip w).1).1.db
          ≡ w.db
      unauthorized_keeps =
          (authorize_batch-Keeps {P = λ db. db ≡ w.db} lib req.project_id req.install_id token).at
            (admit_batch req ip w).1 admitted
