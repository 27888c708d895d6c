-- ===== src/Ingest/Rows/Kept.antt =====
-- Every handler keeps the tables' invariant, whatever fails on the way.
use mortris_server.Prelude.{
  ℕ, ◌≡◌, refl, String, Bool, true, false, Option, none, some, List, [], ◌∷◌, All, get_last?,
}
use mathlib.Core.Path.{subst}
use mortris_server.Prelude.Int.{ℤ}
use mortris_server.Failure.{Code, Result, ok}
use mortris_server.Contracts.Types.{
  Event, RejectedEvent, BatchIngestRequest, RegisterRequest, PolicyRequest,
}
use mortris_server.Contracts.Library.{Library}
use mortris_server.Ratelimit.{RateLibrary}
use mortris_server.Ingest.Db.{Db, Kind, product, system, Installation, EventRow, PolicyRule}
use mortris_server.Ingest.Exec.Keeps.{
  Keeps, Keeps-bind, Keeps-lift, Keeps-pure, Keeps-if, Keeps-execute, Keeps-statement, Keeps-query,
  Keeps-now, Keeps-transaction,
}
use mortris_server.Ingest.Exec.Yields.{Keeps-bind-Yields}
use mortris_server.Ingest.Guard.{
  admit_batch-Keeps, admit_registration-Keeps, authorize_batch-Keeps, require_ingest_ip-Keeps,
  require_ingest_install-Keeps,
}
use mortris_server.Ingest.Prepare.{PreparedEvent}
use mortris_server.Ingest.Persist.{
  PersistedEvents, update_batch_installation, touch, event_row, insert_prepared_event,
  track_product_event, see_product, persist_up_to, record_insertion, persist_prepared_events,
  activate, activate_installation, persist_body, persist_batch,
}
use mortris_server.Ingest.Rows.{IsUpdate, Over, statement-eq-ok, RowInvariant}
use mortris_server.Ingest.Rows.Prepared.{IsPrepared, prepare_batch-Yields, prepare_batch-Keeps}
use mortris_server.Ingest.Stats.{
  insert_stats, record_batch_stats, insert_occurrences, upsert_rejections, record_rejection_stats,
  upsert_drifts, record_drift_stats, Builds,
}
use mortris_server.Ingest.Policy.{match_policy_audited, match_policy_row, Target, audited}
use mortris_server.Ingest.Batch.{batch, batch_authorized}
use mortris_server.Ingest.Register.{
  insert_installation, create_or_verify, create_or_verify_installation, register_body, register,
  registration_environment, bump_counter, get_cap,
}
use mortris_server.Ingest.Probe.{policy}

pub touch-IsUpdate : (req : BatchIngestRequest) (last : Event) (t : ℤ) → IsUpdate (touch req last t)
unfolding touch
touch-IsUpdate req last t = record {
  project = λ i. refl;
  install = λ i. refl;
  credential = λ i. refl;
  registered = λ i. refl;
  activated = λ i u h. h;
}

pub activate-IsUpdate : (first : Option ℤ) (t : ℤ) → IsUpdate (activate first t)
unfolding activate
activate-IsUpdate first t = record {
  project = λ i. refl;
  install = λ i. refl;
  credential = λ i. refl;
  registered = λ i. refl;
  activated = λ i u h. rw h;
}

see-IsUpdate : (t : ℤ) → IsUpdate (λ i. record i { last_seen_at = some t })
see-IsUpdate t = record {
  project = λ i. refl;
  install = λ i. refl;
  credential = λ i. refl;
  registered = λ i. refl;
  activated = λ i u h. h;
}

bump_counter-kept :
    (Q : List Installation → List EventRow → Type 0) (project : String) (t : ℤ) (db : Db) (n : ℕ)
    (db' : Db)
    → Over Q db
    → ◌≡◌ {A = Result (ℕ × Db)} (ok (bump_counter project t db)) (ok (n, db'))
    → Over Q db'
unfolding bump_counter
bump_counter-kept Q project t db n db' h e = subst (Over Q) (statement-eq-ok e) h

module _ {rate : RateLibrary} (lib : Library) {Q : List Installation → List EventRow → Type 0}
    (inv : RowInvariant lib Q) where
  update_batch_installation-Keeps :
      (req : BatchIngestRequest) (last : Event)
      → Keeps {rate = rate} (Over Q) (update_batch_installation req last)
  unfolding update_batch_installation
  update_batch_installation-Keeps req last =
      Keeps-execute _ λ t db h. inv.update _ _ _ db (touch-IsUpdate req last t) h

  activate_installation-Keeps :
      (req : BatchIngestRequest) (first : Option ℤ)
      → Keeps {rate = rate} (Over Q) (activate_installation req first)
  unfolding activate_installation
  activate_installation-Keeps req first =
      Keeps-execute _ λ t db h. inv.update _ _ _ db (activate-IsUpdate first t) h

  insert_prepared_event-Keeps :
      (req : BatchIngestRequest) (pe : PreparedEvent) (received : ℤ)
      → IsPrepared lib received pe
      → Keeps {rate = rate} (Over Q) (insert_prepared_event lib req pe received)
  unfolding insert_prepared_event event_row
  insert_prepared_event-Keeps req pe received p =
      Keeps-bind _ _ (Keeps-lift _)
        λ _. Keeps-statement _ λ t db b db' h e. inv.insert _ db db' b p.valid p.kind p.time h e

  track_product_event-Keeps :
      (project : String) (pe : PreparedEvent) (strict : Bool) (received : ℤ) (r : PersistedEvents)
      → Keeps {rate = rate} (Over Q) (track_product_event project pe strict received r)
  unfolding track_product_event
  track_product_event-Keeps project pe strict received r = go pe.kind
    where
      go :
          (kind : Kind)
          → Keeps {rate = rate} (Over Q) (see_product kind project pe strict received r)
      go system = Keeps-pure _
      go product =
          Keeps-bind _ _
            (Keeps-if strict _ _ (λ _. Keeps-pure _) (λ _. Keeps-execute _ λ t db h. h))
            λ _. Keeps-pure _

  record_insertion-Keeps :
      (project : String) (pe : PreparedEvent) (strict : Bool) (received : ℤ) (r : PersistedEvents)
      (new : Bool)
      → Keeps {rate = rate} (Over Q) (record_insertion project pe strict received r new)
  unfolding record_insertion
  record_insertion-Keeps project pe strict received r false = Keeps-pure _
  record_insertion-Keeps project pe strict received r true =
      track_product_event-Keeps project pe strict received _

  persist_prepared_events-Keeps :
      (req : BatchIngestRequest) (strict : Bool) (received : ℤ) (r : PersistedEvents)
      (pes : List PreparedEvent)
      → All (IsPrepared lib received) pes
      → Keeps {rate = rate} (Over Q) (persist_prepared_events lib req strict received r pes)
  unfolding persist_prepared_events
  persist_prepared_events-Keeps req strict received r [] h = Keeps-pure _
  persist_prepared_events-Keeps req strict received r (pe ∷ pes) (h, hs) =
      Keeps-bind _ _ (insert_prepared_event-Keeps req pe received h) λ new.
        Keeps-bind _ _ (record_insertion-Keeps req.project_id pe strict received r new)
          λ r'. persist_prepared_events-Keeps req strict received r' pes hs

  persist_body-Keeps :
      (req : BatchIngestRequest) (last : Event) (pes : List PreparedEvent) (strict : Bool)
      (received : ℤ)
      → All (IsPrepared lib received) pes
      → Keeps {rate = rate} (Over Q) (persist_body lib req last pes strict received)
  unfolding persist_body
  persist_body-Keeps req last pes strict received h =
      Keeps-bind _ _ (update_batch_installation-Keeps req last) λ _.
        Keeps-bind _ _ (persist_prepared_events-Keeps req strict received _ pes h) λ r.
          Keeps-bind _ _
            (Keeps-if r.activated _ _ (λ _. activate_installation-Keeps req _) (λ _. Keeps-pure _))
            λ _. Keeps-pure _

  persist_batch-Keeps :
      (req : BatchIngestRequest) (pes : List PreparedEvent) (strict : Bool) (received : ℤ)
      → All (IsPrepared lib received) pes
      → Keeps {rate = rate} (Over Q) (persist_batch lib req pes strict received)
  unfolding persist_batch
  persist_batch-Keeps req pes strict received h = go (get_last? pes)
    where
      go :
          (last : Option PreparedEvent)
          → Keeps {rate = rate} (Over Q) (persist_up_to lib req pes strict received last)
      go none = Keeps-pure _
      go (some last) =
          Keeps-bind _ _
            (Keeps-transaction _ (persist_body-Keeps req last.event pes strict received h))
            λ _. Keeps-pure _

  match_policy_audited-Keeps :
      (install : String) (t : Target)
      → Keeps {rate = rate} (Over Q) (match_policy_audited install t)
  unfolding match_policy_audited match_policy_row
  match_policy_audited-Keeps install t = Keeps-bind _ _ (Keeps-query _) go
    where
      go : (r : Option PolicyRule) → Keeps {rate = rate} (Over Q) (audited install t r)
      go none = Keeps-pure _
      go (some r) = Keeps-bind _ _ (Keeps-execute _ λ t db h. h) λ _. Keeps-pure _

  insert_stats-Keeps :
      (req : BatchIngestRequest) (t : ℤ) (counts : Builds)
      → Keeps {rate = rate} (Over Q) (insert_stats req t counts)
  unfolding insert_stats
  insert_stats-Keeps req t [] = Keeps-pure _
  insert_stats-Keeps req t (((app, build), c) ∷ counts) =
      Keeps-bind _ _ (Keeps-execute _ λ t db h. h) λ _. insert_stats-Keeps req t counts

  insert_occurrences-Keeps :
      (req : BatchIngestRequest) (t : ℤ) (rs : List RejectedEvent)
      → Keeps {rate = rate} (Over Q) (insert_occurrences req t rs)
  unfolding insert_occurrences
  insert_occurrences-Keeps req t [] = Keeps-pure _
  insert_occurrences-Keeps req t (r ∷ rs) =
      Keeps-bind _ _ (Keeps-execute _ λ t db h. h) λ _. insert_occurrences-Keeps req t rs

  upsert_rejections-Keeps :
      (project : String) (t : ℤ) (counts : List ((String × Code) × ℕ))
      → Keeps {rate = rate} (Over Q) (upsert_rejections project t counts)
  unfolding upsert_rejections
  upsert_rejections-Keeps project t [] = Keeps-pure _
  upsert_rejections-Keeps project t ((k, n) ∷ counts) =
      Keeps-bind _ _ (Keeps-execute _ λ t db h. h) λ _. upsert_rejections-Keeps project t counts

  upsert_drifts-Keeps :
      (project : String) (t : ℤ) (counts : List ((String × String) × ℕ))
      → Keeps {rate = rate} (Over Q) (upsert_drifts project t counts)
  unfolding upsert_drifts
  upsert_drifts-Keeps project t [] = Keeps-pure _
  upsert_drifts-Keeps project t ((k, n) ∷ counts) =
      Keeps-bind _ _ (Keeps-execute _ λ t db h. h) λ _. upsert_drifts-Keeps project t counts

  batch_authorized-Keeps :
      (req : BatchIngestRequest) (decoded : List RejectedEvent) (granted : String × Bool)
      → Keeps {rate = rate} (Over Q) (batch_authorized lib req decoded granted)
  unfolding batch_authorized record_batch_stats record_rejection_stats record_drift_stats
  batch_authorized-Keeps req decoded (environment, strict) = Keeps-bind _ _ Keeps-now λ received.
      Keeps-bind-Yields _ _ _ (prepare_batch-Keeps lib req decoded strict received)
        (prepare_batch-Yields lib received req decoded strict)
        λ b ok_events.
          Keeps-bind _ _ (persist_batch-Keeps req b.events strict received ok_events) λ p.
            Keeps-bind _ _ (match_policy_audited-Keeps req.install_id _) λ answer.
              Keeps-bind _ _ (insert_stats-Keeps req received _) λ _.
                Keeps-bind _ _
                  (Keeps-bind _ _ (insert_occurrences-Keeps req received b.rejected)
                    λ _. upsert_rejections-Keeps req.project_id received _)
                  λ _.
                    Keeps-bind _ _ (upsert_drifts-Keeps req.project_id received _)
                      λ _. Keeps-bind _ _ Keeps-now λ _. Keeps-pure _

  pub batch-Keeps :
      (req : BatchIngestRequest) (decoded : List RejectedEvent) (token ip : String)
      → Keeps {rate = rate} (Over Q) (batch lib req decoded token ip)
  unfolding batch
  batch-Keeps req decoded token ip = Keeps-bind _ _ (admit_batch-Keeps req ip) λ _.
      Keeps-bind _ _ (authorize_batch-Keeps lib req.project_id req.install_id token)
        λ granted. batch_authorized-Keeps req decoded granted

  get_cap-Keeps : Keeps {rate = rate} (Over Q) get_cap
  unfolding get_cap
  get_cap-Keeps = record { at = λ w h. h }

  insert_installation-Keeps :
      (req : RegisterRequest) (hash : List ℕ)
      → Keeps {rate = rate} (Over Q) (insert_installation req hash)
  unfolding insert_installation
  insert_installation-Keeps req hash =
      Keeps-bind _ _
        (Keeps-statement _ λ t db n db' h e. bump_counter-kept Q req.project_id t db n db' h e)
        λ n. Keeps-bind _ _ get_cap-Keeps λ cap.
          Keeps-bind _ _ (Keeps-lift _)
            λ _. Keeps-statement _ λ t db x db' h e. inv.add _ db db' x h e

  create_or_verify-Keeps :
      (req : RegisterRequest) (hash : List ℕ) (existing : Option Installation)
      → Keeps {rate = rate} (Over Q) (create_or_verify req hash existing)
  unfolding create_or_verify
  create_or_verify-Keeps req hash none = insert_installation-Keeps req hash
  create_or_verify-Keeps req hash (some i) = Keeps-lift _

  register_body-Keeps :
      (req : RegisterRequest) → Keeps {rate = rate} (Over Q) (register_body lib req)
  unfolding register_body registration_environment create_or_verify_installation
  register_body-Keeps req = Keeps-bind _ _ (Keeps-bind _ _ (Keeps-query _) λ _. Keeps-lift _) λ _.
      Keeps-bind _ _
        (Keeps-bind _ _ (Keeps-query _) λ existing. create_or_verify-Keeps req _ existing)
        λ _. Keeps-pure _

  pub register-Keeps :
      (req : RegisterRequest) (ip : String) → Keeps {rate = rate} (Over Q) (register lib req ip)
  unfolding register
  register-Keeps req ip = Keeps-bind _ _ (admit_registration-Keeps lib req ip) λ _.
      Keeps-bind _ _ (Keeps-transaction _ (register_body-Keeps req)) λ _.
        Keeps-bind _ _ (match_policy_audited-Keeps req.install_id _)
          λ _. Keeps-bind _ _ Keeps-now λ _. Keeps-pure _

  pub policy-Keeps :
      (req : PolicyRequest) (token ip : String)
      → Keeps {rate = rate} (Over Q) (policy lib req token ip)
  unfolding policy
  policy-Keeps req token ip = Keeps-bind _ _ (require_ingest_ip-Keeps ip) λ _.
      Keeps-bind _ _ (Keeps-lift _) λ _.
        Keeps-bind _ _ (require_ingest_install-Keeps req.project_id req.install_id) λ _.
          Keeps-bind _ _ (authorize_batch-Keeps lib req.project_id req.install_id token) λ granted.
            Keeps-bind _ _ (match_policy_audited-Keeps req.install_id _) λ _.
              Keeps-bind _ _ (Keeps-execute _ λ t db h. inv.update _ _ _ db (see-IsUpdate t) h)
                λ _. Keeps-bind _ _ Keeps-now λ _. Keeps-pure _
