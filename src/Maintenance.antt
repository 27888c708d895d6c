-- ===== src/Maintenance.antt =====
-- internal/maintenance/retention.go and runner.go: the deletions that run each hour, over the
-- tables and the effects of the ingestion.
pub mod Rows
pub mod Sweeps
pub mod Accounted
pub mod Expired
pub mod Overdue
pub mod Unactivated
pub mod Tests
use mortris_server.Prelude.{
  ℕ, zero, suc, ◌+◌, ◌-◌, ◌*◌, ◌^◌, String, Bool, true, false, ◌&&◌, Option, none, some, List, [],
  ◌∷◌, ltb, all, any, str_eq, if◌then◌else◌,
}
use mortris_server.Prelude.Int.{ℤ, pos, ◌-ℤ◌, ltb_ℤ}
use mortris_server.Failure.{Failure, Result, ok, err, other, exhausted}
use mortris_server.Ratelimit.{RateLibrary}
use mortris_server.Ingest.Db.{Db, Project, Installation, EventRow, is_installation}
use mortris_server.Ingest.Exec.{Exec, pure, statement, execute, attempt, now, ◌>>=◌, ◌>>◌}

abbrev pub batch_size : ℕ
batch_size = 10000

-- A number of days, in nanoseconds.
abbrev pub days : ℕ → ℤ
days n = pos (n * 86400 * 10 ^ 9)

-- DELETE ... WHERE key IN (SELECT key ... WHERE due LIMIT $1): how many rows were deleted, and the
-- rows that stay. Which of the rows that are due SQL takes is left open; here it is the first.
unfoldable pub delete_some : {A : Type 0} → (A → Bool) → ℕ → List A → ℕ × List A
delete_some due limit [] = (0, [])
delete_some due limit (x ∷ xs) =
    let rest = delete_some due (if due x && ltb 0 limit then limit - 1 else limit) xs in
    if due x && ltb 0 limit then (rest.0 + 1, rest.1) else (rest.0, x ∷ rest.1)

abbrev pub is_none : Option ℤ → Bool
is_none none = true
is_none (some t) = false

-- The two WHERE clauses, at the time of the statement.
unfoldable pub is_unactivated : ℤ → Installation → Bool
is_unactivated t i = is_none i.activated_at && ltb_ℤ i.registered_at (t -ℤ days 7)

unfoldable pub is_expired : List Project → ℤ → EventRow → Bool
is_expired projects t e =
    any
      (λ (p : Project).
        str_eq p.id e.project_id && ltb_ℤ e.received_at (t -ℤ days p.retention_days))
      projects

-- The events reference their installations.
abbrev pub delete_batch_installations : ℤ → Db → Result (ℕ × Db)
delete_batch_installations t db =
    let deleted = delete_some (is_unactivated t) batch_size db.installations in
    if all (λ e. any (is_installation e.project_id e.install_id) deleted.1) db.events
    then ok (deleted.0, record db { installations = deleted.1 })
    else err other

abbrev pub delete_batch_events : ℤ → Db → Result (ℕ × Db)
delete_batch_events t db =
    let deleted = delete_some (is_expired db.projects t) batch_size db.events in
    ok (deleted.0, record db { events = deleted.1 })

-- What a deletion returns: the rows deleted so far, beside an error too.
pub record Deletion : Type 0 where
  pub rows : ℕ
  pub error : Option Failure

abbrev has_failed : Option Failure → Bool
has_failed none = false
has_failed (some e) = true

module _ {rate : RateLibrary} where
  -- The loop of the two deletions, on fuel, from the total so far.
  unfoldable pub delete_batches : Exec rate ℕ → ℕ → ℕ → Exec rate Deletion
  delete_batches batch zero total = pure (record { rows = total; error = some exhausted })
  delete_batches batch (suc fuel) total = do
    r ← attempt batch
    elim r [
      | err e ↦ pure (record { rows = total; error = some e })
      | ok n ↦
          if ltb n batch_size
          then pure (record { rows = total + n; error = none })
          else delete_batches batch fuel (total + n)
    ]

  unfoldable pub delete_unactivated_installations : ℕ → Exec rate Deletion
  delete_unactivated_installations fuel =
      delete_batches (statement delete_batch_installations) fuel 0

  unfoldable pub delete_expired_events : ℕ → Exec rate Deletion
  delete_expired_events fuel = delete_batches (statement delete_batch_events) fuel 0

  -- (*Runner).runAndRecord: a run that cannot be recorded is only logged.
  unfoldable pub run_and_record : String → Exec rate Deletion → Exec rate (Unit {0})
  run_and_record kind deletion = do
    started ← now
    d ← deletion
    finished ← now
    attempt (
        execute λ _ db. record db {
          maintenance_runs =
              record {
                kind = kind;
                started_at = started;
                finished_at = finished;
                rows_affected = d.rows;
                failed = has_failed d.error;
              }
              ∷ db.maintenance_runs;
        })
    pure tt

  -- (*Runner).runOnce
  unfoldable pub run_once : ℕ → Exec rate (Unit {0})
  run_once fuel = do
    run_and_record "unactivated_cleanup" (delete_unactivated_installations fuel)
    run_and_record "retention_delete" (delete_expired_events fuel)
