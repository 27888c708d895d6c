-- ===== src/Maintenance/Expired.antt =====
-- DeleteExpiredEvents, by its batches and over the whole table.
use mortris_server.Prelude.{
  ℕ, ◌*◌, ◌^◌, ◌&&◌, ◌↔◌, List, str_eq, eq_iff, refl, ◌+◌, ◌<◌, ◌≡◌, Bool, true, false, length, All,
  In, ◌⊎◌, inl, inr, arith,
}
use mathlib.Core.Path.{subst}
use mortris_server.Prelude.Int.{ℤ, pos, ◌+ℤ◌, ◌-ℤ◌, ◌<ℤ◌, ltb_ℤ, +ℤ_parts, -ℤ_parts}
use mortris_server.Failure.{Failure, ok}
use mortris_server.Ratelimit.{RateLibrary}
use mortris_server.Ingest.Db.{Db, Project, EventRow}
use mortris_server.Ingest.Exec.{World, statement, outcome, advance}
use mortris_server.Maintenance.{
  delete_some, delete_batch_events, delete_expired_events, is_expired, days, batch_size,
}
use mortris_server.Maintenance.Accounted.{WasDue, delete_batches-kept}
use mortris_server.Maintenance.Rows.{
  any-In, In-any, length-delete_some, delete_some-All, delete_some-In,
}
use mortris_server.Maintenance.Sweeps.{IsSweep, statement-IsSweep}

abbrev events_left : Db → ℕ
events_left db = length db.events

abbrev NoneExpired : ℤ → Db → Type 0
NoneExpired t db = All (λ e. is_expired db.projects t e ≡ false) db.events

-- The project of an event keeps it for some days, which are over at `t`; times are in nanoseconds.
abbrev pub IsOver : List Project → ℤ → EventRow → Type 0
IsOver projects t e =
    (p : Project) × In p projects
    × (p.id ≡ e.project_id)
    × (e.received_at +ℤ pos (p.retention_days * (24 * 60 * 60 * 10 ^ 9)) <ℤ t)

is_expired_by :
    (p : Project) (t : ℤ) (e : EventRow)
    → (str_eq p.id e.project_id && ltb_ℤ e.received_at (t -ℤ days p.retention_days) ≡ true) ↔ (
        (p.id ≡ e.project_id)
        × (e.received_at +ℤ pos (p.retention_days * (24 * 60 * 60 * 10 ^ 9)) <ℤ t))
is_expired_by p t e = ground (
  arith,
  eq_iff p.id e.project_id,
  -ℤ_parts t (days p.retention_days),
  +ℤ_parts e.received_at (pos (p.retention_days * (24 * 60 * 60 * 10 ^ 9))),
)

is_expired_iff :
    (ps : List Project) (t : ℤ) (e : EventRow) → (is_expired ps t e ≡ true) ↔ IsOver ps t e
unfolding is_expired
is_expired_iff ps t e = (
  λ h.
      let (p, i, m) = In-any _ ps h in
      let (same, over) = (is_expired_by p t e).0 m in (p, i, same, over),
  λ (p, i, same, over). any-In _ p ps i ((is_expired_by p t e).1 (same, over)),
)

deleted_batch :
    (t : ℤ) (db db' : Db) (n : ℕ)
    → delete_batch_events t db ≡ ok (n, db')
    → (n ≡ (delete_some (is_expired db.projects t) batch_size db.events).0)
      × (record db { events = (delete_some (is_expired db.projects t) batch_size db.events).1 }
          ≡ db')
deleted_batch t db db' n e = (cc, cc)

batch_keeps :
    {rate : RateLibrary} (e : EventRow) (v : World rate)
    → In e v.db.events
    → In e (statement delete_batch_events v).1.db.events ⊎ IsOver v.db.projects (v.clocks 0) e
unfolding statement
batch_keeps {rate = rate} e v h = go (v.faults 0) (is_expired v.db.projects (v.clocks 0) e) refl
  where
    go :
        (fault b : Bool)
        → is_expired v.db.projects (v.clocks 0) e ≡ b
        → In e
            (outcome {rate = rate} fault
              (delete_batch_events (v.clocks 0) v.db)
              (advance v)).1.db.events
          ⊎ IsOver v.db.projects (v.clocks 0) e
    go true b q = inl h
    go false true q = inr ((is_expired_iff v.db.projects (v.clocks 0) e).0 q)
    go false false q = inl (delete_some-In _ batch_size v.db.events e q h)

module _ {rate : RateLibrary} where
  delete_batch_events-IsSweep :
      IsSweep {rate = rate} events_left NoneExpired (statement delete_batch_events)
  delete_batch_events-IsSweep =
      statement-IsSweep events_left NoneExpired delete_batch_events
        (λ t db db' n e.
          let (count, same) = deleted_batch t db db' n e in
          subst (λ d. events_left d + n ≡ events_left db) same
            (rw count (length-delete_some (is_expired db.projects t) batch_size db.events)))
        (λ t db db' n e h.
          let (count, same) = deleted_batch t db db' n e in
          subst (NoneExpired t) same (
            delete_some-All (is_expired db.projects t) batch_size db.events
              (subst (λ k. k < batch_size) count h)))
        λ t db f e. absurd (cc)

  delete_batch_events-projects :
      (ps : List Project) (w : World rate)
      → w.db.projects ≡ ps
      → (statement delete_batch_events w).1.db.projects ≡ ps
  unfolding statement
  delete_batch_events-projects ps w h = go (w.faults 0)
    where
      go :
          (fault : Bool)
          → (outcome {rate = rate} fault
              (delete_batch_events (w.clocks 0) w.db)
              (advance w)).1.db.projects
            ≡ ps
      go true = h
      go false = h

  -- Whichever statements fail, a stored event is left, or at some reading of the clock in the run its
  -- project had kept it for more than its retention days.
  pub delete_expired_events-kept :
      (e : EventRow) (fuel : ℕ) (w : World rate)
      → In e w.db.events
      → In e (delete_expired_events fuel w).1.db.events
        ⊎ WasDue (λ t. IsOver w.db.projects t e) w (delete_expired_events fuel w).1
  unfolding delete_expired_events
  delete_expired_events-kept e fuel w stored =
      delete_batches-kept (λ db. db.events) e (λ t. IsOver w.db.projects t e)
        (λ v. v.db.projects ≡ w.db.projects) (statement delete_batch_events)
        (record {
          once = delete_batch_events-IsSweep.once;
          holds = delete_batch_events-projects w.db.projects;
          keeps = λ v same h.
              subst
                (λ ps.
                  In e (statement delete_batch_events v).1.db.events ⊎ IsOver ps (v.clocks 0) e)
                same (batch_keeps e v h);
        })
        w fuel refl stored
