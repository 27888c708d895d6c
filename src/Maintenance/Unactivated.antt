-- ===== src/Maintenance/Unactivated.antt =====
-- DeleteUnactivatedInstallations over the whole table.
use mortris_server.Prelude.{
  ℕ, ◌+◌, ◌<◌, ◌≡◌, Bool, true, false, none, length, All, In, ◌⊎◌, inl, inr, if◌then◌else◌, arith,
}
use mortris_server.Failure.{Result, ok, err, other}
use mortris_server.Ratelimit.{RateLibrary}
use mortris_server.Ingest.Db.{Db, Installation}
use mortris_server.Ingest.Exec.{World, statement, outcome, advance}
use mortris_server.Maintenance.{
  Deletion, delete_some, delete_batch_installations, delete_unactivated_installations,
  is_unactivated, is_none, batch_size,
}
use mortris_server.Maintenance.Accounted.{WasDue}
use mortris_server.Maintenance.Sweeps.{
  IsLast, delete_batches-Swept, delete_batches_unbroken, delete_batches_invariant,
}
use mortris_server.Maintenance.Overdue.{
  installations_left, NoneDue, IsOverdue, left, referenced, delete_batch_installations-IsSweep,
  FromActivated, In-left, IsSafe, delete_batch_installations-IsSafe, all_kept, none-IsOverdue,
}

module _ {rate : RateLibrary} where
  -- Where no statement fails and every stored event is of an installation that was activated, the
  -- deletion of unactivated installations ends without an error, with more fuel than there are
  -- installations: those that are left and those that it counts are all installations. The statement
  -- at the run's last reading of the clock leaves none that is overdue then, and each installation
  -- that is not left was overdue at some reading of the run.
  pub delete_unactivated_installations_total :
      (fuel : ℕ) (w : World rate)
      → length w.db.installations < fuel
      → ((n : ℕ) → w.faults n ≡ false)
      → All (FromActivated w.db.installations) w.db.events
      → (d : Deletion) × ((delete_unactivated_installations fuel w).0 ≡ ok d)
        × (d.error ≡ none)
        × (length (delete_unactivated_installations fuel w).1.db.installations + d.rows
            ≡ length w.db.installations)
        × ((n : ℕ) × IsLast w n (delete_unactivated_installations fuel w).1
            × All
                (λ i. IsOverdue (w.clocks n) i → ⊥)
                (delete_unactivated_installations fuel w).1.db.installations)
        × All
            (λ i.
              In i (delete_unactivated_installations fuel w).1.db.installations
              ⊎ WasDue (λ t. IsOverdue t i) w (delete_unactivated_installations fuel w).1)
            w.db.installations
  unfolding delete_unactivated_installations
  delete_unactivated_installations_total fuel w h calm active =
      let s =
        delete_batches-Swept installations_left NoneDue (statement delete_batch_installations)
          delete_batch_installations-IsSweep fuel 0 w h in
      let none_left : s.deletion.error ≡ none =
        elim (delete_batches_unbroken IsSafe (statement delete_batch_installations)
          delete_batch_installations-IsSafe fuel 0 w s.deletion
          (record { calm = record { calm = calm }; active = active }) s.succeeds) [
            | inl e ↦ e
            | inr e ↦ absurd (s.ends e)
          ] in
      let (n, clear, last) = s.finished none_left in
      (
        s.deletion,
        s.succeeds,
        none_left,
        omega (arith, s.counted),
        (n, last, none-IsOverdue (w.clocks n) _ clear),
        all_kept fuel w w.db.installations λ i stored. stored,
      )

-- An activated installation that is stored.
record Stays {rate : RateLibrary} (i : Installation) (w : World rate) : Type 0 where
  active : is_none i.activated_at ≡ false
  stored : In i w.db.installations

delete_batch_installations-Stays :
    {rate : RateLibrary} (i : Installation) (w : World rate)
    → Stays i w
    → Stays i (statement delete_batch_installations w).1
unfolding statement
delete_batch_installations-Stays {rate = rate} i w h =
    go (w.faults 0) (referenced (left (w.clocks 0) w.db) w.db.events)
  where
    batch : Bool → Result (ℕ × Db)
    batch b =
        if b
        then ok (
          (delete_some (is_unactivated (w.clocks 0)) batch_size w.db.installations).0,
          record w.db { installations = left (w.clocks 0) w.db },
        )
        else err other

    go : (fault b : Bool) → Stays {rate = rate} i (outcome fault (batch b) (advance w)).1
    go true b = record { active = h.active; stored = h.stored }
    go false true = record {
      active = h.active;
      stored = In-left (w.clocks 0) w.db i h.active h.stored;
    }
    go false false = record { active = h.active; stored = h.stored }

-- Whichever statements fail, the deletion keeps an installation that was activated.
pub delete_unactivated_installations-In :
    {rate : RateLibrary} (i : Installation) (fuel : ℕ) (w : World rate)
    → is_none i.activated_at ≡ false
    → In i w.db.installations
    → In i (delete_unactivated_installations fuel w).1.db.installations
unfolding delete_unactivated_installations
delete_unactivated_installations-In i fuel w active stored =
    (delete_batches_invariant (Stays i) (statement delete_batch_installations)
      (delete_batch_installations-Stays i) fuel 0 w
      (record { active = active; stored = stored })).stored
