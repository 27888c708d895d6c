-- ===== src/Maintenance/Tests.antt =====
-- The deletions over one event and one installation.
use mortris_server.Prelude.{
  ℕ, ◌+◌, ◌^◌, ◌≡◌, refl, none, some, [], ◌∷◌, length, All, In, ◌⊎◌, arith,
}
use mortris_server.Prelude.Int.{pos}
use mortris_server.Failure.{Failure, ok}
use mortris_server.Ratelimit.Tests.{counting}
use mortris_server.Ingest.Db.{Installation}
use mortris_server.Ingest.Exec.{World}
use mortris_server.Ingest.Tests.{world, with_event, row, installation}
use mortris_server.Maintenance.{Deletion, delete_expired_events, delete_unactivated_installations}
use mortris_server.Maintenance.Sweeps.{IsLast}
use mortris_server.Maintenance.Accounted.{WasDue}
use mortris_server.Maintenance.Expired.{IsOver, delete_expired_events-kept}
use mortris_server.Maintenance.Overdue.{IsOverdue}
use mortris_server.Maintenance.Unactivated.{
  delete_unactivated_installations_total, delete_unactivated_installations-In,
}

-- Years after the event.
abbrev much_later : World counting
much_later = record with_event { clocks = λ n. pos (10 ^ 17) }

delete_expired_events-kept_example :
    In row (delete_expired_events 2 with_event).1.db.events
    ⊎ WasDue
        (λ t. IsOver with_event.db.projects t row)
        with_event
        (delete_expired_events 2 with_event).1
delete_expired_events-kept_example = delete_expired_events-kept row 2 with_event (In.head refl)

delete_unactivated_installations_total_example :
    (d : Deletion) × ((delete_unactivated_installations 2 world).0 ≡ ok d)
    × (d.error ≡ none)
    × (length (delete_unactivated_installations 2 world).1.db.installations + d.rows ≡ 1)
    × ((n : ℕ) × IsLast world n (delete_unactivated_installations 2 world).1
        × All
            (λ i. IsOverdue (world.clocks n) i → ⊥)
            (delete_unactivated_installations 2 world).1.db.installations)
    × All
        (λ i.
          In i (delete_unactivated_installations 2 world).1.db.installations
          ⊎ WasDue (λ t. IsOverdue t i) world (delete_unactivated_installations 2 world).1)
        world.db.installations
delete_unactivated_installations_total_example =
    delete_unactivated_installations_total 2 world (omega arith) (λ n. refl) tt

abbrev active : Installation
active = record installation { activated_at = some (pos 1) }

abbrev with_active : World counting
with_active = record world { db = record world.db { installations = active ∷ [] } }

delete_unactivated_installations-In_example :
    In active (delete_unactivated_installations 2 with_active).1.db.installations
delete_unactivated_installations-In_example =
    delete_unactivated_installations-In active 2 with_active refl (In.head refl)
