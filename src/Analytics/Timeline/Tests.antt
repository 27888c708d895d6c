-- ===== src/Analytics/Timeline/Tests.antt =====
-- Two samples of an installation, a minute apart.
use mortris_server.Prelude.{ℕ, ◌+◌, ◌*◌, ◌^◌, ◌≤◌, refl, none, List, [], ◌∷◌, arith}
use mortris_server.Prelude.Int.{pos}
use mortris_server.Analytics.Timeline.{RawTimelineRow, get_puzzle_memory_timeline}
use mortris_server.Analytics.Timeline.Bounds.{IsRising, get_puzzle_memory_timeline-IsRising}

abbrev sample : ℕ → RawTimelineRow
sample t = record {
  event_id = "e";
  effective_at = pos t;
  name = "memory_sample";
  platform = "ios";
  os_version = "18";
  device_class = "phone";
  app_version = "1.0";
  build_number = "7";
  allocated_mb = none;
  reserved_mb = none;
  mono_used_mb = none;
  total_memory_mb = none;
  graphics_mb = none;
  city_id = none;
  house_id = none;
  wave_index = none;
  attempt_id = none;
  active_elapsed_ms = none;
}

abbrev rows : List RawTimelineRow
rows = sample (10 ^ 12) ∷ sample (10 ^ 12 + 60 * 10 ^ 9) ∷ []

get_puzzle_memory_timeline_example :
    IsRising 0 0 (get_puzzle_memory_timeline "i" rows).points
    × ((get_puzzle_memory_timeline "i" rows).total_active_time_ms
        ≤ (get_puzzle_memory_timeline "i" rows).total_wall_time_ms)
get_puzzle_memory_timeline_example =
    get_puzzle_memory_timeline-IsRising "i" rows
      (10 ^ 12, refl, omega arith, (10 ^ 12 + 60 * 10 ^ 9, refl, omega arith, omega arith, tt))
