-- ===== src/Analytics/Timeline.antt =====
-- internal/analytics/puzzle_memory_timeline.go: the memory of an installation over its active and its
-- wall time, from the rows of the query. The labels of the markers, which are texts, are left out.
pub mod Bounds
pub mod Tests
use mortris_server.Prelude.{
  ℕ, ◌+◌, ◌*◌, String, Bool, true, false, not, ◌&&◌, ◌||◌, Option, none, some, List, [], ◌∷◌, ◌++◌,
  str_eq, ltb, get_last?, if◌then◌else◌,
}
use mortris_server.Prelude.Int.{ℤ, pos, pos_part, eqb_ℤ, ltb_ℤ}
use mortris_server.Ingest.Time.{sub_time}
use mortris_server.Ingest.Persist.{milliseconds}

pub record MemoryTimelinePoint : Type 0 where
  pub event_id : String
  pub effective_at : ℤ
  pub active_time_ms : ℕ
  pub wall_time_ms : ℕ
  pub event_name : String
  pub marker_type : String
  pub app_allocated_mb : Option ℤ
  pub app_reserved_mb : Option ℤ
  pub mono_used_mb : Option ℤ
  pub city_id : Option ℤ
  pub house_id : Option ℤ
  pub wave_index : Option ℤ
  pub attempt_id : Option String
  pub build_number : String
  pub app_version : String

pub record PuzzleMemoryTimeline : Type 0 where
  pub install_id : String
  pub device_total_memory_mb : ℤ
  pub graphics_memory_mb : ℤ
  pub total_active_time_ms : ℕ
  pub total_wall_time_ms : ℕ
  pub sample_count : ℕ
  pub points : List MemoryTimelinePoint

pub record RawTimelineRow : Type 0 where
  pub event_id : String
  pub effective_at : ℤ
  pub name : String
  pub platform : String
  pub os_version : String
  pub device_class : String
  pub app_version : String
  pub build_number : String
  pub allocated_mb : Option ℤ
  pub reserved_mb : Option ℤ
  pub mono_used_mb : Option ℤ
  pub total_memory_mb : Option ℤ
  pub graphics_mb : Option ℤ
  pub city_id : Option ℤ
  pub house_id : Option ℤ
  pub wave_index : Option ℤ
  pub attempt_id : Option String
  pub active_elapsed_ms : Option ℤ

-- pauseGapCapMS, of puzzle_diagnostics.go
abbrev pub pause_gap_cap_ms : ℕ
pause_gap_cap_ms = 30 * 60000

-- classifyMarker, without the label
unfoldable pub classify_marker : String → String → String → String
classify_marker name prev_build current_build =
    if not (str_eq prev_build "")
      && (not (str_eq current_build "") && not (str_eq prev_build current_build))
    then "build_update"
    else if str_eq name "memory_sample"
    then "memory_sample"
    else if str_eq name "house_run_started" || str_eq name "house_opened"
    then "house_start"
    else if str_eq name "wave_attempt_started" || str_eq name "wave_presented"
    then "wave_start"
    else if str_eq name "state_checkpoint"
    then "checkpoint"
    else if str_eq name "app_backgrounded"
    then "background"
    else if str_eq name "app_foregrounded"
    then "foreground"
    else if str_eq name "attempt_recovered"
    then "recovery"
    else "event"

-- timelineState; a time that is zero is not set.
pub record TimelineState : Type 0 where
  pub first_at : ℤ
  pub last_at : ℤ
  pub cum_active_ms : ℕ
  pub is_backgrounded : Bool
  pub last_build : String

abbrev pub new_state : TimelineState
new_state = record {
  first_at = pos 0;
  last_at = pos 0;
  cum_active_ms = 0;
  is_backgrounded = false;
  last_build = "";
}

-- t.Sub(u).Milliseconds(), and 0 where it is negative.
unfoldable pub elapsed_ms : ℤ → ℤ → ℕ
elapsed_ms t u = pos_part (milliseconds (sub_time t u))

-- The active time that a delta of the wall time adds.
abbrev pub active_ms : Bool → ℕ → ℕ
active_ms backgrounded delta =
    if not backgrounded then (if ltb pause_gap_cap_ms delta then pause_gap_cap_ms else delta) else 0

-- updateActiveTime
unfoldable pub update_active_time : ℤ → TimelineState → ℕ × TimelineState
update_active_time now s =
    if eqb_ℤ s.first_at (pos 0) then (0, record s { first_at = now; last_at = now }) else (
      s.cum_active_ms + active_ms s.is_backgrounded (elapsed_ms now s.last_at),
      record s {
        last_at = now;
        cum_active_ms = s.cum_active_ms + active_ms s.is_backgrounded (elapsed_ms now s.last_at);
      },
    )

-- What createTimelinePoint does to the state after its times are known.
unfoldable pub note_row : RawTimelineRow → TimelineState → TimelineState
note_row r s = record s {
  last_build = if str_eq r.build_number "" then s.last_build else r.build_number;
  is_backgrounded =
      if str_eq r.name "app_backgrounded"
      then true
      else if str_eq r.name "app_foregrounded"
      then false
      else s.is_backgrounded;
}

-- createTimelinePoint
unfoldable pub create_timeline_point :
    RawTimelineRow → TimelineState → MemoryTimelinePoint × TimelineState
create_timeline_point r s =
    let (active, s') = update_active_time r.effective_at s in
    (
      record {
        event_id = r.event_id;
        effective_at = r.effective_at;
        active_time_ms = active;
        wall_time_ms = elapsed_ms r.effective_at s'.first_at;
        event_name = r.name;
        marker_type = classify_marker r.name s'.last_build r.build_number;
        app_allocated_mb = r.allocated_mb;
        app_reserved_mb = r.reserved_mb;
        mono_used_mb = r.mono_used_mb;
        city_id = r.city_id;
        house_id = r.house_id;
        wave_index = r.wave_index;
        attempt_id = r.attempt_id;
        build_number = r.build_number;
        app_version = r.app_version;
      },
      note_row r s',
    )

abbrev pub larger : Option ℤ → ℤ → ℤ
larger none m = m
larger (some v) m = if ltb_ℤ m v then v else m

-- What the loop of buildTimelinePoints has found: the points, and the two sizes and the samples.
pub record Built : Type 0 where
  pub points : List MemoryTimelinePoint
  pub total_memory_mb : ℤ
  pub graphics_mb : ℤ
  pub sample_count : ℕ

unfoldable pub add_row : RawTimelineRow → MemoryTimelinePoint → Built → Built
add_row r p b = record {
  points = b.points ++ (p ∷ []);
  total_memory_mb = larger r.total_memory_mb b.total_memory_mb;
  graphics_mb = larger r.graphics_mb b.graphics_mb;
  sample_count = if str_eq r.name "memory_sample" then b.sample_count + 1 else b.sample_count;
}

unfoldable pub build_from : List RawTimelineRow → TimelineState → Built → Built
build_from [] s b = b
build_from (r ∷ rs) s b =
    build_from rs (create_timeline_point r s).1 (add_row r (create_timeline_point r s).0 b)

-- buildTimelinePoints
unfoldable pub build_timeline_points : List RawTimelineRow → Built
build_timeline_points rows =
    build_from rows new_state
      (record { points = []; total_memory_mb = pos 0; graphics_mb = pos 0; sample_count = 0 })

-- GetPuzzleMemoryTimeline, on the rows of the query
unfoldable pub get_puzzle_memory_timeline : String → List RawTimelineRow → PuzzleMemoryTimeline
get_puzzle_memory_timeline install rows =
    let built = build_timeline_points rows in
    record {
      install_id = install;
      device_total_memory_mb = built.total_memory_mb;
      graphics_memory_mb = built.graphics_mb;
      total_active_time_ms = elim (get_last? built.points) [ none ↦ 0 | some p ↦ p.active_time_ms ];
      total_wall_time_ms = elim (get_last? built.points) [ none ↦ 0 | some p ↦ p.wall_time_ms ];
      sample_count = built.sample_count;
      points = built.points;
    }
