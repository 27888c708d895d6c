-- ===== src/Analytics/Timeline/Bounds.antt =====
-- The active time of a timeline is never more than its wall time.
use mortris_server.Prelude.{
  ℕ, String, none, some, get_last?, ◌+◌, ◌*◌, ◌-◌, ◌/◌, ◌^◌, ◌≤◌, ◌<◌, ◌≡◌, refl, Bool, true, false,
  List, [], ◌∷◌, ◌++◌, sym, ap, ap₂, ◌∙◌, arith, if◌then◌else◌,
}
use mathlib.Core.Path.{subst}
use mathlib.Core.List.{append-nil, append_assoc}
use mortris_server.Prelude.Int.{pos, eqb_ℤ, ◌-ℤ◌}
use mortris_server.Ingest.Time.{sub_time}
use mortris_server.Analytics.Timeline.{
  RawTimelineRow, MemoryTimelinePoint, TimelineState, Built, new_state, elapsed_ms, active_ms,
  update_active_time, note_row, create_timeline_point, add_row, build_from, build_timeline_points,
  get_puzzle_memory_timeline, pause_gap_cap_ms,
}

elapsed_ms-pos : (n m : ℕ) → m ≤ n → n - m < 2 ^ 63 → elapsed_ms (pos n) (pos m) ≡ (n - m) / 10 ^ 6
unfolding elapsed_ms sub_time ◌-ℤ◌
elapsed_ms-pos n m h k = ground arith

-- The points by plain recursion.
points_of : List RawTimelineRow → TimelineState → List MemoryTimelinePoint
points_of [] s = []
points_of (r ∷ rs) s = (create_timeline_point r s).0 ∷ points_of rs (create_timeline_point r s).1

build_from-points :
    (rs : List RawTimelineRow) (s : TimelineState) (b : Built)
    → (build_from rs s b).points ≡ b.points ++ points_of rs s
unfolding build_from points_of add_row
build_from-points [] s b = sym (append-nil b.points)
build_from-points (r ∷ rs) s b =
    build_from-points rs (create_timeline_point r s).1 (add_row r (create_timeline_point r s).0 b)
    ∙ append_assoc b.points _ _

-- The rows stand in the order of their times, which are at most 2^63 - 1 nanoseconds (292 years)
-- after the first one.
abbrev pub IsOrdered : ℕ → ℕ → List RawTimelineRow → Type 0
IsOrdered first last [] = Unit {0}
IsOrdered first last (r ∷ rs) =
    (n : ℕ) × (r.effective_at ≡ pos n) × (last ≤ n) × (n - first < 2 ^ 63) × IsOrdered first n rs

abbrev pub AreOrdered : List RawTimelineRow → Type 0
AreOrdered [] = Unit {0}
AreOrdered (r ∷ rs) = (f : ℕ) × (r.effective_at ≡ pos f) × (0 < f) × IsOrdered f f rs

-- No time falls from one point to the next, the active time grows by at most 30 minutes, and it is
-- at most the wall time.
abbrev pub IsRising : ℕ → ℕ → List MemoryTimelinePoint → Type 0
IsRising active wall [] = Unit {0}
IsRising active wall (p ∷ ps) =
    (active ≤ p.active_time_ms)
    × (p.active_time_ms ≤ active + pause_gap_cap_ms)
    × (wall ≤ p.wall_time_ms)
    × (p.active_time_ms ≤ p.wall_time_ms)
    × IsRising p.active_time_ms p.wall_time_ms ps

-- A state between two rows, after the first.
record IsRunning (f l : ℕ) (s : TimelineState) : Type 0 where
  first : s.first_at ≡ pos f
  last : s.last_at ≡ pos l
  positive : 0 < f
  ordered : f ≤ l
  near : l - f < 2 ^ 63
  active : s.cum_active_ms * 10 ^ 6 ≤ l - f

active_ms-le :
    (b : Bool) (delta : ℕ) → (active_ms b delta ≤ delta) × (active_ms b delta ≤ pause_gap_cap_ms)
active_ms-le true delta = omega arith
active_ms-le false delta = ground arith

-- What a row after the first makes of such a state.
record IsStep (f n : ℕ) (s : TimelineState) (t : ℕ × TimelineState) : Type 0 where
  counted : t.0 ≡ t.1.cum_active_ms
  rising : s.cum_active_ms ≤ t.0
  capped : t.0 ≤ s.cum_active_ms + pause_gap_cap_ms
  running : IsRunning f n t.1

update_active_time-IsStep :
    (f l n : ℕ) (s : TimelineState)
    → IsRunning f l s
    → l ≤ n
    → n - f < 2 ^ 63
    → IsStep f n s (update_active_time (pos n) s)
unfolding update_active_time
update_active_time-IsStep f l n s h le near =
    go (eqb_ℤ s.first_at (pos 0)) (rw h.first (unset f h.positive))
      (active_ms s.is_backgrounded (elapsed_ms (pos n) s.last_at))
      (subst (λ (m : ℕ). active_ms s.is_backgrounded (elapsed_ms (pos n) s.last_at) ≤ m)
        (ap (elapsed_ms (pos n)) h.last ∙ elapsed_ms-pos n l le (omega (arith, h.ordered)))
        (active_ms-le s.is_backgrounded (elapsed_ms (pos n) s.last_at)).0)
      (active_ms-le s.is_backgrounded (elapsed_ms (pos n) s.last_at)).1
  where
    unset : (k : ℕ) → 0 < k → eqb_ℤ (pos k) (pos 0) ≡ false
    unset k p = ground arith

    go :
        (b : Bool)
        → b ≡ false
        → (a : ℕ) → a ≤ (n - l) / 10 ^ 6
        → a ≤ pause_gap_cap_ms
        → IsStep f n s (
            if b then (0, record s { first_at = pos n; last_at = pos n }) else (
              s.cum_active_ms + a,
              record s { last_at = pos n; cum_active_ms = s.cum_active_ms + a },
            ))
    go true e a small capped = absurd (cc)
    go false e a small capped = record {
      counted = refl;
      rising = omega arith;
      capped = omega arith;
      running = record {
        first = h.first;
        last = refl;
        positive = h.positive;
        ordered = omega (arith, h.ordered);
        near = near;
        active = omega (arith, h.ordered, h.active);
      };
    }

note_row-IsRunning :
    (f n : ℕ) (r : RawTimelineRow) (s : TimelineState)
    → IsRunning f n s
    → IsRunning f n (note_row r s)
unfolding note_row
note_row-IsRunning f n r s h = record {
  first = h.first;
  last = h.last;
  positive = h.positive;
  ordered = h.ordered;
  near = h.near;
  active = h.active;
}

points_of-IsRising :
    (rs : List RawTimelineRow) (f l : ℕ) (s : TimelineState)
    → IsRunning f l s
    → IsOrdered f l rs
    → IsRising s.cum_active_ms ((l - f) / 10 ^ 6) (points_of rs s)
unfolding points_of create_timeline_point note_row
points_of-IsRising [] f l s h o = tt
points_of-IsRising (r ∷ rs) f l s h (n, at, le, near, o) =
    go (update_active_time r.effective_at s)
      (subst (λ t. IsStep f n s (update_active_time t s)) (sym at)
        (update_active_time-IsStep f l n s h le near))
      λ s' k. points_of-IsRising rs f n (note_row r s') (note_row-IsRunning f n r s' k) o
  where
    go :
        (t : ℕ × TimelineState)
        → IsStep f n s t
        → ((s' : TimelineState)
            → IsRunning f n s'
            → IsRising
                (note_row r s').cum_active_ms
                ((n - f) / 10 ^ 6)
                (points_of rs (note_row r s')))
        → (s.cum_active_ms ≤ t.0)
          × (t.0 ≤ s.cum_active_ms + pause_gap_cap_ms)
          × ((l - f) / 10 ^ 6 ≤ elapsed_ms r.effective_at t.1.first_at)
          × (t.0 ≤ elapsed_ms r.effective_at t.1.first_at)
          × IsRising t.0 (elapsed_ms r.effective_at t.1.first_at) (points_of rs (note_row r t.1))
    go (a, s') k rest =
        let wall : elapsed_ms r.effective_at s'.first_at ≡ (n - f) / 10 ^ 6 =
          ap₂ elapsed_ms at k.running.first ∙ elapsed_ms-pos n f (k.running.ordered) near in
        (
          k.rising,
          k.capped,
          omega (arith, wall, h.ordered),
          omega (arith, wall, k.counted, k.running.active, k.running.ordered),
          subst (λ (p : ℕ × ℕ). IsRising p.0 p.1 (points_of rs (note_row r s')))
              (ap₂ (λ a b. (a, b)) (sym k.counted) (sym wall)) (rest s' k.running),
        )

build_timeline_points-IsRising :
    (rows : List RawTimelineRow)
    → AreOrdered rows
    → IsRising 0 0 (build_timeline_points rows).points
unfolding build_timeline_points points_of create_timeline_point update_active_time note_row
build_timeline_points-IsRising [] h = subst (IsRising 0 0) (sym (build_from-points [] _ _)) tt
build_timeline_points-IsRising (r ∷ rs) (f, at, p, o) =
    subst (IsRising 0 0) (sym (build_from-points (r ∷ rs) _ _)) (
      omega arith,
      omega arith,
      omega arith,
      omega arith,
      subst (λ (w : ℕ). IsRising 0 w (points_of rs (note_row r started)))
          (sym (ap₂ elapsed_ms at at ∙ elapsed_ms-pos f f (omega arith) (omega arith)))
          (points_of-IsRising rs f f (note_row r started) (note_row-IsRunning f f r started running)
            o),
    )
  where
    started : TimelineState
    started = record new_state { first_at = r.effective_at; last_at = r.effective_at }

    running : IsRunning f f started
    running = record {
      first = at;
      last = at;
      positive = p;
      ordered = omega arith;
      near = omega arith;
      active = omega arith;
    }

last-le :
    (a w : ℕ) (ps : List MemoryTimelinePoint)
    → IsRising a w ps
    → (elim (get_last? ps) [ none ↦ 0 | some p ↦ p.active_time_ms ])
      ≤ (elim (get_last? ps) [ none ↦ 0 | some p ↦ p.wall_time_ms ])
last-le a w [] h = omega arith
last-le a w (p ∷ []) h = h.3
last-le a w (p ∷ q ∷ qs) h = last-le p.active_time_ms p.wall_time_ms (q ∷ qs) h.4

-- Where the rows come in the order of their times, from a first one that is set and within 292 years
-- of it, no active and no wall time falls from one point to the next, the active time grows by at
-- most 30 minutes from one to the next, and at each point and in the totals it is at most the wall
-- time.
pub get_puzzle_memory_timeline-IsRising :
    (install : String) (rows : List RawTimelineRow)
    → AreOrdered rows
    → let t = get_puzzle_memory_timeline install rows in
      IsRising 0 0 t.points × (t.total_active_time_ms ≤ t.total_wall_time_ms)
unfolding get_puzzle_memory_timeline
get_puzzle_memory_timeline-IsRising install rows h =
    let rising = build_timeline_points-IsRising rows h in
    (rising, last-le 0 0 (build_timeline_points rows).points rising)
