-- ===== src/Analytics/Drops.antt =====
-- internal/analytics/puzzle_drops.go: where the pieces of a house were dropped, from the rows of the
-- query. The distance between two points, math.Round of math.Hypot, is a parameter.
pub mod Median
pub mod Fit
pub mod Tests
use mortris_server.Prelude.{
  ℕ, ◌+◌, ◌/◌, String, Bool, true, false, not, ◌&&◌, ◌||◌, Option, none, some, List, [], ◌∷◌, ◌++◌,
  map, str_eq, ltb, length, get_elem?, any, all, if◌then◌else◌,
}
use mortris_server.Prelude.Int.{ℤ, pos, negsuc, ◌-ℤ◌, ltb_ℤ, leb_ℤ}

pub record PuzzleDrop : Type 0 where
  pub block_id : ℤ
  pub target_id : ℤ
  pub candidate_target_id : ℤ
  pub candidate_target_x : Option ℤ
  pub candidate_target_y : Option ℤ
  pub nearest_compatible_target_id : ℤ
  pub nearest_target_x : Option ℤ
  pub nearest_target_y : Option ℤ
  pub nearest_distance : Option ℤ
  pub outcome : String
  pub rule_state : String
  pub release_x : ℤ
  pub release_y : ℤ
  pub target_x : ℤ
  pub target_y : ℤ
  pub attempt_id : String
  pub legacy : Bool

pub record PuzzleDropMap : Type 0 where
  pub drops : List PuzzleDrop
  pub unresolved_drops : ℕ
  pub offset_x : ℤ
  pub offset_y : ℤ
  pub aligned : Bool
  pub alignment_issue : String
  pub spread : ℤ
  pub trusted_coordinates : Bool

-- A row of the query: the drop, with what it selects beside the fields of a PuzzleDrop.
pub record DropRow : Type 0 where
  pub drop : PuzzleDrop
  pub candidate_x : Option ℤ
  pub candidate_y : Option ℤ
  pub nearest_x : Option ℤ
  pub nearest_y : Option ℤ
  pub client_distance : Option ℤ

abbrev pub snap_distance_milli : ℕ
snap_distance_milli = 1500

abbrev pub min_placed_for_alignment : ℕ
min_placed_for_alignment = 5

-- slices.Sort
unfoldable pub insert_int : ℤ → List ℤ → List ℤ
insert_int x [] = x ∷ []
insert_int x (y ∷ ys) = let rest = insert_int x ys in if leb_ℤ x y then x ∷ y ∷ ys else y ∷ rest

unfoldable pub sort_ints : List ℤ → List ℤ
unfolding insert_int
sort_ints [] = []
sort_ints (x ∷ xs) = insert_int x (sort_ints xs)

-- intMedian; an empty list, on which Go panics, is never given.
unfoldable pub int_median : List ℤ → ℤ
unfolding sort_ints
int_median values = elim (get_elem? (sort_ints values) (length values / 2)) [
  | none ↦ pos 0
  | some v ↦ v
]

-- intAbs
unfoldable pub int_abs : ℤ → ℤ
int_abs v = if ltb_ℤ v (pos 0) then pos 0 -ℤ v else v

-- dropSpread
unfoldable pub drop_spread : List ℤ → ℤ → ℤ
drop_spread values centre = int_median (map (λ v. int_abs (v -ℤ centre)) values)

abbrev pub max_ℤ : ℤ → ℤ → ℤ
max_ℤ a b = if ltb_ℤ a b then b else a

-- hasMixedCoordinates
unfoldable pub has_mixed_coordinates : List PuzzleDrop → Bool
has_mixed_coordinates drops = any (λ d. d.legacy) drops && any (λ d. not d.legacy) drops

-- allDropRevisionsKnown
unfoldable pub all_drop_revisions_known : List PuzzleDrop → Bool
all_drop_revisions_known drops = ltb 0 (length drops) && not (any (λ d. d.legacy) drops)

abbrev pub is_placed : PuzzleDrop → Bool
is_placed d = str_eq d.outcome "placed" && leb_ℤ (pos 0) d.target_id

-- The differences that fitLegacyDrops collects, on one axis.
unfoldable pub offsets : (PuzzleDrop → ℤ) → (PuzzleDrop → ℤ) → List PuzzleDrop → List ℤ
offsets release target [] = []
offsets release target (d ∷ ds) =
    let rest = offsets release target ds in
    if is_placed d then (release d -ℤ target d) ∷ rest else rest

abbrev pub withheld : String → PuzzleDropMap → PuzzleDropMap
withheld issue m = record m { alignment_issue = issue; drops = [] }

-- resolveDropTarget: whether the target is known, and the drop with it.
abbrev pub at_target : ℤ → ℤ → ℤ → PuzzleDrop → PuzzleDrop
at_target id x y d = record d { target_id = id; target_x = x; target_y = y }

abbrev pub at_candidate : Option ℤ → Option ℤ → PuzzleDrop → Bool × PuzzleDrop
at_candidate (some x) (some y) d = (true, at_target d.candidate_target_id x y d)
at_candidate x y d = (false, d)

abbrev pub at_nearest : Option ℤ → Option ℤ → PuzzleDrop → Bool × PuzzleDrop
at_nearest (some x) (some y) d =
    if leb_ℤ (pos 0) d.nearest_compatible_target_id
    then (true, at_target d.nearest_compatible_target_id x y d)
    else (true, record d { target_id = negsuc 0 })
at_nearest x y d = (true, record d { target_id = negsuc 0 })

unfoldable pub resolve_drop_target :
    PuzzleDrop → (cand_x cand_y near_x near_y : Option ℤ) → Bool × PuzzleDrop
resolve_drop_target d cand_x cand_y near_x near_y =
    let found = record d {
      candidate_target_x = cand_x;
      candidate_target_y = cand_y;
      nearest_target_x = near_x;
      nearest_target_y = near_y;
    } in
    if leb_ℤ (pos 0) d.candidate_target_id
    then at_candidate cand_x cand_y found
    else at_nearest near_x near_y found

module _ (distance : ℤ → ℤ → ℤ) where
  abbrev pub by_client : Option ℤ → PuzzleDrop → PuzzleDrop
  by_client none d = d
  by_client (some near) d = record d { nearest_distance = some near }

  -- computeDropDistance
  unfoldable pub compute_drop_distance : Option ℤ → Option ℤ → Option ℤ → PuzzleDrop → PuzzleDrop
  compute_drop_distance (some x) (some y) client d = record d {
    nearest_distance = some (distance (d.release_x -ℤ x) (d.release_y -ℤ y));
  }
  compute_drop_distance x y client d = by_client client d

  abbrev pub moved : ℤ → ℤ → PuzzleDrop → PuzzleDrop
  moved dx dy d = record d { release_x = d.release_x -ℤ dx; release_y = d.release_y -ℤ dy }

  -- What the last loop of fitLegacyDrops does to a drop.
  unfoldable pub shift : ℤ → ℤ → PuzzleDrop → PuzzleDrop
  unfolding compute_drop_distance
  shift dx dy d = compute_drop_distance d.nearest_target_x d.nearest_target_y none (moved dx dy d)

  abbrev pub fitted : ℤ → ℤ → ℤ → PuzzleDropMap → PuzzleDropMap
  fitted dx dy spread m =
      if ltb_ℤ (pos snap_distance_milli) spread
      then withheld "inconsistent" (record m { aligned = false; spread = spread })
      else (record m {
        aligned = true;
        offset_x = dx;
        offset_y = dy;
        spread = spread;
        drops = map (shift dx dy) m.drops;
      })

  -- fitLegacyDrops
  unfoldable pub fit_legacy_drops : PuzzleDropMap → PuzzleDropMap
  fit_legacy_drops m =
      let xs = offsets (λ d. d.release_x) (λ d. d.target_x) m.drops in
      let ys = offsets (λ d. d.release_y) (λ d. d.target_y) m.drops in
      if ltb (length xs) min_placed_for_alignment
      then withheld "too_few_placed" m
      else fitted (int_median xs) (int_median ys)
          (max_ℤ (drop_spread xs (int_median xs)) (drop_spread ys (int_median ys))) m

  -- alignDrops
  unfoldable pub align_drops : PuzzleDropMap → PuzzleDropMap
  align_drops m =
      let known = all_drop_revisions_known m.drops in
      let m' = record m { trusted_coordinates = known } in
      if known || ltb (length m.drops) 1
      then (record m' { aligned = true })
      else if has_mixed_coordinates m.drops
      then withheld "mixed_coordinate_spaces" m'
      else fit_legacy_drops m'

  -- One round of the loop of GetPuzzleDrops.
  abbrev pub add_drop : Bool × PuzzleDrop → PuzzleDropMap → PuzzleDropMap
  add_drop (true, d) m = record m { drops = m.drops ++ (d ∷ []) }
  add_drop (false, d) m = record m { unresolved_drops = m.unresolved_drops + 1 }

  unfoldable pub scan_drops : List DropRow → PuzzleDropMap → PuzzleDropMap
  scan_drops [] m = m
  scan_drops (r ∷ rs) m = scan_drops rs (
      add_drop
        (resolve_drop_target
          (compute_drop_distance r.nearest_x r.nearest_y r.client_distance r.drop) r.candidate_x
          r.candidate_y r.nearest_x r.nearest_y)
        m)

  abbrev pub empty_map : PuzzleDropMap
  empty_map = record {
    drops = [];
    unresolved_drops = 0;
    offset_x = pos 0;
    offset_y = pos 0;
    aligned = false;
    alignment_issue = "";
    spread = pos 0;
    trusted_coordinates = false;
  }

  -- GetPuzzleDrops, on the rows of the query
  unfoldable pub get_puzzle_drops : List DropRow → PuzzleDropMap
  get_puzzle_drops rows = align_drops (scan_drops rows empty_map)
