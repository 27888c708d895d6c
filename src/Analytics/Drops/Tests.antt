-- ===== src/Analytics/Drops/Tests.antt =====
-- Five placed drops, each 100 milli-units to the right of its target.
use mortris_server.Prelude.{refl, true, none, [], ◌∷◌}
use mortris_server.Prelude.Int.{ℤ, pos, ◌-ℤ◌}
use mortris_server.Analytics.Drops.{
  PuzzleDrop, PuzzleDropMap, empty_map, align_drops, all_drop_revisions_known,
  has_mixed_coordinates, fit_legacy_drops, offsets, int_median, sort_ints, insert_int, drop_spread,
  int_abs,
}
use mortris_server.Analytics.Drops.Fit.{IsFit, align_drops-IsFit}

abbrev distance : ℤ → ℤ → ℤ
distance x y = x

abbrev drop : PuzzleDrop
drop = record {
  block_id = pos 1;
  target_id = pos 2;
  candidate_target_id = pos 2;
  candidate_target_x = none;
  candidate_target_y = none;
  nearest_compatible_target_id = pos 2;
  nearest_target_x = none;
  nearest_target_y = none;
  nearest_distance = none;
  outcome = "placed";
  rule_state = "";
  release_x = pos 100;
  release_y = pos 50;
  target_x = pos 0;
  target_y = pos 50;
  attempt_id = "a";
  legacy = true;
}

abbrev plotted : PuzzleDropMap
plotted = record (empty_map distance) { drops = drop ∷ drop ∷ drop ∷ drop ∷ drop ∷ [] }

align_drops_example : IsFit distance plotted (align_drops distance plotted)
unfolding align_drops all_drop_revisions_known has_mixed_coordinates fit_legacy_drops offsets
    int_median sort_ints insert_int drop_spread int_abs ◌-ℤ◌
align_drops_example = align_drops-IsFit distance plotted refl refl refl
