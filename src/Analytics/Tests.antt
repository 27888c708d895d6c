-- ===== src/Analytics/Tests.antt =====
-- A catalogue of one house, and an attempt at it.
use mortris_server.Prelude.{
  ℕ, ◌+◌, ◌-◌, ◌^◌, ◌≡◌, ◌≤◌, ◌↔◌, refl, String, true, false, Option, none, some, List, [], ◌∷◌,
  lookup, contains, arith,
}
use mortris_server.Prelude.Int.{ℤ, pos, negsuc, wrap64, ◌+ℤ◌, ◌-ℤ◌}
use mortris_server.Failure.{ok}
use mortris_server.Analytics.Catalog.{PuzzleCatalog, PuzzleCatalogHouse, validate}
use mortris_server.Analytics.Catalog.Valid.{IsCatalog, validate_iff}
use mortris_server.Analytics.Payload.{
  Payload, Value, number, atoi, digits, integer_set, split, add_parts, add,
}
use mortris_server.Analytics.Attempt.{
  GameplayAttemptEvent, GameplayAttempt, populate_missing_support_groups, apply_placement_state,
  missing_groups, missing_required_blocks, settle,
}
use mortris_server.Analytics.Step.{update_replay_sequence, apply_replay_placement}
use mortris_server.Analytics.Replay.{
  build_replay, start, replay_events, replay_event, apply_replay_event,
}
use mortris_server.Analytics.Replay.Steps.{Numbered, build_replay-steps}
use mortris_server.Analytics.Replay.Sequence.{build_replay-gaps}
use mortris_server.Analytics.Replay.Agreement.{build_replay-groups, step_groups, shown_groups}

abbrev house : PuzzleCatalogHouse
house = record {
  house_id = pos 1;
  asset_key = "cottage";
  waves = record { wave_index = pos 0; block_ids = pos 10 ∷ pos 11 ∷ [] } ∷ [];
  blocks =
      record {
        block_id = pos 10;
        order_in_layer = pos 0;
        visual_key = "wall";
        is_ground = true;
        local_x_milli = pos 0;
        local_y_milli = pos 0;
      }
      ∷ record {
        block_id = pos 11;
        order_in_layer = pos 1;
        visual_key = "roof";
        is_ground = false;
        local_x_milli = pos 0;
        local_y_milli = pos 900;
      }
      ∷ [];
  inventory_groups = record { inventory_group_id = "g"; block_ids = pos 10 ∷ [] } ∷ [];
  targets =
      record {
        target_id = pos 5;
        wave_index = pos 0;
        compatible_block_ids = pos 11 ∷ [];
        local_x_milli = pos 0;
        local_y_milli = pos 900;
      }
      ∷ [];
  placement_rules =
      record { target_id = pos 5; alternative_required_groups = (pos 10 ∷ []) ∷ [] } ∷ [];
  display_label = "";
  preview_asset_key = "";
}

abbrev catalog : PuzzleCatalog
catalog = record {
  schema_version = pos 1;
  content_revision = "aaaaaaaaaaaaaaaaaaaaaaaaaaaaaaaaaaaaaaaaaaaaaaaaaaaaaaaaaaaaaaaa";
  cities = record { city_id = pos 3; houses = house ∷ [] } ∷ [];
}

validate_iff_example : (validate catalog ≡ ok tt) ↔ IsCatalog catalog
validate_iff_example = validate_iff catalog

abbrev placement : String → ℤ → ℤ → Payload
placement outcome block index =
    ("attempt_event_index", Value.num index)
    ∷ ("city_id", Value.num (pos 3))
    ∷ ("house_id", Value.num (pos 1))
    ∷ ("candidate_target_id", Value.num (pos 5))
    ∷ ("block_id", Value.num block)
    ∷ ("outcome", Value.text outcome)
    ∷ []

abbrev event : Payload → GameplayAttemptEvent
event p = record {
  event_id = "e";
  name = "placement_resolved";
  effective_at = pos 0;
  properties = some p;
  missing_support_groups = [];
}

-- The roof without its wall, the wall, and the roof again; the number 2 is missing.
abbrev attempt : GameplayAttempt
attempt = record {
  attempt_id = "a";
  install_id = "i";
  content_revision = "";
  events =
      event (placement "fell" (pos 11) (pos 0))
      ∷ event (placement "placed" (pos 10) (pos 1))
      ∷ event (placement "placed" (pos 11) (pos 3))
      ∷ [];
  truncated = false;
}

abbrev no_hash : String → String
no_hash s = ""

build_replay_steps_example : Numbered 0 (build_replay no_hash "a" attempt catalog).steps
build_replay_steps_example = build_replay-steps no_hash "a" attempt catalog

build_replay_gaps_example :
    (gaps : ℕ) × ((build_replay no_hash "a" attempt catalog).sequence_gaps ≡ pos gaps)
    × (0 + 3 + gaps ≡ 3 + 1 + (build_replay no_hash "a" attempt catalog).sequence_duplicates)
unfolding number lookup
build_replay_gaps_example =
    build_replay-gaps no_hash catalog "a" attempt 0 (1 ∷ 3 ∷ []) refl
      (omega arith, omega arith, (omega arith, omega arith, tt))

build_replay_groups_example :
    step_groups (build_replay no_hash "a" attempt catalog).steps
    ≡ shown_groups (populate_missing_support_groups catalog [] attempt.events)
unfolding number lookup
build_replay_groups_example =
    build_replay-groups no_hash catalog "a" attempt (plain, (plain, (plain, tt)))
  where
    plain :
        (◌≡◌ {A = List (List ℤ)} [] [])
        × (◌≡◌ {A = String} "placement_resolved" "placement_resolved"
            → (◌≡◌ {A = Option String} none (some "") → ⊥) × (0 ≤ 3) × (0 ≤ 1))
    plain = (refl, λ _. ((λ e. cc), omega arith, omega arith))

-- The groups that both views show.
groups_of_attempt :
    shown_groups (populate_missing_support_groups catalog [] attempt.events)
    ≡ ((pos 10 ∷ []) ∷ []) ∷ ((pos 10 ∷ []) ∷ []) ∷ ([] ∷ []) ∷ []
unfolding populate_missing_support_groups apply_placement_state missing_groups
    missing_required_blocks settle number lookup contains add
groups_of_attempt = refl

-- An empty list of placed blocks: the attempt view takes it, the replay does not.
abbrev emptied : GameplayAttempt
emptied = record attempt {
  events =
      event (placement "placed" (pos 10) (pos 0))
      ∷ event (("placed_block_ids", Value.text "") ∷ placement "placed" (pos 11) (pos 1))
      ∷ [];
}

groups_of_emptied :
    shown_groups (populate_missing_support_groups catalog [] emptied.events)
    ≡ ((pos 10 ∷ []) ∷ []) ∷ ((pos 10 ∷ []) ∷ []) ∷ []
unfolding populate_missing_support_groups apply_placement_state missing_groups
    missing_required_blocks settle number lookup contains add integer_set split add_parts atoi
    digits
groups_of_emptied = refl

steps_of_emptied :
    step_groups (build_replay no_hash "a" emptied catalog).steps
    ≡ ((pos 10 ∷ []) ∷ []) ∷ ([] ∷ []) ∷ []
unfolding build_replay replay_events replay_event apply_replay_event update_replay_sequence number
    lookup wrap64 ◌+ℤ◌ apply_replay_placement missing_groups missing_required_blocks contains settle
    add
steps_of_emptied = refl

-- After the largest number, whose successor is negative, a smaller one takes gaps away.
largest_number :
    (update_replay_sequence (start "a" attempt).replay (pos 5) (pos (2 ^ 63 - 1))).0.sequence_gaps
    ≡ negsuc (2 ^ 63 - 6)
unfolding update_replay_sequence wrap64 ◌+ℤ◌ ◌-ℤ◌
largest_number = refl
