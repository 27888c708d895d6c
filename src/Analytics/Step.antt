-- ===== src/Analytics/Step.antt =====
-- internal/analytics/puzzle_replay.go: a step of a replay, and what each kind of event does.
use mortris_server.Prelude.{
  ℕ, ◌+◌, String, Bool, true, false, not, ◌&&◌, ◌||◌, Option, none, some, List, ◌∷◌, keep, contains,
  str_eq, string_eq, if◌then◌else◌,
}
use mortris_server.Prelude.Int.{ℤ, pos, ◌+ℤ◌, ◌-ℤ◌, ltb_ℤ, leb_ℤ, eqb_ℤ, wrap64, int_eq}
use mortris_server.Contracts.Pattern.{codes}
use mortris_server.Analytics.Catalog.{
  PuzzleCatalog, PuzzleCatalogCity, PuzzleCatalogHouse, PuzzleCatalogTarget,
}
use mortris_server.Analytics.Payload.{Payload, Value, field, number, text_of, text_or_empty, atoi}
use mortris_server.Analytics.Attempt.{first_of, missing_groups, settle, replaced}

pub record PuzzleReplayStep : Type 0 where
  pub index : ℕ
  pub name : String
  pub at : ℤ
  pub block_id : ℤ
  pub target_id : ℤ
  pub outcome : String
  pub rule_state : String
  pub wave_index : ℤ
  pub release_x : Option ℤ
  pub release_y : Option ℤ
  pub target_x : Option ℤ
  pub target_y : Option ℤ
  pub active_elapsed_ms : ℤ
  pub interaction_id : String
  pub origin : String
  pub progress_origin : String
  pub developer_action_id : String
  pub developer_command : String
  pub placed : List ℤ
  pub missing_support : List (List ℤ)

pub record PuzzleReplay : Type 0 where
  pub attempt_id : String
  pub city_id : ℤ
  pub house_id : ℤ
  pub install_id : String
  pub steps : List PuzzleReplayStep
  pub truncated : Bool
  pub sequence_gaps : ℤ
  pub sequence_duplicates : ℕ
  pub orphan_interactions : ℕ
  pub state_hash_mismatches : ℕ
  pub revision_warning : Bool

-- What the loop of buildReplay carries: `open` are the keys of openInteractions.
pub record Playback : Type 0 where
  pub replay : PuzzleReplay
  pub installed : List ℤ
  pub open_interactions : List String
  pub last_event_index : ℤ

abbrev parsed : ℤ × Bool → Option ℤ
parsed (n, true) = some n
parsed (n, false) = none

-- The values are decoded JSON: the cases `int` and `int64` do not occur.
unfoldable pub coordinate_ptr : Value → Option ℤ
coordinate_ptr Value.null = none
coordinate_ptr (Value.num n) = some n
coordinate_ptr (Value.text s) = if str_eq s "" then none else parsed (atoi (codes s))
coordinate_ptr Value.other = none

unfoldable pub catalog_target_coords : PuzzleCatalog → ℤ → ℤ → ℤ → Option ℤ × Option ℤ
catalog_target_coords catalog city_id house_id target_id =
    if ltb_ℤ target_id (pos 0)
    then (none, none)
    else elim (first_of {B = ℤ × ℤ}
        (λ (city : PuzzleCatalogCity).
          if eqb_ℤ city.city_id city_id
          then first_of
              (λ (house : PuzzleCatalogHouse).
                if eqb_ℤ house.house_id house_id
                then first_of
                    (λ (target : PuzzleCatalogTarget).
                      if eqb_ℤ target.target_id target_id
                      then some (target.local_x_milli, target.local_y_milli)
                      else none)
                    house.targets
                else none)
              city.houses
          else none)
        catalog.cities) [ some (x, y) ↦ (some x, some y) | none ↦ (none, none) ]

-- updateReplaySequence: the replay, and the last index seen.
unfoldable pub update_replay_sequence : PuzzleReplay → ℤ → ℤ → PuzzleReplay × ℤ
update_replay_sequence replay event_index previous =
    if ltb_ℤ event_index (pos 0) then (replay, previous) else (
      if eqb_ℤ event_index previous
          then record replay { sequence_duplicates = replay.sequence_duplicates + 1 }
          else if leb_ℤ (pos 0) previous && ltb_ℤ (wrap64 (previous +ℤ pos 1)) event_index
          then record replay {
            sequence_gaps = wrap64 (replay.sequence_gaps +ℤ (event_index -ℤ previous -ℤ pos 1));
          }
          else replay,
      event_index,
    )

-- delete(open, id)
abbrev pub close_interaction : String → List String → List String
close_interaction id keys = keep (λ k. not (str_eq id k)) keys

abbrev pub open_interaction : String → List String → List String
open_interaction id keys = if contains keys id then keys else id ∷ keys

-- updateReplayInteraction
unfoldable pub update_replay_interaction : List String → PuzzleReplayStep → List String
update_replay_interaction keys step =
    if str_eq step.interaction_id ""
    then keys
    else if str_eq step.name "detail_taken"
    then open_interaction step.interaction_id keys
    else if str_eq step.name "detail_returned"
        || str_eq step.name "interaction_abandoned"
        || (str_eq step.name "placement_resolved" && str_eq step.outcome "placed")
    then close_interaction step.interaction_id keys
    else keys

-- The set that a text names, if it names one.
abbrev pub nonempty : Option String → Option String
nonempty none = none
nonempty (some ids) = if str_eq ids "" then none else some ids

abbrev pub or_else : ℤ → ℤ → ℤ
or_else id fallback = if ltb_ℤ id (pos 0) then fallback else id

abbrev pub is_none : Option ℤ → Bool
is_none none = true
is_none (some n) = false

-- applyReplayPlacement: the step, and what is installed afterwards.
unfoldable pub apply_replay_placement :
    PuzzleReplay → PuzzleReplayStep → PuzzleCatalog → List ℤ → Payload → PuzzleReplayStep × List ℤ
apply_replay_placement replay step catalog before p =
    let installed = replaced (nonempty (text_of (field p "placed_block_ids"))) before in
    let block = number (field p "block_id") in
    let target = number (field p "candidate_target_id") in
    let city = or_else (number (field p "city_id")) replay.city_id in
    let house = or_else (number (field p "house_id")) replay.house_id in
    let outcome = text_or_empty (field p "outcome") in
    let coords =
      if is_none step.target_x || is_none step.target_y
      then catalog_target_coords catalog city house target
      else (step.target_x, step.target_y) in
    (
      record step {
        block_id = block;
        target_id = target;
        target_x = coords.0;
        target_y = coords.1;
        outcome = outcome;
        rule_state = text_or_empty (field p "rule_state");
        missing_support = missing_groups catalog city house target installed;
      },
      settle outcome block installed,
    )
