-- ===== src/Analytics/Replay.antt =====
-- internal/analytics/puzzle_replay.go: one attempt played back step by step. `state_hash` is the
-- hexadecimal SHA-256 of a text.
pub mod Steps
pub mod Sequence
pub mod Agreement
use mortris_server.Prelude.{
  ℕ, ◌+◌, suc, String, Bool, true, false, not, ◌&&◌, ◌||◌, Option, none, some, List, [], ◌∷◌, ◌++◌,
  length, str_eq, is_empty, any, if◌then◌else◌,
}
use mortris_server.Prelude.Int.{ℤ, pos, negsuc, ltb_ℤ, leb_ℤ}
use mortris_server.Failure.{Result, ok, err, ◌>>=◌, new_error, not_found, unknown_content_revision}
use mortris_server.Analytics.Catalog.{PuzzleCatalog}
use mortris_server.Analytics.Payload.{
  Payload, field, number, number64, text_of, text_or_empty, integer_set, sorted_block_ids,
}
use mortris_server.Analytics.Attempt.{
  GameplayAttemptEvent, GameplayAttempt, load_gameplay_attempt_events,
}
use mortris_server.Analytics.Step.{
  PuzzleReplay, PuzzleReplayStep, Playback, coordinate_ptr, catalog_target_coords,
  update_replay_sequence, update_replay_interaction, apply_replay_placement,
}

-- The house of the replay is that of the first events that name a city.
abbrev pub name_house : PuzzleReplay → Payload → PuzzleReplay
name_house replay p =
    if ltb_ℤ replay.city_id (pos 0)
    then record replay {
      city_id = number (field p "city_id");
      house_id = number (field p "house_id");
    }
    else replay

-- The step before what its event does to the house is known.
abbrev pub new_step :
    PuzzleReplay → PuzzleCatalog → GameplayAttemptEvent → Payload → PuzzleReplayStep
new_step replay catalog e p =
    let target = number (field p "candidate_target_id") in
    let coords = catalog_target_coords catalog replay.city_id replay.house_id target in
    record {
      index = length replay.steps;
      name = e.name;
      at = e.effective_at;
      block_id = number (field p "block_id");
      target_id = target;
      outcome = text_or_empty (field p "outcome");
      rule_state = text_or_empty (field p "rule_state");
      wave_index = number (field p "wave_index");
      release_x = coordinate_ptr (field p "release_x_milli");
      release_y = coordinate_ptr (field p "release_y_milli");
      target_x = coords.0;
      target_y = coords.1;
      active_elapsed_ms = number64 (field p "active_elapsed_ms");
      interaction_id = text_or_empty (field p "interaction_id");
      origin = text_or_empty (field p "origin");
      progress_origin = text_or_empty (field p "progress_origin");
      developer_action_id = text_or_empty (field p "developer_action_id");
      developer_command = text_or_empty (field p "developer_command");
      placed = [];
      missing_support = [];
    }

-- The end of a turn: the step has the set as it stands.
abbrev pub append_step : List String → ℤ → PuzzleReplay × PuzzleReplayStep × List ℤ → Playback
append_step keys last (replay, step, installed) = record {
  replay = record replay {
    steps = replay.steps ++ record step { placed = sorted_block_ids installed } ∷ [];
  };
  installed = installed;
  open_interactions = keys;
  last_event_index = last;
}

abbrev pub start : String → GameplayAttempt → Playback
start attempt_id raw = record {
  replay = record {
    attempt_id = attempt_id;
    city_id = negsuc 0;
    house_id = negsuc 0;
    install_id = raw.install_id;
    steps = [];
    truncated = raw.truncated;
    sequence_gaps = pos 0;
    sequence_duplicates = 0;
    orphan_interactions = 0;
    state_hash_mismatches = 0;
    revision_warning = false;
  };
  installed = [];
  open_interactions = [];
  last_event_index = negsuc 0;
}

module _ (state_hash : String → String) where
  -- A checkpoint whose hash is not that of its identifiers is counted.
  abbrev pub checked_hash : PuzzleReplay → String → String → PuzzleReplay
  checked_hash replay hash ids =
      if not (str_eq hash "") && not (str_eq hash (state_hash ids))
      then record replay { state_hash_mismatches = replay.state_hash_mismatches + 1 }
      else replay

  abbrev pub apply_checkpoint :
      PuzzleReplay
      → PuzzleReplayStep
      → List ℤ
      → Payload
      → Option String
      → PuzzleReplay × PuzzleReplayStep × List ℤ
  apply_checkpoint replay step installed p none = (replay, step, installed)
  apply_checkpoint replay step installed p (some ids) =
      (checked_hash replay (text_or_empty (field p "placed_state_hash")) ids, step, integer_set ids)

  -- applyReplayEvent
  unfoldable pub apply_replay_event :
      PuzzleReplay
      → PuzzleReplayStep
      → PuzzleCatalog
      → List ℤ
      → Payload
      → PuzzleReplay × PuzzleReplayStep × List ℤ
  apply_replay_event replay step catalog installed p =
      if str_eq step.name "placement_resolved"
      then (let (step', after) = apply_replay_placement replay step catalog installed p in
          (replay, step', after))
      else if not (str_eq step.name "state_checkpoint")
      then (replay, step, installed)
      else apply_checkpoint replay step installed p (text_of (field p "placed_block_ids"))

  -- One turn of the loop of buildReplay.
  unfoldable pub replay_event :
      PuzzleCatalog → Playback → GameplayAttemptEvent → Option Payload → Playback
  replay_event catalog s e none = s
  replay_event catalog s e (some p) =
      let sequenced =
        update_replay_sequence (name_house s.replay p) (number (field p "attempt_event_index"))
          s.last_event_index in
      let step = new_step sequenced.0 catalog e p in
      append_step (update_replay_interaction s.open_interactions step) sequenced.1
        (apply_replay_event sequenced.0 step catalog s.installed p)

  unfoldable pub replay_events : PuzzleCatalog → Playback → List GameplayAttemptEvent → Playback
  replay_events catalog s [] = s
  replay_events catalog s (e ∷ es) =
      replay_events catalog (replay_event catalog s e e.properties) es

  unfoldable pub build_replay : String → GameplayAttempt → PuzzleCatalog → PuzzleReplay
  build_replay attempt_id raw catalog =
      let s = replay_events catalog (start attempt_id raw) raw.events in
      record s.replay { orphan_interactions = length s.open_interactions }

  -- attemptUsesSchemaV2
  unfoldable pub attempt_uses_schema_v2 : List GameplayAttemptEvent → Bool
  attempt_uses_schema_v2 es = any (λ e. is_current e.properties) es
    where
      is_current : Option Payload → Bool
      is_current none = false
      is_current (some p) = leb_ℤ (pos 2) (number (field p "schema_version"))

  -- loadReplayCatalog, over what loadAttemptCatalog and latestPuzzleRevision find.
  unfoldable pub load_replay_catalog :
      (String → Result PuzzleCatalog)
      → Result String
      → String
      → Bool
      → Result (PuzzleCatalog × Bool)
  load_replay_catalog load_catalog latest revision allow_legacy_fallback = do
    catalog ← load_catalog revision
    if not (is_empty catalog.cities)
        then ok (catalog, false)
        else if not allow_legacy_fallback
        then err (new_error 409 unknown_content_revision)
        else do newest ← latest; fallback ← load_catalog newest; ok (fallback, true)

  -- GetPuzzleReplay, over the rows that the query gives.
  unfoldable pub get_puzzle_replay :
      (String → Result PuzzleCatalog)
      → Result String
      → String
      → List (GameplayAttemptEvent × String)
      → Result PuzzleReplay
  get_puzzle_replay load_catalog latest attempt_id rows =
      let raw = load_gameplay_attempt_events attempt_id rows in
      if is_empty raw.events then err (new_error 404 not_found) else do
        (catalog, legacy_fallback) ←
            load_replay_catalog load_catalog latest raw.content_revision
              (not (attempt_uses_schema_v2 raw.events))
        ok (record (build_replay attempt_id raw catalog) { revision_warning = legacy_fallback })
