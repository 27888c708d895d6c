-- ===== src/Analytics/Replay/Agreement.antt =====
-- The replay of puzzle_replay.go and the attempt view of puzzle_attempt.go side by side.
use mortris_server.Prelude.{
  ◌≡◌, ◌≢◌, refl, sym, ◌∙◌, ap, ap₂, String, Bool, true, false, not, Option, none, some, List, [],
  ◌∷◌, ◌++◌, map, All, str_eq, eq_iff, Bool-cases, inl, inr, if◌then◌else◌, arith,
}
use mathlib.Core.List.{append-nil, append_assoc, map-append}
use mortris_server.Prelude.Int.{ℤ, pos, ◌≤ℤ◌}
use mortris_server.Analytics.Catalog.{PuzzleCatalog}
use mortris_server.Analytics.Payload.{Payload, field, number, text_of}
use mortris_server.Analytics.Attempt.{
  GameplayAttemptEvent, GameplayAttempt, replaced, apply_placement_state, populate,
  populate_missing_support_groups,
}
use mortris_server.Analytics.Step.{
  PuzzleReplay, PuzzleReplayStep, Playback, apply_replay_placement, nonempty, or_else,
  update_replay_sequence,
}
use mortris_server.Analytics.Replay.{
  apply_replay_event, apply_checkpoint, checked_hash, replay_event, replay_events, build_replay,
  start, name_house, new_step,
}
use mortris_server.Analytics.Replay.Steps.{update_replay_sequence-steps, name_house-steps}

-- A placement that names its city, its house and a set of blocks that is not empty.
abbrev pub Plain : Option Payload → Type 0
Plain none = Unit
Plain (some p) =
    (text_of (field p "placed_block_ids") ≢ some "")
    × (pos 0 ≤ℤ number (field p "city_id"))
    × (pos 0 ≤ℤ number (field p "house_id"))

abbrev pub IsPlain : GameplayAttemptEvent → Type 0
IsPlain e = (e.missing_support_groups ≡ []) × (e.name ≡ "placement_resolved" → Plain e.properties)

-- The missing groups of the events whose properties decode.
abbrev pub shown : Option Payload → List (List ℤ) → List (List (List ℤ)) → List (List (List ℤ))
shown none groups rest = rest
shown (some p) groups rest = groups ∷ rest

abbrev pub shown_groups : List GameplayAttemptEvent → List (List (List ℤ))
shown_groups [] = []
shown_groups (e ∷ es) = shown e.properties e.missing_support_groups (shown_groups es)

abbrev pub step_groups : List PuzzleReplayStep → List (List (List ℤ))
step_groups steps = map (λ s. s.missing_support) steps

nonempty-same : (ids : Option String) → ids ≢ some "" → nonempty ids ≡ ids
nonempty-same none n = refl
nonempty-same (some s) n = elim (Bool-cases (str_eq s "")) [
  | inl e ↦ absurd (n (ap some ((eq_iff s "").0 e)))
  | inr e ↦ rw e refl
]

or_else-own : (id fallback : ℤ) → pos 0 ≤ℤ id → or_else id fallback ≡ id
or_else-own id fallback h = ground arith

-- Both views of a placement.
apply_replay_placement-Plain :
    (replay : PuzzleReplay) (step : PuzzleReplayStep) (catalog : PuzzleCatalog) (set : List ℤ)
    (p : Payload)
    → Plain (some p)
    → ((apply_replay_placement replay step catalog set p).0.missing_support
        ≡ (apply_placement_state catalog set p).0)
      × ((apply_replay_placement replay step catalog set p).1
          ≡ (apply_placement_state catalog set p).1)
unfolding apply_replay_placement apply_placement_state
apply_replay_placement-Plain replay step catalog set p (ids, city, house) =
    rw
      (
        nonempty-same (text_of (field p "placed_block_ids")) ids,
        or_else-own _ replay.city_id city,
        or_else-own _ replay.house_id house,
      )
      (refl, refl)

-- The two views of one event, by whether it is a checkpoint or a placement.
record Agrees (catalog : PuzzleCatalog) (set : List ℤ) (e : GameplayAttemptEvent) (p : Payload)
    (replay : PuzzleReplay) (checkpoint placement : Bool)
    (r : PuzzleReplay × PuzzleReplayStep × List ℤ) : Type 0 where
  steps : r.0.steps ≡ replay.steps
  groups :
      r.1.missing_support
      ≡ (populate checkpoint placement (some p) catalog set e).0.missing_support_groups
  after : r.2 ≡ (populate checkpoint placement (some p) catalog set e).1

module _ (state_hash : String → String) (replay : PuzzleReplay) (step : PuzzleReplayStep)
    (catalog : PuzzleCatalog) (set : List ℤ) (e : GameplayAttemptEvent) (p : Payload)
    (empty : step.missing_support ≡ []) (bare : e.missing_support_groups ≡ []) where
  checked_hash-steps :
      (hash ids : String) → (checked_hash state_hash replay hash ids).steps ≡ replay.steps
  checked_hash-steps hash ids = ground arith

  apply_checkpoint-Agrees :
      (ids : Option String)
      → let r : PuzzleReplay × PuzzleReplayStep × List ℤ =
          apply_checkpoint state_hash replay step set p ids in
        (r.0.steps ≡ replay.steps) × (r.1.missing_support ≡ []) × (r.2 ≡ replaced ids set)
  apply_checkpoint-Agrees none = (refl, empty, refl)
  apply_checkpoint-Agrees (some ids) = (checked_hash-steps _ ids, empty, refl)

  by_name :
      (checkpoint placement : Bool)
      → (placement ≡ true → (checkpoint ≡ false) × Plain (some p))
      → Agrees catalog set e p replay checkpoint placement (
          if placement
          then (
            replay,
            (apply_replay_placement replay step catalog set p).0,
            (apply_replay_placement replay step catalog set p).1,
          )
          else if not checkpoint
          then (replay, step, set)
          else apply_checkpoint state_hash replay step set p (text_of (field p "placed_block_ids")))
  by_name true true h = absurd (cc (h refl).0)
  by_name false true h =
      let (groups, after) = apply_replay_placement-Plain replay step catalog set p (h refl).1 in
      record { steps = refl; groups = groups; after = after }
  by_name false false h = record { steps = refl; groups = empty ∙ sym bare; after = refl }
  by_name true false h =
      let (steps, groups, after) = apply_checkpoint-Agrees (text_of (field p "placed_block_ids")) in
      record { steps = steps; groups = groups ∙ sym bare; after = after }

  apply_replay_event-Agrees :
      (step.name ≡ "placement_resolved" → Plain (some p))
      → Agrees catalog set e p replay
          (str_eq step.name "state_checkpoint")
          (str_eq step.name "placement_resolved")
          (apply_replay_event state_hash replay step catalog set p)
  unfolding apply_replay_event
  apply_replay_event-Agrees plain = by_name _ _ λ h.
      let name = (eq_iff step.name "placement_resolved").0 h in
      (ap (λ n. str_eq n "state_checkpoint") name, plain name)

populate-properties :
    (checkpoint placement : Bool) (props : Option Payload) (catalog : PuzzleCatalog) (set : List ℤ)
    (e : GameplayAttemptEvent)
    → (populate checkpoint placement props catalog set e).0.properties ≡ e.properties
populate-properties checkpoint placement none catalog set e = refl
populate-properties true placement (some p) catalog set e = refl
populate-properties false false (some p) catalog set e = refl
populate-properties false true (some p) catalog set e = refl

-- A step at the end of one list, or its groups at the head of the next.
joined :
    (steps before : List PuzzleReplayStep) (step : PuzzleReplayStep) (rest : List (List (List ℤ)))
    → steps ≡ before
    → step_groups (steps ++ step ∷ []) ++ rest ≡ step_groups before ++ step.missing_support ∷ rest
joined steps before step rest same =
    ap (λ gs. gs ++ rest) (map-append (λ s. s.missing_support) steps (step ∷ []))
    ∙ append_assoc (step_groups steps) (step.missing_support ∷ []) rest
    ∙ ap (λ ss. step_groups ss ++ step.missing_support ∷ rest) same

module _ (state_hash : String → String) (catalog : PuzzleCatalog) where
  -- The events as the attempt view leaves them.
  abbrev views : List ℤ → List GameplayAttemptEvent → List (List (List ℤ))
  views set es = shown_groups (populate_missing_support_groups catalog set es)

  abbrev AgreeFrom : List GameplayAttemptEvent → Type 0
  AgreeFrom es =
      (s : Playback)
      → All IsPlain es
      → step_groups (replay_events state_hash catalog s es).replay.steps
        ≡ step_groups s.replay.steps ++ views s.installed es

  turn :
      (e : GameplayAttemptEvent) (es : List GameplayAttemptEvent) (s : Playback)
      (props : Option Payload)
      → e.missing_support_groups ≡ []
      → (e.name ≡ "placement_resolved" → Plain props)
      → All IsPlain es
      → AgreeFrom es
      → let t =
          populate
            (str_eq e.name "state_checkpoint")
            (str_eq e.name "placement_resolved")
            props
            catalog
            s.installed
            e in
        step_groups
          (replay_events state_hash catalog
            (replay_event state_hash catalog s e props)
            es).replay.steps
        ≡ step_groups s.replay.steps ++ shown props t.0.missing_support_groups (views t.1 es)
  unfolding replay_event
  turn e es s none bare plain rest agree = agree s rest
  turn e es s (some p) bare plain rest agree =
      let sequenced =
        update_replay_sequence (name_house s.replay p) (number (field p "attempt_event_index"))
          s.last_event_index in
      let step = new_step sequenced.0 catalog e p in
      let a =
        apply_replay_event-Agrees state_hash sequenced.0 step catalog s.installed e p refl bare
          plain in
      agree _ rest
      ∙ joined _ _ _ _ (a.steps ∙ update_replay_sequence-steps _ _ _ ∙ name_house-steps s.replay p)
      ∙ ap₂ (λ g set. step_groups s.replay.steps ++ g ∷ views set es) a.groups a.after

  replay_events-AgreeFrom : (es : List GameplayAttemptEvent) → AgreeFrom es
  unfolding replay_events populate_missing_support_groups
  replay_events-AgreeFrom [] s h = sym (append-nil _)
  replay_events-AgreeFrom (e ∷ es) s ((bare, plain), h) =
      let t =
        populate (str_eq e.name "state_checkpoint") (str_eq e.name "placement_resolved")
          e.properties catalog s.installed e in
      turn e es s e.properties bare plain h (replay_events-AgreeFrom es)
      ∙ ap
          (λ props.
            step_groups s.replay.steps ++ shown props t.0.missing_support_groups (views t.1 es))
          (sym (populate-properties _ _ e.properties catalog s.installed e))

  -- Where no event comes with missing groups and every placement names its city, its house and a
  -- set of blocks that is not the empty text, the steps of the replay have the missing groups
  -- that the attempt view gives the events whose properties decode, in the same order.
  pub build_replay-groups :
      (attempt_id : String) (raw : GameplayAttempt)
      → All IsPlain raw.events
      → step_groups (build_replay state_hash attempt_id raw catalog).steps
        ≡ shown_groups (populate_missing_support_groups catalog [] raw.events)
  unfolding build_replay
  build_replay-groups attempt_id raw h = replay_events-AgreeFrom raw.events (start attempt_id raw) h
