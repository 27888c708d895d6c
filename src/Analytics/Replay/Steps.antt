-- ===== src/Analytics/Replay/Steps.antt =====
-- The steps of a replay: their numbering, and the house that each shows.
use mortris_server.Prelude.{
  ℕ, suc, ◌+◌, ◌≡◌, refl, ◌∙◌, String, Bool, true, false, not, ◌&&◌, Option, none, some, List, [],
  ◌∷◌, ◌++◌, In, length, str_eq, eq_iff, Bool-cases, inl, inr, if◌then◌else◌, arith,
}
use mathlib.Core.Path.{subst}
use mortris_server.Prelude.Int.{ℤ}
use mortris_server.Analytics.Catalog.{PuzzleCatalog}
use mortris_server.Analytics.Catalog.Scan.{Distinct}
use mortris_server.Analytics.Payload.{
  Payload, field, number, text_of, text_or_empty, integer_set, sorted_block_ids, add, remove,
}
use mortris_server.Analytics.Payload.Sets.{
  Ascending, sorted_block_ids-In, sorted_block_ids-Ascending, add-Distinct, remove-Distinct,
  integer_set-Distinct, add-In, remove-not-In,
}
use mortris_server.Analytics.Attempt.{GameplayAttemptEvent, GameplayAttempt, settle, replaced}
use mortris_server.Analytics.Step.{
  PuzzleReplay, PuzzleReplayStep, Playback, apply_replay_placement, update_replay_sequence,
}
use mortris_server.Analytics.Replay.{
  apply_replay_event, apply_checkpoint, append_step, replay_event, replay_events, build_replay,
  start, name_house,
}

settle-Distinct :
    (outcome : String) (block : ℤ) (set : List ℤ)
    → Distinct set
    → Distinct (settle outcome block set)
unfolding settle
settle-Distinct outcome block set d = go (str_eq outcome "placed") (str_eq outcome "returned")
  where
    go :
        (placed returned : Bool)
        → Distinct (if placed then add block set else if returned then remove block set else set)
    go true returned = add-Distinct block set d
    go false true = remove-Distinct block set d
    go false false = d

settle-placed :
    (outcome : String) (block : ℤ) (set : List ℤ)
    → outcome ≡ "placed"
    → In block (settle outcome block set)
unfolding settle
settle-placed outcome block set e = rw e (add-In block set)

settle-returned :
    (outcome : String) (block : ℤ) (set : List ℤ)
    → outcome ≡ "returned"
    → In block (settle outcome block set)
    → ⊥
unfolding settle
settle-returned outcome block set e i =
    remove-not-In block set (subst (λ o. In block (settle o block set)) e i)

replaced-Distinct :
    (ids : Option String) (set : List ℤ) → Distinct set → Distinct (replaced ids set)
replaced-Distinct (some ids) set d = integer_set-Distinct ids
replaced-Distinct none set d = d

-- A step over a set: a placed block is in it, a returned one is not.
pub record Shows (step : PuzzleReplayStep) (set : List ℤ) : Type 0 where
  pub placed : step.name ≡ "placement_resolved" → step.outcome ≡ "placed" → In step.block_id set
  pub returned :
      step.name ≡ "placement_resolved" → step.outcome ≡ "returned" → In step.block_id set → ⊥

-- What an event does: of the replay it changes the count of mismatches at most, and what holds after it.
pub record Applied (replay : PuzzleReplay) (step : PuzzleReplayStep)
    (r : PuzzleReplay × PuzzleReplayStep × List ℤ) : Type 0 where
  pub mismatches : ℕ
  pub rest : r.0 ≡ record replay { state_hash_mismatches = mismatches }
  pub index : r.1.index ≡ step.index
  pub distinct : Distinct r.2
  pub shows : Shows r.1 r.2

module _ (state_hash : String → String) where
  -- An event that places nothing.
  unplaced :
      (replay r : PuzzleReplay) (step : PuzzleReplayStep) (set : List ℤ) (m : ℕ)
      → str_eq step.name "placement_resolved" ≡ false
      → r ≡ record replay { state_hash_mismatches = m }
      → Distinct set
      → Applied replay step (r, step, set)
  unplaced replay r step set m e same d = record {
    mismatches = m;
    rest = same;
    index = refl;
    distinct = d;
    shows = record { placed = λ name _. absurd (other name); returned = λ name _ _. other name };
  }
    where
      other : step.name ≡ "placement_resolved" → ⊥
      other name = cc ((eq_iff step.name "placement_resolved").1 name)

  apply_checkpoint-Applied :
      (replay : PuzzleReplay) (step : PuzzleReplayStep) (installed : List ℤ) (p : Payload)
      (ids : Option String)
      → str_eq step.name "placement_resolved" ≡ false
      → Distinct installed
      → Applied replay step (apply_checkpoint state_hash replay step installed p ids)
  apply_checkpoint-Applied replay step installed p none e d =
      unplaced replay replay step installed replay.state_hash_mismatches e refl d
  apply_checkpoint-Applied replay step installed p (some ids) e d =
      counted (not (str_eq hash "") && not (str_eq hash (state_hash ids)))
    where
      hash : String
      hash = text_or_empty (field p "placed_state_hash")

      counted :
          (b : Bool)
          → Applied replay step (
            if b
                then record replay { state_hash_mismatches = replay.state_hash_mismatches + 1 }
                else replay,
            step,
            integer_set ids,
          )
      counted true = unplaced replay _ step _ _ e refl (integer_set-Distinct ids)
      counted false = unplaced replay replay step _ _ e refl (integer_set-Distinct ids)

  apply_replay_placement-Applied :
      (replay : PuzzleReplay) (step : PuzzleReplayStep) (catalog : PuzzleCatalog)
      (installed : List ℤ) (p : Payload)
      → Distinct installed
      → Applied replay step (
        replay,
        (apply_replay_placement replay step catalog installed p).0,
        (apply_replay_placement replay step catalog installed p).1,
      )
  unfolding apply_replay_placement
  apply_replay_placement-Applied replay step catalog installed p d = record {
    mismatches = replay.state_hash_mismatches;
    rest = refl;
    index = refl;
    distinct = settle-Distinct _ _ _ (replaced-Distinct _ installed d);
    shows = record {
      placed = λ _ e. settle-placed _ _ _ e;
      returned = λ _ e i. settle-returned _ _ _ e i;
    };
  }

  pub apply_replay_event-Applied :
      (replay : PuzzleReplay) (step : PuzzleReplayStep) (catalog : PuzzleCatalog)
      (installed : List ℤ) (p : Payload)
      → Distinct installed
      → Applied replay step (apply_replay_event state_hash replay step catalog installed p)
  unfolding apply_replay_event
  apply_replay_event-Applied replay step catalog installed p d =
      elim (Bool-cases (str_eq step.name "placement_resolved")) [
        | inl e ↦ rw e (apply_replay_placement-Applied replay step catalog installed p d)
        | inr e ↦ rw e (go (str_eq step.name "state_checkpoint") e)
      ]
    where
      go :
          (checkpoint : Bool)
          → str_eq step.name "placement_resolved" ≡ false
          → Applied replay step (
              if not checkpoint
              then (replay, step, installed)
              else apply_checkpoint state_hash replay step installed p
                  (text_of (field p "placed_block_ids")))
      go true e = apply_checkpoint-Applied replay step installed p _ e d
      go false e = unplaced replay replay step installed replay.state_hash_mismatches e refl d

-- The steps are numbered from `n` on, and each shows its house in ascending order.
abbrev pub Numbered : ℕ → List PuzzleReplayStep → Type 0
Numbered n [] = Unit
Numbered n (s ∷ ss) = (s.index ≡ n) × Ascending s.placed × Shows s s.placed × Numbered (suc n) ss

Numbered-append :
    (n : ℕ) (ss : List PuzzleReplayStep) (s : PuzzleReplayStep)
    → Numbered n ss
    → s.index ≡ n + length ss
    → Ascending s.placed
    → Shows s s.placed
    → Numbered n (ss ++ s ∷ [])
Numbered-append n [] s h i a v = (omega (arith, i), a, v, tt)
Numbered-append n (t ∷ ts) s (i', a', v', h) i a v =
    (i', a', v', Numbered-append (suc n) ts s h (omega (arith, i)) a v)

pub record Played (s : Playback) : Type 0 where
  pub distinct : Distinct s.installed
  pub numbered : Numbered 0 s.replay.steps

pub update_replay_sequence-steps :
    (replay : PuzzleReplay) (event_index previous : ℤ)
    → (update_replay_sequence replay event_index previous).0.steps ≡ replay.steps
unfolding update_replay_sequence
update_replay_sequence-steps replay event_index previous = ground arith

pub name_house-steps :
    (replay : PuzzleReplay) (p : Payload) → (name_house replay p).steps ≡ replay.steps
name_house-steps replay p = ground arith

append_step-Played :
    (keys : List String) (last : ℤ) (replay : PuzzleReplay) (step : PuzzleReplayStep)
    (r : PuzzleReplay × PuzzleReplayStep × List ℤ)
    → Numbered 0 replay.steps
    → step.index ≡ length replay.steps
    → Applied replay step r
    → Played (append_step keys last r)
append_step-Played keys last replay step (after, step', set) n i a = record {
  distinct = a.distinct;
  numbered = rw a.rest (
      Numbered-append 0 replay.steps _ n (omega (arith, i, a.index))
        (sorted_block_ids-Ascending set a.distinct) (shown (a.shows)));
}
  where
    shown :
        Shows step' set
        → Shows (record step' { placed = sorted_block_ids set }) (sorted_block_ids set)
    shown v = record {
      placed = λ name e. (sorted_block_ids-In _ set).1 (v.placed name e);
      returned = λ name e i. v.returned name e ((sorted_block_ids-In _ set).0 i);
    }

module _ (state_hash : String → String) where
  pub replay_event-Played :
      (catalog : PuzzleCatalog) (s : Playback) (e : GameplayAttemptEvent) (p : Option Payload)
      → Played s
      → Played (replay_event state_hash catalog s e p)
  unfolding replay_event
  replay_event-Played catalog s e none h = h
  replay_event-Played catalog s e (some p) h =
      append_step-Played _ _ _ _ _ (rw same h.numbered) refl
        (apply_replay_event-Applied state_hash _ _ catalog s.installed p h.distinct)
    where
      same :
          (update_replay_sequence
            (name_house s.replay p)
            (number (field p "attempt_event_index"))
            s.last_event_index).0.steps
          ≡ s.replay.steps
      same = update_replay_sequence-steps _ _ _ ∙ name_house-steps s.replay p

  replay_events-Played :
      (catalog : PuzzleCatalog) (s : Playback) (es : List GameplayAttemptEvent)
      → Played s
      → Played (replay_events state_hash catalog s es)
  unfolding replay_events
  replay_events-Played catalog s [] h = h
  replay_events-Played catalog s (e ∷ es) h =
      replay_events-Played catalog (replay_event state_hash catalog s e e.properties) es
        (replay_event-Played catalog s e e.properties h)

  -- A replay's steps are numbered 0, 1, 2 and so on; each lists the blocks of the house in strictly
  -- ascending order, with the block of a placement that was `placed` and without the block of
  -- one that was `returned`.
  pub build_replay-steps :
      (attempt_id : String) (raw : GameplayAttempt) (catalog : PuzzleCatalog)
      → Numbered 0 (build_replay state_hash attempt_id raw catalog).steps
  unfolding build_replay
  build_replay-steps attempt_id raw catalog =
      (replay_events-Played catalog (start attempt_id raw) raw.events
        (record { distinct = tt; numbered = tt })).numbered
