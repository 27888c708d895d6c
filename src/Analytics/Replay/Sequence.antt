-- ===== src/Analytics/Replay/Sequence.antt =====
-- The gaps and duplicates that a replay finds in the numbers of its events.
use mortris_server.Prelude.{
  ℕ, suc, ◌+◌, ◌-◌, ◌^◌, ◌≤◌, ◌<◌, ◌≡◌, refl, ◌∙◌, ap, String, Bool, true, false, ◌&&◌, Option,
  none, some, List, [], ◌∷◌, map, length, ◌==◌, Bool-cases, inl, inr, if◌then◌else◌, ==_iff, arith,
}
use mathlib.Core.Path.{subst}
use mortris_server.Prelude.Int.{
  ℤ, pos, negsuc, ◌+ℤ◌, ◌-ℤ◌, ltb_ℤ, ltb_ℤ→le, leb_ℤ, wrap64, wrap64_small, eq_of_parts, int_laws,
}
use mortris_server.Analytics.Catalog.{PuzzleCatalog}
use mortris_server.Analytics.Payload.{Payload, field, number}
use mortris_server.Analytics.Attempt.{GameplayAttemptEvent, GameplayAttempt}
use mortris_server.Analytics.Step.{PuzzleReplay, PuzzleReplayStep, Playback, update_replay_sequence}
use mortris_server.Analytics.Replay.{
  replay_event, replay_events, build_replay, start, name_house, append_step,
}
use mortris_server.Analytics.Replay.Steps.{
  Applied, Played, replay_event-Played, apply_replay_event-Applied,
}

-- The numbers of the events whose properties decode.
abbrev pub event_index : Option Payload → List ℤ → List ℤ
event_index none rest = rest
event_index (some p) rest = number (field p "attempt_event_index") ∷ rest

abbrev pub event_indexes : List GameplayAttemptEvent → List ℤ
event_indexes [] = []
event_indexes (e ∷ es) = event_index e.properties (event_indexes es)

-- Numbers that never decrease, from `k` on.
abbrev pub Nondecreasing : ℕ → List ℕ → Type 0
Nondecreasing k [] = Unit
Nondecreasing k (j ∷ js) = (k ≤ j) × (j < 2 ^ 63) × Nondecreasing j js

abbrev pub last_of : ℕ → List ℕ → ℕ
last_of k [] = k
last_of k (j ∷ js) = last_of j js

-- After `n` numbers from `first` to `last`.
record Tallied (first last n : ℕ) (replay : PuzzleReplay) : Type 0 where
  gaps : ℕ
  sequence_gaps : replay.sequence_gaps ≡ pos gaps
  total : first + n + gaps ≡ last + 1 + replay.sequence_duplicates
  repeats : replay.sequence_duplicates < n
  few : gaps ≤ last

not_negative : (k : ℕ) → ltb_ℤ (pos k) (pos 0) ≡ false
not_negative k = ground arith

after_start : (k : ℕ) → leb_ℤ (pos 0) (pos k) ≡ true
after_start k = ground arith

next_index : (k : ℕ) → k + 1 < 2 ^ 63 → wrap64 (pos k +ℤ pos 1) ≡ pos (k + 1)
next_index k h = ap wrap64 (eq_of_parts _ _ (omega int_laws)) ∙ wrap64_small (k + 1) h

gap_sum :
    (g k last : ℕ)
    → last < k
    → g + (k - last - 1) < 2 ^ 63
    → wrap64 (pos g +ℤ (pos k -ℤ pos last -ℤ pos 1)) ≡ pos (g + (k - last - 1))
gap_sum g k last h b = ap wrap64 (eq_of_parts _ _ (omega int_laws)) ∙ wrap64_small _ b

update_replay_sequence-next :
    (replay : PuzzleReplay) (first last n k : ℕ)
    → Tallied first last n replay
    → last ≤ k
    → k < 2 ^ 63
    → Tallied first k (suc n) (update_replay_sequence replay (pos k) (pos last)).0
unfolding update_replay_sequence
update_replay_sequence-next replay first last n k t le lt =
    rw (not_negative k) (elim (Bool-cases (k == last)) [
      | inl e ↦ rw e (record {
        gaps = t.gaps;
        sequence_gaps = t.sequence_gaps;
        total = omega (arith, (==_iff k last).0 e, t.total);
        repeats = omega (arith, t.repeats);
        few = omega (arith, t.few, le);
      })
      | inr e ↦ rw e (later (different e))
    ])
  where
    different : (k == last) ≡ false → last < k
    different e = ground arith

    skipped :
        (b : Bool)
        → ltb_ℤ (pos (last + 1)) (pos k) ≡ b
        → last < k
        → let r : PuzzleReplay =
            if b
            then record replay {
              sequence_gaps = wrap64 (replay.sequence_gaps +ℤ (pos k -ℤ pos last -ℤ pos 1));
            }
            else replay in
          Tallied first k (suc n) r
    skipped true e h = record {
      gaps = t.gaps + (k - last - 1);
      sequence_gaps = rw t.sequence_gaps (gap_sum t.gaps k last h (omega (arith, t.few)));
      total = omega (arith, t.total);
      repeats = omega (arith, t.repeats);
      few = omega (arith, t.few);
    }
    skipped false e h = record {
      gaps = t.gaps;
      sequence_gaps = t.sequence_gaps;
      total = omega (arith, t.total, adjacent);
      repeats = omega (arith, t.repeats);
      few = omega (arith, t.few, le);
    }
      where
        adjacent : k ≡ last + 1
        adjacent = omega (arith, ltb_ℤ→le (pos (last + 1)) (pos k) e)

    later :
        last < k
        → Tallied first k (suc n) (
            if leb_ℤ (pos 0) (pos last) && ltb_ℤ (wrap64 (pos last +ℤ pos 1)) (pos k)
            then record replay {
              sequence_gaps = wrap64 (replay.sequence_gaps +ℤ (pos k -ℤ pos last -ℤ pos 1));
            }
            else replay)
    later h = rw (after_start last, next_index last (omega arith)) (skipped _ refl h)

update_replay_sequence-last :
    (replay : PuzzleReplay) (k : ℕ) (previous : ℤ)
    → (update_replay_sequence replay (pos k) previous).1 ≡ pos k
unfolding update_replay_sequence
update_replay_sequence-last replay k previous = rw (not_negative k) refl

-- The first number of all.
update_replay_sequence-start :
    (replay : PuzzleReplay) (k : ℕ)
    → replay.sequence_gaps ≡ pos 0
    → replay.sequence_duplicates ≡ 0
    → Tallied k k 1 (update_replay_sequence replay (pos k) (negsuc 0)).0
unfolding update_replay_sequence
update_replay_sequence-start replay k g d = rw (not_negative k) (record {
  gaps = 0;
  sequence_gaps = g;
  total = omega (arith, d);
  repeats = omega (arith, d);
  few = omega arith;
})

name_house-Tallied :
    (first last n : ℕ) (replay : PuzzleReplay) (p : Payload)
    → Tallied first last n replay
    → Tallied first last n (name_house replay p)
name_house-Tallied first last n replay p t = go (ltb_ℤ replay.city_id (pos 0))
  where
    go :
        (b : Bool)
        → let r : PuzzleReplay =
            if b
            then record replay {
              city_id = number (field p "city_id");
              house_id = number (field p "house_id");
            }
            else replay in
          Tallied first last n r
    go true = record {
      gaps = t.gaps;
      sequence_gaps = t.sequence_gaps;
      total = t.total;
      repeats = t.repeats;
      few = t.few;
    }
    go false = t

append_step-Tallied :
    (first last n : ℕ) (keys : List String) (at : ℤ) (replay : PuzzleReplay)
    (step : PuzzleReplayStep) (r : PuzzleReplay × PuzzleReplayStep × List ℤ)
    → Tallied first last n replay
    → Applied replay step r
    → Tallied first last n (append_step keys at r).replay
append_step-Tallied first last n keys at replay step (after, step', set) t a = record {
  gaps = t.gaps;
  sequence_gaps = ap (λ r. r.sequence_gaps) a.rest ∙ t.sequence_gaps;
  total = omega (arith, t.total, ap (λ r. r.sequence_duplicates) a.rest);
  repeats = omega (arith, t.repeats, ap (λ r. r.sequence_duplicates) a.rest);
  few = t.few;
}

-- The state after some events.
record Sequenced (first last n : ℕ) (s : Playback) : Type 0 where
  place : s.last_event_index ≡ pos last
  tally : Tallied first last n s.replay
  played : Played s

module _ (state_hash : String → String) (catalog : PuzzleCatalog) where
  -- A turn counts as its number does.
  replay_event-Sequenced :
      (first last n : ℕ) (s : Playback) (e : GameplayAttemptEvent) (p : Payload)
      → Played s
      → (update_replay_sequence
          (name_house s.replay p)
          (number (field p "attempt_event_index"))
          s.last_event_index).1
        ≡ pos last
      → Tallied first last n
          (update_replay_sequence
            (name_house s.replay p)
            (number (field p "attempt_event_index"))
            s.last_event_index).0
      → Sequenced first last n (replay_event state_hash catalog s e (some p))
  unfolding replay_event
  replay_event-Sequenced first last n s e p h l t = record {
    place = l;
    tally =
        append_step-Tallied first last n [] (pos 0) _ _ _ t
          (apply_replay_event-Applied state_hash _ _ catalog s.installed p h.distinct);
    played = replay_event-Played state_hash catalog s e (some p) h;
  }

  abbrev Later : ℕ → List GameplayAttemptEvent → Type 0
  Later first es =
      (last n : ℕ) (s : Playback) (ks : List ℕ)
      → event_indexes es ≡ map pos ks
      → Nondecreasing last ks
      → Sequenced first last n s
      → Sequenced first (last_of last ks) (length ks + n) (replay_events state_hash catalog s es)

  -- One turn, and those after it.
  turn :
      (first : ℕ) (es : List GameplayAttemptEvent) (rest : Later first es)
      (x : GameplayAttemptEvent) (props : Option Payload) (last n : ℕ) (s : Playback) (ks : List ℕ)
      → event_index props (event_indexes es) ≡ map pos ks
      → Nondecreasing last ks
      → Sequenced first last n s
      → Sequenced first
          (last_of last ks)
          (length ks + n)
          (replay_events state_hash catalog (replay_event state_hash catalog s x props) es)
  unfolding replay_event
  turn first es rest x none last n s ks e h q = rest last n s ks e h q
  turn first es rest x (some p) last n s [] e h q = absurd (cc)
  turn first es rest x (some p) last n s (k ∷ ks) e (le, lt, h) q =
      subst
        (λ m.
          Sequenced first (last_of k ks) m
            (replay_events state_hash catalog (replay_event state_hash catalog s x (some p)) es))
        (omega arith)
        (rest k (suc n) (replay_event state_hash catalog s x (some p)) ks (cc) h (
          replay_event-Sequenced first k (suc n) s x p q.played
            (rw (number_eq, q.place) (update_replay_sequence-last _ k (pos last)))
            (rw (number_eq, q.place)
              (update_replay_sequence-next _ first last n k
                (name_house-Tallied first last n s.replay p q.tally) le lt))))
    where
      number_eq : number (field p "attempt_event_index") ≡ pos k
      number_eq = cc

  replay_events-Sequenced : (es : List GameplayAttemptEvent) (first : ℕ) → Later first es
  unfolding replay_events
  replay_events-Sequenced [] first last n s [] e h q =
      subst (λ m. Sequenced first last m s) (omega arith) q
  replay_events-Sequenced [] first last n s (k ∷ ks) e h q = absurd (cc)
  replay_events-Sequenced (x ∷ es) first last n s ks e h q =
      turn first es (replay_events-Sequenced es first) x x.properties last n s ks e h q

  -- The events before the first that decodes change nothing.
  started :
      (es : List GameplayAttemptEvent) (s : Playback) (k : ℕ) (ks : List ℕ)
      → s.last_event_index ≡ negsuc 0
      → s.replay.sequence_gaps ≡ pos 0
      → s.replay.sequence_duplicates ≡ 0
      → Played s
      → event_indexes es ≡ map pos (k ∷ ks)
      → Nondecreasing k ks
      → Sequenced k (last_of k ks) (length ks + 1) (replay_events state_hash catalog s es)
  unfolding replay_events replay_event
  started [] s k ks l g d h e m = absurd (cc)
  started (x ∷ es) s k ks l g d h e m = go x.properties e (started es)
    where
      go :
          (props : Option Payload)
          → event_index props (event_indexes es) ≡ map pos (k ∷ ks)
          → ((s : Playback) (k : ℕ) (ks : List ℕ)
              → s.last_event_index ≡ negsuc 0
              → s.replay.sequence_gaps ≡ pos 0
              → s.replay.sequence_duplicates ≡ 0
              → Played s
              → event_indexes es ≡ map pos (k ∷ ks)
              → Nondecreasing k ks
              → Sequenced k (last_of k ks) (length ks + 1) (replay_events state_hash catalog s es))
          → Sequenced k
              (last_of k ks)
              (length ks + 1)
              (replay_events state_hash catalog (replay_event state_hash catalog s x props) es)
      go none e rest = rest s k ks l g d h e m
      go (some p) e rest = replay_events-Sequenced es k k 1 _ ks (cc) m (
          replay_event-Sequenced k k 1 s x p h
            (rw (number_eq, l) (update_replay_sequence-last _ k (negsuc 0)))
            (rw (number_eq, l)
              (update_replay_sequence-start _ k (name_house_gaps ∙ g) (name_house_duplicates ∙ d))))
        where
          number_eq : number (field p "attempt_event_index") ≡ pos k
          number_eq = cc

          name_house_gaps : (name_house s.replay p).sequence_gaps ≡ s.replay.sequence_gaps
          name_house_gaps = ground arith

          name_house_duplicates :
              (name_house s.replay p).sequence_duplicates ≡ s.replay.sequence_duplicates
          name_house_duplicates = ground arith

  -- Where the numbers of an attempt's events, `first` and `rest`, never decrease and are less
  -- than 2^63, the gaps that the replay reports are not negative, and the numbers from the first
  -- to the last are as many as the events that repeat no number and the gaps together.
  pub build_replay-gaps :
      (attempt_id : String) (raw : GameplayAttempt) (first : ℕ) (rest : List ℕ)
      → event_indexes raw.events ≡ map pos (first ∷ rest)
      → Nondecreasing first rest
      → (gaps : ℕ) × ((build_replay state_hash attempt_id raw catalog).sequence_gaps ≡ pos gaps)
        × (first + length (first ∷ rest) + gaps
            ≡ last_of first rest
              + 1
              + (build_replay state_hash attempt_id raw catalog).sequence_duplicates)
  unfolding build_replay
  build_replay-gaps attempt_id raw first rest e m =
      let q =
        started raw.events (start attempt_id raw) first rest refl refl refl
          (record { distinct = tt; numbered = tt }) e m in
      (q.tally.gaps, q.tally.sequence_gaps, omega (arith, q.tally.total))
