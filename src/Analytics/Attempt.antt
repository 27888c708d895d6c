-- ===== src/Analytics/Attempt.antt =====
-- internal/analytics/puzzle_attempt.go: the events of one attempt, and the support that was
-- missing at each placement. The rows of the query are given; a row's properties are given as
-- json.Unmarshal decodes them, `none` where it fails.
use mortris_server.Prelude.{
  ℕ, String, Bool, true, false, not, Option, none, some, List, [], ◌∷◌, ◌++◌, map, length, ltb,
  zero, suc, keep, contains, str_eq, is_empty, if◌then◌else◌,
}
use mortris_server.Prelude.Int.{ℤ, eqb_ℤ, int_eq}
use mortris_server.Failure.{Result, ok, err, new_error, not_found}
use mortris_server.Analytics.Catalog.{
  PuzzleCatalog, PuzzleCatalogCity, PuzzleCatalogHouse, PuzzlePlacementRule,
}
use mortris_server.Analytics.Payload.{
  Payload, field, number, text_of, text_or_empty, integer_set, add, remove,
}

pub record GameplayAttemptEvent : Type 0 where
  pub event_id : String
  pub name : String
  pub effective_at : ℤ
  pub properties : Option Payload
  pub missing_support_groups : List (List ℤ)

pub record GameplayAttempt : Type 0 where
  pub attempt_id : String
  pub install_id : String
  pub content_revision : String
  pub events : List GameplayAttemptEvent
  pub truncated : Bool

-- setAttemptContentRevision
unfoldable pub set_attempt_content_revision : GameplayAttempt → Option Payload → GameplayAttempt
set_attempt_content_revision a properties =
    if str_eq a.content_revision ""
    then record a {
      content_revision = elim properties [
        | some p ↦ text_or_empty (field p "content_revision")
        | none ↦ ""
      ];
    }
    else a

abbrev set_install : GameplayAttempt → String → GameplayAttempt
set_install a install = if str_eq a.install_id "" then record a { install_id = install } else a

-- The loop over the rows: an event, and the installation that sent it.
unfoldable pub scan_rows : GameplayAttempt → List (GameplayAttemptEvent × String) → GameplayAttempt
scan_rows a [] = a
scan_rows a ((e, install) ∷ rows) =
    let b = set_install (set_attempt_content_revision a e.properties) install in
    scan_rows (record b { events = b.events ++ e ∷ [] }) rows

abbrev first : ℕ → List GameplayAttemptEvent → List GameplayAttemptEvent
first zero es = []
first (suc n) [] = []
first (suc n) (e ∷ es) = e ∷ first n es

abbrev pub max_events : ℕ
max_events = 10000

abbrev truncate : GameplayAttempt → GameplayAttempt
truncate a =
    if ltb max_events (length a.events)
    then record a { events = first max_events a.events; truncated = true }
    else a

unfoldable pub load_gameplay_attempt_events :
    String → List (GameplayAttemptEvent × String) → GameplayAttempt
load_gameplay_attempt_events attempt_id rows = truncate (
    scan_rows
      (record {
        attempt_id = attempt_id;
        install_id = "";
        content_revision = "";
        events = [];
        truncated = false;
      })
      rows)

-- A `return` from nested loops: the first element that gives one.
abbrev pub first_of : {A B : Type 0} → (A → Option B) → List A → Option B
first_of f [] = none
first_of f (x ∷ xs) = elim (f x) [ some b ↦ some b | none ↦ first_of f xs ]

-- The placed block becomes part of the set, or leaves it.
unfoldable pub settle : String → ℤ → List ℤ → List ℤ
settle outcome block installed =
    if str_eq outcome "placed"
    then add block installed
    else if str_eq outcome "returned"
    then remove block installed
    else installed

unfoldable pub missing_required_blocks : List (List ℤ) → List ℤ → List (List ℤ)
missing_required_blocks groups installed =
    map (λ group. keep (λ id. not (contains installed id)) group) groups

unfoldable pub missing_groups : PuzzleCatalog → ℤ → ℤ → ℤ → List ℤ → List (List ℤ)
missing_groups catalog city_id house_id target_id installed =
    elim (first_of
      (λ (city : PuzzleCatalogCity).
        if eqb_ℤ city.city_id city_id
        then first_of
            (λ (house : PuzzleCatalogHouse).
              if eqb_ℤ house.house_id house_id
              then first_of
                  (λ (rule : PuzzlePlacementRule).
                    if eqb_ℤ rule.target_id target_id
                    then some (missing_required_blocks rule.alternative_required_groups installed)
                    else none)
                  house.placement_rules
              else none)
            city.houses
        else none)
      catalog.cities) [ some groups ↦ groups | none ↦ [] ]

-- `if ids, ok := value.(string); ok { installed = integerSet(ids) }`
abbrev pub replaced : Option String → List ℤ → List ℤ
replaced (some ids) installed = integer_set ids
replaced none installed = installed

-- applyPlacementState: the missing groups, and what is installed afterwards.
unfoldable pub apply_placement_state : PuzzleCatalog → List ℤ → Payload → List (List ℤ) × List ℤ
apply_placement_state catalog before p =
    let installed = replaced (text_of (field p "placed_block_ids")) before in
    (
      missing_groups catalog (number (field p "city_id")) (number (field p "house_id"))
          (number (field p "candidate_target_id")) installed,
      settle (text_or_empty (field p "outcome")) (number (field p "block_id")) installed,
    )

-- One turn of the loop of populateMissingSupportGroups, by the kind of the event.
abbrev pub populate :
    Bool
    → Bool
    → Option Payload
    → PuzzleCatalog
    → List ℤ
    → GameplayAttemptEvent
    → GameplayAttemptEvent × List ℤ
populate checkpoint placement none catalog installed e = (e, installed)
populate true placement (some p) catalog installed e =
    (e, replaced (text_of (field p "placed_block_ids")) installed)
populate false false (some p) catalog installed e = (e, installed)
populate false true (some p) catalog installed e =
    let (missing, after) = apply_placement_state catalog installed p in
    (record e { missing_support_groups = missing }, after)

unfoldable pub populate_missing_support_groups :
    PuzzleCatalog → List ℤ → List GameplayAttemptEvent → List GameplayAttemptEvent
populate_missing_support_groups catalog installed [] = []
populate_missing_support_groups catalog installed (e ∷ es) =
    let turn =
      populate (str_eq e.name "state_checkpoint") (str_eq e.name "placement_resolved") e.properties
        catalog installed e in
    turn.0 ∷ populate_missing_support_groups catalog turn.1 es

-- GetGameplayAttempt, with the catalogue that loadAttemptCatalog finds for a revision.
unfoldable pub get_gameplay_attempt :
    String
    → List (GameplayAttemptEvent × String)
    → (String → Result PuzzleCatalog)
    → Result GameplayAttempt
get_gameplay_attempt attempt_id rows load_catalog =
    let a = load_gameplay_attempt_events attempt_id rows in
    if is_empty a.events
    then err (new_error 404 not_found)
    else elim (load_catalog a.content_revision) [
      | err e ↦ err e
      | ok catalog ↦ ok (record a { events = populate_missing_support_groups catalog [] a.events })
    ]
