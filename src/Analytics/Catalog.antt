-- ===== src/Analytics/Catalog.antt =====
-- internal/analytics/puzzle_gravity.go and puzzle_catalog_validation.go: the puzzle catalogue of
-- one content revision, and its validation before an import.
pub mod Scan
pub mod House
pub mod Valid
use mortris_server.Prelude.{
  String, Bool, true, false, List, [], ◌∷◌, ◌||◌, not, is_empty, str_eq, string_eq, Key, contains,
  if◌then◌else◌,
}
use mortris_server.Prelude.Int.{ℤ, pos, eqb_ℤ, int_eq}
use mortris_server.Failure.{Result, ok, err, ◌>>=◌, ◌>>◌, reject_if, new_error, invalid_request}
use mortris_server.Contracts.Pattern.{codes, hex, repeat, matches}

pub record PuzzleCatalogWave : Type 0 where
  pub wave_index : ℤ
  pub block_ids : List ℤ

pub record PuzzleCatalogBlock : Type 0 where
  pub block_id : ℤ
  pub order_in_layer : ℤ
  pub visual_key : String
  pub is_ground : Bool
  pub local_x_milli : ℤ
  pub local_y_milli : ℤ

pub record PuzzleInventoryGroup : Type 0 where
  pub inventory_group_id : String
  pub block_ids : List ℤ

pub record PuzzleCatalogTarget : Type 0 where
  pub target_id : ℤ
  pub wave_index : ℤ
  pub compatible_block_ids : List ℤ
  pub local_x_milli : ℤ
  pub local_y_milli : ℤ

pub record PuzzlePlacementRule : Type 0 where
  pub target_id : ℤ
  pub alternative_required_groups : List (List ℤ)

pub record PuzzleCatalogHouse : Type 0 where
  pub house_id : ℤ
  pub asset_key : String
  pub waves : List PuzzleCatalogWave
  pub blocks : List PuzzleCatalogBlock
  pub inventory_groups : List PuzzleInventoryGroup
  pub targets : List PuzzleCatalogTarget
  pub placement_rules : List PuzzlePlacementRule
  pub display_label : String
  pub preview_asset_key : String

pub record PuzzleCatalogCity : Type 0 where
  pub city_id : ℤ
  pub houses : List PuzzleCatalogHouse

pub record PuzzleCatalog : Type 0 where
  pub schema_version : ℤ
  pub content_revision : String
  pub cities : List PuzzleCatalogCity

-- invalidCatalog
abbrev pub invalid_catalog {ℓ} : {A : Type ℓ} → Result A
invalid_catalog = err (new_error 400 invalid_request)

-- revisionPattern: ^[a-f0-9]{64}$
unfoldable pub is_revision : String → Bool
is_revision s = matches (repeat 64 hex) (codes s)

-- The loops of this file: a key that is known is refused, else it becomes known and the element
-- is checked. The keys are the result.
module _ {A K : Type 0} ⦃e : Key K⦄ (key : A → K) (check : A → Result (Unit {0})) where
  unfoldable pub scan : List K → List A → Result (List K)
  scan known [] = ok known
  scan known (x ∷ xs) =
      let rest = scan (key x ∷ known) xs in
      if contains known (key x) then invalid_catalog else check x >> rest

-- for _, id := range ids { if !known[id] { return invalidCatalog(...) } }
unfoldable pub require_known : List ℤ → List ℤ → Result (Unit {0})
require_known known [] = ok tt
require_known known (id ∷ ids) =
    let rest = require_known known ids in if contains known id then rest else invalid_catalog

unfoldable pub validate_puzzle_blocks : List PuzzleCatalogBlock → Result (List ℤ)
validate_puzzle_blocks blocks = scan (λ b. b.block_id) (λ b. ok tt) [] blocks

unfoldable pub validate_puzzle_waves : List PuzzleCatalogWave → List ℤ → Result (List ℤ)
validate_puzzle_waves waves blocks =
    scan (λ w. w.wave_index) (λ w. require_known blocks w.block_ids) [] waves

-- The empty identifier is refused together with a known one.
unfoldable pub scan_groups : List ℤ → List String → List PuzzleInventoryGroup → Result (Unit {0})
scan_groups blocks known [] = ok tt
scan_groups blocks known (g ∷ gs) =
    let rest = scan_groups blocks (g.inventory_group_id ∷ known) gs in
    if str_eq g.inventory_group_id "" || contains known g.inventory_group_id
    then invalid_catalog
    else require_known blocks g.block_ids >> rest

unfoldable pub validate_inventory_groups : List PuzzleInventoryGroup → List ℤ → Result (Unit {0})
validate_inventory_groups groups blocks = scan_groups blocks [] groups

unfoldable pub validate_puzzle_targets :
    List PuzzleCatalogTarget → List ℤ → List ℤ → Result (List ℤ)
validate_puzzle_targets targets blocks waves =
    scan (λ t. t.target_id)
      (λ t. do
        reject_if (not (contains waves t.wave_index)) (new_error 400 invalid_request)
        require_known blocks t.compatible_block_ids)
      [] targets

-- The nested loop over a rule's groups.
unfoldable pub require_groups : List ℤ → List (List ℤ) → Result (Unit {0})
require_groups blocks [] = ok tt
require_groups blocks (g ∷ gs) = require_known blocks g >> require_groups blocks gs

unfoldable pub validate_placement_rules :
    List PuzzlePlacementRule → List ℤ → List ℤ → Result (Unit {0})
validate_placement_rules rules blocks targets = do
  _ ←
      scan (λ r. r.target_id)
        (λ r. do
          reject_if (not (contains targets r.target_id)) (new_error 400 invalid_request)
          require_groups blocks r.alternative_required_groups)
        [] rules
  ok tt

unfoldable pub validate_puzzle_house : PuzzleCatalogHouse → Result (Unit {0})
validate_puzzle_house house = do
  blocks ← validate_puzzle_blocks house.blocks
  waves ← validate_puzzle_waves house.waves blocks
  validate_inventory_groups house.inventory_groups blocks
  targets ← validate_puzzle_targets house.targets blocks waves
  validate_placement_rules house.placement_rules blocks targets

unfoldable pub validate_puzzle_city : PuzzleCatalogCity → Result (Unit {0})
validate_puzzle_city city = do
  _ ← scan (λ h. h.house_id) validate_puzzle_house [] city.houses
  ok tt

-- PuzzleCatalog.Validate
unfoldable pub validate : PuzzleCatalog → Result (Unit {0})
validate c = do
  reject_if (not (eqb_ℤ c.schema_version (pos 1))) (new_error 400 invalid_request)
  reject_if (not (is_revision c.content_revision)) (new_error 400 invalid_request)
  reject_if (is_empty c.cities) (new_error 400 invalid_request)
  _ ← scan (λ c. c.city_id) validate_puzzle_city [] c.cities
  ok tt
