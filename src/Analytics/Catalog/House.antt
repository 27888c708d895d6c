-- ===== src/Analytics/Catalog/House.antt =====
-- Which houses pass the validation of puzzle_catalog_validation.go.
use mortris_server.Prelude.{
  ◌≡◌, ◌≢◌, ◌↔◌, inl, inr, refl, sym, ◌∙◌, String, Bool, true, false, List, [], ◌∷◌, map, All, In,
  not, ◌||◌, str_eq, eq_iff, string_eq, contains, Bool-cases, if◌then◌else◌, arith,
}
use mortris_server.Prelude.Int.{ℤ, int_eq}
use mortris_server.Failure.{
  Failure, Result, ok, err, ◌>>=◌, >>=-eq-ok, reject_if, new_error, invalid_request,
}
use mortris_server.Analytics.Catalog.Scan.{
  Distinct, Same, Known, scan_sound, scan_total, require_known_iff, require_groups_iff, contains-In,
  In-contains,
}
use mortris_server.Analytics.Catalog.{
  PuzzleCatalogHouse, PuzzleCatalogBlock, PuzzleInventoryGroup, scan, require_known, require_groups,
  scan_groups, invalid_catalog, validate_puzzle_blocks, validate_puzzle_waves,
  validate_inventory_groups, validate_puzzle_targets, validate_placement_rules,
  validate_puzzle_house,
}

abbrev pub block_ids : PuzzleCatalogHouse → List ℤ
block_ids h = map (λ b. b.block_id) h.blocks

abbrev pub wave_indexes : PuzzleCatalogHouse → List ℤ
wave_indexes h = map (λ w. w.wave_index) h.waves

abbrev pub target_ids : PuzzleCatalogHouse → List ℤ
target_ids h = map (λ t. t.target_id) h.targets

-- A house whose identifiers differ and whose references meet a block, a wave or a target.
pub record IsHouse (h : PuzzleCatalogHouse) : Type 0 where
  pub blocks : Distinct (block_ids h)
  pub waves : Distinct (wave_indexes h)
  pub wave_blocks : All (λ w. Known (block_ids h) w.block_ids) h.waves
  pub groups : Distinct (map (λ g. g.inventory_group_id) h.inventory_groups)
  pub group_names : All (λ g. g.inventory_group_id ≢ "") h.inventory_groups
  pub group_blocks : All (λ g. Known (block_ids h) g.block_ids) h.inventory_groups
  pub targets : Distinct (target_ids h)
  pub target_waves : All (λ t. In t.wave_index (wave_indexes h)) h.targets
  pub target_blocks : All (λ t. Known (block_ids h) t.compatible_block_ids) h.targets
  pub rules : Distinct (map (λ r. r.target_id) h.placement_rules)
  pub rule_targets : All (λ r. In r.target_id (target_ids h)) h.placement_rules
  pub rule_blocks :
      All (λ r. All (Known (block_ids h)) r.alternative_required_groups) h.placement_rules

pub All-imp :
    {A : Type 0} {P Q : A → Type 0} (k : (x : A) → P x → Q x) (xs : List A) → All P xs → All Q xs
All-imp k [] h = tt
All-imp k (x ∷ xs) (h, hs) = (k x h, All-imp k xs hs)

pub All-both :
    {A : Type 0} {P Q R : A → Type 0} (k : (x : A) → P x → Q x → R x) (xs : List A)
    → All P xs
    → All Q xs
    → All R xs
All-both k [] h g = tt
All-both k (x ∷ xs) (h, hs) (g, gs) = (k x h g, All-both k xs hs gs)

Known-Same : (r ks ids : List ℤ) → Same r ks → Known r ids → Known ks ids
Known-Same r ks ids s h = All-imp (λ id i. (s id).0 i) ids h

Same-sym : {K : Type 0} (r ks : List K) → Same r ks → Same ks r
Same-sym r ks s = λ k. ((s k).1, (s k).0)

pub reject_if_iff : (b : Bool) (e : Failure) → (reject_if (not b) e ≡ ok tt) ↔ (b ≡ true)
reject_if_iff b e = ground arith

-- The check of an inventory group, as the other loops have theirs.
abbrev check_group : List ℤ → PuzzleInventoryGroup → Result (Unit {0})
check_group blocks g =
    reject_if (str_eq g.inventory_group_id "") (new_error 400 invalid_request) >>= λ _.
    require_known blocks g.block_ids

scan_groups-scan :
    (blocks : List ℤ) (known : List String) (gs : List PuzzleInventoryGroup)
    → scan_groups blocks known gs
      ≡ (scan (λ g. g.inventory_group_id) (check_group blocks) known gs >>= λ _. ok tt)
unfolding scan_groups scan
scan_groups-scan blocks known [] = refl
scan_groups-scan blocks known (g ∷ gs) =
    go (str_eq g.inventory_group_id "") (contains known g.inventory_group_id)
      (require_known blocks g.block_ids) (scan_groups-scan blocks (g.inventory_group_id ∷ known) gs)
  where
    rest : Result (List String)
    rest = scan (λ g. g.inventory_group_id) (check_group blocks) (g.inventory_group_id ∷ known) gs

    go :
        (empty old : Bool) (r : Result (Unit {0}))
        → scan_groups blocks (g.inventory_group_id ∷ known) gs ≡ (rest >>= λ _. ok tt)
        → (if empty || old
            then invalid_catalog
            else r >>= λ _. scan_groups blocks (g.inventory_group_id ∷ known) gs)
          ≡ ((if old
                then invalid_catalog
                else (reject_if empty (new_error 400 invalid_request) >>= λ _. r) >>= λ _. rest)
              >>= λ _. ok tt)
    go true true r same = refl
    go true false r same = refl
    go false true r same = refl
    go false false (err e) same = refl
    go false false (ok v) same = same

-- A reference that must be known, before another check.
guarded_iff :
    (r ks : List ℤ) (k : ℤ) (next : Result (Unit {0}))
    → Same r ks
    → ((reject_if (not (contains r k)) (new_error 400 invalid_request) >>= λ _. next) ≡ ok tt)
      ↔ (In k ks × (next ≡ ok tt))
guarded_iff r ks k next s = elim (Bool-cases (contains r k)) [
  | inl e ↦ (λ h. ((s k).0 (contains-In r k e), ground arith), λ (i, n). rw (e, n) refl)
  | inr e ↦ (λ h. absurd (ground arith), λ (i, n). absurd (cc (In-contains r k ((s k).1 i))))
]

check_group_iff :
    (bs : List ℤ) (g : PuzzleInventoryGroup)
    → (check_group bs g ≡ ok tt)
      ↔ ((g.inventory_group_id ≢ "") × (require_known bs g.block_ids ≡ ok tt))
check_group_iff bs g = ground (arith, eq_iff g.inventory_group_id "")

-- The checks of the loops, where the keys stand for the blocks `ks`.
require_known-Known :
    (bs ks ids : List ℤ) → Same bs ks → (require_known bs ids ≡ ok tt) ↔ Known ks ids
require_known-Known bs ks ids s = (
  λ e. Known-Same bs ks ids s ((require_known_iff bs ids).0 e),
  λ k. (require_known_iff bs ids).1 (Known-Same ks bs ids (Same-sym bs ks s) k),
)

require_groups-Known :
    (bs ks : List ℤ) (gs : List (List ℤ))
    → Same bs ks
    → (require_groups bs gs ≡ ok tt) ↔ All (Known ks) gs
require_groups-Known bs ks gs s = (
  λ e. All-imp (λ g. Known-Same bs ks g s) gs ((require_groups_iff bs gs).0 e),
  λ k. (require_groups_iff bs gs).1 (All-imp (λ g. Known-Same ks bs g (Same-sym bs ks s)) gs k),
)

pub validate_puzzle_house-IsHouse :
    (h : PuzzleCatalogHouse) → validate_puzzle_house h ≡ ok tt → IsHouse h
unfolding validate_puzzle_house validate_puzzle_blocks validate_puzzle_waves
    validate_inventory_groups validate_puzzle_targets validate_placement_rules
validate_puzzle_house-IsHouse h e =
    let (bs, e_blocks, e) = >>=-eq-ok _ _ e in
    let (ws, e_waves, e) = >>=-eq-ok _ _ e in
    let (_, e_groups, e) = >>=-eq-ok _ _ e in
    let (ts, e_targets, e) = >>=-eq-ok _ _ e in
    let (_, e_rules, e) = >>=-eq-ok _ _ e in
    let (_, d_blocks, bs_same) = scan_sound _ _ h.blocks bs e_blocks in
    let (c_waves, d_waves, ws_same) = scan_sound _ _ h.waves ws e_waves in
    let (gs, e_groups, _) =
      >>=-eq-ok _ _ (sym (scan_groups-scan bs [] h.inventory_groups) ∙ e_groups) in
    let (c_groups, d_groups, _) = scan_sound _ _ h.inventory_groups gs e_groups in
    let (c_targets, d_targets, ts_same) = scan_sound _ _ h.targets ts e_targets in
    let (c_rules, d_rules, _) = scan_sound _ _ h.placement_rules _ e_rules in
    record {
      blocks = d_blocks;
      waves = d_waves;
      wave_blocks = All-imp (λ w c. (require_known-Known bs _ _ bs_same).0 c) h.waves c_waves;
      groups = d_groups;
      group_names = All-imp (λ g c. ((check_group_iff bs g).0 c).0) h.inventory_groups c_groups;
      group_blocks =
          All-imp (λ g c. (require_known-Known bs _ _ bs_same).0 ((check_group_iff bs g).0 c).1)
            h.inventory_groups c_groups;
      targets = d_targets;
      target_waves = All-imp (λ t c. ((guarded_iff ws _ _ _ ws_same).0 c).0) h.targets c_targets;
      target_blocks =
          All-imp
            (λ t c. (require_known-Known bs _ _ bs_same).0 ((guarded_iff ws _ _ _ ws_same).0 c).1)
            h.targets c_targets;
      rules = d_rules;
      rule_targets =
          All-imp (λ r c. ((guarded_iff ts _ _ _ ts_same).0 c).0) h.placement_rules c_rules;
      rule_blocks =
          All-imp
            (λ r c. (require_groups-Known bs _ _ bs_same).0 ((guarded_iff ts _ _ _ ts_same).0 c).1)
            h.placement_rules c_rules;
    }

pub IsHouse-validate_puzzle_house :
    (h : PuzzleCatalogHouse) → IsHouse h → validate_puzzle_house h ≡ ok tt
unfolding validate_puzzle_house validate_puzzle_blocks validate_puzzle_waves
    validate_inventory_groups validate_puzzle_targets validate_placement_rules
IsHouse-validate_puzzle_house h v =
    let (bs, e_blocks, bs_same) =
      scan_total (λ b. b.block_id) (λ b. ok tt) h.blocks (unchecked h.blocks) v.blocks in
    let (ws, e_waves, ws_same) =
      scan_total (λ w. w.wave_index) (λ w. require_known bs w.block_ids) h.waves
        (All-imp (λ w c. (require_known-Known bs _ _ bs_same).1 c) h.waves v.wave_blocks) v.waves in
    let (gs, e_groups, _) =
      scan_total (λ g. g.inventory_group_id) (check_group bs) h.inventory_groups
        (All-both
          (λ g named k. (check_group_iff bs g).1 (named, (require_known-Known bs _ _ bs_same).1 k))
          h.inventory_groups v.group_names v.group_blocks)
        v.groups in
    let (ts, e_targets, ts_same) =
      scan_total (λ t. t.target_id) _ h.targets
        (All-both
          (λ t i k.
            (guarded_iff ws _ t.wave_index _ ws_same).1
              (i, (require_known-Known bs _ _ bs_same).1 k))
          h.targets v.target_waves v.target_blocks)
        v.targets in
    let (rs, e_rules, _) =
      scan_total (λ r. r.target_id) _ h.placement_rules
        (All-both
          (λ r i k.
            (guarded_iff ts _ r.target_id _ ts_same).1
              (i, (require_groups-Known bs _ _ bs_same).1 k))
          h.placement_rules v.rule_targets v.rule_blocks)
        v.rules in
    rw (e_blocks, e_waves, scan_groups-scan bs [] h.inventory_groups, e_groups, e_targets, e_rules)
      refl
  where
    unchecked :
        (bs : List PuzzleCatalogBlock)
        → All {_, 0} (λ b. ◌≡◌ {A = Result (Unit {0})} (ok tt) (ok tt)) bs
    unchecked [] = tt
    unchecked (b ∷ bs) = (refl, unchecked bs)
