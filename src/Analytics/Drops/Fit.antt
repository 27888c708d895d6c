-- ===== src/Analytics/Drops/Fit.antt =====
-- What a map of legacy drops that is shown promises.
use mortris_server.Prelude.{
  ℕ, ◌*◌, ◌<◌, ◌≤◌, ◌≡◌, refl, sym, ap, ap₂, ◌∙◌, Bool, true, false, not, ◌&&◌, ◌||◌, Option, none,
  some, List, [], ◌∷◌, map, keep, any, length, length-map, ltb, arith, if◌then◌else◌,
}
use mortris_server.Prelude.Int.{ℤ, pos, ltb_ℤ, leb_ℤ, ◌-ℤ◌, ◌≤ℤ◌, -ℤ_parts, eq_of_parts}
use mortris_server.Analytics.Drops.{
  PuzzleDrop, PuzzleDropMap, snap_distance_milli, min_placed_for_alignment, int_median, int_abs,
  drop_spread, max_ℤ, has_mixed_coordinates, all_drop_revisions_known, is_placed, offsets, withheld,
  compute_drop_distance, shift, moved, fit_legacy_drops, align_drops,
}
use mortris_server.Analytics.Drops.Median.{count, int_median-majority}

-- A release within the snap distance of its target, on one axis.
abbrev pub is_near_x : PuzzleDrop → Bool
is_near_x d = leb_ℤ (int_abs (d.release_x -ℤ d.target_x)) (pos snap_distance_milli)

abbrev pub is_near_y : PuzzleDrop → Bool
is_near_y d = leb_ℤ (int_abs (d.release_y -ℤ d.target_y)) (pos snap_distance_milli)

-- What a shift leaves, and what it does to the two coordinates.
record IsShift (dx dy : ℤ) (d e : PuzzleDrop) : Type 0 where
  placed : is_placed e ≡ is_placed d
  x : e.release_x ≡ d.release_x -ℤ dx
  y : e.release_y ≡ d.release_y -ℤ dy
  target_x : e.target_x ≡ d.target_x
  target_y : e.target_y ≡ d.target_y

shift-IsShift :
    (distance : ℤ → ℤ → ℤ) (dx dy : ℤ) (d : PuzzleDrop) → IsShift dx dy d (shift distance dx dy d)
unfolding shift
shift-IsShift distance dx dy d = go d.nearest_target_x d.nearest_target_y
  where
    go :
        (x y : Option ℤ)
        → IsShift dx dy d (compute_drop_distance distance x y none (moved distance dx dy d))
    go (some x) (some y) = record {
      placed = refl;
      x = refl;
      y = refl;
      target_x = refl;
      target_y = refl;
    }
    go none y = record { placed = refl; x = refl; y = refl; target_x = refl; target_y = refl }
    go (some x) none = record {
      placed = refl;
      x = refl;
      y = refl;
      target_x = refl;
      target_y = refl;
    }

minus_swap : (a b c : ℤ) → (a -ℤ b) -ℤ c ≡ (a -ℤ c) -ℤ b
minus_swap a b c = omega (arith, -ℤ_parts, eq_of_parts)

length-offsets :
    (release target : PuzzleDrop → ℤ) (ds : List PuzzleDrop)
    → length (offsets release target ds) ≡ length (keep is_placed ds)
unfolding offsets
length-offsets release target [] = refl
length-offsets release target (d ∷ ds) = ground (arith, length-offsets release target ds)

length-placed :
    (f : PuzzleDrop → PuzzleDrop) (ds : List PuzzleDrop)
    → ((d : PuzzleDrop) → is_placed (f d) ≡ is_placed d)
    → length (keep is_placed (map f ds)) ≡ length (keep is_placed ds)
length-placed f [] h = refl
length-placed f (d ∷ ds) h = ground (arith, h d, length-placed f ds h)

-- The deviations that are small are those of the drops that a shift brings near their targets.
count-near :
    (release target : PuzzleDrop → ℤ) (c k : ℤ) (f : PuzzleDrop → PuzzleDrop) (ds : List PuzzleDrop)
    → ((d : PuzzleDrop) → is_placed (f d) ≡ is_placed d)
    → ((d : PuzzleDrop)
        → int_abs ((release d -ℤ target d) -ℤ c) ≡ int_abs (release (f d) -ℤ target (f d)))
    → count (λ v. leb_ℤ v k) (map (λ v. int_abs (v -ℤ c)) (offsets release target ds))
      ≡ length (keep (λ d. leb_ℤ (int_abs (release d -ℤ target d)) k) (keep is_placed (map f ds)))
unfolding offsets
count-near release target c k f [] p h = refl
count-near release target c k f (d ∷ ds) p h =
    ground (arith, p d, h d, count-near release target c k f ds p h)

not_above : (a b : ℤ) (k : ℕ) → ltb_ℤ (pos k) (max_ℤ a b) ≡ false → (a ≤ℤ pos k) × (b ≤ℤ pos k)
not_above a b k h = ground arith

length-some : (ds : List PuzzleDrop) → any (λ d. d.legacy) ds ≡ true → ltb (length ds) 1 ≡ false
length-some [] h = absurd (cc)
length-some (d ∷ ds) h = ground arith

-- What a map with legacy drops says when it is shown.
pub record IsFit (distance : ℤ → ℤ → ℤ) (before after : PuzzleDropMap) : Type 0 where
  pub unmixed : any (λ d. not d.legacy) before.drops ≡ false
  pub shifted : after.drops ≡ map (shift distance after.offset_x after.offset_y) before.drops
  pub enough : 5 ≤ length (keep is_placed after.drops)
  pub near_x :
      length (keep is_placed after.drops) < 2 * length (keep is_near_x (keep is_placed after.drops))
  pub near_y :
      length (keep is_placed after.drops) < 2 * length (keep is_near_y (keep is_placed after.drops))

module _ (distance : ℤ → ℤ → ℤ) where
  majority :
      (release target : PuzzleDrop → ℤ) (dx dy c : ℤ) (ds : List PuzzleDrop)
      → ((d : PuzzleDrop)
          → int_abs ((release d -ℤ target d) -ℤ c)
            ≡ int_abs (release (shift distance dx dy d) -ℤ target (shift distance dx dy d)))
      → 5 ≤ length (offsets release target ds)
      → drop_spread (offsets release target ds) c ≤ℤ pos snap_distance_milli
      → (5 ≤ length (keep is_placed (map (shift distance dx dy) ds)))
        × (length (keep is_placed (map (shift distance dx dy) ds))
            < 2
              * length (
                  keep
                    (λ d. leb_ℤ (int_abs (release d -ℤ target d)) (pos snap_distance_milli))
                    (keep is_placed (map (shift distance dx dy) ds))))
  unfolding drop_spread
  majority release target dx dy c ds same enough small =
      let placed : (d : PuzzleDrop) → is_placed (shift distance dx dy d) ≡ is_placed d =
        λ d. (shift-IsShift distance dx dy d).placed in
      let counted =
        count-near release target c (pos snap_distance_milli) (shift distance dx dy) ds placed
          same in
      let long = length-map (λ v. int_abs (v -ℤ c)) (offsets release target ds) in
      let most =
        int_median-majority (map (λ v. int_abs (v -ℤ c)) (offsets release target ds))
          (pos snap_distance_milli) (omega (arith, long, enough)) small in
      (
        omega (
          arith,
          length-offsets release target ds,
          length-placed (shift distance dx dy) ds placed,
          enough,
        ),
        omega (
          arith,
          length-offsets release target ds,
          length-placed (shift distance dx dy) ds placed,
          counted,
          long,
          most,
        ),
      )

  x_same :
      (dx dy : ℤ) (d : PuzzleDrop)
      → int_abs ((d.release_x -ℤ d.target_x) -ℤ dx)
        ≡ int_abs ((shift distance dx dy d).release_x -ℤ (shift distance dx dy d).target_x)
  x_same dx dy d =
      let s = shift-IsShift distance dx dy d in
      ap int_abs (minus_swap d.release_x d.target_x dx ∙ sym (ap₂ ◌-ℤ◌ s.x s.target_x))

  y_same :
      (dx dy : ℤ) (d : PuzzleDrop)
      → int_abs ((d.release_y -ℤ d.target_y) -ℤ dy)
        ≡ int_abs ((shift distance dx dy d).release_y -ℤ (shift distance dx dy d).target_y)
  y_same dx dy d =
      let s = shift-IsShift distance dx dy d in
      ap int_abs (minus_swap d.release_y d.target_y dy ∙ sym (ap₂ ◌-ℤ◌ s.y s.target_y))

  fit_legacy_drops-IsFit :
      (m before : PuzzleDropMap)
      → m.drops ≡ before.drops
      → any (λ d. not d.legacy) before.drops ≡ false
      → m.aligned ≡ false
      → (fit_legacy_drops distance m).aligned ≡ true
      → IsFit distance before (fit_legacy_drops distance m)
  unfolding fit_legacy_drops
  fit_legacy_drops-IsFit m before same unmixed closed shown =
      go (ltb (length xs) min_placed_for_alignment) refl (ltb_ℤ (pos snap_distance_milli) spread)
        refl shown
    where
      xs : List ℤ
      xs = offsets (λ d. d.release_x) (λ d. d.target_x) m.drops

      ys : List ℤ
      ys = offsets (λ d. d.release_y) (λ d. d.target_y) m.drops

      dx : ℤ
      dx = int_median xs

      dy : ℤ
      dy = int_median ys

      spread : ℤ
      spread = max_ℤ (drop_spread xs dx) (drop_spread ys dy)

      result : Bool → Bool → PuzzleDropMap
      result few far =
          if few
          then withheld "too_few_placed" m
          else (if far
              then withheld "inconsistent" (record m { aligned = false; spread = spread })
              else (record m {
                aligned = true;
                offset_x = dx;
                offset_y = dy;
                spread = spread;
                drops = map (shift distance dx dy) m.drops;
              }))

      go :
          (few : Bool)
          → ltb (length xs) min_placed_for_alignment ≡ few
          → (far : Bool) → ltb_ℤ (pos snap_distance_milli) spread ≡ far
          → (result few far).aligned ≡ true
          → IsFit distance before (result few far)
      go true a far b shown = absurd (cc)
      go false a true b shown = absurd (cc)
      go false a false b shown =
          let (small_x, small_y) =
            not_above (drop_spread xs dx) (drop_spread ys dy) snap_distance_milli b in
          let many : 5 ≤ length xs = ground arith in
          let many_y : 5 ≤ length ys = omega (
            arith,
            many,
            length-offsets (λ d. d.release_x) (λ d. d.target_x) m.drops,
            length-offsets (λ d. d.release_y) (λ d. d.target_y) m.drops,
          ) in
          let (enough, near_x) =
            majority (λ d. d.release_x) (λ d. d.target_x) dx dy dx m.drops (x_same dx dy) many
              small_x in
          let (enough_y, near_y) =
            majority (λ d. d.release_y) (λ d. d.target_y) dx dy dy m.drops (y_same dx dy) many_y
              small_y in
          record {
            unmixed = unmixed;
            shifted = ap (map (shift distance dx dy)) same;
            enough = enough;
            near_x = near_x;
            near_y = near_y;
          }

  -- Where a map has legacy drops and is not aligned yet, and alignDrops shows it as aligned: all its
  -- drops are legacy ones, each is moved by the map's offset, at least 5 of them were placed, and on
  -- each axis more than half of the placed ones then lie within the snap distance of their targets.
  pub align_drops-IsFit :
      (m : PuzzleDropMap)
      → any (λ d. d.legacy) m.drops ≡ true
      → m.aligned ≡ false
      → (align_drops distance m).aligned ≡ true
      → IsFit distance m (align_drops distance m)
  unfolding align_drops all_drop_revisions_known has_mixed_coordinates
  align_drops-IsFit m old closed shown =
      go (ltb 0 (length m.drops)) (any (λ d. d.legacy) m.drops) old (ltb (length m.drops) 1)
        (length-some m.drops old) (any (λ d. not d.legacy) m.drops) refl shown
    where
      result : Bool → Bool → Bool → Bool → PuzzleDropMap
      result some_ legacy none_ corrected =
          let known = some_ && not legacy in
          let m' = record m { trusted_coordinates = known } in
          if known || none_
          then (record m' { aligned = true })
          else if legacy && corrected
          then withheld "mixed_coordinate_spaces" m'
          else fit_legacy_drops distance m'

      go :
          (some_ legacy : Bool)
          → legacy ≡ true
          → (none_ : Bool) → none_ ≡ false
          → (corrected : Bool) → any (λ d. not d.legacy) m.drops ≡ corrected
          → (result some_ legacy none_ corrected).aligned ≡ true
          → IsFit distance m (result some_ legacy none_ corrected)
      go some_ false l none_ n corrected c shown = absurd (cc)
      go some_ true l true n corrected c shown = absurd (cc)
      go true true l false n true c shown = absurd (cc)
      go false true l false n true c shown = absurd (cc)
      go true true l false n false c shown =
          fit_legacy_drops-IsFit (record m { trusted_coordinates = false }) m refl c closed shown
      go false true l false n false c shown =
          fit_legacy_drops-IsFit (record m { trusted_coordinates = false }) m refl c closed shown
