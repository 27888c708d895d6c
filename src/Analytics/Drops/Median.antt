-- ===== src/Analytics/Drops/Median.antt =====
-- The median of a list is at least as great as more than half of it.
use mortris_server.Prelude.{
  ℕ, zero, suc, ◌*◌, ◌/◌, ◌<◌, ◌≤◌, ◌≡◌, refl, ap, ◌∙◌, Bool, true, false, Option, none, some, List,
  [], ◌∷◌, All, keep, length, get_elem?, arith, if◌then◌else◌,
}
use mortris_server.Prelude.Int.{ℤ, pos, leb_ℤ, ◌≤ℤ◌, ◌<ℤ◌, leb_ℤ→le, leb_ℤ→lt}
use mathlib.Core.Path.{subst}
use mortris_server.Analytics.Drops.{insert_int, sort_ints, int_median}

abbrev IsSorted : List ℤ → Type 0
IsSorted [] = Unit {0}
IsSorted (x ∷ xs) = All (λ y. x ≤ℤ y) xs × IsSorted xs

All-insert_int : (P : ℤ → Type 0) (x : ℤ) (ys : List ℤ) → P x → All P ys → All P (insert_int x ys)
unfolding insert_int
All-insert_int P x [] h k = (h, tt)
All-insert_int P x (y ∷ ys) h k = ground (arith, All-insert_int P x ys h k.1)

All-le : (x y : ℤ) (ys : List ℤ) → x ≤ℤ y → All (λ z. y ≤ℤ z) ys → All (λ z. x ≤ℤ z) ys
All-le x y [] h k = tt
All-le x y (z ∷ zs) h k = (omega (arith, k.0), All-le x y zs h k.1)

insert_int-IsSorted : (x : ℤ) (ys : List ℤ) → IsSorted ys → IsSorted (insert_int x ys)
unfolding insert_int
insert_int-IsSorted x [] h = (tt, tt)
insert_int-IsSorted x (y ∷ ys) h =
    go (leb_ℤ x y) (leb_ℤ→le x y) (λ e. lt_le (leb_ℤ→lt x y e)) (insert_int-IsSorted x ys h.1)
  where
    lt_le : y <ℤ x → y ≤ℤ x
    lt_le l = omega arith

    go :
        (b : Bool)
        → (b ≡ true → x ≤ℤ y)
        → (b ≡ false → y ≤ℤ x)
        → IsSorted (insert_int x ys)
        → IsSorted (if b then x ∷ y ∷ ys else y ∷ insert_int x ys)
    go true le ge rest = ((le refl, All-le x y ys (le refl) h.0), h)
    go false le ge rest = (All-insert_int (λ z. y ≤ℤ z) x ys (ge refl) h.0, rest)

sort_ints-IsSorted : (xs : List ℤ) → IsSorted (sort_ints xs)
unfolding sort_ints
sort_ints-IsSorted [] = tt
sort_ints-IsSorted (x ∷ xs) = insert_int-IsSorted x (sort_ints xs) (sort_ints-IsSorted xs)

-- How many pass a test.
abbrev pub count : (ℤ → Bool) → List ℤ → ℕ
count p xs = length (keep p xs)

count-insert_int :
    (p : ℤ → Bool) (x : ℤ) (ys : List ℤ) → count p (insert_int x ys) ≡ count p (x ∷ ys)
unfolding insert_int
count-insert_int p x [] = refl
count-insert_int p x (y ∷ ys) = ground (arith, count-insert_int p x ys)

count-sort_ints : (p : ℤ → Bool) (xs : List ℤ) → count p (sort_ints xs) ≡ count p xs
unfolding sort_ints
count-sort_ints p [] = refl
count-sort_ints p (x ∷ xs) =
    ground (arith, count-insert_int p x (sort_ints xs), count-sort_ints p xs)

length-insert_int : (x : ℤ) (ys : List ℤ) → length (insert_int x ys) ≡ suc (length ys)
unfolding insert_int
length-insert_int x [] = refl
length-insert_int x (y ∷ ys) = ground (arith, length-insert_int x ys)

length-sort_ints : (xs : List ℤ) → length (sort_ints xs) ≡ length xs
unfolding sort_ints
length-sort_ints [] = refl
length-sort_ints (x ∷ xs) = length-insert_int x (sort_ints xs) ∙ ap suc (length-sort_ints xs)

-- In a sorted list, all up to a member that is small enough are small enough.
sorted_count :
    (xs : List ℤ) (i : ℕ) (v k : ℤ)
    → IsSorted xs
    → get_elem? xs i ≡ some v
    → v ≤ℤ k
    → suc i ≤ count (λ x. leb_ℤ x k) xs
sorted_count [] i v k h e le = absurd (cc)
sorted_count (x ∷ xs) zero v k h e le = ground arith
sorted_count (x ∷ xs) (suc i) v k h e le =
    ground (arith, member xs i h.0 e, sorted_count xs i v k h.1 e le)
  where
    member : (ys : List ℤ) (i : ℕ) → All (λ y. x ≤ℤ y) ys → get_elem? ys i ≡ some v → x ≤ℤ v
    member [] i a e = absurd (cc)
    member (y ∷ ys) zero a e = ground arith
    member (y ∷ ys) (suc i) a e = member ys i a.1 e

get_elem?-some :
    {A : Type 0} (xs : List A) (i : ℕ) → i < length xs → (a : A) × (get_elem? xs i ≡ some a)
get_elem?-some [] i h = absurd (omega arith)
get_elem?-some (x ∷ xs) zero h = (x, refl)
get_elem?-some (x ∷ xs) (suc i) h = get_elem?-some xs i (omega arith)

-- Where the median is at most `k`, so are more than half.
pub int_median-majority :
    (xs : List ℤ) (k : ℤ)
    → 0 < length xs
    → int_median xs ≤ℤ k
    → length xs < 2 * count (λ x. leb_ℤ x k) xs
unfolding int_median
int_median-majority xs k h le =
    let (v, e) =
      get_elem?-some (sort_ints xs) (length xs / 2) (omega (arith, length-sort_ints xs)) in
    omega (
      arith,
      count-sort_ints (λ x. leb_ℤ x k) xs,
      sorted_count (sort_ints xs) (length xs / 2) v k (sort_ints-IsSorted xs) e (is_median v e),
    )
  where
    is_median : (v : ℤ) → get_elem? (sort_ints xs) (length xs / 2) ≡ some v → v ≤ℤ k
    is_median v e = subst (λ (o : Option ℤ). (elim o [ none ↦ pos 0 | some v ↦ v ]) ≤ℤ k) e le
