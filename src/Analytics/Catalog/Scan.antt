-- ===== src/Analytics/Catalog/Scan.antt =====
-- The loops of puzzle_catalog_validation.go: what is known when one ends without an error.
use mortris_server.Prelude.{
  ◌≡◌, ◌↔◌, ◌⊎◌, inl, inr, refl, sym, Bool, true, false, List, [], ◌∷◌, map, All, In, Key, contains,
  Bool-cases, if◌then◌else◌, arith,
}
use mathlib.Core.Path.{subst}
use mortris_server.Prelude.Int.{ℤ, int_eq}
use mortris_server.Failure.{Result, ok, ◌>>=◌, >>=-eq-ok}
use mortris_server.Analytics.Catalog.{scan, require_known, require_groups, invalid_catalog}

-- No member occurs twice.
abbrev pub Distinct : {K : Type 0} → List K → Type 0
Distinct [] = Unit
Distinct (k ∷ ks) = (In k ks → ⊥) × Distinct ks

module _ {K : Type 0} ⦃e : Key K⦄ where
  pub contains-In : (ks : List K) (k : K) → contains ks k ≡ true → In k ks
  unfolding contains
  contains-In [] k h = absurd (cc)
  contains-In (j ∷ ks) k h = elim (Bool-cases (e.equal j k)) [
    | inl same ↦ In.head (sym ((e.equal_iff j k).0 same))
    | inr other ↦ In.tail (contains-In ks k (ground arith))
  ]

  pub In-contains : (ks : List K) (k : K) → In k ks → contains ks k ≡ true
  unfolding contains
  In-contains [] k i = elim i [ ]
  In-contains (j ∷ ks) k (In.head same) = rw ((e.equal_iff j k).1 (sym same)) refl
  In-contains (j ∷ ks) k (In.tail i) = ground (arith, In-contains ks k i)

-- The same members.
abbrev pub Same : {K : Type 0} → List K → List K → Type 0
Same {K} ks js = (k : K) → In k ks ↔ In k js

-- What a loop over `xs` that ends with the keys `r` has found out.
record Scanned {A K : Type 0} (key : A → K) (P : A → Type 0) (known : List K) (xs : List A)
    (r : List K) : Type 0 where
  checked : All P xs
  distinct : Distinct (map key xs)
  fresh : All (λ x. In (key x) known → ⊥) xs
  found : (k : K) → In k r ↔ (In k known ⊎ In k (map key xs))

module _ {A K : Type 0} ⦃e : Key K⦄ (key : A → K) (check : A → Result (Unit {0})) where
  fresh-cons :
      (known : List K) (x : A) (xs : List A)
      → All (λ y. In (key y) (key x ∷ known) → ⊥) xs
      → (In (key x) (map key xs) → ⊥) × All (λ y. In (key y) known → ⊥) xs
  fresh-cons known x [] h = (λ i. elim i [ ], tt)
  fresh-cons known x (y ∷ ys) (h, hs) =
      let (rest, all) = fresh-cons known x ys hs in
      (
        λ i. elim i [ In.head same ↦ h (In.head (sym same)) | In.tail i ↦ rest i ],
        (λ i. h (In.tail i), all),
      )

  scan-step :
      (known : List K) (x : A) (xs : List A) (r : List K)
      → scan key check known (x ∷ xs) ≡ ok r
      → (contains known (key x) ≡ false)
        × (check x ≡ ok tt)
        × (scan key check (key x ∷ known) xs ≡ ok r)
  unfolding scan
  scan-step known x xs r h = go _ refl h
    where
      go :
          (b : Bool)
          → contains known (key x) ≡ b
          → ◌≡◌ {A = Result (List K)}
              (if b then invalid_catalog else check x >>= λ _. scan key check (key x ∷ known) xs)
              (ok r)
          → (contains known (key x) ≡ false)
            × (check x ≡ ok tt)
            × (scan key check (key x ∷ known) xs ≡ ok r)
      go true e h = absurd (cc)
      go false e h = let (_, checked, rest) = >>=-eq-ok (check x) _ h in (e, checked, rest)

  -- A key that joins the known ones leaves those to come.
  regroup :
      (known : List K) (x : A) (xs : List A) (r : List K) (k : K)
      → In k r ↔ (In k (key x ∷ known) ⊎ In k (map key xs))
      → In k r ↔ (In k known ⊎ In k (map key (x ∷ xs)))
  regroup known x xs r k f = (λ i. there (f.0 i), λ i. f.1 (back i))
    where
      there : In k (key x ∷ known) ⊎ In k (map key xs) → In k known ⊎ In k (map key (x ∷ xs))
      there (inl (In.head same)) = inr (In.head same)
      there (inl (In.tail i)) = inl i
      there (inr i) = inr (In.tail i)

      back : In k known ⊎ In k (map key (x ∷ xs)) → In k (key x ∷ known) ⊎ In k (map key xs)
      back (inl i) = inl (In.tail i)
      back (inr (In.head same)) = inl (In.head same)
      back (inr (In.tail i)) = inr i

  scan-Scanned :
      (known : List K) (xs : List A) (r : List K)
      → scan key check known xs ≡ ok r
      → Scanned key (λ x. check x ≡ ok tt) known xs r
  unfolding scan
  scan-Scanned known [] r h = record {
    checked = tt;
    distinct = tt;
    fresh = tt;
    found = λ k.
        subst (λ r. In k r ↔ (In k known ⊎ In k [])) (same_keys h)
          (inl, λ i. elim i [ inl i ↦ i | inr i ↦ elim i [ ] ]);
  }
    where
      same_keys : ◌≡◌ {A = Result (List K)} (ok known) (ok r) → known ≡ r
      same_keys h = cc
  scan-Scanned known (x ∷ xs) r h =
      let (new, checked, rest) = scan-step known x xs r h in
      let s = scan-Scanned (key x ∷ known) xs r rest in
      let (apart, others) = fresh-cons known x xs s.fresh in
      record {
        checked = (checked, s.checked);
        distinct = (apart, s.distinct);
        fresh = (λ i. absurd (missing new (In-contains known (key x) i)), others);
        found = λ k. regroup known x xs r k (s.found k);
      }
    where
      missing : {b : Bool} → b ≡ false → b ≡ true → ⊥
      missing e f = cc

  scan_complete :
      (known : List K) (xs : List A)
      → All (λ x. check x ≡ ok tt) xs
      → Distinct (map key xs)
      → All (λ x. In (key x) known → ⊥) xs
      → (r : List K) × (scan key check known xs ≡ ok r)
  unfolding scan
  scan_complete known [] c d f = (known, refl)
  scan_complete known (x ∷ xs) (c, cs) (d, ds) (f, fs) =
      let (r, e) = scan_complete (key x ∷ known) xs cs ds (apart known x xs d fs) in
      (r, rw (unknown (contains known (key x)) refl, c) e)
    where
      unknown : (b : Bool) → contains known (key x) ≡ b → contains known (key x) ≡ false
      unknown true e = absurd (f (contains-In known (key x) e))
      unknown false e = e

      apart :
          (known : List K) (x : A) (xs : List A)
          → (In (key x) (map key xs) → ⊥)
          → All (λ y. In (key y) known → ⊥) xs
          → All (λ y. In (key y) (key x ∷ known) → ⊥) xs
      apart known x [] d f = tt
      apart known x (y ∷ ys) d (f, fs) = (
        λ i. elim i [ In.head same ↦ d (In.head (sym same)) | In.tail i ↦ f i ],
        apart known x ys (λ i. d (In.tail i)) fs,
      )

  -- A loop that starts with no key.
  pub scan_sound :
      (xs : List A) (r : List K)
      → scan key check [] xs ≡ ok r
      → All (λ x. check x ≡ ok tt) xs × Distinct (map key xs) × Same r (map key xs)
  scan_sound xs r h =
      let s = scan-Scanned [] xs r h in
      (
        s.checked,
        s.distinct,
        λ k. (
          λ i. elim ((s.found k).0 i) [ inl i ↦ elim i [ ] | inr i ↦ i ],
          λ i. (s.found k).1 (inr i),
        ),
      )

  pub scan_total :
      (xs : List A)
      → All (λ x. check x ≡ ok tt) xs
      → Distinct (map key xs)
      → (r : List K) × (scan key check [] xs ≡ ok r) × Same r (map key xs)
  scan_total xs c d =
      let (r, e) = scan_complete [] xs c d (none_known xs) in (r, e, (scan_sound xs r e).2)
    where
      none_known : (xs : List A) → All (λ x. In (key x) [] → ⊥) xs
      none_known [] = tt
      none_known (x ∷ xs) = (λ i. elim i [ ], none_known xs)

abbrev pub Known : List ℤ → List ℤ → Type 0
Known known ids = All (λ id. In id known) ids

pub require_known_iff : (known ids : List ℤ) → (require_known known ids ≡ ok tt) ↔ Known known ids
unfolding require_known
require_known_iff known [] = (λ h. tt, λ h. refl)
require_known_iff known (id ∷ ids) = elim (Bool-cases (contains known id)) [
  | inl e ↦ (
    λ h. (contains-In known id e, (require_known_iff known ids).0 (ground arith)),
    λ (i, is). rw e ((require_known_iff known ids).1 is),
  )
  | inr e ↦ (λ h. absurd (ground arith), λ (i, is). absurd (cc (In-contains known id i)))
]

pub require_groups_iff :
    (known : List ℤ) (groups : List (List ℤ))
    → (require_groups known groups ≡ ok tt) ↔ All (Known known) groups
unfolding require_groups
require_groups_iff known [] = (λ h. tt, λ h. refl)
require_groups_iff known (g ∷ gs) = (
  λ h.
      let (_, first, rest) = >>=-eq-ok (require_known known g) _ h in
      ((require_known_iff known g).0 first, (require_groups_iff known gs).0 rest),
  λ (k, ks). rw ((require_known_iff known g).1 k) ((require_groups_iff known gs).1 ks),
)
