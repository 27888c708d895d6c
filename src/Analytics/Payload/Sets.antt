-- ===== src/Analytics/Payload/Sets.antt =====
-- The sets of block identifiers: what they hold, and that they are listed in ascending order.
use mortris_server.Prelude.{
  ◌≡◌, ℕ, String, refl, ◌↔◌, inl, inr, Bool, true, false, List, [], ◌∷◌, In, Bool-cases, contains,
  not, if◌then◌else◌, arith,
}
use mathlib.Core.Path.{subst}
use mortris_server.Prelude.Int.{
  ℤ, ◌<ℤ◌, ◌≤ℤ◌, ltb_ℤ, eqb_ℤ, eqb_ℤ_iff, ltb_ℤ→lt, ltb_ℤ→le, eq_of_parts, int_eq,
}
use mortris_server.Analytics.Catalog.Scan.{Distinct, contains-In, In-contains}
use mortris_server.Analytics.Payload.{
  add, remove, place, sorted_block_ids, integer_set, add_parts, add_part, atoi,
}

-- Each member is smaller than the next one.
abbrev pub Below : ℤ → List ℤ → Type 0
Below k [] = Unit
Below k (j ∷ js) = k <ℤ j

abbrev pub Ascending : List ℤ → Type 0
Ascending [] = Unit
Ascending (k ∷ ks) = Below k ks × Ascending ks

place-In : (j k : ℤ) (ks : List ℤ) → In j (place k ks) ↔ In j (k ∷ ks)
unfolding place
place-In j k [] = (λ i. i, λ i. i)
place-In j k (l ∷ ls) = go (ltb_ℤ k l) (place-In j k ls)
  where
    swap : {a b : ℤ} {xs : List ℤ} → In j (a ∷ b ∷ xs) → In j (b ∷ a ∷ xs)
    swap (In.head e) = In.tail (In.head e)
    swap (In.tail (In.head e)) = In.head e
    swap (In.tail (In.tail i)) = In.tail (In.tail i)

    under : {a : ℤ} {xs ys : List ℤ} → (In j xs → In j ys) → In j (a ∷ xs) → In j (a ∷ ys)
    under f (In.head e) = In.head e
    under f (In.tail i) = In.tail (f i)

    go :
        (b : Bool)
        → In j (place k ls) ↔ In j (k ∷ ls)
        → In j (if b then k ∷ l ∷ ls else l ∷ place k ls) ↔ In j (k ∷ l ∷ ls)
    go true ih = (λ i. i, λ i. i)
    go false ih = (λ i. swap (under ih.0 i), λ i. under ih.1 (swap i))

pub sorted_block_ids-In : (j : ℤ) (ks : List ℤ) → In j (sorted_block_ids ks) ↔ In j ks
unfolding sorted_block_ids
sorted_block_ids-In j [] = (λ i. i, λ i. i)
sorted_block_ids-In j (k ∷ ks) =
    let s = place-In j k (sorted_block_ids ks) in
    let ih = sorted_block_ids-In j ks in
    (
      λ i. elim (s.0 i) [ In.head e ↦ In.head e | In.tail i ↦ In.tail (ih.0 i) ],
      λ i. s.1 (elim i [ In.head e ↦ In.head e | In.tail i ↦ In.tail (ih.1 i) ]),
    )

Below-place : (j k : ℤ) (ks : List ℤ) → Below j ks → j <ℤ k → Below j (place k ks)
unfolding place
Below-place j k [] b h = h
Below-place j k (l ∷ ls) b h = go (ltb_ℤ k l)
  where
    go : (t : Bool) → Below j (if t then k ∷ l ∷ ls else l ∷ place k ls)
    go true = h
    go false = b

place-Ascending : (k : ℤ) (ks : List ℤ) → (In k ks → ⊥) → Ascending ks → Ascending (place k ks)
unfolding place
place-Ascending k [] n a = (tt, tt)
place-Ascending k (j ∷ js) n (b, a) = elim (Bool-cases (ltb_ℤ k j)) [
  | inl e ↦ rw e (ltb_ℤ→lt k j e, (b, a))
  | inr e ↦
      rw e
        (Below-place j k js b (above (ltb_ℤ→le k j e)), place-Ascending k js (λ i. n (In.tail i)) a)
]
  where
    above : j ≤ℤ k → j <ℤ k
    above le = elim (Bool-cases (ltb_ℤ j k)) [
      | inl e ↦ ltb_ℤ→lt j k e
      | inr e ↦ absurd (n (In.head (eq_of_parts k j (omega (arith, ltb_ℤ→le j k e)))))
    ]

pub sorted_block_ids-Ascending : (ks : List ℤ) → Distinct ks → Ascending (sorted_block_ids ks)
unfolding sorted_block_ids
sorted_block_ids-Ascending [] d = tt
sorted_block_ids-Ascending (k ∷ ks) (n, d) =
    place-Ascending k (sorted_block_ids ks) (λ i. n ((sorted_block_ids-In k ks).0 i))
      (sorted_block_ids-Ascending ks d)

pub add-Distinct : (id : ℤ) (set : List ℤ) → Distinct set → Distinct (add id set)
unfolding add
add-Distinct id set d = elim (Bool-cases (contains set id)) [
  | inl e ↦ rw e d
  | inr e ↦ rw e ((λ i. absurd (cc (In-contains set id i))), d)
]

remove-In : (id j : ℤ) (set : List ℤ) → In j (remove id set) → In j set
unfolding remove
remove-In id j [] i = elim i [ ]
remove-In id j (k ∷ ks) i = go (not (eqb_ℤ id k)) i (remove-In id j ks)
  where
    go :
        (b : Bool)
        → In j (if b then k ∷ remove id ks else remove id ks)
        → (In j (remove id ks) → In j ks)
        → In j (k ∷ ks)
    go true (In.head e) ih = In.head e
    go true (In.tail i) ih = In.tail (ih i)
    go false i ih = In.tail (ih i)

pub remove-Distinct : (id : ℤ) (set : List ℤ) → Distinct set → Distinct (remove id set)
unfolding remove
remove-Distinct id [] d = tt
remove-Distinct id (k ∷ ks) (n, d) = go (not (eqb_ℤ id k)) (remove-Distinct id ks d)
  where
    go :
        (b : Bool)
        → Distinct (remove id ks)
        → Distinct (if b then k ∷ remove id ks else remove id ks)
    go true d = (λ i. n (remove-In id k ks i), d)
    go false d = d

add_part-Distinct : (p : ℤ × Bool) (set : List ℤ) → Distinct set → Distinct (add_part p set)
add_part-Distinct (id, true) set d = add-Distinct id set d
add_part-Distinct (id, false) set d = d

add_parts-Distinct :
    (parts : List (List ℕ)) (set : List ℤ) → Distinct set → Distinct (add_parts parts set)
unfolding add_parts
add_parts-Distinct [] set d = d
add_parts-Distinct (part ∷ parts) set d =
    add_parts-Distinct parts _ (add_part-Distinct (atoi part) set d)

pub integer_set-Distinct : (csv : String) → Distinct (integer_set csv)
unfolding integer_set
integer_set-Distinct csv = add_parts-Distinct _ [] tt

pub add-In : (id : ℤ) (set : List ℤ) → In id (add id set)
unfolding add
add-In id set = elim (Bool-cases (contains set id)) [
  | inl e ↦ rw e (contains-In set id e)
  | inr e ↦ rw e (In.head refl)
]

pub remove-not-In : (id : ℤ) (set : List ℤ) → In id (remove id set) → ⊥
unfolding remove
remove-not-In id [] i = elim i [ ]
remove-not-In id (k ∷ ks) i = elim (Bool-cases (eqb_ℤ id k)) [
  | inl e ↦
      remove-not-In id ks
        (subst (λ b. In id (if not b then k ∷ remove id ks else remove id ks)) e i)
  | inr e ↦
      go e (subst (λ b. In id (if not b then k ∷ remove id ks else remove id ks)) e i)
        (remove-not-In id ks)
]
  where
    go : eqb_ℤ id k ≡ false → In id (k ∷ remove id ks) → (In id (remove id ks) → ⊥) → ⊥
    go e (In.head same) ih = cc ((eqb_ℤ_iff id k).1 same)
    go e (In.tail i) ih = ih i
