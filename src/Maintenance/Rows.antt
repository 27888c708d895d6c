-- ===== src/Maintenance/Rows.antt =====
-- The rows that one DELETE of a batch takes.
use mortris_server.Prelude.{
  any, ◌||◌, ℕ, ◌+◌, ◌-◌, ◌<◌, ◌≡◌, refl, sym, ap, Bool, true, false, ◌&&◌, List, [], ◌∷◌, ltb,
  length, All, In, ◌∙◌, if◌then◌else◌, arith,
}
use mortris_server.Maintenance.{delete_some}

-- The rows that are deleted and those that stay are all rows.
pub length-delete_some :
    {A : Type 0} (due : A → Bool) (limit : ℕ) (xs : List A)
    → length (delete_some due limit xs).1 + (delete_some due limit xs).0 ≡ length xs
unfolding delete_some
length-delete_some due limit [] = omega arith
length-delete_some due limit (x ∷ xs) =
    ground (arith, length-delete_some due limit xs, length-delete_some due (limit - 1) xs)

-- A batch that is not full leaves no row that is due.
pub delete_some-All :
    {A : Type 0} (due : A → Bool) (limit : ℕ) (xs : List A)
    → (delete_some due limit xs).0 < limit
    → All (λ x. due x ≡ false) (delete_some due limit xs).1
unfolding delete_some
delete_some-All due limit [] h = tt
delete_some-All {A = A} due limit (x ∷ xs) h =
    go (due x) (ltb 0 limit) refl refl (λ l. delete_some-All due l xs) h
  where
    go :
        (d room : Bool)
        → due x ≡ d
        → ltb 0 limit ≡ room
        → ((l : ℕ)
            → (delete_some due l xs).0 < l
            → All {_, 0} (λ x. due x ≡ false) (delete_some due l xs).1)
        → let rest = delete_some due (if d && room then limit - 1 else limit) xs in
          let r : ℕ × List A = if d && room then (rest.0 + 1, rest.1) else (rest.0, x ∷ rest.1) in
          r.0 < limit → All {_, 0} (λ x. due x ≡ false) r.1
    go true true e f ih h = ih (limit - 1) (omega arith)
    go true false e f ih h = absurd (ground arith)
    go false room e f ih h = (e, ih limit h)

-- A row that is not due stays.
pub delete_some-In :
    {A : Type 0} (due : A → Bool) (limit : ℕ) (xs : List A) (x : A)
    → due x ≡ false
    → In x xs
    → In x (delete_some due limit xs).1
unfolding delete_some
delete_some-In due limit [] x e i = elim i [ ]
delete_some-In {A = A} due limit (y ∷ ys) x e i =
    go (due y) (ltb 0 limit) refl (λ l. delete_some-In due l ys x e) i
  where
    go :
        (d room : Bool)
        → due y ≡ d
        → ((l : ℕ) → In x ys → In x (delete_some due l ys).1)
        → In x (y ∷ ys)
        → let rest = delete_some due (if d && room then limit - 1 else limit) ys in
          let r : ℕ × List A = if d && room then (rest.0 + 1, rest.1) else (rest.0, y ∷ rest.1) in
          In x r.1
    go true room f ih (In.head same) = absurd (cc (ap due same))
    go true true f ih (In.tail i) = ih _ i
    go true false f ih (In.tail i) = In.tail (ih _ i)
    go false room f ih (In.head same) = In.head same
    go false room f ih (In.tail i) = In.tail (ih _ i)

pub any-In :
    {A : Type 0} (p : A → Bool) (x : A) (xs : List A) → In x xs → p x ≡ true → any p xs ≡ true
any-In p x (y ∷ ys) (In.head same) e = rw (sym (ap p same) ∙ e) refl
any-In p x (y ∷ ys) (In.tail i) e = ground (arith, any-In p x ys i e)
any-In p x [] i e = elim i [ ]

pub In-any :
    {A : Type 0} (p : A → Bool) (xs : List A) → any p xs ≡ true → (x : A) × In x xs × (p x ≡ true)
In-any p [] e = absurd (cc)
In-any {A = A} p (x ∷ xs) e = go (p x) refl e (In-any p xs)
  where
    go :
        (b : Bool)
        → p x ≡ b
        → b || any p xs ≡ true
        → (any p xs ≡ true → (y : A) × In y xs × (p y ≡ true))
        → (y : A) × In y (x ∷ xs) × (p y ≡ true)
    go true f e ih = (x, In.head refl, f)
    go false f e ih = let (y, i, g) = ih e in (y, In.tail i, g)
