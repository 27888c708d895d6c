-- ===== src/Maintenance/Sweeps.antt =====
-- The loop of the two deletions: it ends, counts what it deletes, and stops only where a batch was
-- not full or a statement failed.
use mortris_server.Prelude.{
  ℕ, zero, suc, ◌+◌, ◌<◌, ◌≡◌, ◌≢◌, refl, sym, ap, Bool, true, false, none, some, ltb, ltb→lt,
  Option-cases, ◌∙◌, ◌⊎◌, inl, inr, if◌then◌else◌, arith,
}
use mathlib.Core.Path.{subst}
use mortris_server.Prelude.Int.{ℤ}
use mortris_server.Failure.{Failure, Result, ok, err, exhausted}
use mortris_server.Ratelimit.{RateLibrary}
use mortris_server.Ingest.Db.{Db}
use mortris_server.Ingest.Exec.{World, Exec, pure, statement, outcome, advance, attempt, ◌>>=◌}
use mortris_server.Maintenance.{Deletion, delete_batches, batch_size}

-- What one batch does to a table of `size` rows: it counts the rows that go, one that is not full
-- leaves `Done` at its time, and it reads a clock once.
pub record IsSweep {rate : RateLibrary} (size : Db → ℕ) (Done : ℤ → Db → Type 0)
    (batch : Exec rate ℕ) : Type 0 where
  pub once : (w : World rate) (k : ℕ) → (batch w).1.clocks k ≡ w.clocks (suc k)
  pub counts : (w : World rate) (n : ℕ) → (batch w).0 ≡ ok n → size (batch w).1.db + n ≡ size w.db
  pub done :
      (w : World rate) (n : ℕ)
      → (batch w).0 ≡ ok n
      → n < batch_size
      → Done (w.clocks 0) (batch w).1.db
  pub fails :
      (w : World rate) (e : Failure)
      → (batch w).0 ≡ err e
      → (e ≢ exhausted) × (size (batch w).1.db ≡ size w.db)

-- The n-th reading of the clocks was the last of a run.
abbrev pub IsLast : {rate : RateLibrary} → World rate → ℕ → World rate → Type 0
IsLast w n w' = (k : ℕ) → w'.clocks k ≡ w.clocks (suc n + k)

-- The end of the loop.
pub record Swept {rate : RateLibrary} (size : Db → ℕ) (Done : ℤ → Db → Type 0) (w : World rate)
    (total : ℕ) (r : Result Deletion × World rate) : Type 0 where
  pub deletion : Deletion
  pub succeeds : r.0 ≡ ok deletion
  pub ends : deletion.error ≢ some exhausted
  pub counted : size r.1.db + deletion.rows ≡ size w.db + total
  pub finished : deletion.error ≡ none → (n : ℕ) × Done (w.clocks n) r.1.db × IsLast w n r.1

module _ {rate : RateLibrary} (size : Db → ℕ) (Done : ℤ → Db → Type 0) (batch : Exec rate ℕ)
    (s : IsSweep size Done batch) where
  -- One unit of fuel for each row, and one more, are enough.
  pub delete_batches-Swept :
      (fuel total : ℕ) (w : World rate)
      → size w.db < fuel
      → Swept size Done w total (delete_batches batch fuel total w)
  unfolding delete_batches ◌>>=◌ attempt pure
  delete_batches-Swept zero total w h = absurd (omega arith)
  delete_batches-Swept (suc fuel) total w h = go (batch w).0 refl (delete_batches-Swept fuel)
    where
      next : Result ℕ → Exec rate Deletion
      next r = elim r [
        | err e ↦ pure (record { rows = total; error = some e })
        | ok n ↦
            if ltb n batch_size
            then pure (record { rows = total + n; error = none })
            else delete_batches batch fuel (total + n)
      ]

      go :
          (r : Result ℕ)
          → (batch w).0 ≡ r
          → ((total : ℕ) (w : World rate)
              → size w.db < fuel
              → Swept size Done w total (delete_batches batch fuel total w))
          → Swept size Done w total (next r (batch w).1)
      go (err e) q ih = record {
        deletion = record { rows = total; error = some e };
        succeeds = refl;
        ends = λ same. (s.fails w e q).0 (cc);
        counted = omega (arith, (s.fails w e q).1);
        finished = λ same. absurd (cc);
      }
      go (ok n) q ih = full (ltb n batch_size) refl
        where
          more : ltb n batch_size ≡ false → size (batch w).1.db < fuel
          more e = ground (arith, s.counts w n q)

          later : (m k : ℕ) → suc (suc m + k) ≡ suc (suc m) + k
          later m k = omega arith

          at_once : (k : ℕ) → suc k ≡ 1 + k
          at_once k = omega arith

          carry :
              Swept size Done
                (batch w).1
                (total + n)
                (delete_batches batch fuel (total + n) (batch w).1)
              → Swept size Done w total (delete_batches batch fuel (total + n) (batch w).1)
          carry t = record {
            deletion = t.deletion;
            succeeds = t.succeeds;
            ends = t.ends;
            counted = omega (arith, t.counted, s.counts w n q);
            finished = λ same.
                let (m, done, last) = t.finished same in
                (
                  suc m,
                  subst (λ time. Done time (delete_batches batch fuel (total + n) (batch w).1).1.db)
                      (s.once w m) done,
                  λ k. last k ∙ s.once w (suc m + k) ∙ ap w.clocks (later m k),
                );
          }

          full :
              (b : Bool)
              → ltb n batch_size ≡ b
              → Swept size Done w total (
                  (if b
                      then pure (record { rows = total + n; error = none })
                      else delete_batches batch fuel (total + n))
                    (batch w).1)
          full true e = record {
            deletion = record { rows = total + n; error = none };
            succeeds = refl;
            ends = λ same. absurd (cc);
            counted = omega (arith, s.counts w n q);
            finished = λ _. (
              0,
              s.done w n q (ltb→lt n batch_size e),
              λ k. s.once w k ∙ ap w.clocks (at_once k),
            );
          }
          full false e = carry (ih (total + n) (batch w).1 (more e))

-- A sweep that ended met an error, or left nothing to do.
pub Swept-ended :
    {rate : RateLibrary} (size : Db → ℕ) (Done : ℤ → Db → Type 0) (w : World rate) (total : ℕ)
    (r : Result Deletion × World rate) (s : Swept size Done w total r)
    → ((e : Failure) × (s.deletion.error ≡ some e) × (e ≢ exhausted))
      ⊎ ((s.deletion.error ≡ none) × (n : ℕ) × Done (w.clocks n) r.1.db × IsLast w n r.1)
Swept-ended size Done w total r s = elim (Option-cases s.deletion.error) [
  | inl e ↦ let (n, done, last) = s.finished e in inr (e, n, done, last)
  | inr (f, e) ↦ inl (f, e, λ same. s.ends (e ∙ ap some same))
]

-- What every batch keeps, the loop keeps.
pub delete_batches_invariant :
    {rate : RateLibrary} (P : World rate → Type 0) (batch : Exec rate ℕ)
    → ((w : World rate) → P w → P (batch w).1)
    → (fuel total : ℕ) (w : World rate) → P w
    → P (delete_batches batch fuel total w).1
unfolding delete_batches ◌>>=◌ attempt pure
delete_batches_invariant {rate = rate} P batch k zero total w h = h
delete_batches_invariant {rate = rate} P batch k (suc fuel) total w h =
    go (batch w).0 (delete_batches_invariant P batch k fuel)
  where
    next : Result ℕ → Exec rate Deletion
    next r = elim r [
      | err e ↦ pure (record { rows = total; error = some e })
      | ok n ↦
          if ltb n batch_size
          then pure (record { rows = total + n; error = none })
          else delete_batches batch fuel (total + n)
    ]

    go :
        (r : Result ℕ)
        → ((total : ℕ) (w : World rate) → P w → P (delete_batches batch fuel total w).1)
        → P (next r (batch w).1).1
    go (err e) ih = k w h
    go (ok n) ih = full (ltb n batch_size)
      where
        full :
            (b : Bool)
            → P
                ((if b
                    then pure (record { rows = total + n; error = none })
                    else delete_batches batch fuel (total + n))
                  (batch w).1).1
        full true = k w h
        full false = ih (total + n) (batch w).1 (k w h)

-- One statement as a batch, where the environment lets it succeed and where it does not.
module _ {rate : RateLibrary} (size : Db → ℕ) (Done : ℤ → Db → Type 0)
    (f : ℤ → Db → Result (ℕ × Db))
    (counts : (t : ℤ) (db db' : Db) (n : ℕ) → f t db ≡ ok (n, db') → size db' + n ≡ size db)
    (done : (t : ℤ) (db db' : Db) (n : ℕ) → f t db ≡ ok (n, db') → n < batch_size → Done t db')
    (fails : (t : ℤ) (db : Db) (e : Failure) → f t db ≡ err e → e ≢ exhausted) where
  pub statement-IsSweep : IsSweep {rate = rate} size Done (statement f)
  unfolding statement
  statement-IsSweep = record {
    once = λ w k. at_once w (w.faults 0) (f (w.clocks 0) w.db) k;
    counts = λ w n e. (ran w (w.faults 0) (f (w.clocks 0) w.db) refl n e).0;
    done = λ w n e h. (ran w (w.faults 0) (f (w.clocks 0) w.db) refl n e).1 h;
    fails = λ w e q. failed w (w.faults 0) (f (w.clocks 0) w.db) refl e q;
  }
    where
      at_once :
          (w : World rate) (fault : Bool) (r : Result (ℕ × Db)) (k : ℕ)
          → (outcome fault r (advance w)).1.clocks k ≡ w.clocks (suc k)
      at_once w true r k = refl
      at_once w false (ok (a, db)) k = refl
      at_once w false (err e) k = refl

      ran :
          (w : World rate) (fault : Bool) (r : Result (ℕ × Db))
          → f (w.clocks 0) w.db ≡ r
          → (n : ℕ) → (outcome fault r (advance w)).0 ≡ ok n
          → (size (outcome fault r (advance w)).1.db + n ≡ size w.db)
            × (n < batch_size → Done (w.clocks 0) (outcome fault r (advance w)).1.db)
      ran w true r q n e = absurd (cc)
      ran w false (err f) q n e = absurd (cc)
      ran w false (ok (a, db')) q n e =
          subst (λ n. (size db' + n ≡ size w.db) × (n < batch_size → Done (w.clocks 0) db'))
            (same e) (counts (w.clocks 0) w.db db' a q, done (w.clocks 0) w.db db' a q)
        where
          same : ◌≡◌ {A = Result ℕ} (ok a) (ok n) → a ≡ n
          same e = cc

      failed :
          (w : World rate) (fault : Bool) (r : Result (ℕ × Db))
          → f (w.clocks 0) w.db ≡ r
          → (e : Failure) → (outcome fault r (advance w)).0 ≡ err e
          → (e ≢ exhausted) × (size (outcome fault r (advance w)).1.db ≡ size w.db)
      failed w true r q e h = (λ same. cc, refl)
      failed w false (ok (a, db')) q e h = absurd (cc)
      failed w false (err f') q e h = (λ same. fails (w.clocks 0) w.db f' q (cc), refl)

-- Where every batch succeeds, the loop can only run out of fuel.
pub delete_batches_unbroken :
    {rate : RateLibrary} (P : World rate → Type 0) (batch : Exec rate ℕ)
    → ((w : World rate) → P w → (n : ℕ) × ((batch w).0 ≡ ok n) × P (batch w).1)
    → (fuel total : ℕ) (w : World rate) (d : Deletion) → P w
    → (delete_batches batch fuel total w).0 ≡ ok d
    → (d.error ≡ none) ⊎ (d.error ≡ some exhausted)
unfolding delete_batches ◌>>=◌ attempt pure
delete_batches_unbroken P batch k zero total w d h e = inr (error_of (sym e))
  where
    error_of : {f : Deletion} → ◌≡◌ {A = Result Deletion} (ok d) (ok f) → d.error ≡ f.error
    error_of e = cc
delete_batches_unbroken {rate = rate} P batch k (suc fuel) total w d h e =
    let (n, q, p) = k w h in
    go n (subst (λ r. (next r (batch w).1).0 ≡ ok d) q e) p (delete_batches_unbroken P batch k fuel)
  where
    next : Result ℕ → Exec rate Deletion
    next r = elim r [
      | err e ↦ pure (record { rows = total; error = some e })
      | ok n ↦
          if ltb n batch_size
          then pure (record { rows = total + n; error = none })
          else delete_batches batch fuel (total + n)
    ]

    error_of : {f : Deletion} → ◌≡◌ {A = Result Deletion} (ok f) (ok d) → d.error ≡ f.error
    error_of e = cc

    full :
        (b : Bool) (n : ℕ)
        → ((if b
              then pure (record { rows = total + n; error = none })
              else delete_batches batch fuel (total + n))
            (batch w).1).0
          ≡ ok d
        → P (batch w).1
        → ((total : ℕ) (w : World rate) (d : Deletion)
            → P w
            → (delete_batches batch fuel total w).0 ≡ ok d
            → (d.error ≡ none) ⊎ (d.error ≡ some exhausted))
        → (d.error ≡ none) ⊎ (d.error ≡ some exhausted)
    full true n e p ih = inl (error_of e)
    full false n e p ih = ih (total + n) (batch w).1 d p e

    go :
        (n : ℕ)
        → (next (ok n) (batch w).1).0 ≡ ok d
        → P (batch w).1
        → ((total : ℕ) (w : World rate) (d : Deletion)
            → P w
            → (delete_batches batch fuel total w).0 ≡ ok d
            → (d.error ≡ none) ⊎ (d.error ≡ some exhausted))
        → (d.error ≡ none) ⊎ (d.error ≡ some exhausted)
    go n e p ih = full (ltb n batch_size) n e p ih
