-- ===== src/Maintenance/Accounted.antt =====
-- What the loop of a deletion does to one row: it stays, or a statement of the loop found it due.
use mortris_server.Prelude.{
  ℕ, suc, ◌+◌, ◌-◌, ◌≤◌, ◌<◌, ◌≡◌, ap, ◌∙◌, List, In, ◌⊎◌, inl, inr, arith,
}
use mathlib.Core.Path.{subst}
use mortris_server.Prelude.Int.{ℤ}
use mortris_server.Ratelimit.{RateLibrary}
use mortris_server.Ingest.Db.{Db}
use mortris_server.Ingest.Exec.{World, Exec}
use mortris_server.Maintenance.{delete_batches}
use mortris_server.Maintenance.Sweeps.{IsLast, delete_batches_invariant}

-- Of the readings 0 to n of the clocks, which are those of a run from `w` to `w'`, one found a row
-- due.
abbrev pub WasDue : {rate : RateLibrary} → (ℤ → Type 0) → World rate → World rate → Type 0
WasDue Due w w' = (n : ℕ) × (m : ℕ) × (m ≤ n) × IsLast w n w' × Due (w.clocks m)

module _ {rate : RateLibrary} {A : Type 0} (rows : Db → List A) (x : A) (Due : ℤ → Type 0)
    (Holds : World rate → Type 0) where
  -- A batch reads a clock once, and takes the row only if it is due.
  pub record IsFair (batch : Exec rate ℕ) : Type 0 where
    pub once : (v : World rate) (k : ℕ) → (batch v).1.clocks k ≡ v.clocks (suc k)
    pub holds : (v : World rate) → Holds v → Holds (batch v).1
    pub keeps :
        (v : World rate)
        → Holds v
        → In x (rows v.db)
        → In x (rows (batch v).1.db) ⊎ Due (v.clocks 0)

  -- A later world of a run that began with `w`.
  record IsAccounted (w v : World rate) : Type 0 where
    readings : ℕ
    shifted : (k : ℕ) → v.clocks k ≡ w.clocks (readings + k)
    holds : Holds v
    kept : In x (rows v.db) ⊎ ((m : ℕ) × (m < readings) × Due (w.clocks m))

  module _ (batch : Exec rate ℕ) (fair : IsFair batch) (w : World rate) where
    batch-IsAccounted : (v : World rate) → IsAccounted w v → IsAccounted w (batch v).1
    batch-IsAccounted v h = record {
      readings = h.readings + 1;
      shifted = λ k. fair.once v k ∙ h.shifted (suc k) ∙ ap w.clocks (later h.readings k);
      holds = fair.holds v h.holds;
      kept = elim h.kept [
        | inl stored ↦ elim (fair.keeps v h.holds stored) [
          | inl stays ↦ inl stays
          | inr due ↦
              inr (h.readings, omega arith, subst Due (h.shifted 0 ∙ ap w.clocks (omega arith)) due)
        ]
        | inr (m, before, due) ↦ inr (m, omega (arith, before), due)
      ];
    }
      where
        later : (n k : ℕ) → n + suc k ≡ n + 1 + k
        later n k = omega arith

    -- After the loop the row is stored, or it was due at a reading of the loop.
    pub delete_batches-kept :
        (fuel : ℕ)
        → Holds w
        → In x (rows w.db)
        → In x (rows (delete_batches batch fuel 0 w).1.db)
          ⊎ WasDue Due w (delete_batches batch fuel 0 w).1
    delete_batches-kept fuel h stored =
        let end =
          delete_batches_invariant (IsAccounted w) batch batch-IsAccounted fuel 0 w (record {
            readings = 0;
            shifted = λ k. ap w.clocks (omega arith);
            holds = h;
            kept = inl stored;
          }) in
        elim end.kept [
          | inl stays ↦ inl stays
          | inr (m, before, due) ↦ inr (
            end.readings - 1,
            m,
            omega (arith, before),
            λ k. end.shifted k ∙ ap w.clocks (omega (arith, before)),
            due,
          )
        ]
