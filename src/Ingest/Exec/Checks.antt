-- ===== src/Ingest/Exec/Checks.antt =====
-- Rules for a block whose later statements rest on what an earlier one has read of the database:
-- between two statements of a block the tables are the same.
use mortris_server.Prelude.{◌≡◌, refl, Bool, true, false}
use mortris_server.Prelude.Int.{ℤ}
use mortris_server.Failure.{Result, ok, err}
use mortris_server.Ratelimit.{RateLibrary}
use mortris_server.Ingest.Db.{Db}
use mortris_server.Ingest.Exec.{
  World, Exec, lift, query, statement, ◌>>=◌, outcome, continue, advance,
}
use mortris_server.Ingest.Exec.Keeps.{Keeps}

module _ {rate : RateLibrary} {A B : Type 0} {P : Db → Type 0} where
  -- A statement that answers only where `Fact` holds.
  pub Keeps-check :
      (Fact : A → Type 0) (f : ℤ → Db → Result (A × Db)) (next : A → Exec rate B)
      → ((t : ℤ) (db : Db) (a : A) (db' : Db) → P db → f t db ≡ ok (a, db') → P db' × Fact a)
      → ((a : A) → Fact a → Keeps P (next a))
      → Keeps P (statement f >>= next)
  unfolding statement ◌>>=◌
  Keeps-check Fact f next k n = record {
    at = λ w h.
        go (w.faults 0) (f (w.clocks 0) w.db) (advance w) h
          λ a db' e. k (w.clocks 0) w.db a db' h e;
  }
    where
      go :
          (fault : Bool) (r : Result (A × Db)) (w : World rate)
          → P w.db
          → ((a : A) (db' : Db) → r ≡ ok (a, db') → P db' × Fact a)
          → P (continue (outcome fault r w).0 next (outcome fault r w).1).1.db
      go true r w h k = h
      go false (ok (a, db')) w h k = (n a (k a db' refl).1).at _ (k a db' refl).0
      go false (err e) w h k = h

  -- A query, a test of its answer and a statement: the test is true of the tables that the
  -- statement changes.
  pub Keeps-query-statement :
      (q : Db → A) (test : A → Result (Unit {0})) (f : ℤ → Db → Result (B × Db))
      → ((t : ℤ) (db : Db) (b : B) (db' : Db)
          → P db
          → test (q db) ≡ ok tt
          → f t db ≡ ok (b, db')
          → P db')
      → Keeps {rate = rate} P (query q >>= λ a. lift (test a) >>= λ _. statement f)
  unfolding statement query lift ◌>>=◌
  Keeps-query-statement q test f k = record { at = λ w h. asked (w.faults 0) w h }
    where
      changed :
          (fault : Bool) (t : ℤ) (r : Result (B × Db)) (w : World rate)
          → P w.db
          → ((b : B) (db' : Db) → r ≡ ok (b, db') → P db')
          → P (outcome fault r w).1.db
      changed true t r w h k = h
      changed false t (ok (b, db')) w h k = k b db' refl
      changed false t (err e) w h k = h

      tested :
          (r : Result (Unit {0})) (w : World rate)
          → P w.db
          → (r ≡ ok tt → (t : ℤ) (b : B) (db' : Db) → f t w.db ≡ ok (b, db') → P db')
          → P (continue r (λ _. statement f) w).1.db
      tested (ok done) w h k =
          changed (w.faults 0) (w.clocks 0) (f (w.clocks 0) w.db) (advance w) h
            (k refl (w.clocks 0))
      tested (err e) w h k = h

      asked :
          (fault : Bool) (w : World rate)
          → P w.db
          → P
              (continue
                (outcome fault (ok (q w.db, w.db)) (advance w)).0
                (λ a. lift (test a) >>= λ _. statement f)
                (outcome fault (ok (q w.db, w.db)) (advance w)).1).1.db
      asked true w h = h
      asked false w h = tested (test (q w.db)) (advance w) h λ e t b db' s. k t w.db b db' h e s
