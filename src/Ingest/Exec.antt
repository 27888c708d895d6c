-- ===== src/Ingest/Exec.antt =====
-- What the handlers of internal/ingest act on: the database, the limiters, the disk state, and
-- the failures and clocks that the environment chooses. A handler may fail after some of its
-- statements, so the world comes back beside an error too.
pub mod Keeps
pub mod Yields
pub mod Atomic
pub mod Runs
pub mod Checks
pub mod Refuses
use mortris_server.Prelude.{ℕ, suc, Bool, true, false}
use mortris_server.Prelude.Int.{ℤ}
use mortris_server.Failure.{Failure, Result, ok, err, other}
use mortris_server.Diskstate
use mortris_server.Ratelimit.{RateLibrary, Limiter}
use mortris_server.Ingest.Db.{Db}

-- ingest.Service, the database behind its pool, and the environment: the n-th statement from now
-- fails if `faults n`, and the n-th reading of a clock from now is `clocks n`.
pub record World (rate : RateLibrary) : Type 0 where
  pub db : Db
  pub disk : Diskstate.State
  pub reg_ip : Limiter rate
  pub reg_project : Limiter rate
  pub ingest_install : Limiter rate
  pub ingest_project : Limiter rate
  pub ingest_ip : Limiter rate
  pub daily_registration_cap : ℕ
  pub faults : ℕ → Bool
  pub clocks : ℕ → ℤ

module _ (rate : RateLibrary) where
  abbrev pub Exec : Type 0 → Type 0
  Exec A = World rate → Result A × World rate

-- A statement uses up one choice of the environment of each kind.
abbrev pub advance : {rate : RateLibrary} → World rate → World rate
advance w = record w { faults = λ n. w.faults (suc n); clocks = λ n. w.clocks (suc n) }

module _ {rate : RateLibrary} {A : Type 0} where
  unfoldable pub pure : A → Exec rate A
  pure a w = (ok a, w)

  unfoldable pub fail : Failure → Exec rate A
  fail e w = (err e, w)

  unfoldable pub lift : Result A → Exec rate A
  lift r w = (r, w)

  abbrev pub outcome : Bool → Result (A × Db) → World rate → Result A × World rate
  outcome true r w = (err other, w)
  outcome false (ok (a, db)) w = (ok a, record w { db = db })
  outcome false (err e) w = (err e, w)

  -- One SQL statement, at the database's clock_timestamp(): it fails, or it gives a result and
  -- the new database, or an error of its own, which changes nothing.
  unfoldable pub statement : (ℤ → Db → Result (A × Db)) → Exec rate A
  statement f w = outcome (w.faults 0) (f (w.clocks 0) w.db) (advance w)

  -- A statement that only reads.
  unfoldable pub query : (Db → A) → Exec rate A
  unfolding statement
  query f = statement λ _ db. ok (f db, db)

unfoldable pub execute : {rate : RateLibrary} → (ℤ → Db → Db) → Exec rate (Unit {0})
unfolding statement
execute f = statement λ t db. ok (tt, f t db)

-- time.Now()
unfoldable pub now : {rate : RateLibrary} → Exec rate ℤ
now w = (ok (w.clocks 0), record w { clocks = λ n. w.clocks (suc n) })

module _ {rate : RateLibrary} {A B : Type 0} where
  abbrev pub continue : Result A → (A → Exec rate B) → Exec rate B
  continue (ok a) f w = f a w
  continue (err e) f w = (err e, w)

  infixl 10 ◌>>=◌ ◌>>◌
  unfoldable pub ◌>>=◌ : Exec rate A → (A → Exec rate B) → Exec rate B
  ◌>>=◌ m f w = let (r, w') = m w in continue r f w'

  abbrev pub ◌>>◌ : Exec rate A → Exec rate B → Exec rate B
  m >> n = m >>= λ _. n

module _ {rate : RateLibrary} {A : Type 0} where
  abbrev pub commit : Bool → Db → A → World rate → Result A × World rate
  commit true before a w = (err other, record w { db = before })
  commit false before a w = (ok a, w)

  -- Commit, or the deferred Rollback to the database that Begin saw.
  abbrev pub finish : Db → Result A → World rate → Result A × World rate
  finish before (err e) w = (err e, record w { db = before })
  finish before (ok a) w = commit (w.faults 0) before a (advance w)

  abbrev pub begin : Bool → Exec rate A → World rate → Result A × World rate
  begin true body w = (err other, w)
  begin false body w = let (r, w') = body w in finish w.db r w'

  unfoldable pub transaction : Exec rate A → Exec rate A
  transaction body w = begin (w.faults 0) body (advance w)

-- The result of an action as a value: an error that the code looks at, or leaves alone.
unfoldable pub attempt : {rate : RateLibrary} {A : Type 0} → Exec rate A → Exec rate (Result A)
attempt m w = let (r, w') = m w in (ok r, w')
