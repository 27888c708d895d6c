-- ===== src/Ingest/Exec/Keeps.antt =====
-- What an action leaves true of the database, one rule for each way to build an action.
use mortris_server.Prelude.{◌≡◌, refl, Bool, true, false, if◌then◌else◌}
use mathlib.Core.Path.{subst}
use mortris_server.Prelude.Int.{ℤ}
use mortris_server.Failure.{Failure, Result, ok, err}
use mortris_server.Ratelimit.{RateLibrary}
use mortris_server.Ingest.Db.{Db}
use mortris_server.Ingest.Exec.{
  World, Exec, pure, fail, lift, statement, query, execute, attempt, now, ◌>>=◌, continue,
  transaction, outcome, commit, finish, begin, advance,
}

-- `m` keeps `P` of the database, whether it succeeds or fails.
pub record Keeps {rate : RateLibrary} {A : Type 0} (P : Db → Type 0) (m : Exec rate A)
    : Type 0 where
  pub at : (w : World rate) → P w.db → P (m w).1.db

module _ {rate : RateLibrary} {A : Type 0} {P : Db → Type 0} where
  pub Keeps-pure : (a : A) → Keeps {rate = rate} P (pure a)
  unfolding pure
  Keeps-pure a = record { at = λ w h. h }

  pub Keeps-fail : (e : Failure) → Keeps {rate = rate} {A = A} P (fail e)
  unfolding fail
  Keeps-fail e = record { at = λ w h. h }

  pub Keeps-lift : (r : Result A) → Keeps {rate = rate} P (lift r)
  unfolding lift
  Keeps-lift r = record { at = λ w h. h }

  pub Keeps-if :
      (test : Bool) (left right : Exec rate A)
      → (test ≡ true → Keeps P left)
      → (test ≡ false → Keeps P right)
      → Keeps P (if test then left else right)
  Keeps-if false left right hl hr = hr refl
  Keeps-if true left right hl hr = hl refl

module _ {rate : RateLibrary} {A : Type 0} (P : Db → Type 0) where
  outcome-keeps :
      (fault : Bool) (r : Result (A × Db)) (w : World rate)
      → P w.db
      → ((a : A) (db : Db) → r ≡ ok (a, db) → P db)
      → P (outcome fault r w).1.db
  outcome-keeps true r w h k = h
  outcome-keeps false (ok (a, db)) w h k = k a db refl
  outcome-keeps false (err e) w h k = h

  commit-keeps :
      (fault : Bool) (before : Db) (a : A) (w : World rate)
      → P before
      → P w.db
      → P (commit fault before a w).1.db
  commit-keeps true before a w b h = b
  commit-keeps false before a w b h = h

  finish-keeps :
      (before : Db) (r : Result A) (w : World rate) → P before → P w.db → P (finish before r w).1.db
  finish-keeps before (err e) w b h = b
  finish-keeps before (ok a) w b h = commit-keeps (w.faults 0) before a (advance w) b h

  begin-keeps :
      (fault : Bool) (m : Exec rate A) (w : World rate)
      → Keeps P m
      → P w.db
      → P (begin fault m w).1.db
  begin-keeps true m w k h = h
  begin-keeps false m w k h = finish-keeps w.db (m w).0 (m w).1 h (k.at w h)

module _ {rate : RateLibrary} {A : Type 0} {P : Db → Type 0} where
  pub Keeps-statement :
      (f : ℤ → Db → Result (A × Db))
      → ((t : ℤ) (db : Db) (a : A) (db' : Db) → P db → f t db ≡ ok (a, db') → P db')
      → Keeps {rate = rate} P (statement f)
  unfolding statement
  Keeps-statement f k = record {
    at = λ w h.
        outcome-keeps P (w.faults 0) (f (w.clocks 0) w.db) (advance w) h
          λ a db e. k (w.clocks 0) w.db a db h e;
  }

  pub Keeps-query : (f : Db → A) → Keeps {rate = rate} P (query f)
  unfolding query
  Keeps-query f = Keeps-statement _ λ t db a db' h e. subst P (same e) h
    where
      same :
          {a : A} {db db' : Db} → ◌≡◌ {A = Result (A × Db)} (ok (f db, db)) (ok (a, db')) → db ≡ db'
      same e = cc

  pub Keeps-transaction : (m : Exec rate A) → Keeps P m → Keeps P (transaction m)
  unfolding transaction
  Keeps-transaction m km = record { at = λ w h. begin-keeps P (w.faults 0) m (advance w) km h }

module _ {rate : RateLibrary} {P : Db → Type 0} where
  pub Keeps-execute :
      (f : ℤ → Db → Db)
      → ((t : ℤ) (db : Db) → P db → P (f t db))
      → Keeps {rate = rate} P (execute f)
  unfolding execute
  Keeps-execute f k = Keeps-statement _ λ t db a db' h e. subst P (same e) (k t db h)
    where
      same :
          {a : Unit {0}} {db db' : Db}
          → ◌≡◌ {A = Result (Unit {0} × Db)} (ok (tt, db)) (ok (a, db'))
          → db ≡ db'
      same e = cc

  pub Keeps-now : Keeps {rate = rate} P now
  unfolding now
  Keeps-now = record { at = λ w h. h }

module _ {rate : RateLibrary} {A B : Type 0} {P : Db → Type 0} where
  pub Keeps-bind :
      (first : Exec rate A) (next : A → Exec rate B)
      → Keeps P first
      → ((x : A) → Keeps P (next x))
      → Keeps P (first >>= next)
  unfolding ◌>>=◌
  Keeps-bind first next k ks = record {
    at = λ w h. let (r, w') = first w in continue-keeps r w' (k.at w h);
  }
    where
      continue-keeps : (r : Result A) (w : World rate) → P w.db → P (continue r next w).1.db
      continue-keeps (ok a) w h = (ks a).at w h
      continue-keeps (err e) w h = h

pub ruleset keeps_rules = (
  Keeps-pure, Keeps-fail, Keeps-lift, Keeps-if, Keeps-query, Keeps-now, Keeps-bind,
  Keeps-transaction,
)

pub Keeps-attempt :
    {rate : RateLibrary} {A : Type 0} {P : Db → Type 0} (m : Exec rate A)
    → Keeps P m
    → Keeps P (attempt m)
unfolding attempt
Keeps-attempt m k = record { at = λ w h. k.at w h }
