-- ===== src/Ingest/Exec/Yields.antt =====
-- What holds of an action's result when it succeeds, whatever the environment chooses.
use mortris_server.Prelude.{◌≡◌, refl, Bool, true, false}
use mathlib.Core.Path.{subst}
use mortris_server.Failure.{Result, ok, err}
use mortris_server.Ratelimit.{RateLibrary}
use mortris_server.Ingest.Db.{Db}
use mortris_server.Ingest.Exec.{
  World, Exec, pure, lift, ◌>>=◌, continue, transaction, finish, begin, commit, advance,
}
use mortris_server.Ingest.Exec.Keeps.{Keeps}

pub record Yields {rate : RateLibrary} {A : Type 0} (P : A → Type 0) (m : Exec rate A)
    : Type 0 where
  pub at : (w : World rate) (a : A) → (m w).0 ≡ ok a → P a

module _ {rate : RateLibrary} {A : Type 0} where
  pub Yields-any : (m : Exec rate A) → Yields (λ _. Unit {0}) m
  Yields-any m = record { at = λ w a e. tt }

  pub Yields-pure : (P : A → Type 0) (a : A) → P a → Yields {rate = rate} P (pure a)
  unfolding pure
  Yields-pure P a h = record { at = λ w b e. same b e }
    where
      same : (b : A) → ◌≡◌ {A = Result A} (ok a) (ok b) → P b
      same b e = subst P (cc) h

  pub Yields-lift :
      (P : A → Type 0) (r : Result A) → ((a : A) → r ≡ ok a → P a) → Yields {rate = rate} P (lift r)
  unfolding lift
  Yields-lift P r h = record { at = λ w a e. h a e }

  pub Yields-map :
      (P Q : A → Type 0) (m : Exec rate A) → ((a : A) → P a → Q a) → Yields P m → Yields Q m
  Yields-map P Q m f y = record { at = λ w a e. f a (y.at w a e) }

  commit-ok :
      (fault : Bool) (before : Db) (a b : A) (w : World rate)
      → (commit fault before a w).0 ≡ ok b
      → ◌≡◌ {A = Result A} (ok a) (ok b)
  commit-ok true before a b w e = cc
  commit-ok false before a b w e = e

  finish-ok :
      (before : Db) (r : Result A) (b : A) (w : World rate)
      → (finish before r w).0 ≡ ok b
      → r ≡ ok b
  finish-ok before (ok a) b w e = commit-ok (w.faults 0) before a b (advance w) e
  finish-ok before (err f) b w e = e

  begin-ok :
      (fault : Bool) (m : Exec rate A) (b : A) (w : World rate)
      → (begin fault m w).0 ≡ ok b
      → (m w).0 ≡ ok b
  begin-ok true m b w e = cc
  begin-ok false m b w e = finish-ok w.db (m w).0 b (m w).1 e

  pub Yields-transaction :
      (P : A → Type 0) (m : Exec rate A) → Yields P m → Yields P (transaction m)
  unfolding transaction
  Yields-transaction P m y = record {
    at = λ w a e. y.at (advance w) a (begin-ok (w.faults 0) m a (advance w) e);
  }

module _ {rate : RateLibrary} {A B : Type 0} where
  pub Yields-bind :
      (P : A → Type 0) (Q : B → Type 0) (m : Exec rate A) (f : A → Exec rate B)
      → Yields P m
      → ((a : A) → P a → Yields Q (f a))
      → Yields Q (m >>= f)
  unfolding ◌>>=◌
  Yields-bind P Q m f y k = record { at = λ w b e. go (m w).0 (m w).1 (λ a p. y.at w a p) b e }
    where
      go :
          (r : Result A) (w : World rate)
          → ((a : A) → r ≡ ok a → P a)
          → (b : B) → (continue r f w).0 ≡ ok b
          → Q b
      go (ok a) w p b e = (k a (p a refl)).at w b e
      go (err x) w p b e = cc

  -- The rest of a block may use what the first action yields.
  pub Keeps-bind-Yields :
      {P : Db → Type 0} (Q : A → Type 0) (m : Exec rate A) (f : A → Exec rate B)
      → Keeps P m
      → Yields Q m
      → ((a : A) → Q a → Keeps P (f a))
      → Keeps P (m >>= f)
  unfolding ◌>>=◌
  Keeps-bind-Yields {P} Q m f km y k = record {
    at = λ w h. go (m w).0 (m w).1 (km.at w h) (λ a p. y.at w a p);
  }
    where
      go :
          (r : Result A) (w : World rate)
          → P w.db
          → ((a : A) → r ≡ ok a → Q a)
          → P (continue r f w).1.db
      go (ok a) w h q = (k a (q a refl)).at w h
      go (err x) w h q = h
