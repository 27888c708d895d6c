-- ===== src/Ingest/Exec/Atomic.antt =====
-- A transaction that fails leaves the database as it was, wherever the failure came from.
use mortris_server.Prelude.{◌≡◌, refl, Bool, true, false, ◌⊎◌, inl, inr}
use mortris_server.Failure.{Failure, Result, ok, err}
use mortris_server.Ratelimit.{RateLibrary}
use mortris_server.Ingest.Db.{Db}
use mortris_server.Ingest.Exec.{
  World, Exec, ◌>>=◌, continue, transaction, finish, begin, commit, advance, query, statement,
  outcome,
}

module _ {rate : RateLibrary} {A : Type 0} where
  commit-err :
      (fault : Bool) (before : Db) (a : A) (e : Failure) (w : World rate)
      → (commit fault before a w).0 ≡ err e
      → (commit fault before a w).1.db ≡ before
  commit-err true before a e w h = refl
  commit-err false before a e w h = cc

  finish-err :
      (before : Db) (r : Result A) (e : Failure) (w : World rate)
      → (finish before r w).0 ≡ err e
      → (finish before r w).1.db ≡ before
  finish-err before (ok a) e w h = commit-err (w.faults 0) before a e (advance w) h
  finish-err before (err f) e w h = refl

  begin-err :
      (fault : Bool) (m : Exec rate A) (e : Failure) (w : World rate)
      → (begin fault m w).0 ≡ err e
      → (begin fault m w).1.db ≡ w.db
  begin-err true m e w h = refl
  begin-err false m e w h = finish-err w.db (m w).0 e (m w).1 h

  pub transaction-err :
      (m : Exec rate A) (e : Failure) (w : World rate)
      → (transaction m w).0 ≡ err e
      → (transaction m w).1.db ≡ w.db
  unfolding transaction
  transaction-err m e w h = begin-err (w.faults 0) m e (advance w) h

pub Result-cases {ℓ} :
    {A : Type ℓ} (r : Result A) → ((a : A) × (r ≡ ok a)) ⊎ ((e : Failure) × (r ≡ err e))
Result-cases (ok a) = inl (a, refl)
Result-cases (err e) = inr (e, refl)

module _ {rate : RateLibrary} {A B : Type 0} where
  pub bind-ok :
      (m : Exec rate A) (f : A → Exec rate B) (w : World rate) (a : A)
      → (m w).0 ≡ ok a
      → (m >>= f) w ≡ f a (m w).1
  unfolding ◌>>=◌
  bind-ok m f w a h = rw h

  pub bind-err :
      (m : Exec rate A) (f : A → Exec rate B) (w : World rate) (e : Failure)
      → (m w).0 ≡ err e
      → (m >>= f) w ≡ (err e, (m w).1)
  unfolding ◌>>=◌
  bind-err m f w e h = rw h

  -- A block succeeds only where its first action does.
  pub bind-eq-ok :
      (m : Exec rate A) (f : A → Exec rate B) (w : World rate) (b : B)
      → ((m >>= f) w).0 ≡ ok b
      → (a : A) × ((m w).0 ≡ ok a) × ((f a (m w).1).0 ≡ ok b)
  unfolding ◌>>=◌
  bind-eq-ok m f w b h = go (m w).0 (m w).1 h
    where
      go :
          (r : Result A) (w : World rate)
          → (continue r f w).0 ≡ ok b
          → (a : A) × (r ≡ ok a) × ((f a w).0 ≡ ok b)
      go (ok a) w h = (a, refl, h)
      go (err e) w h = cc

module _ {rate : RateLibrary} {A : Type 0} where
  pub query-eq-ok : (f : Db → A) (w : World rate) (a : A) → (query f w).0 ≡ ok a → f w.db ≡ a
  unfolding query statement
  query-eq-ok f w a h = go (w.faults 0) h
    where
      go : (fault : Bool) → (outcome fault (ok (f w.db, w.db)) (advance w)).0 ≡ ok a → f w.db ≡ a
      go true h = cc
      go false h = cc
