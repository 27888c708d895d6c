-- ===== src/Ingest/Exec/Refuses.antt =====
-- An action that never succeeds from a database with `P`, whatever the environment chooses.
use mortris_server.Prelude.{◌≡◌, refl, Bool, true, false}
use mortris_server.Prelude.Int.{ℤ}
use mortris_server.Failure.{Failure, Result, ok, err, other}
use mortris_server.Ratelimit.{RateLibrary}
use mortris_server.Ingest.Db.{Db}
use mortris_server.Ingest.Exec.{
  World, Exec, statement, transaction, ◌>>=◌, outcome, continue, finish, begin, advance,
}
use mortris_server.Ingest.Exec.Keeps.{Keeps}

pub record Refuses {rate : RateLibrary} {A : Type 0} (P : Db → Type 0) (m : Exec rate A)
    : Type 0 where
  pub at : (w : World rate) → P w.db → (e : Failure) × ((m w).0 ≡ err e)

module _ {rate : RateLibrary} {A : Type 0} where
  outcome-err :
      (fault : Bool) (r : Result (A × Db)) (w : World rate) (e : Failure)
      → r ≡ err e
      → (f : Failure) × ((outcome fault r w).0 ≡ err f)
  outcome-err true r w e h = (other, refl)
  outcome-err false (ok a) w e h = absurd (cc)
  outcome-err false (err f) w e h = (f, refl)

  begin-err :
      (fault : Bool) (m : Exec rate A) (w : World rate) (e : Failure)
      → (m w).0 ≡ err e
      → (f : Failure) × ((begin fault m w).0 ≡ err f)
  begin-err true m w e h = (other, refl)
  begin-err false m w e h = go (m w).0 (m w).1 h
    where
      go :
          (r : Result A) (v : World rate)
          → r ≡ err e
          → (f : Failure) × ((finish w.db r v).0 ≡ err f)
      go (ok a) v h = absurd (cc)
      go (err f) v h = (f, refl)

module _ {rate : RateLibrary} {A : Type 0} {P : Db → Type 0} where
  pub Refuses-statement :
      (f : ℤ → Db → Result (A × Db))
      → ((t : ℤ) (db : Db) → P db → (e : Failure) × (f t db ≡ err e))
      → Refuses {rate = rate} P (statement f)
  unfolding statement
  Refuses-statement f k = record {
    at = λ w h.
        let (e, r) = k (w.clocks 0) w.db h in
        outcome-err (w.faults 0) (f (w.clocks 0) w.db) (advance w) e r;
  }

  pub Refuses-transaction : (m : Exec rate A) → Refuses P m → Refuses P (transaction m)
  unfolding transaction
  Refuses-transaction m r = record {
    at = λ w h. let (e, q) = r.at (advance w) h in begin-err (w.faults 0) m (advance w) e q;
  }

module _ {rate : RateLibrary} {A B : Type 0} {P : Db → Type 0} where
  pub Refuses-first :
      (first : Exec rate A) (next : A → Exec rate B) → Refuses P first → Refuses P (first >>= next)
  unfolding ◌>>=◌
  Refuses-first first next r = record { at = λ w h. go (first w).0 (first w).1 (r.at w h) }
    where
      go :
          (r : Result A) (w : World rate)
          → (e : Failure) × (r ≡ err e)
          → (e : Failure) × ((continue r next w).0 ≡ err e)
      go (ok a) w (e, h) = absurd (cc)
      go (err f) w (e, h) = (f, refl)

  pub Refuses-bind :
      (first : Exec rate A) (next : A → Exec rate B)
      → Keeps P first
      → ((x : A) → Refuses P (next x))
      → Refuses P (first >>= next)
  unfolding ◌>>=◌
  Refuses-bind first next k ks = record { at = λ w h. go (first w).0 (first w).1 (k.at w h) }
    where
      go :
          (r : Result A) (w : World rate) → P w.db → (e : Failure) × ((continue r next w).0 ≡ err e)
      go (ok a) w h = (ks a).at w h
      go (err f) w h = (f, refl)
