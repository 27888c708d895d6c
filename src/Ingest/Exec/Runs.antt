-- ===== src/Ingest/Exec/Runs.antt =====
-- Total correctness of actions where no statement fails: from a database with `P` the action
-- succeeds, and its result and the new database are related by `Q`.
use mortris_server.Prelude.{ℕ, suc, ◌≡◌, refl, sym, Bool, true, false, if◌then◌else◌}
use mathlib.Core.Path.{subst}
use mortris_server.Prelude.Int.{ℤ}
use mortris_server.Failure.{Result, ok}
use mortris_server.Ratelimit.{RateLibrary}
use mortris_server.Ingest.Db.{Db}
use mortris_server.Ingest.Exec.{
  World, Exec, pure, lift, statement, query, attempt, execute, ◌>>=◌, transaction, advance, outcome,
  begin, finish, commit,
}
use mortris_server.Ingest.Exec.Atomic.{bind-ok}

-- No statement from now on fails.
pub record IsCalm {rate : RateLibrary} (w : World rate) : Type 0 where
  pub calm : (n : ℕ) → w.faults n ≡ false

-- One run: its result, what holds then, and no fault ahead.
pub record Outcome {rate : RateLibrary} {A : Type 0} (Q : A → Db → Type 0)
    (r : Result A × World rate) : Type 0 where
  pub value : A
  pub succeeds : r.0 ≡ ok value
  pub post : Q value r.1.db
  pub calm : IsCalm r.1

pub record Runs {rate : RateLibrary} {A : Type 0} (P : Db → Type 0) (m : Exec rate A)
    (Q : A → Db → Type 0) : Type 0 where
  pub at : (w : World rate) → IsCalm w → P w.db → Outcome Q (m w)

advance-IsCalm : {rate : RateLibrary} (w : World rate) → IsCalm w → IsCalm (advance w)
advance-IsCalm w c = record { calm = λ n. c.calm (suc n) }

module _ {rate : RateLibrary} {A : Type 0} where
  pub Runs-pure :
      (P : Db → Type 0) (Q : A → Db → Type 0) (a : A)
      → ((db : Db) → P db → Q a db)
      → Runs {rate = rate} P (pure a) Q
  unfolding pure
  Runs-pure P Q a k = record {
    at = λ w c h. record { value = a; succeeds = refl; post = k w.db h; calm = c };
  }

  pub Runs-lift :
      (P : Db → Type 0) (Q : A → Db → Type 0) (r : Result A) (a : A)
      → r ≡ ok a
      → ((db : Db) → P db → Q a db)
      → Runs {rate = rate} P (lift r) Q
  unfolding lift
  Runs-lift P Q r a e k = record {
    at = λ w c h. record { value = a; succeeds = e; post = k w.db h; calm = c };
  }

  outcome-runs :
      (Q : A → Db → Type 0) (fault : Bool) (r : Result (A × Db)) (w : World rate) (a : A) (db : Db)
      → fault ≡ false
      → r ≡ ok (a, db)
      → Q a db
      → IsCalm w
      → Outcome Q (outcome fault r w)
  outcome-runs Q fault r w a db f e q c =
      rw (f, e) (record { value = a; succeeds = refl; post = q; calm = record { calm = c.calm } })

  pub Runs-statement :
      (P : Db → Type 0) (Q : A → Db → Type 0) (f : ℤ → Db → Result (A × Db))
      → ((t : ℤ) (db : Db) → P db → (a : A) × (db' : Db) × (f t db ≡ ok (a, db')) × Q a db')
      → Runs {rate = rate} P (statement f) Q
  unfolding statement
  Runs-statement P Q f k = record {
    at = λ w c h.
        let (a, db', e, q) = k (w.clocks 0) w.db h in
        outcome-runs Q (w.faults 0) (f (w.clocks 0) w.db) (advance w) a db' (c.calm 0) e q
          (advance-IsCalm w c);
  }

  pub Runs-map :
      (P : Db → Type 0) (Q R : A → Db → Type 0) (m : Exec rate A)
      → ((a : A) (db : Db) → Q a db → R a db)
      → Runs P m Q
      → Runs P m R
  Runs-map P Q R m k r = record {
    at = λ w c h.
        let o = r.at w c h in
        record { value = o.value; succeeds = o.succeeds; post = k o.value _ o.post; calm = o.calm };
  }

  pub Runs-if :
      (P : Db → Type 0) (Q : A → Db → Type 0) (b : Bool) (m n : Exec rate A)
      → Runs P m Q
      → Runs P n Q
      → Runs P (if b then m else n) Q
  Runs-if P Q true m n h k = h
  Runs-if P Q false m n h k = k

  begin-runs :
      (Q : A → Db → Type 0) (fault : Bool) (m : Exec rate A) (w : World rate)
      → fault ≡ false
      → Outcome Q (m w)
      → Outcome Q (begin fault m w)
  begin-runs Q true m w f o = absurd (cc)
  begin-runs Q false m w f o = go (m w).0 (m w).1 o.succeeds o.post o.calm
    where
      done :
          (fault : Bool) (a : A) (w' : World rate)
          → fault ≡ false
          → Q a w'.db
          → IsCalm w'
          → Outcome Q (commit fault w.db a w')
      done true a w' f q c = absurd (cc)
      done false a w' f q c = record { value = a; succeeds = refl; post = q; calm = c }

      go :
          (r : Result A) (w' : World rate)
          → r ≡ ok o.value
          → Q o.value w'.db
          → IsCalm w'
          → Outcome Q (finish w.db r w')
      go r w' e q c =
          rw e (done (w'.faults 0) o.value (advance w') (c.calm 0) q (advance-IsCalm w' c))

  pub Runs-transaction :
      (P : Db → Type 0) (Q : A → Db → Type 0) (m : Exec rate A)
      → Runs P m Q
      → Runs P (transaction m) Q
  unfolding transaction
  Runs-transaction P Q m r = record {
    at = λ w c h.
        begin-runs Q (w.faults 0) m (advance w) (c.calm 0)
          (r.at (advance w) (advance-IsCalm w c) h);
  }

module _ {rate : RateLibrary} where
  pub Runs-execute :
      (P : Db → Type 0) (Q : Db → Type 0) (f : ℤ → Db → Db)
      → ((t : ℤ) (db : Db) → P db → Q (f t db))
      → Runs {rate = rate} P (execute f) (λ _. Q)
  unfolding execute
  Runs-execute P Q f k = Runs-statement P (λ _. Q) _ λ t db h. (tt, f t db, refl, k t db h)

module _ {rate : RateLibrary} {A B : Type 0} where
  pub Runs-bind :
      (P : Db → Type 0) (Q : A → Db → Type 0) (R : B → Db → Type 0) (m : Exec rate A)
      (f : A → Exec rate B)
      → Runs P m Q
      → ((a : A) → Runs (Q a) (f a) R)
      → Runs P (m >>= f) R
  Runs-bind P Q R m f r k = record {
    at = λ w c h.
        let o = r.at w c h in
        subst (Outcome R) (sym (bind-ok m f w o.value o.succeeds))
          ((k o.value).at (m w).1 o.calm o.post);
  }

module _ {rate : RateLibrary} {A : Type 0} where
  pub Runs-attempt :
      (P : Db → Type 0) (Q : A → Db → Type 0) (m : Exec rate A)
      → Runs P m Q
      → Runs P (attempt m) (λ r db. (a : A) × (r ≡ ok a) × Q a db)
  unfolding attempt
  Runs-attempt P Q m k = record {
    at = λ w c h.
        let o = k.at w c h in
        record {
          value = (m w).0;
          succeeds = refl;
          post = (o.value, o.succeeds, o.post);
          calm = o.calm;
        };
  }

  pub Runs-query :
      (P : Db → Type 0) (f : Db → A) → Runs {rate = rate} P (query f) (λ a db. (a ≡ f db) × P db)
  unfolding query
  Runs-query P f =
      Runs-statement P (λ a db. (a ≡ f db) × P db) _ λ t db h. (f db, db, refl, (refl, h))

  -- What the precondition says of no database in particular.
  pub Runs-given :
      (Fact : Type 0) (P : Db → Type 0) (Q : A → Db → Type 0) (m : Exec rate A)
      → ((db : Db) → P db → Fact)
      → (Fact → Runs P m Q)
      → Runs P m Q
  Runs-given Fact P Q m f k = record { at = λ w c h. (k (f w.db h)).at w c h }
