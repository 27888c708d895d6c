-- ===== src/Maintenance/Overdue.antt =====
-- The batches of DeleteUnactivatedInstallations.
use mortris_server.Prelude.{
  ℕ, suc, ◌*◌, ◌^◌, ◌&&◌, ◌↔◌, Option, some, ◌+◌, ◌<◌, ◌≡◌, ◌≢◌, refl, Bool, true, false, none,
  List, [], ◌∷◌, length, All, In, any, all, ◌⊎◌, inl, inr, if◌then◌else◌, arith,
}
use mathlib.Core.Path.{subst}
use mortris_server.Prelude.Int.{ℤ, pos, ◌+ℤ◌, ◌-ℤ◌, ◌<ℤ◌, ltb_ℤ, +ℤ_parts, -ℤ_parts}
use mortris_server.Failure.{Failure, Result, ok, err, other, exhausted}
use mortris_server.Ratelimit.{RateLibrary}
use mortris_server.Ingest.Db.{Db, Installation, EventRow, is_installation}
use mortris_server.Ingest.Exec.{World, statement, outcome, advance}
use mortris_server.Ingest.Exec.Runs.{IsCalm}
use mortris_server.Maintenance.{
  delete_some, delete_batch_installations, delete_unactivated_installations, is_unactivated,
  is_none, days, batch_size,
}
use mortris_server.Maintenance.Accounted.{WasDue, delete_batches-kept}
use mortris_server.Maintenance.Rows.{any-In, length-delete_some, delete_some-All, delete_some-In}
use mortris_server.Maintenance.Sweeps.{IsSweep, statement-IsSweep}

abbrev pub installations_left : Db → ℕ
installations_left db = length db.installations

abbrev pub NoneDue : ℤ → Db → Type 0
NoneDue t db = All (λ i. is_unactivated t i ≡ false) db.installations

-- The installation was never activated, and its 7 days are over at `t`, in nanoseconds.
abbrev pub IsOverdue : ℤ → Installation → Type 0
IsOverdue t i = (i.activated_at ≡ none) × (i.registered_at +ℤ pos (7 * 24 * 60 * 60 * 10 ^ 9) <ℤ t)

is_unactivated_iff : (t : ℤ) (i : Installation) → (is_unactivated t i ≡ true) ↔ IsOverdue t i
unfolding is_unactivated
is_unactivated_iff t i = go i.activated_at
  where
    go :
        (o : Option ℤ)
        → (is_none o && ltb_ℤ i.registered_at (t -ℤ days 7) ≡ true)
          ↔ ((o ≡ none) × (i.registered_at +ℤ pos (7 * 24 * 60 * 60 * 10 ^ 9) <ℤ t))
    go none =
        ground
          (arith, -ℤ_parts t (days 7), +ℤ_parts i.registered_at (pos (7 * 24 * 60 * 60 * 10 ^ 9)))
    go (some u) = ground arith

-- The installations that a batch at `t` leaves.
abbrev pub left : ℤ → Db → List Installation
left t db = (delete_some (is_unactivated t) batch_size db.installations).1

-- No event loses its installation.
abbrev pub referenced : List Installation → List EventRow → Bool
referenced is es = all (λ e. any (is_installation e.project_id e.install_id) is) es

deleted_batch :
    (t : ℤ) (db db' : Db) (n : ℕ)
    → delete_batch_installations t db ≡ ok (n, db')
    → (n ≡ (delete_some (is_unactivated t) batch_size db.installations).0)
      × (record db { installations = left t db } ≡ db')
deleted_batch t db db' n e = go (referenced (left t db) db.events) e
  where
    go :
        (b : Bool)
        → ◌≡◌ {A = Result (ℕ × Db)}
            (if b
              then ok (
                (delete_some (is_unactivated t) batch_size db.installations).0,
                record db { installations = left t db },
              )
              else err other)
            (ok (n, db'))
        → (n ≡ (delete_some (is_unactivated t) batch_size db.installations).0)
          × (record db { installations = left t db } ≡ db')
    go true e = (cc, cc)
    go false e = absurd (cc)

not_exhausted :
    (t : ℤ) (db : Db) (e : Failure) → delete_batch_installations t db ≡ err e → e ≢ exhausted
not_exhausted t db e h = go (referenced (left t db) db.events) h
  where
    go :
        (b : Bool)
        → ◌≡◌ {A = Result (ℕ × Db)}
            (if b
              then ok (
                (delete_some (is_unactivated t) batch_size db.installations).0,
                record db { installations = left t db },
              )
              else err other)
            (err e)
        → e ≢ exhausted
    go true h = absurd (cc)
    go false h = λ same. cc

pub delete_batch_installations-IsSweep :
    {rate : RateLibrary}
    → IsSweep {rate = rate} installations_left NoneDue (statement delete_batch_installations)
delete_batch_installations-IsSweep =
    statement-IsSweep installations_left NoneDue delete_batch_installations
      (λ t db db' n e.
        let (count, same) = deleted_batch t db db' n e in
        subst (λ d. installations_left d + n ≡ installations_left db) same
          (rw count (length-delete_some (is_unactivated t) batch_size db.installations)))
      (λ t db db' n e h.
        let (count, same) = deleted_batch t db db' n e in
        subst (NoneDue t) same (
          delete_some-All (is_unactivated t) batch_size db.installations
            (subst (λ k. k < batch_size) count h)))
      not_exhausted

-- An activated installation that sent the event.
abbrev pub FromActivated : List Installation → EventRow → Type 0
FromActivated is e =
    (i : Installation) × In i is
    × (is_installation e.project_id e.install_id i ≡ true)
    × (is_none i.activated_at ≡ false)

pub In-left :
    (t : ℤ) (db : Db) (i : Installation)
    → is_none i.activated_at ≡ false
    → In i db.installations
    → In i (left t db)
unfolding is_unactivated
In-left t db i e = delete_some-In (is_unactivated t) batch_size db.installations i (kept e)
  where
    kept : is_none i.activated_at ≡ false → is_unactivated t i ≡ false
    kept e = rw e refl

FromActivated-left :
    (t : ℤ) (db : Db) (es : List EventRow)
    → All (FromActivated db.installations) es
    → (referenced (left t db) es ≡ true) × All (FromActivated (left t db)) es
FromActivated-left t db [] h = (refl, tt)
FromActivated-left t db (e ∷ es) ((i, in_db, same, active), h) =
    let (r, hs) = FromActivated-left t db es h in
    (
      rw
          (any-In (is_installation e.project_id e.install_id) i (left t db)
            (In-left t db i active in_db) same)
          r,
      ((i, In-left t db i active in_db, same, active), hs),
    )

-- No fault ahead, and every stored event is of an activated installation.
pub record IsSafe {rate : RateLibrary} (w : World rate) : Type 0 where
  pub calm : IsCalm w
  pub active : All (FromActivated w.db.installations) w.db.events

pub delete_batch_installations-IsSafe :
    {rate : RateLibrary} (w : World rate)
    → IsSafe w
    → (n : ℕ) × ((statement delete_batch_installations w).0 ≡ ok n)
      × IsSafe (statement delete_batch_installations w).1
unfolding statement
delete_batch_installations-IsSafe {rate = rate} w s =
    go (w.faults 0) (referenced (left (w.clocks 0) w.db) w.db.events) (s.calm.calm 0)
      (FromActivated-left (w.clocks 0) w.db w.db.events s.active).0
  where
    batch : Bool → Result (ℕ × Db)
    batch b =
        if b
        then ok (
          (delete_some (is_unactivated (w.clocks 0)) batch_size w.db.installations).0,
          record w.db { installations = left (w.clocks 0) w.db },
        )
        else err other

    go :
        (fault b : Bool)
        → fault ≡ false
        → b ≡ true
        → (n : ℕ) × ((outcome fault (batch b) (advance w)).0 ≡ ok n)
          × IsSafe {rate = rate} (outcome fault (batch b) (advance w)).1
    go true b e q = absurd (cc)
    go false false e q = absurd (cc)
    go false true e q = (
      _,
      refl,
      record {
        calm = record { calm = λ n. s.calm.calm (suc n) };
        active = (FromActivated-left (w.clocks 0) w.db w.db.events s.active).1;
      },
    )

left_or_IsOverdue :
    (t : ℤ) (db : Db) (i : Installation) → In i db.installations → In i (left t db) ⊎ IsOverdue t i
left_or_IsOverdue t db i stored = go (is_unactivated t i) refl
  where
    go : (b : Bool) → is_unactivated t i ≡ b → In i (left t db) ⊎ IsOverdue t i
    go true e = inr ((is_unactivated_iff t i).0 e)
    go false e = inl (delete_some-In (is_unactivated t) batch_size db.installations i e stored)

batch_keeps :
    {rate : RateLibrary} (i : Installation) (v : World rate)
    → In i v.db.installations
    → In i (statement delete_batch_installations v).1.db.installations ⊎ IsOverdue (v.clocks 0) i
unfolding statement
batch_keeps {rate = rate} i v h = go (v.faults 0) (referenced (left (v.clocks 0) v.db) v.db.events)
  where
    batch : Bool → Result (ℕ × Db)
    batch b =
        if b
        then ok (
          (delete_some (is_unactivated (v.clocks 0)) batch_size v.db.installations).0,
          record v.db { installations = left (v.clocks 0) v.db },
        )
        else err other

    go :
        (fault b : Bool)
        → In i (outcome {rate = rate} fault (batch b) (advance v)).1.db.installations
          ⊎ IsOverdue (v.clocks 0) i
    go true b = inl h
    go false true = left_or_IsOverdue (v.clocks 0) v.db i h
    go false false = inl h

-- Of a list of stored installations each is left, or was overdue in the run.
pub all_kept :
    {rate : RateLibrary} (fuel : ℕ) (w : World rate) (is : List Installation)
    → ((i : Installation) → In i is → In i w.db.installations)
    → All
        (λ i.
          In i (delete_unactivated_installations fuel w).1.db.installations
          ⊎ WasDue (λ t. IsOverdue t i) w (delete_unactivated_installations fuel w).1)
        is
unfolding delete_unactivated_installations
all_kept fuel w [] h = tt
all_kept fuel w (i ∷ is) h = (
  delete_batches-kept (λ db. db.installations) i (λ t. IsOverdue t i) (λ v. Unit {0})
      (statement delete_batch_installations)
      (record {
        once = delete_batch_installations-IsSweep.once;
        holds = λ v u. u;
        keeps = λ v u. batch_keeps i v;
      })
      w fuel tt (h i (In.head refl)),
  all_kept fuel w is λ j k. h j (In.tail k),
)

pub none-IsOverdue :
    (t : ℤ) (is : List Installation)
    → All (λ i. is_unactivated t i ≡ false) is
    → All (λ i. IsOverdue t i → ⊥) is
none-IsOverdue t [] h = tt
none-IsOverdue t (i ∷ is) h =
    (λ due. absurd (cc (h.0, (is_unactivated_iff t i).1 due)), none-IsOverdue t is h.1)
