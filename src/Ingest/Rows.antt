-- ===== src/Ingest/Rows.antt =====
-- What the tables of internal/ingest hold at all times, and the statements that keep it.
pub mod Prepared
pub mod Kept
use mortris_server.Prelude.{
  ℕ, ◌≡◌, refl, sym, ◌∙◌, ap, String, Bool, true, false, ◌&&◌, ◌||◌, Option, none, some, List, [],
  ◌∷◌, All, any, str_eq, eq_iff, eq_refl, Bool-cases, ◌⊎◌, inl, inr, arith, if◌then◌else◌,
}
use mathlib.Core.Path.{subst}
use mortris_server.Prelude.Int.{ℤ}
use mortris_server.Failure.{Result, ok, err, other}
use mortris_server.Contracts.Types.{Event}
use mortris_server.Contracts.Library.{Library}
use mortris_server.Contracts.Validate.Events.{IsEvent}
use mortris_server.Ingest.Time.{plausible}
use mortris_server.Ingest.Prepare.{kind_of}
use mortris_server.Ingest.Persist.{insert_event}
use mortris_server.Ingest.Register.{add_installation}
use mortris_server.Ingest.Db.{
  Db, Kind, Installation, EventRow, is_installation, is_event_key, update_installations,
}

unfoldable pub UniqueInstallations : List Installation → Type 0
UniqueInstallations [] = Unit
UniqueInstallations (i ∷ is) =
    (any (is_installation i.project_id i.install_id) is ≡ false) × UniqueInstallations is

unfoldable pub UniqueEvents : List EventRow → Type 0
UniqueEvents [] = Unit
UniqueEvents (r ∷ rs) =
    (any (is_event_key r.project_id r.event.event_id) rs ≡ false) × UniqueEvents rs

-- A stored event: valid, of its name's kind, at a plausible time, from a known installation.
pub record IsRow (lib : Library) (is : List Installation) (r : EventRow) : Type 0 where
  pub valid : IsEvent lib r.event
  pub kind : r.event_kind ≡ kind_of r.event.name
  pub time : plausible r.effective_at r.received_at ≡ true
  pub known : any (is_installation r.project_id r.install_id) is ≡ true

pub record IsStore (lib : Library) (is : List Installation) (rs : List EventRow) : Type 0 where
  pub installations : UniqueInstallations is
  pub events : UniqueEvents rs
  pub rows : All (IsRow lib is) rs

-- The invariant of the tables.
abbrev pub Stored : Library → Db → Type 0
Stored lib db = IsStore lib db.installations db.events

-- An update that leaves the identity of an installation alone, and its activation once it has one.
pub record IsUpdate (f : Installation → Installation) : Type 0 where
  pub project : (i : Installation) → (f i).project_id ≡ i.project_id
  pub install : (i : Installation) → (f i).install_id ≡ i.install_id
  pub credential : (i : Installation) → (f i).credential_hash ≡ i.credential_hash
  pub registered : (i : Installation) → (f i).registered_at ≡ i.registered_at
  pub activated : (i : Installation) (t : ℤ) → i.activated_at ≡ some t → (f i).activated_at ≡ some t

-- What holds of the two tables by themselves, as a property of the database.
abbrev pub Over : (List Installation → List EventRow → Type 0) → Db → Type 0
Over Q db = Q db.installations db.events

-- What the statements that write the two tables keep.
pub record RowInvariant (lib : Library) (Q : List Installation → List EventRow → Type 0)
    : Type 0 where
  pub update :
      (f : Installation → Installation) (project install : String) (db : Db)
      → IsUpdate f
      → Over Q db
      → Q (update_installations f project install db.installations) db.events
  pub insert :
      (row : EventRow) (db db' : Db) (b : Bool)
      → IsEvent lib row.event
      → row.event_kind ≡ kind_of row.event.name
      → plausible row.effective_at row.received_at ≡ true
      → Over Q db
      → insert_event row db ≡ ok (b, db')
      → Over Q db'
  pub add :
      (i : Installation) (db db' : Db) (x : Unit {0})
      → Over Q db
      → add_installation i db ≡ ok (x, db')
      → Over Q db'

pub statement-eq-ok :
    {A : Type 0} {a b : A} {db db' : Db}
    → ◌≡◌ {A = Result (A × Db)} (ok (a, db)) (ok (b, db'))
    → db ≡ db'
statement-eq-ok e = cc

-- An insertion that does not fail finds the event there, or adds it for a known installation.
pub insert_event-eq-ok :
    (row : EventRow) (db db' : Db) (b : Bool)
    → insert_event row db ≡ ok (b, db')
    → (db ≡ db')
      ⊎ ((any (is_event_key row.project_id row.event.event_id) db.events ≡ false)
          × (any (is_installation row.project_id row.install_id) db.installations ≡ true)
          × (record db { events = row ∷ db.events } ≡ db'))
unfolding insert_event
insert_event-eq-ok row db db' b e = go _ _ refl refl e
  where
    go :
        (found known : Bool)
        → any (is_event_key row.project_id row.event.event_id) db.events ≡ found
        → any (is_installation row.project_id row.install_id) db.installations ≡ known
        → ◌≡◌ {A = Result (Bool × Db)}
            (if found
              then ok (false, db)
              else if known
              then ok (true, record db { events = row ∷ db.events })
              else err other)
            (ok (b, db'))
        → (db ≡ db')
          ⊎ ((any (is_event_key row.project_id row.event.event_id) db.events ≡ false)
              × (any (is_installation row.project_id row.install_id) db.installations ≡ true)
              × (record db { events = row ∷ db.events } ≡ db'))
    go true known p q e = inl (statement-eq-ok e)
    go false false p q e = absurd (ground arith)
    go false true p q e = inr (p, q, statement-eq-ok e)

pub add_installation-eq-ok :
    (i : Installation) (db db' : Db) (x : Unit {0})
    → add_installation i db ≡ ok (x, db')
    → (any (is_installation i.project_id i.install_id) db.installations ≡ false)
      × (record db { installations = i ∷ db.installations } ≡ db')
unfolding add_installation
add_installation-eq-ok i db db' x e = go _ refl e
  where
    go :
        (found : Bool)
        → any (is_installation i.project_id i.install_id) db.installations ≡ found
        → ◌≡◌ {A = Result (Unit {0} × Db)}
            (if found
              then err other
              else ok (tt, record db { installations = i ∷ db.installations }))
            (ok (x, db'))
        → (any (is_installation i.project_id i.install_id) db.installations ≡ false)
          × (record db { installations = i ∷ db.installations } ≡ db')
    go true p e = absurd (ground arith)
    go false p e = (p, statement-eq-ok e)

module _ (f : Installation → Installation) (same : IsUpdate f) where
  pub is_installation-update :
      (p s : String) (b : Bool) (i : Installation)
      → is_installation p s (if b then f i else i) ≡ is_installation p s i
  is_installation-update p s true i = rw (same.project i, same.install i)
  is_installation-update p s false i = refl

  pub any-update :
      (p s project install : String) (is : List Installation)
      → any (is_installation p s) (update_installations f project install is)
        ≡ any (is_installation p s) is
  unfolding update_installations
  any-update p s project install [] = refl
  any-update p s project install (i ∷ is) = rw (
    is_installation-update p s (is_installation project install i) i,
    any-update p s project install is,
  )

  UniqueInstallations-update :
      (project install : String) (is : List Installation)
      → UniqueInstallations is
      → UniqueInstallations (update_installations f project install is)
  unfolding update_installations UniqueInstallations
  UniqueInstallations-update project install [] u = tt
  UniqueInstallations-update project install (i ∷ is) u = (
    rw
        (
          (same_key (is_installation project install i) i).0,
          (same_key (is_installation project install i) i).1,
          any-update i.project_id i.install_id project install is,
        )
        u.0,
    UniqueInstallations-update project install is u.1,
  )
    where
      same_key :
          (b : Bool) (i : Installation)
          → ((if b then f i else i).project_id ≡ i.project_id)
            × ((if b then f i else i).install_id ≡ i.install_id)
      same_key true i = (same.project i, same.install i)
      same_key false i = (refl, refl)

module _ (lib : Library) where
  IsRow-map :
      (is js : List Installation)
      → ((p s : String) → any (is_installation p s) is ≡ true → any (is_installation p s) js ≡ true)
      → (rs : List EventRow) → All (IsRow lib is) rs
      → All (IsRow lib js) rs
  IsRow-map is js k [] h = tt
  IsRow-map is js k (r ∷ rs) (h, hs) = (
    record { valid = h.valid; kind = h.kind; time = h.time; known = k _ _ h.known },
    IsRow-map is js k rs hs,
  )

  Stored-update :
      (f : Installation → Installation) (project install : String) (db : Db)
      → IsUpdate f
      → Stored lib db
      → IsStore lib (update_installations f project install db.installations) db.events
  Stored-update f project install db same h = record {
    installations =
        UniqueInstallations-update f same project install db.installations h.installations;
    events = h.events;
    rows =
        IsRow-map _ _ (λ p s k. any-update f same p s project install db.installations ∙ k)
          db.events h.rows;
  }

  Stored-insert :
      (row : EventRow) (db db' : Db) (b : Bool)
      → IsEvent lib row.event
      → row.event_kind ≡ kind_of row.event.name
      → plausible row.effective_at row.received_at ≡ true
      → Stored lib db
      → insert_event row db ≡ ok (b, db')
      → Stored lib db'
  unfolding UniqueEvents
  Stored-insert row db db' b v k t h e = elim (insert_event-eq-ok row db db' b e) [
    | inl same ↦ subst (Stored lib) same h
    | inr (new, known, same) ↦ subst (Stored lib) same (record {
      installations = h.installations;
      events = (new, h.events);
      rows = (record { valid = v; kind = k; time = t; known = known }, h.rows);
    })
  ]

  Stored-add :
      (i : Installation) (db db' : Db) (x : Unit {0})
      → Stored lib db
      → add_installation i db ≡ ok (x, db')
      → Stored lib db'
  unfolding UniqueInstallations
  Stored-add i db db' x h e =
      let (new, same) = add_installation-eq-ok i db db' x e in
      subst (Stored lib) same (record {
        installations = (new, h.installations);
        events = h.events;
        rows = IsRow-map _ _ (λ p s k. ground arith) db.events h.rows;
      })

  pub IsStore-invariant : RowInvariant lib (IsStore lib)
  IsStore-invariant = record { update = Stored-update; insert = Stored-insert; add = Stored-add }
