-- ===== src/Ingest/Progress.antt =====
-- internal/ingest/batch_persist.go where no statement fails: what the loop over the prepared
-- events stores, against a description that walks the batch once.
pub mod Redelivery
use mortris_server.Prelude.{
  ℕ, ◌≡◌, refl, sym, ap, ◌∙◌, String, Bool, true, false, not, ◌||◌, Option, none, some, List, [],
  ◌∷◌, ◌++◌, map, All, any, str_eq, eq_refl, if◌then◌else◌, get_last?,
}
use mathlib.Core.List.{append-nil, append_assoc}
use mortris_server.Prelude.Int.{ℤ}
use mortris_server.Failure.{Result, ok, err, other}
use mortris_server.Contracts.Types.{Event, BatchIngestRequest}
use mortris_server.Contracts.Library.{Library}
use mortris_server.Ratelimit.{RateLibrary}
use mortris_server.Ingest.Db.{
  Db, Installation, Kind, product, system, EventRow, is_installation, is_event_key,
  update_installations,
}
use mortris_server.Ingest.Rows.{IsUpdate, any-update}
use mortris_server.Ingest.Rows.Kept.{touch-IsUpdate, activate-IsUpdate}
use mortris_server.Ingest.Prepare.{PreparedEvent}
use mortris_server.Ingest.Exec.{World, Exec, pure, execute, transaction, ◌>>=◌}
use mortris_server.Ingest.Exec.Runs.{
  IsCalm, Outcome, Runs, Runs-pure, Runs-lift, Runs-statement, Runs-map, Runs-if, Runs-execute,
  Runs-transaction, Runs-bind,
}
use mortris_server.Ingest.Persist.{
  PersistedEvents, event_row, insert_event, insert_prepared_event, see_product, track_product_event,
  record_insertion, persist_prepared_events, persist_body, persist_batch, persist_up_to,
  update_batch_installation, activate_installation, add_accepted, add_duplicate, no_events,
}

module _ (lib : Library) (req : BatchIngestRequest) (received : ℤ) where
  abbrev pub is_stored : PreparedEvent → List EventRow → Bool
  is_stored pe rows = any (is_event_key req.project_id pe.event.event_id) rows

  -- The rows after one event, and after all.
  abbrev pub store : PreparedEvent → List EventRow → List EventRow
  store pe rows = if is_stored pe rows then rows else event_row lib req pe received ∷ rows

  unfoldable pub store_all : List PreparedEvent → List EventRow → List EventRow
  store_all [] rows = rows
  store_all (pe ∷ pes) rows = store_all pes (store pe rows)

  -- The identifiers that are new when the batch reaches them, and those that are not.
  unfoldable pub new_ids : List PreparedEvent → List EventRow → List String
  new_ids [] rows = []
  new_ids (pe ∷ pes) rows =
      let rest = new_ids pes (store pe rows) in
      if is_stored pe rows then rest else pe.event.event_id ∷ rest

  unfoldable pub old_ids : List PreparedEvent → List EventRow → List String
  old_ids [] rows = []
  old_ids (pe ∷ pes) rows =
      let rest = old_ids pes (store pe rows) in
      if is_stored pe rows then pe.event.event_id ∷ rest else rest

-- The events that json.Marshal encodes.
abbrev pub IsEncodable : Library → PreparedEvent → Type 0
IsEncodable lib pe = (n : ℕ) × (lib.marshal_length pe.event.properties ≡ some n)

-- The rows, and that the sender is a known installation.
pub record At (req : BatchIngestRequest) (rows : List EventRow) (db : Db) : Type 0 where
  pub events : db.events ≡ rows
  pub known : any (is_installation req.project_id req.install_id) db.installations ≡ true

-- A result with these identifiers, over these rows.
pub record Found (req : BatchIngestRequest) (accepted duplicates : List String)
    (rows : List EventRow) (r : PersistedEvents) (db : Db) : Type 0 where
  pub accepted_ids : r.accepted ≡ accepted
  pub duplicate_ids : r.duplicates ≡ duplicates
  pub place : At req rows db

At-update :
    (req : BatchIngestRequest) (rows : List EventRow) (f : Installation → Installation) (db : Db)
    → IsUpdate f
    → At req rows db
    → At req rows (record db {
      installations = update_installations f req.project_id req.install_id db.installations;
    })
At-update req rows f db u h = record {
  events = h.events;
  known =
      any-update f u req.project_id req.install_id req.project_id req.install_id db.installations
      ∙ h.known;
}

get_last?-cons : {A : Type 0} (x : A) (xs : List A) → get_last? (x ∷ xs) ≡ none → ⊥
get_last?-cons x [] e = cc
get_last?-cons x (y ∷ ys) e = get_last?-cons y ys e

-- An identifier at the end of one list, or at the head of the next.
grown :
    (b stored : Bool) (id : String) (xs ys : List String)
    → b ≡ not stored
    → (if b then xs ++ id ∷ [] else xs) ++ ys ≡ xs ++ (if stored then ys else id ∷ ys)
grown b true id xs ys e = rw e refl
grown b false id xs ys e = rw e (append_assoc xs (id ∷ []) ys)

kept :
    (b stored : Bool) (id : String) (xs ys : List String)
    → b ≡ not stored
    → (if b then xs else xs ++ id ∷ []) ++ ys ≡ xs ++ (if stored then id ∷ ys else ys)
kept b true id xs ys e = rw e (append_assoc xs (id ∷ []) ys)
kept b false id xs ys e = rw e refl

module _ (lib : Library) (req : BatchIngestRequest) (received : ℤ) where
  record Inserted (pe : PreparedEvent) (rows : List EventRow) (b : Bool) (db : Db) : Type 0 where
    fresh : b ≡ not (is_stored lib req received pe rows)
    place : At req (store lib req received pe rows) db

  -- Where the two lists of the loop end up.
  abbrev pub Ended :
      PersistedEvents → List PreparedEvent → List EventRow → PersistedEvents → Db → Type 0
  Ended r pes rows =
      Found req (r.accepted ++ new_ids lib req received pes rows)
        (r.duplicates ++ old_ids lib req received pes rows) (store_all lib req received pes rows)

  Ended-step :
      (pe : PreparedEvent) (pes : List PreparedEvent) (rows : List EventRow) (b : Bool)
      (r r' a : PersistedEvents) (db : Db)
      → b ≡ not (is_stored lib req received pe rows)
      → r'.accepted ≡ (if b then r.accepted ++ pe.event.event_id ∷ [] else r.accepted)
      → r'.duplicates ≡ (if b then r.duplicates else r.duplicates ++ pe.event.event_id ∷ [])
      → Ended r' pes (store lib req received pe rows) a db
      → Ended r (pe ∷ pes) rows a db
  unfolding new_ids old_ids store_all
  Ended-step pe pes rows b r r' a db fresh p q e = record {
    accepted_ids = e.accepted_ids ∙ rw p (grown b _ _ _ _ fresh);
    duplicate_ids = e.duplicate_ids ∙ rw q (kept b _ _ _ _ fresh);
    place = e.place;
  }

  -- One row, by whether its identifier is there.
  insert_event-At :
      (pe : PreparedEvent) (rows : List EventRow) (db : Db)
      → At req rows db
      → (b : Bool) × (db' : Db) × (insert_event (event_row lib req pe received) db ≡ ok (b, db'))
        × Inserted pe rows b db'
  unfolding insert_event event_row
  insert_event-At pe rows db h = go _ refl
    where
      go :
          (found : Bool)
          → is_stored lib req received pe rows ≡ found
          → (b : Bool) × (db' : Db) × (insert_event (event_row lib req pe received) db
              ≡ ok (b, db'))
            × Inserted pe rows b db'
      go true e = (false, db, rw (h.events, e) refl, record { fresh = rw e refl; place = rw e h })
      go false e = (
        true,
        record db { events = event_row lib req pe received ∷ db.events },
        rw (h.events, e, h.known) refl,
        record {
          fresh = rw e refl;
          place = rw e (record {
            events = ap (λ r. event_row lib req pe received ∷ r) h.events;
            known = h.known;
          });
        },
      )

module _ {rate : RateLibrary} (lib : Library) (req : BatchIngestRequest) (received : ℤ) where
  insert_prepared_event-Runs :
      (pe : PreparedEvent) (rows : List EventRow)
      → IsEncodable lib pe
      → Runs {rate = rate}
          (At req rows)
          (insert_prepared_event lib req pe received)
          (Inserted lib req received pe rows)
  unfolding insert_prepared_event
  insert_prepared_event-Runs pe rows (n, e) =
      Runs-bind _ (λ _. At req rows) _ _ _ (Runs-lift _ _ _ tt (rw e refl) (λ db h. h))
        λ _.
          Runs-statement _ (Inserted lib req received pe rows)
            (λ _. insert_event (event_row lib req pe received))
            λ t db h. insert_event-At lib req received pe rows db h

  -- The catalog is not looked at.
  see_product-Runs :
      (kind : Kind) (pe : PreparedEvent) (strict : Bool) (rows : List EventRow)
      (r : PersistedEvents)
      → Runs {rate = rate}
          (At req rows)
          (see_product kind req.project_id pe strict received r)
          (Found req r.accepted r.duplicates rows)
  see_product-Runs system pe strict rows r =
      Runs-pure _ _ _ λ db h. record { accepted_ids = refl; duplicate_ids = refl; place = h }
  see_product-Runs product pe strict rows r =
      Runs-bind _ (λ _. At req rows) _ _ _
        (Runs-if _ _ strict _ _ (Runs-pure _ _ _ (λ db h. h))
          (Runs-execute _ _ _ (λ t db h. record { events = h.events; known = h.known })))
        λ _. Runs-pure _ _ _ λ db h. record { accepted_ids = refl; duplicate_ids = refl; place = h }

  record_insertion-Runs :
      (pe : PreparedEvent) (strict b : Bool) (rows : List EventRow) (r : PersistedEvents)
      → Runs {rate = rate} (At req rows) (record_insertion req.project_id pe strict received r b) (
          Found req
            (if b then r.accepted ++ pe.event.event_id ∷ [] else r.accepted)
            (if b then r.duplicates else r.duplicates ++ pe.event.event_id ∷ [])
            rows)
  unfolding record_insertion track_product_event
  record_insertion-Runs pe strict false rows r =
      Runs-pure _ _ _ λ db h. record { accepted_ids = refl; duplicate_ids = refl; place = h }
  record_insertion-Runs pe strict true rows r =
      see_product-Runs pe.kind pe strict rows (add_accepted pe.event.event_id r)

  persist_prepared_events-Runs :
      (pes : List PreparedEvent) (strict : Bool) (rows : List EventRow) (r : PersistedEvents)
      → All (IsEncodable lib) pes
      → Runs {rate = rate}
          (At req rows)
          (persist_prepared_events lib req strict received r pes)
          (Ended lib req received r pes rows)
  unfolding persist_prepared_events new_ids old_ids store_all
  persist_prepared_events-Runs [] strict rows r h = Runs-pure _ _ _ λ db h. record {
    accepted_ids = sym (append-nil _);
    duplicate_ids = sym (append-nil _);
    place = h;
  }
  persist_prepared_events-Runs (pe ∷ pes) strict rows r (h, hs) =
      Runs-bind _ (Inserted lib req received pe rows) _ _ _ (insert_prepared_event-Runs pe rows h)
        λ b. record {
          at = λ w c i.
              (Runs-bind _ _ _ _ _ (record_insertion-Runs pe strict b _ r) λ r'. record {
                at = λ w c f.
                    (Runs-map _ _ (Ended lib req received r (pe ∷ pes) rows) _
                        (λ a db e.
                          Ended-step lib req received pe pes rows b r r' a db i.fresh f.accepted_ids
                            f.duplicate_ids e)
                        (persist_prepared_events-Runs pes strict _ r' hs)).at
                      w c f.place;
              }).at
                w c i.place;
        }

  persist_body-Runs :
      (last : Event) (pes : List PreparedEvent) (strict : Bool) (rows : List EventRow)
      → All (IsEncodable lib) pes
      → Runs {rate = rate}
          (At req rows)
          (persist_body lib req last pes strict received)
          (Ended lib req received no_events pes rows)
  unfolding persist_body update_batch_installation activate_installation
  persist_body-Runs last pes strict rows h =
      Runs-bind _ (λ _. At req rows) _ _ _
        (Runs-execute _ _ _ (λ t db a. At-update req rows _ db (touch-IsUpdate req last t) a))
        λ _.
          Runs-bind _ (Ended lib req received no_events pes rows) _ _ _
            (persist_prepared_events-Runs pes strict rows no_events h)
            λ r.
              Runs-bind _ (λ _. Ended lib req received no_events pes rows r) _ _ _
                (Runs-if _ _ r.activated _ _
                  (Runs-execute _ _ _ (λ t db a. record {
                    accepted_ids = a.accepted_ids;
                    duplicate_ids = a.duplicate_ids;
                    place =
                        At-update req _ _ db (activate-IsUpdate r.first_product_effective_at t)
                          a.place;
                  }))
                  (Runs-pure _ _ _ (λ db a. a)))
                λ _. Runs-pure _ _ _ λ db a. a

  pub persist_batch-Runs :
      (pes : List PreparedEvent) (strict : Bool) (rows : List EventRow)
      → All (IsEncodable lib) pes
      → Runs {rate = rate}
          (At req rows)
          (persist_batch lib req pes strict received)
          (λ a. Ended lib req received no_events pes rows a.0)
  unfolding persist_batch new_ids old_ids store_all
  persist_batch-Runs [] strict rows h =
      Runs-pure _ _ _ λ db a. record { accepted_ids = refl; duplicate_ids = refl; place = a }
  persist_batch-Runs (pe ∷ pes) strict rows h = go (get_last? (pe ∷ pes)) refl
    where
      go :
          (last : Option PreparedEvent)
          → get_last? (pe ∷ pes) ≡ last
          → Runs {rate = rate}
              (At req rows)
              (persist_up_to lib req (pe ∷ pes) strict received last)
              (λ a. Ended lib req received no_events (pe ∷ pes) rows a.0)
      go none e = absurd (get_last?-cons pe pes e)
      go (some last) e =
          Runs-bind _ (Ended lib req received no_events (pe ∷ pes) rows) _ _ _
            (Runs-transaction _ _ _ (persist_body-Runs last.event (pe ∷ pes) strict rows h))
            λ r. Runs-pure _ _ _ λ db a. a
