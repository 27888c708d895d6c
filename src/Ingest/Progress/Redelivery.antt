-- ===== src/Ingest/Progress/Redelivery.antt =====
-- internal/ingest/batch_persist.go: a batch that is delivered where nothing fails, and the same
-- batch delivered again.
use mortris_server.Prelude.{
  ℕ, ◌≡◌, refl, sym, ap, ◌∙◌, String, Bool, true, false, List, [], ◌∷◌, map, All, any, eq_refl,
  Bool-cases, inl, inr, arith,
}
use mathlib.Core.Path.{subst}
use mortris_server.Prelude.Int.{ℤ}
use mortris_server.Failure.{ok}
use mortris_server.Contracts.Types.{BatchIngestRequest}
use mortris_server.Contracts.Library.{Library}
use mortris_server.Ratelimit.{RateLibrary}
use mortris_server.Ingest.Db.{EventRow, is_installation}
use mortris_server.Ingest.Prepare.{PreparedEvent}
use mortris_server.Ingest.Persist.{PersistedEvents, event_row, persist_batch}
use mortris_server.Ingest.Exec.{World}
use mortris_server.Ingest.Progress.{
  IsEncodable, is_stored, store, store_all, new_ids, old_ids, persist_batch-Runs,
}

abbrev pub prepared_id : PreparedEvent → String
prepared_id pe = pe.event.event_id

module _ (lib : Library) (req : BatchIngestRequest) (received : ℤ) where
  abbrev Has : List EventRow → PreparedEvent → Type 0
  Has rows pe = is_stored lib req received pe rows ≡ true

  store-Has : (pe : PreparedEvent) (rows : List EventRow) → Has (store lib req received pe rows) pe
  unfolding event_row
  store-Has pe rows = elim (Bool-cases (is_stored lib req received pe rows)) [
    | inl e ↦ rw (e, e) refl
    | inr e ↦ rw (e, eq_refl req.project_id, eq_refl pe.event.event_id) refl
  ]

  Has-store :
      (p pe : PreparedEvent) (rows : List EventRow)
      → Has rows p
      → Has (store lib req received pe rows) p
  Has-store p pe rows h = ground arith

  Has-store_all :
      (pes : List PreparedEvent) (p : PreparedEvent) (rows : List EventRow)
      → Has rows p
      → Has (store_all lib req received pes rows) p
  unfolding store_all
  Has-store_all [] p rows h = h
  Has-store_all (pe ∷ pes) p rows h = Has-store_all pes p _ (Has-store p pe rows h)

  store_all-Has :
      (pes : List PreparedEvent) (rows : List EventRow)
      → All (Has (store_all lib req received pes rows)) pes
  unfolding store_all
  store_all-Has [] rows = tt
  store_all-Has (pe ∷ pes) rows = (
    Has-store_all pes pe _ (store-Has pe rows),
    store_all-Has pes (store lib req received pe rows),
  )

  new_ids-Has :
      (pes : List PreparedEvent) (rows : List EventRow)
      → All (Has rows) pes
      → new_ids lib req received pes rows ≡ []
  unfolding new_ids
  new_ids-Has [] rows h = refl
  new_ids-Has (pe ∷ pes) rows (h, hs) = rw h (new_ids-Has pes rows hs)

  old_ids-Has :
      (pes : List PreparedEvent) (rows : List EventRow)
      → All (Has rows) pes
      → old_ids lib req received pes rows ≡ map prepared_id pes
  unfolding old_ids
  old_ids-Has [] rows h = refl
  old_ids-Has (pe ∷ pes) rows (h, hs) =
      rw h (ap (λ ids. prepared_id pe ∷ ids) (old_ids-Has pes rows hs))

  store_all-Has_same :
      (pes : List PreparedEvent) (rows : List EventRow)
      → All (Has rows) pes
      → store_all lib req received pes rows ≡ rows
  unfolding store_all
  store_all-Has_same [] rows h = refl
  store_all-Has_same (pe ∷ pes) rows (h, hs) = rw h (store_all-Has_same pes rows hs)

module _ {rate : RateLibrary} (lib : Library) (req : BatchIngestRequest) where
  -- Where no statement fails, the sender is a known installation and each event's properties can
  -- be encoded, the transaction succeeds: it accepts the identifiers that are new when the batch
  -- reaches them, reports the others as duplicates, and adds a row for each accepted one.
  pub persist_batch-stores :
      (received : ℤ) (strict : Bool) (pes : List PreparedEvent) (w : World rate)
      → ((n : ℕ) → w.faults n ≡ false)
      → any (is_installation req.project_id req.install_id) w.db.installations ≡ true
      → All (IsEncodable lib) pes
      → (a : PersistedEvents × String × String) × ((persist_batch lib req pes strict received w).0
          ≡ ok a)
        × (a.0.accepted ≡ new_ids lib req received pes w.db.events)
        × (a.0.duplicates ≡ old_ids lib req received pes w.db.events)
        × ((persist_batch lib req pes strict received w).1.db.events
            ≡ store_all lib req received pes w.db.events)
  persist_batch-stores received strict pes w calm known enc =
      let o =
        (persist_batch-Runs lib req received pes strict w.db.events enc).at w
          (record { calm = calm }) (record { events = refl; known = known }) in
      (o.value, o.succeeds, o.post.accepted_ids, o.post.duplicate_ids, o.post.place.events)

  -- A batch that was stored where no statement failed can be delivered again, later and under
  -- another strictness: where again no statement fails, nothing is accepted, each identifier is
  -- reported as a duplicate, in order, and the stored events stay the same.
  pub persist_batch-redelivered :
      (received received' : ℤ) (strict strict' : Bool) (pes : List PreparedEvent)
      (w w' : World rate)
      → ((n : ℕ) → w.faults n ≡ false)
      → any (is_installation req.project_id req.install_id) w.db.installations ≡ true
      → All (IsEncodable lib) pes
      → ((n : ℕ) → w'.faults n ≡ false)
      → w'.db ≡ (persist_batch lib req pes strict received w).1.db
      → (a : PersistedEvents × String × String) × ((persist_batch lib req pes strict' received'
            w').0
          ≡ ok a)
        × (a.0.accepted ≡ [])
        × (a.0.duplicates ≡ map prepared_id pes)
        × ((persist_batch lib req pes strict' received' w').1.db.events ≡ w'.db.events)
  persist_batch-redelivered received received' strict strict' pes w w' calm known enc calm' same =
      let first =
        (persist_batch-Runs lib req received pes strict w.db.events enc).at w
          (record { calm = calm }) (record { events = refl; known = known }) in
      let stored : All (Has lib req received' w'.db.events) pes =
        subst (λ rows. All (Has lib req received' rows) pes)
          (sym (ap (λ db. db.events) same ∙ first.post.place.events))
          (store_all-Has lib req received pes w.db.events) in
      let again =
        (persist_batch-Runs lib req received' pes strict' w'.db.events enc).at w'
          (record { calm = calm' })
          (record {
            events = refl;
            known =
                ap (λ db. any (is_installation req.project_id req.install_id) db.installations) same
                ∙ first.post.place.known;
          }) in
      (
        again.value,
        again.succeeds,
        again.post.accepted_ids ∙ new_ids-Has lib req received' pes _ stored,
        again.post.duplicate_ids ∙ old_ids-Has lib req received' pes _ stored,
        again.post.place.events ∙ store_all-Has_same lib req received' pes _ stored,
      )
