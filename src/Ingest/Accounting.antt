-- ===== src/Ingest/Accounting.antt =====
-- Every event of a batch is accounted for in the response.
use mortris_server.Prelude.{
  ℕ, ◌+◌, ◌≡◌, refl, String, Bool, true, false, Option, none, some, List, [], ◌∷◌, length,
  length-append, arith, get_last?,
}
use mortris_server.Prelude.Int.{ℤ}
use mortris_server.Failure.{ok}
use mortris_server.Contracts.Types.{Event, RejectedEvent, BatchIngestRequest, BatchIngestResponse}
use mortris_server.Contracts.Library.{Library}
use mortris_server.Ratelimit.{RateLibrary}
use mortris_server.Ingest.Db.{Kind, product, system}
use mortris_server.Ingest.Exec.{World}
use mortris_server.Ingest.Exec.Yields.{
  Yields, Yields-any, Yields-pure, Yields-bind, Yields-map, Yields-transaction,
}
use mortris_server.Ingest.Prepare.{
  Preparation, refused, prepared, Batch, PreparedEvent, add_preparation, prepare_events,
  prepare_batch,
}
use mortris_server.Ingest.Persist.{
  PersistedEvents, add_accepted, see_product, track_product_event, record_insertion,
  persist_prepared_events, persist_body, persist_up_to, persist_batch,
}
use mortris_server.Ingest.Admit.{admit_batch}
use mortris_server.Ingest.Batch.{batch, batch_authorized}

abbrev sorted : PersistedEvents → ℕ
sorted r = length r.accepted + length r.duplicates

add_preparation-length :
    (p : Preparation) (b : Batch)
    → length (add_preparation p b).events + length (add_preparation p b).rejected
      ≡ length b.events + length b.rejected + 1
unfolding add_preparation
add_preparation-length (refused r) b = omega arith
add_preparation-length (prepared pe d) b = omega arith

get_last?-none : (pes : List PreparedEvent) → get_last? pes ≡ none → pes ≡ []
get_last?-none [] h = refl
get_last?-none (pe ∷ []) h = cc
get_last?-none (pe ∷ pf ∷ pes) h = cc (get_last?-none (pf ∷ pes) h)

module _ {rate : RateLibrary} (lib : Library) where
  prepare_events-length :
      (project : String) (strict : Bool) (received skew : ℤ) (es : List Event)
      → Yields {rate = rate}
          (λ b. length b.events + length b.rejected ≡ length es)
          (prepare_events lib project strict received skew es)
  unfolding prepare_events
  prepare_events-length project strict received skew [] = Yields-pure _ _ refl
  prepare_events-length project strict received skew (e ∷ es) =
      Yields-bind _ _ _ _ (Yields-any _) λ p _.
        Yields-bind _ _ _ _ (prepare_events-length project strict received skew es)
          λ b h. Yields-pure _ _ (omega (arith, h, add_preparation-length p b))

  prepare_batch-length :
      (req : BatchIngestRequest) (decoded : List RejectedEvent) (strict : Bool) (received : ℤ)
      → Yields {rate = rate}
          (λ b. length b.events + length b.rejected ≡ length req.events + length decoded)
          (prepare_batch lib req decoded strict received)
  unfolding prepare_batch
  prepare_batch-length req decoded strict received =
      Yields-bind _ _ _ _ (prepare_events-length req.project_id strict received _ req.events)
        λ b h. Yields-pure _ _ (omega (arith, h, length-append decoded b.rejected))

  record_insertion-length :
      (project : String) (pe : PreparedEvent) (strict : Bool) (received : ℤ) (r : PersistedEvents)
      (new : Bool)
      → Yields {rate = rate}
          (λ r'. sorted r' ≡ sorted r + 1)
          (record_insertion project pe strict received r new)
  unfolding record_insertion track_product_event
  record_insertion-length project pe strict received r false =
      Yields-pure _ _ (omega (arith, length-append r.duplicates (pe.event.event_id ∷ [])))
  record_insertion-length project pe strict received r true = go pe.kind
    where
      go :
          (kind : Kind)
          → Yields {rate = rate}
              (λ r'. sorted r' ≡ sorted r + 1)
              (see_product kind project pe strict received (add_accepted pe.event.event_id r))
      go system = Yields-pure _ _ (omega (arith, length-append r.accepted (pe.event.event_id ∷ [])))
      go product =
          Yields-bind _ _ _ _ (Yields-any _) λ _ _.
            Yields-pure _ _ (omega (arith, length-append r.accepted (pe.event.event_id ∷ [])))

  persist_prepared_events-length :
      (req : BatchIngestRequest) (strict : Bool) (received : ℤ) (r : PersistedEvents)
      (pes : List PreparedEvent)
      → Yields {rate = rate}
          (λ r'. sorted r' ≡ sorted r + length pes)
          (persist_prepared_events lib req strict received r pes)
  unfolding persist_prepared_events
  persist_prepared_events-length req strict received r [] = Yields-pure _ _ (omega arith)
  persist_prepared_events-length req strict received r (pe ∷ pes) =
      Yields-bind _ _ _ _ (Yields-any _) λ new _.
        Yields-bind _ _ _ _ (record_insertion-length req.project_id pe strict received r new)
          λ r₁ h.
            Yields-map _ _ _ (λ r₂ k. omega (arith, h, k))
              (persist_prepared_events-length req strict received r₁ pes)

  persist_batch-length :
      (req : BatchIngestRequest) (pes : List PreparedEvent) (strict : Bool) (received : ℤ)
      → Yields {rate = rate}
          (λ p. sorted p.0 ≡ length pes)
          (persist_batch lib req pes strict received)
  unfolding persist_batch persist_body
  persist_batch-length req pes strict received = go (get_last? pes) refl
    where
      go :
          (last : Option PreparedEvent)
          → get_last? pes ≡ last
          → Yields {rate = rate}
              (λ p. sorted p.0 ≡ length pes)
              (persist_up_to lib req pes strict received last)
      go none h = Yields-pure _ _ (rw (get_last?-none pes h) refl)
      go (some last) h =
          Yields-bind _ _ _ _
            (Yields-transaction (λ r. sorted r ≡ length pes) _
              (Yields-bind _ _ _ _ (Yields-any _) λ _ _.
                Yields-bind _ _ _ _ (persist_prepared_events-length req strict received _ pes)
                  λ r k.
                    Yields-bind _ _ _ _ (Yields-any _) λ _ _. Yields-pure _ _ (omega (arith, k))))
            λ r k. Yields-pure _ _ k

  batch_authorized-length :
      (req : BatchIngestRequest) (decoded : List RejectedEvent) (granted : String × Bool)
      → Yields {rate = rate}
          (λ r.
            length r.accepted + length r.duplicates + length r.rejected
            ≡ length req.events + length decoded)
          (batch_authorized lib req decoded granted)
  unfolding batch_authorized
  batch_authorized-length req decoded (environment, strict) =
      Yields-bind _ _ _ _ (Yields-any _) λ received _.
        Yields-bind _ _ _ _ (prepare_batch-length req decoded strict received) λ b h.
          Yields-bind _ _ _ _ (persist_batch-length req b.events strict received) λ p k.
            Yields-bind _ _ _ _ (Yields-any _) λ _ _. Yields-bind _ _ _ _ (Yields-any _) λ _ _.
              Yields-bind _ _ _ _ (Yields-any _) λ _ _. Yields-bind _ _ _ _ (Yields-any _) λ _ _.
                Yields-bind _ _ _ _ (Yields-any _) λ _ _. Yields-pure _ _ (omega (arith, h, k))

  -- A batch that is answered is accounted for: the accepted, duplicate and rejected events of the
  -- response are together as many as the events of the request and the rejections of the decoder.
  pub batch_accounts :
      (req : BatchIngestRequest) (decoded : List RejectedEvent) (token ip : String) (w : World rate)
      (answer : BatchIngestResponse)
      → (batch lib req decoded token ip w).0 ≡ ok answer
      → length answer.accepted + length answer.duplicates + length answer.rejected
        ≡ length req.events + length decoded
  unfolding batch
  batch_accounts req decoded token ip w answer h =
      (Yields-bind _ _ _ _ (Yields-any (admit_batch req ip)) λ _ _.
          Yields-bind _ _ _ _ (Yields-any _)
            λ granted _. batch_authorized-length req decoded granted).at
        w answer h
