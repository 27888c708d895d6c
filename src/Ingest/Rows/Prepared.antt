-- ===== src/Ingest/Rows/Prepared.antt =====
-- What the preparation of a batch makes sure of.
use mortris_server.Prelude.{◌≡◌, refl, String, Bool, true, Option, none, some, List, [], ◌∷◌, All}
use mortris_server.Prelude.Int.{ℤ}
use mortris_server.Failure.{Result, ok, err}
use mortris_server.Contracts.Types.{Event, RejectedEvent, BatchIngestRequest}
use mortris_server.Contracts.Library.{Library}
use mortris_server.Contracts.Validate.{validate_event}
use mortris_server.Contracts.Validate.Events.{IsEvent, validate_event-IsEvent}
use mortris_server.Ratelimit.{RateLibrary}
use mortris_server.Ingest.Time.{plausible, effective_time-plausible, parse_timestamp}
use mortris_server.Ingest.Db.{Db, Kind, product, system}
use mortris_server.Ingest.Exec.Keeps.{Keeps, Keeps-bind, Keeps-pure, Keeps-query}
use mortris_server.Ingest.Exec.Yields.{Yields, Yields-any, Yields-pure, Yields-bind}
use mortris_server.Ingest.Prepare.{
  PreparedEvent, Preparation, refused, prepared, Drift, Batch, kind_of, check_catalog, stamp,
  conclude, prepare_valid, prepare_checked, prepare_event, add_preparation, prepare_events,
  prepare_batch, catalog_properties,
}

-- An event that a batch received at `t` may store.
pub record IsPrepared (lib : Library) (t : ℤ) (pe : PreparedEvent) : Type 0 where
  pub valid : IsEvent lib pe.event
  pub kind : pe.kind ≡ kind_of pe.event.name
  pub time : plausible pe.effective_at t ≡ true

PreparationOk : Library → ℤ → Preparation → Type 0
PreparationOk lib t (refused r) = Unit
PreparationOk lib t (prepared pe d) = IsPrepared lib t pe

module _ (lib : Library) (received : ℤ) where
  stamp-IsPrepared :
      (e : Event) (skew : ℤ)
      → IsEvent lib e
      → IsPrepared lib received (stamp lib e (kind_of e.name) received skew)
  unfolding stamp
  stamp-IsPrepared e skew v = record {
    valid = v;
    kind = refl;
    time = effective_time-plausible (parse_timestamp lib e.occurred_at_client) received skew;
  }

  conclude-Ok :
      (pe : PreparedEvent) (c : Option RejectedEvent × Option Drift)
      → IsPrepared lib received pe
      → PreparationOk lib received (conclude pe c)
  unfolding conclude PreparationOk
  conclude-Ok pe (some r, d) h = tt
  conclude-Ok pe (none, d) h = h

  add_preparation-Ok :
      (p : Preparation) (b : Batch)
      → PreparationOk lib received p
      → All (IsPrepared lib received) b.events
      → All (IsPrepared lib received) (add_preparation p b).events
  unfolding add_preparation PreparationOk
  add_preparation-Ok (refused r) b h k = k
  add_preparation-Ok (prepared pe d) b h k = (h, k)

module _ {rate : RateLibrary} (lib : Library) (received : ℤ) where
  prepare_valid-Yields :
      (project : String) (e : Event) (strict : Bool) (skew : ℤ)
      → IsEvent lib e
      → Yields {rate = rate}
          (PreparationOk lib received)
          (prepare_valid lib project e strict received skew)
  prepare_valid-Yields project e strict skew v =
      Yields-bind _ _ _ _ (Yields-any _) λ c _.
        Yields-pure _ _ (conclude-Ok lib received _ c (stamp-IsPrepared lib received e skew v))

  prepare_event-Yields :
      (project : String) (e : Event) (strict : Bool) (skew : ℤ)
      → Yields {rate = rate}
          (PreparationOk lib received)
          (prepare_event lib project e strict received skew)
  unfolding prepare_event PreparationOk
  prepare_event-Yields project e strict skew = go (validate_event lib e) refl
    where
      go :
          (r : Result (Unit {0}))
          → validate_event lib e ≡ r
          → Yields {rate = rate}
              (PreparationOk lib received)
              (prepare_checked lib project e strict received skew r)
      go (err f) h = Yields-pure _ _ tt
      go (ok tt) h = prepare_valid-Yields project e strict skew (validate_event-IsEvent lib e h)

  prepare_events-Yields :
      (project : String) (strict : Bool) (skew : ℤ) (es : List Event)
      → Yields {rate = rate}
          (λ b. All (IsPrepared lib received) b.events)
          (prepare_events lib project strict received skew es)
  unfolding prepare_events
  prepare_events-Yields project strict skew [] = Yields-pure _ _ tt
  prepare_events-Yields project strict skew (e ∷ es) =
      Yields-bind _ _ _ _ (prepare_event-Yields project e strict skew) λ p hp.
        Yields-bind _ _ _ _ (prepare_events-Yields project strict skew es)
          λ b hb. Yields-pure _ _ (add_preparation-Ok lib received p b hp hb)

  pub prepare_batch-Yields :
      (req : BatchIngestRequest) (decoded : List RejectedEvent) (strict : Bool)
      → Yields {rate = rate}
          (λ b. All (IsPrepared lib received) b.events)
          (prepare_batch lib req decoded strict received)
  unfolding prepare_batch
  prepare_batch-Yields req decoded strict =
      Yields-bind _ _ _ _ (prepare_events-Yields req.project_id strict _ req.events)
        λ b hb. Yields-pure _ _ hb

-- The preparation only reads.
module _ {rate : RateLibrary} {P : Db → Type 0} (lib : Library) where
  prepare_event-Keeps :
      (project : String) (e : Event) (strict : Bool) (received skew : ℤ)
      → Keeps {rate = rate} P (prepare_event lib project e strict received skew)
  unfolding prepare_event catalog_properties
  prepare_event-Keeps project e strict received skew = go (validate_event lib e)
    where
      checked : (kind : Kind) → Keeps {rate = rate} P (check_catalog project e strict kind)
      checked system = Keeps-pure _
      checked product = Keeps-bind _ _ (Keeps-query _) λ _. Keeps-pure _

      go :
          (r : Result (Unit {0}))
          → Keeps {rate = rate} P (prepare_checked lib project e strict received skew r)
      go (err f) = Keeps-pure _
      go (ok x) = Keeps-bind _ _ (checked (kind_of e.name)) λ _. Keeps-pure _

  prepare_events-Keeps :
      (project : String) (strict : Bool) (received skew : ℤ) (es : List Event)
      → Keeps {rate = rate} P (prepare_events lib project strict received skew es)
  unfolding prepare_events
  prepare_events-Keeps project strict received skew [] = Keeps-pure _
  prepare_events-Keeps project strict received skew (e ∷ es) =
      Keeps-bind _ _ (prepare_event-Keeps project e strict received skew)
        λ _. Keeps-bind _ _ (prepare_events-Keeps project strict received skew es) λ _. Keeps-pure _

  pub prepare_batch-Keeps :
      (req : BatchIngestRequest) (decoded : List RejectedEvent) (strict : Bool) (received : ℤ)
      → Keeps {rate = rate} P (prepare_batch lib req decoded strict received)
  unfolding prepare_batch
  prepare_batch-Keeps req decoded strict received =
      Keeps-bind _ _ (prepare_events-Keeps req.project_id strict received _ req.events)
        λ _. Keeps-pure _
