-- ===== src/Ingest/Service.antt =====
-- The service under any sequence of requests: internal/httpapi calls one of the three handlers for
-- each ingest request.
use mortris_server.Prelude.{String, List, [], ◌∷◌}
use mortris_server.Contracts.Types.{
  BatchIngestRequest, RegisterRequest, PolicyRequest, RejectedEvent,
}
use mortris_server.Contracts.Library.{Library}
use mortris_server.Ratelimit.{RateLibrary}
use mortris_server.Ingest.Db.{Installation, EventRow}
use mortris_server.Ingest.Exec.{World}
use mortris_server.Ingest.Batch.{batch}
use mortris_server.Ingest.Register.{register}
use mortris_server.Ingest.Probe.{policy}
use mortris_server.Ingest.Rows.{Stored, Over, RowInvariant, IsStore-invariant}
use mortris_server.Ingest.Rows.Kept.{batch-Keeps, register-Keeps, policy-Keeps}

pub data Request : Type 0 where
  register_call : RegisterRequest → String → Request
  batch_call : BatchIngestRequest → List RejectedEvent → String → String → Request
  policy_call : PolicyRequest → String → String → Request

module _ {rate : RateLibrary} (lib : Library) where
  unfoldable pub serve : Request → World rate → World rate
  serve (register_call req ip) w = (register lib req ip w).1
  serve (batch_call req decoded token ip) w = (batch lib req decoded token ip w).1
  serve (policy_call req token ip) w = (policy lib req token ip w).1

  -- One request after the other.
  unfoldable pub serve_all : List Request → World rate → World rate
  unfolding serve
  serve_all [] w = w
  serve_all (r ∷ rs) w = serve_all rs (serve r w)

  module _ {Q : List Installation → List EventRow → Type 0} (inv : RowInvariant lib Q) where
    serve-keeps : (r : Request) (w : World rate) → Over Q w.db → Over Q (serve r w).db
    unfolding serve
    serve-keeps (register_call req ip) w h = (register-Keeps lib inv req ip).at w h
    serve-keeps (batch_call req decoded token ip) w h =
        (batch-Keeps lib inv req decoded token ip).at w h
    serve-keeps (policy_call req token ip) w h = (policy-Keeps lib inv req token ip).at w h

    pub serve_all-keeps :
        (rs : List Request) (w : World rate) → Over Q w.db → Over Q (serve_all rs w).db
    unfolding serve_all
    serve_all-keeps [] w h = h
    serve_all-keeps (r ∷ rs) w h = serve_all-keeps rs (serve r w) (serve-keeps r w h)

  -- If the tables satisfy it before, then after any sequence of registrations, batches and policy
  -- probes, valid or not and whichever of their statements fail: no two installations and no two
  -- events have the same key, and each stored event is valid, of the kind that its name has, at a
  -- time plausible for its receipt, and of a stored installation.
  pub serve_all-Stored :
      (rs : List Request) (w : World rate) → Stored lib w.db → Stored lib (serve_all rs w).db
  serve_all-Stored = serve_all-keeps (IsStore-invariant lib)
