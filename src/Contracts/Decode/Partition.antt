-- ===== src/Contracts/Decode/Partition.antt =====
-- Every event of a batch body is either decoded or reported as rejected.
use mortris_server.Prelude.{◌+◌, ◌≤◌, ◌≡◌, refl, List, [], ◌∷◌, length, arith}
use mortris_server.Failure.{Result, ok, err, >>=-eq-ok}
use mortris_server.Contracts.Types.{BatchIngestRequest, Event, RejectedEvent}
use mortris_server.Contracts.Decode.{
  JsonLibrary, sort_out, decode_events, decode_strict, decode_batch_envelope,
  decode_batch_ingest_request,
}

module _ (json : JsonLibrary) where
  open json use {Raw}

  sort_out-length :
      (r : Result Event) (raw : Raw) (p : List Event × List RejectedEvent)
      → length (sort_out json r raw p).0 + length (sort_out json r raw p).1
        ≡ length p.0 + length p.1 + 1
  unfolding sort_out
  sort_out-length (ok e) raw (events, rejected) = omega arith
  sort_out-length (err f) raw (events, rejected) = omega arith

  decode_events-length :
      (raws : List Raw)
      → length (decode_events json raws).0 + length (decode_events json raws).1 ≡ length raws
  unfolding decode_events
  decode_events-length [] = refl
  decode_events-length (raw ∷ raws) = omega (
    arith,
    sort_out-length (decode_strict json json.decode_event raw) raw (decode_events json raws),
    decode_events-length raws,
  )

  -- When a batch body is decoded, the envelope counted 1 to 100 events, and the decoded events
  -- and the rejections together are as many as it counted.
  pub decode_batch_partition :
      (raw : Raw) (req : BatchIngestRequest) (rejected : List RejectedEvent)
      → decode_batch_ingest_request json raw ≡ ok (req, rejected)
      → (length req.events + length rejected ≡ req.event_count)
        × (1 ≤ req.event_count)
        × (req.event_count ≤ 100)
  unfolding decode_batch_ingest_request
  decode_batch_partition raw req rejected h =
      let (env, p, q) = >>=-eq-ok (decode_batch_envelope json raw) _ h in
      ground (arith, decode_events-length env.events)
