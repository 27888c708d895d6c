-- ===== src/Contracts/Library.antt =====
-- What the validation and the ingestion call of Go's standard library: base64's RawURLEncoding,
-- SHA-256, the length of json.Marshal's output, and time.Parse with the layout of batch.go, which
-- gives nanoseconds from Go's zero time. `none` is an error.
use mortris_server.Prelude.{ℕ, String, List, Option}
use mortris_server.Prelude.Int.{ℤ}
use mortris_server.Contracts.Types.{EventProperties}

pub record Library : Type 0 where
  pub decode_base64 : String → Option (List ℕ)
  pub sha256 : List ℕ → List ℕ
  pub marshal_length : EventProperties → Option ℕ
  pub parse_time : String → Option ℤ
