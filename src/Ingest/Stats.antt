-- ===== src/Ingest/Stats.antt =====
-- recordBatchStats, recordRejectionStats and recordDriftStats of internal/ingest/batch_persist.go.
-- A Go map is visited here in the order in which its keys were first set.
use mathlib.Core.Bool.{decide, decide_iff}
use mortris_server.Prelude.{
  ℕ, ◌+◌, ◌≡◌, ◌↔◌, String, Bool, true, ◌&&◌, Option, none, some, List, [], ◌∷◌, ◌++◌, str_eq, Key,
  string_eq, lookup, insert, if◌then◌else◌, ◌/◌, ◌*◌, arith, ◌==◌,
}
use mortris_server.Prelude.Int.{ℤ, pos_part}
use mortris_server.Failure.{Code}
use mortris_server.Contracts.Types.{RejectedEvent, BatchIngestRequest}
use mortris_server.Ratelimit.{RateLibrary}
use mortris_server.Ingest.Time.{hour}
use mortris_server.Ingest.Db.{DayCount}
use mortris_server.Ingest.Prepare.{PreparedEvent, Drift}
use mortris_server.Ingest.Exec.{Exec, pure, execute, ◌>>◌}

Code-discrete : Discrete Code
Code-discrete = hlevel

unfoldable pub code_beq : Code → Code → Bool
unfolding Code-discrete decide
code_beq a b = decide (Code-discrete a b)

pub code_beq_iff : (a b : Code) → (code_beq a b ≡ true) ↔ (a ≡ b)
unfolding code_beq
code_beq_iff a b = decide_iff (Code-discrete a b)

instance abbrev pub code_eq : Key Code
code_eq = record { equal = code_beq; equal_iff = code_beq_iff }

module _ {A B : Type 0} ⦃ea : Key A⦄ ⦃eb : Key B⦄ where
  pub pair_beq_iff : (p q : A × B) → ((ea.equal p.0 q.0 && eb.equal p.1 q.1) ≡ true) ↔ (p ≡ q)
  pair_beq_iff (a, b) (c, d) = (
    λ h. ground (arith, ea.equal_iff a c, eb.equal_iff b d),
    λ h. ground (arith, ea.equal_iff a c, eb.equal_iff b d),
  )

  instance abbrev pub pair_eq : Key (A × B)
  pair_eq = record { equal = λ p q. ea.equal p.0 q.0 && eb.equal p.1 q.1; equal_iff = pair_beq_iff }

-- ingestionCounts
pub record IngestionCounts : Type 0 where
  pub accepted : ℕ
  pub duplicates : ℕ
  pub rejected : ℕ

abbrev pub Builds : Type 0
Builds = List ((String × String) × IngestionCounts)

abbrev count_or_zero : Option IngestionCounts → IngestionCounts
count_or_zero none = record { accepted = 0; duplicates = 0; rejected = 0 }
count_or_zero (some c) = c

-- The closure `add` of recordBatchStats.
unfoldable pub add_counts : String → String → IngestionCounts → Builds → Builds
add_counts app build c counts =
    let value = count_or_zero (lookup (app, build) counts) in
    insert (app, build)
      (record {
        accepted = value.accepted + c.accepted;
        duplicates = value.duplicates + c.duplicates;
        rejected = value.rejected + c.rejected;
      })
      counts

-- The map from event ids to the versions of their events.
unfoldable pub by_event :
    List PreparedEvent → List (String × (String × String)) → List (String × (String × String))
by_event [] m = m
by_event (pe ∷ pes) m =
    by_event pes (insert pe.event.event_id (pe.event.app_version, pe.event.build_number) m)

abbrev versions : Option (String × String) → String × String
versions none = ("", "")
versions (some v) = v

unfoldable pub count_ids :
    List (String × (String × String)) → IngestionCounts → List String → Builds → Builds
unfolding add_counts
count_ids events c [] counts = counts
count_ids events c (id ∷ ids) counts =
    let (app, build) = versions (lookup id events) in
    count_ids events c ids (add_counts app build c counts)

unfoldable pub count_rejected : List RejectedEvent → Builds → Builds
unfolding add_counts
count_rejected [] counts = counts
count_rejected (r ∷ rs) counts = count_rejected rs (
    add_counts r.app_version r.build_number (record { accepted = 0; duplicates = 0; rejected = 1 })
      counts)

unfoldable pub batch_counts :
    List PreparedEvent → List String → List String → List RejectedEvent → Builds
unfolding by_event count_ids count_rejected
batch_counts prepared accepted duplicates rejected =
    let events = by_event prepared [] in
    let c₁ = count_ids events (record { accepted = 1; duplicates = 0; rejected = 0 }) accepted [] in
    let c₂ =
      count_ids events (record { accepted = 0; duplicates = 1; rejected = 0 }) duplicates c₁ in
    count_rejected rejected c₂

unfoldable pub insert_stats :
    {rate : RateLibrary} → BatchIngestRequest → ℤ → Builds → Exec rate (Unit {0})
insert_stats req received [] = pure tt
insert_stats req received (((app, build), c) ∷ counts) = do
  execute (λ _ db. record db {
    ingestion_stats =
        record {
          project_id = req.project_id;
          install_id = req.install_id;
          received_at = received;
          app_version = app;
          build_number = build;
          accepted = c.accepted;
          duplicates = c.duplicates;
          rejected = c.rejected;
        }
        ∷ db.ingestion_stats;
  })
  insert_stats req received counts

-- (*Service).recordBatchStats
unfoldable pub record_batch_stats :
    {rate : RateLibrary}
    → BatchIngestRequest
    → List PreparedEvent
    → List String
    → List String
    → List RejectedEvent
    → ℤ
    → Exec rate (Unit {0})
record_batch_stats req prepared accepted duplicates rejected received =
    insert_stats req received (batch_counts prepared accepted duplicates rejected)

abbrev or_zero : Option ℕ → ℕ
or_zero none = 0
or_zero (some n) = n

module _ {K : Type 0} ⦃e : Key K⦄ where
  -- counts[k]++ for each key in turn.
  unfoldable pub tally : List K → List (K × ℕ) → List (K × ℕ)
  tally [] counts = counts
  tally (k ∷ ks) counts = tally ks (insert k (or_zero (lookup k counts) + 1) counts)

  -- INSERT ... ON CONFLICT (project, key, day) DO UPDATE SET count = count + EXCLUDED.count
  unfoldable pub upsert_count : String → K → ℕ → ℕ → ℤ → List (DayCount K) → List (DayCount K)
  upsert_count project key day count t [] =
      record { project_id = project; key = key; day = day; count = count; last_seen_at = t } ∷ []
  upsert_count project key day count t (r ∷ rs) =
      let rest = upsert_count project key day count t rs in
      if str_eq r.project_id project && (e.equal r.key key && r.day == day)
      then record r { count = r.count + count; last_seen_at = t } ∷ rs
      else r ∷ rest

-- The UTC day of a time.
abbrev pub day_of : ℤ → ℕ
day_of t = pos_part t / (24 * hour)

unfoldable pub insert_occurrences :
    {rate : RateLibrary} → BatchIngestRequest → ℤ → List RejectedEvent → Exec rate (Unit {0})
insert_occurrences req received [] = pure tt
insert_occurrences req received (r ∷ rs) = do
  execute (λ _ db. record db {
    rejections =
        record {
          project_id = req.project_id;
          install_id = req.install_id;
          event_id = r.event_id;
          name = r.name;
          code = r.code;
          app_version = r.app_version;
          build_number = r.build_number;
          received_at = received;
        }
        ∷ db.rejections;
  })
  insert_occurrences req received rs

unfoldable pub upsert_rejections :
    {rate : RateLibrary} → String → ℤ → List ((String × Code) × ℕ) → Exec rate (Unit {0})
upsert_rejections project received [] = pure tt
upsert_rejections project received ((k, count) ∷ counts) = do
  execute (λ _ db. record db {
    rejection_stats = upsert_count project k (day_of received) count received db.rejection_stats;
  })
  upsert_rejections project received counts

abbrev rejection_keys : List RejectedEvent → List (String × Code)
rejection_keys [] = []
rejection_keys (r ∷ rs) = (r.name, r.code) ∷ rejection_keys rs

-- (*Service).recordRejectionStats
unfoldable pub record_rejection_stats :
    {rate : RateLibrary} → BatchIngestRequest → List RejectedEvent → ℤ → Exec rate (Unit {0})
record_rejection_stats req rejected received = do
  insert_occurrences req received rejected
  upsert_rejections req.project_id received (tally (rejection_keys rejected) [])

unfoldable pub upsert_drifts :
    {rate : RateLibrary} → String → ℤ → List ((String × String) × ℕ) → Exec rate (Unit {0})
upsert_drifts project received [] = pure tt
upsert_drifts project received ((k, count) ∷ counts) = do
  execute (λ _ db. record db {
    property_drift = upsert_count project k (day_of received) count received db.property_drift;
  })
  upsert_drifts project received counts

abbrev keys_of : String → List String → List (String × String)
keys_of name [] = []
keys_of name (k ∷ ks) = (name, k) ∷ keys_of name ks

abbrev drift_keys : List Drift → List (String × String)
drift_keys [] = []
drift_keys (d ∷ ds) = keys_of d.name d.keys ++ drift_keys ds

-- (*Service).recordDriftStats
unfoldable pub record_drift_stats :
    {rate : RateLibrary} → String → List Drift → ℤ → Exec rate (Unit {0})
record_drift_stats project drifts received =
    upsert_drifts project received (tally (drift_keys drifts) [])
