-- ===== src/Ratelimit.antt =====
-- internal/ratelimit: keyed token buckets. The bucket itself is golang.org/x/time/rate's, a
-- parameter: a fresh bucket for a rate and a burst, and Allow at a time. The mutex makes each
-- call one step.
pub mod Isolation
pub mod Tests
use mortris_server.Prelude.{
  ℕ, String, Bool, Option, none, some, List, [], ◌∷◌, lookup, insert, string_eq,
}
use mortris_server.Prelude.Int.{ℤ}

-- rate.Limit: events per second, or PerMinute(n).
pub data Rate : Type 0 where
  per_second per_minute : ℕ → Rate

pub record RateLibrary : Type 1 where
  pub Bucket : Type 0
  pub new_bucket : Rate → ℕ → Bucket
  pub allow_bucket : ℤ → Bucket → Bool × Bucket

module _ (lib : RateLibrary) where
  open lib use {Bucket, new_bucket, allow_bucket}

  pub record Limiter : Type 0 where
    pub buckets : List (String × Bucket)
    pub rate : Rate
    pub burst : ℕ

  -- NewLimiter
  unfoldable pub new_limiter : Rate → ℕ → Limiter
  new_limiter r b = record { buckets = []; rate = r; burst = b }

  -- The bucket of a key, new where the map has none.
  unfoldable pub bucket_of : Limiter → String → Bucket
  bucket_of l key = elim (lookup key l.buckets) [ none ↦ new_bucket l.rate l.burst | some b ↦ b ]

  -- (*Limiter).Allow, at a time.
  unfoldable pub allow : Limiter → ℤ → String → Bool × Limiter
  unfolding bucket_of
  allow l now key =
      let (allowed, b) = allow_bucket now (bucket_of l key) in
      (allowed, record l { buckets = insert key b l.buckets })
