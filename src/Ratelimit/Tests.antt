-- ===== src/Ratelimit/Tests.antt =====
-- A bucket that counts, without refill.
use mortris_server.Prelude.{ℕ, ◌-◌, ◌≡◌, String, List, [], ◌∷◌, ltb}
use mortris_server.Prelude.Int.{ℤ, pos}
use mortris_server.Ratelimit.{RateLibrary, per_second, new_limiter, allow}
use mortris_server.Ratelimit.Isolation.{after, own_calls, allow-own}

abbrev pub counting : RateLibrary
counting = record {
  Bucket = ℕ;
  new_bucket = λ r burst. burst;
  allow_bucket = λ now n. (ltb 0 n, n - 1);
}

abbrev calls : List (ℤ × String)
calls = (pos 1, "a") ∷ (pos 2, "b") ∷ (pos 3, "a") ∷ []

allow_own_example :
    (allow counting (after counting (new_limiter counting (per_second 5) 2) calls) (pos 4) "a").0
    ≡ ltb 0 (own_calls counting "a" 2 calls)
allow_own_example = allow-own counting (per_second 5) 2 calls (pos 4) "a"
