-- ===== src/Ratelimit/Isolation.antt =====
-- The calls for one key do not disturb another key.
use mortris_server.Prelude.{
  ℕ, String, ◌≡◌, refl, List, [], ◌∷◌, lookup, lookup-insert, string_eq, str_eq, eq_iff,
  if◌then◌else◌, arith, ap,
}
use mortris_server.Prelude.Int.{ℤ}
use mortris_server.Ratelimit.{RateLibrary, Limiter, Rate, new_limiter, bucket_of, allow}

module _ (lib : RateLibrary) where
  open lib use {Bucket, new_bucket, allow_bucket}

  -- The limiter after a history of calls, each a time and a key.
  pub after : Limiter lib → List (ℤ × String) → Limiter lib
  after l [] = l
  after l ((now, key) ∷ calls) = after (allow lib l now key).1 calls

  -- A bucket after the calls of a history that name one key.
  pub own_calls : String → Bucket → List (ℤ × String) → Bucket
  own_calls key b [] = b
  own_calls key b ((now, k) ∷ calls) =
      own_calls key (if str_eq k key then (allow_bucket now b).1 else b) calls

  bucket_of-allow :
      (l : Limiter lib) (now : ℤ) (k key : String)
      → bucket_of lib (allow lib l now k).1 key
        ≡ (if str_eq k key then (allow_bucket now (bucket_of lib l key)).1 else bucket_of lib l key)
  unfolding allow bucket_of
  bucket_of-allow l now k key =
      ground (
        arith,
        eq_iff k key,
        lookup-insert k key (allow_bucket now (bucket_of lib l k)).1 l.buckets,
      )

  bucket_of-after :
      (l : Limiter lib) (calls : List (ℤ × String)) (key : String)
      → bucket_of lib (after l calls) key ≡ own_calls key (bucket_of lib l key) calls
  unfolding after own_calls
  bucket_of-after l [] key = refl
  bucket_of-after l ((now, k) ∷ calls) key =
      rw (bucket_of-after (allow lib l now k).1 calls key, bucket_of-allow l now k key)

  -- Whatever the calls for all keys were, the answer for a key is that of a bucket of its own,
  -- new with the limiter's rate and burst, that saw only the calls for this key.
  pub allow-own :
      (r : Rate) (burst : ℕ) (calls : List (ℤ × String)) (now : ℤ) (key : String)
      → (allow lib (after (new_limiter lib r burst) calls) now key).0
        ≡ (allow_bucket now (own_calls key (new_bucket r burst) calls)).0
  unfolding allow bucket_of new_limiter lookup
  allow-own r burst calls now key =
      ap (λ b. (allow_bucket now b).0) (bucket_of-after (new_limiter lib r burst) calls key)
