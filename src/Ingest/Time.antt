-- ===== src/Ingest/Time.antt =====
-- The clock rules of internal/ingest/batch.go. Times are nanoseconds from Go's zero time, and a
-- time.Duration is an int64 of nanoseconds.
use mortris_server.Prelude.{
  ℕ, ◌*◌, ◌^◌, ◌-◌, ◌≡◌, String, Bool, true, not, ◌&&◌, none, some, if◌then◌else◌, arith,
}
use mortris_server.Prelude.Int.{
  ℤ, pos, negsuc, ◌+ℤ◌, ◌-ℤ◌, ◌≤ℤ◌, ◌<ℤ◌, ltb_ℤ, leb_ℤ, eqb_ℤ, +ℤ_parts, -ℤ_parts, eq_of_parts,
}
use mortris_server.Contracts.Library.{Library}

abbrev pub minute : ℕ
minute = 60 * 10 ^ 9

abbrev pub hour : ℕ
hour = 60 * minute

abbrev pub max_duration : ℤ
max_duration = pos (2 ^ 63 - 1)

abbrev pub min_duration : ℤ
min_duration = negsuc (2 ^ 63 - 1)

-- parseTimestamp: the error of time.Parse is dropped, which leaves the zero time.
unfoldable pub parse_timestamp : Library → String → ℤ
parse_timestamp lib s = elim (lib.parse_time s) [ none ↦ pos 0 | some t ↦ t ]

-- t.Sub(u), which Go holds within the range of a Duration.
unfoldable pub sub_time : ℤ → ℤ → ℤ
sub_time t u =
    let d = t -ℤ u in
    if ltb_ℤ max_duration d then max_duration else if ltb_ℤ d min_duration then min_duration else d

-- absDuration: negation of an int64, which leaves the least one as it is.
unfoldable pub abs_duration : ℤ → ℤ
abs_duration d =
    if ltb_ℤ d (pos 0) then (if eqb_ℤ d min_duration then min_duration else pos 0 -ℤ d) else d

-- plausible
unfoldable pub plausible : ℤ → ℤ → Bool
plausible t received_at =
    let lower = received_at -ℤ pos (8 * (24 * hour)) in
    let upper = received_at +ℤ pos (5 * minute) in not (ltb_ℤ t lower) && not (ltb_ℤ upper t)

pub data TimeQuality : Type 0 where
  client batch_adjusted untrusted : TimeQuality

-- effectiveTime
unfoldable pub effective_time : ℤ → ℤ → ℤ → ℤ × TimeQuality
effective_time occurred_at_client received_at skew =
    let adjusted = occurred_at_client +ℤ skew in
    if leb_ℤ (abs_duration skew) (pos (5 * minute)) && plausible occurred_at_client received_at
    then (occurred_at_client, client)
    else if plausible adjusted received_at
    then (adjusted, batch_adjusted)
    else (received_at, untrusted)

plausible_now : (t : ℤ) → plausible t t ≡ true
unfolding plausible
plausible_now t = ground (arith, -ℤ_parts t (pos (8 * (24 * hour))), +ℤ_parts t (pos (5 * minute)))

pub effective_time-plausible :
    (occurred received skew : ℤ)
    → plausible (effective_time occurred received skew).0 received ≡ true
unfolding effective_time
effective_time-plausible occurred received skew = ground (arith, plausible_now received)

plausible-bounds :
    (t received : ℤ)
    → plausible t received ≡ true
    → (received ≤ℤ t +ℤ pos (8 * 24 * 60 * 60 * 10 ^ 9)) × (t ≤ℤ received +ℤ pos (5 * 60 * 10 ^ 9))
unfolding plausible
plausible-bounds t received h = ground (
  arith,
  +ℤ_parts t (pos (8 * 24 * 60 * 60 * 10 ^ 9)),
  +ℤ_parts received (pos (5 * minute)),
  -ℤ_parts received (pos (8 * (24 * hour))),
)

-- Whatever the client's clock says, the effective time lies between 8 days before and 5 minutes
-- after the receipt, in nanoseconds.
pub effective_time-bounds :
    (occurred received skew : ℤ)
    → (received ≤ℤ (effective_time occurred received skew).0 +ℤ pos (8 * 24 * 60 * 60 * 10 ^ 9))
      × ((effective_time occurred received skew).0 ≤ℤ received +ℤ pos (5 * 60 * 10 ^ 9))
effective_time-bounds occurred received skew =
    plausible-bounds (effective_time occurred received skew).0 received
      (effective_time-plausible occurred received skew)

-- Unless the skew is the least Duration, a time is taken as the client's only if the skew is at
-- most 5 minutes either way, and then it is the client's own time.
pub effective_time-client :
    (occurred received skew : ℤ)
    → min_duration <ℤ skew
    → (effective_time occurred received skew).1 ≡ client
    → ((effective_time occurred received skew).0 ≡ occurred)
      × (skew ≤ℤ pos (5 * minute))
      × (pos 0 ≤ℤ skew +ℤ pos (5 * minute))
unfolding effective_time abs_duration
effective_time-client occurred received skew h q =
    ground (arith, -ℤ_parts (pos 0) skew, +ℤ_parts skew (pos (5 * minute)))

sub_time-far :
    (received sent : ℤ) → received +ℤ pos (2 ^ 63) ≤ℤ sent → sub_time received sent ≡ min_duration
unfolding sub_time
sub_time-far received sent far = ground (
  arith,
  +ℤ_parts received (pos (2 ^ 63)),
  -ℤ_parts received sent,
  eq_of_parts (received -ℤ sent) min_duration,
)

-- A batch stamped 2^63 nanoseconds (292 years) or more after its receipt has the least Duration
-- for its skew, whose absolute value overflows: each plausible event time of such a batch is
-- trusted as the client's, as if the clocks agreed.
pub effective_time_overflow :
    (occurred received sent : ℤ)
    → received +ℤ pos (2 ^ 63) ≤ℤ sent
    → plausible occurred received ≡ true
    → effective_time occurred received (sub_time received sent) ≡ (occurred, client)
unfolding effective_time abs_duration
effective_time_overflow occurred received sent far p = rw (sub_time-far received sent far, p)
