-- ===== src/Diskstate.antt =====
-- internal/diskstate: the classification of disk pressure.
use mortris_server.Prelude.{ℕ, ◌*◌, ◌^◌, ◌≡◌, Bool, ◌||◌, leb, if◌then◌else◌, max, arith}

pub data State : Type 0 where
  normal warning high critical rejecting : State

abbrev pub gib : ℕ
gib = 2 ^ 30

-- classify; `used_at_least k` stands for the floating-point test percentUsed >= k, and 7.5 GiB is
-- 15 halves of a GiB.
unfoldable pub classify : (ℕ → Bool) → ℕ → State
classify used_at_least free_bytes =
    if used_at_least 90 || leb free_bytes (5 * gib)
    then rejecting
    else if used_at_least 85 || leb (2 * free_bytes) (15 * gib)
    then critical
    else if used_at_least 80 || leb free_bytes (10 * gib)
    then high
    else if used_at_least 70 || leb free_bytes (15 * gib)
    then warning
    else normal

abbrev pub severity : State → ℕ
severity normal = 0
severity warning = 1
severity high = 2
severity critical = 3
severity rejecting = 4

-- The severity by the used share alone, and by the free bytes alone.
abbrev pub by_share : (ℕ → Bool) → ℕ
by_share used_at_least =
    if used_at_least 90
    then 4
    else if used_at_least 85
    then 3
    else if used_at_least 80
    then 2
    else if used_at_least 70
    then 1
    else 0

abbrev pub by_bytes : ℕ → ℕ
by_bytes free =
    if leb free (5 * gib)
    then 4
    else if leb (2 * free) (15 * gib)
    then 3
    else if leb free (10 * gib)
    then 2
    else if leb free (15 * gib)
    then 1
    else 0

-- The state has the severity of the worse of the two readings: the used share by itself and the
-- free bytes by themselves.
classify-worse :
    (used_at_least : ℕ → Bool) (free : ℕ)
    → severity (classify used_at_least free) ≡ max (by_share used_at_least) (by_bytes free)
unfolding classify
classify-worse used_at_least free = ground arith
