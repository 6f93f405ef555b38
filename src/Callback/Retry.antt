-- ===== src/Callback/Retry.antt =====
-- `retryableCallbackStatus`, `callbackRetryDelay` and `retryAfter` of api/callback.go. Durations
-- are in microseconds. The random number is `k / 2 ^ 53`; the products are exact and cut down to
-- whole microseconds.
use test_miti_check.Prelude.{
  arith, ℕ, ◌+◌, ◌-◌, ◌*◌, ◌/◌, ◌%◌, ◌^◌, ◌≤◌, ◌<◌, Bool, Option, none, some, ◌||◌, ltb, eqb,
  if◌then◌else◌,
}
use test_miti_check.Prelude.Text.{Text, is_empty, trim_space}
use test_miti_check.Prelude.Text.Numbers.{pos, negsuc, atoi}

unfoldable pub retryable_status : ℕ → Bool
retryable_status s =
    eqb s 408 || eqb s 425 || eqb s 429 || eqb s 500 || eqb s 502 || eqb s 503 || eqb s 504

-- The schedule, in seconds, by the attempts already made.
abbrev pub base_seconds : ℕ → ℕ
base_seconds n =
    if eqb n 0
    then 5
    else if eqb n 1
    then 15
    else if eqb n 2
    then 30
    else if eqb n 3
    then 60
    else if eqb n 4
    then 300
    else 900

unfoldable pub retry_delay : ℕ → ℕ → ℕ
retry_delay attempt k = base_seconds attempt * 100_000 * (8 * 2 ^ 53 + 4 * k) / 2 ^ 53

-- `parse_time` is `http.ParseTime`; its times and `now` count microseconds.
unfoldable pub until : Option ℕ → ℕ → ℕ
until none now = 0
until (some w) now = if ltb now w then w - now else 0

-- `time.Duration(seconds) * time.Second`, which wraps in 64 bits of nanoseconds, in whole microseconds.
-- A negative duration counts as none, since `retry` takes only a delay above its own.
abbrev pub wrapped_seconds : ℕ → ℕ
wrapped_seconds n =
    let nanoseconds = n * 1_000_000_000 % 2 ^ 64 in
    if ltb nanoseconds (2 ^ 63) then nanoseconds / 1000 else 0

unfoldable pub retry_after : (Text → Option ℕ) → Text → ℕ → ℕ
unfolding trim_space atoi until
retry_after parse_time given now =
    let value = trim_space given in
    if is_empty value then 0 else elim (atoi value) [
      | some (pos n) ↦ wrapped_seconds n
      | some (negsuc n) ↦ until (parse_time value) now
      | none ↦ until (parse_time value) now
    ]

-- The delay before a retry is within a fifth of the schedule's, for every random number.
pub retry_delay-bounds :
    (attempt k : ℕ)
    → k < 2 ^ 53
    → (base_seconds attempt * 800_000 ≤ retry_delay attempt k)
      × (retry_delay attempt k ≤ base_seconds attempt * 1_200_000)
unfolding retry_delay
retry_delay-bounds attempt k h = ground arith

-- Over the five steps of the schedule, the next delay is longer than the one before, for all
-- random numbers below one.
retry_delay-grows :
    (attempt j k : ℕ)
    → attempt < 5
    → j < 2 ^ 53
    → k < 2 ^ 53
    → retry_delay attempt j < retry_delay (attempt + 1) k
retry_delay-grows attempt j k h hj hk =
    ground (arith, retry_delay-bounds attempt j hj, retry_delay-bounds (attempt + 1) k hk)
