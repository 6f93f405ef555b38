-- ===== src/Worker/Delay.antt =====
-- `verificationDelay` of api/worker.go: the delay doubles up to five minutes.
use test_miti_check.Prelude.{ℕ, zero, suc, ◌*◌, ◌^◌, ◌≤◌, ◌≡◌, arith, ltb, if◌then◌else◌}
use Prim.Native.Nat.{min}
use native.Mathlib.Nat.{pow-suc}

-- In microseconds.
abbrev pub five_minutes : ℕ
five_minutes = 300_000_000

-- The loop, with the rounds that are left.
unfoldable pub double_up : ℕ → ℕ → ℕ
double_up zero delay = delay
double_up (suc n) delay =
    let rest = double_up n (delay * 2) in
    if ltb delay five_minutes
    then (if ltb five_minutes (delay * 2) then five_minutes else rest)
    else delay

unfoldable pub verification_delay : ℕ → ℕ → ℕ
unfolding double_up
verification_delay backoff attempt = double_up attempt backoff

one-le-pow : (n : ℕ) → 1 ≤ 2 ^ n
one-le-pow zero = omega arith
one-le-pow (suc n) = rw pow-suc (omega (arith, one-le-pow n))

le-mul : (d x : ℕ) → 1 ≤ x → d ≤ d * x
le-mul d x h = grind arith

double_up-min : (n d : ℕ) → d ≤ five_minutes → double_up n d ≡ min five_minutes (d * 2 ^ n)
unfolding double_up
double_up-min zero d h = omega arith
double_up-min (suc n) d h =
    let e : d * 2 ^ suc n ≡ d * 2 * 2 ^ n = rw pow-suc (omega arith) in
    ground
      (arith, e, double_up-min n (d * 2), le-mul d (2 ^ n), le-mul (d * 2) (2 ^ n), one-le-pow n)

-- From a backoff of at most five minutes, the delay before the next verification is the backoff
-- doubled once for each attempt made, and at most five minutes.
pub verification_delay-min :
    (backoff attempt : ℕ)
    → backoff ≤ five_minutes
    → verification_delay backoff attempt ≡ min five_minutes (backoff * 2 ^ attempt)
unfolding verification_delay
verification_delay-min backoff attempt h = double_up-min attempt backoff h
