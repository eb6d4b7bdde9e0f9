-- ===== src/Registrar/Intervals.antt =====
-- The delay before a retry.
use paota.Common.{ℕ, ◌*◌, ◌^◌, ◌≤◌, ◌<◌, ◌≡◌, refl, false, arith, if◌then◌else◌, ltb}
use paota.Common.Int.{ℤ, pos, ◌*ℤ◌, ◌≤ℤ◌, wrap64, ltb_ℤ}
use paota.Schema.{second}
use paota.Utils.Fibonacci.{fib, fib_mono, fib_49, fib_50, fibonacci-fib}
use paota.Registrar.Retry.{get_retry_interval}

pos_times : (n k : ℕ) → pos n *ℤ k ≡ pos (n * k)
unfolding ◌*ℤ◌
pos_times n k = refl

wrap64-pos : (n : ℕ) → n < 2 ^ 63 → wrap64 (pos n) ≡ pos n
unfolding wrap64
wrap64-pos n h = ground arith

-- The Fibonacci delay in seconds, at most ten of them.
abbrev pub capped_delay : ℕ → ℕ
capped_delay f = if ltb 10 f then 10 else f

capped :
    (f : ℕ)
    → (if ltb_ℤ (pos (10 * 10 ^ 9)) (pos (f * 10 ^ 9)) then pos (10 * 10 ^ 9) else pos (f * 10 ^ 9))
      ≡ pos (capped_delay f * 10 ^ 9)
capped f = ground arith

fib_fits : (n : ℕ) → n ≤ 49 → fib n * 10 ^ 9 < 2 ^ 63
fib_fits n h = omega (arith, fib_mono 49 n h, fib_49)

-- Up to the 49th retry the interval is the Fibonacci number in seconds, ten at most.
pub get_retry_interval-fib :
    (n : ℕ) → n ≤ 49 → get_retry_interval (pos n) ≡ pos (capped_delay (fib n) * second)
unfolding get_retry_interval
get_retry_interval-fib n h =
    rw
      (
        fibonacci-fib n (omega arith),
        pos_times (fib n) second,
        wrap64-pos (fib n * 10 ^ 9) (fib_fits n h),
      )
      (capped (fib n))

-- No interval is longer than ten seconds.
pub get_retry_interval-le : (n : ℤ) → get_retry_interval n ≤ℤ pos (10 * second)
unfolding get_retry_interval
get_retry_interval-le n = ground arith

product_wraps :
    ltb_ℤ (pos 0) (
      if ltb_ℤ (pos (10 * second)) (wrap64 (pos (12586269025 * second)))
      then pos (10 * second)
      else wrap64 (pos (12586269025 * second)))
    ≡ false
unfolding wrap64
product_wraps = refl

-- At the 50th retry the product of the Fibonacci number and the second has passed the int64 range:
-- the interval is negative, so not positive.
pub get_retry_interval-overflow : ltb_ℤ (pos 0) (get_retry_interval (pos 50)) ≡ false
unfolding get_retry_interval
get_retry_interval-overflow =
    rw (fibonacci-fib 50 (omega arith), fib_50, pos_times 12586269025 second) product_wraps
