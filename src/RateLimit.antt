-- ===== src/RateLimit.antt =====
-- The token bucket that limits log events: src/rate_limit.rs. Instants and durations are natural
-- numbers; the clock's reading is an argument.
pub mod Bounds
use symbolon.Prelude.{ℕ, ◌+◌, ◌-◌, ◌^◌, min, max, Option, none, some, leb, if◌then◌else◌}

pub record TokenBucket : Type 0 where
  pub refill_interval : ℕ
  pub burst_tolerance : ℕ
  pub tat : ℕ
  pub suppressed : ℕ

abbrev pub u64_max : ℕ
u64_max = 2 ^ 64 - 1

-- `u64::saturating_add`
abbrev saturating_add : ℕ → ℕ → ℕ
saturating_add a b = min (a + b) u64_max

unfoldable pub new : ℕ → ℕ → ℕ → TokenBucket
new refill_interval burst_tolerance now = record {
  refill_interval = refill_interval;
  burst_tolerance = burst_tolerance;
  tat = now;
  suppressed = 0;
}

unfoldable pub try_acquire : ℕ → TokenBucket → TokenBucket × Option ℕ
try_acquire now b =
    if leb b.tat (now + b.burst_tolerance)
    then (record b { tat = max b.tat now + b.refill_interval; suppressed = 0 }, some b.suppressed)
    else (record b { suppressed = saturating_add b.suppressed 1 }, none)
