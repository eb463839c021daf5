-- ===== src/Bpf/Bounds.antt =====
-- lib/src/ratelimit.bpf.c: the arithmetic of the token bucket, with 64-bit operations and without.
use pidnl.Base.{ℕ, ◌+◌, ◌-◌, ◌*◌, ◌/◌, ◌^◌, ◌≤◌, ◌<◌, ◌≡◌, arith, min}
use pidnl.Bpf.{RateLimitState, limit_bps, elapsed_us, refill, spend}

-- A bucket that is filled at `bps` bytes a second, seen at the time `now`.
pub record IsBucket (bps now : ℕ) (s : RateLimitState) : Type 0 where
  pub rate : bps ≤ 2 ^ 40
  pub capped : s.tokens ≤ 2 * bps
  pub before : s.last_update_ns ≤ now
  pub clock : now < 2 ^ 64

pub limit_bps_lem :
    (kbps : ℕ) → kbps < 2 ^ 32 → (limit_bps kbps ≡ 125 * kbps) × (limit_bps kbps ≤ 2 ^ 40)
limit_bps_lem kbps h = (omega arith, omega arith)

pub elapsed_us-eq-min :
    (now last : ℕ)
    → last ≤ now
    → now < 2 ^ 64
    → elapsed_us now last ≡ min 1000000 ((now - last) / 1000)
unfolding elapsed_us
elapsed_us-eq-min now last h k = ground arith

pub elapsed_us-le : (now last : ℕ) → elapsed_us now last ≤ 1000000
unfolding elapsed_us
elapsed_us-le now last = ground arith

mul_bound : (bps us : ℕ) → bps ≤ 2 ^ 40 → us ≤ 1000000 → bps * us ≤ 2 ^ 40 * 1000000
mul_bound bps us h k = grind arith

-- The refilled bucket, without wrap-around.
pub refill-eq-min :
    (bps now : ℕ) (s : RateLimitState)
    → IsBucket bps now s
    → refill bps now s ≡ min (s.tokens + bps * elapsed_us now s.last_update_ns / 1000000) (2 * bps)
unfolding refill
refill-eq-min bps now s b =
    let us = elapsed_us now s.last_update_ns in
    ground (arith, mul_bound bps us b.rate (elapsed_us-le now s.last_update_ns))

-- What one packet does to a bucket.
pub spend-IsBucket :
    (bps now later size : ℕ) (s : RateLimitState)
    → IsBucket bps now s
    → now ≤ later
    → later < 2 ^ 64
    → IsBucket bps later (spend bps now size s).0
unfolding spend
spend-IsBucket bps now later size s b h k = ground (arith, refill-eq-min bps now s b)
