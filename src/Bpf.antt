-- ===== src/Bpf.antt =====
-- lib/src/ratelimit.bpf.c: the two cgroup/skb programs and their token bucket. A `__u64` is a
-- number below 2 ^ 64 and every operation on one is reduced; `bpf_ktime_get_ns` is the argument
-- `now`, which the code reads before it takes the spin lock: the rest of a call of `apply_rate_limit` is one
-- step.
pub mod Bounds
pub mod Traffic
pub mod Policer
pub mod Verdict
use pidnl.Base.{
  ℕ, ◌+◌, ◌-◌, ◌*◌, ◌/◌, ◌%◌, ◌^◌, Bool, true, false, Option, none, some, ltb, leb, ◌==◌,
  if◌then◌else◌,
}

abbrev pub u64 : ℕ
u64 = 2 ^ 64

abbrev pub direction_upload : ℕ
direction_upload = 0

abbrev pub direction_download : ℕ
direction_download = 1

-- `struct rate_limit_state`, less its lock.
pub record RateLimitState : Type 0 where
  pub tokens : ℕ
  pub last_update_ns : ℕ

-- The two maps of the object, arrays of two entries each.
pub record Maps : Type 0 where
  pub upload_state : RateLimitState
  pub download_state : RateLimitState
  pub upload_limit : ℕ
  pub download_limit : ℕ

-- The lookups of an array map: NULL behind its last entry.
unfoldable pub lookup_state : Maps → ℕ → Option RateLimitState
lookup_state m key =
    if key == direction_upload
    then some m.upload_state
    else if key == direction_download
    then some m.download_state
    else none

unfoldable pub lookup_limit : Maps → ℕ → Option ℕ
lookup_limit m key =
    if key == direction_upload
    then some m.upload_limit
    else if key == direction_download
    then some m.download_limit
    else none

-- A store through the pointer that `lookup_state` returned for `key`.
unfoldable pub store_state : Maps → ℕ → RateLimitState → Maps
store_state m key s =
    if key == direction_upload
    then record m { upload_state = s }
    else if key == direction_download
    then record m { download_state = s }
    else m

abbrev pub limit_bps : ℕ → ℕ
limit_bps limit_kbps = limit_kbps * 1000 % u64 / 8

-- Whole microseconds since the last packet, at most one second.
unfoldable pub elapsed_us : ℕ → ℕ → ℕ
elapsed_us now last =
    let us = (now + u64 - last) % u64 / 1000 in if ltb 1000000 us then 1000000 else us

unfoldable pub refill : ℕ → ℕ → RateLimitState → ℕ
unfolding elapsed_us
refill bps now s =
    let tokens = (s.tokens + bps * elapsed_us now s.last_update_ns % u64 / 1000000) % u64 in
    let max_tokens = bps * 2 % u64 in if ltb max_tokens tokens then max_tokens else tokens

-- The locked part of `apply_rate_limit`: the new state and the verdict, true for 1.
unfoldable pub spend : ℕ → ℕ → ℕ → RateLimitState → RateLimitState × Bool
unfolding refill
spend bps now packet_size s =
    let tokens = refill bps now s in
    if leb packet_size tokens
    then (record { tokens = tokens - packet_size; last_update_ns = now }, true)
    else (record { tokens = tokens; last_update_ns = now }, false)

unfoldable pub apply_rate_limit : ℕ → ℕ → ℕ → ℕ → Maps → Maps × Bool
unfolding spend lookup_state store_state
apply_rate_limit now direction limit_kbps packet_size m = elim (lookup_state m direction) [
  | none ↦ (m, true)
  | some s ↦
      let (s', verdict) = spend (limit_bps limit_kbps) now packet_size s in
      (store_state m direction s', verdict)
]

unfoldable pub egress_rl : ℕ → ℕ → Maps → Maps × Bool
unfolding apply_rate_limit lookup_limit
egress_rl now len m = elim (lookup_limit m direction_upload) [
  | none ↦ (m, true)
  | some limit ↦ apply_rate_limit now direction_upload limit len m
]

unfoldable pub ingress_rl : ℕ → ℕ → Maps → Maps × Bool
unfolding apply_rate_limit lookup_limit
ingress_rl now len m = elim (lookup_limit m direction_download) [
  | none ↦ (m, true)
  | some limit ↦ apply_rate_limit now direction_download limit len m
]
