-- ===== src/Tests/Bpf.antt =====
-- Packets through the BPF programs at concrete inputs.
use pidnl.Base.{
  ℕ, ◌+◌, ◌*◌, ◌≤◌, ◌<◌, ◌≡◌, ◌↔◌, ◌-◌, ◌^◌, leb, refl, true, false, List, [], ◌∷◌, if◌then◌else◌,
  arith,
}
use pidnl.Bpf.{RateLimitState, Maps, egress_rl, limit_bps}
use pidnl.Bpf.Bounds.{IsBucket}
use pidnl.Bpf.Traffic.{Packet, after, uploaded, late_ns}
use pidnl.Bpf.Policer.{uploaded-le, uploaded-le_of_Ordered}
use pidnl.Bpf.Verdict.{budget, egress_rl_iff, egress_rl_idle, uploaded_of_Dense}

-- A bucket of a limit of 8 kbit/s, which is 1000 bytes a second.
abbrev bucket : RateLimitState
bucket = record { tokens = 500; last_update_ns = 1000 }

abbrev maps : Maps
maps = record {
  upload_state = bucket;
  download_state = bucket;
  upload_limit = 8;
  download_limit = 16;
}

abbrev traffic : List Packet
traffic =
    record { leaving = true; now = 2000; len = 400 }
    ∷ record { leaving = false; now = 3000; len = 100 }
    ∷ record { leaving = true; now = 900001000; len = 1000 }
    ∷ []

bucket-IsBucket :
    (now : ℕ) → 1000 ≤ now → now < 2 ^ 64 → IsBucket (limit_bps maps.upload_limit) now bucket
bucket-IsBucket now h k = record { rate = omega arith; capped = omega arith; before = h; clock = k }

traffic_passed : uploaded traffic maps ≡ 400
unfolding uploaded pidnl.Bpf.Traffic.filter egress_rl pidnl.Bpf.ingress_rl
traffic_passed = refl

-- The second egress packet read the clock before the first one, and takes the lock behind it: it is
-- given a second's worth of tokens.
abbrev overtaken : List Packet
overtaken =
    record { leaving = true; now = 2000; len = 400 }
    ∷ record { leaving = true; now = 1500; len = 1000 }
    ∷ []

overtaken_passed : uploaded overtaken maps ≡ 1400
unfolding uploaded pidnl.Bpf.Traffic.filter egress_rl pidnl.Bpf.ingress_rl
overtaken_passed = refl

overtaken_late : late_ns overtaken maps ≡ 1000000500
unfolding late_ns pidnl.Bpf.Traffic.filter egress_rl pidnl.Bpf.Traffic.lateness
overtaken_late = refl

uploaded-le_example :
    uploaded overtaken maps * 1000000000
      + (after overtaken maps).upload_state.tokens * 1000000000
      + 1000 * 1000
    ≤ 500 * 1000000000
      + 1000 * (after overtaken maps).upload_state.last_update_ns
      + 1000 * late_ns overtaken maps
uploaded-le_example = uploaded-le overtaken maps 1000 refl

uploaded-le_of_Ordered_example :
    uploaded traffic maps * 1000000000
      + (after traffic maps).upload_state.tokens * 1000000000
      + 1000 * 1000
    ≤ 500 * 1000000000 + 1000 * (after traffic maps).upload_state.last_update_ns
uploaded-le_of_Ordered_example =
    uploaded-le_of_Ordered traffic maps 1000 refl (omega arith, (omega arith, (omega arith, tt)))

egress_rl_iff_example :
    let tokens = budget (limit_bps maps.upload_limit) 2000 maps.upload_state in
    let left = (egress_rl 2000 400 maps).0.upload_state in
    (((egress_rl 2000 400 maps).1 ≡ true) ↔ (400 ≤ tokens))
    × (left.last_update_ns ≡ 2000)
    × (left.tokens ≡ (if leb 400 tokens then tokens - 400 else tokens))
egress_rl_iff_example =
    egress_rl_iff 2000 400 maps (bucket-IsBucket 2000 (omega arith) (omega arith))

egress_rl_idle_example : (egress_rl 2000000000 1000 maps).1 ≡ true
egress_rl_idle_example =
    egress_rl_idle 2000000000 1000 maps (bucket-IsBucket 2000000000 (omega arith) (omega arith))
      (omega arith) (omega arith)

-- Packets of 100 bytes, 0.9 milliseconds apart.
abbrev dense : List Packet
dense =
    record { leaving = true; now = 900000; len = 100 }
    ∷ record { leaving = true; now = 1800000; len = 100 }
    ∷ []

uploaded_of_Dense_example : uploaded dense maps + (after dense maps).upload_state.tokens ≤ 500
uploaded_of_Dense_example =
    uploaded_of_Dense dense maps
      (omega arith, omega arith, omega arith, (omega arith, omega arith, omega arith, tt))
