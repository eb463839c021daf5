-- ===== src/Bpf/Verdict.antt =====
-- lib/src/ratelimit.bpf.c: which packets pass, and which never can.
use native.Mathlib.Nat.{mul-le-mul_left}
use pidnl.Base.{
  ℕ, ◌+◌, ◌-◌, ◌*◌, ◌/◌, ◌^◌, ◌≤◌, ◌<◌, ◌≡◌, ◌↔◌, ap, ◌∙◌, true, false, arith, leb, if◌then◌else◌,
  min, List, [], ◌∷◌, Bool-cases, inl, inr,
}
use pidnl.Bpf.{RateLimitState, Maps, limit_bps, elapsed_us, refill, spend, egress_rl}
use pidnl.Bpf.Bounds.{IsBucket, refill-eq-min, elapsed_us-eq-min}
use pidnl.Bpf.Traffic.{Packet, filter, after, counted, uploaded}
use pidnl.Bpf.Policer.{egress_rl-maps, ingress_rl-maps}

spend_iff :
    (bps now size : ℕ) (s : RateLimitState)
    → ((spend bps now size s).1 ≡ true) ↔ (size ≤ refill bps now s)
unfolding spend
spend_iff bps now size s = ground arith

-- The tokens that the code means a bucket to hold at `now`: one second of refill at most, and
-- never more than two seconds' worth.
abbrev pub budget : ℕ → ℕ → RateLimitState → ℕ
budget bps now s =
    min (s.tokens + bps * min 1000000 ((now - s.last_update_ns) / 1000) / 1000000) (2 * bps)

refill-budget :
    (bps now : ℕ) (s : RateLimitState) → IsBucket bps now s → refill bps now s ≡ budget bps now s
refill-budget bps now s b =
    refill-eq-min bps now s b
    ∙ ap (λ (us : ℕ). min (s.tokens + bps * us / 1000000) (2 * bps))
        (elapsed_us-eq-min now s.last_update_ns b.before b.clock)

-- From a bucket in order, the 64-bit code decides as unbounded arithmetic would: an egress packet passes exactly when
-- its length fits the budget, which it then leaves reduced by that length.
pub egress_rl_iff :
    (now len : ℕ) (m : Maps)
    → IsBucket (limit_bps m.upload_limit) now m.upload_state
    → let tokens = budget (limit_bps m.upload_limit) now m.upload_state in
      let left = (egress_rl now len m).0.upload_state in
      (((egress_rl now len m).1 ≡ true) ↔ (len ≤ tokens))
      × (left.last_update_ns ≡ now)
      × (left.tokens ≡ (if leb len tokens then tokens - len else tokens))
unfolding spend
egress_rl_iff now len m b =
    let bps = limit_bps m.upload_limit in
    rw (egress_rl-maps now len m, ← refill-budget bps now m.upload_state b)
      (spend_iff bps now len m.upload_state, ground arith, ground arith)

second : (bps : ℕ) → bps * 1000000 / 1000000 ≡ bps
second bps = omega arith

-- From a bucket in order and after a second without egress traffic, a packet of up to a second's worth of bytes passes.
pub egress_rl_idle :
    (now len : ℕ) (m : Maps)
    → IsBucket (limit_bps m.upload_limit) now m.upload_state
    → m.upload_state.last_update_ns + 1000000000 ≤ now
    → len ≤ limit_bps m.upload_limit
    → (egress_rl now len m).1 ≡ true
egress_rl_idle now len m b idle small =
    let us : (min 1000000 ((now - m.upload_state.last_update_ns) / 1000) ≡ 1000000) = omega arith in
    (egress_rl_iff now len m b).0.1 (rw us (omega arith))

-- A flow whose egress packets follow so closely that no pause is worth one whole token.
abbrev pub Dense : ℕ → ℕ → List Packet → Type 0
Dense bps last [] = Unit
Dense bps last (p ∷ ps) = elim p.leaving [
  | true ↦
      (last ≤ p.now)
      × (p.now < 18446744073709551616)
      × (bps * ((p.now - last) / 1000) < 1000000)
      × Dense bps p.now ps
  | false ↦ Dense bps last ps
]

-- A pause that is worth less than one token adds nothing.
refill_of_short :
    (bps now : ℕ) (s : RateLimitState)
    → s.last_update_ns ≤ now
    → now < 2 ^ 64
    → bps * ((now - s.last_update_ns) / 1000) < 1000000
    → refill bps now s ≤ s.tokens
unfolding refill
refill_of_short bps now s h k dense =
    let last = s.last_update_ns in
    let us = elapsed_us now last in
    let fewer : (us ≤ (now - last) / 1000) = omega (arith, elapsed_us-eq-min now last h k) in
    let small : (bps * us < 1000000) = omega (arith, mul-le-mul_left bps fewer) in ground arith

spend_of_short :
    (bps now len : ℕ) (s : RateLimitState)
    → refill bps now s ≤ s.tokens
    → (counted (spend bps now len s).1 len + (spend bps now len s).0.tokens ≤ s.tokens)
      × ((spend bps now len s).0.last_update_ns ≡ now)
unfolding spend
spend_of_short bps now len s h = (ground arith, ground arith)

filter_of_Dense :
    (p : Packet) (ps : List Packet) (m : Maps)
    → Dense (limit_bps m.upload_limit) m.upload_state.last_update_ns (p ∷ ps)
    → ((if p.leaving then counted (filter p m).1 p.len else 0) + (filter p m).0.upload_state.tokens
        ≤ m.upload_state.tokens)
      × Dense (limit_bps (filter p m).0.upload_limit) (filter p m).0.upload_state.last_update_ns ps
unfolding filter
filter_of_Dense p ps m d =
    let bps = limit_bps m.upload_limit in
    let s = m.upload_state in
    elim (Bool-cases p.leaving) [
      | inl out ↦
          let (h, k, short, rest) = rw out at d in
          let (paid, last) =
            spend_of_short bps p.now p.len s (refill_of_short bps p.now s h k short) in
          rw (out, egress_rl-maps p.now p.len m) (paid, rw last rest)
      | inr incoming ↦ rw (incoming, ingress_rl-maps p.now p.len m) (omega arith, rw incoming at d)
    ]

-- However long a flow without a pause that is worth a token goes on, and whatever comes in beside it, no more of it passes than
-- the tokens that were there at its start: it is cut off for good, not held to its rate.
pub uploaded_of_Dense :
    (ps : List Packet) (m : Maps)
    → Dense (limit_bps m.upload_limit) m.upload_state.last_update_ns ps
    → uploaded ps m + (after ps m).upload_state.tokens ≤ m.upload_state.tokens
unfolding uploaded after
uploaded_of_Dense [] m d = omega arith
uploaded_of_Dense (p ∷ ps) m d =
    let (paid, rest) = filter_of_Dense p ps m d in
    omega (arith, paid, uploaded_of_Dense ps (filter p m).0 rest)
