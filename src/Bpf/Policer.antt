-- ===== src/Bpf/Policer.antt =====
-- lib/src/ratelimit.bpf.c: what the policer promises over a whole sequence of packets.
use native.Mathlib.Nat.{le_refl, mul-le-mul_left}
use pidnl.Base.{
  Bool-cases, inl, inr, ℕ, ◌+◌, ◌*◌, ◌≤◌, ◌≡◌, refl, sym, ap, ◌∙◌, arith, ◌/◌, if◌then◌else◌, List,
  [], ◌∷◌,
}
use pidnl.Bpf.{RateLimitState, Maps, limit_bps, elapsed_us, refill, spend, egress_rl, ingress_rl}
use pidnl.Bpf.Traffic.{Packet, filter, after, counted, uploaded, lateness, late_ns, Ordered}

-- Without wrap-around or with it, a refill adds no more than the price of the microseconds.
refill_le :
    (bps now : ℕ) (s : RateLimitState)
    → refill bps now s ≤ s.tokens + bps * elapsed_us now s.last_update_ns / 1000000
unfolding refill
refill_le bps now s = ground arith

-- For a reading behind the last update the microseconds are no more than its nanoseconds, and for one
-- before it they are at most a second.
elapsed_us_le : (now last : ℕ) → elapsed_us now last * 1000 + last ≤ now + lateness now last
unfolding elapsed_us lateness
elapsed_us_le now last = ground arith

-- Everything in the refilled bucket is either handed to the packet or kept.
spend_split :
    (bps now size : ℕ) (s : RateLimitState)
    → ((spend bps now size s).0.last_update_ns ≡ now)
      × (counted (spend bps now size s).1 size + (spend bps now size s).0.tokens ≡ refill bps now s)
unfolding spend
spend_split bps now size s = (ground arith, ground arith)

price_le :
    (bps us now last late : ℕ)
    → us * 1000 + last ≤ now + late
    → bps * us * 1000 + bps * last ≤ bps * now + bps * late
price_le bps us now last late h = omega (arith, mul-le-mul_left bps h)

refill_budget :
    (bps now : ℕ) (s : RateLimitState)
    → refill bps now s * 1000000000 + bps * s.last_update_ns
      ≤ s.tokens * 1000000000 + bps * now + bps * lateness now s.last_update_ns
refill_budget bps now s =
    let last = s.last_update_ns in
    let us = elapsed_us now last in
    omega (
      arith,
      refill_le bps now s,
      price_le bps us now last (lateness now last) (elapsed_us_le now last),
    )

-- One packet: what it takes from the bucket was paid for by the time since the last one.
pub spend_budget :
    (bps now size : ℕ) (s : RateLimitState)
    → counted (spend bps now size s).1 size * 1000000000
        + (spend bps now size s).0.tokens * 1000000000
        + bps * s.last_update_ns
      ≤ s.tokens * 1000000000
        + bps * (spend bps now size s).0.last_update_ns
        + bps * lateness now s.last_update_ns
spend_budget bps now size s =
    rw (spend_split bps now size s).0
      (omega (arith, refill_budget bps now s, (spend_split bps now size s).1))

-- The egress program touches only the upload entry, and the ingress program only the other one.
pub egress_rl-maps :
    (now size : ℕ) (m : Maps)
    → egress_rl now size m ≡ (
      record m { upload_state = (spend (limit_bps m.upload_limit) now size m.upload_state).0 },
      (spend (limit_bps m.upload_limit) now size m.upload_state).1,
    )
unfolding egress_rl
egress_rl-maps now size m = refl

pub ingress_rl-maps :
    (now size : ℕ) (m : Maps)
    → ingress_rl now size m ≡ (
      record m {
        download_state = (spend (limit_bps m.download_limit) now size m.download_state).0;
      },
      (spend (limit_bps m.download_limit) now size m.download_state).1,
    )
unfolding ingress_rl
ingress_rl-maps now size m = refl

pub filter-upload_limit : (p : Packet) (m : Maps) → (filter p m).0.upload_limit ≡ m.upload_limit
unfolding filter
filter-upload_limit p m =
    ground (arith, egress_rl-maps p.now p.len m, ingress_rl-maps p.now p.len m)

-- What one packet, in either direction, does to the upload bucket.
filter_budget :
    (p : Packet) (m : Maps) (bps : ℕ)
    → bps ≡ limit_bps m.upload_limit
    → (if p.leaving then counted (filter p m).1 p.len else 0) * 1000000000
        + (filter p m).0.upload_state.tokens * 1000000000
        + bps * m.upload_state.last_update_ns
      ≤ m.upload_state.tokens * 1000000000
        + bps * (filter p m).0.upload_state.last_update_ns
        + bps * (if p.leaving then lateness p.now m.upload_state.last_update_ns else 0)
unfolding filter
filter_budget p m bps e = elim (Bool-cases p.leaving) [
  | inl out ↦
      rw (out, egress_rl-maps p.now p.len m, ← e) (spend_budget bps p.now p.len m.upload_state)
  | inr incoming ↦ rw (incoming, ingress_rl-maps p.now p.len m) (omega arith)
]

-- Whatever the traffic in both directions, from any state of the maps and in any order of the
-- readings of the clock, the egress bytes that pass are paid for by the tokens at the start, the time
-- from the last update at the start to the last update at the end at the rate of the limit, and the
-- rate times the lateness: for each egress packet whose reading lies before the last update, a second
-- and the time that it lies before it.
pub uploaded-le :
    (ps : List Packet) (m : Maps) (bps : ℕ)
    → bps ≡ limit_bps m.upload_limit
    → uploaded ps m * 1000000000
        + (after ps m).upload_state.tokens * 1000000000
        + bps * m.upload_state.last_update_ns
      ≤ m.upload_state.tokens * 1000000000
        + bps * (after ps m).upload_state.last_update_ns
        + bps * late_ns ps m
unfolding uploaded after late_ns
uploaded-le [] m bps e = omega arith
uploaded-le (p ∷ ps) m bps e =
    let e' = e ∙ ap limit_bps (sym (filter-upload_limit p m)) in
    omega (arith, filter_budget p m bps e, uploaded-le ps (filter p m).0 bps e')

lateness_of_order : (now last : ℕ) → last ≤ now → lateness now last ≡ 0
unfolding lateness
lateness_of_order now last h = ground arith

filter-last_update :
    (p : Packet) (t : ℕ) (m : Maps)
    → m.upload_state.last_update_ns ≤ t
    → t ≤ p.now
    → ((if p.leaving then lateness p.now m.upload_state.last_update_ns else 0) ≡ 0)
      × ((filter p m).0.upload_state.last_update_ns ≤ p.now)
unfolding filter
filter-last_update p t m h k = elim (Bool-cases p.leaving) [
  | inl out ↦
      let last = (spend_split (limit_bps m.upload_limit) p.now p.len m.upload_state).0 in
      rw (out, egress_rl-maps p.now p.len m)
        (lateness_of_order p.now m.upload_state.last_update_ns (omega arith), omega (arith, last))
  | inr incoming ↦ rw (incoming, ingress_rl-maps p.now p.len m) (refl, omega arith)
]

-- Readings that come in the order of the updates are never late.
pub late_ns_of_Ordered :
    (ps : List Packet) (t : ℕ) (m : Maps)
    → m.upload_state.last_update_ns ≤ t
    → Ordered t ps
    → late_ns ps m ≡ 0
unfolding late_ns
late_ns_of_Ordered [] t m h o = refl
late_ns_of_Ordered (p ∷ ps) t m h (k, o) =
    let (none_late, next) = filter-last_update p t m h k in
    omega (arith, none_late, late_ns_of_Ordered ps p.now (filter p m).0 next o)

-- Whatever the traffic in both directions, from any state of the maps: where the readings of the clock are
-- in the order in which the packets take the lock, and the first is not before the last update, the
-- egress bytes that pass are paid for by the tokens at the start and the time from that update to the
-- last one, at the rate of the limit.
pub uploaded-le_of_Ordered :
    (ps : List Packet) (m : Maps) (bps : ℕ)
    → bps ≡ limit_bps m.upload_limit
    → Ordered m.upload_state.last_update_ns ps
    → uploaded ps m * 1000000000
        + (after ps m).upload_state.tokens * 1000000000
        + bps * m.upload_state.last_update_ns
      ≤ m.upload_state.tokens * 1000000000 + bps * (after ps m).upload_state.last_update_ns
uploaded-le_of_Ordered ps m bps e o =
    let in_time = late_ns_of_Ordered ps m.upload_state.last_update_ns m (le_refl _) o in
    omega (arith, ap (λ (n : ℕ). bps * n) in_time, uploaded-le ps m bps e)
