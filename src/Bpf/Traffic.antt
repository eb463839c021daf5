-- ===== src/Bpf/Traffic.antt =====
-- lib/src/ratelimit.bpf.c: a sequence of packets through the two programs, which share their maps.
-- The packets stand in the order in which their calls hold the spin lock, and `now` is the reading of
-- `bpf_ktime_get_ns` that a call took before it. The readings may be in another order: another CPU may
-- read the clock later and take the lock first.
use pidnl.Base.{ℕ, ◌+◌, ◌-◌, ◌≤◌, ltb, Bool, true, false, List, [], ◌∷◌, if◌then◌else◌}
use pidnl.Bpf.{Maps, egress_rl, ingress_rl}

pub record Packet : Type 0 where
  pub leaving : Bool
  pub now : ℕ
  pub len : ℕ

unfoldable pub filter : Packet → Maps → Maps × Bool
filter p m = if p.leaving then egress_rl p.now p.len m else ingress_rl p.now p.len m

-- The maps after all packets.
unfoldable pub after : List Packet → Maps → Maps
after [] m = m
after (p ∷ ps) m = after ps (filter p m).0

abbrev pub counted : Bool → ℕ → ℕ
counted true len = len
counted false len = 0

-- The bytes of the egress packets that were let through.
unfoldable pub uploaded : List Packet → Maps → ℕ
uploaded [] m = 0
uploaded (p ∷ ps) m =
    (if p.leaving then counted (filter p m).1 p.len else 0) + uploaded ps (filter p m).0

-- What a reading before the last update is given: the difference wraps around, so a second, and the
-- time that the bucket's clock goes back.
unfoldable pub lateness : ℕ → ℕ → ℕ
lateness now last = if ltb now last then 1000000000 + (last - now) else 0

-- The lateness of all egress packets.
unfoldable pub late_ns : List Packet → Maps → ℕ
late_ns [] m = 0
late_ns (p ∷ ps) m =
    (if p.leaving then lateness p.now m.upload_state.last_update_ns else 0)
    + late_ns ps (filter p m).0

-- The readings are in the order of the lock, from the time `t` on.
abbrev pub Ordered : ℕ → List Packet → Type 0
Ordered t [] = Unit
Ordered t (p ∷ ps) = (t ≤ p.now) × Ordered p.now ps
