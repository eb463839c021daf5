-- ===== src/Ratelimit/Attach/Pinned.antt =====
-- lib/src/ratelimit.c: the pins of `attach_bpf_programs`.
use pidnl.Base.{
  ℕ, suc, ◌+◌, ◌≡◌, refl, ℤ, is_zero, not, Bool, true, false, Bool-cases, inl, inr, Text, List, [],
  ◌∷◌, ◌++◌, none, some, ◌==◌, if◌then◌else◌, snprintf, arith,
}
use pidnl.System.{
  Process, Outcome, done, exited, running, M, pure, ◌>>=◌, call, Call, Answer, event, Trace,
}
use pidnl.Ratelimit.Names.{path_max, slash, unlimited}
use pidnl.Ratelimit.Codes.{
  RatelimitCode, bpf_open, bpf_load, bpf_pin, bpf_link, RateLimitConfig, Fallible, failure, success,
}
use pidnl.Ratelimit.Attach.{Direction, directions, abandon, attach_directions, attach_bpf_programs}

-- 1 for a link that has been pinned.
unfoldable pub pinned : (c : Call) → Answer c → ℕ
pinned (Call.bpf_link_pin link path) ret = if is_zero ret then 1 else 0
pinned _ a = 0

unfoldable pub pins : Trace → ℕ
unfolding pinned
pins [] = 0
pins (event c a ∷ t) = pinned c a + pins t

-- Has succeeded with `n` more pins, or has not succeeded.
Pinned : ℕ → Process → Outcome (Fallible ℕ) × Process → Type 0
Pinned n p (done (success skel), p') = pins p'.trace ≡ n + pins p.trace
Pinned n p _ = Unit

record Pins (n : ℕ) (m : M (Fallible ℕ)) : Type 0 where
  apply : (p : Process) → Pinned n p (m p)

later-Pinned :
    (k n w : ℕ) (p q : Process) (o : Outcome (Fallible ℕ) × Process)
    → n ≡ w + k
    → pins q.trace ≡ w + pins p.trace
    → Pinned k q o
    → Pinned n p o
unfolding Pinned
later-Pinned k n w p q (done (success skel), p') e h s = omega arith
later-Pinned k n w p q (done (failure code), p') e h s = tt
later-Pinned k n w p q (exited m, p') e h s = tt
later-Pinned k n w p q (running, p') e h s = tt

-- A call, and what is left to be pinned behind it.
call-Pins :
    (c : Call) (f : Answer c → M (Fallible ℕ)) (n : ℕ) (rest : Answer c → ℕ)
    → ((a : Answer c) → n ≡ pinned c a + rest a)
    → ((a : Answer c) → Pins (rest a) (f a))
    → Pins n (call c >>= f)
unfolding call pins
call-Pins c f n rest e u = record {
  apply = λ p.
      let a = p.env p.trace c in
      let q : Process = record p { trace = event c a ∷ p.trace } in
      later-Pinned (rest a) n (pinned c a) p q (f a q) (e a) refl ((u a).apply q);
}

if-Pins :
    {m m' : M (Fallible ℕ)} (n : ℕ) (b : Bool)
    → (b ≡ true → Pins n m)
    → (b ≡ false → Pins n m')
    → Pins n (if b then m else m')
if-Pins n true u v = u refl
if-Pins n false u v = v refl

abandon-Pins : (n skel : ℕ) (code : RatelimitCode) → Pins n (abandon skel code)
unfolding abandon call Pinned
abandon-Pins n skel code = record { apply = λ p. tt }

failed-Pins : (n : ℕ) (code : RatelimitCode) → Pins n (pure (failure code))
unfolding Pinned
failed-Pins n code = record { apply = λ p. tt }

-- The directions that have a limit.
limited : List Direction → ℕ
limited [] = 0
limited (d ∷ ds) = let rest = limited ds in if d.limit_kbps == unlimited then rest else suc rest

pin-Pins :
    (skel l : ℕ) (path : Text) (next : M (Fallible ℕ)) (n : ℕ)
    → Pins n next
    → Pins (suc n) (
        call (Call.bpf_link_pin l path) >>= (λ ret.
          call (Call.bpf_link_destroy l)
          >>= (λ _. if is_zero ret then next else abandon skel bpf_pin)))
unfolding pinned
pin-Pins skel l path next n u =
    call-Pins (Call.bpf_link_pin l path) _ (suc n) (λ ret. if is_zero ret then n else suc n)
      (λ ret. ground arith)
      λ ret.
        call-Pins (Call.bpf_link_destroy l) _ (if is_zero ret then n else suc n)
          (λ _. if is_zero ret then n else suc n) (λ a. omega arith)
          λ _. elim (Bool-cases (is_zero ret)) [
            | inl ok ↦ rw (ok) u
            | inr fails ↦ rw (fails) (abandon-Pins (suc n) skel bpf_pin)
          ]

nothing-Pins : (skel : ℕ) → Pins 0 (pure (success skel))
unfolding Pinned
nothing-Pins skel = record { apply = λ p. omega arith }

attach_directions-Pins :
    (skel : ℕ) (map_fd cgroup_fd : ℤ) (pin_dir : Text) (ds : List Direction)
    → Pins (limited ds) (attach_directions skel map_fd cgroup_fd pin_dir ds)
unfolding attach_directions limited pinned
attach_directions-Pins skel map_fd cgroup_fd pin_dir [] = nothing-Pins skel
attach_directions-Pins skel map_fd cgroup_fd pin_dir (d ∷ ds) =
    let next = attach_directions-Pins skel map_fd cgroup_fd pin_dir ds in
    let path = snprintf path_max (pin_dir ++ (slash ++ d.pin_name)) in
    elim (Bool-cases (d.limit_kbps == unlimited)) [
      | inl no_limit ↦ rw (no_limit) next
      | inr has_limit ↦ rw (has_limit) (
          call-Pins (Call.bpf_map_update_elem map_fd d.direction d.limit_kbps) _ (suc (limited ds))
            (λ _. suc (limited ds)) (λ _. omega arith)
            λ updated.
              if-Pins (suc (limited ds)) (not (is_zero updated))
                (λ _. abandon-Pins (suc (limited ds)) skel bpf_load)
                λ _.
                  call-Pins (Call.bpf_program_attach_cgroup skel d.prog cgroup_fd) _
                    (suc (limited ds)) (λ _. suc (limited ds)) (λ _. omega arith)
                    (elim [
                      | none ↦ abandon-Pins (suc (limited ds)) skel bpf_link
                      | some l ↦ pin-Pins skel l path _ (limited ds) next
                    ]))
    ]

attach-Pins :
    (cgroup_fd : ℤ) (pin_dir : Text) (config : RateLimitConfig)
    → Pins (limited (directions config)) (attach_bpf_programs cgroup_fd pin_dir config)
unfolding attach_bpf_programs pinned
attach-Pins cgroup_fd pin_dir config =
    let n = limited (directions config) in
    call-Pins Call.ratelimit_bpf_open _ n (λ _. n) (λ _. omega arith)
      (elim [
        | none ↦ failed-Pins n bpf_open
        | some skel ↦
            call-Pins (Call.ratelimit_bpf_load skel) _ n (λ _. n) (λ _. omega arith)
              λ loaded.
                if-Pins n (not (is_zero loaded)) (λ _. abandon-Pins n skel bpf_load)
                  λ _.
                    call-Pins (Call.bpf_map_fd skel) _ n (λ _. n) (λ _. omega arith)
                      λ map_fd.
                        attach_directions-Pins skel map_fd cgroup_fd pin_dir (directions config)
      ])

-- 1 for a limit.
abbrev pub limit_count : ℕ → ℕ
limit_count kbps = if kbps == unlimited then 0 else 1

limited-directions :
    (config : RateLimitConfig)
    → limited (directions config)
      ≡ limit_count config.upload_kbps + limit_count config.download_kbps
unfolding limited directions
limited-directions config = ground arith

-- Where the function succeeds it has pinned one link more for each direction with a limit, and none
-- for a direction without one.
pub attach_bpf_programs-pins :
    (cgroup_fd : ℤ) (pin_dir : Text) (config : RateLimitConfig) (p q : Process) (skel : ℕ)
    → attach_bpf_programs cgroup_fd pin_dir config p ≡ (done (success skel), q)
    → pins q.trace
      ≡ limit_count config.upload_kbps + limit_count config.download_kbps + pins p.trace
unfolding Pinned
attach_bpf_programs-pins cgroup_fd pin_dir config p q skel h =
    let s = rw h at ((attach-Pins cgroup_fd pin_dir config).apply p) in
    omega (arith, s, limited-directions config)
