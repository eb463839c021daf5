-- ===== src/Ratelimit/Attach/Held.antt =====
-- lib/src/ratelimit.c: the resources of `attach_bpf_programs`.
use pidnl.Base.{
  ℕ, ℤ, ◌+◌, is_zero, not, Text, List, [], ◌∷◌, ◌++◌, none, some, ◌==◌, arith, snprintf,
}
use pidnl.System.{call, Call}
use pidnl.System.Ledger.{
  Resource, skeleton, link, tally, Uses, bind-Uses, last-Uses, if-Uses, pure-Uses, call-Uses,
}
use pidnl.Ratelimit.Names.{path_max, slash, unlimited}
use pidnl.Ratelimit.Codes.{
  RatelimitCode, bpf_load, bpf_pin, bpf_link, RateLimitConfig, Fallible, failure, success,
}
use pidnl.Ratelimit.Attach.{Direction, directions, abandon, attach_directions, attach_bpf_programs}

abbrev pub skel_tally : Resource → Fallible ℕ → ℕ
skel_tally r (failure code) = 0
skel_tally r (success skel) = tally r (skeleton skel)

module _ (r : Resource) where
  abandon-Uses :
      (skel : ℕ) (code : RatelimitCode)
      → Uses r (tally r (skeleton skel)) (abandon skel code) (skel_tally r)
  unfolding abandon call
  abandon-Uses skel code = record { apply = λ p. omega arith }

  -- A link is let go as soon as it is pinned.
  attach_directions-Uses :
      (skel : ℕ) (map_fd cgroup_fd : ℤ) (pin_dir : Text) (ds : List Direction)
      → Uses r
          (tally r (skeleton skel))
          (attach_directions skel map_fd cgroup_fd pin_dir ds)
          (skel_tally r)
  unfolding attach_directions
  attach_directions-Uses skel map_fd cgroup_fd pin_dir [] = pure-Uses r (success skel) (omega arith)
  attach_directions-Uses skel map_fd cgroup_fd pin_dir (d ∷ ds) =
      let next = attach_directions-Uses skel map_fd cgroup_fd pin_dir ds in
      let own = tally r (skeleton skel) in
      let path = snprintf path_max (pin_dir ++ (slash ++ d.pin_name)) in
      if-Uses r (d.limit_kbps == unlimited) (λ _. next)
        λ _.
          bind-Uses r own (call-Uses r (Call.bpf_map_update_elem map_fd d.direction d.limit_kbps))
            (omega arith)
            λ updated.
              if-Uses r (not (is_zero updated))
                (λ _. last-Uses r 0 (abandon-Uses skel bpf_load) (omega arith) (λ a. omega arith))
                λ _.
                  bind-Uses r own
                    (call-Uses r (Call.bpf_program_attach_cgroup skel d.prog cgroup_fd))
                    (omega arith)
                    (elim [
                      | none ↦
                          last-Uses r 0 (abandon-Uses skel bpf_link) (omega arith)
                            (λ a. omega arith)
                      | some l ↦
                          bind-Uses r (own + tally r (link l))
                            (call-Uses r (Call.bpf_link_pin l path)) (omega arith)
                            λ ret.
                              bind-Uses r own (call-Uses r (Call.bpf_link_destroy l)) (omega arith)
                                λ _.
                                  if-Uses r (is_zero ret)
                                    (λ _. last-Uses r 0 next (omega arith) (λ a. omega arith))
                                    (λ _.
                                      last-Uses r 0 (abandon-Uses skel bpf_pin) (omega arith)
                                        (λ a. omega arith))
                    ])

  pub attach_bpf_programs-Uses :
      (cgroup_fd : ℤ) (pin_dir : Text) (config : RateLimitConfig)
      → Uses r 0 (attach_bpf_programs cgroup_fd pin_dir config) (skel_tally r)
  unfolding attach_bpf_programs
  attach_bpf_programs-Uses cgroup_fd pin_dir config =
      bind-Uses r 0 (call-Uses r Call.ratelimit_bpf_open) (omega arith) (elim [
        | none ↦ pure-Uses r _ (omega arith)
        | some skel ↦
            let own = tally r (skeleton skel) in
            bind-Uses r own (call-Uses r (Call.ratelimit_bpf_load skel)) (omega arith) λ loaded.
              if-Uses r (not (is_zero loaded))
                (λ _. last-Uses r 0 (abandon-Uses skel bpf_load) (omega arith) (λ a. omega arith))
                λ _. bind-Uses r own (call-Uses r (Call.bpf_map_fd skel)) (omega arith) λ map_fd.
                  last-Uses r 0
                    (attach_directions-Uses skel map_fd cgroup_fd pin_dir (directions config))
                    (omega arith) (λ a. omega arith)
      ])
