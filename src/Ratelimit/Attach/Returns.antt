-- ===== src/Ratelimit/Attach/Returns.antt =====
-- lib/src/ratelimit.c: the outcome of `attach_bpf_programs`.
use pidnl.Base.{ℕ, ℤ, is_zero, not, Text, List, [], ◌∷◌, ◌++◌, none, some, ◌==◌, arith, snprintf}
use pidnl.System.{call, Call}
use pidnl.System.Returns.{Condition, Returns, bind-Returns, if-Returns, pure-Returns, call-Returns}
use pidnl.Ratelimit.Names.{path_max, slash, unlimited}
use pidnl.Ratelimit.Codes.{RatelimitCode, bpf_load, bpf_pin, bpf_link, RateLimitConfig, success}
use pidnl.Ratelimit.Attach.{Direction, directions, abandon, attach_directions, attach_bpf_programs}

module _ (P : Condition) where
  abandon-Returns : (skel : ℕ) (code : RatelimitCode) → Returns P (abandon skel code)
  unfolding abandon call
  abandon-Returns skel code = record { apply = λ p h. ground arith }

  -- A link is let go as soon as it is pinned.
  attach_directions-Returns :
      (skel : ℕ) (map_fd cgroup_fd : ℤ) (pin_dir : Text) (ds : List Direction)
      → Returns P (attach_directions skel map_fd cgroup_fd pin_dir ds)
  unfolding attach_directions
  attach_directions-Returns skel map_fd cgroup_fd pin_dir [] = pure-Returns P (success skel)
  attach_directions-Returns skel map_fd cgroup_fd pin_dir (d ∷ ds) =
      let next = attach_directions-Returns skel map_fd cgroup_fd pin_dir ds in
      let path = snprintf path_max (pin_dir ++ (slash ++ d.pin_name)) in
      if-Returns P (d.limit_kbps == unlimited) (λ _. next)
        λ _.
          bind-Returns P (call-Returns P (Call.bpf_map_update_elem map_fd d.direction d.limit_kbps))
            λ updated.
              if-Returns P (not (is_zero updated)) (λ _. (abandon-Returns skel bpf_load))
                λ _.
                  bind-Returns P
                    (call-Returns P (Call.bpf_program_attach_cgroup skel d.prog cgroup_fd))
                    (elim [
                      | none ↦ (abandon-Returns skel bpf_link)
                      | some l ↦ bind-Returns P (call-Returns P (Call.bpf_link_pin l path)) λ ret.
                          bind-Returns P (call-Returns P (Call.bpf_link_destroy l)) λ _.
                            if-Returns P (is_zero ret) (λ _. next)
                              (λ _. (abandon-Returns skel bpf_pin))
                    ])

  pub attach_bpf_programs-Returns :
      (cgroup_fd : ℤ) (pin_dir : Text) (config : RateLimitConfig)
      → Returns P (attach_bpf_programs cgroup_fd pin_dir config)
  unfolding attach_bpf_programs
  attach_bpf_programs-Returns cgroup_fd pin_dir config =
      bind-Returns P (call-Returns P Call.ratelimit_bpf_open) (elim [
        | none ↦ pure-Returns P _
        | some skel ↦ bind-Returns P (call-Returns P (Call.ratelimit_bpf_load skel)) λ loaded.
            if-Returns P (not (is_zero loaded)) (λ _. (abandon-Returns skel bpf_load))
              λ _. bind-Returns P (call-Returns P (Call.bpf_map_fd skel)) λ map_fd.
                (attach_directions-Returns skel map_fd cgroup_fd pin_dir (directions config))
      ])
