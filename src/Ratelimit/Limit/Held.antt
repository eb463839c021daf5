-- ===== src/Ratelimit/Limit/Held.antt =====
-- lib/src/ratelimit.c: the resources of `limit_process_bandwidth`.
use pidnl.Base.{ℕ, ℤ, pos, negsuc, ◌+◌, is_pos, is_zero, not, Text, none, some, arith}
use pidnl.System.{M, call, Call}
use pidnl.System.Ledger.{
  Resource, group, descriptor, block, skeleton, tally, fd_tally, Uses, bind-Uses, last-Uses,
  if-Uses, pure-Uses, call-Uses,
}
use pidnl.Monitor.Codes.{MonitorCode, cmd_watch}
use pidnl.Ratelimit.Names.{path_max, cgroup_name, build_cgroup_name}
use pidnl.Ratelimit.Codes.{
  RatelimitCode, ratelimit_ok, alloc, open_cgroup, libcg_attach, RateLimitConfig, failure, success,
}
use pidnl.Ratelimit.Mounts.Held.{open_cgroup_fd-Uses}
use pidnl.Ratelimit.Cgroups.Held.{
  create_cgroup-Uses, create_pin_dir-Uses, detach_pinned_links-Uses, delete_cgroup-Uses,
}
use pidnl.Ratelimit.Attach.Held.{skel_tally, attach_bpf_programs-Uses}
use pidnl.Ratelimit.Limit.{
  close_rate_limiter_handle, abandon_child, install, equip, enter, limit_process_bandwidth,
}

module _ (r : Resource) where
  abandon_child-Uses :
      (parent child : ℕ) (cgroup_fd pid : ℤ) (code : RatelimitCode)
      → Uses r
          (tally r (group parent) + (tally r (group child) + fd_tally r cgroup_fd))
          (abandon_child parent child cgroup_fd pid code)
          (λ _. 0)
  unfolding abandon_child
  abandon_child-Uses parent child cgroup_fd pid code =
      bind-Uses r (tally r (group parent)) (delete_cgroup-Uses r (some child) cgroup_fd pid)
        (omega arith)
        λ _.
          bind-Uses r 0 (call-Uses r (Call.cgroup_free parent)) (omega arith)
            λ _. pure-Uses r code (omega arith)

  install-Uses :
      (pid cgroup_fd : ℤ) (config : RateLimitConfig)
      → Uses r 0 (install pid cgroup_fd config) (skel_tally r)
  unfolding install
  install-Uses pid cgroup_fd config =
      bind-Uses r 0 (create_pin_dir-Uses r pid path_max) (omega arith) (elim [
        | failure code ↦ pure-Uses r (failure code) (omega arith)
        | success pin_dir ↦ attach_bpf_programs-Uses r cgroup_fd pin_dir config
      ])

  -- The handle takes over the skeleton, the group, the descriptor and its own block.
  close_rate_limiter_handle-Uses :
      (address cg skel fd : ℕ)
      → Uses r
          (tally r (block address)
            + (tally r (group cg) + (tally r (skeleton skel) + tally r (descriptor (pos fd)))))
          (close_rate_limiter_handle (
            some
              (record { address = address; cg = some cg; skel = some skel; cgroup_fd = pos fd })))
          (λ _. 0)
  unfolding close_rate_limiter_handle call
  close_rate_limiter_handle-Uses address cg skel fd = record { apply = λ p. omega arith }

  module _ (send : ℤ → ℤ → M MonitorCode)
      (u : (cmd pid : ℤ) → Uses r 0 (send cmd pid) (λ _. 0)) where
    equip-Uses :
        (parent child fd : ℕ) (pid : ℤ) (config : RateLimitConfig)
        → Uses r
            (tally r (group parent) + (tally r (group child) + tally r (descriptor (pos fd))))
            (equip send parent child (pos fd) pid config)
            (λ _. 0)
    unfolding equip
    equip-Uses parent child fd pid config =
        let own =
          tally r (group parent) + (tally r (group child) + tally r (descriptor (pos fd))) in
        bind-Uses r own (call-Uses r Call.calloc) (omega arith) (elim [
          | none ↦
              last-Uses r 0 (abandon_child-Uses parent child (pos fd) pid alloc) (omega arith)
                (λ a. omega arith)
          | some address ↦
              let all = own + tally r (block address) in
              bind-Uses r all (detach_pinned_links-Uses r pid) (omega arith) λ _.
                bind-Uses r all (install-Uses pid (pos fd) config) (omega arith) (elim [
                  | failure code ↦
                      bind-Uses r (tally r (group parent) + tally r (block address))
                        (delete_cgroup-Uses r (some child) (pos fd) pid) (omega arith)
                        λ _.
                          bind-Uses r (tally r (block address))
                            (call-Uses r (Call.cgroup_free parent)) (omega arith)
                            λ _.
                              bind-Uses r 0 (call-Uses r (Call.free address)) (omega arith)
                                λ _. pure-Uses r code (omega arith)
                  | success skel ↦
                      let rest =
                        tally r (block address)
                        + (tally r (group child)
                            + (tally r (skeleton skel) + tally r (descriptor (pos fd)))) in
                      bind-Uses r rest (call-Uses r (Call.cgroup_free parent)) (omega arith) λ _.
                        bind-Uses r 0 (close_rate_limiter_handle-Uses address child skel fd)
                          (omega arith)
                          λ _.
                            bind-Uses r 0 (u cmd_watch pid) (omega arith)
                              λ _. pure-Uses r ratelimit_ok (omega arith)
                ])
        ])

    enter-Uses :
        (parent child : ℕ) (name : Text) (pid : ℤ) (config : RateLimitConfig)
        → Uses r
            (tally r (group parent) + tally r (group child))
            (enter send parent child name pid config)
            (λ _. 0)
    unfolding enter
    enter-Uses parent child name pid config =
        let own = tally r (group parent) + tally r (group child) in
        bind-Uses r own (call-Uses r (Call.cgroup_attach_task_pid child pid)) (omega arith)
          λ attached.
            if-Uses r (not (is_zero attached))
              (λ _.
                last-Uses r 0 (abandon_child-Uses parent child (negsuc 0) pid libcg_attach)
                  (omega arith) (λ a. omega arith))
              λ _. bind-Uses r own (open_cgroup_fd-Uses r name) (omega arith) (elim [
                | pos fd ↦
                    last-Uses r 0 (equip-Uses parent child fd pid config) (omega arith)
                      (λ a. omega arith)
                | negsuc n ↦
                    last-Uses r 0 (abandon_child-Uses parent child (negsuc 0) pid open_cgroup)
                      (omega arith) (λ a. omega arith)
              ])

    pub limit_process_bandwidth-Uses :
        (pid : ℤ) (config : RateLimitConfig)
        → Uses r 0 (limit_process_bandwidth send pid config) (λ _. 0)
    unfolding limit_process_bandwidth
    limit_process_bandwidth-Uses pid config =
        let name = build_cgroup_name pid 64 in
        if-Uses r (not (is_pos pid)) (λ _. pure-Uses r _ (omega arith))
          λ _. bind-Uses r 0 (create_cgroup-Uses r cgroup_name) (omega arith) (elim [
            | failure code ↦ pure-Uses r code (omega arith)
            | success parent ↦
                bind-Uses r (tally r (group parent)) (create_cgroup-Uses r name) (omega arith)
                  (elim [
                    | failure code ↦
                        bind-Uses r 0 (call-Uses r (Call.cgroup_free parent)) (omega arith)
                          λ _. pure-Uses r code (omega arith)
                    | success child ↦
                        last-Uses r 0 (enter-Uses parent child name pid config) (omega arith)
                          (λ a. omega arith)
                  ])
          ])
