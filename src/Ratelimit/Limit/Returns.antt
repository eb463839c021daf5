-- ===== src/Ratelimit/Limit/Returns.antt =====
-- lib/src/ratelimit.c: the outcome of `limit_process_bandwidth`.
use pidnl.Base.{ℕ, ℤ, pos, negsuc, is_pos, is_zero, not, Text, none, some, arith}
use pidnl.System.{M, call, Call}
use pidnl.System.Returns.{Condition, Returns, bind-Returns, if-Returns, pure-Returns, call-Returns}
use pidnl.Monitor.Codes.{MonitorCode, cmd_watch}
use pidnl.Ratelimit.Names.{path_max, cgroup_name, build_cgroup_name}
use pidnl.Ratelimit.Codes.{
  RatelimitCode, ratelimit_ok, alloc, open_cgroup, libcg_attach, RateLimitConfig, failure, success,
}
use pidnl.Ratelimit.Mounts.Returns.{open_cgroup_fd-Returns}
use pidnl.Ratelimit.Cgroups.Returns.{
  create_cgroup-Returns, create_pin_dir-Returns, detach_pinned_links-Returns, delete_cgroup-Returns,
}
use pidnl.Ratelimit.Attach.Returns.{attach_bpf_programs-Returns}
use pidnl.Ratelimit.Limit.{
  close_rate_limiter_handle, abandon_child, install, equip, enter, limit_process_bandwidth,
}

module _ (P : Condition) where
  abandon_child-Returns :
      (parent child : ℕ) (cgroup_fd pid : ℤ) (code : RatelimitCode)
      → Returns P (abandon_child parent child cgroup_fd pid code)
  unfolding abandon_child
  abandon_child-Returns parent child cgroup_fd pid code =
      bind-Returns P (delete_cgroup-Returns P (some child) cgroup_fd pid)
        λ _. bind-Returns P (call-Returns P (Call.cgroup_free parent)) λ _. pure-Returns P code

  install-Returns :
      (pid cgroup_fd : ℤ) (config : RateLimitConfig) → Returns P (install pid cgroup_fd config)
  unfolding install
  install-Returns pid cgroup_fd config =
      bind-Returns P (create_pin_dir-Returns P pid path_max) (elim [
        | failure code ↦ pure-Returns P (failure code)
        | success pin_dir ↦ attach_bpf_programs-Returns P cgroup_fd pin_dir config
      ])

  -- The handle takes over the skeleton, the group, the descriptor and its own block.
  close_rate_limiter_handle-Returns :
      (address cg skel fd : ℕ)
      → Returns P (
          close_rate_limiter_handle (
            some
              (record { address = address; cg = some cg; skel = some skel; cgroup_fd = pos fd })))
  unfolding close_rate_limiter_handle call
  close_rate_limiter_handle-Returns address cg skel fd = record { apply = λ p h. ground arith }

  module _ (send : ℤ → ℤ → M MonitorCode) (u : (cmd pid : ℤ) → Returns P (send cmd pid)) where
    equip-Returns :
        (parent child fd : ℕ) (pid : ℤ) (config : RateLimitConfig)
        → Returns P (equip send parent child (pos fd) pid config)
    unfolding equip
    equip-Returns parent child fd pid config = bind-Returns P (call-Returns P Call.calloc) (elim [
      | none ↦ (abandon_child-Returns parent child (pos fd) pid alloc)
      | some address ↦ bind-Returns P (detach_pinned_links-Returns P pid) λ _.
          bind-Returns P (install-Returns pid (pos fd) config) (elim [
            | failure code ↦ bind-Returns P (delete_cgroup-Returns P (some child) (pos fd) pid) λ _.
                bind-Returns P (call-Returns P (Call.cgroup_free parent))
                  λ _. bind-Returns P (call-Returns P (Call.free address)) λ _. pure-Returns P code
            | success skel ↦ bind-Returns P (call-Returns P (Call.cgroup_free parent)) λ _.
                bind-Returns P (close_rate_limiter_handle-Returns address child skel fd)
                  λ _. bind-Returns P (u cmd_watch pid) λ _. pure-Returns P ratelimit_ok
          ])
    ])

    enter-Returns :
        (parent child : ℕ) (name : Text) (pid : ℤ) (config : RateLimitConfig)
        → Returns P (enter send parent child name pid config)
    unfolding enter
    enter-Returns parent child name pid config =
        bind-Returns P (call-Returns P (Call.cgroup_attach_task_pid child pid)) λ attached.
          if-Returns P (not (is_zero attached))
            (λ _. (abandon_child-Returns parent child (negsuc 0) pid libcg_attach))
            λ _. bind-Returns P (open_cgroup_fd-Returns P name) (elim [
              | pos fd ↦ (equip-Returns parent child fd pid config)
              | negsuc n ↦ (abandon_child-Returns parent child (negsuc 0) pid open_cgroup)
            ])

    pub limit_process_bandwidth-Returns :
        (pid : ℤ) (config : RateLimitConfig) → Returns P (limit_process_bandwidth send pid config)
    unfolding limit_process_bandwidth
    limit_process_bandwidth-Returns pid config =
        let name = build_cgroup_name pid 64 in
        if-Returns P (not (is_pos pid)) (λ _. pure-Returns P _)
          λ _. bind-Returns P (create_cgroup-Returns P cgroup_name) (elim [
            | failure code ↦ pure-Returns P code
            | success parent ↦ bind-Returns P (create_cgroup-Returns P name) (elim [
              | failure code ↦
                  bind-Returns P (call-Returns P (Call.cgroup_free parent)) λ _. pure-Returns P code
              | success child ↦ (enter-Returns parent child name pid config)
            ])
          ])
