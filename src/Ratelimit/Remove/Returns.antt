-- ===== src/Ratelimit/Remove/Returns.antt =====
-- lib/src/ratelimit.c: the outcome of `delete_pid_cgroup` and its caller.
use pidnl.Base.{ℕ, ℤ, pos, negsuc, is_zero, not, none, some}
use pidnl.System.{M, Call}
use pidnl.System.Returns.{Condition, Returns, bind-Returns, if-Returns, pure-Returns, call-Returns}
use pidnl.Monitor.Codes.{MonitorCode, cmd_unwatch}
use pidnl.Ratelimit.Names.{build_cgroup_name}
use pidnl.Ratelimit.Codes.{ratelimit_ok, cgroup_not_found}
use pidnl.Ratelimit.Mounts.Returns.{open_cgroup_fd-Returns}
use pidnl.Ratelimit.Cgroups.Returns.{delete_cgroup-Returns}
use pidnl.Ratelimit.Remove.{missing, delete_pid_cgroup, unregister_rate_limiter_by_pid}

module _ (P : Condition) where
  missing-Returns : (cg : ℕ) → Returns P (missing cg)
  missing-Returns cg =
      bind-Returns P (call-Returns P (Call.cgroup_free cg)) λ _. pure-Returns P cgroup_not_found

  pub delete_pid_cgroup-Returns : (pid : ℤ) → Returns P (delete_pid_cgroup pid)
  unfolding delete_pid_cgroup
  delete_pid_cgroup-Returns pid =
      let name = build_cgroup_name pid 64 in
      bind-Returns P (call-Returns P (Call.cgroup_new_cgroup name)) (elim [
        | none ↦ pure-Returns P _
        | some cg ↦ bind-Returns P (call-Returns P (Call.cgroup_get_cgroup cg)) λ read.
            if-Returns P (not (is_zero read)) (λ _. (missing-Returns cg))
              λ _. bind-Returns P (open_cgroup_fd-Returns P name) (elim [
                | pos fd ↦
                    bind-Returns P (delete_cgroup-Returns P (some cg) (pos fd) pid)
                      λ _. pure-Returns P ratelimit_ok
                | negsuc n ↦ (missing-Returns cg)
              ])
      ])

  pub unregister_rate_limiter_by_pid-Returns :
      (send : ℤ → ℤ → M MonitorCode) (pid : ℤ)
      → Returns P (send cmd_unwatch pid)
      → Returns P (unregister_rate_limiter_by_pid send pid)
  unfolding unregister_rate_limiter_by_pid
  unregister_rate_limiter_by_pid-Returns send pid u =
      bind-Returns P u λ _. delete_pid_cgroup-Returns pid
