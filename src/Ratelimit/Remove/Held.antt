-- ===== src/Ratelimit/Remove/Held.antt =====
-- lib/src/ratelimit.c: the resources of `delete_pid_cgroup` and its caller.
use pidnl.Base.{ℕ, ℤ, pos, negsuc, is_zero, not, none, some, arith}
use pidnl.System.{M, Call}
use pidnl.System.Ledger.{
  Resource, group, tally, Uses, bind-Uses, last-Uses, if-Uses, pure-Uses, call-Uses,
}
use pidnl.Monitor.Codes.{MonitorCode, cmd_unwatch}
use pidnl.Ratelimit.Names.{build_cgroup_name}
use pidnl.Ratelimit.Codes.{ratelimit_ok, cgroup_not_found}
use pidnl.Ratelimit.Mounts.Held.{open_cgroup_fd-Uses}
use pidnl.Ratelimit.Cgroups.Held.{delete_cgroup-Uses}
use pidnl.Ratelimit.Remove.{missing, delete_pid_cgroup, unregister_rate_limiter_by_pid}

module _ (r : Resource) where
  missing-Uses : (cg : ℕ) → Uses r (tally r (group cg)) (missing cg) (λ _. 0)
  missing-Uses cg =
      bind-Uses r 0 (call-Uses r (Call.cgroup_free cg)) (omega arith)
        λ _. pure-Uses r cgroup_not_found (omega arith)

  pub delete_pid_cgroup-Uses : (pid : ℤ) → Uses r 0 (delete_pid_cgroup pid) (λ _. 0)
  unfolding delete_pid_cgroup
  delete_pid_cgroup-Uses pid =
      let name = build_cgroup_name pid 64 in
      bind-Uses r 0 (call-Uses r (Call.cgroup_new_cgroup name)) (omega arith) (elim [
        | none ↦ pure-Uses r _ (omega arith)
        | some cg ↦
            let own = tally r (group cg) in
            bind-Uses r own (call-Uses r (Call.cgroup_get_cgroup cg)) (omega arith) λ read.
              if-Uses r (not (is_zero read))
                (λ _. last-Uses r 0 (missing-Uses cg) (omega arith) (λ a. omega arith))
                λ _. bind-Uses r own (open_cgroup_fd-Uses r name) (omega arith) (elim [
                  | pos fd ↦
                      bind-Uses r 0 (delete_cgroup-Uses r (some cg) (pos fd) pid) (omega arith)
                        λ _. pure-Uses r ratelimit_ok (omega arith)
                  | negsuc n ↦ last-Uses r 0 (missing-Uses cg) (omega arith) (λ a. omega arith)
                ])
      ])

  pub unregister_rate_limiter_by_pid-Uses :
      (send : ℤ → ℤ → M MonitorCode) (pid : ℤ)
      → Uses r 0 (send cmd_unwatch pid) (λ _. 0)
      → Uses r 0 (unregister_rate_limiter_by_pid send pid) (λ _. 0)
  unfolding unregister_rate_limiter_by_pid
  unregister_rate_limiter_by_pid-Uses send pid u =
      bind-Uses r 0 u (omega arith) λ _. delete_pid_cgroup-Uses pid
