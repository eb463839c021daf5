-- ===== src/Ratelimit/Remove/Kept.antt =====
-- lib/src/ratelimit.c: the monitor's variables under `delete_pid_cgroup` and its caller.
use pidnl.Base.{ℕ, ℤ, is_neg, is_zero, not, none, some}
use pidnl.System.{M, Call}
use pidnl.System.Keeps.{Property, Keeps, bind-Keeps, if-Keeps, pure-Keeps, call-Keeps}
use pidnl.Monitor.Codes.{MonitorCode, cmd_unwatch}
use pidnl.Ratelimit.Names.{build_cgroup_name}
use pidnl.Ratelimit.Codes.{ratelimit_ok, cgroup_not_found}
use pidnl.Ratelimit.Mounts.Kept.{open_cgroup_fd-Keeps}
use pidnl.Ratelimit.Cgroups.Kept.{delete_cgroup-Keeps}
use pidnl.Ratelimit.Remove.{missing, delete_pid_cgroup, unregister_rate_limiter_by_pid}

module _ (I : Property) where
  missing-Keeps : (cg : ℕ) → Keeps I (missing cg)
  missing-Keeps cg =
      bind-Keeps I (call-Keeps I (Call.cgroup_free cg)) λ _. pure-Keeps I cgroup_not_found

  pub delete_pid_cgroup-Keeps : (pid : ℤ) → Keeps I (delete_pid_cgroup pid)
  unfolding delete_pid_cgroup
  delete_pid_cgroup-Keeps pid =
      let name = build_cgroup_name pid 64 in
      bind-Keeps I (call-Keeps I (Call.cgroup_new_cgroup name)) (elim [
        | none ↦ pure-Keeps I _
        | some cg ↦ bind-Keeps I (call-Keeps I (Call.cgroup_get_cgroup cg)) λ read.
            if-Keeps I (not (is_zero read)) (missing-Keeps cg) (
              bind-Keeps I (open_cgroup_fd-Keeps I name) λ fd.
                if-Keeps I (is_neg fd) (missing-Keeps cg) (
                  bind-Keeps I (delete_cgroup-Keeps I (some cg) fd pid)
                    λ _. pure-Keeps I ratelimit_ok))
      ])

  pub unregister_rate_limiter_by_pid-Keeps :
      (send : ℤ → ℤ → M MonitorCode) (pid : ℤ)
      → Keeps I (send cmd_unwatch pid)
      → Keeps I (unregister_rate_limiter_by_pid send pid)
  unfolding unregister_rate_limiter_by_pid
  unregister_rate_limiter_by_pid-Keeps send pid k = bind-Keeps I k λ _. delete_pid_cgroup-Keeps pid
