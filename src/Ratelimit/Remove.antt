-- ===== src/Ratelimit/Remove.antt =====
-- lib/src/ratelimit.c: `delete_pid_cgroup` and `unregister_rate_limiter_by_pid`. The latter sends
-- a command to the monitor: `send` is `send_command` of lib/src/monitor.c.
pub mod Held
pub mod Returns
pub mod Kept
use pidnl.Base.{ℕ, ℤ, is_neg, is_zero, not, none, some, if◌then◌else◌}
use pidnl.System.{M, pure, ◌>>=◌, ◌>>◌, call, Call}
use pidnl.Monitor.Codes.{MonitorCode, cmd_unwatch}
use pidnl.Ratelimit.Names.{build_cgroup_name}
use pidnl.Ratelimit.Codes.{RatelimitCode, ratelimit_ok, libcg_delete, cgroup_not_found}
use pidnl.Ratelimit.Mounts.{open_cgroup_fd}
use pidnl.Ratelimit.Cgroups.{delete_cgroup}

abbrev missing : ℕ → M RatelimitCode
missing cg = do call (Call.cgroup_free cg); pure cgroup_not_found

unfoldable pub delete_pid_cgroup : ℤ → M RatelimitCode
delete_pid_cgroup pid = do
  let name = build_cgroup_name pid 64
  new ← call (Call.cgroup_new_cgroup name)
  elim new [
    | none ↦ pure libcg_delete
    | some cg ↦ do
      read ← call (Call.cgroup_get_cgroup cg)
      if not (is_zero read) then missing cg else do
        cgroup_fd ← open_cgroup_fd name
        if is_neg cgroup_fd
            then missing cg
            else do delete_cgroup (some cg) cgroup_fd pid; pure ratelimit_ok
  ]

unfoldable pub unregister_rate_limiter_by_pid : (ℤ → ℤ → M MonitorCode) → ℤ → M RatelimitCode
unregister_rate_limiter_by_pid send pid = do send cmd_unwatch pid; delete_pid_cgroup pid
