-- ===== src/Ratelimit/Limit.antt =====
-- lib/src/ratelimit.c: `limit_process_bandwidth` and `close_rate_limiter_handle`. `send` is
-- `send_command` of lib/src/monitor.c.
pub mod Held
pub mod Returns
use pidnl.Base.{ℕ, ℤ, is_neg, is_pos, is_zero, not, Text, Option, none, some, if◌then◌else◌}
use pidnl.System.{M, pure, ◌>>=◌, ◌>>◌, call, Call}
use pidnl.Monitor.Codes.{MonitorCode, cmd_watch}
use pidnl.Ratelimit.Names.{path_max, cgroup_name, build_cgroup_name}
use pidnl.Ratelimit.Codes.{
  RatelimitCode, ratelimit_ok, invalid_pid, alloc, open_cgroup, libcg_attach, RateLimitConfig,
  Fallible, failure, success,
}
use pidnl.Ratelimit.Mounts.{open_cgroup_fd}
use pidnl.Ratelimit.Cgroups.{create_cgroup, create_pin_dir, detach_pinned_links, delete_cgroup}
use pidnl.Ratelimit.Attach.{attach_bpf_programs}

-- `struct rate_limiter`, with the address of its block.
pub record RateLimiter : Type 0 where
  pub address : ℕ
  pub cg : Option ℕ
  pub skel : Option ℕ
  pub cgroup_fd : ℤ

unfoldable pub close_rate_limiter_handle : Option RateLimiter → M (Unit {0})
close_rate_limiter_handle none = pure tt
close_rate_limiter_handle (some limiter) = do
  if is_neg limiter.cgroup_fd then pure tt else call (Call.close limiter.cgroup_fd)
  elim limiter.skel [ none ↦ pure tt | some skel ↦ call (Call.ratelimit_bpf_destroy skel) ]
  elim limiter.cg [ none ↦ pure tt | some cg ↦ call (Call.cgroup_free cg) ]
  call (Call.free limiter.address)

-- The error path once the child group exists: it is deleted, and the parent's handle let go.
abandon_child : ℕ → ℕ → ℤ → ℤ → RatelimitCode → M RatelimitCode
abandon_child parent child cgroup_fd pid code = do
  delete_cgroup (some child) cgroup_fd pid
  call (Call.cgroup_free parent)
  pure code

-- The pin directory, then the programs: the skeleton, or the first error.
install : ℤ → ℤ → RateLimitConfig → M (Fallible ℕ)
install pid cgroup_fd config = do
  dir ← create_pin_dir pid path_max
  elim dir [
    | failure code ↦ pure (failure code)
    | success pin_dir ↦ attach_bpf_programs cgroup_fd pin_dir config
  ]

module _ (send : ℤ → ℤ → M MonitorCode) where
  -- From the allocation of the limiter on.
  equip : ℕ → ℕ → ℤ → ℤ → RateLimitConfig → M RatelimitCode
  unfolding abandon_child install
  equip parent child cgroup_fd pid config = do
    block ← call Call.calloc
    elim block [
      | none ↦ abandon_child parent child cgroup_fd pid alloc
      | some address ↦ do
        detach_pinned_links pid
        installed ← install pid cgroup_fd config
        elim installed [
          | failure code ↦ do
            delete_cgroup (some child) cgroup_fd pid
            call (Call.cgroup_free parent)
            call (Call.free address)
            pure code
          | success skel ↦ do
            call (Call.cgroup_free parent)
            close_rate_limiter_handle (
                some (record {
                  address = address;
                  cg = some child;
                  skel = some skel;
                  cgroup_fd = cgroup_fd;
                }))
            send cmd_watch pid
            pure ratelimit_ok
        ]
    ]

  -- From the move of the process into the child group on.
  enter : ℕ → ℕ → Text → ℤ → RateLimitConfig → M RatelimitCode
  unfolding equip
  enter parent child name pid config = do
    attached ← call (Call.cgroup_attach_task_pid child pid)
    if not (is_zero attached) then abandon_child parent child (ℤ.negsuc 0) pid libcg_attach else do
      cgroup_fd ← open_cgroup_fd name
      if is_neg cgroup_fd
          then abandon_child parent child (ℤ.negsuc 0) pid open_cgroup
          else equip parent child cgroup_fd pid config

  unfoldable pub limit_process_bandwidth : ℤ → RateLimitConfig → M RatelimitCode
  unfolding enter
  limit_process_bandwidth pid config = if not (is_pos pid) then pure invalid_pid else do
    made_parent ← create_cgroup cgroup_name
    elim made_parent [
      | failure code ↦ pure code
      | success parent ↦ do
        let name = build_cgroup_name pid 64
        made_child ← create_cgroup name
        elim made_child [
          | failure code ↦ call (Call.cgroup_free parent) >> pure code
          | success child ↦ enter parent child name pid config
        ]
    ]
