-- ===== src/Monitor/Add.antt =====
-- lib/src/monitor.c: `add_pid_to_watch`. `send` is `send_command`, which the call of
-- `unregister_rate_limiter_by_pid` comes back to.
pub mod Held
pub mod Returns
pub mod Kept
pub mod Refined
use pidnl.Base.{List, pos, negsuc, ℕ, ℤ, Option, none, some}
use pidnl.System.{PidfdEntry, M, pure, get, modify, ◌>>=◌, ◌>>◌, call, Call}
use pidnl.Monitor.Codes.{MonitorCode, monitor_ok, no_slots, no_pidfd}
use pidnl.Monitor.Table.{find_pid_slot, find_free_slot, occupy}
use pidnl.Ratelimit.Remove.{unregister_rate_limiter_by_pid}

-- The test of `pidfd`, and the writes to the slot.
use_pidfd : (ℤ → ℤ → M MonitorCode) → ℤ → ℕ → ℤ → M MonitorCode
unfolding occupy
use_pidfd send pid slot (negsuc n) = unregister_rate_limiter_by_pid send pid >> pure no_pidfd
use_pidfd send pid slot (pos fd) = do modify (occupy slot pid (pos fd)); pure monitor_ok

-- From the search for a free slot on.
fill_slot : (ℤ → ℤ → M MonitorCode) → ℤ → Option ℕ → M MonitorCode
fill_slot send pid none = pure no_slots
fill_slot send pid (some slot) = do
  pidfd ← call (Call.pidfd_open pid)
  use_pidfd send pid slot pidfd

-- From the result of the search for the PID on.
add_new : (ℤ → ℤ → M MonitorCode) → ℤ → List PidfdEntry → Option ℕ → M MonitorCode
unfolding fill_slot use_pidfd
add_new send pid table (some slot) = pure monitor_ok
add_new send pid table none = fill_slot send pid (find_free_slot table)

unfoldable pub add_pid_to_watch : (ℤ → ℤ → M MonitorCode) → ℤ → M MonitorCode
unfolding add_new
add_pid_to_watch send pid = do
  table ← get (λ p. p.watched_pids)
  add_new send pid table (find_pid_slot table pid)
