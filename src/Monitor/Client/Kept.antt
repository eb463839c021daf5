-- ===== src/Monitor/Client/Kept.antt =====
-- lib/src/monitor.c: the monitor's variables under the clients' side.
use pidnl.Base.{ℕ, zero, suc, ℤ, int_eq, ◌≡◌, true}
use pidnl.System.{Process, M}
use pidnl.System.Keeps.{Keeps, if-Keeps, pure-Keeps}
use pidnl.Monitor.Codes.{MonitorCode, cmd_watch, cmd_unwatch, not_found}
use pidnl.Monitor.Table.Kept.{IsServing, remove_pid_from_watch-Keeps}
use pidnl.Monitor.Add.Kept.{add_pid_to_watch-Keeps}
use pidnl.Monitor.Daemon.{event_loop}
use pidnl.Monitor.Daemon.Kept.{event_loop-Keeps}
use pidnl.Monitor.Client.{local_command, send_step, send_command}

local_command-Keeps :
    (send : ℤ → ℤ → M MonitorCode) (cmd pid : ℤ)
    → ((n : ℤ) → Keeps IsServing (send cmd_unwatch n))
    → Keeps IsServing (local_command send cmd pid)
unfolding local_command
local_command-Keeps send cmd pid k =
    if-Keeps IsServing (int_eq cmd cmd_watch) (add_pid_to_watch-Keeps send k pid) (
      if-Keeps IsServing (int_eq cmd cmd_unwatch) (remove_pid_from_watch-Keeps pid)
        (pure-Keeps IsServing not_found))

-- In the daemon a command is a call of its own handler.
pub send_step-local :
    (send : ℤ → ℤ → M MonitorCode) (cmd pid : ℤ) (p : Process)
    → p.is_monitor_process ≡ true
    → send_step send cmd pid p ≡ local_command send cmd pid p
unfolding send_step
send_step-local send cmd pid p h = rw h

pub send_command-Keeps : (depth : ℕ) (cmd pid : ℤ) → Keeps IsServing (send_command depth cmd pid)
unfolding send_command
send_command-Keeps zero cmd pid = record { apply = λ p v. v }
send_command-Keeps (suc depth) cmd pid = record {
  apply = λ p v. rw (send_step-local (send_command depth) cmd pid p v.daemon) (
      (local_command-Keeps (send_command depth) cmd pid
          (send_command-Keeps depth cmd_unwatch)).apply
        p v);
}

-- From a table in order, in the daemon: after any number of rounds the count is right and no PID is watched twice.
pub event_loop-IsServing :
    (depth n : ℕ) (p : Process)
    → IsServing p.watched_pids p.watched_count p.is_monitor_process
    → let q = (event_loop (send_command depth) n p).1 in
      IsServing q.watched_pids q.watched_count q.is_monitor_process
event_loop-IsServing depth n p v =
    (event_loop-Keeps (send_command depth) (send_command-Keeps depth cmd_unwatch) n).apply p v
