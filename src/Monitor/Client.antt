-- ===== src/Monitor/Client.antt =====
-- lib/src/monitor.c: the side of the monitor's clients, and `send_command`.
pub mod Held
pub mod Balance
pub mod Returns
pub mod Kept
pub mod Refined
use pidnl.Base.{
  ℕ, zero, suc, ℤ, pos, negsuc, is_neg, is_pos, is_zero, int_eq, not, none, some, if◌then◌else◌,
}
use pidnl.System.{M, pure, exit, running, get, modify, ◌>>=◌, ◌>>◌, call, Call, MonitorCmd}
use pidnl.Monitor.Codes.{
  MonitorCode, monitor_ok, no_connect, no_write, no_read, not_found, timed_out, cmd_watch,
  cmd_unwatch, cmd_stop, code_of_int,
}
use pidnl.Monitor.Table.{remove_pid_from_watch}
use pidnl.Monitor.Add.{add_pid_to_watch}
use pidnl.Monitor.Run.{socket_path, monitor_run}

abbrev pub daemon_timeout_ms : ℕ
daemon_timeout_ms = 5000

unfoldable pub monitor_connect : M ℤ
monitor_connect = do
  fd ← call Call.socket
  if is_neg fd then pure (negsuc 0) else do
    connected ← call (Call.connect fd socket_path)
    if is_neg connected
        then call (Call.close fd) >> pure (negsuc 0)
        else call (Call.set_timeout fd daemon_timeout_ms) >> pure fd

-- The child of the first `fork`: its own child is the daemon, and it never returns.
run_child : (ℤ → ℤ → M MonitorCode) → ℤ → ℤ → M ℤ
run_child send read_end write_end = do
  call Call.setsid
  daemon ← call Call.fork
  if is_neg daemon then exit 1 else if is_pos daemon then exit 0 else do
    call (Call.close read_end)
    modify (λ p. record p { notify_parent_fd = write_end })
    monitor_run send
    exit 0

-- The parent waits until the daemon has written to the pipe.
await_daemon : ℤ → ℤ → ℤ → M ℤ
await_daemon child read_end write_end = do
  call (Call.close write_end)
  call (Call.waitpid child)
  ready ← call (Call.poll_ready read_end daemon_timeout_ms)
  call (Call.close read_end)
  if is_pos ready then monitor_connect else pure (negsuc 0)

unfoldable pub monitor_ensure_running : (ℤ → ℤ → M MonitorCode) → M ℤ
unfolding run_child await_daemon
monitor_ensure_running send = do
  fd ← monitor_connect
  if not (is_neg fd) then pure fd else do
    ready_pipe ← call Call.pipe
    elim ready_pipe [
      | none ↦ pure (negsuc 0)
      | some (read_end, write_end) ↦ do
        session_child ← call Call.fork
        if is_neg session_child
            then call (Call.close read_end) >> (call (Call.close write_end) >> pure (negsuc 0))
            else if is_zero session_child
            then run_child send read_end write_end
            else await_daemon session_child read_end write_end
    ]

-- In the monitor itself a command is a call.
unfoldable pub local_command : (ℤ → ℤ → M MonitorCode) → ℤ → ℤ → M MonitorCode
local_command send cmd pid =
    if int_eq cmd cmd_watch
    then add_pid_to_watch send pid
    else if int_eq cmd cmd_unwatch
    then remove_pid_from_watch pid
    else pure not_found

-- Writes a command to the monitor and reads the reply.
abbrev exchange : ℤ → MonitorCmd → MonitorCode → M MonitorCode
exchange fd msg no_reply = do
  written ← call (Call.write_command fd msg)
  if is_neg written then call (Call.close fd) >> pure no_write else do
    result ← call (Call.read_result fd)
    call (Call.close fd)
    pure (elim result [ none ↦ no_reply | some n ↦ code_of_int n ])

pub send_step : (ℤ → ℤ → M MonitorCode) → ℤ → ℤ → M MonitorCode
unfolding local_command
send_step send cmd pid = do
  here ← get (λ p. p.is_monitor_process)
  if here then local_command send cmd pid else do
    fd ← monitor_ensure_running send
    if is_neg fd then pure no_connect else exchange fd (record { cmd = cmd; pid = pid }) timed_out

-- `send_command` comes back to itself: a client may become the daemon, whose `add_pid_to_watch`
-- may send a command to itself. The fuel bounds how deep.
unfoldable pub send_command : ℕ → ℤ → ℤ → M MonitorCode
unfolding send_step
send_command zero cmd pid = λ p. (running, p)
send_command (suc depth) cmd pid = send_step (send_command depth) cmd pid

unfoldable pub monitor_watch_pid : ℕ → ℤ → M MonitorCode
monitor_watch_pid depth pid = send_command depth cmd_watch pid

unfoldable pub monitor_unwatch_pid : ℕ → ℤ → M MonitorCode
monitor_unwatch_pid depth pid = send_command depth cmd_unwatch pid

unfoldable pub monitor_stop : M MonitorCode
monitor_stop = do
  fd ← monitor_connect
  if is_neg fd
      then pure monitor_ok
      else exchange fd (record { cmd = cmd_stop; pid = pos 0 }) no_read
