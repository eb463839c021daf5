-- ===== src/Monitor/Client/Returns.antt =====
-- lib/src/monitor.c: how deep the commands go, in the daemon and in a client.
use pidnl.Base.{
  ℕ, suc, ℤ, pos, negsuc, ◌≡◌, is_neg, is_pos, is_zero, int_eq, not, true, false, none, some, arith,
  ◌∷◌, if◌then◌else◌,
}
use pidnl.System.{Process, Trace, M, pure, Call, event, ◌>>=◌, call, MonitorCmd}
use pidnl.System.Returns.{Condition, Returns, bind-Returns, if-Returns, pure-Returns, call-Returns}
use pidnl.Monitor.Codes.{
  MonitorCode, monitor_ok, no_connect, not_found, no_read, timed_out, cmd_watch, cmd_unwatch,
  cmd_stop,
}
use pidnl.Monitor.Table.Returns.{remove_pid_from_watch-Returns}
use pidnl.Monitor.Add.Returns.{add_pid_to_watch-Returns}
use pidnl.Monitor.Client.{
  monitor_connect, await_daemon, monitor_ensure_running, local_command, exchange, send_step,
  send_command, monitor_stop,
}

-- The process is the daemon.
abbrev pub in_daemon : Condition
in_daemon env daemon = daemon ≡ true

-- The process is a client, and goes on as the parent after every `fork`.
abbrev pub in_client : Condition
in_client env daemon = (daemon ≡ false) × ((t : Trace) → is_zero (env t Call.fork) ≡ false)

module _ (P : Condition) where
  pub monitor_connect-Returns : Returns P monitor_connect
  unfolding monitor_connect call
  monitor_connect-Returns = record { apply = λ p h. ground arith }

  exchange-Returns :
      (fd : ℤ) (msg : MonitorCmd) (no_reply : MonitorCode) → Returns P (exchange fd msg no_reply)
  unfolding call
  exchange-Returns fd msg no_reply = record { apply = λ p h. ground arith }

  pub monitor_stop-Returns : Returns P monitor_stop
  unfolding monitor_stop
  monitor_stop-Returns = bind-Returns P monitor_connect-Returns λ fd.
      if-Returns P (is_neg fd) (λ _. pure-Returns P monitor_ok)
        (λ _. exchange-Returns fd (record { cmd = cmd_stop; pid = pos 0 }) no_read)

  await_daemon-Returns :
      (child read_end write_end : ℤ) → Returns P (await_daemon child read_end write_end)
  unfolding await_daemon
  await_daemon-Returns child read_end write_end =
      bind-Returns P (call-Returns P (Call.close write_end)) λ _.
        bind-Returns P (call-Returns P (Call.waitpid child)) λ _.
          bind-Returns P (call-Returns P (Call.poll_ready read_end 5000)) λ ready.
            bind-Returns P (call-Returns P (Call.close read_end)) λ _.
              if-Returns P (is_pos ready) (λ _. monitor_connect-Returns)
                (λ _. pure-Returns P (negsuc 0))

  local_command-Returns :
      (send : ℤ → ℤ → M MonitorCode) (cmd pid : ℤ)
      → ((n : ℤ) → Returns P (send cmd_unwatch n))
      → Returns P (local_command send cmd pid)
  unfolding local_command
  local_command-Returns send cmd pid u =
      if-Returns P (int_eq cmd cmd_watch) (λ _. add_pid_to_watch-Returns P send u pid)
        λ _.
          if-Returns P (int_eq cmd cmd_unwatch) (λ _. remove_pid_from_watch-Returns P pid)
            (λ _. pure-Returns P not_found)

fork-Returns :
    {A : Type 0} (f : ℤ → M A)
    → ((child : ℤ) → is_zero child ≡ false → Returns in_client (f child))
    → Returns in_client (call Call.fork >>= f)
unfolding call
fork-Returns f u = record {
  apply = λ p h.
      let child = p.env p.trace Call.fork in
      let q : Process = record p { trace = event Call.fork child ∷ p.trace } in
      (u child (h.1 p.trace)).apply q h;
}

monitor_ensure_running-Returns :
    (send : ℤ → ℤ → M MonitorCode) → Returns in_client (monitor_ensure_running send)
unfolding monitor_ensure_running
monitor_ensure_running-Returns send =
    bind-Returns in_client (monitor_connect-Returns in_client) λ fd.
      if-Returns in_client (not (is_neg fd)) (λ _. pure-Returns in_client fd)
        λ _. bind-Returns in_client (call-Returns in_client Call.pipe) (elim [
          | none ↦ pure-Returns in_client (negsuc 0)
          | some (read_end, write_end) ↦ fork-Returns _ λ child parent.
              if-Returns in_client (is_neg child)
                (λ _. bind-Returns in_client (call-Returns in_client (Call.close read_end)) λ _.
                  bind-Returns in_client (call-Returns in_client (Call.close write_end))
                    λ _. pure-Returns in_client (negsuc 0))
                λ _.
                  if-Returns in_client (is_zero child) (λ zero. absurd (cc))
                    (λ _. await_daemon-Returns in_client child read_end write_end)
        ])

connected-Returns :
    (send : ℤ → ℤ → M MonitorCode) (cmd pid : ℤ)
    → Returns in_client (
        monitor_ensure_running send >>= (λ fd.
          if is_neg fd
          then pure no_connect
          else exchange fd (record { cmd = cmd; pid = pid }) timed_out))
connected-Returns send cmd pid = bind-Returns in_client (monitor_ensure_running-Returns send) λ fd.
    if-Returns in_client (is_neg fd) (λ _. pure-Returns in_client no_connect)
      (λ _. exchange-Returns in_client fd (record { cmd = cmd; pid = pid }) timed_out)

-- In a client one level is enough: every command comes back to a client that goes on as the parent
-- after every `fork`, whatever the other calls answer.
pub send_command-client :
    (depth : ℕ) (cmd pid : ℤ) → Returns in_client (send_command (suc depth) cmd pid)
unfolding send_command send_step
send_command-client depth cmd pid = record {
  apply = λ p h.
      (if-Returns in_client p.is_monitor_process (λ here. absurd (cc))
          λ _. connected-Returns (send_command depth) cmd pid).apply
        p h;
}

local-Returns :
    (send : ℤ → ℤ → M MonitorCode) (cmd pid : ℤ)
    → ((n : ℤ) → Returns in_daemon (send cmd_unwatch n))
    → Returns in_daemon (send_step send cmd pid)
unfolding send_step
local-Returns send cmd pid u = record {
  apply = λ p h.
      (if-Returns in_daemon p.is_monitor_process
          (λ _. local_command-Returns in_daemon send cmd pid u) λ away. absurd (cc)).apply
        p h;
}

pub unwatch-Returns :
    (send : ℤ → ℤ → M MonitorCode) (pid : ℤ) → Returns in_daemon (send_step send cmd_unwatch pid)
unfolding send_step local_command
unwatch-Returns send pid = record {
  apply = λ p h.
      (if-Returns in_daemon p.is_monitor_process (λ _. remove_pid_from_watch-Returns in_daemon pid)
          λ away. absurd (cc)).apply
        p h;
}

-- In the daemon two levels are enough: every command returns, whatever the calls answer.
pub send_command-daemon :
    (depth : ℕ) (cmd pid : ℤ) → Returns in_daemon (send_command (suc (suc depth)) cmd pid)
unfolding send_command
send_command-daemon depth cmd pid =
    local-Returns (send_command (suc depth)) cmd pid (unwatch-Returns (send_command depth))
