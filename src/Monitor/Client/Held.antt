-- ===== src/Monitor/Client/Held.antt =====
-- lib/src/monitor.c: the resources of the clients' side.
use pidnl.Base.{
  ℕ, zero, suc, ℤ, pos, negsuc, ◌+◌, is_neg, is_pos, is_zero, int_eq, none, some, arith,
}
use pidnl.System.{M, exit, call, Call, MonitorCmd, get, modify}
use pidnl.System.Ledger.{
  Resource, fd_tally, Uses, bind-Uses, last-Uses, if-Uses, pure-Uses, call-Uses, exit-Uses,
}
use pidnl.Monitor.Codes.{
  MonitorCode, monitor_ok, no_connect, not_found, no_read, timed_out, cmd_watch, cmd_unwatch,
  cmd_stop,
}
use pidnl.Monitor.Table.Held.{remove_pid_from_watch-Uses}
use pidnl.Monitor.Add.Held.{add_pid_to_watch-Uses}
use pidnl.Monitor.Run.{monitor_run}
use pidnl.Monitor.Client.{
  monitor_connect, run_child, await_daemon, monitor_ensure_running, exchange, send_step,
  send_command, monitor_stop,
}

module _ (r : Resource) where
  pub monitor_connect-Uses : Uses r 0 monitor_connect (fd_tally r)
  unfolding monitor_connect call
  monitor_connect-Uses = record { apply = λ p. ground arith }

  exchange-Uses :
      (fd : ℤ) (msg : MonitorCmd) (no_reply : MonitorCode)
      → Uses r (fd_tally r fd) (exchange fd msg no_reply) (λ _. 0)
  unfolding call
  exchange-Uses fd msg no_reply = record { apply = λ p. ground arith }

  pub monitor_stop-Uses : Uses r 0 monitor_stop (λ _. 0)
  unfolding monitor_stop
  monitor_stop-Uses = bind-Uses r 0 monitor_connect-Uses (omega arith) (elim [
    | pos fd ↦
        last-Uses r 0 (exchange-Uses (pos fd) (record { cmd = cmd_stop; pid = pos 0 }) no_read)
          (omega arith) (λ a. omega arith)
    | negsuc n ↦ pure-Uses r monitor_ok (omega arith)
  ])

  await_daemon-Uses :
      (child read_end write_end : ℤ)
      → Uses r
          (fd_tally r read_end + fd_tally r write_end)
          (await_daemon child read_end write_end)
          (fd_tally r)
  unfolding await_daemon
  await_daemon-Uses child read_end write_end =
      let own = fd_tally r read_end in
      bind-Uses r own (call-Uses r (Call.close write_end)) (omega arith) λ _.
        bind-Uses r own (call-Uses r (Call.waitpid child)) (omega arith) λ _.
          bind-Uses r own (call-Uses r (Call.poll_ready read_end 5000)) (omega arith) λ ready.
            bind-Uses r 0 (call-Uses r (Call.close read_end)) (omega arith) λ _.
              if-Uses r (is_pos ready)
                (λ _. last-Uses r 0 monitor_connect-Uses (omega arith) (λ a. omega arith))
                (λ _. pure-Uses r (negsuc 0) (omega arith))

  exit_at_once : (held n : ℕ) → Uses {A = ℤ} r held (exit n) (fd_tally r)
  exit_at_once held n = record { apply = λ p. tt }

  hand_over : (fd : ℤ) → Uses r 0 (modify (λ p. record p { notify_parent_fd = fd })) (λ _. 0)
  hand_over fd = record { apply = λ p. omega arith }

  -- The child has copies of the two ends, and never comes back.
  run_child-Uses :
      (send : ℤ → ℤ → M MonitorCode) (read_end write_end : ℤ)
      → Uses r
          (fd_tally r read_end + fd_tally r write_end)
          (run_child send read_end write_end)
          (fd_tally r)
  unfolding run_child
  run_child-Uses send read_end write_end =
      let own = fd_tally r read_end + fd_tally r write_end in
      bind-Uses r own (call-Uses r Call.setsid) (omega arith) λ _.
        bind-Uses r own (call-Uses r Call.fork) (omega arith) λ daemon.
          if-Uses r (is_neg daemon) (λ _. exit_at_once _ 1)
            λ _.
              if-Uses r (is_pos daemon) (λ _. exit_at_once _ 0)
                λ _.
                  bind-Uses r (fd_tally r write_end) (call-Uses r (Call.close read_end))
                    (omega arith)
                    λ _.
                      bind-Uses r (fd_tally r write_end) (hand_over write_end) (omega arith)
                        λ _. exit-Uses r (monitor_run send) 0

  monitor_ensure_running-Uses :
      (send : ℤ → ℤ → M MonitorCode) → Uses r 0 (monitor_ensure_running send) (fd_tally r)
  unfolding monitor_ensure_running
  monitor_ensure_running-Uses send = bind-Uses r 0 monitor_connect-Uses (omega arith) (elim [
    | pos fd ↦ pure-Uses r (pos fd) (omega arith)
    | negsuc n ↦ bind-Uses r 0 (call-Uses r Call.pipe) (omega arith) (elim [
      | none ↦ pure-Uses r (negsuc 0) (omega arith)
      | some (read_end, write_end) ↦
          let own = fd_tally r read_end + fd_tally r write_end in
          bind-Uses r own (call-Uses r Call.fork) (omega arith) λ child.
            if-Uses r (is_neg child)
              (λ _.
                bind-Uses r (fd_tally r write_end) (call-Uses r (Call.close read_end)) (omega arith)
                  λ _.
                    bind-Uses r 0 (call-Uses r (Call.close write_end)) (omega arith)
                      λ _. pure-Uses r (negsuc 0) (omega arith))
              λ _.
                if-Uses r (is_zero child)
                  (λ _.
                    last-Uses r 0 (run_child-Uses send read_end write_end) (omega arith)
                      (λ a. omega arith))
                  (λ _.
                    last-Uses r 0 (await_daemon-Uses child read_end write_end) (omega arith)
                      (λ a. omega arith))
    ])
  ])

  here-Uses : Uses r 0 (get (λ p. p.is_monitor_process)) (λ _. 0)
  here-Uses = record { apply = λ p. omega arith }

  send_step-Uses :
      (send : ℤ → ℤ → M MonitorCode) (cmd pid : ℤ)
      → ((n : ℤ) → Uses r 0 (send cmd_unwatch n) (λ _. 0))
      → Uses r 0 (send_step send cmd pid) (λ _. 0)
  unfolding send_step
  send_step-Uses send cmd pid u = bind-Uses r 0 here-Uses (omega arith) λ here.
      if-Uses r here
        (λ _.
          if-Uses r (int_eq cmd cmd_watch) (λ _. add_pid_to_watch-Uses r send u pid)
            λ _.
              if-Uses r (int_eq cmd cmd_unwatch) (λ _. remove_pid_from_watch-Uses r pid)
                (λ _. pure-Uses r not_found (omega arith)))
        λ _. bind-Uses r 0 (monitor_ensure_running-Uses send) (omega arith) (elim [
          | pos fd ↦
              last-Uses r 0 (exchange-Uses (pos fd) (record { cmd = cmd; pid = pid }) timed_out)
                (omega arith) (λ a. omega arith)
          | negsuc n ↦ pure-Uses r no_connect (omega arith)
        ])

  pub send_command-Uses : (depth : ℕ) (cmd pid : ℤ) → Uses r 0 (send_command depth cmd pid) (λ _. 0)
  unfolding send_command
  send_command-Uses zero cmd pid = record { apply = λ p. tt }
  send_command-Uses (suc depth) cmd pid =
      send_step-Uses (send_command depth) cmd pid (send_command-Uses depth cmd_unwatch)
