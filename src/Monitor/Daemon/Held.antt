-- ===== src/Monitor/Daemon/Held.antt =====
-- lib/src/monitor.c: the resources of the rounds of the daemon's loop.
use pidnl.Base.{
  ℕ, zero, suc, ℤ, pos, negsuc, int_eq, true, not, ◌&&◌, List, ◌∷◌, Option, none, some, length,
  arith,
}
use pidnl.System.{
  PidfdEntry, Process, M, get, Call, MonitorCmd, Incoming, message, cut_short, Polled, poll_failed,
  polled,
}
use pidnl.System.Ledger.{
  Resource, fd_tally, tally, descriptor, Uses, bind-Uses, last-Uses, if-Uses, pure-Uses, call-Uses,
}
use pidnl.Monitor.Codes.{MonitorCode, cmd_watch, cmd_unwatch, cmd_stop, code_int}
use pidnl.Monitor.Table.{entry_at}
use pidnl.Monitor.Table.Held.{remove_pid_from_watch-Uses}
use pidnl.Monitor.Add.Held.{add_pid_to_watch-Uses}
use pidnl.Ratelimit.Remove.Held.{unregister_rate_limiter_by_pid-Uses}
use pidnl.Monitor.Daemon.{
  contains, active_pidfds, Served, skipped, served, is_root, execute, refused, answer, serve_client,
  reap_entry, reap, finish, is_eintr, after_poll, round, event_loop,
}

module _ (r : Resource) (send : ℤ → ℤ → M MonitorCode)
    (u : (pid : ℤ) → Uses r 0 (send cmd_unwatch pid) (λ _. 0)) where
  get-Uses : {A : Type 0} (f : Process → A) → Uses r 0 (get f) (λ _. 0)
  get-Uses f = record { apply = λ p. omega arith }

  execute-Uses : (msg : MonitorCmd) → Uses r 0 (execute send msg) (λ _. 0)
  unfolding execute
  execute-Uses msg =
      if-Uses r (int_eq msg.cmd cmd_watch)
        (λ _.
          bind-Uses r 0 (add_pid_to_watch-Uses r send u msg.pid) (omega arith)
            λ result. pure-Uses r _ (omega arith))
        λ _.
          if-Uses r (int_eq msg.cmd cmd_unwatch)
            (λ _.
              bind-Uses r 0 (remove_pid_from_watch-Uses r msg.pid) (omega arith)
                λ result. pure-Uses r _ (omega arith))
            λ _.
              if-Uses r (int_eq msg.cmd cmd_stop) (λ _. pure-Uses r _ (omega arith))
                (λ _. pure-Uses r _ (omega arith))

  refused-Uses : (client : ℤ) → Uses r (fd_tally r client) (refused client) (λ _. 0)
  unfolding refused
  refused-Uses client =
      bind-Uses r 0 (call-Uses r (Call.close client)) (omega arith)
        λ _. pure-Uses r skipped (omega arith)

  answer-Uses :
      (client : ℤ) (incoming : Incoming)
      → Uses r (fd_tally r client) (answer send client incoming) (λ _. 0)
  unfolding answer
  answer-Uses client cut_short = refused-Uses client
  answer-Uses client (message msg) =
      let own = fd_tally r client in
      bind-Uses r own (execute-Uses msg) (omega arith) λ result.
        bind-Uses r own (call-Uses r (Call.write_result client (code_int result.0))) (omega arith)
          λ _.
            bind-Uses r 0 (call-Uses r (Call.close client)) (omega arith)
              λ _. pure-Uses r (served result.1) (omega arith)

  serve_client-Uses : Uses r 0 (serve_client send) (λ _. 0)
  unfolding serve_client
  serve_client-Uses = bind-Uses r 0 (get-Uses (λ p. p.monitor_socket)) (omega arith) λ listener.
      bind-Uses r 0 (call-Uses r (Call.accept listener)) (omega arith) (elim [
        | negsuc n ↦ pure-Uses r skipped (omega arith)
        | pos fd ↦
            let own = tally r (descriptor (pos fd)) in
            bind-Uses r own (call-Uses r (Call.get_peer_uid (pos fd))) (omega arith) λ uid.
              if-Uses r (not (is_root uid))
                (λ _. last-Uses r 0 (refused-Uses (pos fd)) (omega arith) (λ a. omega arith))
                λ _.
                  bind-Uses r own (call-Uses r (Call.read_command (pos fd))) (omega arith)
                    λ incoming.
                      last-Uses r 0 (answer-Uses (pos fd) incoming) (omega arith) (λ a. omega arith)
      ])

  reap_entry-Uses :
      (pidfds ready : List ℤ) (e : Option PidfdEntry)
      → Uses r 0 (reap_entry send pidfds ready e) (λ _. 0)
  unfolding reap_entry
  reap_entry-Uses pidfds ready none = pure-Uses r tt (omega arith)
  reap_entry-Uses pidfds ready (some e) =
      if-Uses r (e.active && (contains pidfds e.pidfd && contains ready e.pidfd))
        (λ _.
          bind-Uses r 0 (unregister_rate_limiter_by_pid-Uses r send e.pid (u e.pid)) (omega arith)
            λ _. pure-Uses r tt (omega arith))
        (λ _. pure-Uses r tt (omega arith))

  reap-Uses : (pidfds ready : List ℤ) (n i : ℕ) → Uses r 0 (reap send pidfds ready n i) (λ _. 0)
  unfolding reap
  reap-Uses pidfds ready zero i = pure-Uses r tt (omega arith)
  reap-Uses pidfds ready (suc n) i =
      bind-Uses r 0 (get-Uses (λ p. p.watched_pids)) (omega arith) λ table.
        bind-Uses r 0 (reap_entry-Uses pidfds ready (entry_at table i)) (omega arith)
          λ _. reap-Uses pidfds ready n (suc i)

  finish-Uses :
      (pidfds ready : List ℤ) (slots : ℕ) (connection : Served)
      → Uses r 0 (finish send pidfds ready slots connection) (λ _. 0)
  unfolding finish
  finish-Uses pidfds ready slots skipped = pure-Uses r true (omega arith)
  finish-Uses pidfds ready slots (served go_on) =
      bind-Uses r 0 (reap-Uses pidfds ready slots 0) (omega arith) λ _.
        bind-Uses r 0 (get-Uses (λ p. p.watched_count)) (omega arith)
          λ count. pure-Uses r _ (omega arith)

  after_poll-Uses :
      (pidfds : List ℤ) (listener : ℤ) (slots : ℕ) (result : Polled)
      → Uses r 0 (after_poll send pidfds listener slots result) (λ _. 0)
  unfolding after_poll
  after_poll-Uses pidfds listener slots (poll_failed errno) =
      pure-Uses r (is_eintr errno) (omega arith)
  after_poll-Uses pidfds listener slots (polled ready) =
      bind-Uses r 0
        (if-Uses r {keep = λ _. 0} (contains ready listener) (λ _. serve_client-Uses)
          (λ _. pure-Uses r (served true) (omega arith)))
        (omega arith) (finish-Uses pidfds ready slots)

  pub round-Uses : Uses r 0 (round send) (λ _. 0)
  unfolding round
  round-Uses = bind-Uses r 0 (get-Uses (λ p. p.watched_pids)) (omega arith) λ table.
      bind-Uses r 0 (get-Uses (λ p. p.monitor_socket)) (omega arith) λ listener.
        bind-Uses r 0 (call-Uses r (Call.poll_all (listener ∷ active_pidfds table))) (omega arith)
          λ result. after_poll-Uses (active_pidfds table) listener (length table) result

  -- The loop of the daemon, for as long as it runs.
  pub event_loop-Uses : (n : ℕ) → Uses r 0 (event_loop send n) (λ _. 0)
  unfolding event_loop
  event_loop-Uses zero = record { apply = λ p. tt }
  event_loop-Uses (suc n) =
      bind-Uses r 0 round-Uses (omega arith)
        λ more. if-Uses r more (λ _. event_loop-Uses n) (λ _. pure-Uses r tt (omega arith))
