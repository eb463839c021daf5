-- ===== src/Monitor/Daemon/Returns.antt =====
-- lib/src/monitor.c: the outcome of the rounds of the daemon's loop.
use pidnl.Base.{
  ℕ, zero, suc, ℤ, pos, negsuc, int_eq, true, not, ◌&&◌, List, ◌∷◌, Option, none, some, length,
  arith,
}
use pidnl.System.{
  PidfdEntry, Process, M, get, Call, MonitorCmd, Incoming, message, cut_short, Polled, poll_failed,
  polled,
}
use pidnl.System.Returns.{Condition, Returns, bind-Returns, if-Returns, pure-Returns, call-Returns}
use pidnl.Monitor.Codes.{MonitorCode, cmd_watch, cmd_unwatch, cmd_stop, code_int}
use pidnl.Monitor.Table.{entry_at}
use pidnl.Monitor.Table.Returns.{remove_pid_from_watch-Returns}
use pidnl.Monitor.Add.Returns.{add_pid_to_watch-Returns}
use pidnl.Ratelimit.Remove.Returns.{unregister_rate_limiter_by_pid-Returns}
use pidnl.Monitor.Daemon.{
  contains, active_pidfds, Served, skipped, served, is_root, execute, refused, answer, serve_client,
  reap_entry, reap, finish, is_eintr, after_poll, round,
}

module _ (P : Condition) (send : ℤ → ℤ → M MonitorCode)
    (u : (pid : ℤ) → Returns P (send cmd_unwatch pid)) where
  get-Returns : {A : Type 0} (f : Process → A) → Returns P (get f)
  get-Returns f = record { apply = λ p h. ground arith }

  execute-Returns : (msg : MonitorCmd) → Returns P (execute send msg)
  unfolding execute
  execute-Returns msg =
      if-Returns P (int_eq msg.cmd cmd_watch)
        (λ _. bind-Returns P (add_pid_to_watch-Returns P send u msg.pid) λ result. pure-Returns P _)
        λ _.
          if-Returns P (int_eq msg.cmd cmd_unwatch)
            (λ _.
              bind-Returns P (remove_pid_from_watch-Returns P msg.pid) λ result. pure-Returns P _)
            λ _.
              if-Returns P (int_eq msg.cmd cmd_stop) (λ _. pure-Returns P _) (λ _. pure-Returns P _)

  refused-Returns : (client : ℤ) → Returns P (refused client)
  unfolding refused
  refused-Returns client =
      bind-Returns P (call-Returns P (Call.close client)) λ _. pure-Returns P skipped

  answer-Returns : (client : ℤ) (incoming : Incoming) → Returns P (answer send client incoming)
  unfolding answer
  answer-Returns client cut_short = refused-Returns client
  answer-Returns client (message msg) = bind-Returns P (execute-Returns msg) λ result.
      bind-Returns P (call-Returns P (Call.write_result client (code_int result.0))) λ _.
        bind-Returns P (call-Returns P (Call.close client)) λ _. pure-Returns P (served result.1)

  serve_client-Returns : Returns P (serve_client send)
  unfolding serve_client
  serve_client-Returns = bind-Returns P (get-Returns (λ p. p.monitor_socket)) λ listener.
      bind-Returns P (call-Returns P (Call.accept listener)) (elim [
        | negsuc n ↦ pure-Returns P skipped
        | pos fd ↦ bind-Returns P (call-Returns P (Call.get_peer_uid (pos fd))) λ uid.
            if-Returns P (not (is_root uid)) (λ _. (refused-Returns (pos fd)))
              λ _.
                bind-Returns P (call-Returns P (Call.read_command (pos fd)))
                  λ incoming. (answer-Returns (pos fd) incoming)
      ])

  reap_entry-Returns :
      (pidfds ready : List ℤ) (e : Option PidfdEntry) → Returns P (reap_entry send pidfds ready e)
  unfolding reap_entry
  reap_entry-Returns pidfds ready none = pure-Returns P tt
  reap_entry-Returns pidfds ready (some e) =
      if-Returns P (e.active && (contains pidfds e.pidfd && contains ready e.pidfd))
        (λ _.
          bind-Returns P (unregister_rate_limiter_by_pid-Returns P send e.pid (u e.pid))
            λ _. pure-Returns P tt)
        (λ _. pure-Returns P tt)

  reap-Returns : (pidfds ready : List ℤ) (n i : ℕ) → Returns P (reap send pidfds ready n i)
  unfolding reap
  reap-Returns pidfds ready zero i = pure-Returns P tt
  reap-Returns pidfds ready (suc n) i = bind-Returns P (get-Returns (λ p. p.watched_pids)) λ table.
      bind-Returns P (reap_entry-Returns pidfds ready (entry_at table i))
        λ _. reap-Returns pidfds ready n (suc i)

  finish-Returns :
      (pidfds ready : List ℤ) (slots : ℕ) (connection : Served)
      → Returns P (finish send pidfds ready slots connection)
  unfolding finish
  finish-Returns pidfds ready slots skipped = pure-Returns P true
  finish-Returns pidfds ready slots (served go_on) =
      bind-Returns P (reap-Returns pidfds ready slots 0)
        λ _. bind-Returns P (get-Returns (λ p. p.watched_count)) λ count. pure-Returns P _

  after_poll-Returns :
      (pidfds : List ℤ) (listener : ℤ) (slots : ℕ) (result : Polled)
      → Returns P (after_poll send pidfds listener slots result)
  unfolding after_poll
  after_poll-Returns pidfds listener slots (poll_failed errno) = pure-Returns P (is_eintr errno)
  after_poll-Returns pidfds listener slots (polled ready) =
      bind-Returns P
        (if-Returns P (contains ready listener) (λ _. serve_client-Returns)
          (λ _. pure-Returns P (served true)))
        (finish-Returns pidfds ready slots)

  pub round-Returns : Returns P (round send)
  unfolding round
  round-Returns = bind-Returns P (get-Returns (λ p. p.watched_pids)) λ table.
      bind-Returns P (get-Returns (λ p. p.monitor_socket)) λ listener.
        bind-Returns P (call-Returns P (Call.poll_all (listener ∷ active_pidfds table)))
          λ result. after_poll-Returns (active_pidfds table) listener (length table) result
