-- ===== src/Monitor/Daemon/Kept.antt =====
-- lib/src/monitor.c: the monitor's variables under the rounds of the daemon's loop.
use pidnl.Base.{
  ℕ, zero, suc, ℤ, is_neg, int_eq, true, not, ◌&&◌, List, ◌∷◌, Option, none, some, length,
}
use pidnl.System.{
  PidfdEntry, M, Call, MonitorCmd, Incoming, message, cut_short, Polled, poll_failed, polled,
}
use pidnl.System.Keeps.{Keeps, bind-Keeps, if-Keeps, pure-Keeps, call-Keeps, get-Keeps}
use pidnl.Monitor.Codes.{MonitorCode, cmd_watch, cmd_unwatch, cmd_stop, code_int}
use pidnl.Monitor.Table.{entry_at}
use pidnl.Monitor.Table.Kept.{IsServing, remove_pid_from_watch-Keeps}
use pidnl.Monitor.Add.Kept.{add_pid_to_watch-Keeps}
use pidnl.Ratelimit.Remove.Kept.{unregister_rate_limiter_by_pid-Keeps}
use pidnl.Monitor.Daemon.{
  contains, active_pidfds, Served, skipped, served, is_root, is_eintr, execute, refused, answer,
  serve_client, reap_entry, reap, finish, after_poll, round, event_loop,
}

refused-Keeps : (client : ℤ) → Keeps IsServing (refused client)
unfolding refused
refused-Keeps client =
    bind-Keeps IsServing (call-Keeps IsServing (Call.close client))
      λ _. pure-Keeps IsServing skipped

module _ (send : ℤ → ℤ → M MonitorCode)
    (k : (pid : ℤ) → Keeps IsServing (send cmd_unwatch pid)) where
  execute-Keeps : (msg : MonitorCmd) → Keeps IsServing (execute send msg)
  unfolding execute
  execute-Keeps msg =
      if-Keeps IsServing (int_eq msg.cmd cmd_watch)
        (bind-Keeps IsServing (add_pid_to_watch-Keeps send k msg.pid) λ _. pure-Keeps IsServing _)
        (if-Keeps IsServing (int_eq msg.cmd cmd_unwatch)
          (bind-Keeps IsServing (remove_pid_from_watch-Keeps msg.pid) λ _. pure-Keeps IsServing _)
          (if-Keeps IsServing (int_eq msg.cmd cmd_stop) (pure-Keeps IsServing _)
            (pure-Keeps IsServing _)))

  answer-Keeps : (client : ℤ) (incoming : Incoming) → Keeps IsServing (answer send client incoming)
  unfolding answer
  answer-Keeps client cut_short = refused-Keeps client
  answer-Keeps client (message msg) = bind-Keeps IsServing (execute-Keeps msg) λ result.
      bind-Keeps IsServing (call-Keeps IsServing (Call.write_result client (code_int result.0)))
        λ _.
          bind-Keeps IsServing (call-Keeps IsServing (Call.close client))
            λ _. pure-Keeps IsServing (served result.1)

  serve_client-Keeps : Keeps IsServing (serve_client send)
  unfolding serve_client
  serve_client-Keeps =
      bind-Keeps IsServing (get-Keeps IsServing (λ p. p.monitor_socket)) λ listener.
        bind-Keeps IsServing (call-Keeps IsServing (Call.accept listener)) λ client.
          if-Keeps IsServing (is_neg client) (pure-Keeps IsServing skipped) (
            bind-Keeps IsServing (call-Keeps IsServing (Call.get_peer_uid client)) λ uid.
              if-Keeps IsServing (not (is_root uid)) (refused-Keeps client) (
                bind-Keeps IsServing (call-Keeps IsServing (Call.read_command client))
                  (answer-Keeps client)))

  reap_entry-Keeps :
      (pidfds ready : List ℤ) (e : Option PidfdEntry)
      → Keeps IsServing (reap_entry send pidfds ready e)
  unfolding reap_entry
  reap_entry-Keeps pidfds ready none = pure-Keeps IsServing tt
  reap_entry-Keeps pidfds ready (some e) =
      if-Keeps IsServing (e.active && (contains pidfds e.pidfd && contains ready e.pidfd))
        (bind-Keeps IsServing (unregister_rate_limiter_by_pid-Keeps IsServing send e.pid (k e.pid))
          λ _. pure-Keeps IsServing tt)
        (pure-Keeps IsServing tt)

  reap-Keeps : (pidfds ready : List ℤ) (n i : ℕ) → Keeps IsServing (reap send pidfds ready n i)
  unfolding reap
  reap-Keeps pidfds ready zero i = pure-Keeps IsServing tt
  reap-Keeps pidfds ready (suc n) i =
      bind-Keeps IsServing (get-Keeps IsServing (λ p. p.watched_pids)) λ table.
        bind-Keeps IsServing (reap_entry-Keeps pidfds ready (entry_at table i))
          λ _. reap-Keeps pidfds ready n (suc i)

  finish-Keeps :
      (pidfds ready : List ℤ) (slots : ℕ) (connection : Served)
      → Keeps IsServing (finish send pidfds ready slots connection)
  unfolding finish
  finish-Keeps pidfds ready slots skipped = pure-Keeps IsServing true
  finish-Keeps pidfds ready slots (served go_on) =
      bind-Keeps IsServing (reap-Keeps pidfds ready slots 0) λ _.
        bind-Keeps IsServing (get-Keeps IsServing (λ p. p.watched_count))
          λ count. pure-Keeps IsServing _

  after_poll-Keeps :
      (pidfds : List ℤ) (listener : ℤ) (slots : ℕ) (result : Polled)
      → Keeps IsServing (after_poll send pidfds listener slots result)
  unfolding after_poll
  after_poll-Keeps pidfds listener slots (poll_failed errno) = pure-Keeps IsServing (is_eintr errno)
  after_poll-Keeps pidfds listener slots (polled ready) =
      bind-Keeps IsServing
        (if-Keeps IsServing (contains ready listener) serve_client-Keeps
          (pure-Keeps IsServing (served true)))
        (finish-Keeps pidfds ready slots)

  round-Keeps : Keeps IsServing (round send)
  unfolding round
  round-Keeps = bind-Keeps IsServing (get-Keeps IsServing (λ p. p.watched_pids)) λ table.
      bind-Keeps IsServing (get-Keeps IsServing (λ p. p.monitor_socket)) λ listener.
        bind-Keeps IsServing (call-Keeps IsServing (Call.poll_all (listener ∷ active_pidfds table)))
          λ result. after_poll-Keeps (active_pidfds table) listener (length table) result

  pub event_loop-Keeps : (n : ℕ) → Keeps IsServing (event_loop send n)
  unfolding event_loop
  event_loop-Keeps zero = record { apply = λ p v. v }
  event_loop-Keeps (suc n) =
      bind-Keeps IsServing round-Keeps
        λ more. if-Keeps IsServing more (event_loop-Keeps n) (pure-Keeps IsServing tt)
