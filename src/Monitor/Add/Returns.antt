-- ===== src/Monitor/Add/Returns.antt =====
-- lib/src/monitor.c: the outcome of `add_pid_to_watch`.
use pidnl.Base.{ℕ, ℤ, pos, negsuc, Option, none, some, List}
use pidnl.System.{PidfdEntry, M, Call}
use pidnl.System.Returns.{Condition, Returns, bind-Returns, pure-Returns, call-Returns}
use pidnl.Monitor.Codes.{MonitorCode, cmd_unwatch, no_pidfd}
use pidnl.Monitor.Table.{find_pid_slot, find_free_slot, occupy}
use pidnl.Ratelimit.Remove.Returns.{unregister_rate_limiter_by_pid-Returns}
use pidnl.Monitor.Add.{use_pidfd, fill_slot, add_new, add_pid_to_watch}

module _ (P : Condition) (send : ℤ → ℤ → M MonitorCode)
    (u : (pid : ℤ) → Returns P (send cmd_unwatch pid)) where
  use_pidfd-Returns : (pid : ℤ) (slot : ℕ) (pidfd : ℤ) → Returns P (use_pidfd send pid slot pidfd)
  unfolding use_pidfd occupy
  use_pidfd-Returns pid slot (negsuc n) =
      bind-Returns P (unregister_rate_limiter_by_pid-Returns P send pid (u pid))
        λ _. pure-Returns P no_pidfd
  use_pidfd-Returns pid slot (pos fd) = record { apply = λ p h. h }

  fill_slot-Returns : (pid : ℤ) (slot : Option ℕ) → Returns P (fill_slot send pid slot)
  unfolding fill_slot
  fill_slot-Returns pid none = pure-Returns P _
  fill_slot-Returns pid (some slot) =
      bind-Returns P (call-Returns P (Call.pidfd_open pid)) (use_pidfd-Returns pid slot)

  add_new-Returns :
      (pid : ℤ) (table : List PidfdEntry) (slot : Option ℕ)
      → Returns P (add_new send pid table slot)
  unfolding add_new
  add_new-Returns pid table (some slot) = pure-Returns P _
  add_new-Returns pid table none = fill_slot-Returns pid (find_free_slot table)

  pub add_pid_to_watch-Returns : (pid : ℤ) → Returns P (add_pid_to_watch send pid)
  unfolding add_pid_to_watch
  add_pid_to_watch-Returns pid = record {
    apply = λ p. (add_new-Returns pid p.watched_pids (find_pid_slot p.watched_pids pid)).apply p;
  }
