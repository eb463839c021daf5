-- ===== src/Monitor/Add/Held.antt =====
-- lib/src/monitor.c: the resources of `add_pid_to_watch`.
use pidnl.Base.{◌∷◌, ℕ, ℤ, pos, negsuc, ◌≡◌, refl, true, Option, none, some, arith}
use pidnl.System.{event, PidfdEntry, Process, M, call, Call}
use pidnl.System.Ledger.{Resource, fd_tally, Settled, Uses, join-Settled, bind-Uses, pure-Uses}
use pidnl.Monitor.Codes.{MonitorCode, cmd_unwatch, no_pidfd}
use pidnl.Monitor.Table.{find_pid_slot, find_free_slot}
use pidnl.Monitor.Table.Held.{stored-occupy}
use pidnl.Ratelimit.Remove.Held.{unregister_rate_limiter_by_pid-Uses}
use pidnl.Monitor.Add.{use_pidfd, fill_slot, add_new, add_pid_to_watch}

module _ (r : Resource) (send : ℤ → ℤ → M MonitorCode)
    (u : (pid : ℤ) → Uses r 0 (send cmd_unwatch pid) (λ _. 0)) where
  use_pidfd-Settled :
      (pid : ℤ) (p : Process) (slot : ℕ) (pidfd : ℤ)
      → find_free_slot p.watched_pids ≡ some slot
      → Settled r (fd_tally r pidfd) (λ _. 0) p (use_pidfd send pid slot pidfd p)
  unfolding use_pidfd
  use_pidfd-Settled pid p slot (negsuc n) h =
      (bind-Uses r 0 (unregister_rate_limiter_by_pid-Uses r send pid (u pid)) refl
          λ _. pure-Uses r no_pidfd refl).apply
        p
  use_pidfd-Settled pid p slot (pos fd) h =
      let e : PidfdEntry = record { pid = pid; pidfd = pos fd; active = true } in
      omega (arith, stored-occupy r p.watched_pids slot e h refl)

  fill_slot-Settled :
      (pid : ℤ) (p : Process) (slot : Option ℕ)
      → find_free_slot p.watched_pids ≡ slot
      → Settled r 0 (λ _. 0) p (fill_slot send pid slot p)
  unfolding fill_slot call
  fill_slot-Settled pid p none h = omega arith
  fill_slot-Settled pid p (some slot) h =
      let pidfd = p.env p.trace (Call.pidfd_open pid) in
      let q : Process = record p { trace = event (Call.pidfd_open pid) pidfd ∷ p.trace } in
      join-Settled r 0 (fd_tally r pidfd) (λ _. 0) p q (use_pidfd send pid slot pidfd q)
        (omega arith) (use_pidfd-Settled pid q slot pidfd h)

  add_new-Settled :
      (pid : ℤ) (p : Process) (slot : Option ℕ)
      → Settled r 0 (λ _. 0) p (add_new send pid p.watched_pids slot p)
  unfolding add_new
  add_new-Settled pid p (some slot) = omega arith
  add_new-Settled pid p none = fill_slot-Settled pid p (find_free_slot p.watched_pids) refl

  pub add_pid_to_watch-Uses : (pid : ℤ) → Uses r 0 (add_pid_to_watch send pid) (λ _. 0)
  unfolding add_pid_to_watch
  add_pid_to_watch-Uses pid = record {
    apply = λ p. add_new-Settled pid p (find_pid_slot p.watched_pids pid);
  }
