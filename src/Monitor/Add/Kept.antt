-- ===== src/Monitor/Add/Kept.antt =====
-- lib/src/monitor.c: the monitor's variables under `add_pid_to_watch`.
use pidnl.Base.{
  ℕ, ℤ, pos, negsuc, int_eq_iff, ◌≡◌, refl, true, Option, none, some, List, ◌∷◌, increment, arith,
}
use pidnl.System.{PidfdEntry, Process, M, call, Call, event}
use pidnl.System.Keeps.{Keeps, bind-Keeps, pure-Keeps}
use pidnl.Monitor.Codes.{MonitorCode, cmd_unwatch, no_pidfd}
use pidnl.Monitor.Table.{find_pid_slot, find_free_slot, put_entry}
use pidnl.Monitor.Table.Invariant.{
  watches, IsTable, active_count-occupy, watches-occupy, find_pid_slot_iff,
}
use pidnl.Monitor.Table.Kept.{IsServing}
use pidnl.Ratelimit.Remove.Kept.{unregister_rate_limiter_by_pid-Keeps}
use pidnl.Monitor.Add.{use_pidfd, fill_slot, add_new, add_pid_to_watch}

-- A PID that is not watched may take a free slot.
occupy-IsTable :
    (es : List PidfdEntry) (count : ℤ) (slot : ℕ) (e : PidfdEntry)
    → find_free_slot es ≡ some slot
    → e.active ≡ true
    → watches es e.pid ≡ 0
    → IsTable es count
    → IsTable (put_entry es slot e) (increment count)
occupy-IsTable es count slot e h a new t = record {
  counted = rw (t.counted, active_count-occupy es slot e h a) refl;
  once = λ q. ground (arith, watches-occupy es slot e q h a, t.once q, (int_eq_iff e.pid q).0, new);
}

module _ (send : ℤ → ℤ → M MonitorCode)
    (k : (pid : ℤ) → Keeps IsServing (send cmd_unwatch pid)) where
  abbrev Serving : Process → Type 0
  Serving p = IsServing p.watched_pids p.watched_count p.is_monitor_process

  use_pidfd-IsServing :
      (pid : ℤ) (p : Process) (slot : ℕ) (pidfd : ℤ)
      → find_free_slot p.watched_pids ≡ some slot
      → watches p.watched_pids pid ≡ 0
      → Serving p
      → Serving (use_pidfd send pid slot pidfd p).1
  unfolding use_pidfd
  use_pidfd-IsServing pid p slot (negsuc n) h new v =
      (bind-Keeps IsServing (unregister_rate_limiter_by_pid-Keeps IsServing send pid (k pid))
          λ _. pure-Keeps IsServing no_pidfd).apply
        p v
  use_pidfd-IsServing pid p slot (pos fd) h new v =
      let e : PidfdEntry = record { pid = pid; pidfd = pos fd; active = true } in
      record {
        table = occupy-IsTable p.watched_pids p.watched_count slot e h refl new v.table;
        daemon = v.daemon;
      }

  fill_slot-IsServing :
      (pid : ℤ) (p : Process) (slot : Option ℕ)
      → find_free_slot p.watched_pids ≡ slot
      → watches p.watched_pids pid ≡ 0
      → Serving p
      → Serving (fill_slot send pid slot p).1
  unfolding fill_slot call
  fill_slot-IsServing pid p none h new v = v
  fill_slot-IsServing pid p (some slot) h new v =
      let pidfd = p.env p.trace (Call.pidfd_open pid) in
      use_pidfd-IsServing pid (record p { trace = event (Call.pidfd_open pid) pidfd ∷ p.trace })
        slot pidfd h new v

  add_new-IsServing :
      (pid : ℤ) (p : Process) (slot : Option ℕ)
      → find_pid_slot p.watched_pids pid ≡ slot
      → Serving p
      → Serving (add_new send pid p.watched_pids slot p).1
  unfolding add_new
  add_new-IsServing pid p (some slot) h v = v
  add_new-IsServing pid p none h v =
      fill_slot-IsServing pid p (find_free_slot p.watched_pids) refl
        ((find_pid_slot_iff p.watched_pids pid).0 h) v

  pub add_pid_to_watch-Keeps : (pid : ℤ) → Keeps IsServing (add_pid_to_watch send pid)
  unfolding add_pid_to_watch
  add_pid_to_watch-Keeps pid = record {
    apply = λ p v. add_new-IsServing pid p (find_pid_slot p.watched_pids pid) refl v;
  }
