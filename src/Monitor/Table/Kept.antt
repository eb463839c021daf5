-- ===== src/Monitor/Table/Kept.antt =====
-- lib/src/monitor.c: the monitor's variables under the table and its removals.
use pidnl.Base.{
  ℕ, ℤ, int_eq, int_eq_iff, ◌≡◌, refl, Bool, true, Option, none, some, List, decrement, arith,
  if◌then◌else◌,
}
use pidnl.System.{PidfdEntry, Process, call}
use pidnl.System.Keeps.{Keeps}
use pidnl.Monitor.Table.{find_pid_slot, put_entry, vacant, release_slot, remove_pid_from_watch}
use pidnl.Monitor.Table.Invariant.{
  watches, IsTable, active_count-vacate, watches-vacate, find_pid_slot_iff,
}

-- The daemon, with its table in order.
pub record IsServing (es : List PidfdEntry) (count : ℤ) (here : Bool) : Type 0 where
  pub table : IsTable es count
  pub daemon : here ≡ true

vacate-IsTable :
    (es : List PidfdEntry) (count pid : ℤ) (slot : ℕ)
    → find_pid_slot es pid ≡ some slot
    → IsTable es count
    → IsTable (put_entry es slot vacant) (decrement count)
vacate-IsTable es count pid slot h t = record {
  counted = rw (t.counted, active_count-vacate es pid slot h) refl;
  once = λ q. omega (arith, watches-vacate es pid slot q h, t.once q);
}

release_slot-IsServing :
    (pid : ℤ) (p : Process) (slot : Option ℕ)
    → find_pid_slot p.watched_pids pid ≡ slot
    → IsServing p.watched_pids p.watched_count p.is_monitor_process
    → let q = (release_slot p.watched_pids slot p).1 in
      IsServing q.watched_pids q.watched_count q.is_monitor_process
unfolding release_slot call
release_slot-IsServing pid p none h v = v
release_slot-IsServing pid p (some slot) h v = record {
  table = vacate-IsTable p.watched_pids p.watched_count pid slot h v.table;
  daemon = v.daemon;
}

pub remove_pid_from_watch-Keeps : (pid : ℤ) → Keeps IsServing (remove_pid_from_watch pid)
unfolding remove_pid_from_watch
remove_pid_from_watch-Keeps pid = record {
  apply = λ p v. release_slot-IsServing pid p (find_pid_slot p.watched_pids pid) refl v;
}

release_slot-watches :
    (pid : ℤ) (p : Process) (slot : Option ℕ) (q : ℤ)
    → find_pid_slot p.watched_pids pid ≡ slot
    → IsTable p.watched_pids p.watched_count
    → watches (release_slot p.watched_pids slot p).1.watched_pids q
      ≡ (if int_eq pid q then 0 else watches p.watched_pids q)
unfolding release_slot call
release_slot-watches pid p none q h t =
    ground (arith, (find_pid_slot_iff p.watched_pids pid).0 h, (int_eq_iff pid q).0)
release_slot-watches pid p (some slot) q h t =
    ground (arith, watches-vacate p.watched_pids pid slot q h, t.once q)

-- From a table in order: afterwards the PID is not watched, and every other PID is watched as before.
pub remove_pid_from_watch-watches :
    (pid : ℤ) (p : Process) (q : ℤ)
    → IsTable p.watched_pids p.watched_count
    → watches (remove_pid_from_watch pid p).1.watched_pids q
      ≡ (if int_eq pid q then 0 else watches p.watched_pids q)
unfolding remove_pid_from_watch
remove_pid_from_watch-watches pid p q t =
    release_slot-watches pid p (find_pid_slot p.watched_pids pid) q refl t
