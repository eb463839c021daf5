-- ===== src/Monitor/Table.antt =====
-- lib/src/monitor.c: the table `watched_pids` and the searches in it. A search returns the slot, or
-- `none` for -1. C has 1024 slots, here a table has any number of them.
pub mod Held
pub mod Returns
pub mod Kept
pub mod Invariant
pub mod Refined
use pidnl.Base.{
  ℕ, zero, suc, ℤ, pos, negsuc, int_eq, increment, decrement, true, false, not, ◌&&◌, List, [], ◌∷◌,
  Option, none, some, if◌then◌else◌,
}
use pidnl.System.{PidfdEntry, Process, M, pure, get, modify, ◌>>=◌, ◌>>◌, call, Call}
use pidnl.Monitor.Codes.{MonitorCode, monitor_ok, not_found}

abbrev pub at_next : Option ℕ → Option ℕ
at_next none = none
at_next (some i) = some (suc i)

unfoldable pub find_pid_slot : List PidfdEntry → ℤ → Option ℕ
find_pid_slot [] pid = none
find_pid_slot (e ∷ es) pid =
    let rest = find_pid_slot es pid in if e.active && int_eq e.pid pid then some 0 else at_next rest

unfoldable pub find_free_slot : List PidfdEntry → Option ℕ
find_free_slot [] = none
find_free_slot (e ∷ es) =
    let rest = find_free_slot es in if not e.active then some 0 else at_next rest

unfoldable pub entry_at : List PidfdEntry → ℕ → Option PidfdEntry
entry_at [] i = none
entry_at (e ∷ es) zero = some e
entry_at (e ∷ es) (suc i) = entry_at es i

unfoldable pub put_entry : List PidfdEntry → ℕ → PidfdEntry → List PidfdEntry
put_entry [] i e = []
put_entry (d ∷ es) zero e = e ∷ es
put_entry (d ∷ es) (suc i) e = d ∷ put_entry es i e

abbrev pub vacant : PidfdEntry
vacant = record { pid = pos 0; pidfd = negsuc 0; active = false }

-- The writes of `add_pid_to_watch` to a free slot.
unfoldable pub occupy : ℕ → ℤ → ℤ → Process → Process
unfolding put_entry
occupy slot pid pidfd p = record p {
  watched_pids = put_entry p.watched_pids slot (record { pid = pid; pidfd = pidfd; active = true });
  watched_count = increment p.watched_count;
}

-- The writes of `remove_pid_from_watch`.
unfoldable pub vacate : ℕ → Process → Process
unfolding put_entry
vacate slot p = record p {
  watched_pids = put_entry p.watched_pids slot vacant;
  watched_count = decrement p.watched_count;
}

abbrev pub pidfd_of : Option PidfdEntry → ℤ
pidfd_of none = negsuc 0
pidfd_of (some e) = e.pidfd

-- `remove_pid_from_watch`, after its search.
release_slot : List PidfdEntry → Option ℕ → M MonitorCode
unfolding vacate
release_slot table none = pure not_found
release_slot table (some slot) = do
  call (Call.close (pidfd_of (entry_at table slot)))
  modify (vacate slot)
  pure monitor_ok

unfoldable pub remove_pid_from_watch : ℤ → M MonitorCode
unfolding release_slot
remove_pid_from_watch pid = do
  table ← get (λ p. p.watched_pids)
  release_slot table (find_pid_slot table pid)
