-- ===== src/Monitor/Table/Returns.antt =====
-- lib/src/monitor.c: the outcome of the table and its removals.
use pidnl.Base.{ℕ, ℤ, Option, none, some, List}
use pidnl.System.{PidfdEntry, call}
use pidnl.System.Returns.{Condition, Returns}
use pidnl.Monitor.Table.{find_pid_slot, vacate, release_slot, remove_pid_from_watch}

module _ (P : Condition) where
  release_slot-Returns :
      (table : List PidfdEntry) (slot : Option ℕ) → Returns P (release_slot table slot)
  unfolding release_slot call vacate
  release_slot-Returns table none = record { apply = λ p h. h }
  release_slot-Returns table (some slot) = record { apply = λ p h. h }

  pub remove_pid_from_watch-Returns : (pid : ℤ) → Returns P (remove_pid_from_watch pid)
  unfolding remove_pid_from_watch
  remove_pid_from_watch-Returns pid = record {
    apply = λ p. (release_slot-Returns p.watched_pids (find_pid_slot p.watched_pids pid)).apply p;
  }
