-- ===== src/Monitor/Table/Held.antt =====
-- lib/src/monitor.c: the resources of the table and its removals.
use pidnl.Base.{ℕ, zero, suc, ℤ, ◌+◌, ◌≡◌, refl, true, List, [], ◌∷◌, Option, none, some, arith}
use pidnl.System.{PidfdEntry, Process, call}
use pidnl.System.Ledger.{Resource, stored, fd_tally, Settled, Uses}
use pidnl.Monitor.Table.{
  find_pid_slot, find_free_slot, entry_at, put_entry, vacant, pidfd_of, release_slot,
  remove_pid_from_watch,
}

module _ (r : Resource) where
  pub stored-occupy :
      (es : List PidfdEntry) (slot : ℕ) (e : PidfdEntry)
      → find_free_slot es ≡ some slot
      → e.active ≡ true
      → stored r (put_entry es slot e) ≡ fd_tally r e.pidfd + stored r es
  unfolding find_free_slot put_entry stored
  stored-occupy [] slot e h a = absurd (cc)
  stored-occupy (d ∷ es) zero e h a = ground arith
  stored-occupy (d ∷ es) (suc slot) e h a = ground (arith, stored-occupy es slot e)

  stored-vacate :
      (es : List PidfdEntry) (pid : ℤ) (slot : ℕ)
      → find_pid_slot es pid ≡ some slot
      → fd_tally r (pidfd_of (entry_at es slot)) + stored r (put_entry es slot vacant) ≡ stored r es
  unfolding find_pid_slot put_entry entry_at stored
  stored-vacate [] pid slot h = absurd (cc)
  stored-vacate (d ∷ es) pid zero h = ground arith
  stored-vacate (d ∷ es) pid (suc slot) h = ground (arith, stored-vacate es pid slot)

  release_slot-Settled :
      (pid : ℤ) (p : Process) (slot : Option ℕ)
      → find_pid_slot p.watched_pids pid ≡ slot
      → Settled r 0 (λ _. 0) p (release_slot p.watched_pids slot p)
  unfolding release_slot call
  release_slot-Settled pid p none h = omega arith
  release_slot-Settled pid p (some slot) h = omega (arith, stored-vacate p.watched_pids pid slot h)

  -- The descriptor that the table gives up is closed.
  pub remove_pid_from_watch-Uses : (pid : ℤ) → Uses r 0 (remove_pid_from_watch pid) (λ _. 0)
  unfolding remove_pid_from_watch
  remove_pid_from_watch-Uses pid = record {
    apply = λ p. release_slot-Settled pid p (find_pid_slot p.watched_pids pid) refl;
  }
