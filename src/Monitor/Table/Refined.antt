-- ===== src/Monitor/Table/Refined.antt =====
-- lib/src/monitor.c: the set of PIDs under `remove_pid_from_watch`.
use mathlib.Core.Path.{subst, fun_ext}
use pidnl.Base.{
  ℕ, ℤ, Bool, ◌≡◌, refl, sym, true, false, Option, none, some, List, ltb, Bool-cases, inl, inr,
  arith,
}
use pidnl.System.{PidfdEntry, Process, call}
use pidnl.Monitor.Codes.{cmd_unwatch, monitor_ok}
use pidnl.Monitor.Table.{
  find_pid_slot, find_free_slot, put_entry, vacant, release_slot, remove_pid_from_watch,
}
use pidnl.Monitor.Table.Invariant.{watches, IsTable, watches-vacate, find_pid_slot_iff}
use pidnl.Monitor.Watched.{
  watched, delete, Executes, unwatch_known, unwatch_unknown, Refines, room_of,
}

-- A PID is in the set exactly if the search finds a slot.
pub watched-none :
    (es : List PidfdEntry) (pid : ℤ) → find_pid_slot es pid ≡ none → watched es pid ≡ false
unfolding watched
watched-none es pid h = ground (arith, (find_pid_slot_iff es pid).0 h)

pub watched-some :
    (es : List PidfdEntry) (pid : ℤ) (slot : ℕ)
    → find_pid_slot es pid ≡ some slot
    → watched es pid ≡ true
unfolding watched
watched-some es pid slot h = elim (Bool-cases (ltb 0 (watches es pid))) [
  | inl there ↦ there
  | inr away ↦
      let nowhere = (find_pid_slot_iff es pid).1 (ground arith) in absurd (cc (sym h, nowhere))
]

vacate-watched :
    (es : List PidfdEntry) (count pid : ℤ) (slot : ℕ)
    → find_pid_slot es pid ≡ some slot
    → IsTable es count
    → delete pid (watched es) ≡ watched (put_entry es slot vacant)
unfolding watched
vacate-watched es count pid slot h t =
    fun_ext (λ q. ground (arith, watches-vacate es pid slot q h, t.once q))

release_slot-Refines :
    (alive : Bool) (pid : ℤ) (p : Process) (slot : Option ℕ)
    → find_pid_slot p.watched_pids pid ≡ slot
    → IsTable p.watched_pids p.watched_count
    → Refines alive cmd_unwatch pid p.watched_pids (release_slot p.watched_pids slot p)
unfolding release_slot call
release_slot-Refines alive pid p none h t =
    unwatch_unknown pid (watched p.watched_pids) (watched-none p.watched_pids pid h)
release_slot-Refines alive pid p (some slot) h t =
    subst
      (λ s.
        Executes (room_of (find_free_slot p.watched_pids)) alive cmd_unwatch pid
          (watched p.watched_pids) monitor_ok s)
      (vacate-watched p.watched_pids p.watched_count pid slot h t)
      (unwatch_known pid (watched p.watched_pids) (watched-some p.watched_pids pid slot h))

pub remove_pid_from_watch-Refines :
    (alive : Bool) (pid : ℤ) (p : Process)
    → IsTable p.watched_pids p.watched_count
    → Refines alive cmd_unwatch pid p.watched_pids (remove_pid_from_watch pid p)
unfolding remove_pid_from_watch
remove_pid_from_watch-Refines alive pid p t =
    release_slot-Refines alive pid p (find_pid_slot p.watched_pids pid) refl t

release_slot-table :
    (p : Process) (slot : ℕ)
    → (release_slot p.watched_pids (some slot) p).1.watched_pids
      ≡ put_entry p.watched_pids slot vacant
unfolding release_slot call
release_slot-table p slot = refl

-- The slot of a watched PID becomes vacant.
pub remove_pid_from_watch-table :
    (pid : ℤ) (p : Process) (slot : ℕ)
    → find_pid_slot p.watched_pids pid ≡ some slot
    → (remove_pid_from_watch pid p).1.watched_pids ≡ put_entry p.watched_pids slot vacant
unfolding remove_pid_from_watch
remove_pid_from_watch-table pid p slot h = rw (h) (release_slot-table p slot)
