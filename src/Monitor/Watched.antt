-- ===== src/Monitor/Watched.antt =====
-- lib/src/monitor.c: what the daemon's table stands for, without its order and its slots: a set of
-- PIDs, and what a command does to it.
use pidnl.Base.{
  ℕ, ℤ, ◌≡◌, Bool, true, false, not, ◌||◌, ◌&&◌, List, int_eq, ltb, is_neg, Option, none, some,
}
use pidnl.System.{PidfdEntry, Process, Call, Outcome, done, exited, running}
use pidnl.Monitor.Codes.{
  MonitorCode, cmd_watch, cmd_unwatch, monitor_ok, no_slots, no_pidfd, not_found,
}
use pidnl.Monitor.Table.{find_free_slot}
use pidnl.Monitor.Table.Invariant.{watches}

abbrev pub PidSet : Type 0
PidSet = ℤ → Bool

unfoldable pub watched : List PidfdEntry → PidSet
unfolding watches
watched es pid = ltb 0 (watches es pid)

abbrev pub insert : ℤ → PidSet → PidSet
insert pid s q = int_eq pid q || s q

abbrev pub delete : ℤ → PidSet → PidSet
delete pid s q = not (int_eq pid q) && s q

-- `room`: a slot is free.
abbrev pub room_of : Option ℕ → Bool
room_of none = false
room_of (some slot) = true

-- `pidfd_open`, called next, finds the process.
abbrev pub is_alive : ℤ → Process → Bool
is_alive pid p = not (is_neg (p.env p.trace (Call.pidfd_open pid)))

-- A command, the set before it, its result, and the set after it. A PID that is to be watched is put
-- in exactly if there is room and its process is alive.
pub data Executes (room alive : Bool) : ℤ → ℤ → PidSet → MonitorCode → PidSet → Type 0 where
  watch_known :
      (pid : ℤ) (s : PidSet) → s pid ≡ true → Executes room alive cmd_watch pid s monitor_ok s
  watch_new :
      (pid : ℤ) (s : PidSet)
      → s pid ≡ false
      → room ≡ true
      → alive ≡ true
      → Executes room alive cmd_watch pid s monitor_ok (insert pid s)
  watch_full :
      (pid : ℤ) (s : PidSet)
      → s pid ≡ false
      → room ≡ false
      → Executes room alive cmd_watch pid s no_slots s
  watch_gone :
      (pid : ℤ) (s : PidSet)
      → s pid ≡ false
      → room ≡ true
      → alive ≡ false
      → Executes room alive cmd_watch pid s no_pidfd s
  unwatch_known :
      (pid : ℤ) (s : PidSet)
      → s pid ≡ true
      → Executes room alive cmd_unwatch pid s monitor_ok (delete pid s)
  unwatch_unknown :
      (pid : ℤ) (s : PidSet) → s pid ≡ false → Executes room alive cmd_unwatch pid s not_found s
  other_command :
      (cmd pid : ℤ) (s : PidSet)
      → int_eq cmd cmd_watch ≡ false
      → int_eq cmd cmd_unwatch ≡ false
      → Executes room alive cmd pid s not_found s

-- The operation returns a result, and its table stands for a set that the command allows.
abbrev pub Refines : Bool → ℤ → ℤ → List PidfdEntry → Outcome MonitorCode × Process → Type 0
Refines alive cmd pid es (done code, q) =
    Executes (room_of (find_free_slot es)) alive cmd pid (watched es) code (watched q.watched_pids)
Refines alive cmd pid es (exited n, q) = ⊥
Refines alive cmd pid es (running, q) = ⊥
