-- ===== src/Monitor/Table/Invariant.antt =====
-- lib/src/monitor.c: the order of the daemon's table.
use pidnl.Base.{
  ℕ, zero, suc, ℤ, pos, int_eq, int_eq_iff, ◌+◌, ◌≤◌, ◌≡◌, Bool, true, ◌&&◌, List, [], ◌∷◌, none,
  some, if◌then◌else◌, arith,
}
use pidnl.System.{PidfdEntry}
use pidnl.Monitor.Table.{find_pid_slot, find_free_slot, put_entry, vacant}

unfoldable pub active_count : List PidfdEntry → ℕ
active_count [] = 0
active_count (e ∷ es) = (if e.active then 1 else 0) + active_count es

-- How many active entries there are for the PID.
unfoldable pub watches : List PidfdEntry → ℤ → ℕ
watches [] pid = 0
watches (e ∷ es) pid = (if e.active && int_eq e.pid pid then 1 else 0) + watches es pid

pub record IsTable (es : List PidfdEntry) (count : ℤ) : Type 0 where
  pub counted : count ≡ pos (active_count es)
  pub once : (pid : ℤ) → watches es pid ≤ 1

pub active_count-occupy :
    (es : List PidfdEntry) (slot : ℕ) (e : PidfdEntry)
    → find_free_slot es ≡ some slot
    → e.active ≡ true
    → active_count (put_entry es slot e) ≡ suc (active_count es)
unfolding find_free_slot put_entry active_count
active_count-occupy [] slot e h a = absurd (cc)
active_count-occupy (d ∷ es) zero e h a = ground arith
active_count-occupy (d ∷ es) (suc slot) e h a = ground (arith, active_count-occupy es slot e)

pub active_count-vacate :
    (es : List PidfdEntry) (pid : ℤ) (slot : ℕ)
    → find_pid_slot es pid ≡ some slot
    → active_count es ≡ suc (active_count (put_entry es slot vacant))
unfolding find_pid_slot put_entry active_count
active_count-vacate [] pid slot h = absurd (cc)
active_count-vacate (d ∷ es) pid zero h = ground arith
active_count-vacate (d ∷ es) pid (suc slot) h = ground (arith, active_count-vacate es pid slot)

abbrev pub one_if : Bool → ℕ
one_if b = if b then 1 else 0

pub watches-occupy :
    (es : List PidfdEntry) (slot : ℕ) (e : PidfdEntry) (q : ℤ)
    → find_free_slot es ≡ some slot
    → e.active ≡ true
    → watches (put_entry es slot e) q ≡ one_if (int_eq e.pid q) + watches es q
unfolding find_free_slot put_entry watches
watches-occupy [] slot e q h a = absurd (cc)
watches-occupy (d ∷ es) zero e q h a = ground arith
watches-occupy (d ∷ es) (suc slot) e q h a = ground (arith, watches-occupy es slot e q)

pub watches-vacate :
    (es : List PidfdEntry) (pid : ℤ) (slot : ℕ) (q : ℤ)
    → find_pid_slot es pid ≡ some slot
    → watches es q ≡ one_if (int_eq pid q) + watches (put_entry es slot vacant) q
unfolding find_pid_slot put_entry watches
watches-vacate [] pid slot q h = absurd (cc)
watches-vacate (d ∷ es) pid zero q h = ground (arith, int_eq_iff d.pid pid)
watches-vacate (d ∷ es) pid (suc slot) q h = ground (arith, watches-vacate es pid slot q)

-- The search fails exactly if no active entry has the PID.
pub find_pid_slot_iff :
    (es : List PidfdEntry) (pid : ℤ)
    → ((find_pid_slot es pid ≡ none) → watches es pid ≡ 0)
      × ((watches es pid ≡ 0) → find_pid_slot es pid ≡ none)
unfolding find_pid_slot watches
find_pid_slot_iff [] pid = ground arith
find_pid_slot_iff (e ∷ es) pid = ground (arith, find_pid_slot_iff es pid)
