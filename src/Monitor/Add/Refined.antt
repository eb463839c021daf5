-- ===== src/Monitor/Add/Refined.antt =====
-- lib/src/monitor.c: the set of PIDs under `add_pid_to_watch`.
use mathlib.Core.Path.{subst, fun_ext}
use pidnl.Base.{
  ℕ, ℤ, pos, negsuc, ◌≡◌, refl, sym, ap, Bool, true, false, not, is_neg, Option, none, some, List,
  ◌∷◌, Option-cases, inl, inr, arith,
}
use pidnl.System.{
  PidfdEntry, Process, Outcome, done, exited, running, M, pure, resume, call, Call, event,
}
use pidnl.System.Keeps.{Keeps, Holds}
use pidnl.System.Returns.{IsDone, Returns}
use pidnl.Monitor.Codes.{MonitorCode, cmd_watch, cmd_unwatch, monitor_ok, no_pidfd}
use pidnl.Monitor.Client.Returns.{in_daemon}
use pidnl.Monitor.Table.{find_pid_slot, find_free_slot, put_entry}
use pidnl.Monitor.Table.Invariant.{watches-occupy}
use pidnl.Monitor.Table.Kept.{IsServing}
use pidnl.Monitor.Table.Refined.{watched-none, watched-some}
use pidnl.Monitor.Watched.{
  PidSet, watched, insert, is_alive, Executes, watch_known, watch_new, watch_full, watch_gone,
  Refines, room_of,
}
use pidnl.Ratelimit.Codes.{RatelimitCode}
use pidnl.Ratelimit.Remove.{unregister_rate_limiter_by_pid}
use pidnl.Ratelimit.Remove.Kept.{unregister_rate_limiter_by_pid-Keeps}
use pidnl.Ratelimit.Remove.Returns.{unregister_rate_limiter_by_pid-Returns}
use pidnl.Monitor.Add.{use_pidfd, fill_slot, add_new, add_pid_to_watch}

-- The daemon, with a table in order that stands for this set.
pub record StandsFor (s : PidSet) (es : List PidfdEntry) (count : ℤ) (here : Bool) : Type 0 where
  pub serving : IsServing es count here
  pub same : watched es ≡ s

occupy-watched :
    (es : List PidfdEntry) (slot : ℕ) (pid pidfd : ℤ)
    → find_free_slot es ≡ some slot
    → insert pid (watched es)
      ≡ watched (put_entry es slot (record { pid = pid; pidfd = pidfd; active = true }))
unfolding watched
occupy-watched es slot pid pidfd h =
    let e : PidfdEntry = record { pid = pid; pidfd = pidfd; active = true } in
    fun_ext (λ q. ground (arith, watches-occupy es slot e q h refl))

-- The process of the PID is gone.
gone-Refines :
    (alive : Bool) (pid : ℤ) (es : List PidfdEntry) (o : Outcome RatelimitCode × Process)
    → IsDone in_daemon o
    → Holds (StandsFor (watched es)) o.1
    → watched es pid ≡ false
    → room_of (find_free_slot es) ≡ true
    → alive ≡ false
    → Refines alive cmd_watch pid es (resume (λ code. pure no_pidfd) o)
gone-Refines alive pid es (done code, q) d v new room gone =
    subst (λ s. Executes (room_of (find_free_slot es)) alive cmd_watch pid (watched es) no_pidfd s)
      (sym v.same) (watch_gone pid (watched es) new room gone)
gone-Refines alive pid es (exited n, q) d v new room gone = d
gone-Refines alive pid es (running, q) d v new room gone = d

module _ (send : ℤ → ℤ → M MonitorCode) (pid : ℤ) (es : List PidfdEntry)
    (k : Keeps (StandsFor (watched es)) (send cmd_unwatch pid))
    (r : Returns in_daemon (send cmd_unwatch pid)) where
  use_pidfd-Refines :
      (p : Process) (slot : ℕ) (pidfd : ℤ)
      → p.watched_pids ≡ es
      → find_free_slot es ≡ some slot
      → watched es pid ≡ false
      → Holds (StandsFor (watched es)) p
      → Refines (not (is_neg pidfd)) cmd_watch pid es (use_pidfd send pid slot pidfd p)
  unfolding use_pidfd
  use_pidfd-Refines p slot (negsuc n) table h new v =
      gone-Refines false pid es (unregister_rate_limiter_by_pid send pid p)
        ((unregister_rate_limiter_by_pid-Returns in_daemon send pid r).apply p v.serving.daemon)
        ((unregister_rate_limiter_by_pid-Keeps (StandsFor (watched es)) send pid k).apply p v) new
        (ap room_of h) refl
  use_pidfd-Refines p slot (pos fd) table h new v = rw (table) (
      subst
        (λ s. Executes (room_of (find_free_slot es)) true cmd_watch pid (watched es) monitor_ok s)
        (occupy-watched es slot pid (pos fd) h)
        (watch_new pid (watched es) new (ap room_of h) refl))

  fill_slot-Refines :
      (p : Process) (slot : Option ℕ)
      → p.watched_pids ≡ es
      → find_free_slot es ≡ slot
      → watched es pid ≡ false
      → Holds (StandsFor (watched es)) p
      → Refines (is_alive pid p) cmd_watch pid es (fill_slot send pid slot p)
  unfolding fill_slot call
  fill_slot-Refines p none table h new v =
      rw (table) (watch_full pid (watched es) new (ap room_of h))
  fill_slot-Refines p (some slot) table h new v =
      let pidfd = p.env p.trace (Call.pidfd_open pid) in
      use_pidfd-Refines (record p { trace = event (Call.pidfd_open pid) pidfd ∷ p.trace }) slot
        pidfd table h new v

-- `send` is asked only to stop watching a PID that is not watched.
pub add_pid_to_watch-Refines :
    (send : ℤ → ℤ → M MonitorCode) (pid : ℤ) (p : Process)
    → (find_pid_slot p.watched_pids pid ≡ none
        → Keeps (StandsFor (watched p.watched_pids)) (send cmd_unwatch pid))
    → Returns in_daemon (send cmd_unwatch pid)
    → IsServing p.watched_pids p.watched_count p.is_monitor_process
    → Refines (is_alive pid p) cmd_watch pid p.watched_pids (add_pid_to_watch send pid p)
unfolding add_pid_to_watch add_new
add_pid_to_watch-Refines send pid p k r v =
    let es = p.watched_pids in
    elim (Option-cases (find_pid_slot es pid)) [
      | inl new ↦ rw (new) (
          fill_slot-Refines send pid es (k new) r p (find_free_slot es) refl refl
            (watched-none es pid new) (record { serving = v; same = refl }))
      | inr (slot, known) ↦
          rw (known) (watch_known pid (watched es) (watched-some es pid slot known))
    ]
