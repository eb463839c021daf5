-- ===== src/Monitor/Daemon.antt =====
-- lib/src/monitor.c: the loop of `monitor_run`. One round is `round`, which tells whether the loop
-- goes on.
pub mod Held
pub mod Returns
pub mod Balance
pub mod Kept
pub mod Reaped
pub mod Swept
use pidnl.Base.{
  ℕ, zero, suc, ℤ, is_neg, is_zero, int_eq, Bool, true, false, not, ◌&&◌, ◌||◌, List, [], ◌∷◌,
  Option, none, some, if◌then◌else◌, ◌==◌, length,
}
use pidnl.System.{
  PidfdEntry, M, pure, running, get, ◌>>=◌, ◌>>◌, call, Call, Errno, eintr, MonitorCmd, message,
  Incoming, cut_short, Polled, poll_failed, polled,
}
use pidnl.Monitor.Codes.{
  MonitorCode, monitor_ok, not_found, cmd_watch, cmd_unwatch, cmd_stop, code_int,
}
use pidnl.Monitor.Table.{entry_at, remove_pid_from_watch}
use pidnl.Monitor.Add.{add_pid_to_watch}
use pidnl.Ratelimit.Remove.{unregister_rate_limiter_by_pid}

is_eintr : Errno → Bool
is_eintr eintr = true
is_eintr _ = false

unfoldable pub contains : List ℤ → ℤ → Bool
contains [] fd = false
contains (x ∷ xs) fd = int_eq x fd || contains xs fd

-- The descriptors of the active entries, as `fds[1..]` lists them.
unfoldable pub active_pidfds : List PidfdEntry → List ℤ
active_pidfds [] = []
active_pidfds (e ∷ es) = let rest = active_pidfds es in if e.active then e.pidfd ∷ rest else rest

is_root : Option ℕ → Bool
is_root none = false
is_root (some uid) = uid == 0

-- `continue`, or the value of `running` after the command.
pub data Served : Type 0 where
  skipped : Served
  served : Bool → Served

refused : ℤ → M Served
refused client = call (Call.close client) >> pure skipped

module _ (send : ℤ → ℤ → M MonitorCode) where
  execute : MonitorCmd → M (MonitorCode × Bool)
  execute msg =
      if int_eq msg.cmd cmd_watch
      then add_pid_to_watch send msg.pid >>= (λ result. pure (result, true))
      else if int_eq msg.cmd cmd_unwatch
      then remove_pid_from_watch msg.pid >>= (λ result. pure (result, true))
      else if int_eq msg.cmd cmd_stop
      then pure (monitor_ok, false)
      else pure (not_found, true)

  -- The command is carried out, and its result written back.
  answer : ℤ → Incoming → M Served
  unfolding execute code_int refused
  answer client cut_short = refused client
  answer client (message msg) = do
    result ← execute msg
    call (Call.write_result client (code_int result.0))
    call (Call.close client)
    pure (served result.1)

  -- A connection: only root may send a command.
  serve_client : M Served
  unfolding answer is_root
  serve_client = do
    listener ← get (λ p. p.monitor_socket)
    client ← call (Call.accept listener)
    if is_neg client then pure skipped else do
      uid ← call (Call.get_peer_uid client)
      if not (is_root uid)
          then refused client
          else do incoming ← call (Call.read_command client); answer client incoming

  -- A watched process whose descriptor is ready has died.
  reap_entry : List ℤ → List ℤ → Option PidfdEntry → M (Unit {0})
  unfolding contains
  reap_entry pidfds ready none = pure tt
  reap_entry pidfds ready (some e) =
      if e.active && (contains pidfds e.pidfd && contains ready e.pidfd)
      then unregister_rate_limiter_by_pid send e.pid >> pure tt
      else pure tt

  -- The slots from `i` on.
  pub reap : List ℤ → List ℤ → ℕ → ℕ → M (Unit {0})
  unfolding reap_entry entry_at
  reap pidfds ready zero i = pure tt
  reap pidfds ready (suc n) i = do
    table ← get (λ p. p.watched_pids)
    reap_entry pidfds ready (entry_at table i)
    reap pidfds ready n (suc i)

  -- The part of a round behind the connection, which `continue` leaves out.
  finish : List ℤ → List ℤ → ℕ → Served → M Bool
  unfolding reap
  finish pidfds ready slots skipped = pure true
  finish pidfds ready slots (served go_on) = do
    reap pidfds ready slots 0
    count ← get (λ p. p.watched_count)
    pure (if is_zero count then false else go_on)

  -- The part of a round behind `poll`. An interrupted `poll` is called again.
  after_poll : List ℤ → ℤ → ℕ → Polled → M Bool
  unfolding serve_client finish is_eintr contains
  after_poll pidfds listener slots (poll_failed errno) = pure (is_eintr errno)
  after_poll pidfds listener slots (polled ready) = do
    connection ← if contains ready listener then serve_client else pure (served true)
    finish pidfds ready slots connection

  unfoldable pub round : M Bool
  unfolding after_poll active_pidfds
  round = do
    table ← get (λ p. p.watched_pids)
    listener ← get (λ p. p.monitor_socket)
    let pidfds = active_pidfds table
    result ← call (Call.poll_all (listener ∷ pidfds))
    after_poll pidfds listener (length table) result

  -- `while (running)`, for as many rounds as there is fuel.
  unfoldable pub event_loop : ℕ → M (Unit {0})
  event_loop zero = λ p. (running, p)
  event_loop (suc n) = let rest = event_loop n in round >>= (λ more. if more then rest else pure tt)
