-- ===== src/Monitor/Daemon/Swept.antt =====
-- lib/src/monitor.c: a round of the daemon in which no client calls.
use mathlib.Core.Path.{subst}
use pidnl.Base.{
  ℕ, suc, ◌≡◌, refl, sym, ap, ◌∙◌, ℤ, pos, is_zero, int_eq_refl, Bool, true, false, not, ◌&&◌, ◌||◌,
  List, [], ◌∷◌, ◌==◌, length, Bool-cases, inl, inr, if◌then◌else◌, arith,
}
use pidnl.System.{PidfdEntry, Process, done, M, call, Call, event, polled}
use pidnl.Monitor.Codes.{MonitorCode}
use pidnl.Monitor.Table.{vacant}
use pidnl.Monitor.Table.Invariant.{active_count}
use pidnl.Monitor.Table.Kept.{IsServing}
use pidnl.Monitor.Client.{send_command}
use pidnl.Monitor.Daemon.{contains, active_pidfds, served, reap, finish, after_poll, round}
use pidnl.Monitor.Daemon.Reaped.{has_died, purged, reap-purged}

-- The table without the entries whose descriptor is ready.
unfoldable pub swept : List ℤ → List PidfdEntry → List PidfdEntry
unfolding contains
swept ready [] = []
swept ready (e ∷ es) = (if e.active && contains ready e.pidfd then vacant else e) ∷ swept ready es

-- Every active entry is polled.
Covers : List ℤ → List PidfdEntry → Type 0
Covers pidfds [] = Unit
Covers pidfds (e ∷ es) = ((not e.active || contains pidfds e.pidfd) ≡ true) × Covers pidfds es

more-Covers :
    (fd : ℤ) (pidfds : List ℤ) (es : List PidfdEntry) → Covers pidfds es → Covers (fd ∷ pidfds) es
unfolding Covers contains
more-Covers fd pidfds [] c = tt
more-Covers fd pidfds (e ∷ es) (c, cs) = (ground arith, more-Covers fd pidfds es cs)

abbrev with_pidfd : PidfdEntry → List PidfdEntry → Bool → List ℤ
with_pidfd e es active = if active then e.pidfd ∷ active_pidfds es else active_pidfds es

active_pidfds-active :
    (e : PidfdEntry) (es : List PidfdEntry) → active_pidfds (e ∷ es) ≡ with_pidfd e es e.active
unfolding active_pidfds
active_pidfds-active e es = refl

active_pidfds-Covers : (es : List PidfdEntry) → Covers (active_pidfds es) es
unfolding Covers contains
active_pidfds-Covers [] = tt
active_pidfds-Covers (e ∷ es) =
    let rest = active_pidfds-Covers es in
    elim (Bool-cases e.active) [
      | inl active ↦
          subst (λ fds. Covers fds (e ∷ es))
            (sym (active_pidfds-active e es ∙ ap (with_pidfd e es) active))
            (ground (arith, int_eq_refl e.pidfd), more-Covers e.pidfd (active_pidfds es) es rest)
      | inr idle ↦
          subst (λ fds. Covers fds (e ∷ es))
            (sym (active_pidfds-active e es ∙ ap (with_pidfd e es) idle)) (ground arith, rest)
    ]

purged-swept :
    (pidfds ready : List ℤ) (es : List PidfdEntry)
    → Covers pidfds es
    → purged pidfds ready es ≡ swept ready es
unfolding purged swept Covers has_died
purged-swept pidfds ready [] c = refl
purged-swept pidfds ready (e ∷ es) (c, cs) =
    let rest = purged-swept pidfds ready es cs in
    elim (Bool-cases (contains pidfds e.pidfd)) [
      | inl found ↦ rw (found, rest)
      | inr missing ↦ let idle : e.active ≡ false = ground arith in rw (idle, rest)
    ]

watches_more :
    (count : ℤ) (n : ℕ) → count ≡ pos n → (if is_zero count then false else true) ≡ not (n == 0)
watches_more count n e = rw (e) (ground arith)

finish-reaped :
    (send : ℤ → ℤ → M MonitorCode) (pidfds ready : List ℤ) (slots : ℕ) (p q : Process)
    → reap send pidfds ready slots 0 p ≡ (done tt, q)
    → finish send pidfds ready slots (served true) p
      ≡ (done (if is_zero q.watched_count then false else true), q)
unfolding finish
finish-reaped send pidfds ready slots p q f = rw (f) refl

after_poll-swept :
    (depth : ℕ) (p : Process) (pidfds ready : List ℤ) (listener : ℤ)
    → Covers pidfds p.watched_pids
    → IsServing p.watched_pids p.watched_count p.is_monitor_process
    → contains ready listener ≡ false
    → (q : Process) × (after_poll
          (send_command (suc depth))
          pidfds
          listener
          (length p.watched_pids)
          (polled ready)
          p
        ≡ (done (not (active_count q.watched_pids == 0)), q))
      × IsServing q.watched_pids q.watched_count q.is_monitor_process
      × (q.watched_pids ≡ swept ready p.watched_pids)
unfolding after_poll
after_poll-swept depth p pidfds ready listener c v quiet =
    let (q, f, serves, table) = reap-purged depth pidfds ready p v in
    (
      q,
      rw (quiet) (
          finish-reaped (send_command (suc depth)) pidfds ready (length p.watched_pids) p q f
          ∙ ap (λ b. (done b, q))
              (watches_more q.watched_count (active_count q.watched_pids) serves.table.counted)),
      serves,
      table ∙ purged-swept pidfds ready p.watched_pids c,
    )

-- In the daemon, with its table in order, a round in which `poll` succeeds and no client calls. The
-- round ends, whatever the other calls answer. The entries of the watched processes whose descriptor
-- is ready are then vacant, all others are as they were, each in its slot, and the table is in order;
-- and the loop goes on exactly if a process is still watched.
pub round-swept :
    (depth : ℕ) (p : Process) (ready : List ℤ)
    → IsServing p.watched_pids p.watched_count p.is_monitor_process
    → p.env p.trace (Call.poll_all (p.monitor_socket ∷ active_pidfds p.watched_pids)) ≡ polled ready
    → contains ready p.monitor_socket ≡ false
    → (q : Process) × (round (send_command (suc depth)) p
        ≡ (done (not (active_count q.watched_pids == 0)), q))
      × IsServing q.watched_pids q.watched_count q.is_monitor_process
      × (q.watched_pids ≡ swept ready p.watched_pids)
unfolding round call
round-swept depth p ready v answer quiet =
    let fds = active_pidfds p.watched_pids in
    let c = Call.poll_all (p.monitor_socket ∷ fds) in
    let p' : Process = record p { trace = event c (p.env p.trace c) ∷ p.trace } in
    let (q, f, serves, table) =
      after_poll-swept depth p' fds ready p.monitor_socket (active_pidfds-Covers p.watched_pids) v
        quiet in
    (
      q,
      ap
            (λ result.
              after_poll (send_command (suc depth)) fds p.monitor_socket (length p.watched_pids)
                result p')
            answer
          ∙ f,
      serves,
      table,
    )
