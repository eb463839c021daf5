-- ===== src/Monitor/Daemon/Reaped.antt =====
-- lib/src/monitor.c: the part of a round that looks for processes that have died.
use mathlib.Core.Path.{subst}
use pidnl.Base.{
  ℕ, suc, ◌+◌, ◌≤◌, ◌≡◌, refl, sym, ap, ◌∙◌, ℤ, int_eq_refl, Bool, true, ◌&&◌, List, [], ◌∷◌, ◌++◌,
  some, length, length-append, append_assoc, Bool-cases, inl, inr, if◌then◌else◌, arith,
}
use pidnl.System.{PidfdEntry, Process, done, M, resume, ◌>>◌}
use pidnl.System.Keeps.{Holds, resume-Holds}
use pidnl.System.Returns.{done-result}
use pidnl.Monitor.Codes.{MonitorCode, cmd_unwatch}
use pidnl.Monitor.Table.{find_pid_slot, entry_at, put_entry, vacant}
use pidnl.Monitor.Table.Invariant.{watches}
use pidnl.Monitor.Table.Kept.{IsServing}
use pidnl.Monitor.Table.Refined.{remove_pid_from_watch-table}
use pidnl.Monitor.Client.{local_command, send_command}
use pidnl.Monitor.Client.Kept.{send_step-local, send_command-Keeps}
use pidnl.Monitor.Client.Returns.{in_daemon, unwatch-Returns}
use pidnl.Ratelimit.Codes.{RatelimitCode}
use pidnl.Ratelimit.Remove.{unregister_rate_limiter_by_pid}
use pidnl.Ratelimit.Remove.Kept.{delete_pid_cgroup-Keeps, unregister_rate_limiter_by_pid-Keeps}
use pidnl.Ratelimit.Remove.Returns.{unregister_rate_limiter_by_pid-Returns}
use pidnl.Monitor.Daemon.{contains, reap_entry, reap}

-- The entry is active, was polled, and its process has died.
unfoldable pub has_died : List ℤ → List ℤ → PidfdEntry → Bool
unfolding contains
has_died pidfds ready e = e.active && (contains pidfds e.pidfd && contains ready e.pidfd)

-- The table without the entries of the processes that have died.
unfoldable pub purged : List ℤ → List ℤ → List PidfdEntry → List PidfdEntry
unfolding has_died
purged pidfds ready [] = []
purged pidfds ready (e ∷ es) =
    (if has_died pidfds ready e then vacant else e) ∷ purged pidfds ready es

entry_at-append :
    (pre suf : List PidfdEntry) (e : PidfdEntry) → entry_at (pre ++ (e ∷ suf)) (length pre) ≡ some e
unfolding entry_at
entry_at-append [] suf e = refl
entry_at-append (d ∷ pre) suf e = entry_at-append pre suf e

put_entry-append :
    (pre suf : List PidfdEntry) (e e' : PidfdEntry)
    → put_entry (pre ++ (e ∷ suf)) (length pre) e' ≡ pre ++ (e' ∷ suf)
unfolding put_entry
put_entry-append [] suf e e' = refl
put_entry-append (d ∷ pre) suf e e' = ap (λ es. d ∷ es) (put_entry-append pre suf e e')

watches-append :
    (pre suf : List PidfdEntry) (pid : ℤ)
    → watches (pre ++ suf) pid ≡ watches pre pid + watches suf pid
unfolding watches
watches-append [] suf pid = omega arith
watches-append (d ∷ pre) suf pid = omega (arith, watches-append pre suf pid)

-- The first entry of a PID that is not watched before it.
find_pid_slot-append :
    (pre suf : List PidfdEntry) (e : PidfdEntry)
    → e.active ≡ true
    → watches pre e.pid ≡ 0
    → find_pid_slot (pre ++ (e ∷ suf)) e.pid ≡ some (length pre)
unfolding find_pid_slot watches
find_pid_slot-append [] suf e a h = rw (a, int_eq_refl e.pid)
find_pid_slot-append (d ∷ pre) suf e a h = ground (arith, find_pid_slot-append pre suf e a)

watches-active :
    (suf : List PidfdEntry) (e : PidfdEntry) → e.active ≡ true → 1 ≤ watches (e ∷ suf) e.pid
unfolding watches
watches-active suf e a = rw (a, int_eq_refl e.pid) (omega arith)

unregister-table :
    (send : ℤ → ℤ → M MonitorCode) (pid : ℤ) (p : Process) (es : List PidfdEntry)
    → (send cmd_unwatch pid p).1.watched_pids ≡ es
    → (unregister_rate_limiter_by_pid send pid p).1.watched_pids ≡ es
unfolding unregister_rate_limiter_by_pid
unregister-table send pid p es h =
    resume-Holds (λ table count here. table ≡ es) _ (send cmd_unwatch pid p) h
      λ code. delete_pid_cgroup-Keeps (λ table count here. table ≡ es) pid

unwatch-table :
    (depth : ℕ) (pid : ℤ) (p : Process) (slot : ℕ)
    → p.is_monitor_process ≡ true
    → find_pid_slot p.watched_pids pid ≡ some slot
    → (send_command (suc depth) cmd_unwatch pid p).1.watched_pids
      ≡ put_entry p.watched_pids slot vacant
unfolding send_command local_command
unwatch-table depth pid p slot daemon h =
    rw (send_step-local (send_command depth) cmd_unwatch pid p daemon)
      (remove_pid_from_watch-table pid p slot h)

-- The slot of the entry behind `pre`.
own_slot :
    (p : Process) (pre suf : List PidfdEntry) (e : PidfdEntry)
    → IsServing p.watched_pids p.watched_count p.is_monitor_process
    → p.watched_pids ≡ pre ++ (e ∷ suf)
    → e.active ≡ true
    → find_pid_slot p.watched_pids e.pid ≡ some (length pre)
own_slot p pre suf e v table a =
    let once = v.table.once e.pid in
    let split = ap (λ es. watches es e.pid) table ∙ watches-append pre (e ∷ suf) e.pid in
    let here = watches-active suf e a in
    ap (λ es. find_pid_slot es e.pid) table
    ∙ find_pid_slot-append pre suf e a (omega (arith, once, split, here))

next_slot : (pre : List PidfdEntry) (e : PidfdEntry) → length (pre ++ (e ∷ [])) ≡ suc (length pre)
next_slot pre e = omega (arith, length-append pre (e ∷ []))

module _ (depth : ℕ) (pidfds ready : List ℤ) where
  dead-reaped :
      (p : Process) (pre suf : List PidfdEntry) (e : PidfdEntry)
      → IsServing p.watched_pids p.watched_count p.is_monitor_process
      → p.watched_pids ≡ pre ++ (e ∷ suf)
      → e.active ≡ true
      → (code : RatelimitCode) × (q : Process) × (unregister_rate_limiter_by_pid
            (send_command (suc depth))
            e.pid
            p
          ≡ (done code, q))
        × IsServing q.watched_pids q.watched_count q.is_monitor_process
        × (q.watched_pids ≡ pre ++ (vacant ∷ suf))
  unfolding send_command
  dead-reaped p pre suf e v table a =
      let send = send_command (suc depth) in
      let o = unregister_rate_limiter_by_pid send e.pid p in
      let returns =
        (unregister_rate_limiter_by_pid-Returns in_daemon send e.pid
            (unwatch-Returns (send_command depth) e.pid)).apply
          p v.daemon in
      let serves =
        (unregister_rate_limiter_by_pid-Keeps IsServing send e.pid
            (send_command-Keeps (suc depth) cmd_unwatch e.pid)).apply
          p v in
      let vacated =
        unregister-table send e.pid p (put_entry p.watched_pids (length pre) vacant)
          (unwatch-table depth e.pid p (length pre) v.daemon (own_slot p pre suf e v table a))
        ∙ (ap (λ es. put_entry es (length pre) vacant) table ∙ put_entry-append pre suf e vacant) in
      let (code, q, same) = done-result in_daemon o returns in
      (
        code,
        q,
        same,
        subst (λ r. Holds IsServing r.1) same serves,
        sym (ap (λ r. r.1.watched_pids) same) ∙ vacated,
      )

  reap_entry-purged :
      (p : Process) (pre suf : List PidfdEntry) (e : PidfdEntry)
      → IsServing p.watched_pids p.watched_count p.is_monitor_process
      → p.watched_pids ≡ pre ++ (e ∷ suf)
      → (q : Process) × (reap_entry (send_command (suc depth)) pidfds ready (some e) p
          ≡ (done tt, q))
        × IsServing q.watched_pids q.watched_count q.is_monitor_process
        × (q.watched_pids ≡ pre ++ ((if has_died pidfds ready e then vacant else e) ∷ suf))
  unfolding reap_entry has_died
  reap_entry-purged p pre suf e v table = elim (Bool-cases (has_died pidfds ready e)) [
    | inr lives ↦ (p, rw (lives) refl, v, rw (lives) table)
    | inl died ↦
        let (code, q, same, serves, vacated) = dead-reaped p pre suf e v table (ground arith) in
        (q, rw (died, same) refl, serves, rw (died) vacated)
  ]

  -- The slots from the end of `pre` on.
  reap-suffix :
      (pre suf : List PidfdEntry) (p : Process)
      → IsServing p.watched_pids p.watched_count p.is_monitor_process
      → p.watched_pids ≡ pre ++ suf
      → (q : Process) × (reap (send_command (suc depth)) pidfds ready (length suf) (length pre) p
          ≡ (done tt, q))
        × IsServing q.watched_pids q.watched_count q.is_monitor_process
        × (q.watched_pids ≡ pre ++ purged pidfds ready suf)
  unfolding reap purged
  reap-suffix pre [] p v table = (p, refl, v, table)
  reap-suffix pre (e ∷ suf) p v table =
      let e' = if has_died pidfds ready e then vacant else e in
      let (q, f, serves, purged_one) = reap_entry-purged p pre suf e v table in
      let (r, g, serves', purged_all) =
        reap-suffix (pre ++ (e' ∷ [])) suf q serves
          (purged_one ∙ sym (append_assoc pre (e' ∷ []) suf)) in
      let send = send_command (suc depth) in
      let rest = reap send pidfds ready (length suf) (suc (length pre)) in
      let here = ap (λ es. entry_at es (length pre)) table ∙ entry_at-append pre suf e in
      (
        r,
        ap (λ o. (reap_entry send pidfds ready o >> rest) p) here
            ∙ (ap (resume (λ _. rest)) f
                ∙ (ap (λ i. reap send pidfds ready (length suf) i q) (sym (next_slot pre e')) ∙ g)),
        serves',
        purged_all ∙ append_assoc pre (e' ∷ []) (purged pidfds ready suf),
      )

-- In the daemon, with its table in order, the reaping at the end of a round ends, whatever the calls
-- answer. Every entry whose process has died, by a descriptor that was polled and is ready, is then
-- vacant; all others are as they were, each in its slot; and the table is in order.
pub reap-purged :
    (depth : ℕ) (pidfds ready : List ℤ) (p : Process)
    → IsServing p.watched_pids p.watched_count p.is_monitor_process
    → (q : Process) × (reap (send_command (suc depth)) pidfds ready (length p.watched_pids) 0 p
        ≡ (done tt, q))
      × IsServing q.watched_pids q.watched_count q.is_monitor_process
      × (q.watched_pids ≡ purged pidfds ready p.watched_pids)
reap-purged depth pidfds ready p v = reap-suffix depth pidfds ready [] p.watched_pids p v refl
