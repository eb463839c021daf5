-- ===== src/Gui/Whole.antt =====
-- gui/: a session of the window and the privileged process, from the start of both.
use mathlib.Core.Path.{subst}
use pidnl.Base.{
  ℕ, suc, ◌≤◌, ◌≡◌, refl, sym, ◌∙◌, inl, inr, ℤ, to_ℕ, is_zero, int_eq, int_eq_iff, Bool, true,
  false, List, [], ◌∷◌, ◌++◌, Text, Option, none, some, Bool-cases,
}
use pidnl.Cstd.{int_max, uint32_max}
use pidnl.System.{Process, done, Call, Trace}
use pidnl.Monitor.Client.{send_command}
use pidnl.Discovery.Query.{Netlink}
use pidnl.Ratelimit.Codes.{ratelimit_ok}
use pidnl.Ratelimit.Init.{ratelimit_init}
use pidnl.Gui.{response_ready}
use pidnl.Gui.Glib.{Glib, IsGlib}
use pidnl.Gui.Client.{command_line}
use pidnl.Gui.Server.{run_privileged}
use pidnl.Gui.Rows.{PidnlProcess, find_process_by_pid}
use pidnl.Gui.Entry.{Entry, limit_of}
use pidnl.Gui.Entered.{find_here, find_there, find_nothing}
use pidnl.Gui.Focus.{Event, dispatch_all}
use pidnl.Gui.Settled.{responses_text, IsShowing}
use pidnl.Gui.Answered.{screen_of, places_of}
use pidnl.Gui.Fitting.{IsFitting}
use pidnl.Gui.Served.{Request, session_text, run_privileged-ready, ratelimit_init-client}
use pidnl.Gui.Presented.{Distinct, entries_of, entries_of-IsShowing}
use pidnl.Gui.Together.{requests_text, dispatch_all-IsTogether}

-- PIDs that fit an `int`, and 32-bit limits.
abbrev pub AllWithin : List PidnlProcess → Type 0
AllWithin [] = Unit {0}
AllWithin (item ∷ items) =
    ((to_ℕ item.pid ≤ int_max)
      × (item.upload_kbps ≤ uint32_max)
      × (item.download_kbps ≤ uint32_max))
    × AllWithin items

find-within :
    (items : List PidnlProcess) (pid : ℤ) (item : PidnlProcess)
    → AllWithin items
    → find_process_by_pid items pid ≡ some item
    → (to_ℕ pid ≤ int_max) × ((side : Bool) → limit_of side item ≤ uint32_max)
find-within [] pid item h e = absurd (cc (find_nothing pid, e))
find-within (first ∷ items) pid item h e = elim (Bool-cases (int_eq first.pid pid)) [
  | inl found ↦
      let it : first ≡ item = cc (find_here pid first items found, e) in
      let q = (int_eq_iff first.pid pid).0 found in
      (
        rw (sym q) h.0.0,
        subst (λ i. (side : Bool) → limit_of side i ≤ uint32_max) it (both first h.0.1 h.0.2),
      )
  | inr other ↦ find-within items pid item h.1 (sym (find_there pid first items other) ∙ e)
]
  where
    both :
        (i : PidnlProcess)
        → i.upload_kbps ≤ uint32_max
        → i.download_kbps ≤ uint32_max
        → (side : Bool) → limit_of side i ≤ uint32_max
    both i up down true = up
    both i up down false = down

AllWithin-IsFitting : (items : List PidnlProcess) → AllWithin items → IsFitting items
AllWithin-IsFitting items h = record {
  pid_fits = λ pid item e. (find-within items pid item h e).0;
  limit_fits = λ side pid item e. (find-within items pid item h e).1 side;
}

-- The window and the privileged process together. The window shows processes that have positive PIDs
-- which fit an `int`, each its own, and 32-bit limits; the privileged process is a client that goes
-- on as the parent after every `fork`, and `ratelimit_init` succeeds. The user clicks, types and moves
-- the focus in any way, and the calls answer as they like. Then there are requests and responses such
-- that the privileged process, which reads the requests and then the end of the session, prints that
-- it is ready and these responses, and the window, which has the responses in its pipe, writes these
-- requests and reads all the responses. No handler waits for ever, each entry still belongs to the
-- process and the direction it was made for, and each entry but the one with the focus shows the
-- limit that the store then has for its process.
pub run_privileged-dispatch_all :
    (g : Glib) (child : ℤ) (closed : Bool) (escape depth : ℕ) (netlinks : Text → Netlink)
    (events : List Event) (items : List PidnlProcess) (p q : Process)
    → IsGlib g
    → Distinct items
    → AllWithin items
    → p.is_monitor_process ≡ false
    → ((t : Trace) → is_zero (p.env t Call.fork) ≡ false)
    → ratelimit_init p ≡ (done ratelimit_ok, q)
    → (requests : List Request) × (responses : List ℕ) × (q' : Process) × (store : List
        PidnlProcess)
      × (entries : List Entry) × (focus : Option ℕ) × (run_privileged
            (send_command (suc depth))
            netlinks
            (session_text requests)
            p
          ≡ (done (0, command_line response_ready ++ responses_text responses), q'))
      × (dispatch_all g escape events
            (screen_of child closed [] responses items (entries_of items) none)
          ≡ some (screen_of child closed (requests_text requests) [] store entries focus))
      × (places_of entries ≡ places_of (entries_of items))
      × IsShowing store entries focus
unfolding responses_text
run_privileged-dispatch_all g child closed escape depth netlinks events items p q laws d within
      client parent e =
    let s = ratelimit_init-client p q (client, parent) e in
    let t =
      dispatch_all-IsTogether g laws child closed escape depth netlinks
        (places_of (entries_of items)) events [] items (entries_of items) none q s
        (AllWithin-IsFitting items within) (entries_of-IsShowing items d) refl in
    (
      t.requests,
      t.responses,
      t.last,
      t.store,
      t.entries,
      t.focus,
      run_privileged-ready depth netlinks (session_text t.requests) (responses_text t.responses) p q
          t.last e t.prints,
      t.reached,
      t.same,
      t.showing,
    )
