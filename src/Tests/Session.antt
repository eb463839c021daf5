-- ===== src/Tests/Session.antt =====
-- A session of the privileged process at a concrete input.
use pidnl.Base.{
  ℕ, pos, false, Option, none, some, ◌≡◌, refl, List, [], ◌∷◌, ◌++◌, Text, length, text_eq, arith,
}
use pidnl.System.{Process, done}
use pidnl.Monitor.Client.{send_command}
use pidnl.Discovery.Query.{Netlink}
use pidnl.Ratelimit.Names.{unlimited}
use pidnl.Ratelimit.Codes.{ratelimit_ok}
use pidnl.Ratelimit.Init.{ratelimit_init}
use pidnl.Gui.{response_ready}
use pidnl.Gui.Client.{command_line}
use pidnl.Gui.Server.{run_privileged}
use pidnl.Gui.Served.{
  Request, limits, cleaning, session_text, AllResponses, run_privileged-answered,
}
use pidnl.Gui.Rows.{PidnlProcess}
use pidnl.Gui.Entry.{Entry}
use pidnl.Gui.Focus.{dispatch_all}
use pidnl.Gui.Settled.{IsShowing, responses_text}
use pidnl.Gui.Answered.{screen_of, places_of}
use pidnl.Gui.Presented.{entries_of}
use pidnl.Gui.Together.{requests_text}
use pidnl.Gui.Whole.{run_privileged-dispatch_all}
use pidnl.Tests.{client, netlink}
use pidnl.Tests.Glib.{plain_glib, plain_glib-IsGlib}
use pidnl.Tests.Window.{web, mail, session, apart_pids}

abbrev requests : List Request
requests = limits 4242 1000 2000 ∷ cleaning ∷ limits 4242 unlimited unlimited ∷ []

abbrev netlinks : Text → Netlink
netlinks later = netlink

initialised : ratelimit_init client ≡ (done ratelimit_ok, (ratelimit_init client).1)
unfolding ratelimit_init pidnl.Ratelimit.Mounts.get_cgroup2_mount pidnl.System.call text_eq
initialised = refl

run_privileged-answered_example :
    (responses : List ℕ) × (q : Process) × (run_privileged
        (send_command 1)
        netlinks
        (session_text requests)
        client
      ≡ (done (0, command_line response_ready ++ responses_text responses), q))
    × (length responses ≡ length requests)
    × AllResponses responses
run_privileged-answered_example =
    run_privileged-answered 0 netlinks requests client (ratelimit_init client).1 (omega arith) refl
      (λ t. refl) initialised

-- The two processes of the other runs, and the same events.
run_privileged-dispatch_all_example :
    (requests : List Request) × (responses : List ℕ) × (q' : Process) × (store : List PidnlProcess)
    × (entries : List Entry) × (focus : Option ℕ) × (run_privileged
          (send_command 1)
          netlinks
          (session_text requests)
          client
        ≡ (done (0, command_line response_ready ++ responses_text responses), q'))
    × (dispatch_all plain_glib 65307 session (
          screen_of
            (pos 9)
            false
            []
            responses
            (web ∷ mail ∷ [])
            (entries_of (web ∷ mail ∷ []))
            none)
        ≡ some (screen_of (pos 9) false (requests_text requests) [] store entries focus))
    × (places_of entries ≡ places_of (entries_of (web ∷ mail ∷ [])))
    × IsShowing store entries focus
run_privileged-dispatch_all_example =
    run_privileged-dispatch_all plain_glib (pos 9) false 65307 0 netlinks session (web ∷ mail ∷ [])
      client (ratelimit_init client).1 plain_glib-IsGlib (refl, (apart_pids, tt), (refl, tt, tt))
      (omega arith) refl (λ t. refl) initialised
