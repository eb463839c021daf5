-- ===== src/Gui/Cleaned.antt =====
-- gui/main.c and gui/backend.c together: a clean command, from the question to the items of the window.
use pidnl.Base.{
  ℕ, ◌*◌, ◌≤◌, ◌≡◌, ◌≢◌, refl, ℤ, Bool, false, List, ◌++◌, Text, codes, text_eq, length, map, some,
  ◌==◌, arith,
}
use pidnl.Cstd.{int_max}
use pidnl.System.{Process, done, pure}
use pidnl.Discovery.{ProcessList}
use pidnl.Discovery.Query.{discovery_ok, Netlink, get_network_processes}
use pidnl.Ratelimit.Codes.{RatelimitCode, ratelimit_ok}
use pidnl.Ratelimit.Cleanup.{ratelimit_cleanup_all}
use pidnl.Gui.{backend_cmd_clean, backend_cmd_list, response_ok, response_error, handle_clean_cmd}
use pidnl.Gui.Glib.{Glib, IsGlib}
use pidnl.Gui.Client.{command_line, backend_clean, read_response}
use pidnl.Gui.Server.{ListRow, list_text, handle_list_cmd}
use pidnl.Gui.Icons.{Desktop}
use pidnl.Gui.Rows.{PidnlProcess}
use pidnl.Gui.Lines.{AreOrdinary}
use pidnl.Gui.Shown.{shown}
use pidnl.Gui.Reads.{connected, ask-answer, read_response-command_line}
use pidnl.Gui.Refresh.{on_refresh_clicked-shown}
use pidnl.Gui.Window.{Window, on_clean_response, on_clean_clicked}

backend_clean-command_line :
    (g : Glib) (response : ℕ) (pid : ℤ) (written rest : Text) (closed : Bool)
    → IsGlib g
    → response ≤ int_max
    → backend_clean g (some (connected pid written (command_line response ++ rest) closed))
      ≡ some (
        response == response_ok,
        some (connected pid (written ++ command_line backend_cmd_clean) rest closed),
      )
unfolding backend_clean
backend_clean-command_line g response pid written rest closed laws h =
    ask-answer false (command_line backend_cmd_clean) (read_response g) pid written
      (command_line response ++ rest) rest closed (response == response_ok)
      (read_response-command_line g laws response rest closed h)

-- The question is answered by the button "clean", the privileged process cleans up with success and
-- then finds the processes, at most INT_MAX / 2 of them, each with a PID and a number of connections
-- that fit an `int` and a name and a path in printable ASCII. It prints success, and a row for each
-- process. The window reads both, leaves what follows them in the pipe, and in place of what was there
-- it shows the item of each row, with the name less the white space in front, but for the processes
-- whose name is nothing else.
pub on_clean_response-shown :
    (g : Glib) (desktop : Desktop) (netlink : Netlink) (list : ProcessList) (p p' : Process)
    (pid : ℤ) (written rest : Text) (closed : Bool) (before : List PidnlProcess)
    → IsGlib g
    → ratelimit_cleanup_all p ≡ (done ratelimit_ok, p')
    → get_network_processes netlink ≡ some (discovery_ok, list)
    → AreOrdinary list.processes
    → length list.processes * 2 ≤ int_max
    → (response : ℕ) × (rows : List ListRow) × (q : Process) × (map ListRow.info rows
        ≡ list.processes)
      × (handle_clean_cmd p ≡ (done response, p'))
      × (handle_list_cmd netlink p' ≡ (done (list_text rows), q))
      × (on_clean_response g desktop (codes "clean") (record {
        backend =
            some (connected pid written (command_line response ++ (list_text rows ++ rest)) closed);
        items = before;
      })
          ≡ some (record {
            backend = some (
                connected pid
                  ((written ++ command_line backend_cmd_clean) ++ command_line backend_cmd_list)
                  rest
                  closed);
            items = shown desktop rows;
          }))
unfolding on_clean_response handle_clean_cmd
on_clean_response-shown g desktop netlink list p p' pid written rest closed before laws cleaned e v
      h =
    let sent = written ++ command_line backend_cmd_clean in
    let (rows, q, same, printed, refreshed) =
      on_refresh_clicked-shown g desktop netlink list p' pid sent rest closed before laws e v h in
    let asked =
      backend_clean-command_line g response_ok pid written (list_text rows ++ rest) closed laws
        (omega arith) in
    (response_ok, rows, q, same, rw (cleaned) refl, printed, rw (asked) refreshed)

-- Where the cleaning up fails, the response is an error, and the window keeps its items. It keeps them,
-- and nothing is sent, where the dialog is closed or left by the Enter key.
pub on_clean_response-kept :
    (g : Glib) (desktop : Desktop) (code : RatelimitCode) (p p' : Process) (pid : ℤ)
    (written rest : Text) (closed : Bool) (before : List PidnlProcess) (w : Window)
    → IsGlib g
    → ratelimit_cleanup_all p ≡ (done code, p')
    → code ≢ ratelimit_ok
    → (handle_clean_cmd p ≡ (done response_error, p'))
      × (on_clean_response g desktop (codes "clean") (record {
        backend = some (connected pid written (command_line response_error ++ rest) closed);
        items = before;
      })
          ≡ some (record {
            backend = some (connected pid (written ++ command_line backend_cmd_clean) rest closed);
            items = before;
          }))
      × (on_clean_response g desktop on_clean_clicked.close_response w ≡ some w)
      × (on_clean_response g desktop on_clean_clicked.default_response w ≡ some w)
unfolding on_clean_response handle_clean_cmd on_clean_clicked text_eq
on_clean_response-kept g desktop code p p' pid written rest closed before w laws failed wrong =
    let asked =
      backend_clean-command_line g response_error pid written rest closed laws (omega arith) in
    (rw (failed) (failure code wrong), rw (asked) refl, refl, refl)
  where
    failure :
        (code : RatelimitCode)
        → code ≢ ratelimit_ok
        → (pure (elim code [ ratelimit_ok ↦ response_ok | _ ↦ response_error ])) p'
          ≡ (done response_error, p')
    failure ratelimit_ok wrong = absurd (wrong refl)
    failure _ wrong = refl
