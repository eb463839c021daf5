-- ===== src/Tests/Window.antt =====
-- Runs of the window's table at concrete inputs.
use pidnl.Base.{
  ◌≡◌, ◌≢◌, refl, ap, to_ℕ, ℕ, pos, false, List, [], ◌∷◌, ◌++◌, map, codes, none, some, text_eq,
  arith,
}
use pidnl.Ratelimit.Names.{unlimited}
use pidnl.Gui.Icons.{themed_icon}
use pidnl.Gui.Rows.{PidnlProcess}
use pidnl.Gui.Columns.{view_columns}
use pidnl.Gui.Cells.{bind_all, cells, columns-row}
use pidnl.Gui.Focus.{Event, focus_moves, typed, enter, key, pressed, elsewhere, dispatch_all}
use pidnl.Gui.Answered.{IsAnswered, screen_of, places_of}
use pidnl.Gui.Presented.{entries_of, dispatch_all-settled}
use pidnl.System.{done, Process}
use pidnl.Ratelimit.Codes.{ratelimit_ok}
use pidnl.Ratelimit.Cleanup.{ratelimit_cleanup_all}
use pidnl.Gui.{backend_cmd_list, backend_cmd_clean, handle_clean_cmd}
use pidnl.Gui.Client.{command_line}
use pidnl.Gui.Server.{ListRow, list_text, handle_list_cmd}
use pidnl.Gui.Shown.{shown}
use pidnl.Gui.Reads.{connected}
use pidnl.Gui.Window.{on_clean_response}
use pidnl.Gui.Cleaned.{on_clean_response-shown}
use pidnl.Tests.{client, netlink, one_process, found_4242}
use pidnl.Tests.Gui.{desktop, nginx-IsOrdinary}
use pidnl.Tests.Glib.{plain_glib, plain_glib-IsGlib}

abbrev pub web : PidnlProcess
web = record {
  name = codes "nginx";
  pid = pos 4242;
  connections = pos 3;
  protocols = codes "TCP";
  exe_path = codes "/usr/sbin/nginx";
  icon = themed_icon;
  upload_kbps = 1000;
  download_kbps = unlimited;
}

abbrev pub mail : PidnlProcess
mail = record web { name = codes "postfix"; pid = pos 77; upload_kbps = unlimited }

-- A limit is typed and left by Escape, another entered, and the pointer pressed beside the entries.
abbrev pub session : List Event
session =
    focus_moves (some 0)
    ∷ typed (codes "500")
    ∷ key 65307
    ∷ focus_moves (some 3)
    ∷ typed (codes "x")
    ∷ enter
    ∷ pressed elsewhere
    ∷ []

pub apart_pids : mail.pid ≢ web.pid
apart_pids e = absurd (omega (arith, ap to_ℕ e))

columns-row_example :
    map
      (λ column. bind_all column column.setup ((mail ∷ []) ++ (web ∷ [])))
      (view_columns plain_glib)
    ≡ map (λ cell. some (cell web)) cells
columns-row_example = columns-row plain_glib web (mail ∷ [])

dispatch_all-settled_example : IsAnswered (pos 9) false (places_of (entries_of (web ∷ mail ∷ []))) (
    dispatch_all plain_glib 65307 session (
      screen_of
        (pos 9)
        false
        []
        (1 ∷ 2 ∷ 1 ∷ 1 ∷ 1 ∷ 1 ∷ 1 ∷ [])
        (web ∷ mail ∷ [])
        (entries_of (web ∷ mail ∷ []))
        none))
dispatch_all-settled_example =
    dispatch_all-settled plain_glib (pos 9) false 65307 session [] (1 ∷ 2 ∷ 1 ∷ 1 ∷ 1 ∷ 1 ∷ 1 ∷ [])
      (web ∷ mail ∷ []) plain_glib-IsGlib (omega arith) (omega arith)
      (refl, (apart_pids, tt), (refl, tt, tt))

abbrev after_cleaning : Process
after_cleaning = (ratelimit_cleanup_all client).1

cleaned : ratelimit_cleanup_all client ≡ (done ratelimit_ok, after_cleaning)
unfolding ratelimit_cleanup_all pidnl.System.call pidnl.Ratelimit.Remove.delete_pid_cgroup
    pidnl.Ratelimit.Mounts.open_cgroup_fd pidnl.Ratelimit.Mounts.get_cgroup2_mount text_eq
    pidnl.Ratelimit.Cgroups.delete_cgroup pidnl.Ratelimit.Cgroups.detach_pinned_links
    pidnl.Ratelimit.Mounts.get_bpffs_mount pidnl.Monitor.Client.monitor_stop
    pidnl.Monitor.Client.monitor_connect
cleaned = refl

on_clean_response-shown_example :
    (response : ℕ) × (rows : List ListRow) × (q : Process) × (map ListRow.info rows
      ≡ one_process.processes)
    × (handle_clean_cmd client ≡ (done response, after_cleaning))
    × (handle_list_cmd netlink after_cleaning ≡ (done (list_text rows), q))
    × (on_clean_response plain_glib desktop (codes "clean") (record {
      backend =
          some (connected (pos 77) [] (command_line response ++ (list_text rows ++ [])) false);
      items = web ∷ [];
    })
        ≡ some (record {
          backend = some (
              connected
                (pos 77)
                (([] ++ command_line backend_cmd_clean) ++ command_line backend_cmd_list)
                []
                false);
          items = shown desktop rows;
        }))
on_clean_response-shown_example =
    on_clean_response-shown plain_glib desktop netlink one_process client after_cleaning (pos 77) []
      [] false (web ∷ []) plain_glib-IsGlib cleaned found_4242 (nginx-IsOrdinary, tt) (omega arith)
