-- ===== src/Gui/Refresh.antt =====
-- gui/main.c, gui/backend.c and gui/processes.c together: a list command, from the processes that the
-- privileged process finds to the items of the window.
use pidnl.Base.{
  ◌*◌, ◌≤◌, ◌≡◌, refl, sym, ap, ℤ, Bool, false, List, [], ◌∷◌, ◌++◌, Text, length, map, none, some,
  arith,
}
use pidnl.Cstd.{int_max}
use pidnl.System.{Process, done}
use pidnl.System.Returns.{done-result, anywhere}
use pidnl.Discovery.{ProcessInfo, ProcessList}
use pidnl.Discovery.Query.{discovery_ok, Netlink, get_network_processes}
use pidnl.Discovery.Owned.{
  Memory, destroy_process_list, find_network_processes-found, destroy_process_list-Returns,
}
use pidnl.Ratelimit.Query.{Limits, get_rate_limits_from_cgroup}
use pidnl.Ratelimit.Query.Returns.{get_rate_limits_from_cgroup-Returns}
use pidnl.Gui.{backend_cmd_list}
use pidnl.Gui.Glib.{Glib, IsGlib}
use pidnl.Gui.Client.{command_line, read_list, backend_list}
use pidnl.Gui.Server.{ListRow, row_of, look_up, list_text, failed_list, print_list, handle_list_cmd}
use pidnl.Gui.Icons.{Desktop}
use pidnl.Gui.Rows.{PidnlProcess}
use pidnl.Gui.Window.{on_refresh_clicked}
use pidnl.Gui.Lines.{IsOrdinary, AreOrdinary, IsShown, AreShown}
use pidnl.Gui.Shown.{shown, populate_store_from_raw-list_text}
use pidnl.Gui.Reads.{connected, ask-answer, ask-none, read_list-list_text, read_list-failed_list}

row_of-IsShown :
    (info : ProcessInfo) (limits : Limits) → IsOrdinary info → IsShown (row_of info limits)
row_of-IsShown info limits v = record {
  ordinary = v;
  upload_fits = omega arith;
  download_fits = omega arith;
}

-- Every process gets a row, in the order of the list.
look_up-rows :
    (infos : List ProcessInfo) (p : Process)
    → AreOrdinary infos
    → (rows : List ListRow) × (q : Process) × (look_up infos p ≡ (done rows, q))
      × AreShown rows
      × (map ListRow.info rows ≡ infos)
unfolding look_up
look_up-rows [] p v = ([], p, refl, tt, refl)
look_up-rows (info ∷ infos) p (v, vs) =
    let limited = (get_rate_limits_from_cgroup-Returns anywhere info.pid).apply p tt in
    let (limits, p', e) = done-result anywhere (get_rate_limits_from_cgroup info.pid p) limited in
    let (rows, q, f, shows, same) = look_up-rows infos p' vs in
    (
      row_of info limits ∷ rows,
      q,
      rw (e, f) refl,
      (row_of-IsShown info limits v, shows),
      ap (λ xs. info ∷ xs) same,
    )

backend_list-list_text :
    (g : Glib) (rows : List ListRow) (pid : ℤ) (written rest : Text) (closed : Bool)
    → IsGlib g
    → AreShown rows
    → length rows * 2 ≤ int_max
    → backend_list g (some (connected pid written (list_text rows ++ rest) closed))
      ≡ some (
        some (list_text rows),
        some (connected pid (written ++ command_line backend_cmd_list) rest closed),
      )
unfolding backend_list
backend_list-list_text g rows pid written rest closed laws v h =
    ask-answer none (command_line backend_cmd_list) (read_list g) pid written
      (list_text rows ++ rest) rest closed (some (list_text rows))
      (read_list-list_text g laws rest rows closed v h)

print_list-rows :
    (list : ProcessList) (memory : Memory) (p : Process)
    → AreOrdinary list.processes
    → (rows : List ListRow) × (q : Process) × (print_list (some (list, memory)) p
        ≡ (done (list_text rows), q))
      × AreShown rows
      × (map ListRow.info rows ≡ list.processes)
unfolding print_list
print_list-rows list memory p v =
    let (rows, q, e, shows, same) = look_up-rows list.processes p v in
    let freed = (destroy_process_list-Returns anywhere memory).apply q tt in
    let (u, q', f) = done-result anywhere (destroy_process_list memory q) freed in
    (rows, q', rw (e, f) refl, shows, same)

length-map : {A B : Type 0} (f : A → B) (xs : List A) → length (map f xs) ≡ length xs
length-map f [] = refl
length-map f (x ∷ xs) = rw (length-map f xs)

-- A refresh of the window, from end to end. Where the processes are found, at most INT_MAX / 2 of
-- them, each with a PID and a number of connections that fit an `int` and a name and a path in printable ASCII, the privileged
-- process prints a row for each of them in their order, with its limits. The refresh then reads
-- exactly these rows, leaves what follows them in the pipe, and shows the item of each row in place
-- of what was there, with the name less the white space in front, but for the processes whose name is
-- nothing else.
pub on_refresh_clicked-shown :
    (g : Glib) (desktop : Desktop) (netlink : Netlink) (list : ProcessList) (p : Process) (pid : ℤ)
    (written rest : Text) (closed : Bool) (before : List PidnlProcess)
    → IsGlib g
    → get_network_processes netlink ≡ some (discovery_ok, list)
    → AreOrdinary list.processes
    → length list.processes * 2 ≤ int_max
    → (rows : List ListRow) × (q : Process) × (map ListRow.info rows ≡ list.processes)
      × (handle_list_cmd netlink p ≡ (done (list_text rows), q))
      × (on_refresh_clicked g desktop (record {
        backend = some (connected pid written (list_text rows ++ rest) closed);
        items = before;
      })
          ≡ some (record {
            backend = some (connected pid (written ++ command_line backend_cmd_list) rest closed);
            items = shown desktop rows;
          }))
unfolding handle_list_cmd on_refresh_clicked
on_refresh_clicked-shown g desktop netlink list p pid written rest closed before laws e v h =
    let (memory, p', found) = find_network_processes-found netlink list p e in
    let (rows, q, f, shows, same) = print_list-rows list memory p' v in
    let count : length rows * 2 ≤ int_max = rw (sym (length-map ListRow.info rows), same) h in
    let asked = backend_list-list_text g rows pid written rest closed laws shows count in
    let items = populate_store_from_raw-list_text g desktop rows laws shows (omega arith) in
    (rows, q, same, rw (found) f, rw (on_refresh_clicked, asked, items))

-- Where the privileged process cannot list the processes, the line that it prints makes
-- `backend_list` wait for ever while the other end of the pipe is open: it takes the code 2 for two
-- processes, and waits for their lines.
pub backend_list-failed_list :
    (g : Glib) (pid : ℤ) (written : Text)
    → IsGlib g
    → backend_list g (some (connected pid written failed_list false)) ≡ none
unfolding backend_list
backend_list-failed_list g pid written laws =
    ask-none none (command_line backend_cmd_list) (read_list g) pid written failed_list false
      (read_list-failed_list g laws)
