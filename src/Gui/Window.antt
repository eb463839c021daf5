-- ===== src/Gui/Window.antt =====
-- gui/main.c: the window's handlers. A window is its backend, which the view holds as well,
-- and the items of the store.
use pidnl.Base.{
  [], ◌∷◌, ℤ, true, false, not, List, Text, codes, text_eq, Option, none, some, if◌then◌else◌,
}
use pidnl.Gui.Glib.{Pipe, Glib}
use pidnl.Gui.Client.{Backend, Stopped, backend_start, backend_stop, backend_list, backend_clean}
use pidnl.Gui.Icons.{Desktop}
use pidnl.Gui.Rows.{PidnlProcess}
use pidnl.Gui.Entry.{View}
use pidnl.Gui.Columns.{
  pidnl_processes_view_new, pidnl_processes_view_set_backend, pidnl_processes_view_refresh,
}

pub record Window : Type 0 where
  pub backend : Option Backend
  pub items : List PidnlProcess

-- What `get_store_from_view` finds.
abbrev items_of : Option (List PidnlProcess) → List PidnlProcess
items_of none = []
items_of (some store) = store

-- A null text leaves the view as it is.
unfoldable pub refreshed : Glib → Desktop → Window → Option Backend → Option Text → Window
unfolding pidnl_processes_view_refresh
refreshed g desktop w backend none = record w { backend = backend }
refreshed g desktop w backend (some raw) =
    let view : View = record { backend = backend; store = some w.items } in
    let view' = pidnl_processes_view_refresh g desktop raw view in
    record { backend = view'.backend; items = items_of view'.store }

-- `none`: the handler waits for ever.
unfoldable pub on_refresh_clicked : Glib → Desktop → Window → Option Window
unfolding backend_list refreshed
on_refresh_clicked g desktop w = elim (backend_list g w.backend) [
  | none ↦ none
  | some (raw, backend) ↦ some (refreshed g desktop w backend raw)
]

-- After the question whether to clean up.
unfoldable pub on_clean_response : Glib → Desktop → Text → Window → Option Window
unfolding backend_clean on_refresh_clicked text_eq
on_clean_response g desktop response w =
    if not (text_eq response (codes "clean")) then some w else elim (backend_clean g w.backend) [
      | none ↦ none
      | some (false, backend) ↦ some (record w { backend = backend })
      | some (true, backend) ↦ on_refresh_clicked g desktop (record w { backend = backend })
    ]

-- The question: its responses, the one of the Enter key and the one of a dialog that is closed.
pub record Dialog : Type 0 where
  pub responses : List Text
  pub default_response : Text
  pub close_response : Text

unfoldable pub on_clean_clicked : Dialog
on_clean_clicked = record {
  responses = codes "cancel" ∷ codes "clean" ∷ [];
  default_response = codes "cancel";
  close_response = codes "cancel";
}

unfoldable pub on_close_request : Window → Option Stopped × Window
unfolding backend_stop
on_close_request w = (backend_stop w.backend, record w { backend = none })

-- The application quits, stopping a backend that it has started, or it has a window.
pub data Activated : Type 0 where
  quit : Option Stopped → Activated
  window : Window → Activated

-- The view is made from the text, gets the backend, and stands in the window.
first_view : Glib → Desktop → Option Backend → Option Text → Activated
unfolding backend_stop
first_view g desktop backend none = quit (backend_stop backend)
first_view g desktop backend (some raw) =
    let view = pidnl_processes_view_set_backend backend (pidnl_processes_view_new g desktop raw) in
    window (record { backend = view.attached.backend; items = items_of view.attached.store })

-- `self_exe` is the link /proc/self/exe, and `spawned` what the start of the program by pkexec
-- yields; the variable `backend` is null before.
unfoldable pub on_activate : Glib → Desktop → Option Text → Option (ℤ × Pipe) → Option Activated
unfolding backend_start backend_list first_view
on_activate g desktop none spawned = some (quit none)
on_activate g desktop (some self_exe) spawned = elim (backend_start g none spawned) [
  | none ↦ none
  | some (false, backend) ↦ some (quit none)
  | some (true, backend) ↦ elim (backend_list g backend) [
    | none ↦ none
    | some (raw, backend') ↦ some (first_view g desktop backend' raw)
  ]
]
