-- ===== src/Gui/Columns.antt =====
-- gui/processes.c: the columns of the table, the widgets in their cells and the view. A widget is
-- what the program sets in it; its looks are GTK's. A cast that would fail is `none`.
use pidnl.Base.{ℕ, ℤ, pos, List, [], ◌∷◌, Text, codes, decimal_int, Option, none, some}
use pidnl.Bpf.{direction_upload, direction_download}
use pidnl.Gui.Glib.{Glib}
use pidnl.Gui.Client.{Backend}
use pidnl.Gui.Icons.{Icon, Desktop}
use pidnl.Gui.Rows.{
  PidnlProcess, populate_store_from_raw, compare_name, compare_pid, compare_connections,
}
use pidnl.Gui.Entry.{Entry, set_entry_to_value, View}

-- The signals of an entry, and the callbacks.
pub data Signal : Type 0 where
  leave activate key_pressed : Signal

pub data Callback : Type 0 where
  on_limit_focus_leave on_limit_entry_activate on_limit_entry_key_pressed : Callback

mutual
  -- An inscription has a number of characters that it has room for, and its text.
  pub data Widget : Type 0 where
    image : Option Icon → Widget
    inscription : ℕ → Option Text → Widget
    box : Children → Widget
    limit_entry : Entry → List (Signal × Callback) → Widget

  -- `append` is `gtk_box_append`.
  pub data Children : Type 0 where
    empty : Children
    append : Children → Widget → Children

-- A widget in a place of the box.
abbrev last_child : (Widget → Option Widget) → Children → Option Children
last_child f empty = none
last_child f (append children w) = elim (f w) [ none ↦ none | some w' ↦ some (append children w') ]

unfoldable pub first_child : (Widget → Option Widget) → Children → Option Children
first_child f empty = none
first_child f (append empty w) = elim (f w) [ none ↦ none | some w' ↦ some (append empty w') ]
first_child f (append (append children v) w) = elim (first_child f (append children v)) [
  | none ↦ none
  | some children' ↦ some (append children' w)
]

-- `gtk_image_set_from_gicon(GTK_IMAGE(w), icon)`
abbrev set_from_gicon : Icon → Widget → Option Widget
set_from_gicon icon (image old) = some (image (some icon))
set_from_gicon icon w = none

-- `gtk_inscription_set_text(GTK_INSCRIPTION(w), text)`
abbrev set_text : Text → Widget → Option Widget
set_text text (inscription min_chars old) = some (inscription min_chars (some text))
set_text text w = none

-- `GTK_BOX(w)`, `GTK_EDITABLE(w)`
abbrev in_box : (Children → Option Children) → Widget → Option Widget
in_box f (box children) = elim (f children) [ none ↦ none | some children' ↦ some (box children') ]
in_box f w = none

abbrev in_entry : (Entry → Entry) → Widget → Option Widget
in_entry f (limit_entry e signals) = some (limit_entry (f e) signals)
in_entry f w = none

-- `pid` and `direction` are null until they are set.
unfoldable pub create_limit_entry : Widget
create_limit_entry =
    limit_entry (record { pid = pos 0; direction = 0; text = [] })
      ((leave, on_limit_focus_leave)
        ∷ (activate, on_limit_entry_activate)
        ∷ (key_pressed, on_limit_entry_key_pressed)
        ∷ [])

abbrev set_direction : ℕ → Widget → Widget
set_direction direction (limit_entry e signals) =
    limit_entry (record e { direction = direction }) signals
set_direction direction w = w

unfoldable pub setup_column_cb : ℕ → Widget
setup_column_cb min_chars = inscription min_chars none

unfoldable pub setup_name_cb : ℕ → Widget
setup_name_cb min_chars = box (append (append empty (image none)) (inscription 20 none))

unfoldable pub setup_upload_limit_cb : ℕ → Widget
unfolding create_limit_entry
setup_upload_limit_cb min_chars = set_direction direction_upload create_limit_entry

unfoldable pub setup_download_limit_cb : ℕ → Widget
unfolding create_limit_entry
setup_download_limit_cb min_chars = set_direction direction_download create_limit_entry

-- The callbacks that bind an item to the widget in a cell.
unfoldable pub bind_name_cb : PidnlProcess → Widget → Option Widget
unfolding first_child
bind_name_cb proc w = elim (in_box (first_child (set_from_gicon proc.icon)) w) [
  | none ↦ none
  | some w' ↦ in_box (last_child (set_text proc.name)) w'
]

unfoldable pub bind_pid_cb : PidnlProcess → Widget → Option Widget
unfolding decimal_int
bind_pid_cb proc w = set_text (decimal_int proc.pid) w

unfoldable pub bind_connections_cb : PidnlProcess → Widget → Option Widget
unfolding decimal_int
bind_connections_cb proc w = set_text (decimal_int proc.connections) w

unfoldable pub bind_protocols_cb : PidnlProcess → Widget → Option Widget
bind_protocols_cb proc w = set_text proc.protocols w

unfoldable pub bind_exe_path_cb : PidnlProcess → Widget → Option Widget
bind_exe_path_cb proc w = set_text proc.exe_path w

-- What these do to the entry.
unfoldable pub bind_upload_limit_cb : PidnlProcess → Entry → Entry
unfolding set_entry_to_value
bind_upload_limit_cb proc entry =
    set_entry_to_value (record entry { pid = proc.pid }) proc.upload_kbps

unfoldable pub bind_download_limit_cb : PidnlProcess → Entry → Entry
unfolding set_entry_to_value
bind_download_limit_cb proc entry =
    set_entry_to_value (record entry { pid = proc.pid }) proc.download_kbps

-- A column makes the widget of a cell once, and binds it to one item after another.
pub record Column : Type 0 where
  pub title : Text
  pub setup : Widget
  pub bind : PidnlProcess → Widget → Option Widget
  pub sorter : Option (PidnlProcess → PidnlProcess → ℤ)

abbrev make_column :
    Text
    → (ℕ → Widget)
    → (PidnlProcess → Widget → Option Widget)
    → ℕ
    → Option (PidnlProcess → PidnlProcess → ℤ)
    → Column
make_column title setup_cb bind_cb min_chars sorter = record {
  title = title;
  setup = setup_cb min_chars;
  bind = bind_cb;
  sorter = sorter;
}

unfoldable pub view_columns : Glib → List Column
unfolding setup_column_cb setup_name_cb setup_upload_limit_cb setup_download_limit_cb bind_name_cb
    bind_pid_cb bind_connections_cb bind_protocols_cb bind_exe_path_cb bind_upload_limit_cb
    bind_download_limit_cb compare_name compare_pid compare_connections
view_columns g =
    make_column (codes "Name") setup_name_cb bind_name_cb 0 (some (compare_name g))
    ∷ make_column (codes "PID") setup_column_cb bind_pid_cb 10 (some compare_pid)
    ∷ make_column (codes "Connections") setup_column_cb bind_connections_cb 12
        (some compare_connections)
    ∷ make_column (codes "Protocols") setup_column_cb bind_protocols_cb 10 none
    ∷ make_column (codes "Upload Limit (kbps)") setup_upload_limit_cb
        (λ proc. in_entry (bind_upload_limit_cb proc)) 10 none
    ∷ make_column (codes "Download Limit (kbps)") setup_download_limit_cb
        (λ proc. in_entry (bind_download_limit_cb proc)) 10 none
    ∷ make_column (codes "Command Line") setup_column_cb bind_exe_path_cb 30 none
    ∷ []

-- The view: its columns, and the data attached to it.
pub record ProcessesView : Type 0 where
  pub table : List Column
  pub attached : View
  pub raw_data : Text

unfoldable pub pidnl_processes_view_new : Glib → Desktop → Text → ProcessesView
unfolding view_columns populate_store_from_raw
pidnl_processes_view_new g desktop raw_data = record {
  table = view_columns g;
  attached = record { backend = none; store = some (populate_store_from_raw g desktop raw_data) };
  raw_data = raw_data;
}

unfoldable pub pidnl_processes_view_set_backend : Option Backend → ProcessesView → ProcessesView
pidnl_processes_view_set_backend backend view = record view {
  attached = record { backend = backend; store = view.attached.store };
}

-- The data of the view is all that is needed.
unfoldable pub pidnl_processes_view_refresh : Glib → Desktop → Text → View → View
unfolding populate_store_from_raw
pidnl_processes_view_refresh g desktop raw_data view = record view {
  store = some (populate_store_from_raw g desktop raw_data);
}
