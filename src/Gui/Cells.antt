-- ===== src/Gui/Cells.antt =====
-- gui/processes.c: the cells of a row, whichever items they have shown before.
use pidnl.Base.{ℕ, ◌≡◌, refl, List, [], ◌∷◌, ◌++◌, map, decimal_int, Option, none, some}
use pidnl.Bpf.{direction_upload, direction_download}
use pidnl.Gui.Glib.{Glib}
use pidnl.Gui.Rows.{PidnlProcess}
use pidnl.Gui.Entry.{Entry, entry_text}
use pidnl.Gui.Columns.{
  Signal, leave, activate, key_pressed, Callback, on_limit_focus_leave, on_limit_entry_activate,
  on_limit_entry_key_pressed, Widget, image, inscription, box, limit_entry, empty, append, Column,
  view_columns,
}

-- A widget that a column binds to one item after another.
unfoldable pub bind_all : Column → Widget → List PidnlProcess → Option Widget
bind_all column w [] = some w
bind_all column w (item ∷ items) = elim (column.bind item w) [
  | none ↦ none
  | some w' ↦ bind_all column w' items
]

abbrev pub connections : List (Signal × Callback)
connections =
    (leave, on_limit_focus_leave)
    ∷ (activate, on_limit_entry_activate)
    ∷ (key_pressed, on_limit_entry_key_pressed)
    ∷ []

-- The cells of an item, in the order of the columns.
abbrev name_cell : PidnlProcess → Widget
name_cell item =
    box (append (append empty (image (some item.icon))) (inscription 20 (some item.name)))

-- An entry for the limit of an item in a direction.
abbrev pub entry_of : ℕ → ℕ → PidnlProcess → Entry
entry_of direction limit item = record {
  pid = item.pid;
  direction = direction;
  text = entry_text limit;
}

abbrev entry_cell : ℕ → ℕ → PidnlProcess → Widget
entry_cell direction limit item = limit_entry (entry_of direction limit item) connections

abbrev pub cells : List (PidnlProcess → Widget)
cells =
    name_cell
    ∷ (λ item. inscription 10 (some (decimal_int item.pid)))
    ∷ (λ item. inscription 12 (some (decimal_int item.connections)))
    ∷ (λ item. inscription 10 (some item.protocols))
    ∷ (λ item. entry_cell direction_upload item.upload_kbps item)
    ∷ (λ item. entry_cell direction_download item.download_kbps item)
    ∷ (λ item. inscription 30 (some item.exe_path))
    ∷ []

-- A column shows an item in a cell, in a new one and in one that has shown another item.
record Shows (column : Column) (cell : PidnlProcess → Widget) : Type 0 where
  fresh : (item : PidnlProcess) → column.bind item column.setup ≡ some (cell item)
  again : (old item : PidnlProcess) → column.bind item (cell old) ≡ some (cell item)

module _ (column : Column) (cell : PidnlProcess → Widget) (s : Shows column cell) where
  bind_all-again :
      (old item : PidnlProcess) (before : List PidnlProcess)
      → bind_all column (cell old) (before ++ (item ∷ [])) ≡ some (cell item)
  unfolding bind_all
  bind_all-again old item [] = rw (s.again old item) refl
  bind_all-again old item (next ∷ before) =
      rw (s.again old next, bind_all) (bind_all-again next item before)

  bind_all-shown :
      (item : PidnlProcess) (before : List PidnlProcess)
      → bind_all column column.setup (before ++ (item ∷ [])) ≡ some (cell item)
  unfolding bind_all
  bind_all-shown item [] = rw (s.fresh item) refl
  bind_all-shown item (first ∷ before) =
      rw (s.fresh first, bind_all) (bind_all-again first item before)

-- Each column shows the cell in its place.
abbrev AllShow : List Column → List (PidnlProcess → Widget) → Type 0
AllShow [] [] = Unit {0}
AllShow [] (cell ∷ rest) = ⊥
AllShow (column ∷ table) [] = ⊥
AllShow (column ∷ table) (cell ∷ rest) = Shows column cell × AllShow table rest

row-shown :
    (table : List Column) (row : List (PidnlProcess → Widget)) (item : PidnlProcess)
    (before : List PidnlProcess)
    → AllShow table row
    → map (λ column. bind_all column column.setup (before ++ (item ∷ []))) table
      ≡ map (λ cell. some (cell item)) row
row-shown [] [] item before h = refl
row-shown [] (cell ∷ row) item before h = elim h [ ]
row-shown (column ∷ table) [] item before h = elim h [ ]
row-shown (column ∷ table) (cell ∷ row) item before h =
    cc (bind_all-shown column cell h.0 item before, row-shown table row item before h.1)

columns-AllShow : (g : Glib) → AllShow (view_columns g) cells
unfolding view_columns
columns-AllShow g = (
  record { fresh = λ item. refl; again = λ old item. refl },
  (
    record { fresh = λ item. refl; again = λ old item. refl },
    (
      record { fresh = λ item. refl; again = λ old item. refl },
      (
        record { fresh = λ item. refl; again = λ old item. refl },
        (
          record { fresh = λ item. refl; again = λ old item. refl },
          (
            record { fresh = λ item. refl; again = λ old item. refl },
            (record { fresh = λ item. refl; again = λ old item. refl }, tt),
          ),
        ),
      ),
    ),
  ),
)

-- Whatever items the widgets of a row have shown before, no cast in a callback fails when the row is
-- bound to an item, and each column then shows this item alone: the image and the name, the
-- numbers, the protocols, the limits with the PID and the direction that `apply_limit` is to use,
-- and the command line.
pub columns-row :
    (g : Glib) (item : PidnlProcess) (before : List PidnlProcess)
    → map (λ column. bind_all column column.setup (before ++ (item ∷ []))) (view_columns g)
      ≡ map (λ cell. some (cell item)) cells
columns-row g item before = row-shown (view_columns g) cells item before (columns-AllShow g)
