-- ===== src/Gui/Focus.antt =====
-- gui/processes.c: the entries for limits on the screen, and the focus, which is GTK's: it moves as
-- the user likes or as the program sets it, and an entry that it leaves emits `leave`.
use pidnl.Base.{
  ℕ, Bool, false, List, [], ◌∷◌, Text, ◌==◌, Option, none, some, if◌then◌else◌, get_elem?, set,
}
use pidnl.Gui.Glib.{Glib}
use pidnl.Gui.Entry.{Entry, View, apply_limit}

-- The entries in the cells, and the place of the one with the focus.
pub record Screen : Type 0 where
  pub view : View
  pub entries : List Entry
  pub focus : Option ℕ

-- What `gtk_widget_pick` finds under the pointer.
pub data Picked : Type 0 where
  nothing in_entry elsewhere : Picked

pub data Event : Type 0 where
  focus_moves : Option ℕ → Event
  typed : Text → Event
  enter : Event
  key : ℕ → Event
  pressed : Picked → Event

abbrev pub is_at : ℕ → Option ℕ → Bool
is_at i none = false
is_at i (some j) = i == j

-- `apply_limit` on the entry in a place. `none`: it waits for ever.
unfoldable pub apply_at : Glib → ℕ → Screen → Option Screen
unfolding apply_limit
apply_at g i s = elim (get_elem? s.entries i) [
  | none ↦ some s
  | some entry ↦ elim (apply_limit g entry s.view) [
    | none ↦ none
    | some (entry', view') ↦
        some (record { view = view'; entries = set s.entries i entry'; focus = s.focus })
  ]
]

unfoldable pub on_limit_entry_activate : Glib → ℕ → Screen → Option Screen
unfolding apply_at
on_limit_entry_activate g i s = apply_at g i s

unfoldable pub on_limit_focus_leave : Glib → ℕ → Screen → Option Screen
unfolding apply_at
on_limit_focus_leave g i s = apply_at g i s

-- The focus goes to an entry, or to none; the entry that has it emits `leave` if it loses it.
unfoldable pub set_focus : Glib → Option ℕ → Screen → Option Screen
unfolding on_limit_focus_leave
set_focus g target s = elim s.focus [
  | none ↦ some (record s { focus = target })
  | some i ↦ if is_at i target then some s else elim (on_limit_focus_leave g i s) [
    | none ↦ none
    | some s' ↦ some (record s' { focus = target })
  ]
]

-- `gtk_root_set_focus(root, NULL)`
unfoldable pub clear_focus_from_entry : Glib → Screen → Option Screen
unfolding set_focus
clear_focus_from_entry g s = set_focus g none s

-- `escape` is GDK_KEY_Escape. Any other key is passed on, and an entry takes what is typed.
unfoldable pub on_limit_entry_key_pressed : Glib → ℕ → ℕ → Screen → Option Screen
unfolding clear_focus_from_entry
on_limit_entry_key_pressed g escape keyval s =
    if keyval == escape then clear_focus_from_entry g s else some s

unfoldable pub on_column_view_pressed : Glib → Picked → Screen → Option Screen
unfolding set_focus
on_column_view_pressed g in_entry s = some s
on_column_view_pressed g nothing s = set_focus g none s
on_column_view_pressed g elsewhere s = set_focus g none s

-- The text of the entry with the focus is changed.
unfoldable pub type_text : Text → ℕ → Screen → Screen
type_text text i s = elim (get_elem? s.entries i) [
  | none ↦ s
  | some entry ↦ record s { entries = set s.entries i (record entry { text = text }) }
]

-- Typing and the keys go to the entry with the focus.
unfoldable pub dispatch : Glib → ℕ → Event → Screen → Option Screen
unfolding set_focus on_limit_entry_activate on_limit_entry_key_pressed on_column_view_pressed
    type_text
dispatch g escape (focus_moves target) s = set_focus g target s
dispatch g escape (typed text) s = elim s.focus [
  | none ↦ some s
  | some i ↦ some (type_text text i s)
]
dispatch g escape enter s = elim s.focus [ none ↦ some s | some i ↦ on_limit_entry_activate g i s ]
dispatch g escape (key keyval) s = elim s.focus [
  | none ↦ some s
  | some i ↦ on_limit_entry_key_pressed g escape keyval s
]
dispatch g escape (pressed picked) s = on_column_view_pressed g picked s

unfoldable pub dispatch_all : Glib → ℕ → List Event → Screen → Option Screen
unfolding dispatch
dispatch_all g escape [] s = some s
dispatch_all g escape (event ∷ events) s = elim (dispatch g escape event s) [
  | none ↦ none
  | some s' ↦ dispatch_all g escape events s'
]
