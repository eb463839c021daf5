-- ===== src/Gui/Entry.antt =====
-- gui/processes.c: the entries for limits, from their text to the backend and the store.
use pidnl.Base.{
  ℕ, ◌-◌, ℤ, is_neg, is_pos, to_ℕ, int_eq, leb, Bool, true, false, not, ◌||◌, List, [], ◌∷◌, Text,
  codes, text_eq, ◌==◌, Option, none, some, decimal, if◌then◌else◌,
}
use pidnl.Bpf.{direction_upload}
use pidnl.Ratelimit.Names.{unlimited}
use pidnl.Gui.Glib.{Number, Glib}
use pidnl.Gui.Client.{Backend, backend_set_limit}
use pidnl.Gui.Rows.{PidnlProcess, find_process_by_pid, is_nil}

-- Empty, "-" or "-1" mean no limit.
abbrev pub means_unlimited : Text → Bool
means_unlimited text = text_eq text [] || (text_eq text (codes "-") || text_eq text (codes "-1"))

-- A number that is not negative and has nothing behind it.
abbrev pub is_limit : Number → Bool
is_limit n = not (not n.moved || (not (is_nil n.rest) || is_neg n.value))

-- The greatest limit stands for all greater ones: the value above it means none.
abbrev pub capped : ℕ → ℕ
capped n = if leb unlimited n then unlimited - 1 else n

unfoldable pub parse_limit_value : Glib → Text → Option ℕ
unfolding text_eq
parse_limit_value g text =
    let n = g.ascii_strtoll text in
    if means_unlimited text
    then some unlimited
    else if is_limit n
    then some (capped (to_ℕ n.value))
    else none

-- The text that `set_entry_to_value` sets.
unfoldable pub entry_text : ℕ → Text
unfolding decimal
entry_text value = if value == unlimited then [] else decimal value

-- A text entry, with the data that the columns attach to it.
pub record Entry : Type 0 where
  pub pid : ℤ
  pub direction : ℕ
  pub text : Text

unfoldable pub set_entry_to_value : Entry → ℕ → Entry
unfolding entry_text
set_entry_to_value entry value = record entry { text = entry_text value }

-- The data of the view: the backend and the store, which may be missing.
pub record View : Type 0 where
  pub backend : Option Backend
  pub store : Option (List PidnlProcess)

abbrev pub get_store_from_view : View → Option (List PidnlProcess)
get_store_from_view view = view.store

abbrev pub get_backend_from_view : View → Option Backend
get_backend_from_view view = view.backend

abbrev pub is_upload : ℕ → Bool
is_upload direction = direction == direction_upload

-- The limit of a direction.
abbrev pub limit_of : Bool → PidnlProcess → ℕ
limit_of true item = item.upload_kbps
limit_of false item = item.download_kbps

abbrev pub limit_or_none : Bool → Option PidnlProcess → ℕ
limit_or_none upload none = unlimited
limit_or_none upload (some item) = limit_of upload item

abbrev pub with_limit : Bool → ℕ → PidnlProcess → PidnlProcess
with_limit true value item = record item { upload_kbps = value }
with_limit false value item = record item { download_kbps = value }

-- The object that `find_process_by_pid` found is changed, in the store that holds it.
unfoldable pub set_stored : Bool → ℤ → ℕ → List PidnlProcess → List PidnlProcess
set_stored upload pid value [] = []
set_stored upload pid value (item ∷ items) =
    let rest = set_stored upload pid value items in
    if int_eq item.pid pid then with_limit upload value item ∷ items else item ∷ rest

-- What the backend answers to the new value: refused, the entry shows the old one again.
unfoldable pub conclude :
    Entry → Bool → ℕ → ℕ → List PidnlProcess → Bool × Option Backend → Entry × View
unfolding set_entry_to_value set_stored
conclude entry upload current value store (true, backend) = (
  set_entry_to_value entry value,
  record { backend = backend; store = some (set_stored upload entry.pid value store) },
)
conclude entry upload current value store (false, backend) =
    (set_entry_to_value entry current, record { backend = backend; store = some store })

unfoldable pub send_limit :
    Glib
    → Entry
    → Bool
    → Option PidnlProcess
    → Backend
    → List PidnlProcess
    → Option ℕ
    → Option (Entry × View)
unfolding set_entry_to_value backend_set_limit conclude
send_limit g entry upload proc backend store none = some (
  set_entry_to_value entry (limit_or_none upload proc),
  record { backend = some backend; store = some store },
)
send_limit g entry upload proc backend store (some value) =
    let up = if upload then value else limit_or_none true proc in
    let down = if upload then limit_or_none false proc else value in
    elim (backend_set_limit g (to_ℕ entry.pid) up down (some backend)) [
      | none ↦ none
      | some reply ↦ some (conclude entry upload (limit_or_none upload proc) value store reply)
    ]

unfoldable pub apply_to :
    Glib → Entry → Option Backend → Option (List PidnlProcess) → Option (Entry × View)
unfolding send_limit parse_limit_value find_process_by_pid
apply_to g entry (some backend) (some store) =
    send_limit g entry (is_upload entry.direction) (find_process_by_pid store entry.pid) backend
      store (parse_limit_value g (g.strstrip entry.text))
apply_to g entry backend store = some (entry, record { backend = backend; store = store })

-- `apply_limit` on an entry that stands in a view; without one, nothing is done. `none`: it waits for ever.
unfoldable pub apply_limit : Glib → Entry → View → Option (Entry × View)
unfolding apply_to
apply_limit g entry view =
    if is_pos entry.pid
    then apply_to g entry (get_backend_from_view view) (get_store_from_view view)
    else some (entry, view)
