-- ===== src/Gui/Applied.antt =====
-- gui/processes.c: `apply_limit`, from the text in an entry to what the entry and the store show.
use pidnl.Base.{
  ℕ, ◌≤◌, ◌≡◌, ◌≢◌, refl, ap, ◌∙◌, ℤ, is_pos, to_ℕ, Bool, true, false, List, ◌++◌, Text, Option,
  none, some, ◌==◌, if◌then◌else◌,
}
use pidnl.Cstd.{int_max}
use pidnl.Gui.{response_ok, limit_line}
use pidnl.Gui.Glib.{Glib, IsGlib}
use pidnl.Gui.Client.{Backend, command_line}
use pidnl.Gui.Reads.{connected, backend_set_limit-command_line}
use pidnl.Gui.Rows.{PidnlProcess, find_process_by_pid}
use pidnl.Gui.Entry.{
  parse_limit_value, Entry, set_entry_to_value, View, is_upload, limit_of, with_limit, set_stored,
  conclude, send_limit, apply_to, apply_limit,
}
use pidnl.Gui.Entered.{changed, find-set_stored, find-set_stored-other}

-- The process after the entry has been applied: it has the new limit if there is one in the text and
-- the backend took it.
abbrev pub applied_item : Bool → Bool → Option ℕ → PidnlProcess → PidnlProcess
applied_item upload ok none item = item
applied_item upload true (some value) item = with_limit upload value item
applied_item upload false (some value) item = item

abbrev pub applied_store : Bool → ℤ → Bool → Option ℕ → List PidnlProcess → List PidnlProcess
applied_store upload pid ok none store = store
applied_store upload pid true (some value) store = set_stored upload pid value store
applied_store upload pid false (some value) store = store

abbrev pub view_of : Backend → List PidnlProcess → View
view_of backend store = record { backend = some backend; store = some store }

conclude-shown :
    (entry : Entry) (upload ok : Bool) (value : ℕ) (store : List PidnlProcess) (backend : Backend)
    (item : PidnlProcess)
    → conclude entry upload (limit_of upload item) value store (ok, some backend) ≡ (
      set_entry_to_value entry (limit_of upload (applied_item upload ok (some value) item)),
      view_of backend (applied_store upload entry.pid ok (some value) store),
    )
unfolding conclude set_stored
conclude-shown entry true true value store backend item = refl
conclude-shown entry true false value store backend item = refl
conclude-shown entry false true value store backend item = refl
conclude-shown entry false false value store backend item = refl

-- The bytes that stay in the pipe: a text that is no limit is not sent, and gets no response.
abbrev pub left : {A : Type 0} → Option ℕ → A → A → A
left none unasked asked = unasked
left (some value) unasked asked = asked

-- The line of a request for a new value of one limit, with the other limit of the process.
abbrev pub request_line : ℤ → Bool → ℕ → PidnlProcess → Text
request_line pid upload value item =
    limit_line (to_ℕ pid) (if upload then value else limit_of true item)
      (if upload then limit_of false item else value)

module _ (g : Glib) (laws : IsGlib g) (entry : Entry) (child : ℤ) (written rest : Text)
    (closed : Bool) (response : ℕ) (h : response ≤ int_max) (store : List PidnlProcess)
    (item : PidnlProcess) where
  -- A value is sent with the limit of the other direction, and the response concludes.
  send_limit-sent :
      (upload : Bool) (value : ℕ)
      → let line = request_line entry.pid upload value item in
        send_limit g entry upload
          (some item)
          (connected child written (command_line response ++ rest) closed)
          store
          (some value)
        ≡ some (
          set_entry_to_value entry
              (limit_of upload (applied_item upload (response == response_ok) (some value) item)),
          view_of
              (connected child (written ++ line) rest closed)
              (applied_store upload entry.pid (response == response_ok) (some value) store),
        )
  unfolding send_limit
  send_limit-sent upload value =
      let up = if upload then value else limit_of true item in
      let down = if upload then limit_of false item else value in
      let number = to_ℕ entry.pid in
      let backend = connected child (written ++ limit_line number up down) rest closed in
      let asked =
        backend_set_limit-command_line g laws number up down response child written rest closed h in
      rw (send_limit, asked)
        (ap some (conclude-shown entry upload (response == response_ok) value store backend item))

  send_limit-shown :
      (upload : Bool) (parsed : Option ℕ)
      → (written' : Text) × (send_limit g entry upload
            (some item)
            (connected child written (command_line response ++ rest) closed)
            store
            parsed
          ≡ some (
            set_entry_to_value entry
                (limit_of upload (applied_item upload (response == response_ok) parsed item)),
            view_of
                (connected child written' (left parsed (command_line response ++ rest) rest) closed)
                (applied_store upload entry.pid (response == response_ok) parsed store),
          ))
  unfolding send_limit
  send_limit-shown upload none = (written, refl)
  send_limit-shown upload (some value) =
      (written ++ request_line entry.pid upload value item, send_limit-sent upload value)

pub applied-found :
    (upload ok : Bool) (parsed : Option ℕ) (pid : ℤ) (store : List PidnlProcess)
    (item : PidnlProcess)
    → find_process_by_pid store pid ≡ some item
    → find_process_by_pid (applied_store upload pid ok parsed store) pid
      ≡ some (applied_item upload ok parsed item)
unfolding changed
applied-found upload ok none pid store item e = e
applied-found upload true (some value) pid store item e =
    find-set_stored upload pid value store ∙ ap (changed upload value) e
applied-found upload false (some value) pid store item e = e

pub applied-other :
    (upload ok : Bool) (parsed : Option ℕ) (pid other : ℤ) (store : List PidnlProcess)
    → other ≢ pid
    → find_process_by_pid (applied_store upload pid ok parsed store) other
      ≡ find_process_by_pid store other
applied-other upload ok none pid other store h = refl
applied-other upload true (some value) pid other store h =
    find-set_stored-other upload pid other value store h
applied-other upload false (some value) pid other store h = refl

-- What `apply_limit` makes of the entry, the store and the pipe.
pub apply_limit-applied :
    (g : Glib) (entry : Entry) (child : ℤ) (written rest : Text) (closed : Bool) (response : ℕ)
    (store : List PidnlProcess) (item : PidnlProcess)
    → IsGlib g
    → is_pos entry.pid ≡ true
    → find_process_by_pid store entry.pid ≡ some item
    → response ≤ int_max
    → let upload = is_upload entry.direction in
      let parsed = parse_limit_value g (g.strstrip entry.text) in
      let ok = response == response_ok in
      (written' : Text) × (apply_limit g entry
          (view_of (connected child written (command_line response ++ rest) closed) store)
        ≡ some (
          set_entry_to_value entry (limit_of upload (applied_item upload ok parsed item)),
          view_of
              (connected child written' (left parsed (command_line response ++ rest) rest) closed)
              (applied_store upload entry.pid ok parsed store),
        ))
unfolding apply_limit apply_to
apply_limit-applied g entry child written rest closed response store item laws pid e h =
    let (written', f) =
      send_limit-shown g laws entry child written rest closed response h store item
        (is_upload entry.direction) (parse_limit_value g (g.strstrip entry.text)) in
    (written', rw (pid, e) f)

-- The two ways, with all that they depend on.
pub apply_limit-unsent :
    (g : Glib) (entry : Entry) (backend : Backend) (store : List PidnlProcess) (item : PidnlProcess)
    → is_pos entry.pid ≡ true
    → find_process_by_pid store entry.pid ≡ some item
    → parse_limit_value g (g.strstrip entry.text) ≡ none
    → apply_limit g entry (view_of backend store)
      ≡ some (
        set_entry_to_value entry (limit_of (is_upload entry.direction) item),
        view_of backend store,
      )
unfolding apply_limit apply_to send_limit
apply_limit-unsent g entry backend store item pid e unread = rw (pid, e, unread) refl

pub apply_limit-sent :
    (g : Glib) (entry : Entry) (child : ℤ) (written rest : Text) (closed : Bool)
    (response value : ℕ) (store : List PidnlProcess) (item : PidnlProcess)
    → IsGlib g
    → is_pos entry.pid ≡ true
    → find_process_by_pid store entry.pid ≡ some item
    → response ≤ int_max
    → parse_limit_value g (g.strstrip entry.text) ≡ some value
    → let upload = is_upload entry.direction in
      let ok = response == response_ok in
      apply_limit g entry
        (view_of (connected child written (command_line response ++ rest) closed) store)
      ≡ some (
        set_entry_to_value entry (limit_of upload (applied_item upload ok (some value) item)),
        view_of
            (connected child (written ++ request_line entry.pid upload value item) rest closed)
            (applied_store upload entry.pid ok (some value) store),
      )
unfolding apply_limit apply_to
apply_limit-sent g entry child written rest closed response value store item laws pid e h read =
    rw (pid, e, read)
      (send_limit-sent g laws entry child written rest closed response h store item
        (is_upload entry.direction) value)

-- An entry for the limit of a process that the store holds is applied, and the response of the
-- backend is in the pipe. Then `apply_limit` ends. The process in the store has the new limit in
-- the entry's direction if the text is a limit and the response is success, else it is as it was;
-- the entry shows the limit that the process in the store then has; and every other process in the
-- store is found as before.
pub apply_limit-shown :
    (g : Glib) (entry : Entry) (child : ℤ) (written rest : Text) (closed : Bool) (response : ℕ)
    (store : List PidnlProcess) (item : PidnlProcess) (other : ℤ)
    → IsGlib g
    → is_pos entry.pid ≡ true
    → find_process_by_pid store entry.pid ≡ some item
    → response ≤ int_max
    → other ≢ entry.pid
    → let upload = is_upload entry.direction in
      let parsed = parse_limit_value g (g.strstrip entry.text) in
      let item' = applied_item upload (response == response_ok) parsed item in
      (backend : Backend) × (store' : List PidnlProcess) × (apply_limit g entry
          (view_of (connected child written (command_line response ++ rest) closed) store)
        ≡ some (set_entry_to_value entry (limit_of upload item'), view_of backend store'))
      × (find_process_by_pid store' entry.pid ≡ some item')
      × (find_process_by_pid store' other ≡ find_process_by_pid store other)
apply_limit-shown g entry child written rest closed response store item other laws pid e h apart =
    let upload = is_upload entry.direction in
    let parsed = parse_limit_value g (g.strstrip entry.text) in
    let ok = response == response_ok in
    let (written', f) =
      apply_limit-applied g entry child written rest closed response store item laws pid e h in
    (
      connected child written' (left parsed (command_line response ++ rest) rest) closed,
      applied_store upload entry.pid ok parsed store,
      f,
      applied-found upload ok parsed entry.pid store item e,
      applied-other upload ok parsed entry.pid other store apart,
    )
