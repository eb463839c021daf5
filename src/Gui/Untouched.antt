-- ===== src/Gui/Untouched.antt =====
-- gui/processes.c: an entry that a column has bound to a process, and that is left as it is.
use pidnl.Base.{
  ℕ, ◌≤◌, ◌≡◌, ◌≢◌, refl, sym, ap, ◌∙◌, ℤ, is_pos, Bool, true, false, List, ◌++◌, Text, some, ◌==◌,
}
use pidnl.Cstd.{int_max, uint32_max}
use pidnl.Gui.{response_ok}
use pidnl.Gui.Glib.{Glib, IsGlib}
use pidnl.Gui.Client.{Backend, command_line}
use pidnl.Gui.Reads.{connected}
use pidnl.Gui.Rows.{PidnlProcess, find_process_by_pid}
use pidnl.Gui.Entry.{
  parse_limit_value, entry_text, Entry, set_entry_to_value, is_upload, limit_of, apply_limit,
}
use pidnl.Gui.Entered.{parse_limit_value-entry_text}
use pidnl.Gui.Applied.{applied_item, view_of, apply_limit-shown}
use pidnl.Gui.Columns.{bind_upload_limit_cb, bind_download_limit_cb}

-- The entry that the column of the direction makes of an entry.
abbrev pub bound : Bool → PidnlProcess → Entry → Entry
bound true proc entry = bind_upload_limit_cb proc entry
bound false proc entry = bind_download_limit_cb proc entry

applied-same :
    (upload ok : Bool) (item : PidnlProcess)
    → applied_item upload ok (some (limit_of upload item)) item ≡ item
applied-same true true item = refl
applied-same true false item = refl
applied-same false true item = refl
applied-same false false item = refl

bound-pid :
    (upload : Bool) (item : PidnlProcess) (entry : Entry) → (bound upload item entry).pid ≡ item.pid
unfolding bind_upload_limit_cb bind_download_limit_cb
bound-pid true item entry = refl
bound-pid false item entry = refl

bound-text :
    (upload : Bool) (item : PidnlProcess) (entry : Entry)
    → (bound upload item entry).text ≡ entry_text (limit_of upload item)
unfolding bind_upload_limit_cb bind_download_limit_cb set_entry_to_value
bound-text true item entry = refl
bound-text false item entry = refl

bound-direction :
    (upload : Bool) (item : PidnlProcess) (entry : Entry)
    → (bound upload item entry).direction ≡ entry.direction
unfolding bind_upload_limit_cb bind_download_limit_cb
bound-direction true item entry = refl
bound-direction false item entry = refl

bound-again :
    (upload : Bool) (item : PidnlProcess) (entry : Entry)
    → set_entry_to_value (bound upload item entry) (limit_of upload item) ≡ bound upload item entry
unfolding bind_upload_limit_cb bind_download_limit_cb set_entry_to_value
bound-again true item entry = refl
bound-again false item entry = refl

-- A column binds an entry of its direction to a process of the store whose limits are 32-bit
-- numbers, and the entry is left without a change. Then, whatever the response, `apply_limit` ends,
-- and the entry, the process and every other process in the store are as they were.
pub apply_limit-untouched :
    (g : Glib) (entry : Entry) (child : ℤ) (written rest : Text) (closed : Bool) (response : ℕ)
    (store : List PidnlProcess) (item : PidnlProcess) (other : ℤ)
    → IsGlib g
    → is_pos item.pid ≡ true
    → limit_of (is_upload entry.direction) item ≤ uint32_max
    → find_process_by_pid store item.pid ≡ some item
    → response ≤ int_max
    → other ≢ item.pid
    → let entry' = bound (is_upload entry.direction) item entry in
      (backend : Backend) × (store' : List PidnlProcess) × (apply_limit g entry'
          (view_of (connected child written (command_line response ++ rest) closed) store)
        ≡ some (entry', view_of backend store'))
      × (find_process_by_pid store' item.pid ≡ some item)
      × (find_process_by_pid store' other ≡ find_process_by_pid store other)
apply_limit-untouched g entry child written rest closed response store item other laws pid fits e h
      apart =
    let upload = is_upload entry.direction in
    let entry' = bound upload item entry in
    let same_pid = bound-pid upload item entry in
    let (backend, store', f, found, others) =
      apply_limit-shown g entry' child written rest closed response store item other laws
        (ap is_pos same_pid ∙ pid) (ap (find_process_by_pid store) same_pid ∙ e) h
        (λ clash. apart (clash ∙ same_pid)) in
    let side = is_upload entry'.direction in
    let parsed = parse_limit_value g (g.strstrip entry'.text) in
    let same_side : side ≡ upload = ap is_upload (bound-direction upload item entry) in
    let read : parsed ≡ some (limit_of upload item) =
      ap (λ s. parse_limit_value g (g.strstrip s)) (bound-text upload item entry)
      ∙ parse_limit_value-entry_text g (limit_of upload item) laws fits in
    let same : applied_item side (response == response_ok) parsed item ≡ item =
      ap (λ o. applied_item side (response == response_ok) o item) read
      ∙ (ap (λ d. applied_item d (response == response_ok) (some (limit_of upload item)) item)
            same_side
          ∙ applied-same upload (response == response_ok) item) in
    let shown = ap (limit_of side) same ∙ ap (λ d. limit_of d item) same_side in
    (
      backend,
      store',
      f
          ∙ ap (λ e'. some (e', view_of backend store'))
              (ap (set_entry_to_value entry') shown ∙ bound-again upload item entry),
      ap (find_process_by_pid store') (sym same_pid) ∙ (found ∙ ap some same),
      others,
    )
