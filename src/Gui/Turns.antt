-- ===== src/Gui/Turns.antt =====
-- gui/processes.c: what one event asks of the privileged process, and what the response makes of the
-- screen and the store.
use pidnl.Base.{
  ℕ, ◌≤◌, ◌<◌, ◌≡◌, refl, ℤ, to_ℕ, is_pos, Bool, true, false, List, ◌++◌, Text, Option, none, some,
  get_elem?, set, Option-cases, inl, inr, ◌==◌, if◌then◌else◌, arith,
}
use pidnl.Cstd.{int_max, uint32_max}
use pidnl.Gui.{response_ok, limit_line}
use pidnl.Gui.Glib.{Glib, IsGlib}
use pidnl.Gui.Client.{command_line}
use pidnl.Gui.Reads.{connected}
use pidnl.Gui.Rows.{PidnlProcess, find_process_by_pid}
use pidnl.Gui.Entry.{parse_limit_value, Entry, set_entry_to_value, is_upload, limit_of}
use pidnl.Gui.Entered.{parse_limit_value-le}
use pidnl.Gui.Applied.{applied_item, applied_store, view_of, apply_limit-unsent, apply_limit-sent}
use pidnl.Gui.Fitting.{IsFitting, applied-IsFitting}
use pidnl.Gui.Focus.{Screen, apply_at}
use pidnl.Gui.Settled.{IsShowing, applied-IsShowing}
use pidnl.Gui.Answered.{places_of, places_of-set, focus-IsShowing, absent-IsShowing}

abbrev pub screen_with : ℤ → Bool → Text → Text → List PidnlProcess → List Entry → Option ℕ → Screen
screen_with child closed written bytes store entries focus = record {
  view = view_of (connected child written bytes closed) store;
  entries = entries;
  focus = focus;
}

-- The store and the screen after a response, whatever follows it in the pipe.
pub record IsConcluded (child : ℤ) (closed : Bool) (written : Text) (before : List PidnlProcess)
    (places : List (ℤ × ℕ)) (handle : Text → Option Screen) (response : ℕ) : Type 0 where
  pub store : List PidnlProcess
  pub entries : List Entry
  pub focus : Option ℕ
  pub reached :
      (rest : Text)
      → handle (command_line response ++ rest)
        ≡ some (screen_with child closed written rest store entries focus)
  pub showing : IsShowing store entries focus
  pub fitting : IsFitting before → IsFitting store
  pub same : places_of entries ≡ places

-- A handler sends nothing and leaves the pipe, or it sends one request and reads one response.
pub data Turn (child : ℤ) (closed : Bool) (written : Text) (store : List PidnlProcess)
    (places : List (ℤ × ℕ)) (handle : Text → Option Screen) : Type 0 where
  quiet :
      (entries : List Entry) (focus : Option ℕ)
      → ((bytes : Text)
          → handle bytes ≡ some (screen_with child closed written bytes store entries focus))
      → IsShowing store entries focus
      → places_of entries ≡ places
      → Turn child closed written store places handle
  asks :
      (pid upload download : ℕ)
      → (IsFitting store
          → (0 < pid) × (pid ≤ int_max) × (upload ≤ uint32_max) × (download ≤ uint32_max))
      → ((response : ℕ)
          → response ≤ int_max
          → IsConcluded child closed
              (written ++ limit_line pid upload download)
              store
              places
              handle
              response)
      → Turn child closed written store places handle

-- The focus is put somewhere after the handler.
abbrev pub refocus : Option ℕ → Option Screen → Option Screen
refocus focus after = elim after [ none ↦ none | some s ↦ some (record s { focus = focus }) ]

chosen-fits :
    (typed : Bool) (value limit : ℕ)
    → value ≤ uint32_max
    → limit ≤ uint32_max
    → (if typed then value else limit) ≤ uint32_max
chosen-fits true value limit h k = h
chosen-fits false value limit h k = k

is_pos-to_ℕ : (n : ℤ) → is_pos n ≡ true → 0 < to_ℕ n
is_pos-to_ℕ n h = ground arith

module _ (g : Glib) (laws : IsGlib g) (child : ℤ) (closed : Bool) (i : ℕ) (written : Text)
    (store : List PidnlProcess) (entries : List Entry) (target : Option ℕ)
    (s : IsShowing store entries (some i)) where
  abbrev pub applying : Text → Option Screen
  applying bytes =
      refocus target (apply_at g i (screen_with child closed written bytes store entries (some i)))

  unsent-Turn :
      (entry : Entry) (item : PidnlProcess)
      → get_elem? entries i ≡ some entry
      → find_process_by_pid store entry.pid ≡ some item
      → parse_limit_value g (g.strstrip entry.text) ≡ none
      → Turn child closed written store (places_of entries) applying
  unfolding apply_at set_entry_to_value
  unsent-Turn entry item e f unread =
      let shown = set_entry_to_value entry (limit_of (is_upload entry.direction) item) in
      quiet (set entries i shown) target
        (λ bytes.
          rw
            (
              e,
              apply_limit-unsent g entry (connected child written bytes closed) store item
                  (s.bound i entry e).0 f unread,
            )
            refl)
        (focus-IsShowing store _ target
          (applied-IsShowing store entries i entry e s true none item f))
        (places_of-set entries i entry _ e)

  sent-Turn :
      (entry : Entry) (item : PidnlProcess) (value : ℕ)
      → get_elem? entries i ≡ some entry
      → find_process_by_pid store entry.pid ≡ some item
      → parse_limit_value g (g.strstrip entry.text) ≡ some value
      → Turn child closed written store (places_of entries) applying
  unfolding apply_at set_entry_to_value
  sent-Turn entry item value e f read =
      let upload = is_upload entry.direction in
      asks (to_ℕ entry.pid) (if upload then value else limit_of true item)
        (if upload then limit_of false item else value)
        (λ fits. (
          is_pos-to_ℕ entry.pid (s.bound i entry e).0,
          fits.pid_fits entry.pid item f,
          chosen-fits upload value (limit_of true item) typed_fits
              (fits.limit_fits true entry.pid item f),
          chosen-fits upload (limit_of false item) value (fits.limit_fits false entry.pid item f)
              typed_fits,
        ))
        (λ response h.
          let ok = response == response_ok in
          record {
            store = applied_store upload entry.pid ok (some value) store;
            entries = set entries i (
                set_entry_to_value entry
                  (limit_of upload (applied_item upload ok (some value) item)));
            focus = target;
            reached = λ rest.
                rw
                  (
                    e,
                    apply_limit-sent g entry child written rest closed response value store item
                        laws (s.bound i entry e).0 f h read,
                  )
                  refl;
            showing =
                focus-IsShowing _ _ target
                  (applied-IsShowing store entries i entry e s ok (some value) item f);
            fitting =
                λ fits. applied-IsFitting upload ok value entry.pid store item f typed_fits fits;
            same = places_of-set entries i entry _ e;
          })
    where
      typed_fits : value ≤ uint32_max
      typed_fits = parse_limit_value-le g (g.strstrip entry.text) value read

  pub apply-Turn : Turn child closed written store (places_of entries) applying
  unfolding apply_at
  apply-Turn = elim (Option-cases (get_elem? entries i)) [
    | inl absent ↦
        quiet entries target (λ bytes. rw (absent) refl)
          (focus-IsShowing store entries target (absent-IsShowing store entries i absent s)) refl
    | inr (entry, e) ↦ elim (Option-cases (find_process_by_pid store entry.pid)) [
      | inl lost ↦ absurd ((s.bound i entry e).1 lost)
      | inr (item, f) ↦ elim (Option-cases (parse_limit_value g (g.strstrip entry.text))) [
        | inl unread ↦ unsent-Turn entry item e f unread
        | inr (value, read) ↦ sent-Turn entry item value e f read
      ]
    ]
  ]
