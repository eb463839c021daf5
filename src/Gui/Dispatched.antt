-- ===== src/Gui/Dispatched.antt =====
-- gui/processes.c: what each event does.
use pidnl.Base.{
  ℕ, ◌≡◌, refl, sym, ap, ◌∙◌, ℤ, Bool, List, Text, Option, none, some, get_elem?, set, Bool-cases,
  Option-cases, inl, inr, ◌==◌,
}
use pidnl.Gui.Glib.{Glib, IsGlib}
use pidnl.Gui.Rows.{PidnlProcess}
use pidnl.Gui.Entry.{Entry, apply_limit}
use pidnl.Gui.Focus.{
  Screen, nothing, in_entry, elsewhere, Event, focus_moves, typed, enter, key, pressed, is_at,
  apply_at, set_focus, type_text, on_limit_entry_activate, on_limit_focus_leave,
  clear_focus_from_entry, on_limit_entry_key_pressed, on_column_view_pressed, dispatch,
}
use pidnl.Gui.Settled.{typed-IsShowing, IsShowing}
use pidnl.Gui.Answered.{places_of, places_of-set, focus-IsShowing}
use pidnl.Gui.Turns.{screen_with, IsConcluded, Turn, quiet, asks, refocus, applying, apply-Turn}

-- An entry that is applied does not move the focus.
apply_at-refocus :
    (g : Glib) (i : ℕ) (s : Screen) → refocus s.focus (apply_at g i s) ≡ apply_at g i s
unfolding apply_at
apply_at-refocus g i s = elim (Option-cases (get_elem? s.entries i)) [
  | inl absent ↦
      let same : apply_at g i s ≡ some s = rw (apply_at, absent) refl in
      ap (refocus s.focus) same ∙ sym same
  | inr (entry, e) ↦ elim (Option-cases (apply_limit g entry s.view)) [
    | inl waits ↦
        let same : apply_at g i s ≡ none = rw (apply_at, e, apply_at, waits) refl in
        ap (refocus s.focus) same ∙ sym same
    | inr ((entry', view'), f) ↦
        let same : apply_at g i s
            ≡ some (record { view = view'; entries = set s.entries i entry'; focus = s.focus }) =
          rw (apply_at, e, apply_at, f) refl in
        ap (refocus s.focus) same ∙ sym same
  ]
]

IsConcluded-cong :
    (child : ℤ) (closed : Bool) (written : Text) (before : List PidnlProcess)
    (places : List (ℤ × ℕ)) (f h : Text → Option Screen) (response : ℕ)
    → ((bytes : Text) → h bytes ≡ f bytes)
    → IsConcluded child closed written before places f response
    → IsConcluded child closed written before places h response
IsConcluded-cong child closed written before places f h response e c = record {
  store = c.store;
  entries = c.entries;
  focus = c.focus;
  reached = λ rest. e _ ∙ c.reached rest;
  showing = c.showing;
  fitting = c.fitting;
  same = c.same;
}

Turn-cong :
    (child : ℤ) (closed : Bool) (written : Text) (store : List PidnlProcess) (places : List (ℤ × ℕ))
    (f h : Text → Option Screen)
    → ((bytes : Text) → h bytes ≡ f bytes)
    → Turn child closed written store places f
    → Turn child closed written store places h
Turn-cong child closed written store places f h e (quiet entries focus reached s same) =
    quiet entries focus (λ bytes. e bytes ∙ reached bytes) s same
Turn-cong child closed written store places f h e (asks pid up down fits c) =
    asks pid up down fits
      λ response r. IsConcluded-cong child closed _ store places f h response e (c response r)

module _ (g : Glib) (laws : IsGlib g) (child : ℤ) (closed : Bool) (written : Text)
    (store : List PidnlProcess) (entries : List Entry) where
  abbrev TurnOf : (Screen → Option Screen) → Option ℕ → Type 0
  TurnOf handler focus =
      Turn child closed written store (places_of entries)
        (λ bytes. handler (screen_with child closed written bytes store entries focus))

  set_focus-Turn :
      (target focus : Option ℕ) → IsShowing store entries focus → TurnOf (set_focus g target) focus
  unfolding set_focus on_limit_focus_leave
  set_focus-Turn target none s =
      quiet entries target (λ bytes. refl) (focus-IsShowing store entries target s) refl
  set_focus-Turn target (some i) s = elim (Bool-cases (is_at i target)) [
    | inl stays ↦ quiet entries (some i) (λ bytes. rw (stays) refl) s refl
    | inr moves ↦
        Turn-cong child closed written store (places_of entries)
          (applying g laws child closed i written store entries target s) _
          (λ bytes. rw (moves) refl)
          (apply-Turn g laws child closed i written store entries target s)
  ]

  enter-Turn :
      (i : ℕ) → IsShowing store entries (some i) → TurnOf (on_limit_entry_activate g i) (some i)
  unfolding on_limit_entry_activate
  enter-Turn i s =
      Turn-cong child closed written store (places_of entries)
        (applying g laws child closed i written store entries (some i) s) _
        (λ bytes. sym (apply_at-refocus g i _))
        (apply-Turn g laws child closed i written store entries (some i) s)

  typed-Turn :
      (text : Text) (i : ℕ)
      → IsShowing store entries (some i)
      → TurnOf (λ s. some (type_text text i s)) (some i)
  unfolding type_text
  typed-Turn text i s = elim (Option-cases (get_elem? entries i)) [
    | inl absent ↦ quiet entries (some i) (λ bytes. rw (absent) refl) s refl
    | inr (entry, e) ↦
        quiet (set entries i (record entry { text = text })) (some i) (λ bytes. rw (e) refl)
          (typed-IsShowing store entries i entry e s text) (places_of-set entries i entry text e)
  ]

  pub dispatch-Turn :
      (escape : ℕ) (event : Event) (focus : Option ℕ)
      → IsShowing store entries focus
      → TurnOf (dispatch g escape event) focus
  unfolding dispatch on_limit_entry_key_pressed clear_focus_from_entry on_column_view_pressed
  dispatch-Turn escape (focus_moves target) focus s = set_focus-Turn target focus s
  dispatch-Turn escape (typed text) none s = quiet entries none (λ bytes. refl) s refl
  dispatch-Turn escape (typed text) (some i) s = typed-Turn text i s
  dispatch-Turn escape enter none s = quiet entries none (λ bytes. refl) s refl
  dispatch-Turn escape enter (some i) s = enter-Turn i s
  dispatch-Turn escape (key keyval) none s = quiet entries none (λ bytes. refl) s refl
  dispatch-Turn escape (key keyval) (some i) s = elim (Bool-cases (keyval == escape)) [
    | inl escapes ↦ rw (escapes) (set_focus-Turn none (some i) s)
    | inr other ↦ quiet entries (some i) (λ bytes. rw (other) refl) s refl
  ]
  dispatch-Turn escape (pressed in_entry) focus s = quiet entries focus (λ bytes. refl) s refl
  dispatch-Turn escape (pressed nothing) focus s = set_focus-Turn none focus s
  dispatch-Turn escape (pressed elsewhere) focus s = set_focus-Turn none focus s
