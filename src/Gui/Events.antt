-- ===== src/Gui/Events.antt =====
-- gui/processes.c: a run of events at the entries for limits, with the responses in the pipe.
use pidnl.Base.{ℕ, ◌≤◌, ◌≡◌, refl, ◌∙◌, ℤ, Bool, List, [], ◌∷◌, Text, Option, length, arith}
use pidnl.Gui.Glib.{Glib, IsGlib}
use pidnl.Gui.Rows.{PidnlProcess}
use pidnl.Gui.Entry.{Entry}
use pidnl.Gui.Focus.{Event, dispatch_all}
use pidnl.Gui.Settled.{responses_text, AllFit, IsShowing}
use pidnl.Gui.Answered.{IsAnswered, screen_of, places_of}
use pidnl.Gui.Turns.{quiet, asks}
use pidnl.Gui.Dispatched.{dispatch-Turn}

module _ (g : Glib) (laws : IsGlib g) (child : ℤ) (closed : Bool) (escape : ℕ)
    (places : List (ℤ × ℕ)) where
  -- Each event reads a response at most.
  pub dispatch_all-IsAnswered :
      (events : List Event) (written : Text) (responses : List ℕ) (store : List PidnlProcess)
      (entries : List Entry) (focus : Option ℕ)
      → length events ≤ length responses
      → AllFit responses
      → IsShowing store entries focus
      → places_of entries ≡ places
      → IsAnswered child closed places (
          dispatch_all g escape events
            (screen_of child closed written responses store entries focus))
  unfolding dispatch_all responses_text
  dispatch_all-IsAnswered [] written responses store entries focus h fit s p = record {
    written = written;
    responses = responses;
    store = store;
    entries = entries;
    focus = focus;
    reached = refl;
    fit = fit;
    same = p;
    showing = s;
  }
  dispatch_all-IsAnswered (event ∷ events) written [] store entries focus h fit s p =
      absurd (omega arith)
  dispatch_all-IsAnswered (event ∷ events) written (response ∷ responses) store entries focus h fit
        s p =
      elim (dispatch-Turn g laws child closed written store entries escape event focus s) [
        | quiet entries' focus' reached s' same ↦
            rw (reached (responses_text (response ∷ responses)), dispatch_all)
              (dispatch_all-IsAnswered events written (response ∷ responses) store entries' focus'
                (omega arith) fit s' (same ∙ p))
        | asks pid upload download fits concluded ↦
            let c = concluded response fit.0 in
            rw (c.reached (responses_text responses), dispatch_all)
              (dispatch_all-IsAnswered events _ responses c.store c.entries c.focus (omega arith)
                fit.1 c.showing (c.same ∙ p))
      ]
