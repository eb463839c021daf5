-- ===== src/Gui/Answered.antt =====
-- gui/processes.c: what a run of events makes of the screen, while the backend answers.

use pidnl.Base.{
  ℕ, zero, suc, ◌≡◌, refl, ℤ, Bool, List, [], ◌∷◌, Text, Option, none, some, get_elem?, set,
}
use pidnl.Gui.Reads.{connected}
use pidnl.Gui.Rows.{PidnlProcess}
use pidnl.Gui.Entry.{Entry}
use pidnl.Gui.Applied.{view_of}
use pidnl.Gui.Focus.{Screen}
use pidnl.Gui.Settled.{responses_text, AllFit, IsShowing}

abbrev pub screen_of : ℤ → Bool → Text → List ℕ → List PidnlProcess → List Entry → Option ℕ → Screen
screen_of child closed written responses store entries focus = record {
  view = view_of (connected child written (responses_text responses) closed) store;
  entries = entries;
  focus = focus;
}

-- The processes and the directions that the entries are for.
abbrev pub places_of : List Entry → List (ℤ × ℕ)
places_of [] = []
places_of (entry ∷ entries) = (entry.pid, entry.direction) ∷ places_of entries

pub places_of-set :
    (entries : List Entry) (i : ℕ) (entry : Entry) (text : Text)
    → get_elem? entries i ≡ some entry
    → places_of (set entries i (record entry { text = text })) ≡ places_of entries
places_of-set [] i entry text e = refl
places_of-set (first ∷ entries) zero entry text e = cc
places_of-set (first ∷ entries) (suc i) entry text e = cc (places_of-set entries i entry text e)

-- The program has not waited for ever, what is left in the pipe are responses, and the entries are for
-- the processes that they were for and show what they should.
pub record IsAnswered (child : ℤ) (closed : Bool) (places : List (ℤ × ℕ)) (after : Option Screen)
    : Type 0 where
  pub written : Text
  pub responses : List ℕ
  pub store : List PidnlProcess
  pub entries : List Entry
  pub focus : Option ℕ
  pub reached : after ≡ some (screen_of child closed written responses store entries focus)
  pub fit : AllFit responses
  pub same : places_of entries ≡ places
  pub showing : IsShowing store entries focus

pub focus-IsShowing :
    (store : List PidnlProcess) (entries : List Entry) (focus : Option ℕ)
    → IsShowing store entries none
    → IsShowing store entries focus
focus-IsShowing store entries focus s = record {
  bound = s.bound;
  apart = s.apart;
  shown = λ i e h _. s.shown i e h (λ q. absurd (cc));
}

-- Where no entry has the focus, each shows its limit.
pub absent-IsShowing :
    (store : List PidnlProcess) (entries : List Entry) (i : ℕ)
    → get_elem? entries i ≡ none
    → IsShowing store entries (some i)
    → IsShowing store entries none
absent-IsShowing store entries i absent s = record {
  bound = s.bound;
  apart = s.apart;
  shown = λ j e h _. s.shown j e h (λ q. absurd (cc (absent, h, q)));
}
