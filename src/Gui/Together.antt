-- ===== src/Gui/Together.antt =====
-- gui/: the window and the privileged process together, in a run of events.

use pidnl.Base.{
  ℕ, suc, ◌≤◌, ◌<◌, ◌≡◌, sym, ap, ◌∙◌, inl, inr, ℤ, Bool, List, [], ◌∷◌, ◌++◌, Text, Option, some,
  length, append_nil, append_assoc, arith,
}
use pidnl.Cstd.{int_max}
use pidnl.System.{Process, done}
use pidnl.System.Returns.{Suits}
use pidnl.Monitor.Client.{send_command}
use pidnl.Monitor.Client.Returns.{in_client}
use pidnl.Discovery.Query.{Netlink}
use pidnl.Gui.Glib.{Glib, IsGlib}
use pidnl.Gui.Server.{serve}
use pidnl.Gui.Rows.{PidnlProcess}
use pidnl.Gui.Entry.{Entry}
use pidnl.Gui.Focus.{Screen, Event, dispatch_all}
use pidnl.Gui.Settled.{responses_text, IsShowing}
use pidnl.Gui.Answered.{places_of}
use pidnl.Gui.Turns.{screen_with, quiet, asks}
use pidnl.Gui.Fitting.{IsFitting}
use pidnl.Gui.Dispatched.{dispatch-Turn}
use pidnl.Gui.Responds.{IsResponse, responded-result}
use pidnl.Gui.Served.{
  Request, limits, request_text, AllFitting, session_text, served, served-Responds, serve-cons,
  serve-end,
}

-- What the window has written.
unfoldable pub requests_text : List Request → Text
requests_text [] = []
requests_text (request ∷ requests) = request_text request ++ requests_text requests

response-fits : (r : ℕ) → IsResponse r → r ≤ int_max
response-fits r (inl e) = omega (arith, e)
response-fits r (inr e) = omega (arith, e)

-- The two programs from a screen and a process on: the privileged process reads what the window writes
-- and prints what the window reads, and the window has come to rest.
pub record IsTogether (child : ℤ) (closed : Bool) (depth : ℕ) (netlinks : Text → Netlink)
    (written : Text) (places : List (ℤ × ℕ)) (p : Process) (handle : Text → Option Screen)
    : Type 0 where
  pub requests : List Request
  pub responses : List ℕ
  pub last : Process
  pub fitting : AllFitting requests
  pub prints :
      (fuel : ℕ)
      → length (session_text requests) < fuel
      → serve (send_command (suc depth)) netlinks fuel (session_text requests) p
        ≡ (done (responses_text responses), last)
  pub store : List PidnlProcess
  pub entries : List Entry
  pub focus : Option ℕ
  pub reached :
      handle (responses_text responses)
      ≡ some (screen_with child closed (written ++ requests_text requests) [] store entries focus)
  pub same : places_of entries ≡ places
  pub showing : IsShowing store entries focus

module _ (g : Glib) (laws : IsGlib g) (child : ℤ) (closed : Bool) (escape depth : ℕ)
    (netlinks : Text → Netlink) (places : List (ℤ × ℕ)) where
  pub dispatch_all-IsTogether :
      (events : List Event) (written : Text) (store : List PidnlProcess) (entries : List Entry)
      (focus : Option ℕ) (p : Process)
      → Suits in_client p
      → IsFitting store
      → IsShowing store entries focus
      → places_of entries ≡ places
      → IsTogether child closed depth netlinks written places p (λ bytes.
        dispatch_all g escape events (screen_with child closed written bytes store entries focus))
  unfolding dispatch_all responses_text requests_text
  dispatch_all-IsTogether [] written store entries focus p s fits shows e = record {
    requests = [];
    responses = [];
    last = p;
    fitting = tt;
    prints = λ fuel h. serve-end depth netlinks p fuel h;
    store = store;
    entries = entries;
    focus = focus;
    reached =
        ap (λ text. some (screen_with child closed text [] store entries focus))
          (sym (append_nil written));
    same = e;
    showing = shows;
  }
  dispatch_all-IsTogether (event ∷ events) written store entries focus p s fits shows e =
      elim (dispatch-Turn g laws child closed written store entries escape event focus shows) [
        | quiet entries' focus' reached shows' same ↦
            let t =
              dispatch_all-IsTogether events written store entries' focus' p s fits shows'
                (same ∙ e) in
            record {
              requests = t.requests;
              responses = t.responses;
              last = t.last;
              fitting = t.fitting;
              prints = t.prints;
              store = t.store;
              entries = t.entries;
              focus = t.focus;
              reached = rw (reached (responses_text t.responses), dispatch_all) t.reached;
              same = t.same;
              showing = t.showing;
            }
        | asks pid upload download bounds concluded ↦
            let request = limits pid upload download in
            let (response, p', done', good, s') =
              responded-result (served depth netlinks request p)
                ((served-Responds depth netlinks request).apply p s) in
            let c = concluded response (response-fits response good) in
            let t =
              dispatch_all-IsTogether events (written ++ request_text request) c.store c.entries
                c.focus p' s' (c.fitting fits) c.showing (c.same ∙ e) in
            record {
              requests = request ∷ t.requests;
              responses = response ∷ t.responses;
              last = t.last;
              fitting = (bounds fits, t.fitting);
              prints =
                  serve-cons depth netlinks request t.requests p p' t.last response
                    (responses_text t.responses) (bounds fits, t.fitting) done' t.prints;
              store = t.store;
              entries = t.entries;
              focus = t.focus;
              reached =
                  rw (c.reached (responses_text t.responses), dispatch_all)
                    (t.reached
                      ∙ ap
                          (λ text.
                            some (screen_with child closed text [] t.store t.entries t.focus))
                          (append_assoc written (request_text request) (requests_text t.requests)));
              same = t.same;
              showing = t.showing;
            }
      ]
