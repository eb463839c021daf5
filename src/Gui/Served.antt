-- ===== src/Gui/Served.antt =====
-- gui/main.c and gui/backend.c: a session of commands for limits and for cleaning up, each of which is
-- answered by one line.
use mathlib.Core.Path.{subst}
use pidnl.Base.{
  ℕ, zero, suc, ◌≤◌, ◌<◌, ◌≡◌, refl, ap, ◌∙◌, pos, is_zero, false, List, [], ◌∷◌, ◌++◌, Text,
  length, length-append, some, decimal, digits, arith,
}
use pidnl.Cstd.{int_max, uint32_max}
use pidnl.System.{Process, done, M, pure, ◌>>=◌, Call, Trace}
use pidnl.System.Returns.{Suits, IsDone}
use pidnl.Monitor.Client.{send_command}
use pidnl.Monitor.Client.Returns.{in_client}
use pidnl.Discovery.Query.{Netlink}
use pidnl.Ratelimit.Codes.{ratelimit_ok}
use pidnl.Ratelimit.Init.{ratelimit_init}
use pidnl.Gui.{
  backend_cmd_clean, backend_cmd_quit, response_ready, limit_line, serve_limit, handle_clean_cmd,
}
use pidnl.Gui.Session.Steps.{ratelimit_init-Returns}
use pidnl.Gui.Client.{command_line}
use pidnl.Gui.Server.{goes_on, after_command, serve, run_privileged}
use pidnl.Gui.Commands.{serve-limit_line}
use pidnl.Gui.Settled.{responses_text}
use pidnl.Gui.Responds.{
  IsResponse, Responds, responded-result, serve_limit-Responds, handle_clean_cmd-Responds,
}

-- What the window asks of the privileged process, other than a list.
pub data Request : Type 0 where
  limits : ℕ → ℕ → ℕ → Request
  cleaning : Request

abbrev pub request_text : Request → Text
request_text (limits pid upload download) = limit_line pid upload download
request_text cleaning = command_line backend_cmd_clean

abbrev pub AllFitting : List Request → Type 0
AllFitting [] = Unit {0}
AllFitting (limits pid upload download ∷ requests) =
    ((0 < pid) × (pid ≤ int_max) × (upload ≤ uint32_max) × (download ≤ uint32_max))
    × AllFitting requests
AllFitting (cleaning ∷ requests) = AllFitting requests

-- The requests, and then the command that ends the session.
unfoldable pub session_text : List Request → Text
session_text [] = command_line backend_cmd_quit
session_text (request ∷ requests) = request_text request ++ session_text requests

abbrev pub AllResponses : List ℕ → Type 0
AllResponses [] = Unit {0}
AllResponses (response ∷ responses) = IsResponse response × AllResponses responses

module _ (depth : ℕ) (netlinks : Text → Netlink) where
  -- What the loop does for a request.
  unfoldable pub served : Request → M ℕ
  served (limits pid upload download) =
      serve_limit (send_command (suc depth))
        (some (record { pid = pos pid; upload = pos upload; download = pos download }))
  served cleaning = handle_clean_cmd

  pub served-Responds : (request : Request) → Responds (served request)
  unfolding served
  served-Responds (limits pid upload download) = serve_limit-Responds depth _
  served-Responds cleaning = handle_clean_cmd-Responds

  serve-cleaning :
      (fuel : ℕ) (later : Text)
      → serve
          (send_command (suc depth))
          netlinks
          (suc fuel)
          (command_line backend_cmd_clean ++ later)
        ≡ (handle_clean_cmd >>= (λ r. pure (goes_on (command_line r))))
          >>= after_command (serve (send_command (suc depth)) netlinks fuel later)
  unfolding serve command_line decimal digits
  serve-cleaning fuel later = refl

  pub serve-end :
      (p : Process) (fuel : ℕ)
      → length (session_text []) < fuel
      → serve (send_command (suc depth)) netlinks fuel (session_text []) p ≡ (done [], p)
  unfolding session_text serve command_line decimal digits
  serve-end p zero h = absurd (omega arith)
  serve-end p (suc fuel) h = refl

  serve-request :
      (fuel : ℕ) (request : Request) (requests : List Request)
      → AllFitting (request ∷ requests)
      → serve
          (send_command (suc depth))
          netlinks
          (suc fuel)
          (request_text request ++ session_text requests)
        ≡ (served request >>= (λ r. pure (goes_on (command_line r))))
          >>= after_command (serve (send_command (suc depth)) netlinks fuel (session_text requests))
  unfolding served
  serve-request fuel (limits pid upload download) requests ((a, b, c, d), h) =
      serve-limit_line (send_command (suc depth)) netlinks fuel pid upload download
        (session_text requests) a b c d
  serve-request fuel cleaning requests h = serve-cleaning fuel (session_text requests)

  -- A line is not empty, so each round leaves less of the input than its fuel.
  request_fuel :
      (fuel : ℕ) (request : Request) (later : Text)
      → length (request_text request ++ later) < suc fuel
      → length later < fuel
  unfolding limit_line command_line decimal digits
  request_fuel fuel (limits pid upload download) later h =
      omega (arith, length-append {0} (limit_line pid upload download) later)
  request_fuel fuel cleaning later h = omega arith

  fitting-rest :
      (request : Request) (requests : List Request)
      → AllFitting (request ∷ requests)
      → AllFitting requests
  fitting-rest (limits pid upload download) requests h = h.1
  fitting-rest cleaning requests h = h

  -- One round, and then the others.
  pub serve-cons :
      (request : Request) (requests : List Request) (p p' q : Process) (response : ℕ) (out : Text)
      → AllFitting (request ∷ requests)
      → served request p ≡ (done response, p')
      → ((fuel : ℕ)
          → length (session_text requests) < fuel
          → serve (send_command (suc depth)) netlinks fuel (session_text requests) p'
            ≡ (done out, q))
      → (fuel : ℕ) → length (session_text (request ∷ requests)) < fuel
      → serve (send_command (suc depth)) netlinks fuel (session_text (request ∷ requests)) p
        ≡ (done (command_line response ++ out), q)
  unfolding session_text
  serve-cons request requests p p' q response out v e f zero h = absurd (omega arith)
  serve-cons request requests p p' q response out v e f (suc fuel) h =
      ap (λ (m : M Text). m p) (serve-request fuel request requests v)
      ∙ rw (e, f fuel (request_fuel fuel request (session_text requests) h)) refl

  serve-requests :
      (requests : List Request) (p : Process)
      → AllFitting requests
      → Suits in_client p
      → (responses : List ℕ) × (q : Process) × ((fuel : ℕ)
          → length (session_text requests) < fuel
          → serve (send_command (suc depth)) netlinks fuel (session_text requests) p
            ≡ (done (responses_text responses), q))
        × (length responses ≡ length requests)
        × AllResponses responses
  unfolding responses_text
  serve-requests [] p v s = ([], p, serve-end p, refl, tt)
  serve-requests (request ∷ requests) p v s =
      let (response, p', e, good, s') =
        responded-result (served request p) ((served-Responds request).apply p s) in
      let (responses, q, f, same, all) =
        serve-requests requests p' (fitting-rest request requests v) s' in
      (
        response ∷ responses,
        q,
        serve-cons request requests p p' q response (responses_text responses) v e f,
        omega (arith, same),
        (good, all),
      )

  -- The session behind `ratelimit_init`.
  pub run_privileged-ready :
      (input out : Text) (p q q' : Process)
      → ratelimit_init p ≡ (done ratelimit_ok, q)
      → ((fuel : ℕ)
          → length input < fuel
          → serve (send_command (suc depth)) netlinks fuel input q ≡ (done out, q'))
      → run_privileged (send_command (suc depth)) netlinks input p
        ≡ (done (0, command_line response_ready ++ out), q')
  unfolding run_privileged
  run_privileged-ready input out p q q' e f =
      rw (e, run_privileged, f (suc (length input)) (omega arith)) refl

pub ratelimit_init-client :
    (p q : Process)
    → Suits in_client p
    → ratelimit_init p ≡ (done ratelimit_ok, q)
    → Suits in_client q
ratelimit_init-client p q s e =
    subst (IsDone in_client) e ((ratelimit_init-Returns in_client).apply p s)

-- A session of a client that goes on as the parent after every `fork`, where `ratelimit_init`
-- succeeds: the window asks for limits of PIDs from 1 to INT_MAX, in 32 bits, and for cleanings up, in
-- any order, and then ends the session. Whatever the calls answer, the privileged process ends with
-- status 0; it has printed that it is ready, and then in a line for each request, and in no other, a
-- response, which is success or an error.
pub run_privileged-answered :
    (depth : ℕ) (netlinks : Text → Netlink) (requests : List Request) (p q : Process)
    → AllFitting requests
    → p.is_monitor_process ≡ false
    → ((t : Trace) → is_zero (p.env t Call.fork) ≡ false)
    → ratelimit_init p ≡ (done ratelimit_ok, q)
    → (responses : List ℕ) × (q' : Process) × (run_privileged
          (send_command (suc depth))
          netlinks
          (session_text requests)
          p
        ≡ (done (0, command_line response_ready ++ responses_text responses), q'))
      × (length responses ≡ length requests)
      × AllResponses responses
run_privileged-answered depth netlinks requests p q v client parent e =
    let (responses, q', f, same, all) =
      serve-requests depth netlinks requests q v (ratelimit_init-client p q (client, parent) e) in
    (
      responses,
      q',
      run_privileged-ready depth netlinks (session_text requests) (responses_text responses) p q q'
          e f,
      same,
      all,
    )
