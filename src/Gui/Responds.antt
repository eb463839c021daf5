-- ===== src/Gui/Responds.antt =====
-- gui/main.c: the responses to the commands for limits and for cleaning up.

use pidnl.Base.{
  ℕ, suc, ◌≡◌, refl, ◌⊎◌, inl, inr, pos, int_eq, Bool, true, false, some, if◌then◌else◌, ◌&&◌,
}
use pidnl.System.{Process, Outcome, done, exited, running, M, pure, resume, ◌>>=◌}
use pidnl.System.Returns.{Suits, IsDone, Returns}
use pidnl.Monitor.Client.{send_command}
use pidnl.Monitor.Client.Returns.{in_client, send_command-client}
use pidnl.Ratelimit.Names.{unlimited}
use pidnl.Ratelimit.Codes.{RatelimitCode, ratelimit_ok}
use pidnl.Ratelimit.Remove.Returns.{unregister_rate_limiter_by_pid-Returns}
use pidnl.Ratelimit.Limit.Returns.{limit_process_bandwidth-Returns}
use pidnl.Ratelimit.Cleanup.Returns.{ratelimit_cleanup_all-Returns}
use pidnl.Monitor.Codes.{cmd_unwatch}
use pidnl.Gui.{
  LimitRequest, response_ok, response_error, serve_limit, handle_clean_cmd, respond, forgive,
}

-- A response is one of two numbers.
abbrev pub IsResponse : ℕ → Type 0
IsResponse r = (r ≡ response_ok) ⊎ (r ≡ response_error)

abbrev pub IsResponded : Outcome ℕ × Process → Type 0
IsResponded (done r, p) = IsResponse r × Suits in_client p
IsResponded (exited n, p) = ⊥
IsResponded (running, p) = ⊥

pub record Responds (m : M ℕ) : Type 0 where
  pub apply : (p : Process) → Suits in_client p → IsResponded (m p)

respond-IsResponse : (code : RatelimitCode) → IsResponse (respond code)
respond-IsResponse ratelimit_ok = inl refl
respond-IsResponse _ = inr refl

-- A response is made of the code of a function that returns.
respond-Responds :
    {m : M RatelimitCode} (f : RatelimitCode → RatelimitCode)
    → Returns in_client m
    → Responds (m >>= (λ code. pure (respond (f code))))
respond-Responds {m} f u = record { apply = λ p h. resumed (m p) (u.apply p h) }
  where
    resumed :
        (o : Outcome RatelimitCode × Process)
        → IsDone in_client o
        → IsResponded (resume (λ code. pure (respond (f code))) o)
    resumed (done code, q) h = (respond-IsResponse (f code), h)
    resumed (exited n, q) h = elim h [ ]
    resumed (running, q) h = elim h [ ]

if-Responds : {m n : M ℕ} (b : Bool) → Responds m → Responds n → Responds (if b then m else n)
if-Responds true u v = u
if-Responds false u v = v

pub serve_limit-Responds :
    (depth : ℕ) (request : LimitRequest)
    → Responds (serve_limit (send_command (suc depth)) (some request))
unfolding serve_limit
serve_limit-Responds depth q =
    if-Responds (int_eq q.upload (pos unlimited) && int_eq q.download (pos unlimited))
      (respond-Responds forgive (
        unregister_rate_limiter_by_pid-Returns in_client (send_command (suc depth)) q.pid
          (send_command-client depth cmd_unwatch q.pid)))
      (respond-Responds (λ code. code)
        (limit_process_bandwidth-Returns in_client (send_command (suc depth))
          (send_command-client depth) q.pid _))

pub handle_clean_cmd-Responds : Responds handle_clean_cmd
unfolding handle_clean_cmd
handle_clean_cmd-Responds =
    respond-Responds (λ code. code) (ratelimit_cleanup_all-Returns in_client)

pub responded-result :
    (o : Outcome ℕ × Process)
    → IsResponded o
    → (r : ℕ) × (q : Process) × (o ≡ (done r, q)) × IsResponse r × Suits in_client q
responded-result (done r, q) h = (r, q, refl, h.0, h.1)
responded-result (exited n, q) h = elim h [ ]
responded-result (running, q) h = elim h [ ]
