-- ===== src/Gui.antt =====
-- gui/main.c: the privileged process, as far as it serves limits, and the line that
-- `backend_set_limit` of gui/backend.c writes to it.
pub mod Glib
pub mod Client
pub mod Server
pub mod Session
pub mod Icons
pub mod Rows
pub mod Lines
pub mod Shown
pub mod Reads
pub mod Refresh
pub mod Commands
pub mod Entry
pub mod Entered
pub mod Applied
pub mod Focus
pub mod Settled
pub mod Answered
pub mod Events
pub mod Presented
pub mod Cleaned
pub mod Served
pub mod Fitting
pub mod Turns
pub mod Dispatched
pub mod Together
pub mod Whole
pub mod Responds
pub mod Columns
pub mod Cells
pub mod Window
pub mod Untouched
pub mod Protocol
pub mod Balance
use pidnl.Base.{
  ℕ, ◌%◌, ◌^◌, ℤ, pos, is_neg, is_pos, exceeds, int_eq, not, ◌||◌, ◌&&◌, List, [], ◌∷◌, ◌++◌, Text,
  Option, none, some, decimal, if◌then◌else◌,
}
use pidnl.System.{M, pure, ◌>>=◌}
use pidnl.Cstd.{skip_space, strtol, int_max, uint32_max}
use pidnl.Monitor.Codes.{MonitorCode}
use pidnl.Ratelimit.Names.{unlimited}
use pidnl.Ratelimit.Codes.{RatelimitCode, ratelimit_ok, cgroup_not_found}
use pidnl.Ratelimit.Limit.{limit_process_bandwidth}
use pidnl.Ratelimit.Remove.{unregister_rate_limiter_by_pid}
use pidnl.Ratelimit.Cleanup.{ratelimit_cleanup_all}

abbrev pub backend_cmd_list : ℕ
backend_cmd_list = 0

abbrev pub cmd_limit : ℕ
cmd_limit = 1

abbrev pub backend_cmd_quit : ℕ
backend_cmd_quit = 2

abbrev pub backend_cmd_clean : ℕ
backend_cmd_clean = 3

abbrev pub response_ready : ℕ
response_ready = 0

abbrev pub response_ok : ℕ
response_ok = 1

abbrev pub response_error : ℕ
response_error = 2

-- `n` conversions `%ld` of `sscanf`: white space is skipped, and a number read that must be there. A
-- number out of range sets `errno`, which the callers refuse like a missing one.
unfoldable pub scan_longs : ℕ → Text → Option (List ℤ)
unfolding skip_space strtol
scan_longs ℕ.zero text = some []
scan_longs (ℕ.suc n) text =
    let r = strtol (skip_space text) in
    let rest = scan_longs n r.rest in
    if not r.moved || r.range_error
    then none
    else elim rest [ none ↦ none | some values ↦ some (r.value ∷ values) ]

-- The request in a line.
pub record LimitRequest : Type 0 where
  pub pid : ℤ
  pub upload : ℤ
  pub download : ℤ

-- The tests of `handle_limit_cmd` on the numbers. The first is the command.
unfoldable pub checked_request : List ℤ → Option LimitRequest
checked_request (cmd ∷ pid ∷ upload ∷ download ∷ []) =
    if not (is_pos pid)
      || (exceeds pid int_max
          || (is_neg upload
              || (exceeds upload uint32_max || (is_neg download || exceeds download uint32_max))))
    then none
    else some (record { pid = pid; upload = upload; download = download })
checked_request _ = none

unfoldable pub limit_request : Text → Option LimitRequest
unfolding scan_longs checked_request
limit_request line = elim (scan_longs 4 line) [ none ↦ none | some values ↦ checked_request values ]

-- What `backend_set_limit` writes.
unfoldable pub limit_line : ℕ → ℕ → ℕ → Text
unfolding decimal
limit_line pid upload download =
    decimal cmd_limit
    ++ (b' '
        ∷ (decimal pid ++ (b' ' ∷ (decimal upload ++ (b' ' ∷ (decimal download ++ (10 ∷ [])))))))

-- `rc == RATELIMIT_OK ? BACKEND_RESPONSE_OK : BACKEND_RESPONSE_ERROR`
abbrev pub respond : RatelimitCode → ℕ
respond ratelimit_ok = response_ok
respond _ = response_error

-- A process without a limit has nothing to remove.
abbrev pub forgive : RatelimitCode → RatelimitCode
forgive cgroup_not_found = ratelimit_ok
forgive code = code

abbrev low_word : ℤ → ℕ
low_word (pos n) = n % 2 ^ 32
low_word (ℤ.negsuc n) = 0

module _ (send : ℤ → ℤ → M MonitorCode) where
  -- The two branches of a request that passes the tests.
  pub serve_limit : Option LimitRequest → M ℕ
  serve_limit none = pure response_error
  serve_limit (some request) =
      if int_eq request.upload (pos unlimited) && int_eq request.download (pos unlimited)
      then unregister_rate_limiter_by_pid send request.pid
        >>= (λ code. pure (respond (forgive code)))
      else limit_process_bandwidth send request.pid (record {
        upload_kbps = low_word request.upload;
        download_kbps = low_word request.download;
      })
        >>= (λ code. pure (respond code))

  -- The response that is printed.
  unfoldable pub handle_limit_cmd : Text → M ℕ
  unfolding serve_limit limit_request
  handle_limit_cmd line = serve_limit (limit_request line)

unfoldable pub handle_clean_cmd : M ℕ
handle_clean_cmd = ratelimit_cleanup_all >>= (λ code. pure (respond code))
