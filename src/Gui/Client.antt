-- ===== src/Gui/Client.antt =====
-- gui/backend.c: the client of the privileged process. What comes through a pipe is given
-- beforehand: `Pipe.bytes` holds all that the other end is going to write. GLib is a parameter.
use pidnl.Base.{
  ℕ, zero, suc, ◌*◌, ◌^◌, leb, ℤ, pos, negsuc, is_neg, is_pos, exceeds, to_ℕ, int_eq, Bool, true,
  false, not, ◌||◌, ◌++◌, [], ◌∷◌, Text, Option, none, some, decimal, if◌then◌else◌,
}
use pidnl.Cstd.{int_max}
use pidnl.Gui.{
  backend_cmd_list, backend_cmd_quit, backend_cmd_clean, response_ready, response_ok, limit_line,
}
use pidnl.Gui.Glib.{Number, Pipe, LineRead, normal, no_line, Glib}

-- `struct PIDNLBackend`: what has been written to one channel, and what is to come through the
-- other. A null pointer is `none`.
pub record Backend : Type 0 where
  pub pid : ℤ
  pub stdin_channel : Option Text
  pub stdout_channel : Option Pipe

-- What a function returns, and the backend after it. `none`: it waits for ever.
abbrev pub Reply : Type 0 → Type 0
Reply A = Option (A × Option Backend)

-- `"%d\n"`
unfoldable pub command_line : ℕ → Text
unfolding decimal
command_line cmd = decimal cmd ++ (10 ∷ [])

-- A command is written and flushed.
abbrev pub wrote : Text → Option Text → Option Text
wrote cmd none = none
wrote cmd (some written) = some (written ++ cmd)

-- `backend_stop`: what the other end has been sent, and whether its end is waited for.
pub record Stopped : Type 0 where
  pub sent : Option Text
  pub waits_for : Option ℤ

unfoldable pub backend_stop : Option Backend → Option Stopped
unfolding command_line
backend_stop none = none
backend_stop (some b) = some (record {
  sent = wrote (command_line backend_cmd_quit) b.stdin_channel;
  waits_for = if is_pos b.pid then some b.pid else none;
})

-- `i < count * 2` for an `int`: a product that does not fit wraps to a negative number.
unfoldable pub line_count : ℤ → ℕ
line_count count =
    let twice = to_ℕ count * 2 in
    if not (is_pos count) then 0 else if leb (2 ^ 31) twice then 0 else twice

-- The functions that ask: `absent` is returned where the backend or a channel is missing; else the
-- command is written, and `answer` gets what comes through the pipe.
abbrev pub ask : {A : Type 0} → A → Text → (Pipe → Option (A × Pipe)) → Option Backend → Reply A
ask absent cmd answer none = some (absent, none)
ask absent cmd answer (some b) = elim b.stdin_channel [
  | none ↦ some (absent, some b)
  | some written ↦ elim b.stdout_channel [
    | none ↦ some (absent, some b)
    | some pipe ↦ elim (answer pipe) [
      | none ↦ none
      | some (a, pipe') ↦ some (
        a,
        some (record b { stdin_channel = some (written ++ cmd); stdout_channel = some pipe' }),
      )
    ]
  ]
]

abbrev pub checked_int : Number → ℤ
checked_int n =
    if not n.moved || (is_neg n.value || exceeds n.value int_max) then negsuc 0 else n.value

module _ (g : Glib) where
  unfoldable pub parse_protocol_int : Option Text → ℤ
  parse_protocol_int none = negsuc 0
  parse_protocol_int (some str) = checked_int (g.ascii_strtoll str)

  -- The status is normal and the line holds this number.
  unfoldable pub responds : ℕ → LineRead → Bool
  unfolding parse_protocol_int
  responds code no_line = false
  responds code (normal line) = int_eq (parse_protocol_int (some line)) (pos code)

  -- `g_spawn_async_with_pipes` yields the PID and the pipe, or fails, and then `*backend` stays as it
  -- is.
  unfoldable pub backend_start : Option Backend → Option (ℤ × Pipe) → Reply Bool
  unfolding responds
  backend_start backend none = some (false, backend)
  backend_start backend (some (pid, stdout)) = elim (g.read_line stdout) [
    | none ↦ none
    | some (line, stdout') ↦
        if responds response_ready line
        then some (
          true,
          some (record { pid = pid; stdin_channel = some []; stdout_channel = some stdout' }),
        )
        else some (false, none)
  ]

  -- The response line of a command, which is tested for success.
  unfoldable pub read_response : Pipe → Option (Bool × Pipe)
  unfolding responds
  read_response pipe = elim (g.read_line pipe) [
    | none ↦ none
    | some (line, pipe') ↦ some (responds response_ok line, pipe')
  ]

  unfoldable pub backend_set_limit : ℕ → ℕ → ℕ → Option Backend → Reply Bool
  unfolding read_response limit_line
  backend_set_limit pid upload_kbps download_kbps b =
      ask false (limit_line pid upload_kbps download_kbps) read_response b

  unfoldable pub backend_clean : Option Backend → Reply Bool
  unfolding read_response command_line
  backend_clean b = ask false (command_line backend_cmd_clean) read_response b

  -- The loop over the lines of the processes.
  unfoldable pub read_lines : ℕ → Text → Pipe → Option (Text × Pipe)
  read_lines zero response pipe = some (response, pipe)
  read_lines (suc n) response pipe = elim (g.read_line pipe) [
    | none ↦ none
    | some (normal line, pipe') ↦ read_lines n (response ++ line) pipe'
    | some (no_line, pipe') ↦ some (response, pipe')
  ]

  unfoldable pub read_list : Pipe → Option (Option Text × Pipe)
  unfolding read_lines line_count parse_protocol_int
  read_list pipe = elim (g.read_line pipe) [
    | none ↦ none
    | some (no_line, pipe') ↦ some (none, pipe')
    | some (normal line, pipe') ↦
        elim (read_lines (line_count (parse_protocol_int (some line))) line pipe') [
          | none ↦ none
          | some (response, pipe'') ↦ some (some response, pipe'')
        ]
  ]

  unfoldable pub backend_list : Option Backend → Reply (Option Text)
  unfolding read_list command_line
  backend_list b = ask none (command_line backend_cmd_list) read_list b
