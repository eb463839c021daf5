-- ===== src/Cli/Parse.antt =====
-- cli/main.c: the arguments. A parser that calls `exit` returns `none`.
use pidnl.Base.{
  ℕ, ℤ, is_pos, exceeds, Bool, true, false, ◌||◌, not, List, [], ◌∷◌, Text, codes, text_eq, Option,
  none, some, ltb, ◌==◌, if◌then◌else◌, decimal,
}
use pidnl.Cstd.{strtol, strtoul, int_max, uint32_max}
use pidnl.Ratelimit.Names.{unlimited}

-- `*endptr == '\0'`
abbrev at_end : Text → Bool
at_end [] = true
at_end (c ∷ s) = false

unfoldable pub parse_rate : Text → Option ℕ
unfolding strtoul
parse_rate arg =
    let r = strtoul arg in
    if text_eq arg (codes "-1")
    then some unlimited
    else if r.range_error || (not (at_end r.rest) || ltb uint32_max r.value)
    then none
    else some r.value

unfoldable pub parse_pid : Text → Option ℤ
unfolding strtol
parse_pid arg =
    let r = strtol arg in
    if r.range_error || (not (at_end r.rest) || (not (is_pos r.value) || exceeds r.value int_max))
    then none
    else some r.value

unfoldable pub has_help_flag : List Text → Bool
has_help_flag [] = false
has_help_flag (arg ∷ args) =
    text_eq arg (codes "--help") || (text_eq arg (codes "-h") || has_help_flag args)

-- The loop of `cmd_clean` over its arguments.
unfoldable pub skip_confirmation : List Text → Bool
skip_confirmation [] = false
skip_confirmation (arg ∷ args) =
    text_eq arg (codes "--yes") || (text_eq arg (codes "-y") || skip_confirmation args)

unfoldable pub format_limit : ℕ → Text
unfolding decimal
format_limit kbps = if kbps == unlimited then codes "-" else decimal kbps

pub data Command : Type 0 where
  list limit clean : Command

-- The table `commands[]`.
abbrev commands : List (Text × Command)
commands = (codes "list", list) ∷ (codes "limit", limit) ∷ (codes "clean", clean) ∷ []

unfoldable pub find_in : Text → List (Text × Command) → Option Command
find_in name [] = none
find_in name ((known, cmd) ∷ rest) =
    let later = find_in name rest in if text_eq known name then some cmd else later

unfoldable pub find_command : Text → Option Command
unfolding find_in
find_command name = find_in name commands

-- `argv[i][0] == '-'`; the first byte of an empty argument is its NUL.
abbrev pub is_option : Text → Bool
is_option [] = false
is_option (c ∷ s) = c == b'-'

-- The first argument that is no option, and what follows it.
unfoldable pub command_index : List Text → Option (Text × List Text)
command_index [] = none
command_index (arg ∷ args) =
    let later = command_index args in if is_option arg then later else some (arg, args)
