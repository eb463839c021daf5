-- ===== src/Cli/Usage.antt =====
-- cli/main.c: the usage texts and the messages of `main`.
use pidnl.Base.{ℕ, suc, ◌-◌, List, [], ◌∷◌, ◌++◌, Text, codes, length}
use pidnl.Ratelimit.Codes.{RatelimitCode, ratelimit_code_string}
use pidnl.Cli.Parse.{Command, list, limit, clean}

-- What `main` itself prints, and the status that it returns.
pub record Report : Type 0 where
  pub status : ℕ
  pub out : Text
  pub err : Text

-- Lines, each with its newline.
unfoldable pub lines : List Text → Text
lines [] = []
lines (line ∷ rest) = line ++ (10 ∷ lines rest)

unfoldable pub spaces : ℕ → Text
spaces ℕ.zero = []
spaces (suc n) = b' ' ∷ spaces n

-- `%-<width>s`
unfoldable pub padded : ℕ → Text → Text
unfolding spaces
padded width s = s ++ spaces (width - length s)

-- The three usages, as `printf("%s\n", ...)` prints them.
pub program_usage : Text
unfolding lines
program_usage = lines (
    codes "Usage: pidnl [OPTIONS] COMMAND [ARGS]..."
    ∷ codes "Commands:"
    ∷ codes "  list                List processes with network connections"
    ∷ codes "  limit               Limit bandwidth for a process"
    ∷ codes "  clean               Clean up all rate limits and cgroups"
    ∷ []
    ∷ codes "Options:"
    ∷ codes "  -h, --help          Display this help message"
    ∷ [])

pub limit_usage : Text
unfolding lines
limit_usage = lines (
    codes "Usage: pidnl limit set <pid> <upload_kbps> <download_kbps>"
    ∷ codes "       pidnl limit unset <pid>"
    ∷ []
    ∷ codes "Commands:"
    ∷ codes "  set <pid> <upload> <download>    Limit bandwidth for a process"
    ∷ codes "  unset <pid>                      Remove rate limit for a process"
    ∷ []
    ∷ codes "Examples:"
    ∷ codes "  pidnl limit set 12345 1000 2000"
    ∷ codes "  pidnl limit unset 12345"
    ∷ [])

pub clean_usage : Text
unfolding lines
clean_usage = lines (
    codes "Usage: pidnl clean [--yes]"
    ∷ []
    ∷ codes "Clean up all rate limits and cgroups created by pidnl."
    ∷ []
    ∷ codes "Options:"
    ∷ codes "  --yes, -y  Skip confirmation prompt"
    ∷ []
    ∷ codes "This will remove all rate limits from processes"
    ∷ [])

-- The fields of a command in the table.
unfoldable pub name_of : Command → Text
name_of list = codes "list"
name_of limit = codes "limit"
name_of clean = codes "clean"

unfoldable pub description : Command → Text
description list = codes "List processes with network connections"
description limit = codes "Limit bandwidth for a process"
description clean = codes "Clean up all rate limits"

unfoldable pub usage : Command → Text
usage list = program_usage
usage limit = limit_usage
usage clean = clean_usage

-- `"  %-18s %s\n"`
unfoldable pub command_entry : Command → Text
unfolding padded name_of description
command_entry cmd =
    codes "  " ++ (padded 18 (name_of cmd) ++ (b' ' ∷ (description cmd ++ (10 ∷ []))))

unfoldable pub print_command_list : Text
unfolding command_entry
print_command_list = command_entry list ++ (command_entry limit ++ command_entry clean)

-- The part behind the first line of both messages, which names the commands. The list goes to
-- standard output, what stands round it to standard error.
unfoldable pub available : Text → Report
unfolding print_command_list lines
available first = record {
  status = 1;
  out = print_command_list;
  err = lines (
      first
      ∷ []
      ∷ codes "Available commands:"
      ∷ []
      ∷ codes "Try 'pidnl --help' for more information."
      ∷ []);
}

unfoldable pub missing_command : Report
unfolding available
missing_command = available (codes "pidnl: missing command")

unfoldable pub unknown_command : Text → Report
unfolding available
unknown_command name = available (codes "pidnl: unknown command '" ++ (name ++ codes "'"))

unfoldable pub failed_init : RatelimitCode → Report
unfolding lines ratelimit_code_string
failed_init code = record {
  status = 1;
  out = [];
  err = lines ((codes "pidnl: " ++ ratelimit_code_string code) ∷ []);
}

unfoldable pub needs_root : Report
unfolding lines
needs_root = record {
  status = 1;
  out = [];
  err = lines (codes "pidnl: this command requires root privileges" ∷ []);
}

abbrev pub succeeded : Text → Report
succeeded out = record { status = 0; out = out; err = [] }
