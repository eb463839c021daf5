-- ===== src/Cli/Runs.antt =====
-- cli/main.c: runs of `main` and of the handlers.
use pidnl.Base.{
  ℕ, zero, suc, ◌≤◌, length, ℤ, ◌≡◌, refl, Bool, true, false, ◌||◌, List, [], ◌∷◌, Text, some, ◌==◌,
  Bool-cases, Option-cases, ◌⊎◌, inl, inr, arith,
}
use pidnl.System.{Process, done, running, M, ◌>>=◌}
use pidnl.Monitor.Codes.{MonitorCode}
use pidnl.Discovery.{ProcessList}
use pidnl.Discovery.Query.{discovery_ok, Netlink, get_network_processes}
use pidnl.Ratelimit.Codes.{RatelimitCode}
use pidnl.Ratelimit.Init.{ratelimit_init}
use pidnl.Ratelimit.Cleanup.{ratelimit_cleanup_all}
use pidnl.Cli.Parse.{has_help_flag, skip_confirmation, find_command, command_index}
use pidnl.Cli.Usage.{Report, missing_command, unknown_command, failed_init, needs_root}
use pidnl.Cli.{
  World, check, is_ratelimit_ok, discover, drain, confirm, cmd_clean, help, dispatch, main,
}

-- The input has a newline.
unfoldable pub has_newline : Text → Bool
has_newline [] = false
has_newline (c ∷ input) = c == 10 || has_newline input

pub discover-ok :
    (netlink : Netlink) (found : ProcessList) (p : Process)
    → get_network_processes netlink ≡ some (discovery_ok, found)
    → discover netlink p ≡ (done found, p)
unfolding discover
discover-ok netlink found p e = rw (e, discover)

module _ (send : ℤ → ℤ → M MonitorCode) where
  no_root-dispatch :
      (world : World) (args : List Text) (q : Process)
      → world.root ≡ false
      → (report : Report) × (dispatch send world args q ≡ (done report, q))
  unfolding dispatch
  no_root-dispatch world args q user = elim (Option-cases (command_index args)) [
    | inl e ↦ (missing_command, rw (e, dispatch))
    | inr ((name, rest), e) ↦ elim (Option-cases (find_command name)) [
      | inl f ↦ (unknown_command name, rw (e, dispatch, f, dispatch))
      | inr (cmd, f) ↦ (needs_root, rw (e, dispatch, f, dispatch, user))
    ]
  ]

  -- Without root, or where an argument asks for help, `main` does nothing behind `ratelimit_init`: it
  -- returns a status, and the process is as `ratelimit_init` left it, whatever the arguments.
  pub main-inert :
      (world : World) (name : Text) (args : List Text) (p q : Process) (code : RatelimitCode)
      → ratelimit_init p ≡ (done code, q)
      → (world.root ≡ false) ⊎ (has_help_flag (name ∷ args) ≡ true)
      → (report : Report) × (main send world name args p ≡ (done report, q))
  unfolding main
  main-inert world name args p q code e why = elim (Bool-cases (is_ratelimit_ok code)) [
    | inr fails ↦ (failed_init code, rw (e, fails))
    | inl ok ↦ elim (Bool-cases (has_help_flag (name ∷ args))) [
      | inl asked ↦ (help send args, rw (e, ok, asked))
      | inr not_asked ↦ elim why [
        | inl user ↦
            let (report, r) = no_root-dispatch world args q user in
            (report, rw (e, ok, not_asked) r)
        | inr asked ↦ absurd (cc)
      ]
    ]
  ]

-- Without a newline in what is left of the input, no number of reads ends the loop: behind the end of
-- the input every `getchar` returns EOF.
drain-endless :
    (reads : ℕ) (input : Text) (p : Process)
    → has_newline input ≡ false
    → drain reads input p ≡ (running, p)
unfolding drain has_newline
drain-endless zero input p h = refl
drain-endless (suc reads) [] p h = drain-endless reads [] p h
drain-endless (suc reads) (c ∷ input) p h = elim (Bool-cases (c == 10)) [
  | inl newline ↦ absurd (ground arith)
  | inr other ↦ rw (other) (drain-endless reads input p (ground arith))
]

-- With one, as many reads as there are bytes are enough.
drain-line :
    (reads : ℕ) (input : Text) (p : Process)
    → has_newline input ≡ true
    → length input ≤ reads
    → drain reads input p ≡ (done tt, p)
unfolding drain has_newline
drain-line reads [] p h k = absurd (cc)
drain-line zero (c ∷ input) p h k = absurd (omega arith)
drain-line (suc reads) (c ∷ input) p h k = elim (Bool-cases (c == 10)) [
  | inl newline ↦ rw (newline)
  | inr other ↦ rw (other) (drain-line reads input p (ground arith) (omega arith))
]

-- Asked for a confirmation, `cmd_clean` never goes on after a yes that no newline follows: however
-- often it reads, it is still in the loop over `getchar`, and nothing has been cleaned up.
pub cmd_clean-endless :
    (reads c : ℕ) (input : Text) (args : List Text) (p : Process)
    → skip_confirmation args ≡ false
    → (c == b'y' || c == b'Y') ≡ true
    → has_newline input ≡ false
    → cmd_clean reads (c ∷ input) args p ≡ (running, p)
unfolding cmd_clean confirm
cmd_clean-endless reads c input args p asks yes_key h =
    rw (asks, yes_key, drain-endless reads input p h)

-- After a yes with a newline behind it, or with the flag that skips the question, `cmd_clean` does
-- what `ratelimit_cleanup_all` does, and then looks at its code, where it may read as often as there are
-- bytes.
pub cmd_clean-confirmed :
    (reads c : ℕ) (input : Text) (args : List Text) (p : Process)
    → (c == b'y' || c == b'Y') ≡ true
    → has_newline input ≡ true
    → length input ≤ reads
    → cmd_clean reads (c ∷ input) args p ≡ (ratelimit_cleanup_all >>= check) p
unfolding cmd_clean confirm
cmd_clean-confirmed reads c input args p yes_key h k = elim (Bool-cases (skip_confirmation args)) [
  | inl skips ↦ rw (skips)
  | inr asks ↦ rw (asks, yes_key, drain-line reads input p h k)
]
