-- ===== src/Cli/Help.antt =====
-- cli/main.c: what `main` prints where an argument asks for help.
use pidnl.Base.{
  ◌≡◌, ◌≢◌, refl, sym, ap, ℤ, true, false, List, [], ◌∷◌, ◌++◌, Text, codes, text_eq, text_eq_iff,
  Option, none, some, Bool-cases, inl, inr,
}
use pidnl.System.{Process, done, M}
use pidnl.Monitor.Codes.{MonitorCode}
use pidnl.Ratelimit.Codes.{ratelimit_ok}
use pidnl.Ratelimit.Init.{ratelimit_init}
use pidnl.Cli.Parse.{
  Command, list, limit, clean, has_help_flag, is_option, command_index, find_command, find_in,
}
use pidnl.Cli.Usage.{Report, program_usage, usage, name_of, unknown_command, succeeded}
use pidnl.Cli.{World, help, main}

abbrev AllOptions : List Text → Type 0
AllOptions [] = Unit {0}
AllOptions (arg ∷ args) = (is_option arg ≡ true) × AllOptions args

-- What the first argument that is no option asks for: nothing, a command, or what is none.
pub data Asks (args : List Text) : Report → Type 0 where
  for_program : AllOptions args → Asks args (succeeded program_usage)
  for_command :
      (options rest : List Text) (cmd : Command)
      → AllOptions options
      → args ≡ options ++ (name_of cmd ∷ rest)
      → Asks args (succeeded (usage cmd))
  for_nothing_known :
      (options rest : List Text) (word : Text)
      → AllOptions options
      → is_option word ≡ false
      → ((cmd : Command) → word ≢ name_of cmd)
      → args ≡ options ++ (word ∷ rest)
      → Asks args (unknown_command word)

Asks-cons :
    (arg : Text) (args : List Text) (report : Report)
    → is_option arg ≡ true
    → Asks args report
    → Asks (arg ∷ args) report
Asks-cons arg args report o (for_program all) = for_program (o, all)
Asks-cons arg args report o (for_command options rest cmd all e) =
    for_command (arg ∷ options) rest cmd (o, all) (ap (λ xs. arg ∷ xs) e)
Asks-cons arg args report o (for_nothing_known options rest word all w unknown e) =
    for_nothing_known (arg ∷ options) rest word (o, all) w unknown (ap (λ xs. arg ∷ xs) e)

-- A word is the name of a command, or it is none and is not found.
data Known (word : Text) : Option Command → Type 0 where
  known : (cmd : Command) → word ≡ name_of cmd → Known word (some cmd)
  strange : ((cmd : Command) → word ≢ name_of cmd) → Known word none

find_command-Known : (word : Text) → Known word (find_command word)
unfolding find_command find_in name_of
find_command-Known word = elim (Bool-cases (text_eq (codes "list") word)) [
  | inl a ↦ rw (a) (known list (sym ((text_eq_iff (codes "list") word).0 a)))
  | inr a ↦ elim (Bool-cases (text_eq (codes "limit") word)) [
    | inl b ↦ rw (a, find_in, b) (known limit (sym ((text_eq_iff (codes "limit") word).0 b)))
    | inr b ↦ elim (Bool-cases (text_eq (codes "clean") word)) [
      | inl c ↦
          rw (a, find_in, b, find_in, c)
            (known clean (sym ((text_eq_iff (codes "clean") word).0 c)))
      | inr c ↦ rw (a, find_in, b, find_in, c) (strange (differs a b c))
    ]
  ]
]
  where
    apart : (name : Text) → text_eq name word ≡ false → word ≢ name
    apart name h e = absurd (cc (h, (text_eq_iff name word).1 (sym e)))

    differs :
        text_eq (codes "list") word ≡ false
        → text_eq (codes "limit") word ≡ false
        → text_eq (codes "clean") word ≡ false
        → (cmd : Command) → word ≢ name_of cmd
    differs a b c list = apart (codes "list") a
    differs a b c limit = apart (codes "limit") b
    differs a b c clean = apart (codes "clean") c

Asks-word :
    (arg : Text) (args : List Text) (found : Option Command)
    → is_option arg ≡ false
    → Known arg found
    → Asks
        (arg ∷ args)
        (elim found [ none ↦ unknown_command arg | some cmd ↦ succeeded (usage cmd) ])
Asks-word arg args _ word (known cmd e) = for_command [] args cmd tt (ap (λ w. w ∷ args) e)
Asks-word arg args _ word (strange differs) = for_nothing_known [] args arg tt word differs refl

module _ (send : ℤ → ℤ → M MonitorCode) where
  help-Asks : (args : List Text) → Asks args (help send args)
  unfolding help command_index
  help-Asks [] = for_program tt
  help-Asks (arg ∷ args) = elim (Bool-cases (is_option arg)) [
    | inl option ↦ rw (option, help) (Asks-cons arg args (help send args) option (help-Asks args))
    | inr word ↦
        rw (word, help) (Asks-word arg args (find_command arg) word (find_command-Known arg))
  ]

  -- Where `ratelimit_init` succeeds and any argument asks for help, `main` changes nothing, whoever
  -- runs it: it prints the usage of the program and returns 0 if all arguments are options, the usage
  -- of the command and returns 0 if the first other argument names one, and an error with the
  -- commands and returns 1 if that argument names none.
  pub main-help :
      (world : World) (name : Text) (args : List Text) (p q : Process)
      → ratelimit_init p ≡ (done ratelimit_ok, q)
      → has_help_flag (name ∷ args) ≡ true
      → (report : Report) × Asks args report × (main send world name args p ≡ (done report, q))
  unfolding main
  main-help world name args p q e asked = (help send args, help-Asks args, rw (e, asked))
