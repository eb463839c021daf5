-- ===== src/System.antt =====
-- A process of the program: the calls that it has made, and the static variables of
-- lib/src/monitor.c. An operation takes a process to an outcome and a process.
mod Calls
pub mod Ledger
pub mod Keeps
pub mod Returns
pub mod Balance
unfoldable pub use Calls.*
use pidnl.Base.{ℕ, ℤ, pos, Bool, true, false, List, [], ◌∷◌, Text, if◌then◌else◌}

pub data Event : Type 0 where
  event : (c : Call) → Answer c → Event

-- The newest event first.
abbrev pub Trace : Type 0
Trace = List Event

-- The answer to a call may depend on all that happened before.
abbrev pub Env : Type 0
Env = Trace → (c : Call) → Answer c

-- `struct pidfd_entry`
pub record PidfdEntry : Type 0 where
  pub pid : ℤ
  pub pidfd : ℤ
  pub active : Bool

-- `rounds` bounds the rounds of the daemon's endless loop.
pub record Process : Type 0 where
  pub env : Env
  pub rounds : ℕ
  pub trace : Trace
  pub watched_pids : List PidfdEntry
  pub watched_count : ℤ
  pub monitor_socket : ℤ
  pub is_monitor_process : Bool
  pub notify_parent_fd : ℤ

-- A function returns, or ends the process by `exit`, or the daemon is still in its loop when the
-- rounds are used up.
pub data Outcome {ℓ} (A : Type ℓ) : Type ℓ where
  done : A → Outcome A
  exited : ℕ → Outcome A
  running : Outcome A

abbrev pub M : Type 0 → Type 0
M A = Process → Outcome A × Process

abbrev pub pure : {A : Type 0} → A → M A
pure a p = (done a, p)

abbrev pub exit : {A : Type 0} → ℕ → M A
exit status p = (exited status, p)

abbrev pub resume : {A B : Type 0} → (A → M B) → Outcome A × Process → Outcome B × Process
resume f (done a, p) = f a p
resume f (exited n, p) = (exited n, p)
resume f (running, p) = (running, p)

infixl 5 ◌>>=◌ ◌>>◌
abbrev pub ◌>>=◌ : {A B : Type 0} → M A → (A → M B) → M B
◌>>=◌ m f p = resume f (m p)

abbrev pub ◌>>◌ : {A B : Type 0} → M A → M B → M B
m >> k = m >>= λ _. k

unfoldable pub call : (c : Call) → M (Answer c)
call c p = let a = p.env p.trace c in (done a, record p { trace = event c a ∷ p.trace })

-- Reads of the static variables, and writes to them.
abbrev pub get : {A : Type 0} → (Process → A) → M A
get f p = (done (f p), p)

abbrev pub modify : (Process → Process) → M (Unit {0})
modify f p = (done tt, f p)

-- A process that has just started.
abbrev pub start : Env → ℕ → List PidfdEntry → Process
start env rounds table = record {
  env = env;
  rounds = rounds;
  trace = [];
  watched_pids = table;
  watched_count = pos 0;
  monitor_socket = ℤ.negsuc 0;
  is_monitor_process = false;
  notify_parent_fd = ℤ.negsuc 0;
}
