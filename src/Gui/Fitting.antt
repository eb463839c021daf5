-- ===== src/Gui/Fitting.antt =====
-- gui/processes.c: the numbers in the store, which fit what a request has room for.
use pidnl.Base.{
  ℕ, ◌≤◌, ◌≡◌, sym, ◌∙◌, ℤ, to_ℕ, int_eq, int_eq_iff, Bool, true, false, List, some, Bool-cases,
  inl, inr,
}
use pidnl.Cstd.{int_max, uint32_max}
use pidnl.Gui.Rows.{PidnlProcess, find_process_by_pid}
use pidnl.Gui.Entry.{limit_of}
use pidnl.Gui.Applied.{applied_item, applied_store, applied-found, applied-other}

-- The numbers of the processes in the store fit what the requests have room for.
pub record IsFitting (store : List PidnlProcess) : Type 0 where
  pub pid_fits :
      (pid : ℤ) (item : PidnlProcess)
      → find_process_by_pid store pid ≡ some item
      → to_ℕ pid ≤ int_max
  pub limit_fits :
      (side : Bool) (pid : ℤ) (item : PidnlProcess)
      → find_process_by_pid store pid ≡ some item
      → limit_of side item ≤ uint32_max

applied_item-fits :
    (upload ok : Bool) (value : ℕ) (item : PidnlProcess) (side : Bool)
    → value ≤ uint32_max
    → limit_of side item ≤ uint32_max
    → limit_of side (applied_item upload ok (some value) item) ≤ uint32_max
applied_item-fits upload false value item side h k = k
applied_item-fits true true value item true h k = h
applied_item-fits true true value item false h k = k
applied_item-fits false true value item true h k = k
applied_item-fits false true value item false h k = h

pub applied-IsFitting :
    (upload ok : Bool) (value : ℕ) (pid : ℤ) (store : List PidnlProcess) (item : PidnlProcess)
    → find_process_by_pid store pid ≡ some item
    → value ≤ uint32_max
    → IsFitting store
    → IsFitting (applied_store upload pid ok (some value) store)
applied-IsFitting upload ok value pid store item e h s = record {
  pid_fits = λ other found f. elim (Bool-cases (int_eq other pid)) [
    | inl same ↦ rw ((int_eq_iff other pid).0 same) (s.pid_fits pid item e)
    | inr differ ↦ s.pid_fits other found (sym (elsewhere other differ) ∙ f)
  ];
  limit_fits = λ side other found f. elim (Bool-cases (int_eq other pid)) [
    | inl same ↦
        let here = applied-found upload ok (some value) pid store item e in
        let q = (int_eq_iff other pid).0 same in
        let it : applied_item upload ok (some value) item ≡ found = cc (here, f, q) in
        rw (sym it) (applied_item-fits upload ok value item side h (s.limit_fits side pid item e))
    | inr differ ↦ s.limit_fits side other found (sym (elsewhere other differ) ∙ f)
  ];
}
  where
    elsewhere :
        (other : ℤ)
        → int_eq other pid ≡ false
        → find_process_by_pid (applied_store upload pid ok (some value) store) other
          ≡ find_process_by_pid store other
    elsewhere other differ =
        applied-other upload ok (some value) pid other store
          (λ q. absurd (cc (differ, (int_eq_iff other pid).1 q)))
