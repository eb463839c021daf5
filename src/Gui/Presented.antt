-- ===== src/Gui/Presented.antt =====
-- gui/processes.c: the entries for limits of the items in a view, from the start through a run of
-- events.
use mathlib.Core.Path.{subst}
use pidnl.Base.{
  ℕ, zero, suc, ◌≤◌, ◌≡◌, ◌≢◌, refl, sym, ap, ◌∙◌, ℤ, int_eq, int_eq_iff, is_pos, Bool, true, List,
  [], ◌∷◌, Text, none, some, length, get_elem?, Bool-cases, inl, inr, arith,
}
use pidnl.Bpf.{direction_upload, direction_download}
use pidnl.Gui.Glib.{Glib, IsGlib}
use pidnl.Gui.Rows.{PidnlProcess, find_process_by_pid}
use pidnl.Gui.Entry.{Entry, is_upload, limit_of, limit_or_none, entry_text}
use pidnl.Gui.Cells.{entry_of}
use pidnl.Gui.Focus.{Event, dispatch_all}
use pidnl.Gui.Settled.{AllFit, Shows, IsShowing}
use pidnl.Gui.Answered.{IsAnswered, screen_of, places_of}
use pidnl.Gui.Events.{dispatch_all-IsAnswered}

-- The entries of the rows: those of the two columns for limits, as `columns-row` has them.
abbrev pub entries_of : List PidnlProcess → List Entry
entries_of [] = []
entries_of (item ∷ items) =
    entry_of direction_upload item.upload_kbps item
    ∷ entry_of direction_download item.download_kbps item
    ∷ entries_of items

abbrev Absent : ℤ → List PidnlProcess → Type 0
Absent pid [] = Unit {0}
Absent pid (item ∷ items) = (item.pid ≢ pid) × Absent pid items

-- Each process has a PID of its own, which is positive.
abbrev pub Distinct : List PidnlProcess → Type 0
Distinct [] = Unit {0}
Distinct (item ∷ items) = (is_pos item.pid ≡ true) × Absent item.pid items × Distinct items

-- The items are in the store, where each is the first with its PID.
abbrev Stored : List PidnlProcess → List PidnlProcess → Type 0
Stored store [] = Unit {0}
Stored store (item ∷ items) = (find_process_by_pid store item.pid ≡ some item) × Stored store items

Stored-cons :
    (first : PidnlProcess) (store items : List PidnlProcess)
    → Absent first.pid items
    → Stored store items
    → Stored (first ∷ store) items
unfolding find_process_by_pid
Stored-cons first store [] h k = tt
Stored-cons first store (item ∷ items) h k = elim (Bool-cases (int_eq first.pid item.pid)) [
  | inl same ↦ absurd (h.0 (sym ((int_eq_iff first.pid item.pid).0 same)))
  | inr other ↦ (rw (other) k.0, Stored-cons first store items h.1 k.1)
]

Distinct-Stored : (items : List PidnlProcess) → Distinct items → Stored items items
unfolding find_process_by_pid
Distinct-Stored [] h = tt
Distinct-Stored (item ∷ items) h = (
  rw ((int_eq_iff item.pid item.pid).1 refl) refl,
  Stored-cons item items items h.1 (Distinct-Stored items h.2),
)

-- An entry belongs to a process of the store and shows its limit.
abbrev IsBound : List PidnlProcess → Entry → Type 0
IsBound store entry =
    (is_pos entry.pid ≡ true) × (find_process_by_pid store entry.pid ≢ none) × Shows store entry

entry_of-IsBound :
    (store : List PidnlProcess) (item : PidnlProcess) (direction limit : ℕ)
    → is_pos item.pid ≡ true
    → find_process_by_pid store item.pid ≡ some item
    → limit_of (is_upload direction) item ≡ limit
    → IsBound store (entry_of direction limit item)
entry_of-IsBound store item direction limit pid e l = (
  pid,
  (λ q. absurd (cc)),
  sym (ap (λ o. entry_text (limit_or_none (is_upload direction) o)) e ∙ ap entry_text l),
)

entries_of-IsBound :
    (store items : List PidnlProcess) (i : ℕ) (entry : Entry)
    → Distinct items
    → Stored store items
    → get_elem? (entries_of items) i ≡ some entry
    → IsBound store entry
entries_of-IsBound store [] i entry d h e = absurd (cc)
entries_of-IsBound store (item ∷ items) zero entry d h e =
    let same : entry_of direction_upload item.upload_kbps item ≡ entry = cc in
    subst (IsBound store) same
      (entry_of-IsBound store item direction_upload item.upload_kbps d.0 h.0 refl)
entries_of-IsBound store (item ∷ items) (suc zero) entry d h e =
    let same : entry_of direction_download item.download_kbps item ≡ entry = cc in
    subst (IsBound store) same
      (entry_of-IsBound store item direction_download item.download_kbps d.0 h.0 refl)
entries_of-IsBound store (item ∷ items) (suc (suc i)) entry d h e =
    entries_of-IsBound store items i entry d.2 h.1 e

entry-Absent :
    (pid : ℤ) (items : List PidnlProcess) (i : ℕ) (entry : Entry)
    → Absent pid items
    → get_elem? (entries_of items) i ≡ some entry
    → entry.pid ≢ pid
entry-Absent pid [] i entry h e q = absurd (cc)
entry-Absent pid (item ∷ items) zero entry h e q = h.0 (cc)
entry-Absent pid (item ∷ items) (suc zero) entry h e q = h.0 (cc)
entry-Absent pid (item ∷ items) (suc (suc i)) entry h e q = entry-Absent pid items i entry h.1 e q

-- The two entries of a process differ in their direction, and its entries from those of the others.
entries_of-apart :
    (items : List PidnlProcess) (i j : ℕ) (entry other : Entry)
    → Distinct items
    → get_elem? (entries_of items) i ≡ some entry
    → get_elem? (entries_of items) j ≡ some other
    → other.pid ≡ entry.pid
    → is_upload other.direction ≡ is_upload entry.direction
    → j ≡ i
entries_of-apart [] i j entry other d e f p q = absurd (cc)
entries_of-apart (item ∷ items) zero zero entry other d e f p q = refl
entries_of-apart (item ∷ items) zero (suc zero) entry other d e f p q = absurd (ground arith)
entries_of-apart (item ∷ items) (suc zero) zero entry other d e f p q = absurd (ground arith)
entries_of-apart (item ∷ items) (suc zero) (suc zero) entry other d e f p q = refl
entries_of-apart (item ∷ items) zero (suc (suc j)) entry other d e f p q =
    absurd (entry-Absent item.pid items j other d.1 f (cc))
entries_of-apart (item ∷ items) (suc zero) (suc (suc j)) entry other d e f p q =
    absurd (entry-Absent item.pid items j other d.1 f (cc))
entries_of-apart (item ∷ items) (suc (suc i)) zero entry other d e f p q =
    absurd (entry-Absent item.pid items i entry d.1 e (cc))
entries_of-apart (item ∷ items) (suc (suc i)) (suc zero) entry other d e f p q =
    absurd (entry-Absent item.pid items i entry d.1 e (cc))
entries_of-apart (item ∷ items) (suc (suc i)) (suc (suc j)) entry other d e f p q =
    omega (arith, entries_of-apart items i j entry other d.2 e f p q)

pub entries_of-IsShowing :
    (items : List PidnlProcess) → Distinct items → IsShowing items (entries_of items) none
entries_of-IsShowing items d =
    let stored = Distinct-Stored items d in
    record {
      bound = λ i entry e. let b = entries_of-IsBound items items i entry d stored e in (b.0, b.1);
      apart = λ i j entry other e f p q. entries_of-apart items i j entry other d e f p q;
      shown = λ i entry e h. (entries_of-IsBound items items i entry d stored e).2;
    }

-- In a view of processes that have positive PIDs, each its own, the user clicks, types and moves the
-- focus in any way, and the backend has a response in the pipe for each event. Then no handler waits
-- for ever, each entry still belongs to the process and the direction it was made for, and each
-- entry but the one with the focus shows the limit that the store then has for its process.
pub dispatch_all-settled :
    (g : Glib) (child : ℤ) (closed : Bool) (escape : ℕ) (events : List Event) (written : Text)
    (responses : List ℕ) (items : List PidnlProcess)
    → IsGlib g
    → length events ≤ length responses
    → AllFit responses
    → Distinct items
    → IsAnswered child closed (places_of (entries_of items)) (
        dispatch_all g escape events
          (screen_of child closed written responses items (entries_of items) none))
dispatch_all-settled g child closed escape events written responses items laws h fit d =
    dispatch_all-IsAnswered g laws child closed escape (places_of (entries_of items)) events written
      responses items (entries_of items) none h fit (entries_of-IsShowing items d) refl
