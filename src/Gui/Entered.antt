-- ===== src/Gui/Entered.antt =====
-- gui/processes.c: what an entry for a limit shows, and what it makes of the text typed into it.
use pidnl.Base.{
  ℕ, zero, suc, ltb, ◌+◌, ◌≤◌, ◌<◌, ◌≡◌, ◌≢◌, refl, sym, ap, ◌∙◌, ◌/◌, ◌%◌, ℤ, int_eq, int_eq_iff,
  Bool, true, false, List, [], ◌∷◌, Text, text_eq, Option, none, some, ◌==◌, decimal, digits,
  Bool-cases, inl, inr, arith, append_nil,
}
use pidnl.Cstd.{uint32_max, is_digit, is_space}
use pidnl.Ratelimit.Names.{unlimited}
use pidnl.Gui.Glib.{Glib, IsGlib, space_free}
use pidnl.Gui.Rows.{PidnlProcess, find_process_by_pid}
use pidnl.Gui.Entry.{means_unlimited, parse_limit_value, entry_text, with_limit, set_stored}

abbrev digit_first : Text → Bool
digit_first [] = false
digit_first (c ∷ s) = is_digit c

digits_entry :
    (fuel n : ℕ) (out : Text)
    → n < fuel
    → space_free out ≡ true
    → (digit_first (digits fuel n out) ≡ true) × (space_free (digits fuel n out) ≡ true)
unfolding digits is_digit space_free is_space
digits_entry zero n out h k = absurd (omega arith)
digits_entry (suc fuel) n out h k = elim (Bool-cases (ltb n 10)) [
  | inl one ↦ rw (one) (ground arith, ground arith)
  | inr more ↦
      rw (more) (digits_entry fuel (n / 10) ((b'0' + n % 10) ∷ out) (ground arith) (ground arith))
]

decimal_entry : (n : ℕ) → (digit_first (decimal n) ≡ true) × (space_free (decimal n) ≡ true)
unfolding decimal space_free
decimal_entry n = digits_entry (suc n) n [] (omega arith) refl

digit_first-means_unlimited : (s : Text) → digit_first s ≡ true → means_unlimited s ≡ false
unfolding text_eq is_digit
digit_first-means_unlimited [] h = absurd (cc)
digit_first-means_unlimited (c ∷ s) h = ground arith

-- The text that an entry shows for a 32-bit limit, no limit included, is read back as this limit.
pub parse_limit_value-entry_text :
    (g : Glib) (value : ℕ)
    → IsGlib g
    → value ≤ uint32_max
    → parse_limit_value g (g.strstrip (entry_text value)) ≡ some value
unfolding parse_limit_value entry_text space_free text_eq
parse_limit_value-entry_text g value laws h = elim (Bool-cases (value == unlimited)) [
  | inl none_set ↦ rw (none_set, laws.strstrip_same [] refl) (ground arith)
  | inr set ↦
      let (digit, whole) = decimal_entry value in
      let read =
        rw (append_nil (decimal value)) at (laws.strtoll_decimal value [] (omega arith) tt) in
      rw
        (
          set,
          laws.strstrip_same (decimal value) whole,
          read,
          digit_first-means_unlimited (decimal value) digit,
        )
        (ground arith)
]

-- Whatever is typed, a limit that is taken from it is a 32-bit number.
pub parse_limit_value-le :
    (g : Glib) (text : Text) (value : ℕ)
    → parse_limit_value g text ≡ some value
    → value ≤ uint32_max
unfolding parse_limit_value
parse_limit_value-le g text value h = ground arith

pub find_here :
    (pid : ℤ) (item : PidnlProcess) (store : List PidnlProcess)
    → int_eq item.pid pid ≡ true
    → find_process_by_pid (item ∷ store) pid ≡ some item
unfolding find_process_by_pid
find_here pid item store h = rw (h)

pub find_there :
    (pid : ℤ) (item : PidnlProcess) (store : List PidnlProcess)
    → int_eq item.pid pid ≡ false
    → find_process_by_pid (item ∷ store) pid ≡ find_process_by_pid store pid
unfolding find_process_by_pid
find_there pid item store h = rw (h)

pub find_nothing : (pid : ℤ) → find_process_by_pid [] pid ≡ none
unfolding find_process_by_pid
find_nothing pid = refl

int_apart : (a b c : ℤ) → int_eq a b ≡ true → c ≢ b → int_eq a c ≡ false
int_apart a b c h apart = elim (Bool-cases (int_eq a c)) [
  | inl same ↦ elim (apart (sym ((int_eq_iff a c).0 same) ∙ (int_eq_iff a b).0 h)) [ ]
  | inr differ ↦ differ
]

-- A limit changes neither the PID nor the other limit.
with_limit-pid :
    (upload : Bool) (value : ℕ) (item : PidnlProcess)
    → (with_limit upload value item).pid ≡ item.pid
with_limit-pid true value item = refl
with_limit-pid false value item = refl

unfoldable pub changed : Bool → ℕ → Option PidnlProcess → Option PidnlProcess
changed upload value none = none
changed upload value (some item) = some (with_limit upload value item)

pub find-set_stored :
    (upload : Bool) (pid : ℤ) (value : ℕ) (store : List PidnlProcess)
    → find_process_by_pid (set_stored upload pid value store) pid
      ≡ changed upload value (find_process_by_pid store pid)
unfolding set_stored changed
find-set_stored upload pid value [] = rw (find_nothing pid) refl
find-set_stored upload pid value (item ∷ store) =
    let same = ap (λ q. int_eq q pid) (with_limit-pid upload value item) in
    elim (Bool-cases (int_eq item.pid pid)) [
      | inl found ↦
          rw (found, set_stored)
            (find_here pid (with_limit upload value item) store (same ∙ found)
              ∙ ap (changed upload value) (sym (find_here pid item store found)))
      | inr other ↦
          rw (other, set_stored)
            (find_there pid item (set_stored upload pid value store) other
              ∙ (find-set_stored upload pid value store
                  ∙ ap (changed upload value) (sym (find_there pid item store other))))
    ]

pub find-set_stored-other :
    (upload : Bool) (pid other : ℤ) (value : ℕ) (store : List PidnlProcess)
    → other ≢ pid
    → find_process_by_pid (set_stored upload pid value store) other
      ≡ find_process_by_pid store other
unfolding set_stored find_process_by_pid
find-set_stored-other upload pid other value [] h = refl
find-set_stored-other upload pid other value (item ∷ store) h =
    let same = ap (λ q. int_eq q other) (with_limit-pid upload value item) in
    elim (Bool-cases (int_eq item.pid pid)) [
      | inl found ↦
          let apart = int_apart item.pid pid other found h in
          rw (found, set_stored)
            (find_there other (with_limit upload value item) store (same ∙ apart)
              ∙ sym (find_there other item store apart))
      | inr away ↦ rw (away, set_stored, find-set_stored-other upload pid other value store h)
    ]
