-- ===== src/Gui/Settled.antt =====
-- gui/processes.c: the entries on the screen and the store, while the backend answers.
use mathlib.Core.Path.{subst}
use pidnl.Base.{
  ℕ, ◌≤◌, ◌≡◌, ◌≢◌, refl, sym, ap, ◌∙◌, ℤ, is_pos, int_eq, int_eq_iff, Bool, true, false, List, [],
  ◌∷◌, ◌++◌, Text, Option, none, some, get_elem?, set, get_elem?-set_cases, ◌⊎◌, Bool-cases, inl,
  inr,
}
use pidnl.Cstd.{int_max}
use pidnl.Gui.Client.{command_line}
use pidnl.Gui.Rows.{PidnlProcess, find_process_by_pid}
use pidnl.Gui.Entry.{entry_text, Entry, set_entry_to_value, is_upload, limit_of, limit_or_none}
use pidnl.Gui.Applied.{applied_item, applied_store, applied-found, applied-other}

-- The responses that are to come, each in a line.
unfoldable pub responses_text : List ℕ → Text
responses_text [] = []
responses_text (response ∷ responses) = command_line response ++ responses_text responses

-- A response is a number that fits an int.
abbrev pub AllFit : List ℕ → Type 0
AllFit [] = Unit {0}
AllFit (response ∷ responses) = (response ≤ int_max) × AllFit responses

-- An entry shows the limit of its process in the store.
abbrev pub Shows : List PidnlProcess → Entry → Type 0
Shows store entry =
    entry.text
    ≡ entry_text (limit_or_none (is_upload entry.direction) (find_process_by_pid store entry.pid))

-- The entries belong to processes of the store, no two to one process and direction; those without
-- the focus show the limits in the store.
pub record IsShowing (store : List PidnlProcess) (entries : List Entry) (focus : Option ℕ)
    : Type 0 where
  pub bound :
      (i : ℕ) (entry : Entry)
      → get_elem? entries i ≡ some entry
      → (is_pos entry.pid ≡ true) × (find_process_by_pid store entry.pid ≢ none)
  pub apart :
      (i j : ℕ) (entry other : Entry)
      → get_elem? entries i ≡ some entry
      → get_elem? entries j ≡ some other
      → other.pid ≡ entry.pid
      → is_upload other.direction ≡ is_upload entry.direction
      → j ≡ i
  pub shown :
      (i : ℕ) (entry : Entry)
      → get_elem? entries i ≡ some entry
      → focus ≢ some i
      → Shows store entry

module _ (upload ok : Bool) (parsed : Option ℕ) (pid : ℤ) (store : List PidnlProcess)
    (item : PidnlProcess) (e : find_process_by_pid store pid ≡ some item) where
  -- The other limit of the process stays.
  limit-applied_item :
      (side : Bool)
      → side ≢ upload
      → limit_of side (applied_item upload ok parsed item) ≡ limit_of side item
  limit-applied_item side h = applied_sides side upload ok parsed h
    where
      applied_sides :
          (side upload ok : Bool) (parsed : Option ℕ)
          → side ≢ upload
          → limit_of side (applied_item upload ok parsed item) ≡ limit_of side item
      applied_sides side upload ok none h = refl
      applied_sides side upload false (some value) h = refl
      applied_sides true true true (some value) h = absurd (h refl)
      applied_sides true false true (some value) h = refl
      applied_sides false true true (some value) h = refl
      applied_sides false false true (some value) h = absurd (h refl)

  -- So does the limit of an entry for another process or the other direction.
  limit-applied_store :
      (side : Bool) (other : ℤ)
      → (other ≡ pid → side ≢ upload)
      → limit_or_none side (find_process_by_pid (applied_store upload pid ok parsed store) other)
        ≡ limit_or_none side (find_process_by_pid store other)
  limit-applied_store side other h = elim (Bool-cases (int_eq other pid)) [
    | inl same ↦
        let q = (int_eq_iff other pid).0 same in
        rw (q, applied-found upload ok parsed pid store item e, e) (limit-applied_item side (h q))
    | inr differ ↦ ap (limit_or_none side) (
        applied-other upload ok parsed pid other store
          (λ q. absurd (cc (differ, (int_eq_iff other pid).1 q))))
  ]

  found-applied_store :
      (other : ℤ)
      → find_process_by_pid store other ≢ none
      → find_process_by_pid (applied_store upload pid ok parsed store) other ≢ none
  found-applied_store other h k = elim (Bool-cases (int_eq other pid)) [
    | inl same ↦
        let found = applied-found upload ok parsed pid store item e in
        absurd (cc ((int_eq_iff other pid).0 same))
    | inr differ ↦ h (
        sym (
          applied-other upload ok parsed pid other store
            (λ q. absurd (cc (differ, (int_eq_iff other pid).1 q))))
        ∙ k)
  ]

-- An entry is written anew, with its PID and direction, and the store may change in its limit.
module _ (store : List PidnlProcess) (entries : List Entry) (i : ℕ) (entry : Entry)
    (e : get_elem? entries i ≡ some entry) (s : IsShowing store entries (some i)) where
  set-IsShowing :
      (store' : List PidnlProcess) (text : Text) (focus : Option ℕ)
      → ((other : ℤ)
          → find_process_by_pid store other ≢ none
          → find_process_by_pid store' other ≢ none)
      → ((side : Bool) (other : ℤ)
          → (other ≡ entry.pid → side ≢ is_upload entry.direction)
          → limit_or_none side (find_process_by_pid store' other)
            ≡ limit_or_none side (find_process_by_pid store other))
      → (focus ≢ some i → Shows store' (record entry { text = text }))
      → IsShowing store' (set entries i (record entry { text = text })) focus
  set-IsShowing store' text focus kept limits here = record {
    bound = λ j f h. elim (place j f h) [
      | inl (same, v) ↦
          subst (λ g. (is_pos g.pid ≡ true) × (find_process_by_pid store' g.pid ≢ none)) v
            ((s.bound i entry e).0, kept entry.pid (s.bound i entry e).1)
      | inr (differ, old) ↦ ((s.bound j f old).0, kept f.pid (s.bound j f old).1)
    ];
    apart = λ j k f g hf hg p d. elim (place j f hf) [
      | inl (same, v) ↦ elim (place k g hg) [
        | inl (same', v') ↦ same' ∙ sym same
        | inr (differ, old) ↦
            s.apart i k entry g e old (p ∙ sym (ap (λ o. o.pid) v))
              (d ∙ sym (ap (λ o. is_upload o.direction) v))
            ∙ sym same
      ]
      | inr (differ, old) ↦ elim (place k g hg) [
        | inl (same', v') ↦
            same'
            ∙ s.apart j i f entry old e (ap (λ o. o.pid) v' ∙ p)
                (ap (λ o. is_upload o.direction) v' ∙ d)
        | inr (differ', old') ↦ s.apart j k f g old old' p d
      ]
    ];
    shown = λ j f h unfocused. elim (place j f h) [
      | inl (same, v) ↦ subst (Shows store') v (here (λ q. unfocused (q ∙ ap some (sym same))))
      | inr (differ, old) ↦
          s.shown j f old (λ q. differ (cc q))
          ∙ ap entry_text (
              sym (
                limits (is_upload f.direction) f.pid
                  (λ p d. differ (s.apart i j entry f e old p d))))
    ];
  }
    where
      place :
          (j : ℕ) (f : Entry)
          → get_elem? (set entries i (record entry { text = text })) j ≡ some f
          → ((j ≡ i) × (record entry { text = text } ≡ f))
            ⊎ ((j ≢ i) × (get_elem? entries j ≡ some f))
      place j f h = get_elem?-set_cases entries i j (record entry { text = text }) entry f e h

  pub applied-IsShowing :
      (ok : Bool) (parsed : Option ℕ) (item : PidnlProcess)
      → find_process_by_pid store entry.pid ≡ some item
      → let upload = is_upload entry.direction in
        IsShowing
          (applied_store upload entry.pid ok parsed store)
          (set entries i
            (set_entry_to_value entry (limit_of upload (applied_item upload ok parsed item))))
          none
  unfolding set_entry_to_value
  applied-IsShowing ok parsed item f =
      let upload = is_upload entry.direction in
      set-IsShowing (applied_store upload entry.pid ok parsed store)
        (entry_text (limit_of upload (applied_item upload ok parsed item))) none
        (found-applied_store upload ok parsed entry.pid store item f)
        (limit-applied_store upload ok parsed entry.pid store item f)
        (λ _.
          ap (λ o. entry_text (limit_or_none upload o))
            (sym (applied-found upload ok parsed entry.pid store item f)))

  pub typed-IsShowing :
      (text : Text) → IsShowing store (set entries i (record entry { text = text })) (some i)
  typed-IsShowing text =
      set-IsShowing store text (some i) (λ other h. h) (λ side other h. refl) (λ h. absurd (h refl))
