-- ===== src/Tests/Glib.antt =====
-- A concrete GLib: the functions that gui/ takes from it, for texts in ASCII.
use pidnl.Base.{
  pieces, ◌≡◌, refl, ap, ℤ, pos, negsuc, true, false, ◌&&◌, List, [], ◌∷◌, ◌++◌, Text, ltb, ◌==◌,
  Option, none, some, if◌then◌else◌, arith,
}
use pidnl.Cstd.{Parsed, is_space, skip_space, strtol}
use pidnl.Cstd.Laws.{strtol-decimal}
use pidnl.Gui.Glib.{
  Number, Pipe, LineRead, normal, no_line, Glib, IsGlib, space_free, plain, IsLine,
}
use pidnl.Gui.Rows.{is_nil}

abbrev number_of : Parsed ℤ → Number
number_of r = record { value = r.value; rest = r.rest; moved = r.moved }

abbrev split : Text → List Text
split [] = []
split (c ∷ s) = pieces (c ∷ s)

unfoldable pub strip_end : Text → Text
unfolding is_space
strip_end [] = []
strip_end (c ∷ s) = let rest = strip_end s in if is_space c && is_nil rest then [] else c ∷ rest

unfoldable pub collate : Text → Text → ℤ
collate [] [] = pos 0
collate [] (b ∷ t) = negsuc 0
collate (a ∷ s) [] = pos 1
collate (a ∷ s) (b ∷ t) =
    let rest = collate s t in if ltb a b then negsuc 0 else if ltb b a then pos 1 else rest

-- The first line with its newline, and what follows.
unfoldable pub whole_line : Text → Option (Text × Text)
whole_line [] = none
whole_line (c ∷ s) =
    let rest = whole_line s in
    if c == 10
    then some (c ∷ [], s)
    else elim rest [ none ↦ none | some (line, after) ↦ some (c ∷ line, after) ]

-- Behind the last newline, the end of a closed pipe ends the line.
abbrev last_line : Pipe → Option (LineRead × Pipe)
last_line pipe =
    if pipe.closed
    then if is_nil pipe.bytes
      then some (no_line, pipe)
      else some (normal pipe.bytes, record { bytes = []; closed = true })
    else none

abbrev read_line_of : Pipe → Option (Text × Text) → Option (LineRead × Pipe)
read_line_of pipe none = last_line pipe
read_line_of pipe (some (line, rest)) =
    some (normal line, record { bytes = rest; closed = pipe.closed })

unfoldable pub plain_glib : Glib
unfolding strtol pieces strip_end skip_space collate whole_line
plain_glib = record {
  ascii_strtoll = λ s. number_of (strtol s);
  strsplit_lines = split;
  strstrip = λ s. strip_end (skip_space s);
  utf8_collate = collate;
  read_line = λ pipe. read_line_of pipe (whole_line pipe.bytes);
}

split_lines : (line rest : Text) → split (line ++ (10 ∷ rest)) ≡ pieces (line ++ (10 ∷ rest))
split_lines [] rest = refl
split_lines (c ∷ line) rest = refl

skip_space-same : (s : Text) → space_free s ≡ true → skip_space s ≡ s
unfolding skip_space space_free
skip_space-same [] h = refl
skip_space-same (c ∷ s) h = ground arith

strip_end-same : (s : Text) → space_free s ≡ true → strip_end s ≡ s
unfolding strip_end space_free
strip_end-same [] h = refl
strip_end-same (c ∷ s) h = ground (arith, strip_end-same s)

whole_line-line :
    (line rest : Text)
    → IsLine line
    → whole_line (line ++ (10 ∷ rest)) ≡ some (line ++ (10 ∷ []), rest)
unfolding whole_line plain
whole_line-line [] rest h = refl
whole_line-line (c ∷ s) rest h = ground (arith, whole_line-line s rest)

whole_line-none : (s : Text) → IsLine s → whole_line s ≡ none
unfolding whole_line plain
whole_line-none [] h = refl
whole_line-none (c ∷ s) h = ground (arith, whole_line-none s)

pub plain_glib-IsGlib : IsGlib plain_glib
unfolding plain_glib
plain_glib-IsGlib = record {
  strtoll_decimal = λ n rest h e. ap number_of (strtol-decimal n rest h e);
  strsplit_pieces = split_lines;
  strstrip_same = λ s h. rw (skip_space-same s h) (strip_end-same s h);
  read_line_whole = λ line rest closed h.
      ap (read_line_of (record { bytes = line ++ (10 ∷ rest); closed = closed }))
        (whole_line-line line rest h);
  read_line_waits = λ bytes h.
      ap (read_line_of (record { bytes = bytes; closed = false })) (whole_line-none bytes h);
}
