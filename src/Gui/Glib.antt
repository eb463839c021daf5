-- ===== src/Gui/Glib.antt =====
-- What the graphical program takes from GLib, which is not part of the repository: an interface, and
-- the documented behaviour that the program relies on.
use pidnl.Base.{
  pieces, ℕ, ◌≤◌, ◌≡◌, ℤ, pos, Bool, true, false, not, ◌&&◌, List, [], ◌∷◌, ◌++◌, Text, Option,
  none, some, ltb, leb, decimal, digits, zero, suc, refl, ◌+◌, ◌/◌, ◌%◌, arith,
}
use pidnl.Cstd.{long_max, is_space}
use pidnl.Cstd.Laws.{EndsNumber}

-- What `g_ascii_strtoll` returns in base 10, what stands at `*endptr`, and whether `endptr` moved.
pub record Number : Type 0 where
  pub value : ℤ
  pub rest : Text
  pub moved : Bool

-- The bytes that are still to come through a pipe, and whether the writer's end is closed behind them.
pub record Pipe : Type 0 where
  pub bytes : Text
  pub closed : Bool

-- G_IO_STATUS_NORMAL with a line, or another status.
pub data LineRead : Type 0 where
  normal : Text → LineRead
  no_line : LineRead

-- `g_io_channel_read_line` may wait for ever: `none`.
pub record Glib : Type 0 where
  pub ascii_strtoll : Text → Number
  pub strsplit_lines : Text → List Text
  pub strstrip : Text → Text
  pub utf8_collate : Text → Text → ℤ
  pub read_line : Pipe → Option (LineRead × Pipe)

-- Printable ASCII: no byte ends a line, and none begins another encoding.
abbrev pub is_plain : ℕ → Bool
is_plain c = leb b' ' c && ltb c 127

unfoldable pub plain : Text → Bool
plain [] = true
plain (c ∷ s) = is_plain c && plain s

-- The text of a line, in front of its newline.
abbrev pub IsLine : Text → Type 0
IsLine s = plain s ≡ true

unfoldable pub space_free : Text → Bool
unfolding is_space
space_free [] = true
space_free (c ∷ s) = not (is_space c) && space_free s

-- The documented behaviour, as far as it is needed: a number is read up to what ends it; a text is
-- split at its newlines; stripping leaves a text without white space as it is;
-- and a line in ASCII is read with its newline, where the reader waits for a newline that has not
-- come while the pipe is open.
pub record IsGlib (g : Glib) : Type 0 where
  pub strtoll_decimal :
      (n : ℕ) (rest : Text)
      → n ≤ long_max
      → EndsNumber rest
      → g.ascii_strtoll (decimal n ++ rest) ≡ record { value = pos n; rest = rest; moved = true }
  pub strsplit_pieces :
      (line rest : Text) → g.strsplit_lines (line ++ (10 ∷ rest)) ≡ pieces (line ++ (10 ∷ rest))
  pub strstrip_same : (s : Text) → space_free s ≡ true → g.strstrip s ≡ s
  pub read_line_whole :
      (line rest : Text) (closed : Bool)
      → IsLine line
      → g.read_line (record { bytes = line ++ (10 ∷ rest); closed = closed })
        ≡ some (normal (line ++ (10 ∷ [])), record { bytes = rest; closed = closed })
  pub read_line_waits :
      (bytes : Text) → IsLine bytes → g.read_line (record { bytes = bytes; closed = false }) ≡ none

pub plain-append : (s t : Text) → IsLine s → IsLine t → IsLine (s ++ t)
unfolding plain
plain-append [] t h k = k
plain-append (c ∷ s) t h k = ground (arith, plain-append s t)

pub pieces-line :
    (line rest : Text) → IsLine line → pieces (line ++ (10 ∷ rest)) ≡ line ∷ pieces rest
unfolding plain pieces
pieces-line [] rest h = refl
pieces-line (c ∷ s) rest h = ground (arith, pieces-line s rest)

plain-digits : (fuel n : ℕ) (out : Text) → IsLine out → IsLine (digits fuel n out)
unfolding plain digits
plain-digits zero n out h = h
plain-digits (suc fuel) n out h = ground (arith, plain-digits fuel (n / 10) ((b'0' + n % 10) ∷ out))

pub plain-decimal : (n : ℕ) → IsLine (decimal n)
unfolding plain decimal
plain-decimal n = plain-digits (suc n) n [] refl
