-- ===== src/Gui/Lines.antt =====
-- The lines that a list command makes gui/main.c print, for gui/backend.c and gui/processes.c.
use pidnl.Base.{
  pieces, ℕ, ◌≤◌, ◌≡◌, refl, ap, ◌∙◌, pos, List, [], ◌∷◌, ◌++◌, Text, length, decimal, decimal_int,
  append_assoc,
}
use pidnl.Cstd.{int_max, uint32_max}
use pidnl.Discovery.{ProcessInfo}
use pidnl.Gui.Glib.{plain, IsLine, plain-append, plain-decimal, pieces-line}
use pidnl.Gui.Server.{ListRow, flag, row_tail, row_text, rows_text}

-- What the printed form keeps: numbers in the ranges of their C types, and texts of a line each.
pub record IsOrdinary (info : ProcessInfo) : Type 0 where
  pub number : ℕ
  pub pid_is : info.pid ≡ pos number
  pub pid_fits : number ≤ int_max
  pub connections_fit : info.num_connections ≤ int_max
  pub name_line : IsLine info.process_name
  pub name_fits : length info.process_name ≤ 255
  pub path_line : IsLine info.exe_path

abbrev pub AreOrdinary : List ProcessInfo → Type 0
AreOrdinary [] = Unit
AreOrdinary (info ∷ infos) = IsOrdinary info × AreOrdinary infos

pub record IsShown (row : ListRow) : Type 0 where
  pub ordinary : IsOrdinary row.info
  pub upload_fits : row.upload_kbps ≤ uint32_max
  pub download_fits : row.download_kbps ≤ uint32_max

abbrev pub AreShown : List ListRow → Type 0
AreShown [] = Unit
AreShown (row ∷ rows) = IsShown row × AreShown rows

unfoldable pub first_line : ListRow → Text
unfolding row_tail decimal_int
first_line row = decimal_int row.info.pid ++ row_tail row

unfoldable pub row_lines : List ListRow → List Text
unfolding first_line
row_lines [] = [] ∷ []
row_lines (row ∷ rows) = first_line row ∷ row.info.exe_path ∷ row_lines rows

pub spaced : (n : ℕ) (s : Text) → IsLine s → IsLine (b' ' ∷ (decimal n ++ s))
unfolding plain
spaced n s h = plain-append (decimal n) s (plain-decimal n) h

pub space-IsLine : (s : Text) → IsLine s → IsLine (b' ' ∷ s)
unfolding plain
space-IsLine s h = h

pub first_line-IsLine : (row : ListRow) → IsShown row → IsLine (first_line row)
unfolding first_line row_tail decimal_int
first_line-IsLine row v = rw (v.ordinary.pid_is) (
    plain-append (decimal v.ordinary.number) _ (plain-decimal v.ordinary.number) (
      spaced row.info.num_connections _ (
        spaced (flag row.info.has_tcp) _ (
          spaced (flag row.info.has_udp) _ (
            spaced row.upload_kbps _ (
              spaced row.download_kbps _
                (space-IsLine row.info.process_name v.ordinary.name_line)))))))

-- The two lines of a process, in front of what follows them.
pub row_text-append :
    (row : ListRow) (rest : Text)
    → row_text row ++ rest ≡ first_line row ++ (10 ∷ (row.info.exe_path ++ (10 ∷ rest)))
unfolding row_text first_line
row_text-append row rest =
    append_assoc (first_line row) _ rest
    ∙ ap (λ s. first_line row ++ (10 ∷ s)) (append_assoc row.info.exe_path (10 ∷ []) rest)

pub pieces-rows_text :
    (rows : List ListRow) → AreShown rows → pieces (rows_text rows) ≡ row_lines rows
unfolding pieces rows_text row_lines
pieces-rows_text [] v = refl
pieces-rows_text (row ∷ rows) (v, vs) =
    ap pieces (row_text-append row (rows_text rows))
    ∙ (pieces-line (first_line row) _ (first_line-IsLine row v)
        ∙ ap (λ ls. first_line row ∷ ls)
            (pieces-line row.info.exe_path (rows_text rows) v.ordinary.path_line
              ∙ ap (λ ls. row.info.exe_path ∷ ls) (pieces-rows_text rows vs)))
