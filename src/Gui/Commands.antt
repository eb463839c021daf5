-- ===== src/Gui/Commands.antt =====
-- gui/backend.c and gui/main.c: a command for limits, from the client to the loop of the privileged
-- process and back.
use pidnl.Base.{
  ℕ, zero, suc, ◌+◌, ◌*◌, ◌/◌, ◌%◌, ◌^◌, ◌≤◌, ◌<◌, ◌≡◌, refl, sym, ap, ◌∙◌, ℤ, pos, false, [], ◌∷◌,
  ◌++◌, Text, length, some, decimal, digits, arith, append_assoc, append_nil, length-append,
}
use pidnl.Cstd.{int_max, uint32_max, is_digit}
use pidnl.System.{M, pure, ◌>>=◌}
use pidnl.Monitor.Codes.{MonitorCode}
use pidnl.Discovery.Query.{Netlink}
use pidnl.Gui.{limit_line, scan_longs, serve_limit, handle_limit_cmd, cmd_limit}
use pidnl.Gui.Glib.{Glib, IsLine, plain, plain-append, plain-decimal}
use pidnl.Gui.Rows.{is_nil}
use pidnl.Gui.Lines.{spaced, space-IsLine}
use pidnl.Gui.Protocol.{read-decimal, nothing_more, limit_request-limit_line}
use pidnl.Gui.Client.{command_line}
use pidnl.Gui.Server.{
  fgets, line_room, goes_on, after_command, switch, serve_number, serve_line, serve,
}

fgets-line :
    (n : ℕ) (line rest : Text)
    → IsLine line
    → length line < n
    → fgets n (line ++ (10 ∷ rest)) ≡ (line ++ (10 ∷ []), rest)
unfolding fgets plain
fgets-line zero line rest h k = absurd (omega arith)
fgets-line (suc n) [] rest h k = refl
fgets-line (suc n) (c ∷ line) rest h k = ground (arith, fgets-line n line rest)

pow_step : (k : ℕ) → 10 ^ suc k ≡ 10 * 10 ^ k
pow_step k = omega arith

shorter : (n m : ℕ) → n < 10 * m → n / 10 < m
shorter n m h = omega arith

digits-length :
    (fuel n : ℕ) (out : Text) (k : ℕ)
    → n < 10 ^ suc k
    → n < fuel
    → length (digits fuel n out) ≤ suc k + length out
unfolding digits
digits-length zero n out k h f = absurd (omega arith)
digits-length (suc fuel) n out zero h f = ground arith
digits-length (suc fuel) n out (suc k) h f = ground (
  arith,
  digits-length fuel (n / 10) ((b'0' + n % 10) ∷ out) k
      (shorter n (10 ^ suc k) (rw (pow_step (suc k)) at h)),
)

decimal-length : (n : ℕ) → n ≤ uint32_max → length (decimal n) ≤ 10
unfolding decimal
decimal-length n h = digits-length (suc n) n [] 9 (omega arith) (omega arith)

-- The line without its newline.
limit_words : ℕ → ℕ → ℕ → Text
limit_words pid upload download =
    decimal cmd_limit
    ++ (b' ' ∷ (decimal pid ++ (b' ' ∷ (decimal upload ++ (b' ' ∷ decimal download)))))

limit_line-append :
    (pid upload download : ℕ) (rest : Text)
    → limit_line pid upload download ++ rest ≡ limit_words pid upload download ++ (10 ∷ rest)
unfolding limit_line limit_words
limit_line-append pid upload download rest = simp append_assoc

limit_words-IsLine : (pid upload download : ℕ) → IsLine (limit_words pid upload download)
unfolding limit_words
limit_words-IsLine pid upload download =
    plain-append (decimal cmd_limit) _ (plain-decimal cmd_limit)
      (spaced pid _ (spaced upload _ (space-IsLine (decimal download) (plain-decimal download))))

-- Forty-three bytes at most.
limit_words-length :
    (pid upload download : ℕ)
    → pid ≤ int_max
    → upload ≤ uint32_max
    → download ≤ uint32_max
    → length (limit_words pid upload download) < line_room
unfolding limit_words
limit_words-length pid upload download a b c =
    let d = decimal-length cmd_limit (omega arith) in
    let e = decimal-length pid (omega arith) in
    let f = decimal-length upload b in
    let g = decimal-length download c in
    rw
      (
        length-append (decimal cmd_limit)
            (b' ' ∷ (decimal pid ++ (b' ' ∷ (decimal upload ++ (b' ' ∷ decimal download))))),
        length-append (decimal pid) (b' ' ∷ (decimal upload ++ (b' ' ∷ decimal download))),
        length-append (decimal upload) (b' ' ∷ decimal download),
      )
      (omega (arith, d, e, f, g))

-- The loop reads the command whole, and nothing behind it.
fgets-limit_line :
    (pid upload download : ℕ) (later : Text)
    → pid ≤ int_max
    → upload ≤ uint32_max
    → download ≤ uint32_max
    → fgets line_room (limit_line pid upload download ++ later)
      ≡ (limit_line pid upload download, later)
fgets-limit_line pid upload download later a b c =
    let line = limit_words pid upload download in
    let ends = limit_line-append pid upload download [] in
    ap (fgets line_room) (limit_line-append pid upload download later)
    ∙ (fgets-line line_room line later (limit_words-IsLine pid upload download)
          (limit_words-length pid upload download a b c)
        ∙ ap (λ s. (s, later)) (sym ends ∙ append_nil (limit_line pid upload download)))

scan_command :
    (pid upload download : ℕ)
    → scan_longs 1 (limit_line pid upload download) ≡ some (pos cmd_limit ∷ [])
unfolding limit_line is_digit
scan_command pid upload download = read-decimal 0 cmd_limit _ [] (omega arith) refl (nothing_more _)

limit_line_nonempty :
    (pid upload download : ℕ) (later : Text)
    → is_nil (limit_line pid upload download ++ later) ≡ false
unfolding limit_line decimal digits
limit_line_nonempty pid upload download later = refl

module _ (send : ℤ → ℤ → M MonitorCode) (netlinks : Text → Netlink) where
  pub serve-line :
      (fuel : ℕ) (input line later : Text)
      → is_nil input ≡ false
      → fgets line_room input ≡ (line, later)
      → serve send netlinks (suc fuel) input
        ≡ serve_line send (netlinks later) line >>= after_command (serve send netlinks fuel later)
  unfolding serve
  serve-line fuel [] line later h e = absurd (cc)
  serve-line fuel (c ∷ input) line later h e =
      ap
        (λ read.
          serve_line send (netlinks read.1) read.0
          >>= after_command (serve send netlinks fuel read.1))
        e

  pub serve-limit_line :
      (fuel pid upload download : ℕ) (later : Text)
      → 0 < pid
      → pid ≤ int_max
      → upload ≤ uint32_max
      → download ≤ uint32_max
      → serve send netlinks (suc fuel) (limit_line pid upload download ++ later)
        ≡ (serve_limit send
              (some (record { pid = pos pid; upload = pos upload; download = pos download }))
            >>= (λ r. pure (goes_on (command_line r))))
          >>= after_command (serve send netlinks fuel later)
  unfolding serve_line serve_number switch handle_limit_cmd
  serve-limit_line fuel pid upload download later z a b c =
      serve-line fuel _ (limit_line pid upload download) later
        (limit_line_nonempty pid upload download later)
        (fgets-limit_line pid upload download later a b c)
      ∙ rw (scan_command pid upload download, limit_request-limit_line pid upload download z a b c)
