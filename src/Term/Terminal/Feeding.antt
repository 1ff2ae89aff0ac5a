-- ===== src/Term/Terminal/Feeding.antt =====
-- What a terminal keeps while it is fed.
use portable_terminal.Base.{
  ℕ, ◌≤◌, ◌<◌, ◌^◌, ◌*◌, Bytes, arith, Returns, returns, Returns-map, length-replicate,
}
use portable_terminal.Term.Cell.{empty_cell}
use portable_terminal.Term.Screen.State.{Screen, new_page, new_screen}
use portable_terminal.Term.Screen.Steps.{IsPage, IsScreen, Steps, Steps-refl, Steps-trans}
use portable_terminal.Term.Screen.Printing.{put_char-Steps}
use portable_terminal.Term.Screen.Sequences.{execute-Steps, csi-Steps, esc-Steps}
use portable_terminal.Term.Parser.Buffers.{IsParser, new_parser-IsParser}
use portable_terminal.Term.Parser.Keeps.{KeepsIn, feed_keeps}
use portable_terminal.Term.Terminal.{screen_sink, Terminal, feed_terminal, new_terminal}

-- the parser is within its buffers, and the screen is well formed
pub record IsTerminal (t : Terminal) : Type 0 where
  pub parser_ok : IsParser t.0
  pub screen_ok : IsScreen t.1

pub screen_sink-KeepsIn : (s : Screen) → KeepsIn (Steps s) screen_sink
screen_sink-KeepsIn s = record {
  put_char_ok = λ ch t st. Returns-map (put_char-Steps t st.valid ch) λ u tu. Steps-trans st tu;
  execute_ok = λ c0 t st. Returns-map (execute-Steps t st.valid c0) λ u tu. Steps-trans st tu;
  csi_ok = λ final ps is private t st.
      Returns-map (csi-Steps t st.valid final ps is private) λ u tu. Steps-trans st tu;
  esc_ok = λ final is t st. Returns-map (esc-Steps t st.valid final is) λ u tu. Steps-trans st tu;
  osc_ok = λ text t st. returns st;
}

-- Whatever bytes a well-formed terminal is fed, no read or write leaves the grid; the terminal is
-- well formed again and of the same size, and every cell that is not as it was lies in the damage.
pub feed_terminal-Steps :
    (bytes : Bytes) (t : Terminal)
    → IsTerminal t
    → Returns (λ (u : Terminal). IsTerminal u × Steps t.1 u.1) (feed_terminal bytes t)
unfolding feed_terminal
feed_terminal-Steps bytes (p, s) v =
    Returns-map
      (feed_keeps (Steps s) screen_sink (screen_sink-KeepsIn s) bytes p s v.parser_ok
        (Steps-refl s v.screen_ok))
      λ u kept. (record { parser_ok = kept.0; screen_ok = kept.1.valid }, kept.1)

new_page-IsPage : (cols rows : ℕ) → 0 < cols → 0 < rows → IsPage cols rows (new_page cols rows)
new_page-IsPage cols rows hc hr = record {
  size = length-replicate (rows * cols) empty_cell;
  cursor_row_lt = hr;
  cursor_col_lt = hc;
  region = hr;
  region_fits = omega arith;
}

pub new_terminal-IsTerminal :
    (cols rows : ℕ)
    → 2 ≤ cols
    → cols < 2 ^ 16
    → 0 < rows
    → rows < 2 ^ 16
    → IsTerminal (new_terminal cols rows)
unfolding new_screen
new_terminal-IsTerminal cols rows hc hc' hr hr' = record {
  parser_ok = new_parser-IsParser;
  screen_ok = record {
    wide_enough = hc;
    cols_fit = hc';
    has_row = hr;
    rows_fit = hr';
    page_ok = new_page-IsPage cols rows (omega arith) hr;
    backup_ok = new_page-IsPage cols rows (omega arith) hr;
    damage_rows = omega arith;
    damage_cols = omega arith;
  };
}
