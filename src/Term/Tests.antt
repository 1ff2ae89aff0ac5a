-- ===== src/Term/Tests.antt =====
-- A terminal of two rows and four columns, on a display that is a function.
use portable_terminal.Base.{
  ℕ, ◌+◌, ◌-◌, ◌≡◌, ◌⊎◌, refl, sym, for_up, Bool, true, false, ◌&&◌, Option, none, some, List, [],
  ◌∷◌, ◌++◌, Bytes, arith, ltb, leb, ◌==◌, if◌then◌else◌, length, get_or, map, ◌>>=◌, Returns,
}
use portable_terminal.Term.Cell.{Cell, empty_cell, is_wide_char, DamageRect}
use portable_terminal.Term.Grid.{index, read, write, fill_row, fill_rect, rows_up, copy_row, copy}
use portable_terminal.Term.Grid.Views.{at}
use portable_terminal.Term.Screen.State.{Screen, new_screen, place_cursor, mark_rect}
use portable_terminal.Term.Screen.Steps.{IsScreen, Steps, Steps-refl, shown}
use portable_terminal.Term.Screen.Scroll.{lift_lines, clear_cells, scroll_up, scroll_down}
use portable_terminal.Term.Screen.Scrolled.{
  Redraws, scrolled_up, scrolled_down, scroll_up-Redraws, scroll_down-Redraws,
}
use portable_terminal.Term.Screen.Erase.{line_feed}
use portable_terminal.Term.Screen.Print.{
  draw, strip_next, strip_prev, clear_orphan_pair, put_wide, put_narrow, wrap_line, put_here,
  put_char,
}
use portable_terminal.Term.Screen.Pages.{resize}
use portable_terminal.Term.Screen.Resizing.{Resizes, resize_keeps, get_or-replicate}
use portable_terminal.Term.Screen.Control.{csi, csi_move, execute, device_status_report}
use portable_terminal.Term.Parser.State.{
  Parser, ParserSink, ground_mode, new_parser, push_param_digit, next_param,
}
use portable_terminal.Term.Parser.Feed.{
  feed, feed_byte, on_mode, on_ground_byte, on_esc, on_csi_entry, on_csi_param, dispatch_csi,
  on_lead,
}
use portable_terminal.Term.Parser.Buffers.{IsParser, new_parser-IsParser}
use portable_terminal.Term.Parser.Keeps.{feed_keeps}
use portable_terminal.Term.Parser.Utf8.{idle, utf8_text, put_text, feed-utf8_text}
use portable_terminal.Term.Parser.RoundTrip.{csi_bytes, feed-csi_bytes}
use portable_terminal.Term.Terminal.{
  screen_sink, Error, Terminal, new_terminal, feed_terminal, render_dirty,
}
use portable_terminal.Term.Terminal.Feeding.{
  IsTerminal, screen_sink-KeepsIn, new_terminal-IsTerminal, feed_terminal-Steps,
}
use portable_terminal.Term.Terminal.Render.{IsDisplay, IsSynced, IsShown, render_dirty_shows}
use portable_terminal.Term.Terminal.Report.{device_status_report-feed}

abbrev Picture : Type 0
Picture = ℕ → ℕ → Cell

abbrev draw_cells : ℕ → ℕ → List Cell → Picture → Picture × Option Error
draw_cells row col cs d = (
  λ r c.
      if r == row && (leb col c && ltb c (col + length cs))
      then get_or cs (c - col) empty_cell
      else d r c,
  none,
)

abbrev flush : DamageRect → Picture → Picture × Option Error
flush e d = (d, none)

abbrev bell : Picture → Picture
bell d = d

abbrev blank_picture : Picture
blank_picture r c = empty_cell

display_ok : IsDisplay (λ d. d) draw_cells flush bell
display_ok = record {
  drawn = λ row col cs d ok r c. refl;
  flushed = λ e d r c. refl;
  rung = λ d r c. refl;
}

abbrev small : Terminal
small = new_terminal 4 2

small_ok : IsTerminal small
small_ok = new_terminal-IsTerminal 4 2 (omega arith) (omega arith) (omega arith) (omega arith)

small-IsSynced : IsSynced (λ d. d) draw_cells flush bell display_ok small.1 blank_picture
unfolding shown at new_screen
small-IsSynced r c hr hc out = sym (get_or-replicate 8 (index 4 r c) empty_cell)

-- moves the cursor and prints
abbrev typed : Bytes
typed = 0x1B ∷ b'[' ∷ b'2' ∷ b';' ∷ b'3' ∷ b'H' ∷ b'o' ∷ b'k' ∷ 10 ∷ []

render_dirty_shows_example :
    Returns
      (λ (x : Screen × Picture × Option Error).
        ((error : Error) × (x.2 ≡ some error))
        ⊎ IsShown (λ d. d) draw_cells flush bell display_ok x.0 x.1)
      (feed_terminal typed small >>= λ u. render_dirty draw_cells flush bell u.1 blank_picture)
render_dirty_shows_example =
    render_dirty_shows (λ d. d) draw_cells flush bell display_ok typed small blank_picture small_ok
      small-IsSynced

feed_terminal-Steps_example :
    Returns (λ (u : Terminal). IsTerminal u × Steps small.1 u.1) (feed_terminal typed small)
feed_terminal-Steps_example = feed_terminal-Steps typed small small_ok

scroll_up-Redraws_example :
    Returns (Redraws small.1 (scrolled_up small.1 small_ok.screen_ok 1)) (scroll_up 1 small.1)
scroll_up-Redraws_example = scroll_up-Redraws small.1 small_ok.screen_ok 1

scroll_down-Redraws_example :
    Returns (Redraws small.1 (scrolled_down small.1 small_ok.screen_ok 1)) (scroll_down 1 small.1)
scroll_down-Redraws_example = scroll_down-Redraws small.1 small_ok.screen_ok 1

resize_keeps_example : Returns (Resizes 3 5 small.1) (resize 3 5 small.1)
resize_keeps_example =
    resize_keeps 3 5 small.1 small_ok.screen_ok (omega arith) (omega arith) (omega arith)
      (omega arith)

-- a sink that records what it is called with
data Event : Type 0 where
  put : ℕ → Event
  control : ℕ → Event
  sequence : ℕ → List ℕ → Bytes → Bool → Event
  escape : ℕ → Bytes → Event
  title : Bytes → Event

abbrev recorder : ParserSink (List Event)
recorder = record {
  put_char = λ ch s. some (s ++ put ch ∷ []);
  execute = λ c0 s. some (s ++ control c0 ∷ []);
  csi = λ final ps is private s. some (s ++ sequence final ps is private ∷ []);
  esc = λ final is s. some (s ++ escape final is ∷ []);
  osc = λ text s. some (s ++ title text ∷ []);
}

feed-utf8_text_example :
    feed recorder (utf8_text (0x41 ∷ 0x3042 ∷ 0x1F600 ∷ [])) (idle new_parser, [])
    ≡ (put_text recorder (0x41 ∷ 0x3042 ∷ 0x1F600 ∷ []) [] >>= λ t. some (idle new_parser, t))
feed-utf8_text_example =
    feed-utf8_text recorder (0x41 ∷ 0x3042 ∷ 0x1F600 ∷ []) new_parser [] (omega arith)

feed-csi_bytes_example :
    (q : Parser) × (q.mode ≡ ground_mode)
    × (feed recorder (csi_bytes true (25 ∷ 1049 ∷ []) b'h') (new_parser, [])
        ≡ (recorder.csi b'h' (25 ∷ 1049 ∷ []) [] true [] >>= λ t. some (q, t)))
feed-csi_bytes_example =
    feed-csi_bytes recorder true 25 (1049 ∷ []) b'h' new_parser [] (omega arith) (omega arith) refl
      refl refl

feed_keeps_example :
    Returns
      (λ (x : Parser × Screen). IsParser x.0 × Steps small.1 x.1)
      (feed screen_sink typed (new_parser, small.1))
feed_keeps_example =
    feed_keeps (Steps small.1) screen_sink (screen_sink-KeepsIn small.1) typed new_parser small.1
      new_parser-IsParser (Steps-refl small.1 small_ok.screen_ok)

-- with a connection to answer on
abbrev connected : Screen
connected = record (new_screen 4 2) { response = some [] }

connected_ok : IsScreen connected
unfolding new_screen
connected_ok = record {
  wide_enough = omega arith;
  cols_fit = omega arith;
  has_row = omega arith;
  rows_fit = omega arith;
  page_ok = small_ok.screen_ok.page_ok;
  backup_ok = small_ok.screen_ok.backup_ok;
  damage_rows = small_ok.screen_ok.damage_rows;
  damage_cols = small_ok.screen_ok.damage_cols;
}

device_status_report-feed_example :
    (report : Bytes) × ((device_status_report (6 ∷ []) false connected).response
      ≡ some ([] ++ report ∷ []))
    × ((q : Parser) × (q.mode ≡ ground_mode)
        × (feed recorder report (new_parser, [])
            ≡ (recorder.csi b'R' (1 ∷ 1 ∷ []) [] false [] >>= λ u. some (q, u))))
unfolding new_screen
device_status_report-feed_example =
    device_status_report-feed recorder false connected [] new_parser [] connected_ok refl refl refl

-- the code points on the screen
abbrev letters : Option Terminal → List ℕ
letters none = []
letters (some (p, s)) = map (λ (c : Cell). c.ch) s.page.grid

-- What was printed on the second line is on the first after the line feed.
typed-letters : letters (feed_terminal typed small) ≡ 32 ∷ 32 ∷ b'o' ∷ b'k' ∷ 32 ∷ 32 ∷ 32 ∷ 32 ∷ []
unfolding feed_terminal feed feed_byte on_mode on_ground_byte on_esc on_csi_entry on_csi_param
    dispatch_csi push_param_digit next_param on_lead csi csi_move place_cursor new_screen put_char
    put_here is_wide_char put_narrow execute line_feed scroll_up lift_lines rows_up copy_row copy
    fill_rect fill_row for_up write read clear_orphan_pair strip_next strip_prev draw mark_rect
typed-letters = refl

-- A wide character on a screen of one column leaves the grid.
one_column : put_char 0x4E00 (new_screen 1 1) ≡ none
unfolding new_screen put_char put_here is_wide_char wrap_line line_feed scroll_up clear_cells
    fill_rect fill_row for_up write read put_wide clear_orphan_pair strip_next strip_prev draw
    mark_rect
one_column = refl
