-- ===== src/Term/Terminal.antt =====
-- components/term_core/src/terminal.cpp: the screen behind the parser, and its rendering to a
-- display. The display is behind the interface `IDisplay` of idisplay.hpp: its state and its
-- functions are arguments.
pub mod Feeding
pub mod Render
pub mod Report
use portable_terminal.Base.{
  ℕ, zero, suc, ◌-◌, Bool, Option, none, some, List, [], ◌∷◌, Bytes, if◌then◌else◌, ◌>>=◌,
}
use portable_terminal.Term.Cell.{Cell, DamageRect, is_empty_rect}
use portable_terminal.Term.Grid.{Grid, read}
use portable_terminal.Term.Screen.State.{Screen, new_screen, take_damage, take_bell_pending}
use portable_terminal.Term.Screen.Print.{put_char}
use portable_terminal.Term.Screen.Control.{execute, csi, esc, osc}
use portable_terminal.Term.Screen.Pages.{resize}
use portable_terminal.Term.Parser.State.{Parser, ParserSink, new_parser}
use portable_terminal.Term.Parser.Feed.{feed}

-- the screen as the sink of the parser
abbrev pub screen_sink : ParserSink Screen
screen_sink = record { put_char = put_char; execute = execute; csi = csi; esc = esc; osc = osc }

-- the parser and the screen of a `Terminal`
abbrev pub Terminal : Type 0
Terminal = Parser × Screen

abbrev pub new_terminal : ℕ → ℕ → Terminal
new_terminal cols rows = (new_parser, new_screen cols rows)

unfoldable pub feed_terminal : Bytes → Terminal → Option Terminal
feed_terminal bytes t = feed screen_sink bytes t

unfoldable pub resize_terminal : ℕ → ℕ → Terminal → Option Terminal
resize_terminal cols rows (p, s) = resize cols rows s >>= λ t. some (p, t)

-- the inner loop of `render_dirty`: n cells of a row
unfoldable pub row_cells : ℕ → ℕ → ℕ → ℕ → Grid → Option (List Cell)
row_cells cols row zero col g = some []
row_cells cols row (suc n) col g = do
  c ← read cols row col g
  cs ← row_cells cols row n (suc col) g
  some (c ∷ cs)

pub data Error : Type 0 where
  out_of_range : Error
  not_initialized : Error
  backend_error : Error
  parse_overflow : Error

-- `display_` is set by the constructor, from a reference.
module _ {D : Type 0} (draw_cells : ℕ → ℕ → List Cell → D → D × Option Error)
    (flush : DamageRect → D → D × Option Error) (bell : D → D) where
  -- the outer loop, n rows from `row` on; it ends with the first error
  unfoldable pub render_rows : DamageRect → ℕ → ℕ → Screen → D → Option (D × Option Error)
  unfolding row_cells
  render_rows r zero row s d = some (flush r d)
  render_rows r (suc n) row s d =
      row_cells s.cols row (r.col1 - r.col0) r.col0 s.page.grid >>= λ cells.
      let (e, rc) = draw_cells row r.col0 cells d in
      elim rc [ none ↦ render_rows r n (suc row) s e | some error ↦ some (e, some error) ]

  -- `Terminal::render_dirty`: the screen and the display that it leaves, and the error, if any
  unfoldable pub render_dirty : Screen → D → Option (Screen × D × Option Error)
  unfolding render_rows
  render_dirty s0 d0 =
      let (ring, s1) = take_bell_pending s0 in
      let d1 = if ring then bell d0 else d0 in
      let (r, s) = take_damage s1 in
      if is_empty_rect r
      then some (s, d1, none)
      else render_rows r (r.row1 - r.row0) r.row0 s d1 >>= λ (d, rc). some (s, d, rc)
