-- ===== src/Term/Screen/State.antt =====
-- The state of the screen, the damage that it records, and the moves of the cursor. A `uint16_t`
-- wraps where the source stores a sum in one.
use portable_terminal.Base.{
  ℕ, ◌+◌, ◌-◌, ◌*◌, ◌/◌, ◌%◌, ◌^◌, Bool, true, false, ◌||◌, Option, none, List, Bytes, ltb, leb,
  ◌==◌, if◌then◌else◌, min, replicate,
}
use Prim.Native.Nat.{max}
use portable_terminal.Term.Cell.{
  Pen, default_pen, Cell, inked, empty_cell, DamageRect, no_damage, is_empty_rect,
}
use portable_terminal.Term.Grid.{Grid}

abbrev pub u16 : ℕ → ℕ
u16 n = n % 2 ^ 16

-- What `swap_with_backup` exchanges: the fields of `ScreenBackup`. `pen` is `cur_attrs_`, `cur_fg_`
-- and `cur_bg_`, `saved_pen` their saved copies.
pub record Page : Type 0 where
  pub grid : Grid
  pub cursor_row : ℕ
  pub cursor_col : ℕ
  pub wrap_pending : Bool
  pub scroll_top : ℕ
  pub scroll_bot : ℕ
  pub pen : Pen
  pub saved_row : ℕ
  pub saved_col : ℕ
  pub saved_pen : Pen
  pub has_saved : Bool

-- `response` holds what was sent to `response_`, if there is one.
pub record Screen : Type 0 where
  pub cols : ℕ
  pub rows : ℕ
  pub page : Page
  pub autowrap : Bool
  pub cursor_visible : Bool
  pub damage : DamageRect
  pub bell_pending : Bool
  pub response : Option (List Bytes)
  pub backup : Page
  pub alt_active : Bool

abbrev pub new_page : ℕ → ℕ → Page
new_page cols rows = record {
  grid = replicate (rows * cols) empty_cell;
  cursor_row = 0;
  cursor_col = 0;
  wrap_pending = false;
  scroll_top = 0;
  scroll_bot = rows;
  pen = default_pen;
  saved_row = 0;
  saved_col = 0;
  saved_pen = default_pen;
  has_saved = false;
}

-- the constructor
unfoldable pub new_screen : ℕ → ℕ → Screen
new_screen cols rows = record {
  cols = cols;
  rows = rows;
  page = new_page cols rows;
  autowrap = true;
  cursor_visible = true;
  damage = no_damage;
  bell_pending = false;
  response = none;
  backup = new_page cols rows;
  alt_active = false;
}

abbrev pub with_page : (Page → Page) → Screen → Screen
with_page f s = record s { page = f s.page }

abbrev pub with_grid : Grid → Screen → Screen
with_grid g = with_page (λ p. record p { grid = g })

abbrev pub move_to : ℕ → ℕ → Screen → Screen
move_to row col = with_page (λ p. record p { cursor_row = row; cursor_col = col })

abbrev pub set_wrap : Bool → Screen → Screen
set_wrap b = with_page (λ p. record p { wrap_pending = b })

-- `Cell{U' ', cur_fg_, cur_bg_, cur_attrs_}`
abbrev pub blank : Screen → Cell
blank s = inked b' ' s.page.pen

abbrev pub joined_rect : DamageRect → DamageRect → DamageRect
joined_rect d e = if is_empty_rect d then e else record {
  row0 = min d.row0 e.row0;
  col0 = min d.col0 e.col0;
  row1 = max d.row1 e.row1;
  col1 = max d.col1 e.col1;
}

unfoldable pub mark_rect : ℕ → ℕ → ℕ → ℕ → Screen → Screen
mark_rect r0 c0 r1 c1 s = if leb r1 r0 || leb c1 c0 then s else record s {
  damage = joined_rect s.damage (record { row0 = r0; col0 = c0; row1 = r1; col1 = c1 });
}

abbrev pub mark : ℕ → ℕ → Screen → Screen
mark row col = mark_rect row col (u16 (row + 1)) (u16 (col + 1))

abbrev pub mark_range : ℕ → ℕ → ℕ → Screen → Screen
mark_range row c0 c1 s = if leb c1 c0 then s else mark_rect row c0 (u16 (row + 1)) c1 s

abbrev pub mark_all : Screen → Screen
mark_all s = mark_rect 0 0 s.rows s.cols s

unfoldable pub take_damage : Screen → DamageRect × Screen
take_damage s = (s.damage, record s { damage = no_damage })

unfoldable pub take_bell_pending : Screen → Bool × Screen
take_bell_pending s = (s.bell_pending, record s { bell_pending = false })

-- `clamp_pos` from 0 on; what the source computes below 0 is 0 here already
abbrev pub clamp_pos : ℕ → ℕ → ℕ
clamp_pos v hi = if ltb hi v then hi else v

-- `rows_ ? rows_ - 1 : 0` is `rows - 1` on ℕ
unfoldable pub place_cursor : ℕ → ℕ → Screen → Screen
place_cursor row col s = set_wrap false (move_to (min row (s.rows - 1)) (min col (s.cols - 1)) s)

unfoldable pub carriage_return : Screen → Screen
carriage_return s = set_wrap false (move_to s.page.cursor_row 0 s)

unfoldable pub backspace : Screen → Screen
backspace s = set_wrap false (move_to s.page.cursor_row (s.page.cursor_col - 1) s)

abbrev pub tab_width : ℕ
tab_width = 8

unfoldable pub tab : Screen → Screen
tab s =
    if s.cols == 0
    then s
    else (let next = u16 ((s.page.cursor_col / tab_width + 1) * tab_width) in
        set_wrap false (move_to s.page.cursor_row (if leb s.cols next then s.cols - 1 else next) s))

-- DECSC
unfoldable pub save_cursor : Screen → Screen
save_cursor = with_page (λ p. record p {
  saved_row = p.cursor_row;
  saved_col = p.cursor_col;
  saved_pen = p.pen;
  has_saved = true;
})

-- DECRC
unfoldable pub restore_cursor : Screen → Screen
unfolding place_cursor
restore_cursor s =
    if s.page.has_saved
    then with_page (λ p. record p { pen = p.saved_pen })
        (place_cursor s.page.saved_row s.page.saved_col s)
    else s
