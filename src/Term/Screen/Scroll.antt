-- ===== src/Term/Screen/Scroll.antt =====
-- Scrolling and the inserting and deleting of lines and characters in screen.cpp.
use portable_terminal.Base.{
  ℕ, ◌+◌, ◌-◌, Bool, false, ◌||◌, Option, some, ltb, leb, ◌==◌, if◌then◌else◌, min, ◌>>=◌,
}
use portable_terminal.Term.Grid.{fill_rect, rows_up, rows_down, cells_left, cells_right, fill_row}
use portable_terminal.Term.Screen.State.{
  Page, Screen, with_grid, move_to, set_wrap, blank, mark_rect, mark_range, u16,
}

unfoldable pub clear_cells : ℕ → ℕ → ℕ → ℕ → Screen → Option Screen
clear_cells r0 c0 r1 c1 s =
    if leb r1 r0 || leb c1 c0
    then some s
    else fill_rect s.cols (blank s) r0 c0 r1 c1 s.page.grid >>= λ g.
        some (mark_rect r0 c0 r1 c1 (with_grid g s))

-- the loops from row `top` on that move lines up by n, and blank the n lines above `bot`
unfoldable pub lift_lines : ℕ → ℕ → Screen → Option Screen
lift_lines top n s = do
  let bot = s.page.scroll_bot
  g ← rows_up s.cols top bot n s.page.grid
  h ← fill_rect s.cols (blank s) (bot - n) 0 bot s.cols g
  some (mark_rect top 0 bot s.cols (with_grid h s))

-- the loops that move lines down by n, and blank n lines from `top` on
unfoldable pub sink_lines : ℕ → ℕ → Screen → Option Screen
sink_lines top n s = do
  let bot = s.page.scroll_bot
  g ← rows_down s.cols top bot n s.page.grid
  h ← fill_rect s.cols (blank s) top 0 (top + n) s.cols g
  some (mark_rect top 0 bot s.cols (with_grid h s))

unfoldable pub scroll_up : ℕ → Screen → Option Screen
scroll_up n s =
    let top = s.page.scroll_top in
    let bot = s.page.scroll_bot in
    if leb bot top || n == 0
    then some s
    else if leb (bot - top) n
    then clear_cells top 0 bot s.cols s
    else lift_lines top n s

unfoldable pub scroll_down : ℕ → Screen → Option Screen
scroll_down n s =
    let top = s.page.scroll_top in
    let bot = s.page.scroll_bot in
    if leb bot top || n == 0
    then some s
    else if leb (bot - top) n
    then clear_cells top 0 bot s.cols s
    else sink_lines top n s

-- The count of the four operations below: 1 for 0, and no more than there is room for.
abbrev pub limited : ℕ → ℕ → ℕ
limited n room = min (if n == 0 then 1 else n) room

abbrev pub is_outside_region : Page → Bool
is_outside_region p = ltb p.cursor_row p.scroll_top || leb p.scroll_bot p.cursor_row

abbrev pub to_line_start : Screen → Option Screen
to_line_start s = some (set_wrap false (move_to s.page.cursor_row 0 s))

unfoldable pub insert_lines : ℕ → Screen → Option Screen
insert_lines n s =
    let row = s.page.cursor_row in
    if is_outside_region s.page
    then some s
    else sink_lines row (limited n (s.page.scroll_bot - row)) s >>= to_line_start

unfoldable pub delete_lines : ℕ → Screen → Option Screen
delete_lines n s =
    let row = s.page.cursor_row in
    if is_outside_region s.page
    then some s
    else lift_lines row (limited n (s.page.scroll_bot - row)) s >>= to_line_start

unfoldable pub insert_chars : ℕ → Screen → Option Screen
insert_chars n s =
    let row = s.page.cursor_row in
    let col = s.page.cursor_col in
    if leb s.cols col then some s else (do
      let count = limited n (s.cols - col)
      g ← cells_right s.cols row col count s.page.grid
      h ← fill_row s.cols (blank s) col (col + count) row g
      some (set_wrap false (mark_range row col s.cols (with_grid h s))))

unfoldable pub delete_chars : ℕ → Screen → Option Screen
delete_chars n s =
    let row = s.page.cursor_row in
    let col = s.page.cursor_col in
    if leb s.cols col then some s else (do
      let count = limited n (s.cols - col)
      g ← cells_left s.cols row col count s.page.grid
      h ← fill_row s.cols (blank s) (s.cols - count) s.cols row g
      some (set_wrap false (mark_range row col s.cols (with_grid h s))))

unfoldable pub erase_chars : ℕ → Screen → Option Screen
erase_chars n s =
    let row = s.page.cursor_row in
    let col = s.page.cursor_col in
    if leb s.cols col then some s else (do
      let end = min (u16 (col + (if n == 0 then 1 else n))) s.cols
      g ← fill_row s.cols (blank s) col end row s.page.grid
      some (set_wrap false (mark_range row col end (with_grid g s))))
