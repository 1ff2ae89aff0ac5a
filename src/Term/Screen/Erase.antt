-- ===== src/Term/Screen/Erase.antt =====
-- Line feeds and erasing in screen.cpp.
use portable_terminal.Base.{ℕ, ◌+◌, ◌-◌, false, ◌||◌, Option, some, ltb, ◌==◌, if◌then◌else◌, ◌>>=◌}
use portable_terminal.Term.Screen.State.{Screen, move_to, set_wrap, u16}
use portable_terminal.Term.Screen.Scroll.{clear_cells, scroll_up, scroll_down}

unfoldable pub line_feed : Screen → Option Screen
line_feed s0 =
    let s = set_wrap false s0 in
    let row = s.page.cursor_row in
    let down = some (move_to (row + 1) s.page.cursor_col s) in
    if ltb (row + 1) s.page.scroll_bot
    then down
    else if row + 1 == s.page.scroll_bot
    then scroll_up 1 s
    else if ltb (row + 1) s.rows
    then down
    else some s

unfoldable pub reverse_index : Screen → Option Screen
reverse_index s0 =
    let s = set_wrap false s0 in
    let row = s.page.cursor_row in
    let up = some (move_to (row - 1) s.page.cursor_col s) in
    if ltb s.page.scroll_top row
    then up
    else if row == s.page.scroll_top
    then scroll_down 1 s
    else if ltb 0 row
    then up
    else some s

unfoldable pub erase_display : ℕ → Screen → Option Screen
erase_display mode s =
    let row = s.page.cursor_row in
    let col = s.page.cursor_col in
    if mode == 0
    then (clear_cells row col (u16 (row + 1)) s.cols s >>= λ t.
        if ltb (row + 1) t.rows then clear_cells (u16 (row + 1)) 0 t.rows t.cols t else some t)
    else if mode == 1
    then (if ltb 0 row then clear_cells 0 0 row s.cols s else some s)
      >>= clear_cells row 0 (u16 (row + 1)) (u16 (col + 1))
    else if mode == 2 || mode == 3
    then clear_cells 0 0 s.rows s.cols s
    else some s

unfoldable pub erase_line : ℕ → Screen → Option Screen
erase_line mode s =
    let row = s.page.cursor_row in
    if mode == 0
    then clear_cells row s.page.cursor_col (u16 (row + 1)) s.cols s
    else if mode == 1
    then clear_cells row 0 (u16 (row + 1)) (u16 (s.page.cursor_col + 1)) s
    else if mode == 2
    then clear_cells row 0 (u16 (row + 1)) s.cols s
    else some s
