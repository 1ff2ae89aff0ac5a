-- ===== src/Term/Screen/Print.antt =====
-- `put_char` of screen.cpp.
use portable_terminal.Base.{
  ℕ, ◌+◌, ◌-◌, true, false, not, ◌||◌, ◌&&◌, Option, some, leb, ltb, ◌==◌, if◌then◌else◌, ◌>>=◌,
}
use portable_terminal.Term.Cell.{Cell, inked, is_wide_char}
use portable_terminal.Term.Grid.{read, write}
use portable_terminal.Term.Screen.State.{Screen, with_grid, move_to, set_wrap, blank, mark, u16}
use portable_terminal.Term.Screen.Erase.{line_feed}

-- `mut(row, col) = v` followed by `mark(row, col)`
unfoldable pub draw : ℕ → ℕ → Cell → Screen → Option Screen
draw row col v s = write s.cols row col v s.page.grid >>= λ g. some (mark row col (with_grid g s))

-- strips the continuation of a leading half that is replaced
unfoldable pub strip_next : ℕ → ℕ → Cell → Cell → Screen → Option Screen
strip_next row col fill victim s =
    if victim.attrs.wide && ltb (col + 1) s.cols
    then (read s.cols row (u16 (col + 1)) s.page.grid >>= λ next.
        if next.attrs.wide_cont then draw row (u16 (col + 1)) fill s else some s)
    else some s

unfoldable pub strip_prev : ℕ → ℕ → Cell → Cell → Screen → Option Screen
strip_prev row col fill victim s =
    if victim.attrs.wide_cont && ltb 0 col
    then (read s.cols row (col - 1) s.page.grid >>= λ prev.
        if prev.attrs.wide then draw row (col - 1) fill s else some s)
    else some s

unfoldable pub clear_orphan_pair : ℕ → ℕ → Cell → Screen → Option Screen
clear_orphan_pair row col fill s = if leb s.cols col then some s else (do
  victim ← read s.cols row col s.page.grid
  t ← strip_next row col fill victim s
  strip_prev row col fill victim t)

-- the two halves of a wide character
abbrev pub head_of : Cell → Cell
head_of c = record c { attrs = record c.attrs { wide = true } }

abbrev pub cont_of : Cell → Cell
cont_of c = record c { attrs = record c.attrs { wide_cont = true } }

unfoldable pub put_wide : ℕ → Screen → Option Screen
put_wide ch s = do
  let row = s.page.cursor_row
  let col = s.page.cursor_col
  s1 ← clear_orphan_pair row col (blank s) s
  s2 ← clear_orphan_pair row (u16 (col + 1)) (blank s) s1
  s3 ← draw row col (head_of (inked ch s.page.pen)) s2
  s4 ← draw row (u16 (col + 1)) (cont_of (blank s)) s3
  some (
      if ltb (col + 2) s4.cols
      then move_to row (u16 (col + 2)) s4
      else if s4.autowrap
      then set_wrap true (move_to row (u16 (col + 1)) s4)
      else move_to row (u16 (col + 1)) s4)

unfoldable pub put_narrow : ℕ → Screen → Option Screen
put_narrow ch s = do
  let row = s.page.cursor_row
  let col = s.page.cursor_col
  s1 ← clear_orphan_pair row col (blank s) s
  s2 ← draw row col (inked ch s.page.pen) s1
  some (
      if ltb (col + 1) s2.cols
      then move_to row (col + 1) s2
      else if s2.autowrap
      then set_wrap true s2
      else s2)

-- to the first column of the next line
unfoldable pub wrap_line : Screen → Option Screen
wrap_line s = line_feed (move_to s.page.cursor_row 0 s)

unfoldable pub put_here : ℕ → Screen → Option Screen
put_here ch s =
    if is_wide_char ch
    then (if leb s.cols (s.page.cursor_col + 1)
        then (if not s.autowrap then some s else wrap_line s >>= put_wide ch)
        else put_wide ch s)
    else put_narrow ch s

unfoldable pub put_char : ℕ → Screen → Option Screen
put_char ch s =
    if s.cols == 0 || s.rows == 0
    then some s
    else if s.page.wrap_pending
    then (wrap_line s >>= λ t. put_here ch (set_wrap false t))
    else put_here ch s
