-- ===== src/Term/Grid.antt =====
-- `grid_` of components/term_core/src/screen.cpp, a vector of cells row by row, and the loops over
-- it. An index out of bounds is a fault, `none`.
pub mod Views
pub mod Loops
use portable_terminal.Base.{
  ℕ, ◌+◌, ◌-◌, ◌*◌, Option, none, some, List, ltb, if◌then◌else◌, length, get_elem?, set, ◌>>=◌,
  for_up, for_down,
}
use portable_terminal.Term.Cell.{Cell}

abbrev pub Grid : Type 0
Grid = List Cell

abbrev pub index : ℕ → ℕ → ℕ → ℕ
index cols r c = r * cols + c

-- `Screen::at`
unfoldable pub read : ℕ → ℕ → ℕ → Grid → Option Cell
read cols r c g = get_elem? g (index cols r c)

-- `Screen::mut`, assigned to
unfoldable pub write : ℕ → ℕ → ℕ → Cell → Grid → Option Grid
write cols r c v g =
    if ltb (index cols r c) (length g) then some (set g (index cols r c) v) else none

-- `mut(r, c) = at(r', c')`
unfoldable pub copy : ℕ → ℕ → ℕ → ℕ → ℕ → Grid → Option Grid
copy cols r c r' c' g = read cols r' c' g >>= λ v. write cols r c v g

-- the columns `c0` to `c1` of a row
unfoldable pub fill_row : ℕ → Cell → ℕ → ℕ → ℕ → Grid → Option Grid
fill_row cols v c0 c1 r g = for_up (c1 - c0) c0 (λ c. write cols r c v) g

-- the loops of `clear_cells`
unfoldable pub fill_rect : ℕ → Cell → ℕ → ℕ → ℕ → ℕ → Grid → Option Grid
fill_rect cols v r0 c0 r1 c1 g = for_up (r1 - r0) r0 (λ r. fill_row cols v c0 c1 r) g

unfoldable pub copy_row : ℕ → ℕ → ℕ → Grid → Option Grid
copy_row cols r r' g = for_up cols 0 (λ c. copy cols r c r' c) g

-- for (r = top; r + n < bot; ++r), each row taken from n rows below
unfoldable pub rows_up : ℕ → ℕ → ℕ → ℕ → Grid → Option Grid
rows_up cols top bot n g = for_up (bot - n - top) top (λ r. copy_row cols r (r + n)) g

-- for (r = bot - 1; r >= top + n; --r), each row taken from n rows above
unfoldable pub rows_down : ℕ → ℕ → ℕ → ℕ → Grid → Option Grid
rows_down cols top bot n g = for_down (bot - (top + n)) (top + n) (λ r. copy_row cols r (r - n)) g

-- for (c = col; c + n < cols; ++c) in a row
unfoldable pub cells_left : ℕ → ℕ → ℕ → ℕ → Grid → Option Grid
cells_left cols row col n g = for_up (cols - n - col) col (λ c. copy cols row c row (c + n)) g

-- for (c = cols - 1; c >= col + n; --c) in a row
unfoldable pub cells_right : ℕ → ℕ → ℕ → ℕ → Grid → Option Grid
cells_right cols row col n g =
    for_down (cols - (col + n)) (col + n) (λ c. copy cols row c row (c - n)) g
