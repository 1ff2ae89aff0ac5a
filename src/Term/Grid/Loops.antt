-- ===== src/Term/Grid/Loops.antt =====
-- The loops over the grid of components/term_core/src/screen.cpp: none leaves the grid, and each
-- leaves every cell as told.
use portable_terminal.Base.{
  ℕ, suc, ◌+◌, ◌-◌, ◌≤◌, ◌<◌, ◌≡◌, ◌≢◌, Bool, ◌&&◌, arith, ltb, leb, ◌==◌, if◌then◌else◌, for_up,
  Returns, returns, Returns-map, for_up-Returns, for_down-Returns, Bool-cases, inl, inr,
}
use portable_terminal.Term.Cell.{Cell}
use portable_terminal.Term.Grid.{
  Grid, fill_row, fill_rect, copy_row, rows_up, rows_down, cells_left, cells_right,
}
use portable_terminal.Term.Grid.Views.{Views, Views-ext, write-Views, copy-Views}

abbrev pub in_rect : ℕ → ℕ → ℕ → ℕ → ℕ → ℕ → Bool
in_rect r0 c0 r1 c1 r c = leb r0 r && ltb r r1 && (leb c0 c && ltb c c1)

module _ (f : ℕ → ℕ → Cell) where
  abbrev pub filled : Cell → ℕ → ℕ → ℕ → ℕ → ℕ → ℕ → Cell
  filled v r0 c0 r1 c1 r c = if in_rect r0 c0 r1 c1 r c then v else f r c

  -- rows `lo` to `hi`, taken from n rows below
  abbrev pub moved_up : ℕ → ℕ → ℕ → ℕ → ℕ → Cell
  moved_up lo hi n r c = if leb lo r && ltb r hi then f (r + n) c else f r c

  abbrev pub moved_down : ℕ → ℕ → ℕ → ℕ → ℕ → Cell
  moved_down lo hi n r c = if leb lo r && ltb r hi then f (r - n) c else f r c

  -- in row `row`, columns `lo` to `hi`, taken from n columns to the right
  abbrev pub moved_left : ℕ → ℕ → ℕ → ℕ → ℕ → ℕ → Cell
  moved_left row lo hi n r c = if r == row && (leb lo c && ltb c hi) then f r (c + n) else f r c

  abbrev pub moved_right : ℕ → ℕ → ℕ → ℕ → ℕ → ℕ → Cell
  moved_right row lo hi n r c = if r == row && (leb lo c && ltb c hi) then f r (c - n) else f r c

  abbrev row_taken : ℕ → ℕ → ℕ → ℕ → ℕ → Cell
  row_taken r r' k q c = if q == r && ltb c k then f r' c else f q c

module _ (cols rows : ℕ) where
  pub fill_row-Views :
      (v : Cell) (c0 c1 r : ℕ) (f : ℕ → ℕ → Cell) (g : Grid)
      → r < rows
      → c0 ≤ c1
      → c1 ≤ cols
      → Views cols rows f g
      → Returns (Views cols rows (filled f v r c0 (suc r) c1)) (fill_row cols v c0 c1 r g)
  unfolding fill_row
  fill_row-Views v c0 c1 r f g hr le hc views =
      for_up-Returns (λ k. Views cols rows (filled f v r c0 (suc r) k)) _ (c1 - c0) c0 c1 g
        (omega arith)
        (λ k t lo hi vt.
          Returns-map (write-Views cols rows r k v _ t hr (omega arith) vt)
            λ u w. Views-ext cols rows w λ q c hq hc'. ground arith)
        (Views-ext cols rows views λ q c hq hc'. ground arith)

  -- an empty range too
  pub fill_row-Views_any :
      (v : Cell) (c0 c1 r : ℕ) (f : ℕ → ℕ → Cell) (g : Grid)
      → r < rows
      → c1 ≤ cols
      → Views cols rows f g
      → Returns (Views cols rows (filled f v r c0 (suc r) c1)) (fill_row cols v c0 c1 r g)
  unfolding fill_row for_up
  fill_row-Views_any v c0 c1 r f g hr hc views = elim (Bool-cases (leb c0 c1)) [
    | inl some_ ↦ fill_row-Views v c0 c1 r f g hr (ground arith) hc views
    | inr none_ ↦
        let no_round : c1 - c0 ≡ 0 = ground arith in
        rw no_round (returns (Views-ext cols rows views λ q c hq hc'. ground arith))
  ]

  pub fill_rect-Views :
      (v : Cell) (r0 c0 r1 c1 : ℕ) (f : ℕ → ℕ → Cell) (g : Grid)
      → r0 ≤ r1
      → r1 ≤ rows
      → c0 ≤ c1
      → c1 ≤ cols
      → Views cols rows f g
      → Returns (Views cols rows (filled f v r0 c0 r1 c1)) (fill_rect cols v r0 c0 r1 c1 g)
  unfolding fill_rect
  fill_rect-Views v r0 c0 r1 c1 f g hr hr' hc hc' views =
      for_up-Returns (λ k. Views cols rows (filled f v r0 c0 k c1)) _ (r1 - r0) r0 r1 g
        (omega arith)
        (λ k t lo hi vt.
          Returns-map (fill_row-Views v c0 c1 k _ t (omega arith) hc hc' vt)
            λ u w. Views-ext cols rows w λ q c hq hc''. ground arith)
        (Views-ext cols rows views λ q c hq hc''. ground arith)

  copy_row-Views :
      (r r' : ℕ) (f : ℕ → ℕ → Cell) (g : Grid)
      → r < rows
      → r' < rows
      → r ≢ r'
      → Views cols rows f g
      → Returns (Views cols rows (λ q c. if q == r then f r' c else f q c)) (copy_row cols r r' g)
  unfolding copy_row
  copy_row-Views r r' f g hr hr' ne views =
      Returns-map
        (for_up-Returns (λ k. Views cols rows (row_taken f r r' k)) _ cols 0 cols g (omega arith)
          (λ k t lo hi vt.
            Returns-map (copy-Views cols rows r k r' k _ t hr hi hr' hi vt)
              λ u w. Views-ext cols rows w λ q c hq hc. ground arith)
          (Views-ext cols rows views λ q c hq hc. ground arith))
        λ u w. Views-ext cols rows w λ q c hq hc. ground arith

  pub rows_up-Views :
      (top bot n : ℕ) (f : ℕ → ℕ → Cell) (g : Grid)
      → 0 < n
      → top + n ≤ bot
      → bot ≤ rows
      → Views cols rows f g
      → Returns (Views cols rows (moved_up f top (bot - n) n)) (rows_up cols top bot n g)
  unfolding rows_up
  rows_up-Views top bot n f g pos le hb views =
      for_up-Returns (λ k. Views cols rows (moved_up f top k n)) _ (bot - n - top) top (bot - n) g
        (omega arith)
        (λ k t lo hi vt.
          Returns-map (copy_row-Views k (k + n) _ t (omega arith) (omega arith) (omega arith) vt)
            λ u w. Views-ext cols rows w λ q c hq hc. ground arith)
        (Views-ext cols rows views λ q c hq hc. ground arith)

  pub rows_down-Views :
      (top bot n : ℕ) (f : ℕ → ℕ → Cell) (g : Grid)
      → 0 < n
      → top + n ≤ bot
      → bot ≤ rows
      → Views cols rows f g
      → Returns (Views cols rows (moved_down f (top + n) bot n)) (rows_down cols top bot n g)
  unfolding rows_down
  rows_down-Views top bot n f g pos le hb views =
      for_down-Returns (λ k. Views cols rows (moved_down f k bot n)) _ (bot - (top + n)) (top + n) g
        (λ k t lo hi vt.
          Returns-map (copy_row-Views k (k - n) _ t (omega arith) (omega arith) (omega arith) vt)
            λ u w. Views-ext cols rows w λ q c hq hc. ground arith)
        (Views-ext cols rows views λ q c hq hc. ground arith)

  pub cells_left-Views :
      (row col n : ℕ) (f : ℕ → ℕ → Cell) (g : Grid)
      → row < rows
      → 0 < n
      → col + n ≤ cols
      → Views cols rows f g
      → Returns (Views cols rows (moved_left f row col (cols - n) n)) (cells_left cols row col n g)
  unfolding cells_left
  cells_left-Views row col n f g hr pos le views =
      for_up-Returns (λ k. Views cols rows (moved_left f row col k n)) _ (cols - n - col) col
        (cols - n) g (omega arith)
        (λ k t lo hi vt.
          Returns-map
            (copy-Views cols rows row k row (k + n) _ t hr (omega arith) hr (omega arith) vt)
            λ u w. Views-ext cols rows w λ q c hq hc. ground arith)
        (Views-ext cols rows views λ q c hq hc. ground arith)

  pub cells_right-Views :
      (row col n : ℕ) (f : ℕ → ℕ → Cell) (g : Grid)
      → row < rows
      → 0 < n
      → col + n ≤ cols
      → Views cols rows f g
      → Returns
          (Views cols rows (moved_right f row (col + n) cols n))
          (cells_right cols row col n g)
  unfolding cells_right
  cells_right-Views row col n f g hr pos le views =
      for_down-Returns (λ k. Views cols rows (moved_right f row k cols n)) _ (cols - (col + n))
        (col + n) g
        (λ k t lo hi vt.
          Returns-map
            (copy-Views cols rows row k row (k - n) _ t hr (omega arith) hr (omega arith) vt)
            λ u w. Views-ext cols rows w λ q c hq hc. ground arith)
        (Views-ext cols rows views λ q c hq hc. ground arith)
