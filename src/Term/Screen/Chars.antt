-- ===== src/Term/Screen/Chars.antt =====
-- The operations of screen.cpp on the characters of a line, the erasing, and the line feeds.
use portable_terminal.Base.{
  ℕ, suc, ◌+◌, ◌-◌, ◌^◌, ◌≤◌, ◌<◌, ◌≡◌, refl, sym, subst, Bool, true, false, ◌||◌, arith, ltb, leb,
  ◌==◌, if◌then◌else◌, min, ltb→lt, Returns, returns, if_Returns, Returns-bind, Returns-map,
}
use portable_terminal.Term.Cell.{Cell}
use portable_terminal.Term.Grid.{Grid}
use portable_terminal.Term.Grid.Views.{Views}
use portable_terminal.Term.Grid.Loops.{
  in_rect, fill_row-Views, fill_row-Views_any, cells_left-Views, cells_right-Views,
}
use portable_terminal.Term.Screen.State.{
  Screen, with_grid, set_wrap, blank, mark_rect, mark_range, u16,
}
use portable_terminal.Term.Screen.Steps.{
  IsScreen, shown, Steps, Steps-refl, Steps-trans, Steps-bind, mark_rect-Steps,
}
use portable_terminal.Term.Screen.Moves.{move-Steps, set_wrap-Steps}
use portable_terminal.Term.Screen.Lines.{
  shown-Views, limited_pos, clear_cells-Steps, scroll_up-Steps, scroll_down-Steps,
}
use portable_terminal.Term.Screen.Scroll.{limited, insert_chars, delete_chars, erase_chars}
use portable_terminal.Term.Screen.Erase.{line_feed, reverse_index, erase_display, erase_line}

lt_of_ltb : (a b c : ℕ) → ltb a b ≡ true → b ≤ c → a < c
lt_of_ltb a b c h le = ground arith

pub u16_next : (n m : ℕ) → n < m → m < 2 ^ 16 → u16 (n + 1) ≡ n + 1
u16_next n m h h' = omega arith

second_test :
    (a b : Bool) (t u : Screen)
    → (if b then t else if a || b then t else u) ≡ (if a || b then t else u)
second_test a false t u = refl
second_test true true t u = refl
second_test false true t u = refl

mark_range-mark_rect :
    (row c0 c1 : ℕ) (t : Screen) → mark_range row c0 c1 t ≡ mark_rect row c0 (u16 (row + 1)) c1 t
unfolding mark_rect
mark_range-mark_rect row c0 c1 t = second_test (leb (u16 (row + 1)) row) (leb c1 c0) t _

module _ (s : Screen) (v : IsScreen s) where
  -- the part of the cursor's row from column `col` to `end` is drawn anew
  row-Steps :
      (col end : ℕ) (f : ℕ → ℕ → Cell) (g : Grid)
      → end ≤ s.cols
      → Views s.cols s.rows f g
      → ((r c : ℕ)
          → r < s.rows
          → c < s.cols
          → in_rect s.page.cursor_row col (suc s.page.cursor_row) end r c ≡ false
          → f r c ≡ shown s r c)
      → Steps s (set_wrap false (mark_range s.page.cursor_row col end (with_grid g s)))
  row-Steps col end f g he views out =
      let row = s.page.cursor_row in
      let below = u16_next row s.rows v.page_ok.cursor_row_lt v.rows_fit in
      let marked =
        mark_rect-Steps s v row col (u16 (row + 1)) end f g
          (omega (arith, below, v.page_ok.cursor_row_lt)) he views
          λ r c hr hc o. out r c hr hc (ground (arith, below)) in
      let st = subst (Steps s) (sym (mark_range-mark_rect row col end (with_grid g s))) marked in
      Steps-trans st (set_wrap-Steps _ st.valid false)

  pub insert_chars-Steps : (n : ℕ) → Returns (Steps s) (insert_chars n s)
  unfolding insert_chars
  insert_chars-Steps n =
      if_Returns (leb s.cols s.page.cursor_col) (λ h. returns (Steps-refl s v))
        λ h.
          let row = s.page.cursor_row in
          let col = s.page.cursor_col in
          let count = limited n (s.cols - col) in
          let (pos, le) = limited_pos n (s.cols - col) (ground arith) in
          Returns-bind
            (cells_right-Views s.cols s.rows row col count (shown s) s.page.grid
              v.page_ok.cursor_row_lt pos (omega (arith, v.page_ok.cursor_col_lt))
              (shown-Views s v))
            λ g w.
              Returns-bind
                (fill_row-Views s.cols s.rows (blank s) col (col + count) row _ g
                  v.page_ok.cursor_row_lt (omega arith) (omega (arith, v.page_ok.cursor_col_lt)) w)
                λ k w'.
                  returns (row-Steps col s.cols _ k (omega arith) w' λ r c hr hc out. ground arith)

  pub delete_chars-Steps : (n : ℕ) → Returns (Steps s) (delete_chars n s)
  unfolding delete_chars
  delete_chars-Steps n =
      if_Returns (leb s.cols s.page.cursor_col) (λ h. returns (Steps-refl s v))
        λ h.
          let row = s.page.cursor_row in
          let col = s.page.cursor_col in
          let count = limited n (s.cols - col) in
          let (pos, le) = limited_pos n (s.cols - col) (ground arith) in
          Returns-bind
            (cells_left-Views s.cols s.rows row col count (shown s) s.page.grid
              v.page_ok.cursor_row_lt pos (omega (arith, v.page_ok.cursor_col_lt))
              (shown-Views s v))
            λ g w.
              Returns-bind
                (fill_row-Views s.cols s.rows (blank s) (s.cols - count) s.cols row _ g
                  v.page_ok.cursor_row_lt (omega arith) (omega arith) w)
                λ k w'.
                  returns (row-Steps col s.cols _ k (omega arith) w' λ r c hr hc out. ground arith)

  pub erase_chars-Steps : (n : ℕ) → Returns (Steps s) (erase_chars n s)
  unfolding erase_chars
  erase_chars-Steps n =
      if_Returns (leb s.cols s.page.cursor_col) (λ h. returns (Steps-refl s v))
        λ h.
          let col = s.page.cursor_col in
          let end = min (u16 (col + (if n == 0 then 1 else n))) s.cols in
          Returns-bind
            (fill_row-Views_any s.cols s.rows (blank s) col end s.page.cursor_row (shown s)
              s.page.grid v.page_ok.cursor_row_lt (omega arith) (shown-Views s v))
            λ k w. returns (row-Steps col end _ k (omega arith) w λ r c hr hc out. rw out)

  row_next : u16 (s.page.cursor_row + 1) ≡ s.page.cursor_row + 1
  row_next = u16_next s.page.cursor_row s.rows v.page_ok.cursor_row_lt v.rows_fit

  row_next_le : u16 (s.page.cursor_row + 1) ≤ s.rows
  row_next_le = omega (arith, row_next, v.page_ok.cursor_row_lt)

  col_next_le : u16 (s.page.cursor_col + 1) ≤ s.cols
  col_next_le = omega (
    arith,
    u16_next s.page.cursor_col s.cols v.page_ok.cursor_col_lt v.cols_fit,
    v.page_ok.cursor_col_lt,
  )

  pub erase_line-Steps : (mode : ℕ) → Returns (Steps s) (erase_line mode s)
  unfolding erase_line
  erase_line-Steps mode =
      let row = s.page.cursor_row in
      if_Returns (mode == 0)
        (λ h.
          clear_cells-Steps s v row s.page.cursor_col (u16 (row + 1)) s.cols row_next_le
            (omega arith))
        λ h.
          if_Returns (mode == 1)
            (λ h.
              clear_cells-Steps s v row 0 (u16 (row + 1)) (u16 (s.page.cursor_col + 1)) row_next_le
                col_next_le)
            λ h.
              if_Returns (mode == 2)
                (λ h. clear_cells-Steps s v row 0 (u16 (row + 1)) s.cols row_next_le (omega arith))
                λ h. returns (Steps-refl s v)

module _ (s : Screen) (v : IsScreen s) where
  pub line_feed-Steps : Returns (Steps s) (line_feed s)
  unfolding line_feed
  line_feed-Steps =
      let row = s.page.cursor_row in
      let col = s.page.cursor_col in
      let quiet = set_wrap-Steps s v false in
      let down = λ (h : row + 1 < s.rows).
        Steps-trans quiet (
          move-Steps (set_wrap false s) quiet.valid (row + 1) col false h
            v.page_ok.cursor_col_lt) in
      if_Returns (ltb (row + 1) s.page.scroll_bot)
        (λ h. returns (down (lt_of_ltb _ _ _ h v.page_ok.region_fits)))
        λ h.
          if_Returns (row + 1 == s.page.scroll_bot)
            (λ h.
              Returns-map (scroll_up-Steps (set_wrap false s) quiet.valid 1)
                λ t st. Steps-trans quiet st)
            λ h.
              if_Returns (ltb (row + 1) s.rows) (λ h. returns (down (ltb→lt _ _ h)))
                λ h. returns quiet

  pub reverse_index-Steps : Returns (Steps s) (reverse_index s)
  unfolding reverse_index
  reverse_index-Steps =
      let row = s.page.cursor_row in
      let col = s.page.cursor_col in
      let quiet = set_wrap-Steps s v false in
      let up = Steps-trans quiet (
        move-Steps (set_wrap false s) quiet.valid (row - 1) col false
          (omega (arith, v.page_ok.cursor_row_lt)) v.page_ok.cursor_col_lt) in
      if_Returns (ltb s.page.scroll_top row) (λ h. returns up)
        λ h.
          if_Returns (row == s.page.scroll_top)
            (λ h.
              Returns-map (scroll_down-Steps (set_wrap false s) quiet.valid 1)
                λ t st. Steps-trans quiet st)
            λ h. if_Returns (ltb 0 row) (λ h. returns up) λ h. returns quiet

  pub erase_display-Steps : (mode : ℕ) → Returns (Steps s) (erase_display mode s)
  unfolding erase_display
  erase_display-Steps mode =
      let row = s.page.cursor_row in
      let col = s.page.cursor_col in
      if_Returns (mode == 0)
        (λ h.
          Steps-bind
            (clear_cells-Steps s v row col (u16 (row + 1)) s.cols (row_next_le s v) (omega arith))
            λ t st.
              if_Returns (ltb (row + 1) t.rows)
                (λ h.
                  clear_cells-Steps t st.valid (u16 (row + 1)) 0 t.rows t.cols (omega arith)
                    (omega arith))
                λ h. returns (Steps-refl t st.valid))
        λ h.
          if_Returns (mode == 1)
            (λ h.
              Steps-bind
                (if_Returns (ltb 0 row)
                  (λ h.
                    clear_cells-Steps s v 0 0 row s.cols (omega (arith, v.page_ok.cursor_row_lt))
                      (omega arith))
                  λ h. returns (Steps-refl s v))
                λ t st.
                  clear_cells-Steps t st.valid row 0 (u16 (row + 1)) (u16 (col + 1))
                    (omega (arith, st.same_rows, row_next_le s v))
                    (omega (arith, st.same_cols, col_next_le s v)))
            λ h.
              if_Returns (mode == 2 || mode == 3)
                (λ h. clear_cells-Steps s v 0 0 s.rows s.cols (omega arith) (omega arith))
                λ h. returns (Steps-refl s v)
