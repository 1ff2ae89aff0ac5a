-- ===== src/Term/Screen/Printing.antt =====
-- `put_char` of screen.cpp stays within the grid, and what it keeps.
use portable_terminal.Base.{
  ℕ, ◌+◌, ◌-◌, ◌<◌, ◌≡◌, refl, true, false, not, ◌&&◌, ◌||◌, Option, arith, ltb, leb, ◌==◌, ltb→lt,
  ◌>>=◌, Returns, returns, if_Returns, Returns-bind, Returns-map, Returns-both,
}
use portable_terminal.Term.Cell.{Cell, inked, is_wide_char}
use portable_terminal.Term.Grid.{read}
use portable_terminal.Term.Grid.Views.{write-Views, read-Views}
use portable_terminal.Term.Screen.State.{Screen, move_to, set_wrap, blank, u16}
use portable_terminal.Term.Screen.Steps.{
  IsScreen, shown, Steps, Steps-refl, Steps-trans, Steps-bind, either_Steps, mark_rect-Steps,
}
use portable_terminal.Term.Screen.Moves.{move-Steps, set_wrap-Steps}
use portable_terminal.Term.Screen.Lines.{shown-Views}
use portable_terminal.Term.Screen.Scrolled.{scroll_up-Redraws}
use portable_terminal.Term.Screen.Chars.{u16_next, line_feed-Steps}
use portable_terminal.Term.Screen.Erase.{line_feed}
use portable_terminal.Term.Screen.Print.{
  draw, strip_next, strip_prev, clear_orphan_pair, head_of, cont_of, put_wide, put_narrow,
  wrap_line, put_here, put_char,
}

module _ (s : Screen) (v : IsScreen s) where
  pub draw-Steps :
      (row col : ℕ) (c : Cell) → row < s.rows → col < s.cols → Returns (Steps s) (draw row col c s)
  unfolding draw
  draw-Steps row col c hr hc =
      let below = u16_next row s.rows hr v.rows_fit in
      let right = u16_next col s.cols hc v.cols_fit in
      Returns-bind
        (write-Views s.cols s.rows row col c (shown s) s.page.grid hr hc (shown-Views s v))
        λ g w. returns (
          mark_rect-Steps s v row col (u16 (row + 1)) (u16 (col + 1)) _ g (omega (arith, below))
            (omega (arith, right)) w λ q d hq hd out. ground (arith, below, right))

  -- A cell of the screen is read.
  read-Steps :
      (row col : ℕ) (f : Cell → Option Screen)
      → row < s.rows
      → col < s.cols
      → ((c : Cell) → Returns (Steps s) (f c))
      → Returns (Steps s) (read s.cols row col s.page.grid >>= f)
  read-Steps row col f hr hc k =
      rw (read-Views s.cols s.rows row col (shown s) s.page.grid hr hc (shown-Views s v))
        (k (shown s row col))

  strip_next-Steps :
      (row col : ℕ) (fill victim : Cell)
      → row < s.rows
      → Returns (Steps s) (strip_next row col fill victim s)
  unfolding strip_next
  strip_next-Steps row col fill victim hr =
      if_Returns (victim.attrs.wide && ltb (col + 1) s.cols)
        (λ h.
          let lt : u16 (col + 1) < s.cols = ground (arith, v.cols_fit) in
          read-Steps row (u16 (col + 1)) _ hr lt λ next.
            if_Returns next.attrs.wide_cont (λ g. draw-Steps row (u16 (col + 1)) fill hr lt)
              λ g. returns (Steps-refl s v))
        λ h. returns (Steps-refl s v)

  strip_prev-Steps :
      (row col : ℕ) (fill victim : Cell)
      → row < s.rows
      → col < s.cols
      → Returns (Steps s) (strip_prev row col fill victim s)
  unfolding strip_prev
  strip_prev-Steps row col fill victim hr hc =
      if_Returns (victim.attrs.wide_cont && ltb 0 col)
        (λ h. read-Steps row (col - 1) _ hr (omega arith) λ prev.
          if_Returns prev.attrs.wide (λ g. draw-Steps row (col - 1) fill hr (omega arith))
            λ g. returns (Steps-refl s v))
        λ h. returns (Steps-refl s v)

module _ (s : Screen) (v : IsScreen s) where
  pub clear_orphan_pair-Steps :
      (row col : ℕ) (fill : Cell)
      → row < s.rows
      → Returns (Steps s) (clear_orphan_pair row col fill s)
  unfolding clear_orphan_pair
  clear_orphan_pair-Steps row col fill hr =
      if_Returns (leb s.cols col) (λ h. returns (Steps-refl s v))
        λ h.
          let hc : col < s.cols = ground arith in
          read-Steps s v row col _ hr hc λ victim.
            Steps-bind (strip_next-Steps s v row col fill victim hr) λ t st.
              strip_prev-Steps t st.valid row col fill victim (omega (arith, st.same_rows))
                (omega (arith, st.same_cols))

module _ (s : Screen) (v : IsScreen s) where
  put_narrow-Steps : (ch : ℕ) → Returns (Steps s) (put_narrow ch s)
  unfolding put_narrow
  put_narrow-Steps ch =
      let row = s.page.cursor_row in
      let col = s.page.cursor_col in
      let hr = v.page_ok.cursor_row_lt in
      let hc = v.page_ok.cursor_col_lt in
      Steps-bind (clear_orphan_pair-Steps s v row col (blank s) hr) λ s1 st1.
        Steps-bind
          (draw-Steps s1 st1.valid row col (inked ch s.page.pen) (omega (arith, st1.same_rows))
            (omega (arith, st1.same_cols)))
          λ s2 st2.
            let sizes = Steps-trans st1 st2 in
            returns (
              either_Steps (ltb (col + 1) s2.cols)
                (λ h.
                  move-Steps s2 st2.valid row (col + 1) s2.page.wrap_pending
                    (omega (arith, sizes.same_rows)) (ltb→lt _ _ h))
                λ h.
                  either_Steps s2.autowrap (λ g. set_wrap-Steps s2 st2.valid true)
                    λ g. Steps-refl s2 st2.valid)

  put_wide-Steps : (ch : ℕ) → s.page.cursor_col + 1 < s.cols → Returns (Steps s) (put_wide ch s)
  unfolding put_wide
  put_wide-Steps ch room =
      let row = s.page.cursor_row in
      let col = s.page.cursor_col in
      let hr = v.page_ok.cursor_row_lt in
      let right = u16_next col s.cols v.page_ok.cursor_col_lt v.cols_fit in
      Steps-bind (clear_orphan_pair-Steps s v row col (blank s) hr) λ s1 st1.
        Steps-bind
          (clear_orphan_pair-Steps s1 st1.valid row (u16 (col + 1)) (blank s)
            (omega (arith, st1.same_rows)))
          λ s2 st2.
            let to2 = Steps-trans st1 st2 in
            Steps-bind
              (draw-Steps s2 st2.valid row col (head_of (inked ch s.page.pen))
                (omega (arith, to2.same_rows)) (omega (arith, to2.same_cols)))
              λ s3 st3.
                let to3 = Steps-trans to2 st3 in
                Steps-bind
                  (draw-Steps s3 st3.valid row (u16 (col + 1)) (cont_of (blank s))
                    (omega (arith, to3.same_rows)) (omega (arith, to3.same_cols, right)))
                  λ s4 st4.
                    let to4 = Steps-trans to3 st4 in
                    let hr4 : row < s4.rows = omega (arith, to4.same_rows) in
                    let hc4 : u16 (col + 1) < s4.cols = omega (arith, to4.same_cols, right) in
                    returns (
                      either_Steps (ltb (col + 2) s4.cols)
                        (λ h.
                          move-Steps s4 st4.valid row (u16 (col + 2)) s4.page.wrap_pending hr4
                            (ground (arith, st4.valid.cols_fit)))
                        λ h.
                          either_Steps s4.autowrap
                            (λ g. move-Steps s4 st4.valid row (u16 (col + 1)) true hr4 hc4)
                            λ g.
                              move-Steps s4 st4.valid row (u16 (col + 1)) s4.page.wrap_pending hr4
                                hc4)

  -- A line feed leaves the column alone.
  line_feed-col : Returns (λ t. t.page.cursor_col ≡ s.page.cursor_col) (line_feed s)
  unfolding line_feed
  line_feed-col =
      let row = s.page.cursor_row in
      if_Returns (ltb (row + 1) s.page.scroll_bot) (λ h. returns refl)
        λ h.
          if_Returns (row + 1 == s.page.scroll_bot)
            (λ g.
              Returns-map (scroll_up-Redraws (set_wrap false s) (set_wrap-Steps s v false).valid 1)
                λ t d. d.same_col)
            λ h. if_Returns (ltb (row + 1) s.rows) (λ g. returns refl) λ g. returns refl

module _ (s : Screen) (v : IsScreen s) where
  wrap_line-Steps : Returns (λ t. Steps s t × (t.page.cursor_col ≡ 0)) (wrap_line s)
  unfolding wrap_line
  wrap_line-Steps =
      let start =
        move-Steps s v s.page.cursor_row 0 s.page.wrap_pending v.page_ok.cursor_row_lt
          (omega (arith, v.wide_enough)) in
      let t = move_to s.page.cursor_row 0 s in
      Returns-map (Returns-both (line_feed-Steps t start.valid) (line_feed-col t start.valid))
        λ u (st, col). (Steps-trans start st, col)

module _ (s : Screen) (v : IsScreen s) where
  put_here-Steps : (ch : ℕ) → Returns (Steps s) (put_here ch s)
  unfolding put_here
  put_here-Steps ch =
      if_Returns (is_wide_char ch)
        (λ w.
          if_Returns (leb s.cols (s.page.cursor_col + 1))
            (λ full.
              if_Returns (not s.autowrap) (λ h. returns (Steps-refl s v))
                λ h. Returns-bind (wrap_line-Steps s v) λ t (st, at_start).
                  Returns-map (put_wide-Steps t st.valid ch (omega (arith, st.valid.wide_enough)))
                    λ u tu. Steps-trans st tu)
            λ room. put_wide-Steps s v ch (ground arith))
        λ w. put_narrow-Steps s v ch

module _ (s : Screen) (v : IsScreen s) where
  pub put_char-Steps : (ch : ℕ) → Returns (Steps s) (put_char ch s)
  unfolding put_char
  put_char-Steps ch =
      if_Returns (s.cols == 0 || s.rows == 0) (λ h. returns (Steps-refl s v))
        λ h.
          if_Returns s.page.wrap_pending
            (λ g. Returns-bind (wrap_line-Steps s v) λ t (st, _).
              Returns-map
                (put_here-Steps (set_wrap false t) (set_wrap-Steps t st.valid false).valid ch)
                λ u tu. Steps-trans (Steps-trans st (set_wrap-Steps t st.valid false)) tu)
            λ g. put_here-Steps s v ch
