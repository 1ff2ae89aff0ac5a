-- ===== src/Term/Screen/Lines.antt =====
-- The operations of Term/Screen/Scroll: none leaves the grid, what they leave in it, and what they
-- keep.
use portable_terminal.Base.{
  ℕ, ◌+◌, ◌-◌, ◌≤◌, ◌<◌, ◌≡◌, refl, sym, subst, false, ◌||◌, arith, leb, ◌==◌, Returns, returns,
  if_Returns, Returns-bind, Returns-map,
}
use portable_terminal.Term.Cell.{Cell}
use portable_terminal.Term.Grid.{Grid}
use portable_terminal.Term.Grid.Views.{Views, Views-self}
use portable_terminal.Term.Grid.Loops.{
  in_rect, filled, moved_up, moved_down, fill_rect-Views, rows_up-Views, rows_down-Views,
}
use portable_terminal.Term.Screen.State.{Screen, with_grid, blank, mark_rect}
use portable_terminal.Term.Screen.Steps.{
  IsScreen, shown, Steps, Steps-refl, Steps-bind, mark_rect-Steps,
}
use portable_terminal.Term.Screen.Moves.{move-Steps}
use portable_terminal.Term.Screen.Scroll.{
  clear_cells, lift_lines, sink_lines, scroll_up, scroll_down, limited, is_outside_region,
  to_line_start, insert_lines, delete_lines,
}

-- A rectangle is marked, and the grid holds what `f` says.
pub record Draws (s : Screen) (r0 c0 r1 c1 : ℕ) (f : ℕ → ℕ → Cell) (t : Screen) : Type 0 where
  pub grid : Grid
  pub marked : t ≡ mark_rect r0 c0 r1 c1 (with_grid grid s)
  pub views : Views s.cols s.rows f grid

module _ (s : Screen) (v : IsScreen s) where
  pub shown-Views : Views s.cols s.rows (shown s) s.page.grid
  unfolding shown
  shown-Views = Views-self s.cols s.rows s.page.grid v.page_ok.size

  pub Draws-Steps :
      (r0 c0 r1 c1 : ℕ) (f : ℕ → ℕ → Cell) (t : Screen)
      → r1 ≤ s.rows
      → c1 ≤ s.cols
      → ((r c : ℕ)
          → r < s.rows
          → c < s.cols
          → in_rect r0 c0 r1 c1 r c ≡ false
          → f r c ≡ shown s r c)
      → Draws s r0 c0 r1 c1 f t
      → Steps s t
  Draws-Steps r0 c0 r1 c1 f t hr hc out d =
      subst (Steps s) (sym d.marked) (mark_rect-Steps s v r0 c0 r1 c1 f d.grid hr hc d.views out)

  pub clear_cells-Steps :
      (r0 c0 r1 c1 : ℕ) → r1 ≤ s.rows → c1 ≤ s.cols → Returns (Steps s) (clear_cells r0 c0 r1 c1 s)
  unfolding clear_cells
  clear_cells-Steps r0 c0 r1 c1 hr hc =
      if_Returns (leb r1 r0 || leb c1 c0) (λ h. returns (Steps-refl s v))
        λ h.
          Returns-bind
            (fill_rect-Views s.cols s.rows (blank s) r0 c0 r1 c1 (shown s) s.page.grid
              (ground arith) hr (ground arith) hc shown-Views)
            λ g w. returns (mark_rect-Steps s v r0 c0 r1 c1 _ g hr hc w λ r c hr' hc' out. rw out)

  abbrev pub lifted : ℕ → ℕ → ℕ → ℕ → Cell
  lifted top n =
      filled (moved_up (shown s) top (s.page.scroll_bot - n) n) (blank s) (s.page.scroll_bot - n) 0
        s.page.scroll_bot s.cols

  abbrev pub sunk : ℕ → ℕ → ℕ → ℕ → Cell
  sunk top n =
      filled (moved_down (shown s) (top + n) s.page.scroll_bot n) (blank s) top 0 (top + n) s.cols

  pub lift_lines-Draws :
      (top n : ℕ)
      → 0 < n
      → top + n ≤ s.page.scroll_bot
      → Returns (Draws s top 0 s.page.scroll_bot s.cols (lifted top n)) (lift_lines top n s)
  unfolding lift_lines
  lift_lines-Draws top n pos le =
      let bot = s.page.scroll_bot in
      Returns-bind
        (rows_up-Views s.cols s.rows top bot n (shown s) s.page.grid pos le v.page_ok.region_fits
          shown-Views)
        λ g w.
          Returns-bind
            (fill_rect-Views s.cols s.rows (blank s) (bot - n) 0 bot s.cols _ g (omega arith)
              v.page_ok.region_fits (omega arith) (omega arith) w)
            λ h w'. returns (record { grid = h; marked = refl; views = w' })

  pub sink_lines-Draws :
      (top n : ℕ)
      → 0 < n
      → top + n ≤ s.page.scroll_bot
      → Returns (Draws s top 0 s.page.scroll_bot s.cols (sunk top n)) (sink_lines top n s)
  unfolding sink_lines
  sink_lines-Draws top n pos le =
      let bot = s.page.scroll_bot in
      Returns-bind
        (rows_down-Views s.cols s.rows top bot n (shown s) s.page.grid pos le v.page_ok.region_fits
          shown-Views)
        λ g w.
          Returns-bind
            (fill_rect-Views s.cols s.rows (blank s) top 0 (top + n) s.cols _ g (omega arith)
              (omega (arith, v.page_ok.region_fits)) (omega arith) (omega arith) w)
            λ h w'. returns (record { grid = h; marked = refl; views = w' })

  pub lift_lines-Steps :
      (top n : ℕ) → 0 < n → top + n ≤ s.page.scroll_bot → Returns (Steps s) (lift_lines top n s)
  lift_lines-Steps top n pos le = Returns-map (lift_lines-Draws top n pos le) λ t d.
      Draws-Steps top 0 s.page.scroll_bot s.cols (lifted top n) t v.page_ok.region_fits
        (omega arith) (λ r c hr hc out. ground arith) d

  pub sink_lines-Steps :
      (top n : ℕ) → 0 < n → top + n ≤ s.page.scroll_bot → Returns (Steps s) (sink_lines top n s)
  sink_lines-Steps top n pos le = Returns-map (sink_lines-Draws top n pos le) λ t d.
      Draws-Steps top 0 s.page.scroll_bot s.cols (sunk top n) t v.page_ok.region_fits (omega arith)
        (λ r c hr hc out. ground arith) d

  pub scroll_up-Steps : (n : ℕ) → Returns (Steps s) (scroll_up n s)
  unfolding scroll_up
  scroll_up-Steps n =
      if_Returns (leb s.page.scroll_bot s.page.scroll_top || n == 0) (λ h. returns (Steps-refl s v))
        λ h.
          if_Returns (leb (s.page.scroll_bot - s.page.scroll_top) n)
            (λ g.
              clear_cells-Steps s.page.scroll_top 0 s.page.scroll_bot s.cols v.page_ok.region_fits
                (omega arith))
            λ g. lift_lines-Steps s.page.scroll_top n (ground arith) (ground arith)

  pub scroll_down-Steps : (n : ℕ) → Returns (Steps s) (scroll_down n s)
  unfolding scroll_down
  scroll_down-Steps n =
      if_Returns (leb s.page.scroll_bot s.page.scroll_top || n == 0) (λ h. returns (Steps-refl s v))
        λ h.
          if_Returns (leb (s.page.scroll_bot - s.page.scroll_top) n)
            (λ g.
              clear_cells-Steps s.page.scroll_top 0 s.page.scroll_bot s.cols v.page_ok.region_fits
                (omega arith))
            λ g. sink_lines-Steps s.page.scroll_top n (ground arith) (ground arith)

  to_line_start-Steps : Returns (Steps s) (to_line_start s)
  to_line_start-Steps = returns (
      move-Steps s v s.page.cursor_row 0 false v.page_ok.cursor_row_lt
        (omega (arith, v.wide_enough)))

pub limited_pos : (n room : ℕ) → 0 < room → (0 < limited n room) × (limited n room ≤ room)
limited_pos n room h = ground arith

module _ (s : Screen) (v : IsScreen s) where
  pub insert_lines-Steps : (n : ℕ) → Returns (Steps s) (insert_lines n s)
  unfolding insert_lines
  insert_lines-Steps n =
      if_Returns (is_outside_region s.page) (λ h. returns (Steps-refl s v))
        λ h.
          let row = s.page.cursor_row in
          let (pos, le) = limited_pos n (s.page.scroll_bot - row) (ground arith) in
          Steps-bind
            (sink_lines-Steps s v row (limited n (s.page.scroll_bot - row)) pos (ground arith))
            λ t st. to_line_start-Steps t st.valid

  pub delete_lines-Steps : (n : ℕ) → Returns (Steps s) (delete_lines n s)
  unfolding delete_lines
  delete_lines-Steps n =
      if_Returns (is_outside_region s.page) (λ h. returns (Steps-refl s v))
        λ h.
          let row = s.page.cursor_row in
          let (pos, le) = limited_pos n (s.page.scroll_bot - row) (ground arith) in
          Steps-bind
            (lift_lines-Steps s v row (limited n (s.page.scroll_bot - row)) pos (ground arith))
            λ t st. to_line_start-Steps t st.valid
