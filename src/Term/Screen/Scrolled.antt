-- ===== src/Term/Screen/Scrolled.antt =====
-- What scrolling in screen.cpp leaves on the screen.
use portable_terminal.Base.{
  ℕ, ◌+◌, ◌-◌, ◌≤◌, ◌<◌, ◌≡◌, refl, ap, ◌∙◌, false, ◌&&◌, ◌||◌, arith, ltb, leb, ◌==◌,
  if◌then◌else◌, Bool-cases, inl, inr, Returns, returns, if_Returns, Returns-bind, Returns-map,
}
use portable_terminal.Term.Cell.{Cell}
use portable_terminal.Term.Grid.Loops.{filled, fill_rect-Views}
use portable_terminal.Term.Screen.State.{Page, Screen, with_grid, blank, mark_rect}
use portable_terminal.Term.Screen.Steps.{IsScreen, shown}
use portable_terminal.Term.Screen.Lines.{Draws, shown-Views, lift_lines-Draws, sink_lines-Draws}
use portable_terminal.Term.Screen.Scroll.{clear_cells, scroll_up, scroll_down}

-- `f` says what is on the screen, and the cursor has not moved.
pub record Redraws (s : Screen) (f : ℕ → ℕ → Cell) (t : Screen) : Type 0 where
  pub cells : (r c : ℕ) → r < s.rows → c < s.cols → shown t r c ≡ f r c
  pub same_row : t.page.cursor_row ≡ s.page.cursor_row
  pub same_col : t.page.cursor_col ≡ s.page.cursor_col

mark_rect_keeps :
    (r0 c0 r1 c1 : ℕ) (t : Screen)
    → ((mark_rect r0 c0 r1 c1 t).page ≡ t.page) × ((mark_rect r0 c0 r1 c1 t).cols ≡ t.cols)
unfolding mark_rect
mark_rect_keeps r0 c0 r1 c1 t = elim (Bool-cases (leb r1 r0 || leb c1 c0)) [
  | inl none_ ↦ rw none_ (refl, refl)
  | inr some_ ↦ rw some_ (refl, refl)
]

module _ (s : Screen) (v : IsScreen s) where
  Draws-Redraws :
      (r0 c0 r1 c1 : ℕ) (f f' : ℕ → ℕ → Cell) (t : Screen)
      → Draws s r0 c0 r1 c1 f t
      → ((r c : ℕ) → r < s.rows → c < s.cols → f r c ≡ f' r c)
      → Redraws s f' t
  unfolding shown
  Draws-Redraws r0 c0 r1 c1 f f' t d e =
      let u = with_grid d.grid s in
      let (page, cols) = mark_rect_keeps r0 c0 r1 c1 u in
      let page' : t.page ≡ u.page = ap (λ (x : Screen). x.page) d.marked ∙ page in
      let cols' : t.cols ≡ s.cols = ap (λ (x : Screen). x.cols) d.marked ∙ cols in
      record {
        cells = λ r c hr hc. rw (page', cols') (d.views.cells r c hr hc ∙ e r c hr hc);
        same_row = ap (λ (p : Page). p.cursor_row) page';
        same_col = ap (λ (p : Page). p.cursor_col) page';
      }

  clear_cells-Draws :
      (r0 c0 r1 c1 : ℕ)
      → r0 < r1
      → r1 ≤ s.rows
      → c0 < c1
      → c1 ≤ s.cols
      → Returns
          (Draws s r0 c0 r1 c1 (filled (shown s) (blank s) r0 c0 r1 c1))
          (clear_cells r0 c0 r1 c1 s)
  unfolding clear_cells
  clear_cells-Draws r0 c0 r1 c1 hr hr' hc hc' =
      let some_ : leb r1 r0 || leb c1 c0 ≡ false = ground arith in
      rw some_ (
        Returns-bind
          (fill_rect-Views s.cols s.rows (blank s) r0 c0 r1 c1 (shown s) s.page.grid (omega arith)
            hr' (omega arith) hc' (shown-Views s v))
          λ g w. returns (record { grid = g; marked = refl; views = w }))

  -- In the scroll region each line shows the one n lines below it, or is blank where there is none.
  abbrev pub scrolled_up : ℕ → ℕ → ℕ → Cell
  scrolled_up n r c =
      if leb s.page.scroll_top r && ltb r s.page.scroll_bot
      then (if ltb (r + n) s.page.scroll_bot then shown s (r + n) c else blank s)
      else shown s r c

  abbrev pub scrolled_down : ℕ → ℕ → ℕ → Cell
  scrolled_down n r c =
      if leb s.page.scroll_top r && ltb r s.page.scroll_bot
      then (if leb (s.page.scroll_top + n) r then shown s (r - n) c else blank s)
      else shown s r c

  unmoved :
      (f : ℕ → ℕ → Cell)
      → ((r c : ℕ) → r < s.rows → c < s.cols → shown s r c ≡ f r c)
      → Redraws s f s
  unmoved f h = record { cells = h; same_row = refl; same_col = refl }

module _ (s : Screen) (v : IsScreen s) (n : ℕ) where
  zero_up : n ≡ 0 → (r c : ℕ) → shown s r c ≡ scrolled_up s v n r c
  zero_up h r c = let e : r + n ≡ r = omega arith in rw e (ground arith)

  zero_down : n ≡ 0 → (r c : ℕ) → shown s r c ≡ scrolled_down s v n r c
  zero_down h r c = let e : r - n ≡ r = omega arith in rw e (ground arith)

  -- Scrolling up by n moves the lines of the scroll region up by n and blanks the lines that become
  -- free; all else on the screen, and the cursor, stay.
  pub scroll_up-Redraws : Returns (Redraws s (scrolled_up s v n)) (scroll_up n s)
  unfolding scroll_up
  scroll_up-Redraws =
      let top = s.page.scroll_top in
      let bot = s.page.scroll_bot in
      if_Returns (leb bot top || n == 0)
        (λ h. returns (unmoved s v _ λ r c hr hc. zero_up (ground (arith, v.page_ok.region)) r c))
        λ h.
          if_Returns (leb (bot - top) n)
            (λ g.
              Returns-map
                (clear_cells-Draws s v top 0 bot s.cols v.page_ok.region v.page_ok.region_fits
                  (omega (arith, v.wide_enough)) (omega arith))
                λ t d. Draws-Redraws s v _ _ _ _ _ _ t d λ r c hr hc. ground arith)
            λ g.
              Returns-map (lift_lines-Draws s v top n (ground arith) (ground arith))
                λ t d. Draws-Redraws s v _ _ _ _ _ _ t d λ r c hr hc. ground arith

  -- Scrolling down by n moves the lines of the scroll region down by n and blanks the lines that
  -- become free; all else on the screen, and the cursor, stay.
  pub scroll_down-Redraws : Returns (Redraws s (scrolled_down s v n)) (scroll_down n s)
  unfolding scroll_down
  scroll_down-Redraws =
      let top = s.page.scroll_top in
      let bot = s.page.scroll_bot in
      if_Returns (leb bot top || n == 0)
        (λ h. returns (unmoved s v _ λ r c hr hc. zero_down (ground (arith, v.page_ok.region)) r c))
        λ h.
          if_Returns (leb (bot - top) n)
            (λ g.
              Returns-map
                (clear_cells-Draws s v top 0 bot s.cols v.page_ok.region v.page_ok.region_fits
                  (omega (arith, v.wide_enough)) (omega arith))
                λ t d. Draws-Redraws s v _ _ _ _ _ _ t d λ r c hr hc. ground arith)
            λ g.
              Returns-map (sink_lines-Draws s v top n (ground arith) (ground arith))
                λ t d. Draws-Redraws s v _ _ _ _ _ _ t d λ r c hr hc. ground arith
