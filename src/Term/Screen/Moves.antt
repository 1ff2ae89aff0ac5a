-- ===== src/Term/Screen/Moves.antt =====
-- The operations of screen.cpp that move the cursor: it stays on the screen.
use portable_terminal.Base.{
  ℕ, ◌+◌, ◌-◌, ◌*◌, ◌/◌, ◌<◌, refl, Bool, false, arith, leb, ◌==◌, if◌then◌else◌, min, Bool-cases,
  inl, inr,
}
use portable_terminal.Term.Screen.State.{
  Page, Screen, move_to, set_wrap, place_cursor, carriage_return, backspace, tab, tab_width,
  save_cursor, restore_cursor, u16,
}
use portable_terminal.Term.Screen.Steps.{
  IsPage, IsScreen, Steps, Steps-refl, either_Steps, page-Steps,
}

IsPage-move :
    (cols rows : ℕ) (p : Page) (row col : ℕ) (b : Bool)
    → IsPage cols rows p
    → row < rows
    → col < cols
    → IsPage cols rows (record p { cursor_row = row; cursor_col = col; wrap_pending = b })
IsPage-move cols rows p row col b v hr hc = record {
  size = v.size;
  cursor_row_lt = hr;
  cursor_col_lt = hc;
  region = v.region;
  region_fits = v.region_fits;
}

module _ (s : Screen) (v : IsScreen s) where
  -- The cursor is moved within the screen.
  pub move-Steps :
      (row col : ℕ) (b : Bool)
      → row < s.rows
      → col < s.cols
      → Steps s (set_wrap b (move_to row col s))
  move-Steps row col b hr hc =
      page-Steps s v _ refl (IsPage-move s.cols s.rows s.page row col b v.page_ok hr hc)

  pub set_wrap-Steps : (b : Bool) → Steps s (set_wrap b s)
  set_wrap-Steps b =
      move-Steps s.page.cursor_row s.page.cursor_col b v.page_ok.cursor_row_lt
        v.page_ok.cursor_col_lt

  pub place_cursor-Steps : (row col : ℕ) → Steps s (place_cursor row col s)
  unfolding place_cursor
  place_cursor-Steps row col =
      move-Steps (min row (s.rows - 1)) (min col (s.cols - 1)) false (omega (arith, v.has_row))
        (omega (arith, v.wide_enough))

  pub carriage_return-Steps : Steps s (carriage_return s)
  unfolding carriage_return
  carriage_return-Steps =
      move-Steps s.page.cursor_row 0 false v.page_ok.cursor_row_lt (omega (arith, v.wide_enough))

  pub backspace-Steps : Steps s (backspace s)
  unfolding backspace
  backspace-Steps =
      move-Steps s.page.cursor_row (s.page.cursor_col - 1) false v.page_ok.cursor_row_lt
        (omega (arith, v.page_ok.cursor_col_lt))

  tab_lt : (next : ℕ) → (if leb s.cols next then s.cols - 1 else next) < s.cols
  tab_lt next = ground (arith, v.wide_enough)

  pub tab-Steps : Steps s (tab s)
  unfolding tab
  tab-Steps = elim (Bool-cases (s.cols == 0)) [
    | inl none_ ↦ absurd (ground (arith, v.wide_enough))
    | inr some_ ↦ rw some_ (
        move-Steps s.page.cursor_row _ false v.page_ok.cursor_row_lt
          (tab_lt (u16 ((s.page.cursor_col / tab_width + 1) * tab_width))))
  ]

  pub save_cursor-Steps : Steps s (save_cursor s)
  unfolding save_cursor
  save_cursor-Steps = page-Steps s v _ refl (record {
    size = v.page_ok.size;
    cursor_row_lt = v.page_ok.cursor_row_lt;
    cursor_col_lt = v.page_ok.cursor_col_lt;
    region = v.page_ok.region;
    region_fits = v.page_ok.region_fits;
  })

  pub restore_cursor-Steps : Steps s (restore_cursor s)
  unfolding restore_cursor
  restore_cursor-Steps =
      either_Steps s.page.has_saved
        (λ h. page-Steps s v _ refl (record {
          size = v.page_ok.size;
          cursor_row_lt = omega (arith, v.has_row);
          cursor_col_lt = omega (arith, v.wide_enough);
          region = v.page_ok.region;
          region_fits = v.page_ok.region_fits;
        }))
        λ h. Steps-refl s v
