-- ===== src/Term/Screen/Pages.antt =====
-- The alternate screen, the reset and the resizing in screen.cpp.
use portable_terminal.Base.{
  ℕ, ◌-◌, ◌*◌, true, false, ◌||◌, ◌&&◌, Option, some, leb, ◌==◌, if◌then◌else◌, min, replicate,
  length, ◌>>=◌, for_up,
}
use portable_terminal.Term.Cell.{default_pen, empty_cell, no_damage}
use portable_terminal.Term.Grid.{Grid, read, write}
use portable_terminal.Term.Screen.State.{Page, Screen, mark_all}

-- `std::fill(grid_.begin(), grid_.end(), Cell{})`
abbrev pub emptied : Grid → Grid
emptied g = replicate (length g) empty_cell

abbrev pub swap_with_backup : Screen → Screen
swap_with_backup s = record s { page = s.backup; backup = s.page }

-- the stores that `reset` and `enter_alt_screen` make in a page
abbrev pub fresh_page : ℕ → Page → Page
fresh_page rows p = record p {
  grid = emptied p.grid;
  cursor_row = 0;
  cursor_col = 0;
  wrap_pending = false;
  scroll_top = 0;
  scroll_bot = rows;
  pen = default_pen;
  has_saved = false;
}

unfoldable pub reset : Screen → Screen
reset s =
    mark_all (record s { page = fresh_page s.rows s.page; autowrap = true; cursor_visible = true })

unfoldable pub enter_alt_screen : Screen → Screen
enter_alt_screen s =
    if s.alt_active
    then s
    else (let t = swap_with_backup s in
        mark_all (record t { page = fresh_page t.rows t.page; alt_active = true }))

unfoldable pub exit_alt_screen : Screen → Screen
exit_alt_screen s =
    if s.alt_active then mark_all (record (swap_with_backup s) { alt_active = false }) else s

-- the loops of `resize`
unfoldable pub copy_rect : ℕ → ℕ → ℕ → ℕ → Grid → Grid → Option Grid
copy_rect cols new_cols copy_rows copy_cols old g =
    for_up copy_rows 0
      (λ r. for_up copy_cols 0 (λ c h. read cols r c old >>= λ v. write new_cols r c v h)) g

abbrev pub clamp : ℕ → ℕ → ℕ
clamp v size = if leb size v then size - 1 else v

-- the stores that `resize` makes in the page shown
abbrev pub resized : ℕ → ℕ → Grid → Page → Page
resized cols rows g p = record p {
  grid = g;
  cursor_row = clamp p.cursor_row rows;
  cursor_col = clamp p.cursor_col cols;
  wrap_pending = false;
  scroll_top = 0;
  scroll_bot = rows;
  saved_row = if p.has_saved then clamp p.saved_row rows else p.saved_row;
  saved_col = if p.has_saved then clamp p.saved_col cols else p.saved_col;
}

-- the stores that `resize` makes in the backup
abbrev pub blanked : ℕ → ℕ → Page → Page
blanked cols rows p = record p {
  grid = replicate (rows * cols) empty_cell;
  cursor_row = 0;
  cursor_col = 0;
  wrap_pending = false;
  scroll_top = 0;
  scroll_bot = rows;
  has_saved = false;
}

unfoldable pub resize : ℕ → ℕ → Screen → Option Screen
resize new_cols new_rows s =
    if new_cols == 0 || new_rows == 0
    then some s
    else if new_cols == s.cols && new_rows == s.rows
    then some s
    else (do
      g ←
          copy_rect s.cols new_cols (min s.rows new_rows) (min s.cols new_cols) s.page.grid
            (replicate (new_rows * new_cols) empty_cell)
      some (
          mark_all (record s {
            cols = new_cols;
            rows = new_rows;
            page = resized new_cols new_rows g s.page;
            backup = blanked new_cols new_rows s.backup;
            damage = no_damage;
          })))
