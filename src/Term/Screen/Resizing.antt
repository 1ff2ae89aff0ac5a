-- ===== src/Term/Screen/Resizing.antt =====
-- `Screen::resize` of screen.cpp.
use portable_terminal.Base.{
  ℕ, zero, suc, ◌*◌, ◌≤◌, ◌<◌, ◌^◌, ◌≡◌, refl, sym, ◌∙◌, true, false, ◌&&◌, ◌||◌, arith, ltb, leb,
  ◌==◌, if◌then◌else◌, if-true, if_Returns, length, get_or, replicate, length-replicate, min,
  Returns, returns, Returns-bind, Returns-map, for_up-Returns,
}
use portable_terminal.Term.Cell.{Cell, empty_cell, no_damage}
use portable_terminal.Term.Grid.{Grid, index}
use portable_terminal.Term.Grid.Views.{at, Views, Views-ext, read-Views, write-Views}
use portable_terminal.Term.Screen.State.{Screen, mark_all, mark_rect}
use portable_terminal.Term.Screen.Steps.{IsScreen, shown, is_damaged, mark_all-Steps}
use portable_terminal.Term.Screen.Lines.{shown-Views}
use portable_terminal.Term.Screen.Pages.{copy_rect, clamp, resized, blanked, resize}

abbrev kept_part : ℕ → ℕ → (ℕ → ℕ → Cell) → (ℕ → ℕ → Cell) → ℕ → ℕ → Cell
kept_part m n f f' r c = if ltb r m && ltb c n then f r c else f' r c

-- a row of it up to column k
abbrev kept_row : ℕ → ℕ → (ℕ → ℕ → Cell) → (ℕ → ℕ → Cell) → ℕ → ℕ → Cell
kept_row row k f f' r c = if r == row && ltb c k then f r c else f' r c

copy_rect-Views :
    (cols rows cols' rows' m n : ℕ) (f f' : ℕ → ℕ → Cell) (old g : Grid)
    → m ≤ rows
    → n ≤ cols
    → m ≤ rows'
    → n ≤ cols'
    → Views cols rows f old
    → Views cols' rows' f' g
    → Returns (Views cols' rows' (kept_part m n f f')) (copy_rect cols cols' m n old g)
unfolding copy_rect
copy_rect-Views cols rows cols' rows' m n f f' old g hm hn hm' hn' from to =
    for_up-Returns (λ k. Views cols' rows' (kept_part k n f f')) _ m 0 m g (omega arith)
      (λ row t lo hi vt.
        Returns-map
          (for_up-Returns (λ k. Views cols' rows' (kept_row row k f (kept_part row n f f'))) _ n 0 n
            t (omega arith)
            (λ col u lo' hi' vu.
              rw (read-Views cols rows row col f old (omega arith) (omega arith) from) (
                Returns-map
                  (write-Views cols' rows' row col (f row col) _ u (omega arith) (omega arith) vu)
                  λ w vw. Views-ext cols' rows' vw λ r c hr hc. ground arith))
            (Views-ext cols' rows' vt λ r c hr hc. ground arith))
          λ u vu. Views-ext cols' rows' vu λ r c hr hc. ground arith)
      (Views-ext cols' rows' to λ r c hr hc. ground arith)

pub get_or-replicate : (n i : ℕ) (c : Cell) → get_or (replicate n c) i c ≡ c
get_or-replicate zero i c = refl
get_or-replicate (suc n) zero c = refl
get_or-replicate (suc n) (suc i) c = get_or-replicate n i c

empty-Views :
    (cols rows : ℕ) → Views cols rows (λ r c. empty_cell) (replicate (rows * cols) empty_cell)
unfolding at
empty-Views cols rows = record {
  size = length-replicate (rows * cols) empty_cell;
  cells = λ r c hr hc. get_or-replicate (rows * cols) (index cols r c) empty_cell;
}

-- What is left of `s` on a screen of `rows` rows of `cols` cells.
pub record Resizes (cols rows : ℕ) (s t : Screen) : Type 0 where
  pub valid : IsScreen t
  pub has_cols : t.cols ≡ cols
  pub has_rows : t.rows ≡ rows
  pub cells :
      (r c : ℕ)
      → r < rows
      → c < cols
      → shown t r c ≡ (if ltb r s.rows && ltb c s.cols then shown s r c else empty_cell)
  pub damaged : (r c : ℕ) → r < rows → c < cols → is_damaged t.damage r c ≡ false → t ≡ s

clamp_lt : (v size : ℕ) → 0 < size → clamp v size < size
clamp_lt v size h = ground arith

module _ (cols rows : ℕ) (s : Screen) (v : IsScreen s) (wide : 2 ≤ cols) (cols_fit : cols < 2 ^ 16)
    (row : 0 < rows) (rows_fit : rows < 2 ^ 16) where
  -- the screen before it is marked
  abbrev unmarked : Grid → Screen
  unmarked g = record s {
    cols = cols;
    rows = rows;
    page = resized cols rows g s.page;
    backup = blanked cols rows s.backup;
    damage = no_damage;
  }

  unmarked-IsScreen : (g : Grid) → length g ≡ rows * cols → IsScreen (unmarked g)
  unmarked-IsScreen g size = record {
    wide_enough = wide;
    cols_fit = cols_fit;
    has_row = row;
    rows_fit = rows_fit;
    page_ok = record {
      size = size;
      cursor_row_lt = clamp_lt s.page.cursor_row rows row;
      cursor_col_lt = clamp_lt s.page.cursor_col cols (omega arith);
      region = row;
      region_fits = omega arith;
    };
    backup_ok = record {
      size = length-replicate (rows * cols) empty_cell;
      cursor_row_lt = row;
      cursor_col_lt = omega arith;
      region = row;
      region_fits = omega arith;
    };
    damage_rows = omega arith;
    damage_cols = omega arith;
  }

  marked-Resizes :
      (g : Grid)
      → Views cols rows
          (kept_part (min s.rows rows) (min s.cols cols) (shown s) (λ r c. empty_cell))
          g
      → Resizes cols rows s (mark_all (unmarked g))
  unfolding mark_rect shown
  marked-Resizes g views =
      let u = unmarked g in
      let u_ok = unmarked-IsScreen g views.size in
      let st = mark_all-Steps u u_ok u refl refl u_ok in
      let some_ : leb rows 0 || leb cols 0 ≡ false = ground arith in
      let marked = rw some_ at st in
      rw some_ (record {
        valid = marked.valid;
        has_cols = refl;
        has_rows = refl;
        cells = λ r c hr hc. views.cells r c hr hc ∙ kept_where r c hr hc;
        damaged = λ r c hr hc out. absurd (ground arith);
      })
    where
      kept_where :
          (r c : ℕ)
          → r < rows
          → c < cols
          → kept_part (min s.rows rows) (min s.cols cols) (shown s) (λ q d. empty_cell) r c
            ≡ (if ltb r s.rows && ltb c s.cols then shown s r c else empty_cell)
      kept_where r c hr hc = ground arith

  -- Resizing keeps the cells that both sizes have and makes the others empty; the screen is well
  -- formed, and wholly damaged unless nothing has changed.
  pub resize_keeps : Returns (Resizes cols rows s) (resize cols rows s)
  unfolding resize
  resize_keeps =
      if_Returns (cols == 0 || rows == 0) (λ h. absurd (ground arith))
        λ h.
          if_Returns (cols == s.cols && rows == s.rows)
            (λ same. returns (record {
              valid = v;
              has_cols = ground arith;
              has_rows = ground arith;
              cells = λ r c hr hc.
                  let inside : ltb r s.rows && ltb c s.cols ≡ true = ground arith in
                  sym (if-true _ _ inside);
              damaged = λ r c hr hc out. refl;
            }))
            λ other.
              Returns-bind
                (copy_rect-Views s.cols s.rows cols rows (min s.rows rows) (min s.cols cols)
                  (shown s) (λ r c. empty_cell) s.page.grid _ (omega arith) (omega arith)
                  (omega arith) (omega arith) (shown-Views s v) (empty-Views cols rows))
                λ g w. returns (marked-Resizes g w)
