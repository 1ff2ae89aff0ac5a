-- ===== src/Term/Screen/Steps.antt =====
-- What every operation of the screen keeps: its invariant, and the damage that accounts for each
-- cell that is not as it was.
use portable_terminal.Base.{
  ℕ, ◌*◌, ◌^◌, ◌≤◌, ◌<◌, ◌≡◌, refl, ap, ◌∙◌, Bool, true, false, ◌||◌, Option, arith, leb,
  if◌then◌else◌, length, Bool-cases, inl, inr, ◌>>=◌, Returns, Returns-bind, Returns-map,
}
use portable_terminal.Term.Cell.{Cell, DamageRect}
use portable_terminal.Term.Grid.{Grid}
use portable_terminal.Term.Grid.Views.{at, Views}
use portable_terminal.Term.Grid.Loops.{in_rect}
use portable_terminal.Term.Screen.State.{Page, Screen, with_grid, joined_rect, mark_rect, mark_all}

-- a page of a screen with `rows` rows of `cols` cells
pub record IsPage (cols rows : ℕ) (p : Page) : Type 0 where
  pub size : length p.grid ≡ rows * cols
  pub cursor_row_lt : p.cursor_row < rows
  pub cursor_col_lt : p.cursor_col < cols
  pub region : p.scroll_top < p.scroll_bot
  pub region_fits : p.scroll_bot ≤ rows

-- The screen has at least two columns and one row, as many as a `uint16_t` counts at most, and all
-- positions that it keeps lie within.
pub record IsScreen (s : Screen) : Type 0 where
  pub wide_enough : 2 ≤ s.cols
  pub cols_fit : s.cols < 2 ^ 16
  pub has_row : 0 < s.rows
  pub rows_fit : s.rows < 2 ^ 16
  pub page_ok : IsPage s.cols s.rows s.page
  pub backup_ok : IsPage s.cols s.rows s.backup
  pub damage_rows : s.damage.row1 ≤ s.rows
  pub damage_cols : s.damage.col1 ≤ s.cols

unfoldable pub shown : Screen → ℕ → ℕ → Cell
shown s = at s.cols s.page.grid

abbrev pub is_damaged : DamageRect → ℕ → ℕ → Bool
is_damaged d = in_rect d.row0 d.col0 d.row1 d.col1

-- From `s` to `t` the size is the same, and a cell that `t` has no damage at is as it was, and was
-- not damaged before.
pub record Steps (s t : Screen) : Type 0 where
  pub valid : IsScreen t
  pub same_cols : t.cols ≡ s.cols
  pub same_rows : t.rows ≡ s.rows
  pub cell :
      (r c : ℕ)
      → r < s.rows
      → c < s.cols
      → is_damaged t.damage r c ≡ false
      → shown t r c ≡ shown s r c
  pub undamaged :
      (r c : ℕ)
      → r < s.rows
      → c < s.cols
      → is_damaged t.damage r c ≡ false
      → is_damaged s.damage r c ≡ false

pub Steps-refl : (s : Screen) → IsScreen s → Steps s s
Steps-refl s v = record {
  valid = v;
  same_cols = refl;
  same_rows = refl;
  cell = λ r c hr hc h. refl;
  undamaged = λ r c hr hc h. h;
}

pub Steps-trans : {s t u : Screen} → Steps s t → Steps t u → Steps s u
Steps-trans {s} {t} {u} a b = record {
  valid = b.valid;
  same_cols = b.same_cols ∙ a.same_cols;
  same_rows = b.same_rows ∙ a.same_rows;
  cell = λ r c hr hc h.
      let hr' : r < t.rows = omega (arith, a.same_rows) in
      let hc' : c < t.cols = omega (arith, a.same_cols) in
      b.cell r c hr' hc' h ∙ a.cell r c hr hc (b.undamaged r c hr' hc' h);
  undamaged = λ r c hr hc h.
      a.undamaged r c hr hc
        (b.undamaged r c (omega (arith, a.same_rows)) (omega (arith, a.same_cols)) h);
}

pub Steps-bind :
    {s : Screen} {m : Option Screen} {f : Screen → Option Screen}
    → Returns (Steps s) m
    → ((t : Screen) → Steps s t → Returns (Steps t) (f t))
    → Returns (Steps s) (m >>= f)
Steps-bind r k = Returns-bind r λ t st. Returns-map (k t st) λ u tu. Steps-trans st tu

pub either_Steps :
    {s : Screen} (b : Bool) {t u : Screen}
    → (b ≡ true → Steps s t)
    → (b ≡ false → Steps s u)
    → Steps s (if b then t else u)
either_Steps true h k = h refl
either_Steps false h k = k refl

joined_covers :
    (d e : DamageRect) (r c : ℕ)
    → is_damaged (joined_rect d e) r c ≡ false
    → (is_damaged d r c ≡ false) × (is_damaged e r c ≡ false)
joined_covers d e r c h = ground arith

joined_bounds :
    (d e : DamageRect) (m n : ℕ)
    → d.row1 ≤ m
    → d.col1 ≤ n
    → e.row1 ≤ m
    → e.col1 ≤ n
    → ((joined_rect d e).row1 ≤ m) × ((joined_rect d e).col1 ≤ n)
joined_bounds d e m n a b a' b' = ground arith

-- the invariant of a screen with another page and other damage
IsScreen-update :
    (s : Screen) (q : Page) (d : DamageRect)
    → IsScreen s
    → IsPage s.cols s.rows q
    → d.row1 ≤ s.rows
    → d.col1 ≤ s.cols
    → IsScreen (record s { page = q; damage = d })
IsScreen-update s q d v ok hr hc = record {
  wide_enough = v.wide_enough;
  cols_fit = v.cols_fit;
  has_row = v.has_row;
  rows_fit = v.rows_fit;
  page_ok = ok;
  backup_ok = v.backup_ok;
  damage_rows = hr;
  damage_cols = hc;
}

-- A page with the same grid is shown, or the marked part of the grid is drawn anew.
module _ (s : Screen) (v : IsScreen s) where
  pub page-Steps :
      (q : Page) → q.grid ≡ s.page.grid → IsPage s.cols s.rows q → Steps s (record s { page = q })
  unfolding shown
  page-Steps q e ok = record {
    valid = IsScreen-update s q s.damage v ok v.damage_rows v.damage_cols;
    same_cols = refl;
    same_rows = refl;
    cell = λ r c hr hc h. ap (λ (g : Grid). at s.cols g r c) e;
    undamaged = λ r c hr hc h. h;
  }

  IsPage-grid :
      (g : Grid) → length g ≡ s.rows * s.cols → IsPage s.cols s.rows (record s.page { grid = g })
  IsPage-grid g e = record {
    size = e;
    cursor_row_lt = v.page_ok.cursor_row_lt;
    cursor_col_lt = v.page_ok.cursor_col_lt;
    region = v.page_ok.region;
    region_fits = v.page_ok.region_fits;
  }

  pub mark_rect-Steps :
      (r0 c0 r1 c1 : ℕ) (f : ℕ → ℕ → Cell) (g : Grid)
      → r1 ≤ s.rows
      → c1 ≤ s.cols
      → Views s.cols s.rows f g
      → ((r c : ℕ)
          → r < s.rows
          → c < s.cols
          → in_rect r0 c0 r1 c1 r c ≡ false
          → f r c ≡ shown s r c)
      → Steps s (mark_rect r0 c0 r1 c1 (with_grid g s))
  unfolding mark_rect shown
  mark_rect-Steps r0 c0 r1 c1 f g hr hc views out = elim (Bool-cases (leb r1 r0 || leb c1 c0)) [
    | inl empty ↦ rw empty (record {
      valid =
          IsScreen-update s (record s.page { grid = g }) s.damage v (IsPage-grid g views.size)
            v.damage_rows v.damage_cols;
      same_cols = refl;
      same_rows = refl;
      cell = λ r c hr' hc' h. views.cells r c hr' hc' ∙ out r c hr' hc' (ground arith);
      undamaged = λ r c hr' hc' h. h;
    })
    | inr some_ ↦
        let e : DamageRect = record { row0 = r0; col0 = c0; row1 = r1; col1 = c1 } in
        let (rows_le, cols_le) =
          joined_bounds s.damage e s.rows s.cols v.damage_rows v.damage_cols hr hc in
        rw some_ (record {
          valid =
              IsScreen-update s (record s.page { grid = g }) (joined_rect s.damage e) v
                (IsPage-grid g views.size) rows_le cols_le;
          same_cols = refl;
          same_rows = refl;
          cell = λ r c hr' hc' h.
              views.cells r c hr' hc' ∙ out r c hr' hc' (joined_covers s.damage e r c h).1;
          undamaged = λ r c hr' hc' h. (joined_covers s.damage e r c h).0;
        })
  ]

  -- Whatever else changes, all cells are marked.
  pub mark_all-Steps :
      (t : Screen) → t.cols ≡ s.cols → t.rows ≡ s.rows → IsScreen t → Steps s (mark_all t)
  unfolding mark_rect
  mark_all-Steps t ec er ok =
      let e : DamageRect = record { row0 = 0; col0 = 0; row1 = t.rows; col1 = t.cols } in
      let (rows_le, cols_le) =
        joined_bounds t.damage e t.rows t.cols ok.damage_rows ok.damage_cols (omega arith)
          (omega arith) in
      let some_ : leb t.rows 0 || leb t.cols 0 ≡ false =
        ground (arith, ok.has_row, ok.wide_enough) in
      rw some_ (record {
        valid = IsScreen-update t t.page (joined_rect t.damage e) ok ok.page_ok rows_le cols_le;
        same_cols = ec;
        same_rows = er;
        cell = λ r c hr hc h. let out = (joined_covers t.damage e r c h).1 in absurd (ground arith);
        undamaged =
            λ r c hr hc h. let out = (joined_covers t.damage e r c h).1 in absurd (ground arith);
      })
