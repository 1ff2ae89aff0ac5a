-- ===== src/Term/Screen/Modes.antt =====
-- The reset, the alternate screen, the modes, the pen and the answers: what they keep.
use portable_terminal.Base.{
  ℕ, ◌≤◌, ◌<◌, refl, ◌∙◌, Bool, true, false, ◌||◌, Option, List, [], ◌∷◌, Bytes, arith, ◌==◌,
  length, length-replicate,
}
use portable_terminal.Term.Cell.{default_pen, empty_cell, Pen}
use portable_terminal.Term.Screen.State.{Page, Screen, u16}
use portable_terminal.Term.Screen.Steps.{
  IsPage, IsScreen, shown, Steps, Steps-refl, Steps-trans, either_Steps, page-Steps, mark_all-Steps,
}
use portable_terminal.Term.Screen.Pages.{fresh_page, reset, enter_alt_screen, exit_alt_screen}
use portable_terminal.Term.Screen.Control.{
  apply_sgr, sgr_loop, set_dec_mode, set_dec_modes, append_sent, respond,
}

fresh_page-IsPage :
    (cols rows : ℕ) (p : Page)
    → 0 < cols
    → 0 < rows
    → IsPage cols rows p
    → IsPage cols rows (fresh_page rows p)
fresh_page-IsPage cols rows p hc hr v = record {
  size = length-replicate (length p.grid) empty_cell ∙ v.size;
  cursor_row_lt = hr;
  cursor_col_lt = hc;
  region = hr;
  region_fits = omega arith;
}

-- the screen with other pages
IsScreen-pages :
    (s : Screen) (p q : Page) (alt aw cv : Bool)
    → IsScreen s
    → IsPage s.cols s.rows p
    → IsPage s.cols s.rows q
    → IsScreen
        (record s { page = p; backup = q; alt_active = alt; autowrap = aw; cursor_visible = cv })
IsScreen-pages s p q alt aw cv v hp hq = record {
  wide_enough = v.wide_enough;
  cols_fit = v.cols_fit;
  has_row = v.has_row;
  rows_fit = v.rows_fit;
  page_ok = hp;
  backup_ok = hq;
  damage_rows = v.damage_rows;
  damage_cols = v.damage_cols;
}

module _ (s : Screen) (v : IsScreen s) where
  fresh-IsPage : (p : Page) → IsPage s.cols s.rows p → IsPage s.cols s.rows (fresh_page s.rows p)
  fresh-IsPage p = fresh_page-IsPage s.cols s.rows p (omega (arith, v.wide_enough)) v.has_row

  pub reset-Steps : Steps s (reset s)
  unfolding reset
  reset-Steps = mark_all-Steps s v _ refl refl (
      IsScreen-pages s (fresh_page s.rows s.page) s.backup s.alt_active true true v
        (fresh-IsPage s.page v.page_ok) v.backup_ok)

  pub enter_alt_screen-Steps : Steps s (enter_alt_screen s)
  unfolding enter_alt_screen
  enter_alt_screen-Steps =
      either_Steps s.alt_active (λ h. Steps-refl s v)
        λ h. mark_all-Steps s v _ refl refl (
          IsScreen-pages s (fresh_page s.rows s.backup) s.page true s.autowrap s.cursor_visible v
            (fresh-IsPage s.backup v.backup_ok) v.page_ok)

  pub exit_alt_screen-Steps : Steps s (exit_alt_screen s)
  unfolding exit_alt_screen
  exit_alt_screen-Steps =
      either_Steps s.alt_active
        (λ h. mark_all-Steps s v _ refl refl (
          IsScreen-pages s s.backup s.page false s.autowrap s.cursor_visible v v.backup_ok
            v.page_ok))
        λ h. Steps-refl s v

  -- Fields that no cell, size or position depends on.
  pub plain-Steps :
      (aw cv bell : Bool) (out : Option (List Bytes))
      → Steps s
          (record s { autowrap = aw; cursor_visible = cv; bell_pending = bell; response = out })
  unfolding shown
  plain-Steps aw cv bell out = record {
    valid = record {
      wide_enough = v.wide_enough;
      cols_fit = v.cols_fit;
      has_row = v.has_row;
      rows_fit = v.rows_fit;
      page_ok = v.page_ok;
      backup_ok = v.backup_ok;
      damage_rows = v.damage_rows;
      damage_cols = v.damage_cols;
    };
    same_cols = refl;
    same_rows = refl;
    cell = λ r c hr hc h. refl;
    undamaged = λ r c hr hc h. h;
  }

  set_dec_mode-Steps : (on : Bool) (p : ℕ) → Steps s (set_dec_mode on p s)
  unfolding set_dec_mode
  set_dec_mode-Steps on p =
      either_Steps (p == 7) (λ h. plain-Steps on s.cursor_visible s.bell_pending s.response)
        λ h.
          either_Steps (p == 25) (λ h. plain-Steps s.autowrap on s.bell_pending s.response)
            λ h.
              either_Steps (p == 47 || p == 1047 || p == 1049)
                (λ h. either_Steps on (λ g. enter_alt_screen-Steps) λ g. exit_alt_screen-Steps)
                λ h. Steps-refl s v

  pub respond-Steps : (bs : Bytes) → Steps s (respond bs s)
  respond-Steps bs =
      plain-Steps s.autowrap s.cursor_visible s.bell_pending (append_sent s.response bs)

  pen_page : (pen : Pen) → IsPage s.cols s.rows (record s.page { pen = pen })
  pen_page pen = record {
    size = v.page_ok.size;
    cursor_row_lt = v.page_ok.cursor_row_lt;
    cursor_col_lt = v.page_ok.cursor_col_lt;
    region = v.page_ok.region;
    region_fits = v.page_ok.region_fits;
  }

  pub apply_sgr-Steps : (ps : List ℕ) → Steps s (apply_sgr ps s)
  unfolding apply_sgr
  apply_sgr-Steps [] = page-Steps s v _ refl (pen_page default_pen)
  apply_sgr-Steps (p ∷ ps) = page-Steps s v _ refl (pen_page (sgr_loop 0 (p ∷ ps) s.page.pen))

  pub region_page :
      (top bot : ℕ)
      → top < bot
      → bot ≤ s.rows
      → IsPage s.cols s.rows (record s.page { scroll_top = u16 top; scroll_bot = u16 bot })
  region_page top bot lt le = record {
    size = v.page_ok.size;
    cursor_row_lt = v.page_ok.cursor_row_lt;
    cursor_col_lt = v.page_ok.cursor_col_lt;
    region = omega (arith, v.rows_fit);
    region_fits = omega (arith, v.rows_fit);
  }

pub set_dec_modes-Steps :
    (s : Screen) (v : IsScreen s) (ps : List ℕ) (on : Bool) → Steps s (set_dec_modes ps on s)
unfolding set_dec_modes
set_dec_modes-Steps s v [] on = Steps-refl s v
set_dec_modes-Steps s v (p ∷ ps) on =
    let st = set_dec_mode-Steps s v on p in
    Steps-trans st (set_dec_modes-Steps (set_dec_mode on p s) st.valid ps on)
