-- ===== src/Term/Terminal/Render.antt =====
-- What is on the display after `Terminal::render_dirty`.
use portable_terminal.Base.{
  ℕ, zero, suc, ◌+◌, ◌-◌, ◌≤◌, ◌<◌, ◌≡◌, ◌⊎◌, refl, sym, ap, ◌∙◌, Bool, true, false, ◌&&◌, Option,
  none, some, List, ◌∷◌, Bytes, arith, ltb, leb, ◌==◌, if◌then◌else◌, if-true, if-false, if_Returns,
  length, get_or, Bool-cases, inl, inr, ◌>>=◌, Returns, returns, Returns-bind, Returns-map,
}
use portable_terminal.Term.Cell.{Cell, empty_cell, DamageRect, no_damage, is_empty_rect}
use portable_terminal.Term.Grid.{Grid}
use portable_terminal.Term.Grid.Views.{Views, read-Views}
use portable_terminal.Term.Grid.Loops.{in_rect}
use portable_terminal.Term.Screen.State.{Screen, take_damage, take_bell_pending}
use portable_terminal.Term.Screen.Steps.{IsScreen, shown, is_damaged}
use portable_terminal.Term.Screen.Lines.{shown-Views}
use portable_terminal.Term.Terminal.{
  Error, Terminal, feed_terminal, row_cells, render_rows, render_dirty,
}
use portable_terminal.Term.Terminal.Feeding.{IsTerminal, feed_terminal-Steps}

-- the cells `f row col`, `f row (col + 1)` and so on
IsRow : (ℕ → ℕ → Cell) → ℕ → ℕ → ℕ → List Cell → Type 0
IsRow f row n col cs =
    (length cs ≡ n) × ((i : ℕ) → i < n → get_or cs i empty_cell ≡ f row (col + i))

row_cells-IsRow :
    (cols rows : ℕ) (f : ℕ → ℕ → Cell) (g : Grid) (row n col : ℕ)
    → Views cols rows f g
    → row < rows
    → col + n ≤ cols
    → Returns (IsRow f row n col) (row_cells cols row n col g)
unfolding row_cells IsRow
row_cells-IsRow cols rows f g row zero col v hr hc = returns (refl, λ i lt. absurd (omega arith))
row_cells-IsRow cols rows f g row (suc n) col v hr hc =
    rw (read-Views cols rows row col f g hr (omega arith) v) (
      Returns-bind (row_cells-IsRow cols rows f g row n (suc col) v hr (omega arith))
        λ cs (size, cells). returns (ap suc size, λ i lt. entry cs cells i lt))
  where
    entry :
        (cs : List Cell)
        → ((i : ℕ) → i < n → get_or cs i empty_cell ≡ f row (suc col + i))
        → (i : ℕ) → i < suc n
        → get_or (f row col ∷ cs) i empty_cell ≡ f row (col + i)
    entry cs cells zero lt = let e : col + 0 ≡ col = omega arith in rw e refl
    entry cs cells (suc i) lt =
        let e : suc col + i ≡ col + suc i = omega arith in cells i (omega arith) ∙ ap (f row) e

-- What a display does: cells that are drawn without an error are on it, where they were drawn, and
-- nothing else changes; to flush it and to ring its bell changes no cell.
pub record IsDisplay {D : Type 0} (shows : D → ℕ → ℕ → Cell)
    (draw_cells : ℕ → ℕ → List Cell → D → D × Option Error)
    (flush : DamageRect → D → D × Option Error) (bell : D → D) : Type 0 where
  pub drawn :
      (row col : ℕ) (cs : List Cell) (d : D)
      → (draw_cells row col cs d).1 ≡ none
      → (r c : ℕ)
      → shows (draw_cells row col cs d).0 r c ≡ (
          if r == row && (leb col c && ltb c (col + length cs))
          then get_or cs (c - col) empty_cell
          else shows d r c)
  pub flushed : (e : DamageRect) (d : D) (r c : ℕ) → shows (flush e d).0 r c ≡ shows d r c
  pub rung : (d : D) (r c : ℕ) → shows (bell d) r c ≡ shows d r c

module _ {D : Type 0} (shows : D → ℕ → ℕ → Cell)
    (draw_cells : ℕ → ℕ → List Cell → D → D × Option Error)
    (flush : DamageRect → D → D × Option Error) (bell : D → D)
    (display : IsDisplay shows draw_cells flush bell) where
  -- n rows of the damage, from `row` on, are drawn if there is no error
  abbrev Renders : Screen → DamageRect → ℕ → ℕ → D → D × Option Error → Type 0
  Renders s e n row d (d', rc) =
      rc ≡ none
      → (r c : ℕ) → r < s.rows
      → c < s.cols
      → shows d' r c
        ≡ (if in_rect row e.col0 (row + n) e.col1 r c then shown s r c else shows d r c)

  -- a row more
  row_shown :
      (s : Screen) (e : DamageRect) (n row : ℕ) (cs : List Cell) (d d' : D) (r c : ℕ)
      → e.col0 ≤ e.col1
      → IsRow (shown s) row (e.col1 - e.col0) e.col0 cs
      → shows d' r c ≡ (
          if r == row && (leb e.col0 c && ltb c (e.col0 + length cs))
          then get_or cs (c - e.col0) empty_cell
          else shows d r c)
      → (if in_rect (suc row) e.col0 (suc row + n) e.col1 r c then shown s r c else shows d' r c)
        ≡ (if in_rect row e.col0 (row + suc n) e.col1 r c then shown s r c else shows d r c)
  unfolding IsRow
  row_shown s e n row cs d d' r c hc (size, cells) drawn =
      elim (Bool-cases (r == row && (leb e.col0 c && ltb c (e.col0 + length cs)))) [
        | inl here ↦
            let same : r ≡ row = ground arith in
            let back : e.col0 + (c - e.col0) ≡ c = ground arith in
            let cell : get_or cs (c - e.col0) empty_cell ≡ shown s row (e.col0 + (c - e.col0)) =
              cells (c - e.col0) (ground arith) in
            let now : shows d' r c ≡ shown s r c =
              drawn ∙ if-true _ _ here ∙ cell ∙ (λ i. shown s (sym same i) (back i)) in
            let below : in_rect (suc row) e.col0 (suc row + n) e.col1 r c ≡ false = ground arith in
            let inside : in_rect row e.col0 (row + suc n) e.col1 r c ≡ true = ground arith in
            if-false _ _ below ∙ now ∙ sym (if-true _ _ inside)
        | inr elsewhere ↦
            let kept : shows d' r c ≡ shows d r c = drawn ∙ if-false _ _ elsewhere in
            ground (arith, size, kept)
      ]

  render_rows-Renders :
      (s : Screen) (e : DamageRect) (n row : ℕ) (d : D)
      → IsScreen s
      → row + n ≤ s.rows
      → e.col0 ≤ e.col1
      → e.col1 ≤ s.cols
      → Returns (Renders s e n row d) (render_rows draw_cells flush bell e n row s d)
  unfolding render_rows
  render_rows-Renders s e zero row d v hr hc hc' = returns λ ok r c lt lt'.
      let none_ : in_rect row e.col0 (row + 0) e.col1 r c ≡ false = ground arith in
      display.flushed e d r c ∙ sym (rw none_ refl)
  render_rows-Renders s e (suc n) row d v hr hc hc' =
      Returns-bind
        (row_cells-IsRow s.cols s.rows (shown s) s.page.grid row (e.col1 - e.col0) e.col0
          (shown-Views s v) (omega arith) (omega arith))
        λ cs is_row.
          let d' = (draw_cells row e.col0 cs d).0 in
          after_row cs is_row (render_rows-Renders s e n (suc row) d' v (omega arith) hc hc')
            (draw_cells row e.col0 cs d).1 refl
    where
      after_row :
          (cs : List Cell)
          → IsRow (shown s) row (e.col1 - e.col0) e.col0 cs
          → Returns
              (Renders s e n (suc row) (draw_cells row e.col0 cs d).0)
              (render_rows draw_cells flush bell e n (suc row) s (draw_cells row e.col0 cs d).0)
          → (rc : Option Error) → (draw_cells row e.col0 cs d).1 ≡ rc
          → Returns (Renders s e (suc n) row d) (elim rc [
            | none ↦
                render_rows draw_cells flush bell e n (suc row) s (draw_cells row e.col0 cs d).0
            | some error ↦ some ((draw_cells row e.col0 cs d).0, some error)
          ])
      after_row cs is_row rest none h = Returns-map rest λ x keep ok r c lt lt'.
          keep ok r c lt lt'
          ∙ row_shown s e n row cs d (draw_cells row e.col0 cs d).0 r c hc is_row
              (display.drawn row e.col0 cs d h r c)
      after_row cs is_row rest (some error) h = returns λ ok r c lt lt'. absurd (cc)

  -- Where the screen has no damage, the display shows it.
  abbrev pub IsSynced : Screen → D → Type 0
  IsSynced s d =
      (r c : ℕ)
      → r < s.rows
      → c < s.cols
      → is_damaged s.damage r c ≡ false
      → shows d r c ≡ shown s r c

  -- the display shows the whole screen, and nothing is left to draw
  pub record IsShown (s : Screen) (d : D) : Type 0 where
    pub clean : s.damage ≡ no_damage
    pub all : (r c : ℕ) → r < s.rows → c < s.cols → shows d r c ≡ shown s r c

  rung_lem : (b : Bool) (d : D) (r c : ℕ) → shows (if b then bell d else d) r c ≡ shows d r c
  rung_lem true d r c = display.rung d r c
  rung_lem false d r c = refl

  -- the screen that `render_dirty` draws from and leaves
  abbrev taken : Screen → Screen
  taken s = record s { bell_pending = false; damage = no_damage }

  taken-IsScreen : (s : Screen) → IsScreen s → IsScreen (taken s)
  taken-IsScreen s v = record {
    wide_enough = v.wide_enough;
    cols_fit = v.cols_fit;
    has_row = v.has_row;
    rows_fit = v.rows_fit;
    page_ok = v.page_ok;
    backup_ok = v.backup_ok;
    damage_rows = omega arith;
    damage_cols = omega arith;
  }

  all_drawn :
      (s : Screen) (d d' d1 : D)
      → is_empty_rect s.damage ≡ false
      → IsSynced s d
      → ((r c : ℕ) → shows d1 r c ≡ shows d r c)
      → Renders (taken s) s.damage (s.damage.row1 - s.damage.row0) s.damage.row0 d1 (d', none)
      → (r c : ℕ) → r < s.rows
      → c < s.cols
      → shows d' r c ≡ shown s r c
  unfolding shown
  all_drawn s d d' d1 ne synced same drawn r c hr hc =
      let e = s.damage in
      let end : e.row0 + (e.row1 - e.row0) ≡ e.row1 = ground arith in
      let at_end = λ (q b : ℕ). ap (λ (k : ℕ). in_rect e.row0 e.col0 k e.col1 q b) end in
      drawn refl r c hr hc ∙ elim (Bool-cases (is_damaged e r c)) [
        | inl inside ↦ if-true (shown (taken s) r c) (shows d1 r c) (at_end r c ∙ inside)
        | inr outside ↦
            if-false (shown (taken s) r c) (shows d1 r c) (at_end r c ∙ outside)
            ∙ same r c
            ∙ synced r c hr hc outside
      ]

  render_dirty_lem :
      (s : Screen) (d : D)
      → IsScreen s
      → IsSynced s d
      → Returns
          (λ (x : Screen × D × Option Error). x.2 ≡ none → IsShown x.0 x.1)
          (render_dirty draw_cells flush bell s d)
  unfolding render_dirty take_bell_pending take_damage
  render_dirty_lem s d v synced =
      let e = s.damage in
      let d1 = if s.bell_pending then bell d else d in
      if_Returns (is_empty_rect e)
        (λ none_. returns λ ok. record {
          clean = refl;
          all = λ r c hr hc.
              rung_lem s.bell_pending d r c ∙ synced r c hr hc (ground arith) ∙ kept r c;
        })
        λ some_.
          Returns-bind
            (render_rows-Renders (taken s) e (e.row1 - e.row0) e.row0 d1 (taken-IsScreen s v)
              (ground (arith, v.damage_rows)) (ground arith) v.damage_cols)
            λ x drawn. returns λ ok. record {
              clean = refl;
              all = λ r c hr hc.
                  all_drawn s d x.0 d1 some_ synced (rung_lem s.bell_pending d) (λ _. drawn ok) r c
                    hr hc
                  ∙ kept r c;
            }
    where
      kept : (r c : ℕ) → shown s r c ≡ shown (taken s) r c
      kept r c = unfold shown in refl

  settled :
      (rc : Option Error) (s : Screen) (d : D)
      → (rc ≡ none → IsShown s d)
      → ((error : Error) × (rc ≡ some error)) ⊎ IsShown s d
  settled none s d h = inr (h refl)
  settled (some error) s d h = inl (error, refl)

  -- If the display shows the screen wherever the screen has no damage, a well-formed terminal may be
  -- fed any bytes: rendering it then does not leave the grid, and unless the display reports an
  -- error, it shows every cell of the screen, and no damage is left.
  pub render_dirty_shows :
      (bytes : Bytes) (t : Terminal) (d : D)
      → IsTerminal t
      → IsSynced t.1 d
      → Returns
          (λ (x : Screen × D × Option Error).
            ((error : Error) × (x.2 ≡ some error)) ⊎ IsShown x.0 x.1)
          (feed_terminal bytes t >>= λ u. render_dirty draw_cells flush bell u.1 d)
  render_dirty_shows bytes t d v synced = Returns-bind (feed_terminal-Steps bytes t v) λ u (ok, st).
      Returns-map
        (render_dirty_lem u.1 d ok.screen_ok λ r c hr hc out.
          let hr' : r < t.1.rows = omega (arith, st.same_rows) in
          let hc' : c < t.1.cols = omega (arith, st.same_cols) in
          synced r c hr' hc' (st.undamaged r c hr' hc' out) ∙ sym (st.cell r c hr' hc' out))
        λ x h. settled x.2 x.0 x.1 h
