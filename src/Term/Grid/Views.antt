-- ===== src/Term/Grid/Views.antt =====
-- What the loops of Term/Grid leave in the grid, as a function of row and column.
use portable_terminal.Base.{
  ℕ, zero, suc, ◌*◌, ◌<◌, ◌≡◌, refl, ap, ◌∙◌, true, ◌&&◌, some, [], ◌∷◌, arith, ltb, ◌==◌,
  if◌then◌else◌, length, get_elem?, get_or, set, length-set, get_or-set_self, get_or-set_or, inl,
  inr, Returns, returns, Bool-cases,
}
use portable_terminal.Term.Cell.{Cell, empty_cell}
use portable_terminal.Term.Grid.{Grid, index, read, write, copy}

unfoldable pub at : ℕ → Grid → ℕ → ℕ → Cell
at cols g r c = get_or g (index cols r c) empty_cell

pub index-lt : (cols rows r c : ℕ) → r < rows → c < cols → index cols r c < rows * cols
index-lt cols rows r c hr hc = grind arith

index-lt-index : (cols r c r' c' : ℕ) → c < cols → r < r' → index cols r c < index cols r' c'
index-lt-index cols r c r' c' h lt = grind arith

index_inj :
    (cols r c r' c' : ℕ)
    → c < cols
    → c' < cols
    → index cols r c ≡ index cols r' c'
    → (r ≡ r') × (c ≡ c')
index_inj cols r c r' c' h h' e =
    ground (arith, index-lt-index cols r c r' c', index-lt-index cols r' c' r c)

get_elem?-get_or :
    (g : Grid) (i : ℕ) (d : Cell) → i < length g → get_elem? g i ≡ some (get_or g i d)
get_elem?-get_or [] i d h = absurd (omega arith)
get_elem?-get_or (x ∷ g) zero d h = refl
get_elem?-get_or (x ∷ g) (suc i) d h = get_elem?-get_or g i d (omega arith)

-- The grid has `rows` rows of `cols` cells, and `f` says what is in them.
pub record Views (cols rows : ℕ) (f : ℕ → ℕ → Cell) (g : Grid) : Type 0 where
  pub size : length g ≡ rows * cols
  pub cells : (r c : ℕ) → r < rows → c < cols → at cols g r c ≡ f r c

module _ (cols rows : ℕ) where
  pub Views-self : (g : Grid) → length g ≡ rows * cols → Views cols rows (at cols g) g
  Views-self g size = record { size = size; cells = λ r c hr hc. refl }

  pub Views-ext :
      {f f' : ℕ → ℕ → Cell} {g : Grid}
      → Views cols rows f g
      → ((r c : ℕ) → r < rows → c < cols → f r c ≡ f' r c)
      → Views cols rows f' g
  Views-ext v e = record { size = v.size; cells = λ r c hr hc. v.cells r c hr hc ∙ e r c hr hc }

  abbrev pub put_at : ℕ → ℕ → Cell → (ℕ → ℕ → Cell) → ℕ → ℕ → Cell
  put_at r c v f r' c' = if r' == r && c' == c then v else f r' c'

  set_cells :
      (g : Grid) (f : ℕ → ℕ → Cell) (r c : ℕ) (v : Cell)
      → Views cols rows f g
      → r < rows
      → c < cols
      → (r' c' : ℕ) → r' < rows
      → c' < cols
      → at cols (set g (index cols r c) v) r' c' ≡ put_at r c v f r' c'
  unfolding at
  set_cells g f r c v views hr hc r' c' hr' hc' = elim (Bool-cases (r' == r && c' == c)) [
    | inl same ↦
        let er : r' ≡ r = ground arith in
        let ec : c' ≡ c = ground arith in
        let lt : index cols r c < length g =
          omega (arith, views.size, index-lt cols rows r c hr hc) in
        rw same (rw (er, ec) (get_or-set_self g (index cols r c) v empty_cell lt))
    | inr other ↦
        rw other (elim (get_or-set_or g (index cols r c) v empty_cell (index cols r' c')) [
          | inr kept ↦ kept ∙ views.cells r' c' hr' hc'
          | inl (meets, _) ↦
              let (er, ec) = index_inj cols r c r' c' hc hc' meets in absurd (ground arith)
        ])
  ]

  pub write-Views :
      (r c : ℕ) (v : Cell) (f : ℕ → ℕ → Cell) (g : Grid)
      → r < rows
      → c < cols
      → Views cols rows f g
      → Returns (Views cols rows (put_at r c v f)) (write cols r c v g)
  unfolding write
  write-Views r c v f g hr hc views =
      let within : ltb (index cols r c) (length g) ≡ true =
        ground (arith, views.size, index-lt cols rows r c hr hc) in
      rw within (
        returns (record {
          size = length-set g (index cols r c) v ∙ views.size;
          cells = set_cells g f r c v views hr hc;
        }))

  pub read-Views :
      (r c : ℕ) (f : ℕ → ℕ → Cell) (g : Grid)
      → r < rows
      → c < cols
      → Views cols rows f g
      → read cols r c g ≡ some (f r c)
  unfolding read at
  read-Views r c f g hr hc views =
      get_elem?-get_or g (index cols r c) empty_cell
        (omega (arith, views.size, index-lt cols rows r c hr hc))
      ∙ ap some (views.cells r c hr hc)

  pub copy-Views :
      (r c r' c' : ℕ) (f : ℕ → ℕ → Cell) (g : Grid)
      → r < rows
      → c < cols
      → r' < rows
      → c' < cols
      → Views cols rows f g
      → Returns (Views cols rows (put_at r c (f r' c') f)) (copy cols r c r' c' g)
  unfolding copy
  copy-Views r c r' c' f g hr hc hr' hc' views =
      rw (read-Views r' c' f g hr' hc' views) (write-Views r c (f r' c') f g hr hc views)
