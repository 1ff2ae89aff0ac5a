-- ===== src/Term/Cell.antt =====
-- The cells of components/term_core/include/term_core: cell.hpp, color.hpp, idisplay.hpp and
-- east_asian_width.hpp.
use portable_terminal.Base.{ℕ, ◌*◌, ◌^◌, Bool, false, ◌&&◌, ◌||◌, ltb, leb, if◌then◌else◌, bit_or}

pub data Color : Type 0 where
  default_color : Color
  -- `indexed(i)`
  indexed : ℕ → Color
  -- `value` of `rgb(r, g, b)`
  rgb_value : ℕ → Color

abbrev pub rgb : ℕ → ℕ → ℕ → Color
rgb r g b = rgb_value (bit_or (bit_or (r * 2 ^ 16) (g * 2 ^ 8)) b)

pub record Attrs : Type 0 where
  pub bold : Bool
  pub faint : Bool
  pub italic : Bool
  pub underline : Bool
  pub blink : Bool
  pub reverse : Bool
  pub hidden : Bool
  pub strike : Bool
  pub wide : Bool
  pub wide_cont : Bool

abbrev pub no_attrs : Attrs
no_attrs = record {
  bold = false;
  faint = false;
  italic = false;
  underline = false;
  blink = false;
  reverse = false;
  hidden = false;
  strike = false;
  wide = false;
  wide_cont = false;
}

-- What a printed cell takes over: `cur_fg_`, `cur_bg_` and `cur_attrs_` of the screen.
pub record Pen : Type 0 where
  pub attrs : Attrs
  pub fg : Color
  pub bg : Color

abbrev pub default_pen : Pen
default_pen = record { attrs = no_attrs; fg = default_color; bg = default_color }

pub record Cell : Type 0 where
  pub ch : ℕ
  pub fg : Color
  pub bg : Color
  pub attrs : Attrs

-- `Cell{ch, cur_fg_, cur_bg_, cur_attrs_}`
abbrev pub inked : ℕ → Pen → Cell
inked ch pen = record { ch = ch; fg = pen.fg; bg = pen.bg; attrs = pen.attrs }

-- `Cell{}`
abbrev pub empty_cell : Cell
empty_cell = inked b' ' default_pen

-- Rows `row0` to `row1` and columns `col0` to `col1`, the ends exclusive.
pub record DamageRect : Type 0 where
  pub row0 : ℕ
  pub col0 : ℕ
  pub row1 : ℕ
  pub col1 : ℕ

abbrev pub no_damage : DamageRect
no_damage = record { row0 = 0; col0 = 0; row1 = 0; col1 = 0 }

-- `DamageRect::empty`
abbrev pub is_empty_rect : DamageRect → Bool
is_empty_rect d = leb d.row1 d.row0 || leb d.col1 d.col0

abbrev pub in_range : ℕ → ℕ → ℕ → Bool
in_range lo hi cp = leb lo cp && leb cp hi

unfoldable pub is_wide_char : ℕ → Bool
is_wide_char cp =
    if ltb cp 0x1100
    then false
    else leb cp 0x115F
      || in_range 0x2329 0x232A cp
      || in_range 0x2E80 0x303E cp
      || in_range 0x3041 0x33FF cp
      || in_range 0x3400 0x4DBF cp
      || in_range 0x4E00 0x9FFF cp
      || in_range 0xA000 0xA4CF cp
      || in_range 0xA960 0xA97F cp
      || in_range 0xAC00 0xD7A3 cp
      || in_range 0xF900 0xFAFF cp
      || in_range 0xFE30 0xFE4F cp
      || in_range 0xFF00 0xFF60 cp
      || in_range 0xFFE0 0xFFE6 cp
      || in_range 0x1F300 0x1F64F cp
      || in_range 0x1F680 0x1F6FF cp
      || in_range 0x1F900 0x1F9FF cp
      || in_range 0x20000 0x2FFFD cp
      || in_range 0x30000 0x3FFFD cp
