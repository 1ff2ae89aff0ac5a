-- ===== src/Term/Screen/Control.antt =====
-- The control sequences that screen.cpp carries out: `execute`, `csi`, `esc` and `osc`. A parameter
-- is an `int` that is not negative, as the parser gives it.
use portable_terminal.Base.{
  ℕ, zero, suc, ◌+◌, ◌-◌, ◌%◌, ◌^◌, Bool, true, false, not, ◌||◌, ◌&&◌, Option, none, some, List,
  [], ◌∷◌, ◌++◌, Bytes, leb, ltb, ◌==◌, if◌then◌else◌, min, length, get_or,
}
use Prim.Native.Nat.{max}
use portable_terminal.Term.Cell.{Attrs, Pen, Color, default_color, indexed, rgb, default_pen}
use portable_terminal.Term.Decimal.{decimal}
use portable_terminal.Term.Screen.State.{
  Screen, with_page, u16, clamp_pos, place_cursor, carriage_return, backspace, tab, save_cursor,
  restore_cursor,
}
use portable_terminal.Term.Screen.Scroll.{
  scroll_up, scroll_down, insert_lines, delete_lines, insert_chars, delete_chars, erase_chars,
}
use portable_terminal.Term.Screen.Erase.{line_feed, reverse_index, erase_display, erase_line}
use portable_terminal.Term.Screen.Pages.{reset, enter_alt_screen, exit_alt_screen}

unfoldable pub execute : ℕ → Screen → Option Screen
execute c0 s =
    if c0 == 7
    then some (record s { bell_pending = true })
    else if c0 == 8
    then some (backspace s)
    else if c0 == 9
    then some (tab s)
    else if c0 == 10 || c0 == 11 || c0 == 12
    then line_feed s
    else if c0 == 13
    then some (carriage_return s)
    else some s

-- `static_cast<uint8_t>`
abbrev pub u8 : ℕ → ℕ
u8 n = n % 2 ^ 8

abbrev pub on_attrs : (Attrs → Attrs) → Pen → Pen
on_attrs f pen = record pen { attrs = f pen.attrs }

-- The colour that the parameters behind a 38 or a 48 give, and how many of them it takes; all of
-- them if they are malformed, and none if there are none.
unfoldable pub extended : List ℕ → Option Color × ℕ
extended [] = (none, 0)
extended (kind ∷ ps) =
    if kind == 5 && ltb 0 (length ps)
    then (some (indexed (u8 (get_or ps 0 0))), 2)
    else if kind == 2 && ltb 2 (length ps)
    then (some (rgb (u8 (get_or ps 0 0)) (u8 (get_or ps 1 0)) (u8 (get_or ps 2 0))), 4)
    else (none, suc (length ps))

abbrev pub set_fg : Option Color → Pen → Pen
set_fg none pen = pen
set_fg (some c) pen = record pen { fg = c }

abbrev pub set_bg : Option Color → Pen → Pen
set_bg none pen = pen
set_bg (some c) pen = record pen { bg = c }

-- the colours of the ranges in `default:`
unfoldable pub sgr_colour : ℕ → Pen → Pen
sgr_colour p pen =
    if leb 30 p && leb p 37
    then record pen { fg = indexed (u8 (p - 30)) }
    else if leb 40 p && leb p 47
    then record pen { bg = indexed (u8 (p - 40)) }
    else if leb 90 p && leb p 97
    then record pen { fg = indexed (u8 (p - 90 + 8)) }
    else if leb 100 p && leb p 107
    then record pen { bg = indexed (u8 (p - 100 + 8)) }
    else pen

-- The switch of `apply_sgr`: the pen, and how many of the parameters behind are used up.
unfoldable pub sgr_step : ℕ → List ℕ → Pen → Pen × ℕ
sgr_step p ps pen =
    if p == 0
    then (default_pen, 0)
    else if p == 1
    then (on_attrs (λ a. record a { bold = true }) pen, 0)
    else if p == 2
    then (on_attrs (λ a. record a { faint = true }) pen, 0)
    else if p == 3
    then (on_attrs (λ a. record a { italic = true }) pen, 0)
    else if p == 4
    then (on_attrs (λ a. record a { underline = true }) pen, 0)
    else if p == 5
    then (on_attrs (λ a. record a { blink = true }) pen, 0)
    else if p == 7
    then (on_attrs (λ a. record a { reverse = true }) pen, 0)
    else if p == 8
    then (on_attrs (λ a. record a { hidden = true }) pen, 0)
    else if p == 9
    then (on_attrs (λ a. record a { strike = true }) pen, 0)
    else if p == 22
    then (on_attrs (λ a. record a { bold = false; faint = false }) pen, 0)
    else if p == 23
    then (on_attrs (λ a. record a { italic = false }) pen, 0)
    else if p == 24
    then (on_attrs (λ a. record a { underline = false }) pen, 0)
    else if p == 25
    then (on_attrs (λ a. record a { blink = false }) pen, 0)
    else if p == 27
    then (on_attrs (λ a. record a { reverse = false }) pen, 0)
    else if p == 28
    then (on_attrs (λ a. record a { hidden = false }) pen, 0)
    else if p == 29
    then (on_attrs (λ a. record a { strike = false }) pen, 0)
    else if p == 39
    then (record pen { fg = default_color }, 0)
    else if p == 49
    then (record pen { bg = default_color }, 0)
    else if p == 38
    then (set_fg (extended ps).0 pen, (extended ps).1)
    else if p == 48
    then (set_bg (extended ps).0 pen, (extended ps).1)
    else (sgr_colour p pen, 0)

-- The loop of `apply_sgr`; `skip` counts the parameters that `i += 2` and the like pass over.
unfoldable pub sgr_loop : ℕ → List ℕ → Pen → Pen
unfolding sgr_step
sgr_loop skip [] pen = pen
sgr_loop (suc skip) (p ∷ ps) pen = sgr_loop skip ps pen
sgr_loop zero (p ∷ ps) pen = let (next, skip) = sgr_step p ps pen in sgr_loop skip ps next

unfoldable pub apply_sgr : List ℕ → Screen → Screen
unfolding sgr_loop
apply_sgr [] s = with_page (λ p. record p { pen = default_pen }) s
apply_sgr (p ∷ ps) s = with_page (λ q. record q { pen = sgr_loop 0 (p ∷ ps) q.pen }) s

unfoldable pub set_dec_mode : Bool → ℕ → Screen → Screen
set_dec_mode on p s =
    if p == 7
    then record s { autowrap = on }
    else if p == 25
    then record s { cursor_visible = on }
    else if p == 47 || p == 1047 || p == 1049
    then (if on then enter_alt_screen s else exit_alt_screen s)
    else s

unfoldable pub set_dec_modes : List ℕ → Bool → Screen → Screen
unfolding set_dec_mode
set_dec_modes [] on s = s
set_dec_modes (p ∷ ps) on s = set_dec_modes ps on (set_dec_mode on p s)

abbrev pub append_sent : Option (List Bytes) → Bytes → Option (List Bytes)
append_sent none bs = none
append_sent (some sent) bs = some (sent ++ bs ∷ [])

abbrev pub respond : Bytes → Screen → Screen
respond bs s = record s { response = append_sent s.response bs }

-- what `snprintf` writes for the cursor's position
abbrev pub position_report : Bool → ℕ → ℕ → Bytes
position_report private row col =
    0x1B
    ∷ b'['
    ∷ ((if private then b'?' ∷ [] else [])
        ++ decimal (row + 1)
        ++ b';' ∷ (decimal (col + 1) ++ b'R' ∷ []))

unfoldable pub device_status_report : List ℕ → Bool → Screen → Screen
device_status_report params private s =
    let ps = get_or params 0 0 in
    if ps == 5
    then respond (0x1B ∷ b'[' ∷ b'0' ∷ b'n' ∷ []) s
    else if ps == 6
    then respond (position_report private s.page.cursor_row s.page.cursor_col) s
    else s

-- the `get` of `csi`
abbrev pub param_at : List ℕ → ℕ → ℕ → ℕ
param_at params i def = let v = get_or params i 0 in if v == 0 then def else v

abbrev pub second_or : List ℕ → ℕ → ℕ
second_or params rows =
    if leb 2 (length params) && not (get_or params 1 0 == 0) then get_or params 1 0 else rows

-- `CSI r`
unfoldable pub set_region : List ℕ → Screen → Screen
set_region params s =
    let top = max 0 (param_at params 0 1 - 1) in
    let bot = min s.rows (second_or params s.rows) in
    if ltb top bot
    then place_cursor 0 0
        (with_page (λ p. record p { scroll_top = u16 top; scroll_bot = u16 bot }) s)
    else s

-- the final bytes that only move the cursor
unfoldable pub csi_move : ℕ → List ℕ → Screen → Screen
csi_move final params s =
    let n = param_at params 0 1 in
    let row = s.page.cursor_row in
    let col = s.page.cursor_col in
    let last_row = s.rows - 1 in
    let last_col = s.cols - 1 in
    if final == b'A'
    then place_cursor (clamp_pos (row - n) last_row) col s
    else if final == b'B'
    then place_cursor (clamp_pos (row + n) last_row) col s
    else if final == b'C'
    then place_cursor row (clamp_pos (col + n) last_col) s
    else if final == b'D'
    then place_cursor row (clamp_pos (col - n) last_col) s
    else if final == b'E'
    then place_cursor (clamp_pos (row + n) last_row) 0 s
    else if final == b'F'
    then place_cursor (clamp_pos (row - n) last_row) 0 s
    else if final == b'G'
    then place_cursor row (clamp_pos (n - 1) last_col) s
    else if final == b'd'
    then place_cursor (clamp_pos (n - 1) last_row) col s
    else place_cursor (clamp_pos (n - 1) last_row) (clamp_pos (param_at params 1 1 - 1) last_col) s

-- The final bytes that `csi_move` has; the last two share a case.
abbrev pub is_move : ℕ → Bool
is_move f = leb b'A' f && leb f b'G' || f == b'd' || (f == b'H' || f == b'f')

unfoldable pub csi : ℕ → List ℕ → Bytes → Bool → Screen → Option Screen
csi final params intermediates private s =
    let n = u16 (param_at params 0 1) in
    if is_move final
    then some (csi_move final params s)
    else if final == b'J'
    then erase_display (get_or params 0 0) s
    else if final == b'K'
    then erase_line (get_or params 0 0) s
    else if final == b'L'
    then insert_lines n s
    else if final == b'M'
    then delete_lines n s
    else if final == b'P'
    then delete_chars n s
    else if final == b'S'
    then scroll_up n s
    else if final == b'T'
    then scroll_down n s
    else if final == b'X'
    then erase_chars n s
    else if final == b'@'
    then insert_chars n s
    else if final == b'h'
    then some (if private then set_dec_modes params true s else s)
    else if final == b'l'
    then some (if private then set_dec_modes params false s else s)
    else if final == b'm'
    then some (if private then s else apply_sgr params s)
    else if final == b'r'
    then some (set_region params s)
    else if final == b'n'
    then some (device_status_report params private s)
    else if final == b's'
    then some (save_cursor s)
    else if final == b'u'
    then some (restore_cursor s)
    else some s

unfoldable pub esc : ℕ → Bytes → Screen → Option Screen
esc final (i ∷ is) s = some s
esc final [] s =
    if final == b'7'
    then some (save_cursor s)
    else if final == b'8'
    then some (restore_cursor s)
    else if final == b'D'
    then line_feed s
    else if final == b'M'
    then reverse_index s
    else if final == b'E'
    then line_feed (carriage_return s)
    else if final == b'c'
    then some (reset s)
    else some s

-- ignored
abbrev pub osc : Bytes → Screen → Option Screen
osc text s = some s
