-- ===== src/Term/Screen/Sequences.antt =====
-- The control sequences of screen.cpp: what they keep.
use portable_terminal.Base.{
  ℕ, ◌-◌, refl, Bool, true, false, ◌||◌, List, [], ◌∷◌, Bytes, arith, ltb, ◌==◌, min, get_or,
  ltb→lt, Returns, returns, if_Returns, Returns-map,
}
use Prim.Native.Nat.{max}
use portable_terminal.Term.Screen.State.{Screen, u16}
use portable_terminal.Term.Screen.Steps.{
  IsScreen, Steps, Steps-refl, Steps-trans, either_Steps, page-Steps,
}
use portable_terminal.Term.Screen.Moves.{
  place_cursor-Steps, carriage_return-Steps, backspace-Steps, tab-Steps, save_cursor-Steps,
  restore_cursor-Steps,
}
use portable_terminal.Term.Screen.Lines.{
  scroll_up-Steps, scroll_down-Steps, insert_lines-Steps, delete_lines-Steps,
}
use portable_terminal.Term.Screen.Chars.{
  insert_chars-Steps, delete_chars-Steps, erase_chars-Steps, erase_line-Steps, erase_display-Steps,
  line_feed-Steps, reverse_index-Steps,
}
use portable_terminal.Term.Screen.Control.{
  execute, csi, esc, csi_move, is_move, device_status_report, set_region, param_at, second_or,
}
use portable_terminal.Term.Screen.Modes.{
  plain-Steps, respond-Steps, apply_sgr-Steps, region_page, reset-Steps, set_dec_modes-Steps,
}

module _ (s : Screen) (v : IsScreen s) where
  device_status_report-Steps :
      (ps : List ℕ) (private : Bool) → Steps s (device_status_report ps private s)
  unfolding device_status_report
  device_status_report-Steps ps private =
      either_Steps (get_or ps 0 0 == 5) (λ h. respond-Steps s v _)
        λ h. either_Steps (get_or ps 0 0 == 6) (λ g. respond-Steps s v _) λ g. Steps-refl s v

  set_region-Steps : (ps : List ℕ) → Steps s (set_region ps s)
  unfolding set_region
  set_region-Steps ps =
      let top = max 0 (param_at ps 0 1 - 1) in
      let bot = min s.rows (second_or ps s.rows) in
      either_Steps (ltb top bot)
        (λ h.
          let st =
            page-Steps s v _ refl (region_page s v top bot (ltb→lt top bot h) (omega arith)) in
          Steps-trans st (place_cursor-Steps _ st.valid 0 0))
        λ h. Steps-refl s v

  csi_move-Steps : (final : ℕ) (ps : List ℕ) → Steps s (csi_move final ps s)
  unfolding csi_move
  csi_move-Steps final ps =
      either_Steps (final == b'A') (λ h. place_cursor-Steps s v _ _)
        λ h.
          either_Steps (final == b'B') (λ h. place_cursor-Steps s v _ _)
            λ h.
              either_Steps (final == b'C') (λ h. place_cursor-Steps s v _ _)
                λ h.
                  either_Steps (final == b'D') (λ h. place_cursor-Steps s v _ _)
                    λ h.
                      either_Steps (final == b'E') (λ h. place_cursor-Steps s v _ _)
                        λ h.
                          either_Steps (final == b'F') (λ h. place_cursor-Steps s v _ _)
                            λ h.
                              either_Steps (final == b'G') (λ h. place_cursor-Steps s v _ _)
                                λ h.
                                  either_Steps (final == b'd') (λ h. place_cursor-Steps s v _ _)
                                    λ h. place_cursor-Steps s v _ _

  pub execute-Steps : (c0 : ℕ) → Returns (Steps s) (execute c0 s)
  unfolding execute
  execute-Steps c0 =
      if_Returns (c0 == 7)
        (λ h. returns (plain-Steps s v s.autowrap s.cursor_visible true s.response))
        λ h.
          if_Returns (c0 == 8) (λ h. returns (backspace-Steps s v))
            λ h.
              if_Returns (c0 == 9) (λ h. returns (tab-Steps s v))
                λ h.
                  if_Returns (c0 == 10 || c0 == 11 || c0 == 12) (λ h. line_feed-Steps s v)
                    λ h.
                      if_Returns (c0 == 13) (λ h. returns (carriage_return-Steps s v))
                        λ h. returns (Steps-refl s v)

  pub esc-Steps : (final : ℕ) (is : Bytes) → Returns (Steps s) (esc final is s)
  unfolding esc
  esc-Steps final (i ∷ is) = returns (Steps-refl s v)
  esc-Steps final [] =
      if_Returns (final == b'7') (λ h. returns (save_cursor-Steps s v))
        λ h.
          if_Returns (final == b'8') (λ h. returns (restore_cursor-Steps s v))
            λ h.
              if_Returns (final == b'D') (λ h. line_feed-Steps s v)
                λ h.
                  if_Returns (final == b'M') (λ h. reverse_index-Steps s v)
                    λ h.
                      if_Returns (final == b'E')
                        (λ h.
                          let st = carriage_return-Steps s v in
                          Returns-map (line_feed-Steps _ st.valid) λ t tu. Steps-trans st tu)
                        λ h.
                          if_Returns (final == b'c') (λ h. returns (reset-Steps s v))
                            λ h. returns (Steps-refl s v)

module _ (s : Screen) (v : IsScreen s) where
  pub csi-Steps :
      (final : ℕ) (ps : List ℕ) (is : Bytes) (private : Bool)
      → Returns (Steps s) (csi final ps is private s)
  unfolding csi
  csi-Steps final ps is private =
      let n = u16 (param_at ps 0 1) in
      if_Returns (is_move final) (λ h. returns (csi_move-Steps s v final ps))
        λ h.
          if_Returns (final == b'J') (λ h. erase_display-Steps s v (get_or ps 0 0))
            λ h.
              if_Returns (final == b'K') (λ h. erase_line-Steps s v (get_or ps 0 0))
                λ h.
                  if_Returns (final == b'L') (λ h. insert_lines-Steps s v n)
                    λ h.
                      if_Returns (final == b'M') (λ h. delete_lines-Steps s v n)
                        λ h.
                          if_Returns (final == b'P') (λ h. delete_chars-Steps s v n)
                            λ h.
                              if_Returns (final == b'S') (λ h. scroll_up-Steps s v n)
                                λ h.
                                  if_Returns (final == b'T') (λ h. scroll_down-Steps s v n)
                                    λ h.
                                      if_Returns (final == b'X') (λ h. erase_chars-Steps s v n)
                                        λ h.
                                          if_Returns (final == b'@') (λ h. insert_chars-Steps s v n)
                                            λ h.
                                              if_Returns (final == b'h')
                                                (λ h. returns (
                                                  either_Steps private
                                                    (λ g. set_dec_modes-Steps s v ps true)
                                                    λ g. Steps-refl s v))
                                                λ h.
                                                  if_Returns (final == b'l')
                                                    (λ h. returns (
                                                      either_Steps private
                                                        (λ g. set_dec_modes-Steps s v ps false)
                                                        λ g. Steps-refl s v))
                                                    λ h.
                                                      if_Returns (final == b'm')
                                                        (λ h. returns (
                                                          either_Steps private (λ g. Steps-refl s v)
                                                            λ g. apply_sgr-Steps s v ps))
                                                        λ h.
                                                          if_Returns (final == b'r')
                                                            (λ h. returns (set_region-Steps s v ps))
                                                            λ h.
                                                            if_Returns (final == b'n')
                                                            (λ h. returns (
                                                            device_status_report-Steps s v ps
                                                            private))
                                                            λ h.
                                                            if_Returns (final == b's')
                                                            (λ h. returns (save_cursor-Steps s v))
                                                            λ h.
                                                            if_Returns (final == b'u')
                                                            (λ h.
                                                            returns (restore_cursor-Steps s v))
                                                            λ h. returns (Steps-refl s v)
