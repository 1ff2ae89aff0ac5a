-- ===== src/Term/Terminal/Report.antt =====
-- The cursor position report of screen.cpp, read by the parser of parser.cpp.
use portable_terminal.Base.{
  ℕ, ◌+◌, ◌≡◌, refl, sym, ap, ◌∙◌, Bool, Option, some, List, [], ◌∷◌, ◌++◌, Bytes, arith, length,
  append_assoc, ◌>>=◌,
}
use portable_terminal.Term.Screen.State.{Screen}
use portable_terminal.Term.Screen.Steps.{IsScreen}
use portable_terminal.Term.Screen.Control.{device_status_report, position_report, append_sent}
use portable_terminal.Term.Parser.State.{ParserSink, Parser, ground_mode, max_params}
use portable_terminal.Term.Parser.Feed.{feed}
use portable_terminal.Term.Parser.RoundTrip.{csi_bytes, params_bytes, feed-csi_bytes}

report_bytes :
    (private : Bool) (row col : ℕ)
    → csi_bytes private ((row + 1) ∷ (col + 1) ∷ []) b'R' ≡ position_report private row col
unfolding params_bytes
report_bytes private row col = simp append_assoc

-- The answer to a request for the cursor's position, read by a parser at rest, is the sequence
-- `CSI row ; column R` with the position of the cursor, counted from 1.
pub device_status_report-feed :
    {S : Type 0} (sink : ParserSink S) (private : Bool) (s : Screen) (sent : List Bytes)
    (p : Parser) (t : S)
    → IsScreen s
    → s.response ≡ some sent
    → length p.params ≡ max_params
    → p.mode ≡ ground_mode
    → (report : Bytes) × ((device_status_report (6 ∷ []) private s).response
        ≡ some (sent ++ report ∷ []))
      × ((q : Parser) × (q.mode ≡ ground_mode)
          × (feed sink report (p, t) ≡ (
              sink.csi b'R' ((s.page.cursor_row + 1) ∷ (s.page.cursor_col + 1) ∷ []) [] private t
              >>= λ u. some (q, u))))
unfolding device_status_report
device_status_report-feed sink private s sent p t v on size m =
    let row = s.page.cursor_row in
    let col = s.page.cursor_col in
    let (q, rest, e) =
      feed-csi_bytes sink private (row + 1) ((col + 1) ∷ []) b'R' p t (omega arith)
        (
          omega (arith, v.page_ok.cursor_row_lt, v.rows_fit),
          (omega (arith, v.page_ok.cursor_col_lt, v.cols_fit), tt),
        )
        refl size m in
    (
      position_report private row col,
      ap (λ (o : Option (List Bytes)). append_sent o (position_report private row col)) on,
      (q, rest, ap (λ (bs : Bytes). feed sink bs (p, t)) (sym (report_bytes private row col)) ∙ e),
    )
