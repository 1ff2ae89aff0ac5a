-- ===== src/Term/Parser/Keeps.antt =====
-- The parser stays within its buffers whatever it is fed, and keeps what its sink keeps.
use portable_terminal.Base.{
  ℕ, ◌-◌, ◌/◌, Bool, ◌||◌, Option, some, List, [], ◌∷◌, Bytes, arith, ltb, ◌==◌, ◌>>=◌, Returns,
  returns, if_Returns, Returns-bind,
}
use portable_terminal.Term.Parser.State.{
  ParserSink, Mode, ground_mode, after_esc, esc_intermediate, csi_entry, csi_param,
  csi_intermediate, csi_ignore, osc_string, Parser, is_csi_intermediate, is_csi_final,
  is_csi_private_marker, is_esc_intermediate, is_esc_final, is_c0, is_param_digit, is_separator,
}
use portable_terminal.Term.Parser.Feed.{
  on_mode, feed_byte, feed, dispatch_csi, dispatch_esc, dispatch_osc, on_lead, on_continuation,
  on_ground_byte, on_esc, on_esc_intermediate, on_csi_entry, on_csi_param, on_csi_intermediate,
  on_csi_ignore, on_osc_string,
}
use portable_terminal.Term.Parser.Buffers.{
  IsParser, push_param_digit-IsParser, next_param-IsParser, with_mode-IsParser, with_cp-IsParser,
  enter_esc-IsParser, enter_csi-IsParser, enter_osc-IsParser, with_private-IsParser,
  push_intermediate-IsParser, push_esc_intermediate-IsParser, push_osc-IsParser,
  with_trailing-IsParser,
}

-- A sink that keeps `P` in every call, and never fails where `P` holds.
pub record KeepsIn {S : Type 0} (P : S → Type 0) (sink : ParserSink S) : Type 0 where
  pub put_char_ok : (ch : ℕ) (s : S) → P s → Returns P (sink.put_char ch s)
  pub execute_ok : (c0 : ℕ) (s : S) → P s → Returns P (sink.execute c0 s)
  pub csi_ok :
      (final : ℕ) (ps : List ℕ) (is : Bytes) (private : Bool) (s : S)
      → P s
      → Returns P (sink.csi final ps is private s)
  pub esc_ok : (final : ℕ) (is : Bytes) (s : S) → P s → Returns P (sink.esc final is s)
  pub osc_ok : (text : Bytes) (s : S) → P s → Returns P (sink.osc text s)

module _ {S : Type 0} (P : S → Type 0) (sink : ParserSink S) (k : KeepsIn P sink) where
  abbrev pub Keeps : Option (Parser × S) → Type 0
  Keeps = Returns (λ (x : Parser × S). IsParser x.0 × P x.1)

  module _ (b : ℕ) (p : Parser) (s : S) (v : IsParser p) (h : P s) where
    quiet_ok : (q : Parser) → IsParser q → Keeps (some (q, s))
    quiet_ok q w = returns (w, h)

    calls_ok :
        (q : Parser) (m : Option S) → IsParser q → Returns P m → Keeps (m >>= λ t. some (q, t))
    calls_ok q m w r = Returns-bind r λ t pt. returns (w, pt)

    dispatch_csi_ok : Keeps (dispatch_csi sink b p s)
    unfolding dispatch_csi
    dispatch_csi_ok =
        if_Returns p.csi_overflow (λ g. quiet_ok _ (with_mode-IsParser p v ground_mode))
          λ g.
            calls_ok _ _ (with_mode-IsParser p v ground_mode) (k.csi_ok b _ _ p.private_marker s h)

    dispatch_esc_ok : Keeps (dispatch_esc sink b p s)
    unfolding dispatch_esc
    dispatch_esc_ok = calls_ok _ _ (with_mode-IsParser p v ground_mode) (k.esc_ok b _ s h)

    dispatch_osc_ok : Keeps (dispatch_osc sink p s)
    unfolding dispatch_osc
    dispatch_osc_ok =
        if_Returns p.osc_overflow (λ g. quiet_ok _ (with_mode-IsParser p v ground_mode))
          λ g. calls_ok _ _ (with_mode-IsParser p v ground_mode) (k.osc_ok _ s h)

    execute_ok : Keeps (sink.execute b s >>= λ t. some (p, t))
    execute_ok = calls_ok p _ v (k.execute_ok b s h)

    on_lead_ok : Keeps (on_lead sink b p s)
    unfolding on_lead
    on_lead_ok =
        if_Returns (ltb b 0x80) (λ g. calls_ok p _ v (k.put_char_ok b s h))
          λ g.
            if_Returns (b / 32 == 6) (λ g. quiet_ok _ (with_cp-IsParser p v _ 1 (omega arith)))
              λ g.
                if_Returns (b / 16 == 14) (λ g. quiet_ok _ (with_cp-IsParser p v _ 2 (omega arith)))
                  λ g.
                    if_Returns (b / 8 == 30)
                      (λ g. quiet_ok _ (with_cp-IsParser p v _ 3 (omega arith)))
                      λ g. quiet_ok _ (with_cp-IsParser p v 0 0 (omega arith))

    on_continuation_ok : Keeps (on_continuation sink b p s)
    unfolding on_continuation
    on_continuation_ok =
        if_Returns (p.cp_remaining - 1 == 0)
          (λ g. calls_ok _ _ (with_cp-IsParser p v 0 0 (omega arith)) (k.put_char_ok _ s h))
          λ g.
            quiet_ok _ (with_cp-IsParser p v _ (p.cp_remaining - 1) (omega (arith, v.remaining_le)))

  module _ (b : ℕ) (p : Parser) (s : S) (v : IsParser p) (h : P s) where
    on_ground_byte_ok : Keeps (on_ground_byte sink b p s)
    unfolding on_ground_byte
    on_ground_byte_ok =
        if_Returns (b == 0x1B) (λ g. quiet_ok b p s v h _ (enter_esc-IsParser p v))
          λ g.
            if_Returns (b == 0x7F) (λ g. quiet_ok b p s v h p v)
              λ g.
                if_Returns (ltb b 0x20) (λ g. execute_ok b p s v h)
                  λ g.
                    if_Returns (ltb 0 p.cp_remaining)
                      (λ g.
                        if_Returns (b / 64 == 2) (λ g. on_continuation_ok b p s v h)
                          λ g. on_lead_ok b _ s (with_cp-IsParser p v 0 0 (omega arith)) h)
                      λ g. on_lead_ok b p s v h

    on_esc_ok : Keeps (on_esc sink b p s)
    unfolding on_esc
    on_esc_ok =
        if_Returns (b == b'[') (λ g. quiet_ok b p s v h _ (enter_csi-IsParser p v))
          λ g.
            if_Returns (b == b']') (λ g. quiet_ok b p s v h _ (enter_osc-IsParser p v))
              λ g.
                if_Returns (is_esc_intermediate b)
                  (λ g.
                    quiet_ok b p s v h _ (
                      with_mode-IsParser _ (push_esc_intermediate-IsParser p v b) esc_intermediate))
                  λ g.
                    if_Returns (is_esc_final b) (λ g. dispatch_esc_ok b p s v h)
                      λ g.
                        if_Returns (ltb b 0x20) (λ g. execute_ok b p s v h)
                          λ g. quiet_ok b p s v h _ (with_mode-IsParser p v ground_mode)

    on_esc_intermediate_ok : Keeps (on_esc_intermediate sink b p s)
    unfolding on_esc_intermediate
    on_esc_intermediate_ok =
        if_Returns (is_esc_intermediate b)
          (λ g. quiet_ok b p s v h _ (push_esc_intermediate-IsParser p v b))
          λ g.
            if_Returns (is_esc_final b) (λ g. dispatch_esc_ok b p s v h)
              λ g.
                if_Returns (ltb b 0x20) (λ g. execute_ok b p s v h)
                  λ g. quiet_ok b p s v h _ (with_mode-IsParser p v ground_mode)

    on_csi_entry_ok : Keeps (on_csi_entry sink b p s)
    unfolding on_csi_entry
    on_csi_entry_ok =
        if_Returns (is_c0 b) (λ g. execute_ok b p s v h)
          λ g.
            if_Returns (is_param_digit b)
              (λ d.
                quiet_ok b p s v h _
                  (with_mode-IsParser _ (push_param_digit-IsParser b p d v) csi_param))
              λ g.
                if_Returns (is_separator b)
                  (λ g.
                    quiet_ok b p s v h _ (with_mode-IsParser _ (next_param-IsParser p v) csi_param))
                  λ g.
                    if_Returns (is_csi_private_marker b)
                      (λ g. quiet_ok b p s v h _ (with_private-IsParser p v))
                      λ g.
                        if_Returns (is_csi_intermediate b)
                          (λ g. quiet_ok b p s v h _ (
                            with_mode-IsParser _ (push_intermediate-IsParser p v b)
                              csi_intermediate))
                          λ g.
                            if_Returns (is_csi_final b) (λ g. dispatch_csi_ok b p s v h)
                              λ g. quiet_ok b p s v h _ (with_mode-IsParser p v csi_ignore)

    on_csi_param_ok : Keeps (on_csi_param sink b p s)
    unfolding on_csi_param
    on_csi_param_ok =
        if_Returns (is_c0 b) (λ g. execute_ok b p s v h)
          λ g.
            if_Returns (is_param_digit b)
              (λ d. quiet_ok b p s v h _ (push_param_digit-IsParser b p d v))
              λ g.
                if_Returns (is_separator b) (λ g. quiet_ok b p s v h _ (next_param-IsParser p v))
                  λ g.
                    if_Returns (is_csi_intermediate b)
                      (λ g.
                        quiet_ok b p s v h _ (
                          with_mode-IsParser _ (push_intermediate-IsParser p v b) csi_intermediate))
                      λ g.
                        if_Returns (is_csi_final b)
                          (λ g. dispatch_csi_ok b _ s (with_trailing-IsParser p v sink) h)
                          λ g. quiet_ok b p s v h _ (with_mode-IsParser p v csi_ignore)

    on_csi_intermediate_ok : Keeps (on_csi_intermediate sink b p s)
    unfolding on_csi_intermediate
    on_csi_intermediate_ok =
        if_Returns (is_c0 b) (λ g. execute_ok b p s v h)
          λ g.
            if_Returns (is_csi_intermediate b)
              (λ g. quiet_ok b p s v h _ (push_intermediate-IsParser p v b))
              λ g.
                if_Returns (is_csi_final b) (λ g. dispatch_csi_ok b p s v h)
                  λ g. quiet_ok b p s v h _ (with_mode-IsParser p v csi_ignore)

    on_csi_ignore_ok : Keeps (on_csi_ignore sink b p s)
    unfolding on_csi_ignore
    on_csi_ignore_ok =
        if_Returns (is_c0 b) (λ g. execute_ok b p s v h)
          λ g.
            if_Returns (is_csi_final b)
              (λ g. quiet_ok b p s v h _ (with_mode-IsParser p v ground_mode))
              λ g. quiet_ok b p s v h p v

    on_osc_string_ok : Keeps (on_osc_string sink b p s)
    unfolding on_osc_string
    on_osc_string_ok =
        if_Returns (b == 0x07) (λ g. dispatch_osc_ok b p s v h)
          λ g.
            if_Returns (b == 0x1B)
              (λ g.
                Returns-bind (dispatch_osc_ok b p s v h)
                  λ x kept. returns (enter_esc-IsParser x.0 kept.0, kept.1))
              λ g. quiet_ok b p s v h _ (push_osc-IsParser p v b)

    on_mode_ok : (m : Mode) → Keeps (on_mode sink m b p s)
    unfolding on_mode
    on_mode_ok ground_mode = on_ground_byte_ok
    on_mode_ok after_esc = on_esc_ok
    on_mode_ok esc_intermediate = on_esc_intermediate_ok
    on_mode_ok csi_entry = on_csi_entry_ok
    on_mode_ok csi_param = on_csi_param_ok
    on_mode_ok csi_intermediate = on_csi_intermediate_ok
    on_mode_ok csi_ignore = on_csi_ignore_ok
    on_mode_ok osc_string = on_osc_string_ok

    feed_byte_ok : Keeps (feed_byte sink b (p, s))
    unfolding feed_byte
    feed_byte_ok =
        if_Returns (b == 0x18 || b == 0x1A)
          (λ g. quiet_ok b p s v h _ (with_mode-IsParser p v ground_mode)) λ g. on_mode_ok p.mode

-- Fed any bytes, in any state, the parser never fails: its counts stay within its buffers, a
-- parameter has six digits at most, and whatever the calls of the sink keep is kept.
pub feed_keeps :
    {S : Type 0} (P : S → Type 0) (sink : ParserSink S)
    → KeepsIn P sink
    → (bytes : Bytes) (p : Parser) (s : S) → IsParser p
    → P s
    → Returns (λ (x : Parser × S). IsParser x.0 × P x.1) (feed sink bytes (p, s))
unfolding feed
feed_keeps P sink k [] p s v h = returns (v, h)
feed_keeps P sink k (b ∷ bytes) p s v h =
    Returns-bind (feed_byte_ok P sink k b p s v h)
      λ x kept. feed_keeps P sink k bytes x.0 x.1 kept.0 kept.1
