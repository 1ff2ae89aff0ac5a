-- ===== src/Term/Parser/Feed.antt =====
-- `Parser::feed` over any sink. A mask of a byte's high bits is written as a quotient,
-- `(b & 0xC0) == 0x80` as `b / 64 == 2`, and `b & 0x3F` as a remainder.
use portable_terminal.Base.{
  ℕ, ◌-◌, ◌*◌, ◌/◌, ◌%◌, ◌^◌, true, ◌&&◌, ◌||◌, Option, some, [], ◌∷◌, Bytes, ltb, ◌==◌,
  if◌then◌else◌, bit_or, take, ◌>>=◌,
}
use portable_terminal.Term.Parser.State.{
  ParserSink, Mode, ground_mode, after_esc, esc_intermediate, csi_entry, csi_param,
  csi_intermediate, csi_ignore, osc_string, Parser, is_csi_intermediate, is_csi_final,
  is_csi_private_marker, is_esc_intermediate, is_esc_final, is_c0, is_param_digit, is_separator,
  with_mode, enter_esc, enter_csi, enter_osc, push_param_digit, next_param, push_intermediate,
  push_esc_intermediate, push_osc,
}

module _ {S : Type 0} (sink : ParserSink S) where
  abbrev pub Out : Type 0
  Out = Option (Parser × S)

  -- the parser alone changes
  abbrev pub quiet : Parser → S → Out
  quiet p s = some (p, s)

  -- the sink is called
  abbrev pub calls : Parser → Option S → Out
  calls p m = m >>= λ s. some (p, s)

  unfoldable pub dispatch_csi : ℕ → Parser → S → Out
  dispatch_csi final p s =
      if p.csi_overflow
      then quiet (with_mode ground_mode p) s
      else calls (with_mode ground_mode p) (
          sink.csi final (take p.n_params p.params) (take p.n_intermediates p.intermediates)
            p.private_marker s)

  unfoldable pub dispatch_esc : ℕ → Parser → S → Out
  dispatch_esc final p s =
      calls (with_mode ground_mode p)
        (sink.esc final (take p.n_esc_intermediates p.esc_intermediates) s)

  unfoldable pub dispatch_osc : Parser → S → Out
  dispatch_osc p s =
      if p.osc_overflow
      then quiet (with_mode ground_mode p) s
      else calls (with_mode ground_mode p) (sink.osc (take p.osc_len p.osc_buf) s)

  -- a lead byte, or one of its own
  unfoldable pub on_lead : ℕ → Parser → S → Out
  on_lead b p s =
      if ltb b 0x80
      then calls p (sink.put_char b s)
      else if b / 32 == 6
      then quiet (record p { cp = b % 32; cp_remaining = 1 }) s
      else if b / 16 == 14
      then quiet (record p { cp = b % 16; cp_remaining = 2 }) s
      else if b / 8 == 30
      then quiet (record p { cp = b % 8; cp_remaining = 3 }) s
      else quiet (record p { cp = 0; cp_remaining = 0 }) s

  -- `cp_` after a continuation byte
  abbrev pub joined_cp : ℕ → ℕ → ℕ
  joined_cp cp b = bit_or (cp * 2 ^ 6 % 2 ^ 32) (b % 64)

  unfoldable pub on_continuation : ℕ → Parser → S → Out
  on_continuation b p s =
      let cp = joined_cp p.cp b in
      let left = p.cp_remaining - 1 in
      if left == 0
      then calls (record p { cp = 0; cp_remaining = 0 }) (sink.put_char cp s)
      else quiet (record p { cp = cp; cp_remaining = left }) s

  unfoldable pub on_ground_byte : ℕ → Parser → S → Out
  unfolding on_lead on_continuation
  on_ground_byte b p s =
      if b == 0x1B
      then quiet (enter_esc p) s
      else if b == 0x7F
      then quiet p s
      else if ltb b 0x20
      then calls p (sink.execute b s)
      else if ltb 0 p.cp_remaining
      then (if b / 64 == 2
          then on_continuation b p s
          else on_lead b (record p { cp = 0; cp_remaining = 0 }) s)
      else on_lead b p s

  unfoldable pub on_esc : ℕ → Parser → S → Out
  unfolding dispatch_esc
  on_esc b p s =
      if b == b'['
      then quiet (enter_csi p) s
      else if b == b']'
      then quiet (enter_osc p) s
      else if is_esc_intermediate b
      then quiet (with_mode esc_intermediate (push_esc_intermediate b p)) s
      else if is_esc_final b
      then dispatch_esc b p s
      else if ltb b 0x20
      then calls p (sink.execute b s)
      else quiet (with_mode ground_mode p) s

  unfoldable pub on_esc_intermediate : ℕ → Parser → S → Out
  unfolding dispatch_esc
  on_esc_intermediate b p s =
      if is_esc_intermediate b
      then quiet (push_esc_intermediate b p) s
      else if is_esc_final b
      then dispatch_esc b p s
      else if ltb b 0x20
      then calls p (sink.execute b s)
      else quiet (with_mode ground_mode p) s

  unfoldable pub on_csi_entry : ℕ → Parser → S → Out
  unfolding dispatch_csi
  on_csi_entry b p s =
      if is_c0 b
      then calls p (sink.execute b s)
      else if is_param_digit b
      then quiet (with_mode csi_param (push_param_digit b p)) s
      else if is_separator b
      then quiet (with_mode csi_param (next_param p)) s
      else if is_csi_private_marker b
      then quiet (record p { private_marker = true; mode = csi_param }) s
      else if is_csi_intermediate b
      then quiet (with_mode csi_intermediate (push_intermediate b p)) s
      else if is_csi_final b
      then dispatch_csi b p s
      else quiet (with_mode csi_ignore p) s

  -- an empty trailing parameter is counted
  abbrev pub with_trailing : Parser → Parser
  with_trailing p = if p.n_params == 0 && p.param_started then record p { n_params = 1 } else p

  unfoldable pub on_csi_param : ℕ → Parser → S → Out
  unfolding dispatch_csi
  on_csi_param b p s =
      if is_c0 b
      then calls p (sink.execute b s)
      else if is_param_digit b
      then quiet (push_param_digit b p) s
      else if is_separator b
      then quiet (next_param p) s
      else if is_csi_intermediate b
      then quiet (with_mode csi_intermediate (push_intermediate b p)) s
      else if is_csi_final b
      then dispatch_csi b (with_trailing p) s
      else quiet (with_mode csi_ignore p) s

  unfoldable pub on_csi_intermediate : ℕ → Parser → S → Out
  unfolding dispatch_csi
  on_csi_intermediate b p s =
      if is_c0 b
      then calls p (sink.execute b s)
      else if is_csi_intermediate b
      then quiet (push_intermediate b p) s
      else if is_csi_final b
      then dispatch_csi b p s
      else quiet (with_mode csi_ignore p) s

  unfoldable pub on_csi_ignore : ℕ → Parser → S → Out
  on_csi_ignore b p s =
      if is_c0 b
      then calls p (sink.execute b s)
      else if is_csi_final b
      then quiet (with_mode ground_mode p) s
      else quiet p s

  unfoldable pub on_osc_string : ℕ → Parser → S → Out
  unfolding dispatch_osc
  on_osc_string b p s =
      if b == 0x07
      then dispatch_osc p s
      else if b == 0x1B
      then (dispatch_osc p s >>= λ (q, t). some (enter_esc q, t))
      else quiet (push_osc b p) s

  -- the switch of `feed`
  unfoldable pub on_mode : Mode → ℕ → Parser → S → Out
  unfolding on_ground_byte on_esc on_esc_intermediate on_csi_entry on_csi_param on_csi_intermediate
      on_csi_ignore on_osc_string
  on_mode ground_mode = on_ground_byte
  on_mode after_esc = on_esc
  on_mode esc_intermediate = on_esc_intermediate
  on_mode csi_entry = on_csi_entry
  on_mode csi_param = on_csi_param
  on_mode csi_intermediate = on_csi_intermediate
  on_mode csi_ignore = on_csi_ignore
  on_mode osc_string = on_osc_string

  -- `Parser::feed` of a byte; CAN and SUB abort
  unfoldable pub feed_byte : ℕ → Parser × S → Out
  feed_byte b (p, s) =
      if b == 0x18 || b == 0x1A then quiet (with_mode ground_mode p) s else on_mode p.mode b p s

  -- `Parser::feed` of some bytes
  unfoldable pub feed : Bytes → Parser × S → Out
  feed [] x = some x
  feed (b ∷ bs) x = feed_byte b x >>= feed bs
