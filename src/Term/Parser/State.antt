-- ===== src/Term/Parser/State.antt =====
-- The parser's state and the stores into its buffers.
use portable_terminal.Base.{
  ℕ, ◌+◌, ◌-◌, ◌*◌, Bool, true, false, ◌&&◌, ◌||◌, Option, List, Bytes, ltb, leb, ◌==◌,
  if◌then◌else◌, get_or, set, replicate,
}

-- `IParserSink`, as functions on its state; a call may fail.
pub record ParserSink (S : Type 0) : Type 0 where
  pub put_char : ℕ → S → Option S
  pub execute : ℕ → S → Option S
  pub csi : ℕ → List ℕ → Bytes → Bool → S → Option S
  pub esc : ℕ → Bytes → S → Option S
  pub osc : Bytes → S → Option S

pub data Mode : Type 0 where
  ground_mode : Mode
  after_esc : Mode
  esc_intermediate : Mode
  csi_entry : Mode
  csi_param : Mode
  csi_intermediate : Mode
  csi_ignore : Mode
  osc_string : Mode

abbrev pub max_params : ℕ
max_params = 16

abbrev pub max_intermediates : ℕ
max_intermediates = 2

abbrev pub max_osc_len : ℕ
max_osc_len = 256

-- `mode` is `state_`.
pub record Parser : Type 0 where
  pub mode : Mode
  pub params : List ℕ
  pub n_params : ℕ
  pub param_started : Bool
  pub intermediates : Bytes
  pub n_intermediates : ℕ
  pub private_marker : Bool
  pub csi_overflow : Bool
  pub esc_intermediates : Bytes
  pub n_esc_intermediates : ℕ
  pub cp : ℕ
  pub cp_remaining : ℕ
  pub osc_buf : Bytes
  pub osc_len : ℕ
  pub osc_overflow : Bool

abbrev pub new_parser : Parser
new_parser = record {
  mode = ground_mode;
  params = replicate max_params 0;
  n_params = 0;
  param_started = false;
  intermediates = replicate max_intermediates 0;
  n_intermediates = 0;
  private_marker = false;
  csi_overflow = false;
  esc_intermediates = replicate max_intermediates 0;
  n_esc_intermediates = 0;
  cp = 0;
  cp_remaining = 0;
  osc_buf = replicate max_osc_len 0;
  osc_len = 0;
  osc_overflow = false;
}

abbrev pub is_csi_intermediate : ℕ → Bool
is_csi_intermediate b = leb 0x20 b && leb b 0x2F

abbrev pub is_csi_final : ℕ → Bool
is_csi_final b = leb 0x40 b && leb b 0x7E

abbrev pub is_csi_private_marker : ℕ → Bool
is_csi_private_marker b = leb 0x3C b && leb b 0x3F

abbrev pub is_esc_intermediate : ℕ → Bool
is_esc_intermediate b = leb 0x20 b && leb b 0x2F

abbrev pub is_esc_final : ℕ → Bool
is_esc_final b = leb 0x30 b && leb b 0x7E

abbrev pub is_c0 : ℕ → Bool
is_c0 b = ltb b 0x20

abbrev pub is_param_digit : ℕ → Bool
is_param_digit b = leb b'0' b && leb b b'9'

abbrev pub is_separator : ℕ → Bool
is_separator b = b == b';' || b == b':'

abbrev pub with_mode : Mode → Parser → Parser
with_mode m p = record p { mode = m }

abbrev pub enter_esc : Parser → Parser
enter_esc p = record p { mode = after_esc; n_esc_intermediates = 0 }

abbrev pub enter_csi : Parser → Parser
enter_csi p = record p {
  mode = csi_entry;
  n_params = 0;
  param_started = false;
  n_intermediates = 0;
  private_marker = false;
  csi_overflow = false;
}

abbrev pub enter_osc : Parser → Parser
enter_osc p = record p { mode = osc_string; osc_len = 0; osc_overflow = false }

-- the implicit first parameter
abbrev pub with_first : Parser → Parser
with_first p = if p.n_params == 0 then record p { n_params = 1; params = set p.params 0 0 } else p

abbrev pub overflowed : Parser → Parser
overflowed p = record p { csi_overflow = true }

-- a digit of the last parameter
unfoldable pub append_digit : ℕ → Parser → Parser
append_digit d p =
    let i = p.n_params - 1 in
    let cur = get_or p.params i 0 in
    if leb max_params i || ltb 99999 cur
    then overflowed p
    else record p { params = set p.params i (cur * 10 + (d - b'0')); param_started = true }

unfoldable pub push_param_digit : ℕ → Parser → Parser
unfolding append_digit
push_param_digit d p = append_digit d (with_first p)

-- an empty parameter behind the others
unfoldable pub append_param : Parser → Parser
append_param p =
    if ltb p.n_params max_params
    then record p {
      params = set p.params p.n_params 0;
      n_params = p.n_params + 1;
      param_started = false;
    }
    else record (overflowed p) { param_started = false }

unfoldable pub next_param : Parser → Parser
unfolding append_param
next_param p = append_param (with_first p)

unfoldable pub push_intermediate : ℕ → Parser → Parser
push_intermediate b p =
    if ltb p.n_intermediates max_intermediates
    then record p {
      intermediates = set p.intermediates p.n_intermediates b;
      n_intermediates = p.n_intermediates + 1;
    }
    else p

unfoldable pub push_esc_intermediate : ℕ → Parser → Parser
push_esc_intermediate b p =
    if ltb p.n_esc_intermediates max_intermediates
    then record p {
      esc_intermediates = set p.esc_intermediates p.n_esc_intermediates b;
      n_esc_intermediates = p.n_esc_intermediates + 1;
    }
    else p

unfoldable pub push_osc : ℕ → Parser → Parser
push_osc b p =
    if ltb p.osc_len max_osc_len
    then record p { osc_buf = set p.osc_buf p.osc_len b; osc_len = p.osc_len + 1 }
    else record p { osc_overflow = true }
