-- ===== src/Term/Parser/Buffers.antt =====
-- The stores of the parser stay within its buffers.
use portable_terminal.Base.{
  ℕ, zero, suc, replicate, ◌+◌, ◌-◌, ◌*◌, ◌≤◌, ◌≡◌, refl, sym, ap, subst, ◌∙◌, Bool, true, false,
  ◌&&◌, ◌||◌, List, arith, ltb, leb, ◌==◌, if◌then◌else◌, length, get_or, set, length-set,
  get_or-set_or, inl, inr, length-replicate,
}
use portable_terminal.Term.Parser.State.{
  ParserSink, Mode, csi_param, Parser, new_parser, max_params, max_intermediates, max_osc_len,
  is_param_digit, with_mode, with_first, enter_esc, enter_csi, enter_osc, append_digit,
  append_param, push_param_digit, next_param, push_intermediate, push_esc_intermediate, push_osc,
}
use portable_terminal.Term.Parser.Feed.{with_trailing}

-- The arrays have their sizes, the counts stay within them, and a parameter has at most six digits.
pub record IsParser (p : Parser) : Type 0 where
  pub params_size : length p.params ≡ max_params
  pub n_params_le : p.n_params ≤ max_params
  pub param_le : (i : ℕ) → get_or p.params i 0 ≤ 999999
  pub intermediates_size : length p.intermediates ≡ max_intermediates
  pub n_intermediates_le : p.n_intermediates ≤ max_intermediates
  pub esc_size : length p.esc_intermediates ≡ max_intermediates
  pub n_esc_le : p.n_esc_intermediates ≤ max_intermediates
  pub remaining_le : p.cp_remaining ≤ 3
  pub osc_size : length p.osc_buf ≡ max_osc_len
  pub osc_len_le : p.osc_len ≤ max_osc_len

set_le :
    (ps : List ℕ) (i v m : ℕ)
    → v ≤ m
    → ((j : ℕ) → get_or ps j 0 ≤ m)
    → (j : ℕ) → get_or (set ps i v) j 0 ≤ m
set_le ps i v m le h j = elim (get_or-set_or ps i v 0 j) [
  | inl (_, e) ↦ omega (arith, e)
  | inr e ↦ omega (arith, e, h j)
]

-- another list of parameters
with_params-IsParser :
    (p : Parser) (ps : List ℕ) (n : ℕ) (b o : Bool)
    → IsParser p
    → length ps ≡ max_params
    → n ≤ max_params
    → ((j : ℕ) → get_or ps j 0 ≤ 999999)
    → IsParser (record p { params = ps; n_params = n; param_started = b; csi_overflow = o })
with_params-IsParser p ps n b o v size le bound = record {
  params_size = size;
  n_params_le = le;
  param_le = bound;
  intermediates_size = v.intermediates_size;
  n_intermediates_le = v.n_intermediates_le;
  esc_size = v.esc_size;
  n_esc_le = v.n_esc_le;
  remaining_le = v.remaining_le;
  osc_size = v.osc_size;
  osc_len_le = v.osc_len_le;
}

if_IsParser :
    (b : Bool) {p q : Parser}
    → (b ≡ true → IsParser p)
    → (b ≡ false → IsParser q)
    → IsParser (if b then p else q)
if_IsParser true h k = h refl
if_IsParser false h k = k refl

with_first-IsParser : (p : Parser) → IsParser p → IsParser (with_first p)
with_first-IsParser p v =
    if_IsParser (p.n_params == 0)
      (λ h.
        with_params-IsParser p (set p.params 0 0) 1 p.param_started p.csi_overflow v
          (length-set p.params 0 0 ∙ v.params_size) (omega arith)
          (set_le p.params 0 0 999999 (omega arith) v.param_le))
      λ h. v

digit_le : (cur d : ℕ) → cur ≤ 99999 → is_param_digit d ≡ true → cur * 10 + (d - b'0') ≤ 999999
digit_le cur d le h = ground arith

pub push_param_digit-IsParser :
    (d : ℕ) (p : Parser) → is_param_digit d ≡ true → IsParser p → IsParser (push_param_digit d p)
unfolding push_param_digit append_digit
push_param_digit-IsParser d p0 h v0 =
    let p = with_first p0 in
    let v = with_first-IsParser p0 v0 in
    let i = p.n_params - 1 in
    let cur = get_or p.params i 0 in
    if_IsParser (leb max_params i || ltb 99999 cur)
      (λ g.
        with_params-IsParser p p.params p.n_params p.param_started true v v.params_size
          v.n_params_le v.param_le)
      λ g.
        with_params-IsParser p (set p.params i (cur * 10 + (d - b'0'))) p.n_params true
          p.csi_overflow v (length-set p.params i (cur * 10 + (d - b'0')) ∙ v.params_size)
          v.n_params_le
          (set_le p.params i (cur * 10 + (d - b'0')) 999999 (digit_le cur d (small cur i g) h)
            v.param_le)
  where
    small : (cur i : ℕ) → leb max_params i || ltb 99999 cur ≡ false → cur ≤ 99999
    small cur i g = ground arith

pub next_param-IsParser : (p : Parser) → IsParser p → IsParser (next_param p)
unfolding next_param append_param
next_param-IsParser p0 v0 =
    let p = with_first p0 in
    let v = with_first-IsParser p0 v0 in
    if_IsParser (ltb p.n_params max_params)
      (λ h.
        with_params-IsParser p (set p.params p.n_params 0) (p.n_params + 1) false p.csi_overflow v
          (length-set p.params p.n_params 0 ∙ v.params_size) (room p.n_params h)
          (set_le p.params p.n_params 0 999999 (omega arith) v.param_le))
      λ h.
        with_params-IsParser p p.params p.n_params false true v v.params_size v.n_params_le
          v.param_le
  where
    room : (n : ℕ) → ltb n max_params ≡ true → n + 1 ≤ max_params
    room n h = ground arith

-- the rest of the parser's state; the parameters stay
rest-IsParser :
    (p q : Parser)
    → IsParser p
    → q.params ≡ p.params
    → q.n_params ≤ max_params
    → length q.intermediates ≡ max_intermediates
    → q.n_intermediates ≤ max_intermediates
    → length q.esc_intermediates ≡ max_intermediates
    → q.n_esc_intermediates ≤ max_intermediates
    → q.cp_remaining ≤ 3
    → length q.osc_buf ≡ max_osc_len
    → q.osc_len ≤ max_osc_len
    → IsParser q
rest-IsParser p q v same n isz ile esz ele rem osz ole = record {
  params_size = ap length same ∙ v.params_size;
  n_params_le = n;
  param_le = λ i. subst (λ (ps : List ℕ). get_or ps i 0 ≤ 999999) (sym same) (v.param_le i);
  intermediates_size = isz;
  n_intermediates_le = ile;
  esc_size = esz;
  n_esc_le = ele;
  remaining_le = rem;
  osc_size = osz;
  osc_len_le = ole;
}

module _ (p : Parser) (v : IsParser p) where
  pub with_mode-IsParser : (m : Mode) → IsParser (with_mode m p)
  with_mode-IsParser m =
      rest-IsParser p (with_mode m p) v refl v.n_params_le v.intermediates_size v.n_intermediates_le
        v.esc_size v.n_esc_le v.remaining_le v.osc_size v.osc_len_le

  pub with_cp-IsParser : (cp n : ℕ) → n ≤ 3 → IsParser (record p { cp = cp; cp_remaining = n })
  with_cp-IsParser cp n h =
      rest-IsParser p (record p { cp = cp; cp_remaining = n }) v refl v.n_params_le
        v.intermediates_size v.n_intermediates_le v.esc_size v.n_esc_le h v.osc_size v.osc_len_le

  pub enter_esc-IsParser : IsParser (enter_esc p)
  enter_esc-IsParser =
      rest-IsParser p (enter_esc p) v refl v.n_params_le v.intermediates_size v.n_intermediates_le
        v.esc_size (omega arith) v.remaining_le v.osc_size v.osc_len_le

  pub enter_csi-IsParser : IsParser (enter_csi p)
  enter_csi-IsParser =
      rest-IsParser p (enter_csi p) v refl (omega arith) v.intermediates_size (omega arith)
        v.esc_size v.n_esc_le v.remaining_le v.osc_size v.osc_len_le

  pub enter_osc-IsParser : IsParser (enter_osc p)
  enter_osc-IsParser =
      rest-IsParser p (enter_osc p) v refl v.n_params_le v.intermediates_size v.n_intermediates_le
        v.esc_size v.n_esc_le v.remaining_le v.osc_size (omega arith)

  pub with_private-IsParser : IsParser (record p { private_marker = true; mode = csi_param })
  with_private-IsParser =
      rest-IsParser p _ v refl v.n_params_le v.intermediates_size v.n_intermediates_le v.esc_size
        v.n_esc_le v.remaining_le v.osc_size v.osc_len_le

  pub push_intermediate-IsParser : (b : ℕ) → IsParser (push_intermediate b p)
  unfolding push_intermediate
  push_intermediate-IsParser b =
      if_IsParser (ltb p.n_intermediates max_intermediates)
        (λ h.
          rest-IsParser p _ v refl v.n_params_le
            (length-set p.intermediates p.n_intermediates b ∙ v.intermediates_size) (ground arith)
            v.esc_size v.n_esc_le v.remaining_le v.osc_size v.osc_len_le)
        λ h. v

  pub push_esc_intermediate-IsParser : (b : ℕ) → IsParser (push_esc_intermediate b p)
  unfolding push_esc_intermediate
  push_esc_intermediate-IsParser b =
      if_IsParser (ltb p.n_esc_intermediates max_intermediates)
        (λ h.
          rest-IsParser p _ v refl v.n_params_le v.intermediates_size v.n_intermediates_le
            (length-set p.esc_intermediates p.n_esc_intermediates b ∙ v.esc_size) (ground arith)
            v.remaining_le v.osc_size v.osc_len_le)
        λ h. v

  pub push_osc-IsParser : (b : ℕ) → IsParser (push_osc b p)
  unfolding push_osc
  push_osc-IsParser b =
      if_IsParser (ltb p.osc_len max_osc_len)
        (λ h.
          rest-IsParser p _ v refl v.n_params_le v.intermediates_size v.n_intermediates_le
            v.esc_size v.n_esc_le v.remaining_le (length-set p.osc_buf p.osc_len b ∙ v.osc_size)
            (ground arith))
        λ h.
          rest-IsParser p _ v refl v.n_params_le v.intermediates_size v.n_intermediates_le
            v.esc_size v.n_esc_le v.remaining_le v.osc_size v.osc_len_le

  pub with_trailing-IsParser : {S : Type 0} (sink : ParserSink S) → IsParser (with_trailing sink p)
  with_trailing-IsParser sink =
      if_IsParser (p.n_params == 0 && p.param_started)
        (λ h.
          rest-IsParser p _ v refl (omega arith) v.intermediates_size v.n_intermediates_le
            v.esc_size v.n_esc_le v.remaining_le v.osc_size v.osc_len_le)
        λ h. v

pub new_parser-IsParser : IsParser new_parser
new_parser-IsParser = record {
  params_size = refl;
  n_params_le = omega arith;
  param_le = λ i. zeros_le 16 i;
  intermediates_size = refl;
  n_intermediates_le = omega arith;
  esc_size = refl;
  n_esc_le = omega arith;
  remaining_le = omega arith;
  osc_size = length-replicate {A = ℕ} max_osc_len 0;
  osc_len_le = omega arith;
}
  where
    zeros_le : (n i : ℕ) → get_or (replicate n 0) i 0 ≤ 999999
    zeros_le zero i = omega arith
    zeros_le (suc n) zero = omega arith
    zeros_le (suc n) (suc i) = zeros_le n i
