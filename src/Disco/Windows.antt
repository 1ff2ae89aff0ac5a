-- ===== src/Disco/Windows.antt =====
-- How long a path of components/tailscale/src/tailscale_disco.c stays verified without a Pong.
use portable_terminal.Base.{
  ℕ, zero, suc, ◌-◌, ◌≤◌, ◌<◌, ◌≡◌, ◌≢◌, refl, sym, ap, ◌∙◌, subst, Bool, true, false, not, ◌&&◌,
  ◌==◌, Option, none, some, List, ◌∷◌, ◌++◌, Bytes, arith, length, get_or, set, ltb, if◌then◌else◌,
  Bool-cases, Option-cases, inl, inr, get_or-set_or, get_or-set_self, length-set, ==_iff,
}
use portable_terminal.Esp.{EspErr, esp_ok, esp_err_invalid_state, esp_err_invalid_arg}
use portable_terminal.Disco.{
  Env, State, peers_max, fill_random, build_disco_frame, txid_len, msg_ping,
}
use portable_terminal.Disco.Send.{register_ping, ping_built, ping_frame_len, send_ping}
use portable_terminal.Disco.Liveness.{
  active_us, stale_us, age_of, unverify, probe, sweep_one, sweep_first, reverify_sweep,
}
use portable_terminal.Disco.Flags.{send_ping-verified}

build-last_pong :
    (env : Env) (key inner : Bytes) (size : ℕ) (st : State)
    → (build_disco_frame env key inner size st).2.last_pong_ts ≡ st.last_pong_ts
unfolding build_disco_frame
build-last_pong env key inner size st = ground arith

register-last_pong :
    (env : Env) (i : ℕ) (tx disco : Bytes) (ip port : ℕ) (frame : Bytes) (st : State)
    → (register_ping env i tx disco ip port frame st).1.last_pong_ts ≡ st.last_pong_ts
unfolding register_ping
register-last_pong env i tx disco ip port frame st = ground arith

ping_built-last_pong :
    (env : Env) (i : ℕ) (tx disco : Bytes) (ip port : ℕ) (r : EspErr × Option Bytes × State)
    → (ping_built env i tx disco ip port r).1.last_pong_ts ≡ r.2.last_pong_ts
ping_built-last_pong env i tx disco ip port (esp_ok, some frame, st) =
    register-last_pong env i tx disco ip port frame st
ping_built-last_pong env i tx disco ip port (esp_ok, none, st) = refl
ping_built-last_pong env i tx disco ip port (_, o, st) = refl

if_last_pong :
    (b : Bool) (x y : EspErr × State) (st : State)
    → x.1.last_pong_ts ≡ st.last_pong_ts
    → y.1.last_pong_ts ≡ st.last_pong_ts
    → (if b then x else y).1.last_pong_ts ≡ st.last_pong_ts
if_last_pong true x y st h g = h
if_last_pong false x y st h g = g

send_ping-last_pong :
    (env : Env) (i : ℕ) (disco : Bytes) (ip port : ℕ) (st : State)
    → (send_ping env i disco ip port st).1.last_pong_ts ≡ st.last_pong_ts
unfolding send_ping
send_ping-last_pong env i disco ip port st =
    let (tx_id, st') = fill_random env txid_len st in
    let inner = msg_ping ∷ 0 ∷ tx_id ++ st.node_pub in
    let sent =
      ping_built-last_pong env i tx_id disco ip port
        (build_disco_frame env disco inner ping_frame_len st')
      ∙ build-last_pong env disco inner ping_frame_len st' in
    if_last_pong (not st.inited) (esp_err_invalid_state, st) _ st refl
      (if_last_pong (port == 0) (esp_err_invalid_arg, st) _ st refl sent)

probe-verified : (env : Env) (i : ℕ) (st : State) → (probe env i st).verified ≡ st.verified
unfolding probe
probe-verified env i st = elim (Option-cases (env.get_peer_by_wg_idx i)) [
  | inl e ↦ rw (e, probe)
  | inr ((key, disco), e) ↦
      let (ip, port) = get_or st.verified_ep i (0, 0) in
      rw (e, probe) (send_ping-verified env i disco ip port st)
]

probe-last_pong : (env : Env) (i : ℕ) (st : State) → (probe env i st).last_pong_ts ≡ st.last_pong_ts
unfolding probe
probe-last_pong env i st = elim (Option-cases (env.get_peer_by_wg_idx i)) [
  | inl e ↦ rw (e, probe)
  | inr ((key, disco), e) ↦
      let (ip, port) = get_or st.verified_ep i (0, 0) in
      rw (e, probe) (send_ping-last_pong env i disco ip port st)
]

-- whether a path has been silent for longer than the window
abbrev pub is_silent : ℕ → ℕ → State → Bool
is_silent now i st = ltb stale_us (age_of now i st)

-- A round changes nothing at another index, and at its own only takes the flag of a silent path.
record Swept (now i : ℕ) (st st' : State) : Type 0 where
  size : length st'.verified ≡ length st.verified
  here : get_or st'.verified i false ≡ (get_or st.verified i false && not (is_silent now i st))
  other_flag : (j : ℕ) → j ≢ i → get_or st'.verified j false ≡ get_or st.verified j false
  other_time : (j : ℕ) → j ≢ i → get_or st'.last_pong_ts j 0 ≡ get_or st.last_pong_ts j 0

same_Swept :
    (now i : ℕ) (st st' : State)
    → get_or st.verified i false && not (is_silent now i st) ≡ get_or st.verified i false
    → st'.verified ≡ st.verified
    → st'.last_pong_ts ≡ st.last_pong_ts
    → Swept now i st st'
same_Swept now i st st' fits flags times = record {
  size = ap length flags;
  here = ap (λ l. get_or l i false) flags ∙ sym fits;
  other_flag = λ j h. ap (λ l. get_or l j false) flags;
  other_time = λ j h. ap (λ l. get_or l j 0) times;
}

elsewhere {ℓ} :
    {A : Type ℓ} (xs : List A) (i : ℕ) (v d : A) (j : ℕ)
    → j ≢ i
    → get_or (set xs i v) j d ≡ get_or xs j d
elsewhere xs i v d j h = elim (get_or-set_or xs i v d j) [
  | inl (same, _) ↦ absurd (h (sym same))
  | inr e ↦ e
]

masked : (f q : Bool) → q ≡ true → f && not q ≡ false
masked f q h = ground arith

unmasked : (f q : Bool) → q ≡ false → f && not q ≡ f
unmasked f q h = ground arith

unflagged : (f q : Bool) → not f ≡ true → f && not q ≡ f
unflagged f q h = ground arith

if_Swept :
    (now i : ℕ) (st x y : State) (b : Bool)
    → (b ≡ true → Swept now i st x)
    → (b ≡ false → Swept now i st y)
    → Swept now i st (if b then x else y)
if_Swept now i st x y true h g = h refl
if_Swept now i st x y false h g = g refl

silent_Swept :
    (now i : ℕ) (st : State)
    → i < length st.verified
    → is_silent now i st ≡ true
    → Swept now i st (unverify i st)
silent_Swept now i st lt silent = record {
  size = length-set st.verified i false;
  here =
      get_or-set_self st.verified i false false lt
      ∙ sym (masked (get_or st.verified i false) (is_silent now i st) silent);
  other_flag = λ j h. elsewhere st.verified i false false j h;
  other_time = λ j h. elsewhere st.last_pong_ts i 0 0 j h;
}

sweep_one-Swept :
    (env : Env) (now i : ℕ) (st : State)
    → i < length st.verified
    → Swept now i st (sweep_one env now i st)
unfolding sweep_one
sweep_one-Swept env now i st lt =
    let flag = get_or st.verified i false in
    let quiet = is_silent now i st in
    if_Swept now i st _ _ (not flag)
      (λ off. same_Swept now i st st (unflagged flag quiet off) refl refl)
      (λ on.
        if_Swept now i st _ _ quiet (λ silent. silent_Swept now i st lt silent)
          (λ heard.
            if_Swept now i st _ _ (ltb active_us (age_of now i st))
              (λ old.
                same_Swept now i st (probe env i st) (unmasked flag quiet heard)
                  (probe-verified env i st) (probe-last_pong env i st))
              (λ young. same_Swept now i st st (unmasked flag quiet heard) refl refl)))

differ : (j n : ℕ) → (j == n) ≡ false → j ≢ n
differ j n h e = ground arith

below : (j n : ℕ) → j < suc n → (j == n) ≡ false → j < n
below j n lt h = ground arith

-- What the rounds of the first `n` peers leave.
record SweptTo (now n : ℕ) (st st' : State) : Type 0 where
  size : length st'.verified ≡ length st.verified
  done :
      (j : ℕ)
      → j < n
      → get_or st'.verified j false ≡ (get_or st.verified j false && not (is_silent now j st))
  later_flag : (j : ℕ) → n ≤ j → get_or st'.verified j false ≡ get_or st.verified j false
  later_time : (j : ℕ) → n ≤ j → get_or st'.last_pong_ts j 0 ≡ get_or st.last_pong_ts j 0

sweep_first-SweptTo :
    (env : Env) (now n : ℕ) (st : State)
    → n ≤ length st.verified
    → SweptTo now n st (sweep_first env now n st)
unfolding sweep_first
sweep_first-SweptTo env now zero st h = record {
  size = refl;
  done = λ j lt. absurd (omega arith);
  later_flag = λ j le. refl;
  later_time = λ j le. refl;
}
sweep_first-SweptTo env now (suc n) st h =
    let st' = sweep_first env now n st in
    let ih = sweep_first-SweptTo env now n st (omega arith) in
    let step = sweep_one-Swept env now n st' (omega (arith, ih.size)) in
    record {
      size = step.size ∙ ih.size;
      done = λ j lt. elim (Bool-cases (j == n)) [
        | inr ne ↦ step.other_flag j (λ e. differ j n ne e) ∙ ih.done j (below j n lt ne)
        | inl e ↦
            subst
              (λ k.
                get_or (sweep_one env now n st').verified k false
                ≡ (get_or st.verified k false && not (is_silent now k st)))
              (sym ((==_iff j n).0 e))
              (step.here
                ∙ ap (λ t. get_or st'.verified n false && not (ltb stale_us (now - t)))
                    (ih.later_time n (omega arith))
                ∙ ap (λ f. f && not (is_silent now n st)) (ih.later_flag n (omega arith)))
      ];
      later_flag = λ j le. step.other_flag j (λ e. omega arith) ∙ ih.later_flag j (omega arith);
      later_time = λ j le. step.other_time j (λ e. omega arith) ∙ ih.later_time j (omega arith);
    }

-- The sweep takes the verification of exactly those peers that have been silent for more than fifteen
-- minutes, and gives it to none, if DISCO is initialised and its table has its sixteen entries.
pub reverify_sweep-verified :
    (env : Env) (now : ℕ) (st : State) (j : ℕ)
    → st.inited ≡ true
    → length st.verified ≡ peers_max
    → j < peers_max
    → get_or (reverify_sweep env now st).verified j false
      ≡ (get_or st.verified j false && not (is_silent now j st))
unfolding reverify_sweep
reverify_sweep-verified env now st j ready size lt =
    let swept = sweep_first-SweptTo env now peers_max st (omega (arith, size)) in
    let all = sweep_first env now peers_max st in
    ap (λ b. get_or (if b then all else st).verified j false) ready ∙ swept.done j lt
