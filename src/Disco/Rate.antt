-- ===== src/Disco/Rate.antt =====
-- How often components/tailscale/src/tailscale_disco.c sends a CallMeMaybe.
use portable_terminal.Base.{
  ℕ, ◌+◌, ◌-◌, ◌<◌, ◌≡◌, ◌≢◌, refl, ap, ◌∙◌, Bool, true, false, not, ◌&&◌, ◌||◌, ◌==◌, Option, none,
  some, List, ◌∷◌, Bytes, arith, length, get_or, set, take, ltb, if◌then◌else◌, inl, inr, ◌⊎◌,
  get_or-set_self,
}
use portable_terminal.Esp.{EspErr, esp_ok, esp_err_invalid_state, esp_err_invalid_arg, is_esp_ok}
use portable_terminal.Disco.{Env, State, peers_max, build_disco_frame, msg_call_me_maybe}
use portable_terminal.Disco.Send.{
  is_verified_at, is_too_soon, relay_frame, relay_built, send_call_me_maybe,
  call_me_maybe_interval_us, pack_endpoints, max_endpoints, call_me_maybe_frame_len,
}

-- One CallMeMaybe: nothing goes out, or the time of it is noted.
Relayed : ℕ → ℕ → State → State → Type 0
Relayed i now st st' =
    (st'.sent ≡ st.sent) ⊎ (st'.last_call_me_maybe_ts ≡ set st.last_call_me_maybe_ts i now)

if_Relayed :
    (i now : ℕ) (st : State) (b : Bool) (x y : EspErr × State)
    → Relayed i now st x.1
    → Relayed i now st y.1
    → Relayed i now st (if b then x else y).1
if_Relayed i now st true x y h g = h
if_Relayed i now st false x y h g = g

lt→ltb : (a b : ℕ) → a < b → ltb a b ≡ true
lt→ltb a b h = ground arith

noted_lem :
    (b : Bool) (i now : ℕ) (l : List ℕ) → b ≡ true → (if b then set l i now else l) ≡ set l i now
noted_lem true i now l h = refl
noted_lem false i now l h = absurd (cc)

relay_frame-Relayed :
    (env : Env) (i now : ℕ) (key : Bytes) (region : ℕ) (frame : Bytes) (st : State)
    → i < peers_max
    → Relayed i now st (relay_frame env i now key region frame st).1
unfolding relay_frame Relayed
relay_frame-Relayed env i now key region frame st lt =
    if_Relayed i now st (not (is_esp_ok (env.derp_result st.draws))) (env.derp_result st.draws, st)
      _ (inl refl) (inr (noted_lem (ltb i 16) i now st.last_call_me_maybe_ts (lt→ltb i 16 lt)))

relay_built-Relayed :
    (env : Env) (i now : ℕ) (key : Bytes) (region : ℕ) (r : EspErr × Option Bytes × State)
    → i < peers_max
    → Relayed i now r.2 (relay_built env i now key region r).1
unfolding Relayed
relay_built-Relayed env i now key region (esp_ok, some frame, st) lt =
    relay_frame-Relayed env i now key region frame st lt
relay_built-Relayed env i now key region (esp_ok, none, st) lt = inl refl
relay_built-Relayed env i now key region (_, o, st) lt = inl refl

build-same :
    (env : Env) (key inner : Bytes) (size : ℕ) (st : State)
    → ((build_disco_frame env key inner size st).2.sent ≡ st.sent)
      × ((build_disco_frame env key inner size st).2.last_call_me_maybe_ts
          ≡ st.last_call_me_maybe_ts)
unfolding build_disco_frame
build-same env key inner size st = ground arith

send_call_me_maybe-Relayed :
    (env : Env) (now i : ℕ) (node disco : Bytes) (region : ℕ) (st : State)
    → i < peers_max
    → Relayed i now st (send_call_me_maybe env now i node disco region st).1
unfolding send_call_me_maybe Relayed
send_call_me_maybe-Relayed env now i node disco region st lt =
    let records = pack_endpoints env (take max_endpoints env.get_endpoints) in
    let inner = msg_call_me_maybe ∷ 0 ∷ records in
    let built = build_disco_frame env disco inner call_me_maybe_frame_len st in
    let (same_sent, same_times) = build-same env disco inner call_me_maybe_frame_len st in
    let relayed : Relayed i now st (relay_built env i now node region built).1 =
      elim (relay_built-Relayed env i now node region built lt) [
        | inl e ↦ inl (e ∙ same_sent)
        | inr e ↦ inr (e ∙ ap (λ l. set l i now) same_times)
      ] in
    if_Relayed i now st (not st.inited) (esp_err_invalid_state, st) _ (inl refl)
      (if_Relayed i now st (region == 0) (esp_err_invalid_arg, st) _ (inl refl)
        (if_Relayed i now st (is_verified_at i st || is_too_soon i now st) (esp_ok, st) _ (inl refl)
          (if_Relayed i now st (length records == 0) (esp_ok, st) _ (inl refl) relayed)))

if_sent :
    (st : State) (b : Bool) (x y : EspErr × State)
    → x.1.sent ≡ st.sent
    → (b ≡ false → y.1.sent ≡ st.sent)
    → (if b then x else y).1.sent ≡ st.sent
if_sent st true x y h g = h
if_sent st false x y h g = g refl

or_false : (a b : Bool) → b ≡ true → a || b ≢ false
or_false a b h e = ground arith

too_soon_lem :
    (env : Env) (now i : ℕ) (node disco : Bytes) (region : ℕ) (st : State)
    → is_too_soon i now st ≡ true
    → (send_call_me_maybe env now i node disco region st).1.sent ≡ st.sent
unfolding send_call_me_maybe
too_soon_lem env now i node disco region st soon =
    if_sent st (not st.inited) (esp_err_invalid_state, st) _ refl
      (λ _.
        if_sent st (region == 0) (esp_err_invalid_arg, st) _ refl
          (λ _.
            if_sent st (is_verified_at i st || is_too_soon i now st) (esp_ok, st) _ refl
              (λ off. absurd (or_false (is_verified_at i st) (is_too_soon i now st) soon off))))

window :
    (i now now' : ℕ)
    → i < peers_max
    → now ≢ 0
    → now' < now + call_me_maybe_interval_us
    → ltb i peers_max && not (now == 0) && ltb (now' - now) call_me_maybe_interval_us ≡ true
window i now now' lt n soon = ground arith

noted_soon :
    (i now now' : ℕ) (st : State)
    → i < peers_max
    → get_or st.last_call_me_maybe_ts i 0 ≡ now
    → now ≢ 0
    → now' < now + call_me_maybe_interval_us
    → is_too_soon i now' st ≡ true
unfolding is_too_soon
noted_soon i now now' st lt e n soon =
    ap (λ t. ltb i peers_max && not (t == 0) && ltb (now' - t) call_me_maybe_interval_us) e
    ∙ window i now now' lt n soon

-- After a CallMeMaybe to a peer went out at a time other than 0, no other goes to that peer within the
-- thirty seconds that follow, whatever its other arguments are.
pub send_call_me_maybe-spaced :
    (env : Env) (i now now' : ℕ) (node disco node' disco' : Bytes) (region region' : ℕ) (st : State)
    → i < peers_max
    → length st.last_call_me_maybe_ts ≡ peers_max
    → now ≢ 0
    → now' < now + call_me_maybe_interval_us
    → let st' = (send_call_me_maybe env now i node disco region st).1 in
      st'.sent ≢ st.sent
      → (send_call_me_maybe env now' i node' disco' region' st').1.sent ≡ st'.sent
unfolding Relayed
send_call_me_maybe-spaced env i now now' node disco node' disco' region region' st lt size n soon
      went =
    let st' = (send_call_me_maybe env now i node disco region st).1 in
    elim (send_call_me_maybe-Relayed env now i node disco region st lt) [
      | inl same ↦ absurd (went same)
      | inr noted ↦
          let at =
            ap (λ l. get_or l i 0) noted
            ∙ get_or-set_self st.last_call_me_maybe_ts i now 0 (omega (arith, size, lt)) in
          too_soon_lem env now' i node' disco' region' st' (noted_soon i now now' st' lt at n soon)
    ]
