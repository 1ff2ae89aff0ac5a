-- ===== src/Disco/Flags.antt =====
-- Sending and the handlers of Ping and CallMeMaybe leave the flags of verified paths in
-- components/tailscale/src/tailscale_disco.c alone.
use portable_terminal.Base.{
  ℕ, zero, suc, ◌+◌, ◌/◌, ◌%◌, ◌≡◌, refl, ◌∙◌, Bool, true, false, not, ◌==◌, Option, none, some,
  ◌∷◌, ◌++◌, Bytes, arith, length, take, drop, ltb, if◌then◌else◌, Bool-cases, Option-cases, inl,
  inr,
}
use portable_terminal.Esp.{EspErr, esp_ok, esp_err_invalid_state, esp_err_invalid_arg}
use portable_terminal.Disco.{
  Env, State, inner_hdr_len, txid_len, msg_ping, msg_pong, fill_random, build_disco_frame,
}
use portable_terminal.Disco.Send.{
  register_ping, ping_built, send_ping, pong_built, send_pong, ping_frame_len, pong_frame_len,
  addrport_bytes,
}
use portable_terminal.Disco.Receive.{
  refresh_sender, on_ping, unpack_addrport_v4, ping_record, ping_records, on_call_me_maybe,
}

pub build-verified :
    (env : Env) (key inner : Bytes) (size : ℕ) (st : State)
    → (build_disco_frame env key inner size st).2.verified ≡ st.verified
unfolding build_disco_frame
build-verified env key inner size st = ground arith

pub register-verified :
    (env : Env) (i : ℕ) (tx disco : Bytes) (ip port : ℕ) (frame : Bytes) (st : State)
    → (register_ping env i tx disco ip port frame st).1.verified ≡ st.verified
unfolding register_ping
register-verified env i tx disco ip port frame st = ground arith

pub ping_built-verified :
    (env : Env) (i : ℕ) (tx disco : Bytes) (ip port : ℕ) (r : EspErr × Option Bytes × State)
    → (ping_built env i tx disco ip port r).1.verified ≡ r.2.verified
ping_built-verified env i tx disco ip port (esp_ok, some frame, st) =
    register-verified env i tx disco ip port frame st
ping_built-verified env i tx disco ip port (esp_ok, none, st) = refl
ping_built-verified env i tx disco ip port (_, o, st) = refl

if_verified :
    (b : Bool) (x y : EspErr × State) (st : State)
    → x.1.verified ≡ st.verified
    → y.1.verified ≡ st.verified
    → (if b then x else y).1.verified ≡ st.verified
if_verified true x y st h g = h
if_verified false x y st h g = g

pub send_ping-verified :
    (env : Env) (i : ℕ) (disco : Bytes) (ip port : ℕ) (st : State)
    → (send_ping env i disco ip port st).1.verified ≡ st.verified
unfolding send_ping
send_ping-verified env i disco ip port st =
    let (tx_id, st') = fill_random env txid_len st in
    let inner = msg_ping ∷ 0 ∷ tx_id ++ st.node_pub in
    let sent =
      ping_built-verified env i tx_id disco ip port
        (build_disco_frame env disco inner ping_frame_len st')
      ∙ build-verified env disco inner ping_frame_len st' in
    if_verified (not st.inited) (esp_err_invalid_state, st) _ st refl
      (if_verified (port == 0) (esp_err_invalid_arg, st) _ st refl sent)

pub pong_built-verified :
    (env : Env) (ip port : ℕ) (r : EspErr × Option Bytes × State)
    → (pong_built env ip port r).verified ≡ r.2.verified
pong_built-verified env ip port (esp_ok, some frame, st) = ground arith
pong_built-verified env ip port (esp_ok, none, st) = refl
pong_built-verified env ip port (_, o, st) = refl

pub send_pong-verified :
    (env : Env) (sender tx : Bytes) (ip port : ℕ) (st : State)
    → (send_pong env sender tx ip port st).verified ≡ st.verified
unfolding send_pong
send_pong-verified env sender tx ip port st =
    let inner = msg_pong ∷ 0 ∷ tx ++ addrport_bytes ip port in
    pong_built-verified env ip port (build_disco_frame env sender inner pong_frame_len st)
    ∙ build-verified env sender inner pong_frame_len st

pub refresh-verified :
    (env : Env) (now : ℕ) (sender : Bytes) (ip : ℕ) (st : State)
    → (refresh_sender env now sender ip st).verified ≡ st.verified
unfolding refresh_sender
refresh-verified env now sender ip st = ground arith

pub ping_record-verified :
    (env : Env) (i : ℕ) (sender : Bytes) (o : Option (ℕ × ℕ)) (st : State)
    → (ping_record env i sender o st).verified ≡ st.verified
unfolding ping_record
ping_record-verified env i sender none st = refl
ping_record-verified env i sender (some (ip, port)) st = send_ping-verified env i sender ip port st

pub ping_records-verified :
    (env : Env) (i : ℕ) (sender : Bytes) (n : ℕ) (body : Bytes) (st : State)
    → (ping_records env i sender n body st).verified ≡ st.verified
unfolding ping_records
ping_records-verified env i sender zero body st = refl
ping_records-verified env i sender (suc n) body st =
    let st' = ping_record env i sender (unpack_addrport_v4 (take 18 body)) st in
    ping_records-verified env i sender n (drop 18 body) st'
    ∙ ping_record-verified env i sender (unpack_addrport_v4 (take 18 body)) st

pub call_me_maybe-verified :
    (env : Env) (sender pt : Bytes) (st : State)
    → (on_call_me_maybe env sender pt st).verified ≡ st.verified
unfolding on_call_me_maybe
call_me_maybe-verified env sender pt st =
    let body = drop inner_hdr_len pt in
    let n = length body / 18 in
    elim (Bool-cases (not (length body % 18 == 0))) [
      | inl e ↦ rw e
      | inr e ↦ elim (Option-cases (env.lookup_by_disco sender)) [
        | inl g ↦ rw (e, g)
        | inr ((i, key), g) ↦ rw (e, g) (ping_records-verified env i sender n body st)
      ]
    ]

pub on_ping-verified :
    (env : Env) (now : ℕ) (sender pt : Bytes) (ip port : ℕ) (st : State)
    → (on_ping env now sender pt ip port st).verified ≡ st.verified
unfolding on_ping
on_ping-verified env now sender pt ip port st =
    let tx_id = take txid_len (drop inner_hdr_len pt) in
    let sent = send_pong-verified env sender tx_id ip port st in
    elim (Bool-cases (ltb (length pt) (inner_hdr_len + txid_len))) [
      | inl e ↦ rw e
      | inr e ↦
          rw e (refresh-verified env now sender ip (send_pong env sender tx_id ip port st) ∙ sent)
    ]
