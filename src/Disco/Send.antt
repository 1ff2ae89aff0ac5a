-- ===== src/Disco/Send.antt =====
-- What components/tailscale/src/tailscale_disco.c sends: Ping, Pong, CallMeMaybe.
use portable_terminal.Base.{
  ℕ, ◌+◌, ◌-◌, ◌*◌, ◌/◌, ◌%◌, ◌^◌, Bool, true, false, not, ◌&&◌, ◌||◌, ◌==◌, Option, none, some,
  List, [], ◌∷◌, ◌++◌, Bytes, length, get_or, set, take, replicate, ltb, leb, if◌then◌else◌,
}
use portable_terminal.Esp.{
  EspErr, esp_ok, esp_fail, esp_err_no_mem, esp_err_invalid_arg, esp_err_invalid_state, is_esp_ok,
}
use portable_terminal.Libc.{split_last, atoi, signed_ltb}
use portable_terminal.Disco.{
  Env, State, PendingPing, udp_send, derp_send, msg_ping, msg_pong, msg_call_me_maybe,
  inner_hdr_len, txid_len, header_len, tag_len, peers_max, pending_alloc, fill_random,
  build_disco_frame,
}

-- the stores into the pending slot
abbrev pub pending_for : Bytes → Bytes → ℕ → PendingPing
pending_for tx_id peer_disco_pub wg_peer_index = record {
  in_use = true;
  tx_id = tx_id;
  peer_disco_pub = peer_disco_pub;
  wg_peer_index = wg_peer_index;
}

-- from `pending_alloc` on, once the frame is built
unfoldable pub register_ping : Env → ℕ → Bytes → Bytes → ℕ → ℕ → Bytes → State → EspErr × State
register_ping env wg_peer_index tx_id peer_disco_pub ip port frame st = elim (pending_alloc st) [
  | none ↦ (esp_err_no_mem, st)
  | some slot ↦ if not (env.udp_ok st.draws) then (esp_fail, st) else (
    esp_ok,
    record st {
      pending = set st.pending slot (pending_for tx_id peer_disco_pub wg_peer_index);
      sent = st.sent ++ udp_send ip port frame ∷ [];
    },
  )
]

-- `sizeof(frame)` of a Ping
abbrev pub ping_frame_len : ℕ
ping_frame_len = header_len + tag_len + inner_hdr_len + txid_len + 32

-- what follows `build_disco_frame` in `ts_disco_send_ping`
abbrev pub ping_built :
    Env → ℕ → Bytes → Bytes → ℕ → ℕ → EspErr × Option Bytes × State → EspErr × State
ping_built env idx tx_id disco_pub ip port (esp_ok, some frame, st) =
    register_ping env idx tx_id disco_pub ip port frame st
ping_built env idx tx_id disco_pub ip port (err, _, st) = (err, st)

-- `ts_disco_send_ping`; the peer's node key is not used.
unfoldable pub send_ping : Env → ℕ → Bytes → ℕ → ℕ → State → EspErr × State
send_ping env wg_peer_index peer_disco_pub ip port st =
    if not st.inited
    then (esp_err_invalid_state, st)
    else if port == 0
    then (esp_err_invalid_arg, st)
    else let (tx_id, st') = fill_random env txid_len st in
      let inner = msg_ping ∷ 0 ∷ tx_id ++ st'.node_pub in
      ping_built env wg_peer_index tx_id peer_disco_pub ip port
        (build_disco_frame env peer_disco_pub inner ping_frame_len st')

-- the four bytes of an address in network order
abbrev pub ip_bytes : ℕ → Bytes
ip_bytes a = a / 2 ^ 24 % 256 ∷ a / 2 ^ 16 % 256 ∷ a / 2 ^ 8 % 256 ∷ a % 256 ∷ []

-- an IPv4-mapped address and a port, as they are stored into 18 bytes
abbrev pub addrport_bytes : ℕ → ℕ → Bytes
addrport_bytes ip port =
    replicate 10 0 ++ 0xFF ∷ 0xFF ∷ ip_bytes ip ++ port / 2 ^ 8 % 256 ∷ port % 256 ∷ []

-- `pack_addrport_v4`
unfoldable pub pack_addrport_v4 : Env → Bytes → Option Bytes
pack_addrport_v4 env ep_str = elim (split_last b':' ep_str) [
  | none ↦ none
  | some (ip_text, port_text) ↦
      let port = atoi port_text in
      if length ip_text == 0 || leb 40 (length ip_text)
      then none
      else elim (env.ip4addr_aton ip_text) [
        | none ↦ none
        | some ip ↦
            if not (signed_ltb 0 port) || signed_ltb 65535 port
            then none
            else some (addrport_bytes ip port)
      ]
]

abbrev pub packed_or : Option Bytes → Bytes → Bytes
packed_or none rest = rest
packed_or (some record_bytes) rest = record_bytes ++ rest

-- the loop that packs the endpoints that are not empty
unfoldable pub pack_endpoints : Env → List Bytes → Bytes
pack_endpoints env [] = []
pack_endpoints env (ep ∷ eps) =
    let rest = pack_endpoints env eps in
    if length ep == 0 then rest else packed_or (pack_addrport_v4 env ep) rest

-- `DISCO_CALL_ME_MAYBE_INTERVAL_US`
abbrev pub call_me_maybe_interval_us : ℕ
call_me_maybe_interval_us = 30000000

-- whether the rate limit, or a verified path, says to skip the peer
unfoldable pub is_too_soon : ℕ → ℕ → State → Bool
is_too_soon wg_peer_index now st =
    let last = get_or st.last_call_me_maybe_ts wg_peer_index 0 in
    ltb wg_peer_index peers_max && not (last == 0) && ltb (now - last) call_me_maybe_interval_us

abbrev pub is_verified_at : ℕ → State → Bool
is_verified_at wg_peer_index st =
    ltb wg_peer_index peers_max && get_or st.verified wg_peer_index false

-- the frame handed to the relay, and the time of it noted
unfoldable pub relay_frame : Env → ℕ → ℕ → Bytes → ℕ → Bytes → State → EspErr × State
relay_frame env wg_peer_index now peer_node_pub region frame st =
    let err = env.derp_result st.draws in
    if not (is_esp_ok err) then (err, st) else (
      esp_ok,
      record st {
        last_call_me_maybe_ts =
            if ltb wg_peer_index peers_max
            then set st.last_call_me_maybe_ts wg_peer_index now
            else st.last_call_me_maybe_ts;
        sent = st.sent ++ derp_send region peer_node_pub frame ∷ [];
      },
    )

abbrev pub relay_built : Env → ℕ → ℕ → Bytes → ℕ → EspErr × Option Bytes × State → EspErr × State
relay_built env idx now node_pub region (esp_ok, some frame, st) =
    relay_frame env idx now node_pub region frame st
relay_built env idx now node_pub region (err, _, st) = (err, st)

-- `CTRL_MAX_ENDPOINTS`
abbrev pub max_endpoints : ℕ
max_endpoints = 4

-- `sizeof(frame)` of a CallMeMaybe with `CTRL_MAX_ENDPOINTS` records
abbrev pub call_me_maybe_frame_len : ℕ
call_me_maybe_frame_len = header_len + tag_len + inner_hdr_len + 18 * max_endpoints

-- `ts_disco_send_call_me_maybe` at the time `now`
unfoldable pub send_call_me_maybe : Env → ℕ → ℕ → Bytes → Bytes → ℕ → State → EspErr × State
send_call_me_maybe env now wg_peer_index peer_node_pub peer_disco_pub region st =
    if not st.inited
    then (esp_err_invalid_state, st)
    else if region == 0
    then (esp_err_invalid_arg, st)
    else if is_verified_at wg_peer_index st || is_too_soon wg_peer_index now st
    then (esp_ok, st)
    else let records = pack_endpoints env (take max_endpoints env.get_endpoints) in
      if length records == 0
      then (esp_ok, st)
      else let inner = msg_call_me_maybe ∷ 0 ∷ records in
        relay_built env wg_peer_index now peer_node_pub region
          (build_disco_frame env peer_disco_pub inner call_me_maybe_frame_len st)

-- `sizeof(frame)` of a Pong
abbrev pub pong_frame_len : ℕ
pong_frame_len = header_len + tag_len + inner_hdr_len + txid_len + 18

abbrev pub pong_built : Env → ℕ → ℕ → EspErr × Option Bytes × State → State
pong_built env ip port (esp_ok, some frame, st) =
    if env.udp_ok st.draws then record st { sent = st.sent ++ udp_send ip port frame ∷ [] } else st
pong_built env ip port (_, _, st) = st

-- `send_pong`
unfoldable pub send_pong : Env → Bytes → Bytes → ℕ → ℕ → State → State
send_pong env sender_pub tx_id src_ip src_port st =
    let inner = msg_pong ∷ 0 ∷ tx_id ++ addrport_bytes src_ip src_port in
    pong_built env src_ip src_port (build_disco_frame env sender_pub inner pong_frame_len st)
