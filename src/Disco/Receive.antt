-- ===== src/Disco/Receive.antt =====
-- `ts_disco_rx` of components/tailscale/src/tailscale_disco.c.
use portable_terminal.Base.{
  ℕ, zero, suc, ◌+◌, ◌*◌, ◌/◌, ◌%◌, ◌^◌, Bool, true, false, not, ◌&&◌, ◌||◌, ◌==◌, Option, none,
  some, [], ◌∷◌, ◌++◌, Bytes, length, get_or, set, take, drop, ltb, if◌then◌else◌, bytes_eq,
}
use portable_terminal.Disco.{
  Env, State, PendingPing, update_endpoint, magic, header_len, tag_len, inner_hdr_len, txid_len,
  peers_max, msg_ping, msg_pong, msg_call_me_maybe, no_pending, pending_find, sender_of,
  open_disco_frame,
}
use portable_terminal.Disco.Send.{send_ping, send_pong, is_verified_at}

-- the address of the datagram is none of 127.3.3.0/24, by which relayed packets come in
abbrev pub is_derp_pseudo : ℕ → Bool
is_derp_pseudo ip = ip / 2 ^ 8 * 2 ^ 8 == 0x7F030300

-- a Ping over a verified direct path refreshes the liveness clock
unfoldable pub refresh_sender : Env → ℕ → Bytes → ℕ → State → State
refresh_sender env now sender_pub src_ip st =
    if is_derp_pseudo src_ip then st else elim (env.lookup_by_disco sender_pub) [
      | none ↦ st
      | some (wg_idx, _) ↦
          if is_verified_at wg_idx st
          then record st { last_pong_ts = set st.last_pong_ts wg_idx now }
          else st
    ]

-- `case DISCO_MSG_PING`
unfoldable pub on_ping : Env → ℕ → Bytes → Bytes → ℕ → ℕ → State → State
on_ping env now sender_pub pt src_ip src_port st =
    if ltb (length pt) (inner_hdr_len + txid_len)
    then st
    else refresh_sender env now sender_pub src_ip
        (send_pong env sender_pub (take txid_len (drop inner_hdr_len pt)) src_ip src_port st)

-- the first valid Pong promotes the peer, a later one refreshes it
unfoldable pub promote : ℕ → ℕ → ℕ → ℕ → State → State
promote now wg_idx src_ip src_port st =
    if is_verified_at wg_idx st
    then record st { last_pong_ts = set st.last_pong_ts wg_idx now }
    else if ltb wg_idx peers_max
    then record st {
      verified = set st.verified wg_idx true;
      last_pong_ts = set st.last_pong_ts wg_idx now;
      verified_ep = set st.verified_ep wg_idx (src_ip, src_port);
      sent = st.sent ++ update_endpoint wg_idx src_ip src_port ∷ [];
    }
    else record st { sent = st.sent ++ update_endpoint wg_idx src_ip src_port ∷ [] }

abbrev pub released : PendingPing → PendingPing
released pp = record pp { in_use = false }

-- the Pong's pending Ping, if the responder is who was pinged
unfoldable pub answer_pending : ℕ → Bytes → ℕ → ℕ → ℕ → State → State
answer_pending now sender_pub slot src_ip src_port st =
    let pp = get_or st.pending slot no_pending in
    if not (bytes_eq pp.peer_disco_pub sender_pub)
    then st
    else promote now pp.wg_peer_index src_ip src_port
        (record st { pending = set st.pending slot (released pp) })

-- `case DISCO_MSG_PONG`
unfoldable pub on_pong : ℕ → Bytes → Bytes → ℕ → ℕ → State → State
on_pong now sender_pub pt src_ip src_port st =
    if ltb (length pt) (inner_hdr_len + txid_len)
    then st
    else elim (pending_find (take txid_len (drop inner_hdr_len pt)) st) [
      | none ↦ st
      | some slot ↦ answer_pending now sender_pub slot src_ip src_port st
    ]

unfoldable pub all_zero : Bytes → Bool
all_zero [] = true
all_zero (b ∷ bs) = b == 0 && all_zero bs

-- the address and the port of an 18-byte record, if a Ping may go there
unfoldable pub unpack_addrport_v4 : Bytes → Option (ℕ × ℕ)
unpack_addrport_v4 rec =
    let ip =
      get_or rec 12 0 * 2 ^ 24
      + get_or rec 13 0 * 2 ^ 16
      + get_or rec 14 0 * 2 ^ 8
      + get_or rec 15 0 in
    let port = get_or rec 16 0 * 2 ^ 8 + get_or rec 17 0 in
    if not (all_zero (take 10 rec))
      || not (get_or rec 10 0 == 0xFF)
      || not (get_or rec 11 0 == 0xFF)
    then none
    else if port == 0 || ip == 0
    then none
    else if ip / 2 ^ 24 == 0x7F || ip / 2 ^ 28 == 0xE
    then none
    else some (ip, port)

-- one record: a Ping to its address
unfoldable pub ping_record : Env → ℕ → Bytes → Option (ℕ × ℕ) → State → State
ping_record env wg_idx sender_pub none st = st
ping_record env wg_idx sender_pub (some (ip, port)) st =
    (send_ping env wg_idx sender_pub ip port st).1

-- the loop over the `n` records
unfoldable pub ping_records : Env → ℕ → Bytes → ℕ → Bytes → State → State
ping_records env wg_idx sender_pub zero body st = st
ping_records env wg_idx sender_pub (suc n) body st =
    ping_records env wg_idx sender_pub n (drop 18 body)
      (ping_record env wg_idx sender_pub (unpack_addrport_v4 (take 18 body)) st)

-- `case DISCO_MSG_CALL_ME_MAYBE`
unfoldable pub on_call_me_maybe : Env → Bytes → Bytes → State → State
on_call_me_maybe env sender_pub pt st =
    let body = drop inner_hdr_len pt in
    if not (length body % 18 == 0) then st else elim (env.lookup_by_disco sender_pub) [
      | none ↦ st
      | some (wg_idx, _) ↦ ping_records env wg_idx sender_pub (length body / 18) body st
    ]

-- the `switch` on the type of the message
unfoldable pub dispatch : Env → ℕ → Bytes → Bytes → ℕ → ℕ → State → State
dispatch env now sender_pub pt src_ip src_port st =
    let type = get_or pt 0 0 in
    if type == msg_ping
    then on_ping env now sender_pub pt src_ip src_port st
    else if type == msg_pong
    then on_pong now sender_pub pt src_ip src_port st
    else if type == msg_call_me_maybe
    then on_call_me_maybe env sender_pub pt st
    else st

-- `sizeof(pt)`
abbrev pub pt_max : ℕ
pt_max = 256

-- `ts_disco_rx` at the time `now`
unfoldable pub rx : Env → ℕ → Bytes → ℕ → ℕ → State → State
rx env now frame src_ip src_port st =
    if not st.inited
      || ltb (length frame) (header_len + tag_len + inner_hdr_len)
      || not (bytes_eq (take 6 frame) magic)
    then st
    else elim (open_disco_frame env frame (sender_of frame) pt_max st) [
      | none ↦ st
      | some pt ↦
          if ltb (length pt) inner_hdr_len
          then st
          else dispatch env now (sender_of frame) pt src_ip src_port st
    ]
