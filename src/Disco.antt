-- ===== src/Disco.antt =====
-- components/tailscale/src/tailscale_disco.c: the state of DISCO, its frames, and what is sent. An IPv4
-- address is its number in host order; IPv6 addresses do not occur. The functions of the crypto
-- library, of lwIP and of the other components are the fields of `Env`; the calls that put something
-- on a wire are listed in `sent`, oldest first. Random bytes are drawn from `random`, counted by
-- `draws`, which also numbers the answers of the two functions that send. Pointer arguments are not NULL, and `s_inited` says whether `ts_disco_init` has run.
pub mod Send
pub mod Receive
pub mod Liveness
pub mod Wire
pub mod Flags
pub mod Trust
pub mod Windows
pub mod Rate
mod Tests
use portable_terminal.Base.{
  ℕ, zero, suc, ◌+◌, ◌-◌, ◌*◌, ◌/◌, ◌%◌, ◌^◌, Bool, true, false, not, ◌&&◌, ◌||◌, ◌==◌, Option,
  none, some, List, [], ◌∷◌, ◌++◌, Bytes, length, get_or, set, take, drop, replicate, ltb, leb,
  if◌then◌else◌, bytes_eq,
}
use portable_terminal.Esp.{
  EspErr, esp_ok, esp_fail, esp_err_no_mem, esp_err_invalid_arg, esp_err_invalid_state,
}
use portable_terminal.Libc.{split_last, atoi, signed_ltb}

-- `pending_ping_t`
pub record PendingPing : Type 0 where
  pub in_use : Bool
  pub tx_id : Bytes
  pub peer_disco_pub : Bytes
  pub wg_peer_index : ℕ

-- what goes out: a UDP datagram, a packet by a relay, a new endpoint for a WireGuard peer
pub data Sent : Type 0 where
  udp_send : ℕ → ℕ → Bytes → Sent
  derp_send : ℕ → Bytes → Bytes → Sent
  update_endpoint : ℕ → ℕ → ℕ → Sent

pub record Env : Type 0 where
  pub x25519 : Bytes → Bytes → Bytes
  pub box_seal : Bytes → Bytes → Bytes → Bytes
  pub box_open : Bytes → Bytes → Bytes → Option Bytes
  pub random : ℕ → ℕ → Bytes
  pub udp_ok : ℕ → Bool
  pub derp_result : ℕ → EspErr
  pub ip4addr_aton : Bytes → Option ℕ
  pub get_endpoints : List Bytes
  pub lookup_by_disco : Bytes → Option (ℕ × Bytes)
  pub get_peer_by_wg_idx : ℕ → Option (Bytes × Bytes)

-- the static variables
pub record State : Type 0 where
  pub disco_priv : Bytes
  pub disco_pub : Bytes
  pub node_pub : Bytes
  pub inited : Bool
  pub pending : List PendingPing
  pub verified : List Bool
  pub last_pong_ts : List ℕ
  pub verified_ep : List (ℕ × ℕ)
  pub last_call_me_maybe_ts : List ℕ
  pub draws : ℕ
  pub sent : List Sent

-- `DISCO_MAGIC`, and the lengths of the fields
abbrev pub magic : Bytes
magic = 0x54 ∷ 0x53 ∷ 0xF0 ∷ 0x9F ∷ 0x92 ∷ 0xAC ∷ []

abbrev pub header_len : ℕ
header_len = 62

abbrev pub tag_len : ℕ
tag_len = 16

abbrev pub inner_hdr_len : ℕ
inner_hdr_len = 2

abbrev pub txid_len : ℕ
txid_len = 12

abbrev pub pending_max : ℕ
pending_max = 64

-- `DISCO_VERIFIED_MAX`, which is `DISCO_PEERS_MAX` too
abbrev pub peers_max : ℕ
peers_max = 16

-- `DISCO_MSG_PING`, `DISCO_MSG_PONG`, `DISCO_MSG_CALL_ME_MAYBE`
abbrev pub msg_ping : ℕ
msg_ping = 1

abbrev pub msg_pong : ℕ
msg_pong = 2

abbrev pub msg_call_me_maybe : ℕ
msg_call_me_maybe = 3

abbrev pub no_pending : PendingPing
no_pending = record {
  in_use = false;
  tx_id = replicate txid_len 0;
  peer_disco_pub = replicate 32 0;
  wg_peer_index = 0;
}

-- `ts_disco_init`; the timer and the registration with WireGuard are left out.
unfoldable pub init : Bytes → Bytes → Bytes → State → State
init disco_priv disco_pub node_pub st = record st {
  disco_priv = disco_priv;
  disco_pub = disco_pub;
  node_pub = node_pub;
  inited = true;
  pending = replicate pending_max no_pending;
  verified = replicate peers_max false;
  last_pong_ts = replicate peers_max 0;
  verified_ep = replicate peers_max (0, 0);
  last_call_me_maybe_ts = replicate peers_max 0;
}

abbrev pub one_further : Option ℕ → Option ℕ
one_further none = none
one_further (some i) = some (suc i)

unfoldable pub find_pending : (PendingPing → Bool) → List PendingPing → Option ℕ
find_pending p [] = none
find_pending p (x ∷ xs) = let rest = find_pending p xs in if p x then some 0 else one_further rest

abbrev pub is_free : PendingPing → Bool
is_free p = not p.in_use

abbrev pub has_tx_id : Bytes → PendingPing → Bool
has_tx_id tx_id p = p.in_use && bytes_eq p.tx_id tx_id

-- `pending_alloc`
abbrev pub pending_alloc : State → Option ℕ
pending_alloc st = find_pending is_free st.pending

-- `pending_find`
abbrev pub pending_find : Bytes → State → Option ℕ
pending_find tx_id st = find_pending (has_tx_id tx_id) st.pending

-- `esp_fill_random`
abbrev pub fill_random : Env → ℕ → State → Bytes × State
fill_random env n st = (env.random st.draws n, record st { draws = st.draws + 1 })

-- the bytes of a frame: the header, then the box
abbrev pub frame_bytes : Env → State → Bytes → Bytes → Bytes → Bytes
frame_bytes env st nonce peer_disco_pub inner_pt =
    magic
    ++ st.disco_pub
    ++ nonce
    ++ env.box_seal (env.x25519 st.disco_priv peer_disco_pub) nonce inner_pt

-- `build_disco_frame`
unfoldable pub build_disco_frame : Env → Bytes → Bytes → ℕ → State → EspErr × Option Bytes × State
build_disco_frame env peer_disco_pub inner_pt out_cap st =
    if ltb out_cap (header_len + tag_len + length inner_pt)
    then (esp_err_no_mem, none, st)
    else let (nonce, st') = fill_random env 24 st in
      (esp_ok, some (frame_bytes env st nonce peer_disco_pub inner_pt), st')

-- the sender's key, the nonce and the box of a frame
abbrev pub sender_of : Bytes → Bytes
sender_of frame = take 32 (drop 6 frame)

abbrev pub nonce_of : Bytes → Bytes
nonce_of frame = take 24 (drop 38 frame)

abbrev pub box_of : Bytes → Bytes
box_of frame = drop header_len frame

-- `open_disco_frame`; `none` is -1.
unfoldable pub open_disco_frame : Env → Bytes → Bytes → ℕ → State → Option Bytes
open_disco_frame env frame sender_pub buf_cap st =
    if ltb (length frame) (header_len + tag_len)
      || ltb buf_cap (length frame - header_len - tag_len)
    then none
    else env.box_open (env.x25519 st.disco_priv sender_pub) (nonce_of frame) (box_of frame)
