-- ===== src/Disco/Tests.antt =====
-- DISCO between two concrete nodes, whose box is 16 zero bytes and the text.
use portable_terminal.Base.{
  ℕ, ◌+◌, ◌≡◌, refl, true, false, not, ◌&&◌, none, some, [], ◌∷◌, ◌++◌, Bytes, arith, length,
  get_or, set, take, drop, replicate, length-replicate, bytes_eq,
}
use portable_terminal.Esp.{esp_ok}
use portable_terminal.Libc.{split_last, strtol, skip_space, signed_value, digits_value}
use portable_terminal.Disco.{
  Env, State, no_pending, magic, header_len, tag_len, msg_pong, peers_max, pending_max, frame_bytes,
  sender_of, build_disco_frame, open_disco_frame, find_pending,
}
use portable_terminal.Disco.Send.{
  send_call_me_maybe, is_too_soon, pack_endpoints, pack_addrport_v4, relay_frame,
}
use portable_terminal.Disco.Receive.{pt_max, rx, dispatch, on_pong, answer_pending, promote}
use portable_terminal.Disco.Liveness.{reverify_sweep}
use portable_terminal.Disco.Wire.{IsBox, open_disco_frame-build}
use portable_terminal.Disco.Trust.{IsAnswer, rx-verifies}
use portable_terminal.Disco.Windows.{is_silent, reverify_sweep-verified}
use portable_terminal.Disco.Rate.{send_call_me_maybe-spaced}

abbrev env : Env
env = record {
  x25519 = λ priv key. replicate 32 0;
  box_seal = λ k n pt. replicate 16 0 ++ pt;
  box_open = λ k n box. some (drop 16 box);
  random = λ i n. replicate n i;
  udp_ok = λ i. true;
  derp_result = λ i. esp_ok;
  ip4addr_aton = λ text. some 0x01020304;
  get_endpoints = (b'1' ∷ b':' ∷ b'9' ∷ []) ∷ [];
  lookup_by_disco = λ key. none;
  get_peer_by_wg_idx = λ i. none;
}

abbrev blank : State
blank = record {
  disco_priv = [];
  disco_pub = [];
  node_pub = [];
  inited = true;
  pending = replicate pending_max no_pending;
  verified = replicate peers_max false;
  last_pong_ts = replicate peers_max 0;
  verified_ep = replicate peers_max (0, 0);
  last_call_me_maybe_ts = replicate peers_max 0;
  draws = 0;
  sent = [];
}

-- our node, with a Ping in flight to peer 3, and that peer
abbrev peer_key : Bytes
peer_key = replicate 32 6

abbrev ours : State
ours = record blank {
  disco_pub = replicate 32 5;
  pending =
      record { in_use = true; tx_id = replicate 12 7; peer_disco_pub = peer_key; wg_peer_index = 3 }
      ∷ replicate 63 no_pending;
}

abbrev peer : State
peer = record blank { disco_pub = peer_key }

abbrev pong : Bytes
pong = msg_pong ∷ 0 ∷ replicate 12 7 ++ replicate 18 0

-- the frame that the peer sends
abbrev pong_frame : Bytes
pong_frame = frame_bytes env peer (replicate 24 0) ours.disco_pub pong

env-IsBox : IsBox env peer ours
env-IsBox = record {
  opens = λ k n pt. refl;
  box_length = λ k n pt. omega arith;
  random_length = λ i n. length-replicate {A = ℕ} n i;
  shared = refl;
  pub_length = refl;
}

open_disco_frame-build_example :
    (take 6 pong_frame ≡ magic)
    × (sender_of pong_frame ≡ peer_key)
    × (length pong_frame ≡ header_len + tag_len + length pong)
    × (open_disco_frame env pong_frame (sender_of pong_frame) pt_max ours ≡ some pong)
unfolding build_disco_frame
open_disco_frame-build_example =
    open_disco_frame-build env peer ours (record peer { draws = 1 }) pong pong_frame 200 env-IsBox
      refl (omega arith)

rx-verifies_example : IsAnswer env pong_frame 3 ours
unfolding rx open_disco_frame dispatch on_pong find_pending answer_pending promote bytes_eq
rx-verifies_example = rx-verifies env 50 pong_frame 0x01020304 41641 ours 3 refl refl

-- peer 3 verified, and silent for longer than fifteen minutes
abbrev silent : State
silent = record blank { verified = set blank.verified 3 true }

reverify_sweep-verified_example :
    get_or (reverify_sweep env 900000001 silent).verified 3 false
    ≡ (true && not (is_silent 900000001 3 silent))
reverify_sweep-verified_example =
    reverify_sweep-verified env 900000001 silent 3 refl refl (omega arith)

-- the state after a CallMeMaybe to peer 2 at 10 seconds
abbrev called : State
called = (send_call_me_maybe env 10000000 2 peer_key peer_key 4 blank).1

send_call_me_maybe-spaced_example :
    (send_call_me_maybe env 39999999 2 peer_key peer_key 4 called).1.sent ≡ called.sent
unfolding send_call_me_maybe is_too_soon pack_endpoints pack_addrport_v4 split_last strtol
    skip_space signed_value digits_value build_disco_frame relay_frame
send_call_me_maybe-spaced_example =
    send_call_me_maybe-spaced env 2 10000000 39999999 peer_key peer_key peer_key peer_key 4 4 blank
      (omega arith) refl (λ h. omega arith) (omega arith) (λ h. absurd (cc))
