-- ===== src/Telnet/Tests.antt =====
-- A session of 80 columns and 24 rows.
use portable_terminal.Base.{◌≡◌, refl, true, false, none, some, List, [], ◌∷◌, Bytes, arith}
use portable_terminal.Telnet.{
  opt_naws, opt_echo, in_data, Session, naws_message, send_naws_sb, rx_bytes, escape_tx, sent,
  would_block, send_failed, SendAnswer, write_raw, flush_resize, resize_window, stop_session,
}
use portable_terminal.Telnet.Requests.{Item, byte, command, request, subnegotiation, do_it, will_do}
use portable_terminal.Telnet.Chunks.{joined, fresh, results, receive_all, receive_all-joined}
use portable_terminal.Telnet.Escaping.{receive_all-escape_tx}
use portable_terminal.Telnet.Sizes.{payload, read_naws, naws_message-read}
use portable_terminal.Telnet.Writing.{progress, write_raw_completes}

abbrev session : Session
session = record {
  running = true;
  cols = 80;
  rows = 24;
  naws_accepted = false;
  resize_pending = false;
  pstate = in_data;
  cmd_byte = 0;
  sb_option = 0;
}

-- a prompt among requests, a no-operation and a subnegotiation with a 255 in it
abbrev greeting : List Item
greeting =
    request do_it opt_naws
    ∷ byte b'o'
    ∷ request will_do opt_echo
    ∷ byte 255
    ∷ command 241
    ∷ subnegotiation 24 (1 ∷ 255 ∷ [])
    ∷ byte b'k'
    ∷ []

abbrev pieces : List Bytes
pieces =
    (255 ∷ 253 ∷ [])
    ∷ (31 ∷ b'o' ∷ 255 ∷ 251 ∷ 1 ∷ 255 ∷ [])
    ∷ (255 ∷ 255 ∷ 241 ∷ 255 ∷ 250 ∷ 24 ∷ 1 ∷ 255 ∷ [])
    ∷ (255 ∷ 255 ∷ 240 ∷ b'k' ∷ [])
    ∷ []

receive_all-joined_example :
    receive_all true pieces session ≡ results (rx_bytes (joined pieces) (fresh session))
receive_all-joined_example = receive_all-joined pieces session

receive_all-escape_tx_example :
    let out = receive_all true ((7 ∷ 255 ∷ []) ∷ (255 ∷ 9 ∷ []) ∷ []) session in
    (out.1.0 ≡ 7 ∷ 255 ∷ 9 ∷ []) × (out.1.1 ≡ []) × (out.0.pstate ≡ in_data)
unfolding escape_tx
receive_all-escape_tx_example =
    receive_all-escape_tx (7 ∷ 255 ∷ 9 ∷ []) ((7 ∷ 255 ∷ []) ∷ (255 ∷ 9 ∷ []) ∷ []) session refl
      refl

naws_message-read_example : read_naws (naws_message 80 24) ≡ some (80, 24)
naws_message-read_example =
    naws_message-read 80 24 (omega arith) (omega arith) (omega arith) (omega arith) (omega arith)
      (omega arith)

-- 255 columns are not understood: the byte 255 of the message is not doubled
wide_screen : read_naws (naws_message 255 24) ≡ none
unfolding read_naws naws_message payload
wide_screen = refl

abbrev slow : List SendAnswer
slow = sent 0 ∷ would_block ∷ sent 0 ∷ would_block ∷ sent 1 ∷ send_failed ∷ []

write_raw_completes_example : write_raw true slow (7 ∷ 8 ∷ 9 ∷ []) ≡ some (7 ∷ 8 ∷ 9 ∷ [])
unfolding progress
write_raw_completes_example = write_raw_completes slow (7 ∷ 8 ∷ 9 ∷ []) (omega arith)

-- a change of the size is sent once, when the server has asked for sizes
resized_once :
    let r = flush_resize (fresh (resize_window 100 30 (record session { naws_accepted = true }))) in
    (r.writes ≡ naws_message 100 30 ∷ []) × (flush_resize r ≡ r)
unfolding flush_resize resize_window send_naws_sb
resized_once = (refl, refl)

-- without the request nothing is sent, and a stopped session takes no size
resize_kept_back :
    ((flush_resize (fresh (resize_window 100 30 session))).writes ≡ [])
    × (resize_window 100 30 (stop_session session) ≡ stop_session session)
unfolding flush_resize resize_window stop_session
resize_kept_back = (refl, refl)
