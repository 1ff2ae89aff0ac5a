-- ===== src/Telnet.antt =====
-- main/telnet_connection.cpp: the session, the filter of received bytes, the answers to a server's
-- requests and the loop that writes. `writes` is the list of the calls of `write_raw`, in order.
use portable_terminal.Base.{
  ℕ, suc, ◌/◌, ◌%◌, ◌^◌, Bool, true, false, not, ◌&&◌, ◌||◌, Option, none, some, List, [], ◌∷◌,
  ◌++◌, Bytes, ◌==◌, if◌then◌else◌, take, drop, ◌>>=◌,
}
mod Requests
mod Chunks
mod Streams
mod Escaping
mod Sizes
mod Writing
mod Tests

abbrev pub iac : ℕ
iac = 0xFF

abbrev pub dont_cmd : ℕ
dont_cmd = 0xFE

abbrev pub do_cmd : ℕ
do_cmd = 0xFD

abbrev pub wont_cmd : ℕ
wont_cmd = 0xFC

abbrev pub will_cmd : ℕ
will_cmd = 0xFB

abbrev pub sb : ℕ
sb = 0xFA

abbrev pub se : ℕ
se = 0xF0

abbrev pub opt_echo : ℕ
opt_echo = 0x01

abbrev pub opt_sga : ℕ
opt_sga = 0x03

abbrev pub opt_naws : ℕ
opt_naws = 0x1F

pub data RxState : Type 0 where
  in_data : RxState
  in_iac : RxState
  in_iac2 : RxState
  in_sb_head : RxState
  in_sb_data : RxState
  in_sb_iac : RxState

-- The fields without the socket, the stream buffer and `rx_apply`.
pub record Session : Type 0 where
  pub running : Bool
  pub cols : ℕ
  pub rows : ℕ
  pub naws_accepted : Bool
  pub resize_pending : Bool
  pub pstate : RxState
  pub cmd_byte : ℕ
  pub sb_option : ℕ

-- the message that `send_naws_sb` writes
unfoldable pub naws_message : ℕ → ℕ → Bytes
naws_message c r =
    iac
    ∷ sb
    ∷ opt_naws
    ∷ (c / 2 ^ 8 % 2 ^ 8)
    ∷ (c % 2 ^ 8)
    ∷ (r / 2 ^ 8 % 2 ^ 8)
    ∷ (r % 2 ^ 8)
    ∷ iac
    ∷ se
    ∷ []

-- What the bytes of a chunk have come to: the session, the bytes for `rx_apply`, the writes.
pub record Received : Type 0 where
  pub session : Session
  pub data_bytes : Bytes
  pub writes : List Bytes

abbrev pub write_call : Bytes → Received → Received
write_call bytes r = record r { writes = r.writes ++ (bytes ∷ []) }

unfoldable pub send_naws_sb : Received → Received
send_naws_sb r = write_call (naws_message r.session.cols r.session.rows) r

abbrev pub reply : ℕ → ℕ → Bytes
reply cmd opt = iac ∷ cmd ∷ opt ∷ []

abbrev pub accept_naws : Received → Received
accept_naws r = record r { session = record r.session { naws_accepted = true } }

unfoldable pub handle_negotiation : ℕ → ℕ → Received → Received
unfolding send_naws_sb
handle_negotiation cmd opt r =
    if cmd == do_cmd
    then (if opt == opt_naws
        then send_naws_sb (accept_naws (write_call (reply will_cmd opt) r))
        else write_call (reply wont_cmd opt) r)
    else if cmd == will_cmd
    then write_call (reply (if opt == opt_echo || opt == opt_sga then do_cmd else dont_cmd) opt) r
    else if cmd == dont_cmd
    then write_call (reply wont_cmd opt) r
    else if cmd == wont_cmd
    then write_call (reply dont_cmd opt) r
    else r

abbrev pub move : RxState → Received → Received
move t r = record r { session = record r.session { pstate = t } }

abbrev pub keep : ℕ → Received → Received
keep b r = record r { data_bytes = r.data_bytes ++ (b ∷ []) }

abbrev pub note_command : ℕ → Received → Received
note_command b r = record r { session = record r.session { cmd_byte = b } }

abbrev pub note_option : ℕ → Received → Received
note_option b r = record r { session = record r.session { sb_option = b } }

-- the `switch` of `process_rx`
unfoldable pub on_state : RxState → ℕ → Received → Received
unfolding handle_negotiation
on_state in_data b r = if b == iac then move in_iac r else keep b r
on_state in_iac b r =
    if b == iac
    then move in_data (keep iac r)
    else if b == sb
    then move in_sb_head r
    else if b == do_cmd || (b == dont_cmd || (b == will_cmd || b == wont_cmd))
    then move in_iac2 (note_command b r)
    else move in_data r
on_state in_iac2 b r = move in_data (handle_negotiation r.session.cmd_byte b r)
on_state in_sb_head b r = move in_sb_data (note_option b r)
on_state in_sb_data b r = if b == iac then move in_sb_iac r else r
on_state in_sb_iac b r =
    if b == se then move in_data r else if b == iac then move in_sb_data r else move in_data r

unfoldable pub rx_bytes : Bytes → Received → Received
unfolding on_state
rx_bytes [] r = r
rx_bytes (b ∷ bs) r = rx_bytes bs (on_state r.session.pstate b r)

abbrev no_data : Bytes → Bool
no_data [] = true
no_data (_ ∷ _) = false

-- the bytes for which `process_rx` calls `rx_apply`, if it does
abbrev pub delivered : Bool → Bytes → List Bytes
delivered has_sink bytes = if not (no_data bytes) && has_sink then bytes ∷ [] else []

-- The session, the calls of `rx_apply` and those of `write_raw`; the first argument says whether
-- `rx_apply` is set. It always returns true.
unfoldable pub process_rx : Bool → Bytes → Session → Session × (List Bytes × List Bytes)
unfolding rx_bytes
process_rx has_sink buf s =
    let r = rx_bytes buf (record { session = s; data_bytes = []; writes = [] }) in
    (r.session, (delivered has_sink r.data_bytes, r.writes))

-- what `telnet_task` makes of the bytes it takes from the stream buffer
unfoldable pub escape_tx : Bytes → Bytes
escape_tx [] = []
escape_tx (b ∷ bs) = if b == iac then b ∷ iac ∷ escape_tx bs else b ∷ escape_tx bs

-- An answer of `send`: it took a byte and n more, the socket would block, or an error.
pub data SendAnswer : Type 0 where
  sent : ℕ → SendAnswer
  would_block : SendAnswer
  send_failed : SendAnswer

-- The loop of `write_raw` on the answers to come: the bytes that the socket has taken, or nothing
-- if the answers end while it still asks.
unfoldable pub raw_loop : List SendAnswer → Bytes → Option Bytes
raw_loop _ [] = some []
raw_loop [] (_ ∷ _) = none
raw_loop (sent n ∷ answers) (b ∷ bs) =
    raw_loop answers (drop (suc n) (b ∷ bs)) >>= λ rest. some (take (suc n) (b ∷ bs) ++ rest)
raw_loop (would_block ∷ answers) (b ∷ bs) = raw_loop answers (b ∷ bs)
raw_loop (send_failed ∷ _) (_ ∷ _) = some []

-- the first argument says that the socket is open
unfoldable pub write_raw : Bool → List SendAnswer → Bytes → Option Bytes
unfolding raw_loop
write_raw is_open answers bytes = if not is_open then some [] else raw_loop answers bytes

-- the first lines of the loop of `telnet_task`
unfoldable pub flush_resize : Received → Received
unfolding send_naws_sb
flush_resize r =
    let s = r.session in
    let cleared = record r { session = record s { resize_pending = false } } in
    if s.resize_pending then (if s.naws_accepted then send_naws_sb cleared else cleared) else r

unfoldable pub resize_window : ℕ → ℕ → Session → Session
resize_window c r s =
    if not s.running || (c == 0 || r == 0)
    then s
    else record s { cols = c; rows = r; resize_pending = true }

unfoldable pub stop_session : Session → Session
stop_session s = if not s.running then s else record s { running = false }
