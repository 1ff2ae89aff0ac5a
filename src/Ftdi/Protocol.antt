-- ===== src/Ftdi/Protocol.antt =====
-- components/usb_host_ftdi_sio/src/ftdi_host_protocol.c: the vendor requests and the modem status.
-- An output pointer is the optional old content of what it points to (`none` is NULL); a function
-- returns its error code beside the new content. `x << k` is `x * 2 ^ k`, `x >> k` is `x / 2 ^ k`
-- and a mask of k low bits is `% 2 ^ k`; `|` is the native `bit_or`.
pub mod Baud
pub mod Fields
use portable_terminal.Base.{
  ℕ, ◌+◌, ◌*◌, ◌/◌, ◌%◌, ◌^◌, bit_or, Bool, true, false, not, ◌&&◌, ◌||◌, Option, none, some, ltb,
  ◌==◌, if◌then◌else◌,
}
use portable_terminal.Esp.{EspErr, esp_ok, esp_err_invalid_arg}
use portable_terminal.Ftdi.{
  ChipType, ft232r, ft232h, ft2232d, ft4232h, ft230x, ControlRequest, ModemStatus,
}

abbrev pub ftdi_sio_reset : ℕ
ftdi_sio_reset = 0

abbrev pub ftdi_sio_set_modem_ctrl : ℕ
ftdi_sio_set_modem_ctrl = 1

abbrev pub ftdi_sio_set_baudrate : ℕ
ftdi_sio_set_baudrate = 3

abbrev pub ftdi_sio_set_data : ℕ
ftdi_sio_set_data = 4

abbrev pub ftdi_sio_set_latency_timer : ℕ
ftdi_sio_set_latency_timer = 9

abbrev pub ftdi_sio_set_dtr_mask : ℕ
ftdi_sio_set_dtr_mask = 0x01

abbrev pub ftdi_sio_set_rts_mask : ℕ
ftdi_sio_set_rts_mask = 0x02

-- `ftdi_protocol_build_reset`
unfoldable pub build_reset : Option ControlRequest → ℕ → EspErr × Option ControlRequest
build_reset none reset_type = (esp_err_invalid_arg, none)
build_reset (some _) reset_type =
    (esp_ok, some (record { request = ftdi_sio_reset; value = reset_type; index = 0 }))

-- the switch on `chip_type`
unfoldable pub base_clock : ChipType → ℕ
base_clock ft232r = 3000000
base_clock ft230x = 3000000
base_clock ft232h = 12000000
base_clock ft2232d = 6000000
base_clock ft4232h = 6000000
base_clock _ = 3000000

-- the special cases of the divisor, in eighths
unfoldable pub clamp_divisor : ℕ → ℕ
clamp_divisor divisor =
    if divisor == 8
    then 1
    else if ltb divisor 8
    then 0
    else if ltb 0x1FFFF8 divisor
    then 0x1FFFF8
    else divisor

-- the switch on `fractional_part`
unfoldable pub fraction_code : ℕ → ℕ
fraction_code f =
    if f == 0
    then 0
    else if f == 1
    then 3
    else if f == 2
    then 2
    else if f == 3
    then 4
    else if f == 4
    then 1
    else if f == 5
    then 5
    else if f == 6
    then 6
    else 7

unfoldable pub encode_divisor : ℕ → ℕ
encode_divisor divisor = bit_or (divisor / 2 ^ 3) (fraction_code (divisor % 2 ^ 3) * 2 ^ 14)

-- the last special cases, then `*value_out` and `*index_out`
unfoldable pub divisor_words : ℕ → ℕ × ℕ
unfolding encode_divisor fraction_code
divisor_words divisor =
    if divisor == 0
    then (0, 0)
    else if divisor == 1
    then (1, 0)
    else (encode_divisor divisor % 2 ^ 16, encode_divisor divisor / 2 ^ 16 % 2 ^ 16)

unfoldable pub baud_words : ℕ → ℕ → EspErr × Option ℕ × Option ℕ → EspErr × Option ℕ × Option ℕ
baud_words clock baudrate old =
    if ltb baudrate 300 || ltb (clock / 2) baudrate
    then old
    else let w = divisor_words (clamp_divisor (clock * 8 % 2 ^ 32 / baudrate)) in
      (esp_ok, some w.0, some w.1)

-- `ftdi_calculate_baudrate_divisor`
unfoldable pub calculate_baudrate_divisor :
    ℕ → ChipType → Option ℕ → Option ℕ → EspErr × Option ℕ × Option ℕ
calculate_baudrate_divisor baudrate chip_type (some v) (some i) =
    baud_words (base_clock chip_type) baudrate (esp_err_invalid_arg, some v, some i)
calculate_baudrate_divisor baudrate chip_type value_out index_out =
    (esp_err_invalid_arg, value_out, index_out)

-- `ftdi_protocol_build_set_baudrate`, after the call; any error leaves `*req_out` as it was.
unfoldable pub set_baudrate_request :
    ControlRequest → EspErr × Option ℕ × Option ℕ → EspErr × Option ControlRequest
set_baudrate_request old (esp_ok, some value, some index) =
    (esp_ok, some (record { request = ftdi_sio_set_baudrate; value = value; index = index }))
set_baudrate_request old (ret, _, _) = (ret, some old)

-- The two uninitialised locals stand as 0: they are read only after they are written.
unfoldable pub build_set_baudrate :
    Option ControlRequest → ℕ → ChipType → EspErr × Option ControlRequest
build_set_baudrate none baudrate chip_type = (esp_err_invalid_arg, none)
build_set_baudrate (some old) baudrate chip_type =
    set_baudrate_request old (calculate_baudrate_divisor baudrate chip_type (some 0) (some 0))

-- `ftdi_protocol_build_set_line_property`; the enum values are numbers, as the code checks them.
unfoldable pub build_set_line_property :
    Option ControlRequest → ℕ → ℕ → ℕ → EspErr × Option ControlRequest
build_set_line_property none bits stype parity = (esp_err_invalid_arg, none)
build_set_line_property (some old) bits stype parity =
    if not (bits == 7) && not (bits == 8)
    then (esp_err_invalid_arg, some old)
    else if ltb 2 stype
    then (esp_err_invalid_arg, some old)
    else if ltb 4 parity
    then (esp_err_invalid_arg, some old)
    else (
      esp_ok,
      some (record {
        request = ftdi_sio_set_data;
        value = bit_or (bit_or bits (parity * 2 ^ 8)) (stype * 2 ^ 11) % 2 ^ 16;
        index = 0;
      }),
    )

-- one signal of `ftdi_protocol_build_set_modem_ctrl`: its control bit, and its level if it is high
unfoldable pub signal : ℕ → Bool → ℕ → ℕ
signal mask high value =
    let enabled = bit_or value (mask * 2 ^ 8) in if high then bit_or enabled mask else enabled

-- `ftdi_protocol_build_set_modem_ctrl`
unfoldable pub build_set_modem_ctrl :
    Option ControlRequest → Bool → Bool → EspErr × Option ControlRequest
unfolding signal
build_set_modem_ctrl none dtr rts = (esp_err_invalid_arg, none)
build_set_modem_ctrl (some _) dtr rts = (
  esp_ok,
  some (record {
    request = ftdi_sio_set_modem_ctrl;
    value = signal ftdi_sio_set_rts_mask rts (signal ftdi_sio_set_dtr_mask dtr 0);
    index = 0;
  }),
)

-- `ftdi_protocol_build_set_latency_timer`
unfoldable pub build_set_latency_timer : Option ControlRequest → ℕ → EspErr × Option ControlRequest
build_set_latency_timer none latency_ms = (esp_err_invalid_arg, none)
build_set_latency_timer (some old) latency_ms =
    if latency_ms == 0 then (esp_err_invalid_arg, some old) else (
      esp_ok,
      some (record { request = ftdi_sio_set_latency_timer; value = latency_ms; index = 0 }),
    )

-- `(b >> k) & 1`
abbrev pub bit : ℕ → ℕ → ℕ
bit k b = b / 2 ^ k % 2

-- what `ftdi_protocol_parse_modem_status` stores for `data[0]` and `data[1]`
unfoldable pub status_of : ℕ → ℕ → ModemStatus
status_of b0 b1 = record {
  data_pending = bit 0 b0;
  overrun = bit 1 b0;
  parity_error = bit 2 b0;
  framing_error = bit 3 b0;
  break_received = bit 4 b0;
  tx_holding_empty = bit 5 b0;
  tx_empty = bit 6 b0;
  reserved_b0 = 0;
  cts = bit 4 b1;
  dsr = bit 5 b1;
  ri = bit 6 b1;
  rlsd = bit 7 b1;
  reserved_b1 = 0;
}

-- `ftdi_protocol_parse_modem_status`
unfoldable pub parse_modem_status :
    Option (ℕ × ℕ) → Option ModemStatus → EspErr × Option ModemStatus
unfolding status_of
parse_modem_status (some (b0, b1)) (some _) = (esp_ok, some (status_of b0 b1))
parse_modem_status data_in status_out = (esp_err_invalid_arg, status_out)
