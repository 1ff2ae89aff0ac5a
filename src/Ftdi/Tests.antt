-- ===== src/Ftdi/Tests.antt =====
-- The driver's parts on concrete inputs.
use portable_terminal.Base.{
  ℕ, zero, suc, ◌+◌, ◌*◌, ◌≤◌, ◌<◌, ◌≡◌, refl, true, none, some, [], ◌∷◌, Bytes, arith, length,
  Option,
}
use portable_terminal.Esp.{EspErr, esp_ok}
use portable_terminal.Ftdi.{ft232r, ft232h, ft2232d, ft232h, ControlRequest, ModemStatus}
use portable_terminal.Ftdi.Protocol.{base_clock, build_set_baudrate, ftdi_sio_set_baudrate}
use portable_terminal.Ftdi.Protocol.Baud.{
  decode_divisor, build_set_baudrate-decodes, build_set_baudrate-loses,
}
use portable_terminal.Ftdi.Transfer.{Device, InResult, completed, in_xfer_cb}
use portable_terminal.Ftdi.Transfer.Packets.{data_of, strip, in_xfer_cb-payload, in_xfer_cb-stalls}
use portable_terminal.Ftdi.Transfer.Requests.{ControlTransfer}
use portable_terminal.Ftdi.Interface.{
  IntfDesc, EpDesc, UsbHelpers, IntfInfo, zero_info, fill_info, parse_interface_descriptor,
  parse_found, scan_endpoints, visit_endpoint,
}
use portable_terminal.Ftdi.Interface.Endpoints.{parse_interface_descriptor-IsParsed, IsParsed}

abbrev old : ControlRequest
old = record { request = 0; value = 0; index = 0 }

build_set_baudrate-decodes_example :
    (req : ControlRequest) × (build_set_baudrate (some old) 9600 ft232r ≡ (esp_ok, some req))
    × (req.request ≡ ftdi_sio_set_baudrate)
    × (decode_divisor req.value req.index * 9600 ≤ base_clock ft232r * 8)
    × (base_clock ft232r * 8 < (decode_divisor req.value req.index + 1) * 9600)
unfolding base_clock
build_set_baudrate-decodes_example =
    build_set_baudrate-decodes old 9600 ft232r (omega arith) (omega arith) (omega arith)

build_set_baudrate-loses_example :
    (req : ControlRequest) × (build_set_baudrate (some old) 300 ft2232d ≡ (esp_ok, some req))
    × ((decode_divisor req.value req.index + 1) * 300 ≤ base_clock ft2232d * 8)
unfolding base_clock
build_set_baudrate-loses_example =
    build_set_baudrate-loses old 300 ft2232d (omega arith) (omega arith) (omega arith)

abbrev quiet : ModemStatus
quiet = record {
  data_pending = 0;
  overrun = 0;
  parity_error = 0;
  framing_error = 0;
  break_received = 0;
  tx_holding_empty = 0;
  tx_empty = 0;
  reserved_b0 = 0;
  cts = 0;
  dsr = 0;
  ri = 0;
  rlsd = 0;
  reserved_b1 = 0;
}

abbrev dev : Device
dev = record { in_mps = 4; has_event_cb = true; has_data_cb = true; modem_status_current = quiet }

-- two packets, the second one short
abbrev packets : Bytes
packets = 1 ∷ 0x60 ∷ 65 ∷ 66 ∷ 1 ∷ 0x60 ∷ 67 ∷ []

in_xfer_cb-payload_example :
    (r : InResult) × (in_xfer_cb (length packets) completed dev packets ≡ some r)
    × (data_of r.events ≡ strip 4 0 packets)
    × (r.resubmitted ≡ true)
in_xfer_cb-payload_example = in_xfer_cb-payload dev packets (omega arith) refl

in_xfer_cb-stalls_example :
    in_xfer_cb 9 completed (record dev { in_mps = 0 }) (1 ∷ 0x60 ∷ []) ≡ none
in_xfer_cb-stalls_example = in_xfer_cb-stalls 9 (record dev { in_mps = 0 }) 1 (0x60 ∷ []) refl

strip-packets : strip 4 0 packets ≡ 65 ∷ 66 ∷ 67 ∷ []
unfolding strip
strip-packets = refl

-- purging the write buffer, on a device whose host accepts every transfer
abbrev accept : ControlTransfer → EspErr
accept t = esp_ok

abbrev reset_transfer : ControlTransfer
reset_transfer = record {
  bm_request_type = 0x40;
  b_request = 0;
  w_value = 2;
  w_index = 0;
  w_length = 0;
  payload = [];
  num_bytes = 8;
}

-- a device with a bulk IN endpoint 0x81 and a bulk OUT endpoint 0x02
abbrev ep_in : EpDesc
ep_in = record { endpoint_address = 0x81; attributes = 2; max_packet_size = 64 }

abbrev ep_out : EpDesc
ep_out = record { endpoint_address = 0x02; attributes = 2; max_packet_size = 512 }

abbrev intf : IntfDesc
intf = record { interface_number = 0; interface_class = 0xFF; num_endpoints = 2 }

abbrev endpoint_at : ℕ → Option EpDesc
endpoint_at zero = some ep_in
endpoint_at (suc zero) = some ep_out
endpoint_at _ = none

abbrev usb : UsbHelpers
usb = record {
  ConfigDesc = ℕ;
  total_length = λ c. c;
  parse_interface = λ c i alt offset. (some intf, 9);
  parse_endpoint = λ d i total offset. endpoint_at i;
}

abbrev both : IntfInfo
both = record {
  intf_desc = some intf;
  bulk_in_ep = 0x81;
  bulk_in_mps = 64;
  bulk_out_ep = 0x02;
  bulk_out_mps = 512;
}

parse_interface_descriptor-IsParsed_example :
    IsParsed intf endpoint_at (parse_interface_descriptor usb (some 32) 0 (some zero_info))
parse_interface_descriptor-IsParsed_example =
    parse_interface_descriptor-IsParsed usb 32 0 zero_info intf 9 refl

both_found : parse_interface_descriptor usb (some 32) 0 (some zero_info) ≡ (esp_ok, some both)
unfolding parse_interface_descriptor parse_found scan_endpoints visit_endpoint fill_info
both_found = refl
