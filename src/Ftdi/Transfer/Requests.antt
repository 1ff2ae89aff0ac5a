-- ===== src/Ftdi/Transfer/Requests.antt =====
-- components/usb_host_ftdi_sio/src/ftdi_sio_host_ops.c over `ftdi_sio_host_send_custom_request` of
-- src/ftdi_sio_host.c: each setting is one vendor control transfer. The USB host's
-- `usb_host_transfer_submit_control` is the parameter `submit`, which returns its error code. A
-- function returns its code beside the transfer that it submitted, if any.
use portable_terminal.Base.{
  ℕ, ◌+◌, ◌≡◌, refl, Bool, Option, none, some, [], Bytes, arith, ltb, if◌then◌else◌, take,
}
use portable_terminal.Esp.{EspErr, esp_ok, esp_err_invalid_arg}
use portable_terminal.Ftdi.{ChipType, ControlRequest}
use portable_terminal.Ftdi.Protocol.{
  build_reset, build_set_baudrate, build_set_line_property, build_set_modem_ctrl,
  build_set_latency_timer,
}

-- what `ctrl_transfer` holds when it is submitted: the setup packet, the data behind it, and
-- `num_bytes`
pub record ControlTransfer : Type 0 where
  pub bm_request_type : ℕ
  pub b_request : ℕ
  pub w_value : ℕ
  pub w_index : ℕ
  pub w_length : ℕ
  pub payload : Bytes
  pub num_bytes : ℕ

-- `USB_BM_REQUEST_TYPE_DIR_OUT | USB_BM_REQUEST_TYPE_TYPE_VENDOR | USB_BM_REQUEST_TYPE_RECIP_DEVICE`
abbrev pub vendor_out : ℕ
vendor_out = 0x40

-- `sizeof(usb_setup_packet_t)`
abbrev pub setup_size : ℕ
setup_size = 8

-- `if (data && wLength > 0) memcpy(…)`
unfoldable pub payload_of : Option Bytes → ℕ → Bytes
payload_of none w_length = []
payload_of (some bytes) w_length = if ltb 0 w_length then take w_length bytes else []

-- the calls of ftdi_sio_host_ops.c, with their arguments
pub data Op : Type 0 where
  set_baudrate : ℕ → Op
  set_line_property : ℕ → ℕ → ℕ → Op
  set_modem_control : Bool → Bool → Op
  reset purge_rx_buffer purge_tx_buffer : Op
  set_latency_timer : ℕ → Op

-- the uninitialised `req`: it is read only after it is written
abbrev pub fresh_request : Option ControlRequest
fresh_request = some (record { request = 0; value = 0; index = 0 })

-- the request that the call builds, on a device of this chip type
unfoldable pub build : ChipType → Op → EspErr × Option ControlRequest
build chip (set_baudrate baudrate) = build_set_baudrate fresh_request baudrate chip
build chip (set_line_property bits stype parity) =
    build_set_line_property fresh_request bits stype parity
build chip (set_modem_control dtr rts) = build_set_modem_ctrl fresh_request dtr rts
build chip reset = build_reset fresh_request 0
build chip purge_rx_buffer = build_reset fresh_request 1
build chip purge_tx_buffer = build_reset fresh_request 2
build chip (set_latency_timer latency_ms) = build_set_latency_timer fresh_request latency_ms

module _ (submit : ControlTransfer → EspErr) where
  -- `ftdi_sio_host_send_custom_request`; the handle is the device's chip type, `none` is NULL.
  unfoldable pub send_custom_request :
      Option ChipType → ℕ → ℕ → ℕ → ℕ → ℕ → Option Bytes → EspErr × Option ControlTransfer
  unfolding payload_of
  send_custom_request none ty req value index w_length bytes = (esp_err_invalid_arg, none)
  send_custom_request (some chip) ty req value index w_length bytes =
      let transfer : ControlTransfer = record {
        bm_request_type = ty;
        b_request = req;
        w_value = value;
        w_index = index;
        w_length = w_length;
        payload = payload_of bytes w_length;
        num_bytes = setup_size + w_length;
      } in
      (submit transfer, some transfer)

  -- `ESP_RETURN_ON_ERROR(…)`, then the transfer
  unfoldable pub send_built :
      Option ChipType → EspErr × Option ControlRequest → EspErr × Option ControlTransfer
  unfolding send_custom_request
  send_built handle (esp_ok, some r) =
      send_custom_request handle vendor_out r.request r.value r.index 0 none
  send_built handle (err, _) = (err, none)

  -- the body of each call: `ESP_RETURN_ON_FALSE(ftdi_hdl, …)`, build, send
  unfoldable pub run_op : Option ChipType → Op → EspErr × Option ControlTransfer
  unfolding send_built
  run_op none op = (esp_err_invalid_arg, none)
  run_op (some chip) op = send_built (some chip) (build chip op)

  send_built-once :
      (chip : ChipType) (b : EspErr × Option ControlRequest) (t : ControlTransfer)
      → (send_built (some chip) b).1 ≡ some t
      → (r : ControlRequest) × (b ≡ (esp_ok, some r))
        × ((send_built (some chip) b).0 ≡ submit t)
        × (t.bm_request_type ≡ vendor_out)
        × (t.b_request ≡ r.request)
        × (t.w_value ≡ r.value)
        × (t.w_index ≡ r.index)
        × (t.num_bytes ≡ setup_size)
  unfolding send_built
  send_built-once chip (esp_ok, some r) t h =
      (r, refl, ground arith, ground arith, ground arith, ground arith, ground arith, ground arith)
  send_built-once chip (esp_ok, none) t h = absurd (cc)
  send_built-once chip (_, o) t h = absurd (cc)

  -- Whatever a call puts on the bus is the request that was built for it, without an error: one
  -- vendor transfer to the device with no data stage, whose outcome is the call's result.
  pub run_op-transfer :
      (chip : ChipType) (op : Op) (t : ControlTransfer)
      → (run_op (some chip) op).1 ≡ some t
      → (r : ControlRequest) × (build chip op ≡ (esp_ok, some r))
        × ((run_op (some chip) op).0 ≡ submit t)
        × (t.bm_request_type ≡ vendor_out)
        × (t.b_request ≡ r.request)
        × (t.w_value ≡ r.value)
        × (t.w_index ≡ r.index)
        × (t.num_bytes ≡ setup_size)
  run_op-transfer chip op t = unfold run_op in send_built-once chip (build chip op) t
