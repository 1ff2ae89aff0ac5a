-- ===== src/Ftdi/Protocol/Fields.antt =====
-- What the line property, modem control and latency requests say to the chip, and what the two
-- status bytes mean.
use portable_terminal.Base.{
  ℕ, ◌+◌, ◌*◌, ◌/◌, ◌%◌, ◌^◌, ◌≤◌, ◌<◌, ◌≡◌, refl, Bool, true, false, some, arith, ◌==◌, bit_or,
  low-bit_or, ◌⊎◌,
}
use portable_terminal.Esp.{esp_ok, esp_err_invalid_arg}
use portable_terminal.Ftdi.{ControlRequest, ModemStatus}
use portable_terminal.Ftdi.Protocol.{
  ftdi_sio_set_data, ftdi_sio_set_modem_ctrl, build_set_line_property, build_set_modem_ctrl, bit,
  status_of, parse_modem_status,
}

-- The three fields do not overlap, so the `|` is a sum.
line_value :
    (bits stype parity : ℕ)
    → bits < 2 ^ 8
    → parity < 2 ^ 3
    → stype < 2 ^ 3
    → bit_or (bit_or bits (parity * 2 ^ 8)) (stype * 2 ^ 11) % 2 ^ 16
      ≡ bits + parity * 2 ^ 8 + stype * 2 ^ 11
line_value bits stype parity hb hp hs =
    rw (low-bit_or 8 parity bits hb)
      (rw (low-bit_or 11 stype (bits + parity * 2 ^ 8) (omega arith)) (omega arith))

-- The settings that the chip has: 7 or 8 data bits, stop code 0 to 2, parity code 0 to 4.
abbrev pub IsLineSetting : ℕ → ℕ → ℕ → Type 0
IsLineSetting bits stype parity = ((bits ≡ 7) ⊎ (bits ≡ 8)) × (stype ≤ 2) × (parity ≤ 4)

-- For every setting that the chip has, the request's value holds the data bits in bits 0 to 7, the
-- parity in bits 8 to 10 and the stop bits from bit 11 on.
pub build_set_line_property-fields :
    (old : ControlRequest) (bits stype parity : ℕ)
    → IsLineSetting bits stype parity
    → (req : ControlRequest) × (build_set_line_property (some old) bits stype parity
        ≡ (esp_ok, some req))
      × (req.request ≡ ftdi_sio_set_data)
      × (req.value % 2 ^ 8 ≡ bits)
      × (req.value / 2 ^ 8 % 2 ^ 3 ≡ parity)
      × (req.value / 2 ^ 11 ≡ stype)
unfolding build_set_line_property
build_set_line_property-fields old bits stype parity (b, s, p) =
    let value : ℕ = bit_or (bit_or bits (parity * 2 ^ 8)) (stype * 2 ^ 11) % 2 ^ 16 in
    let sum : value ≡ bits + parity * 2 ^ 8 + stype * 2 ^ 11 =
      line_value bits stype parity (omega arith) (omega arith) (omega arith) in
    (
      record { request = ftdi_sio_set_data; value = value; index = 0 },
      ground arith,
      refl,
      omega arith,
      omega arith,
      omega arith,
    )

-- Any other setting is refused, and the request stays as it was.
pub build_set_line_property-refuses :
    (old : ControlRequest) (bits stype parity : ℕ)
    → ¬ (IsLineSetting bits stype parity)
    → build_set_line_property (some old) bits stype parity ≡ (esp_err_invalid_arg, some old)
unfolding build_set_line_property
build_set_line_property-refuses old bits stype parity bad = ground arith

-- Both signals are put under control (bits 8 and 9), and bits 0 and 1 hold their levels.
pub build_set_modem_ctrl-levels :
    (old : ControlRequest) (dtr rts : Bool)
    → (req : ControlRequest) × (build_set_modem_ctrl (some old) dtr rts ≡ (esp_ok, some req))
      × (req.request ≡ ftdi_sio_set_modem_ctrl)
      × (req.value / 2 ^ 8 ≡ 3)
      × ((bit 0 req.value == 1) ≡ dtr)
      × ((bit 1 req.value == 1) ≡ rts)
unfolding build_set_modem_ctrl
build_set_modem_ctrl-levels old true true =
    (record { request = 1; value = 0x303; index = 0 }, refl, refl, refl, refl, refl)
build_set_modem_ctrl-levels old true false =
    (record { request = 1; value = 0x301; index = 0 }, refl, refl, refl, refl, refl)
build_set_modem_ctrl-levels old false true =
    (record { request = 1; value = 0x302; index = 0 }, refl, refl, refl, refl, refl)
build_set_modem_ctrl-levels old false false =
    (record { request = 1; value = 0x300; index = 0 }, refl, refl, refl, refl, refl)

-- The status bits, put together again, are the two bytes: the seven low bits of the first and the
-- four high bits of the second.
pub parse_modem_status-bits :
    (b0 b1 : ℕ) (old : ModemStatus)
    → b0 < 256
    → b1 < 256
    → (s : ModemStatus) × (parse_modem_status (some (b0, b1)) (some old) ≡ (esp_ok, some s))
      × (s.data_pending
            + 2 * s.overrun
            + 4 * s.parity_error
            + 8 * s.framing_error
            + 16 * s.break_received
            + 32 * s.tx_holding_empty
            + 64 * s.tx_empty
          ≡ b0 % 128)
      × (16 * (s.cts + 2 * s.dsr + 4 * s.ri + 8 * s.rlsd) + b1 % 16 ≡ b1)
unfolding parse_modem_status
parse_modem_status-bits b0 b1 old h0 h1 = (status_of b0 b1, refl, omega arith, omega arith)
