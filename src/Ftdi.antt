-- ===== src/Ftdi.antt =====
-- components/usb_host_ftdi_sio: the types that the driver's parts share (include/usb/
-- ftdi_host_types.h and private_include/ftdi_host_protocol.h).
pub mod Protocol
pub mod Interface
pub mod Transfer
mod Tests
use portable_terminal.Base.{ℕ}

-- `ftdi_chip_type_t`
pub data ChipType : Type 0 where
  unknown ft232r ft232h ft2232d ft4232h ft230x : ChipType

-- `ftdi_control_request_t`
pub record ControlRequest : Type 0 where
  pub request : ℕ
  pub value : ℕ
  pub index : ℕ

-- `ftdi_modem_status_t`, a bit field: each field is 0 or 1, `reserved_b1` four bits.
pub record ModemStatus : Type 0 where
  pub data_pending : ℕ
  pub overrun : ℕ
  pub parity_error : ℕ
  pub framing_error : ℕ
  pub break_received : ℕ
  pub tx_holding_empty : ℕ
  pub tx_empty : ℕ
  pub reserved_b0 : ℕ
  pub cts : ℕ
  pub dsr : ℕ
  pub ri : ℕ
  pub rlsd : ℕ
  pub reserved_b1 : ℕ
