-- ===== src/Ftdi/Transfer.antt =====
-- components/usb_host_ftdi_sio/src/ftdi_sio_host.c: the bulk IN callback, which cuts a transfer into
-- packets and strips the two status bytes of each; and src/ftdi_sio_host_ops.c, the requests.
-- The buffer from `offset` on is a list; what the two callbacks are handed is a list of events.
pub mod Packets
pub mod Requests
use portable_terminal.Base.{
  ℕ, zero, suc, ◌-◌, Bool, true, false, not, ◌&&◌, Option, none, some, List, [], ◌∷◌, ◌++◌, Bytes,
  length, get_or, take, drop, ltb, leb, ◌==◌, if◌then◌else◌,
}
use portable_terminal.Ftdi.{ModemStatus}
use portable_terminal.Ftdi.Protocol.{status_of}

-- the part of `ftdi_dev_t` that the callback reads and writes
pub record Device : Type 0 where
  pub in_mps : ℕ
  pub has_event_cb : Bool
  pub has_data_cb : Bool
  pub modem_status_current : ModemStatus

-- what the user's callbacks are called with
pub data Event : Type 0 where
  modem_status : Event
  received : Bytes → Event

-- `transfer->status`
pub data TransferStatus : Type 0 where
  completed no_device failed : TransferStatus

-- `memcmp(&new_status, &modem_status_current, sizeof(ftdi_modem_status_t)) == 0`
unfoldable pub status_eq : ModemStatus → ModemStatus → Bool
status_eq a b =
    a.data_pending == b.data_pending
    && a.overrun == b.overrun
    && a.parity_error == b.parity_error
    && a.framing_error == b.framing_error
    && a.break_received == b.break_received
    && a.tx_holding_empty == b.tx_holding_empty
    && a.tx_empty == b.tx_empty
    && a.reserved_b0 == b.reserved_b0
    && a.cts == b.cts
    && a.dsr == b.dsr
    && a.ri == b.ri
    && a.rlsd == b.rlsd
    && a.reserved_b1 == b.reserved_b1

-- the status part of one chunk
unfoldable pub update_status : Device → ModemStatus → Device × List Event
update_status dev new_status =
    if status_eq new_status dev.modem_status_current then (dev, []) else (
      record dev { modem_status_current = new_status },
      (if dev.has_event_cb then modem_status ∷ [] else []),
    )

-- the data part of one chunk
unfoldable pub deliver : Device → Bytes → List Event
deliver dev payload =
    if ltb 0 (length payload) && dev.has_data_cb then received payload ∷ [] else []

-- the body of the loop, for one chunk
unfoldable pub in_chunk : Device → Bytes → Device × List Event
in_chunk dev chunk =
    if leb 2 (length chunk)
    then (let (dev', events) =
          update_status dev (status_of (get_or chunk 0 0) (get_or chunk 1 0)) in
        (dev', events ++ deliver dev' (drop 2 chunk)))
    else (dev, [])

-- `(total_bytes - offset) > mps ? mps : (total_bytes - offset)`
unfoldable pub chunk_size : ℕ → ℕ → ℕ
chunk_size mps left = if ltb mps left then mps else left

-- `while (offset < total_bytes)`, with fuel; `none` means that the fuel ran out.
unfoldable pub in_loop : ℕ → Device → Bytes → Option (Device × List Event)
in_loop fuel dev [] = some (dev, [])
in_loop zero dev (b ∷ rest) = none
in_loop (suc fuel) dev (b ∷ rest) =
    let left : Bytes = b ∷ rest in
    let size = chunk_size dev.in_mps (length left) in
    let (dev', events) = in_chunk dev (take size left) in
    elim (in_loop fuel dev' (drop size left)) [
      | none ↦ none
      | some (dev'', later) ↦ some (dev'', events ++ later)
    ]

-- what `in_xfer_cb` leaves: the device, the callbacks made, and whether the transfer is submitted
-- again
pub record InResult : Type 0 where
  pub device : Device
  pub events : List Event
  pub resubmitted : Bool

unfoldable pub in_xfer_cb : ℕ → TransferStatus → Device → Bytes → Option InResult
in_xfer_cb fuel completed dev buffer = elim (in_loop fuel dev buffer) [
  | none ↦ none
  | some (dev', events) ↦ some (record { device = dev'; events = events; resubmitted = true })
]
in_xfer_cb fuel no_device dev buffer =
    some (record { device = dev; events = []; resubmitted = false })
in_xfer_cb fuel failed dev buffer = some (record { device = dev; events = []; resubmitted = true })
