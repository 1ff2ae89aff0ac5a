-- ===== src/Ftdi/Interface.antt =====
-- components/usb_host_ftdi_sio/src/ftdi_host_descriptor_parsing.c: the chip behind a product id,
-- and the choice of the two bulk endpoints. The walk over the raw descriptors is ESP-IDF's
-- (`usb/usb_helpers.h`): its two functions and the descriptors' type are parameters.
pub mod Endpoints
use portable_terminal.Base.{
  ℕ, zero, suc, ◌/◌, ◌%◌, ◌^◌, Bool, true, false, not, ◌&&◌, Option, none, some, ltb, ◌==◌,
  if◌then◌else◌,
}
use portable_terminal.Esp.{EspErr, esp_ok, esp_err_invalid_arg, esp_err_not_found}
use portable_terminal.Ftdi.{ChipType, unknown, ft232r, ft232h, ft2232d, ft4232h, ft230x}

-- `ftdi_parse_chip_type`
unfoldable pub parse_chip_type : ℕ → ChipType
parse_chip_type pid =
    if pid == 0x6001
    then ft232r
    else if pid == 0x6014
    then ft232h
    else if pid == 0x6010
    then ft2232d
    else if pid == 0x6011
    then ft4232h
    else if pid == 0x6015
    then ft230x
    else unknown

-- the fields of `usb_intf_desc_t` that the code reads
pub record IntfDesc : Type 0 where
  pub interface_number : ℕ
  pub interface_class : ℕ
  pub num_endpoints : ℕ

-- the fields of `usb_ep_desc_t` that the code reads
pub record EpDesc : Type 0 where
  pub endpoint_address : ℕ
  pub attributes : ℕ
  pub max_packet_size : ℕ

-- `usb_config_desc_t`, `usb_parse_interface_descriptor` (which also moves the offset) and
-- `usb_parse_endpoint_descriptor_by_index`
pub record UsbHelpers : Type 1 where
  pub ConfigDesc : Type 0
  pub total_length : ConfigDesc → ℕ
  pub parse_interface : ConfigDesc → ℕ → ℕ → ℕ → Option IntfDesc × ℕ
  pub parse_endpoint : IntfDesc → ℕ → ℕ → ℕ → Option EpDesc

-- `ftdi_intf_info_t`
pub record IntfInfo : Type 0 where
  pub intf_desc : Option IntfDesc
  pub bulk_in_ep : ℕ
  pub bulk_in_mps : ℕ
  pub bulk_out_ep : ℕ
  pub bulk_out_mps : ℕ

-- after `memset(info_out, 0, …)`
abbrev pub zero_info : IntfInfo
zero_info = record {
  intf_desc = none;
  bulk_in_ep = 0;
  bulk_in_mps = 0;
  bulk_out_ep = 0;
  bulk_out_mps = 0;
}

-- `bulk_in_ep_desc` and `bulk_out_ep_desc`
pub record Found : Type 0 where
  pub bulk_in : Option EpDesc
  pub bulk_out : Option EpDesc

-- `(bmAttributes & USB_BM_ATTRIBUTES_XFERTYPE_MASK) == USB_BM_ATTRIBUTES_XFER_BULK`
abbrev pub is_bulk : EpDesc → Bool
is_bulk e = e.attributes % 4 == 2

-- `bEndpointAddress & USB_B_ENDPOINT_ADDRESS_EP_DIR_MASK`
abbrev pub is_in : EpDesc → Bool
is_in e = e.endpoint_address / 2 ^ 7 % 2 == 1

-- the body of the loop over the endpoints
unfoldable pub visit_endpoint : Option EpDesc → Found → Found
visit_endpoint none s = s
visit_endpoint (some e) s =
    if is_bulk e
    then (if is_in e then record s { bulk_in = some e } else record s { bulk_out = some e })
    else s

-- the two variables after the first n rounds of the loop
unfoldable pub scan_endpoints : (ℕ → Option EpDesc) → ℕ → Found
scan_endpoints endpoint zero = record { bulk_in = none; bulk_out = none }
scan_endpoints endpoint (suc n) = visit_endpoint (endpoint n) (scan_endpoints endpoint n)

-- the end of the function: both endpoints are wanted
unfoldable pub fill_info : IntfDesc → Option EpDesc → Option EpDesc → EspErr × IntfInfo
fill_info d (some i) (some o) = (
  esp_ok,
  record {
    intf_desc = some d;
    bulk_in_ep = i.endpoint_address;
    bulk_in_mps = i.max_packet_size;
    bulk_out_ep = o.endpoint_address;
    bulk_out_mps = o.max_packet_size;
  },
)
fill_info d _ _ = (esp_err_not_found, zero_info)

-- `USB_CLASS_VENDOR_SPEC`
abbrev pub usb_class_vendor_spec : ℕ
usb_class_vendor_spec = 0xFF

module _ (usb : UsbHelpers) where
  open usb use {ConfigDesc, total_length, parse_interface, parse_endpoint}

  unfoldable pub parse_found : ConfigDesc → Option IntfDesc × ℕ → EspErr × IntfInfo
  parse_found config (none, offset) = (esp_err_not_found, zero_info)
  parse_found config (some d, offset) =
      let found =
        scan_endpoints (λ i. parse_endpoint d i (total_length config) offset) d.num_endpoints in
      if not (d.interface_class == usb_class_vendor_spec)
      then (esp_err_not_found, zero_info)
      else if ltb d.num_endpoints 2
      then (esp_err_not_found, zero_info)
      else fill_info d found.bulk_in found.bulk_out

  -- `ftdi_parse_interface_descriptor`
  unfoldable pub parse_interface_descriptor :
      Option ConfigDesc → ℕ → Option IntfInfo → EspErr × Option IntfInfo
  parse_interface_descriptor (some config) intf_idx (some _) =
      let r = parse_found config (parse_interface config intf_idx 0 0) in (r.0, some r.1)
  parse_interface_descriptor config intf_idx info_out = (esp_err_invalid_arg, info_out)
