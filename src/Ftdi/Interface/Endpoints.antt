-- ===== src/Ftdi/Interface/Endpoints.antt =====
-- Which endpoints the loop over the descriptors ends with.
use portable_terminal.Base.{
  ℕ, zero, suc, ◌/◌, ◌%◌, ◌^◌, ◌<◌, ◌≡◌, refl, Bool, true, false, not, ◌&&◌, Option, none, some,
  arith, ◌==◌, if◌then◌else◌, Bool-cases, Option-cases, inl, inr, ◌≢◌, ◌⊎◌, ◌≤◌, ltb, subst, sym,
  if_case,
}
use native.Mathlib.Decide.{ℕ_discrete}
use portable_terminal.Esp.{EspErr, esp_ok, esp_err_not_found}
use portable_terminal.Ftdi.Interface.{
  IntfDesc, EpDesc, UsbHelpers, IntfInfo, zero_info, Found, is_in, visit_endpoint, scan_endpoints,
  fill_info, usb_class_vendor_spec, parse_found, parse_interface_descriptor,
}

-- The endpoint is the last among the first `n` that parse and pass the test, found from the back.
abbrev keep_if : (EpDesc → Bool) → Option EpDesc → Option EpDesc → Option EpDesc
keep_if p none other = other
keep_if p (some e) other = if p e then some e else other

unfoldable pub last_such : (EpDesc → Bool) → (ℕ → Option EpDesc) → ℕ → Option EpDesc
last_such p endpoint zero = none
last_such p endpoint (suc n) = keep_if p (endpoint n) (last_such p endpoint n)

-- the bits of USB 2.0, 9.6.6: a transfer type of 2 is bulk, and the address's bit 7 is set for IN
abbrev pub is_bulk_in : EpDesc → Bool
is_bulk_in e = e.attributes % 4 == 2 && e.endpoint_address / 128 % 2 == 1

abbrev pub is_bulk_out : EpDesc → Bool
is_bulk_out e = e.attributes % 4 == 2 && not (e.endpoint_address / 128 % 2 == 1)

visit-keep :
    (o : Option EpDesc) (s : Found)
    → ((visit_endpoint o s).bulk_in ≡ keep_if is_bulk_in o s.bulk_in)
      × ((visit_endpoint o s).bulk_out ≡ keep_if is_bulk_out o s.bulk_out)
unfolding visit_endpoint
visit-keep none s = (refl, refl)
visit-keep (some e) s = ground arith

scan_endpoints_last :
    (endpoint : ℕ → Option EpDesc) (n : ℕ)
    → ((scan_endpoints endpoint n).bulk_in ≡ last_such is_bulk_in endpoint n)
      × ((scan_endpoints endpoint n).bulk_out ≡ last_such is_bulk_out endpoint n)
unfolding last_such scan_endpoints
scan_endpoints_last endpoint zero = (refl, refl)
scan_endpoints_last endpoint (suc n) =
    let step = visit-keep (endpoint n) (scan_endpoints endpoint n) in
    let ih = scan_endpoints_last endpoint n in (rw (← ih.0) step.0, rw (← ih.1) step.1)

-- What `last_such` finds stands at some index, passes the test, and nothing behind it does.
abbrev pub IsLast : (EpDesc → Bool) → (ℕ → Option EpDesc) → ℕ → EpDesc → Type 0
IsLast p endpoint n e =
    (k : ℕ) × (k < n)
    × (endpoint k ≡ some e)
    × (p e ≡ true)
    × ((j : ℕ) → k < j → j < n → keep_if p (endpoint j) none ≡ none)

IsLast-suc :
    (p : EpDesc → Bool) (endpoint : ℕ → Option EpDesc) (n : ℕ) (e : EpDesc)
    → keep_if p (endpoint n) none ≡ none
    → IsLast p endpoint n e
    → IsLast p endpoint (suc n) e
IsLast-suc p endpoint n e skip (k, lt, here, passes, after) = (
  k,
  omega arith,
  here,
  passes,
  λ j above below. elim (ℕ_discrete j n) [
    | yes same ↦ rw same skip
    | no other ↦ after j above (omega arith)
  ],
)

last_such-IsLast :
    (p : EpDesc → Bool) (endpoint : ℕ → Option EpDesc) (n : ℕ) (e : EpDesc)
    → last_such p endpoint n ≡ some e
    → IsLast p endpoint n e
unfolding last_such
last_such-IsLast p endpoint zero e h = absurd (cc)
last_such-IsLast p endpoint (suc n) e h = elim (Option-cases (endpoint n)) [
  | inl gone ↦ IsLast-suc p endpoint n e (rw gone) (last_such-IsLast p endpoint n e (ground arith))
  | inr (x, here) ↦ elim (Bool-cases (p x)) [
    | inl passes ↦
        (n, omega arith, ground arith, ground arith, λ j above below. absurd (omega arith))
    | inr fails ↦
        IsLast-suc p endpoint n e (rw (here, keep_if) (rw fails))
          (last_such-IsLast p endpoint n e (ground arith))
  ]
]

-- None of the first `n` that parse passes the test.
abbrev pub HasNone : (EpDesc → Bool) → (ℕ → Option EpDesc) → ℕ → Type 0
HasNone p endpoint n = (j : ℕ) → j < n → keep_if p (endpoint j) none ≡ none

HasNone-suc :
    (p : EpDesc → Bool) (endpoint : ℕ → Option EpDesc) (n : ℕ)
    → keep_if p (endpoint n) none ≡ none
    → HasNone p endpoint n
    → HasNone p endpoint (suc n)
HasNone-suc p endpoint n skip before j below = elim (ℕ_discrete j n) [
  | yes same ↦ rw same skip
  | no other ↦ before j (omega arith)
]

last_such-HasNone :
    (p : EpDesc → Bool) (endpoint : ℕ → Option EpDesc) (n : ℕ)
    → last_such p endpoint n ≡ none
    → HasNone p endpoint n
unfolding last_such
last_such-HasNone p endpoint zero h = λ j below. absurd (omega arith)
last_such-HasNone p endpoint (suc n) h = elim (Option-cases (endpoint n)) [
  | inl gone ↦ HasNone-suc p endpoint n (rw gone) (last_such-HasNone p endpoint n (ground arith))
  | inr (x, here) ↦ elim (Bool-cases (p x)) [
    | inl passes ↦ absurd (ground arith)
    | inr fails ↦
        HasNone-suc p endpoint n (rw (here, keep_if) (rw fails))
          (last_such-HasNone p endpoint n (ground arith))
  ]
]

-- What is to come of an interface whose endpoints are those that parse, by index.
pub data IsParsed (d : IntfDesc) (endpoint : ℕ → Option EpDesc)
    : EspErr × Option IntfInfo → Type 0 where
  accepted :
      (i o : EpDesc)
      → d.interface_class ≡ 0xFF
      → 2 ≤ d.num_endpoints
      → IsLast is_bulk_in endpoint d.num_endpoints i
      → IsLast is_bulk_out endpoint d.num_endpoints o
      → IsParsed d endpoint (
        esp_ok,
        some (record {
          intf_desc = some d;
          bulk_in_ep = i.endpoint_address;
          bulk_in_mps = i.max_packet_size;
          bulk_out_ep = o.endpoint_address;
          bulk_out_mps = o.max_packet_size;
        }),
      )
  refused :
      (d.interface_class ≢ 0xFF)
        ⊎ (d.num_endpoints < 2)
        ⊎ HasNone is_bulk_in endpoint d.num_endpoints
        ⊎ HasNone is_bulk_out endpoint d.num_endpoints
      → IsParsed d endpoint (
        esp_err_not_found,
        some (record {
          intf_desc = none;
          bulk_in_ep = 0;
          bulk_in_mps = 0;
          bulk_out_ep = 0;
          bulk_out_mps = 0;
        }),
      )

module _ (d : IntfDesc) (endpoint : ℕ → Option EpDesc) where
  fill_info-IsParsed :
      (i o : Option EpDesc)
      → d.interface_class ≡ 0xFF
      → 2 ≤ d.num_endpoints
      → last_such is_bulk_in endpoint d.num_endpoints ≡ i
      → last_such is_bulk_out endpoint d.num_endpoints ≡ o
      → let filled = fill_info d i o in IsParsed d endpoint (filled.0, some filled.1)
  unfolding fill_info
  fill_info-IsParsed (some i) (some o) vendor two hi ho =
      accepted i o vendor two (last_such-IsLast is_bulk_in endpoint d.num_endpoints i hi)
        (last_such-IsLast is_bulk_out endpoint d.num_endpoints o ho)
  fill_info-IsParsed none o vendor two hi ho =
      refused (inr (inr (inl (last_such-HasNone is_bulk_in endpoint d.num_endpoints hi))))
  fill_info-IsParsed (some i) none vendor two hi ho =
      refused (inr (inr (inr (last_such-HasNone is_bulk_out endpoint d.num_endpoints ho))))

abbrev Directed : Bool → Option EpDesc → Type 0
Directed b none = Unit
Directed b (some e) = is_in e ≡ b

visit-Directed :
    (o : Option EpDesc) (s : Found)
    → Directed true s.bulk_in
    → Directed false s.bulk_out
    → Directed true (visit_endpoint o s).bulk_in × Directed false (visit_endpoint o s).bulk_out
unfolding visit_endpoint
visit-Directed none s i o = (i, o)
visit-Directed (some e) s i o = ground arith

scan-Directed :
    (endpoint : ℕ → Option EpDesc) (n : ℕ)
    → Directed true (scan_endpoints endpoint n).bulk_in
      × Directed false (scan_endpoints endpoint n).bulk_out
unfolding scan_endpoints
scan-Directed endpoint zero = (tt, tt)
scan-Directed endpoint (suc n) =
    let ih = scan-Directed endpoint n in
    visit-Directed (endpoint n) (scan_endpoints endpoint n) ih.0 ih.1

fill_info-directions :
    (d : IntfDesc) (i o : Option EpDesc) (info : IntfInfo)
    → Directed true i
    → Directed false o
    → fill_info d i o ≡ (esp_ok, info)
    → (info.bulk_in_ep / 2 ^ 7 % 2 ≡ 1) × (info.bulk_out_ep / 2 ^ 7 % 2 ≡ 0)
unfolding fill_info
fill_info-directions d (some i) (some o) info hi ho h = ground arith
fill_info-directions d none o info hi ho h = ground arith
fill_info-directions d (some i) none info hi ho h = ground arith

module _ (usb : UsbHelpers) where
  open usb use {ConfigDesc, total_length, parse_interface, parse_endpoint}

  -- Of an interface that is found, the output is filled if the class is the vendor's, there are two
  -- endpoints or more, and a bulk IN and a bulk OUT endpoint are among them: with the descriptor and
  -- with the address and the packet size of the last of each kind. Otherwise ESP_ERR_NOT_FOUND is
  -- returned, and the output is all zero.
  pub parse_interface_descriptor-IsParsed :
      (config : ConfigDesc) (intf_idx : ℕ) (old : IntfInfo) (d : IntfDesc) (offset : ℕ)
      → parse_interface config intf_idx 0 0 ≡ (some d, offset)
      → IsParsed d
          (λ i. parse_endpoint d i (total_length config) offset)
          (parse_interface_descriptor usb (some config) intf_idx (some old))
  unfolding parse_interface_descriptor parse_found
  parse_interface_descriptor-IsParsed config intf_idx old d offset found =
      let endpoint = λ (i : ℕ). parse_endpoint d i (total_length config) offset in
      let last = scan_endpoints_last endpoint d.num_endpoints in
      let scanned = scan_endpoints endpoint d.num_endpoints in
      let P : EspErr × IntfInfo → Type 0 = λ r. IsParsed d endpoint (r.0, some r.1) in
      subst (λ f. P (parse_found usb config f)) (sym found)
        (if_case P (not (d.interface_class == usb_class_vendor_spec)) (esp_err_not_found, zero_info)
          (if ltb d.num_endpoints 2
            then (esp_err_not_found, zero_info)
            else fill_info d scanned.bulk_in scanned.bulk_out)
          (λ other. refused (inl (ground arith)))
          (λ vendor.
            if_case P (ltb d.num_endpoints 2) (esp_err_not_found, zero_info)
              (fill_info d scanned.bulk_in scanned.bulk_out)
              (λ few. refused (inr (inl (ground arith))))
              (λ enough.
                fill_info-IsParsed d endpoint scanned.bulk_in scanned.bulk_out (ground arith)
                  (ground arith) (sym last.0) (sym last.1))))

  parse_found-directions :
      (config : ConfigDesc) (o : Option IntfDesc) (offset : ℕ) (info : IntfInfo)
      → parse_found usb config (o, offset) ≡ (esp_ok, info)
      → (info.bulk_in_ep / 2 ^ 7 % 2 ≡ 1) × (info.bulk_out_ep / 2 ^ 7 % 2 ≡ 0)
  unfolding parse_found
  parse_found-directions config none offset info h = absurd (cc)
  parse_found-directions config (some d) offset info h =
      let endpoint = λ (i : ℕ). parse_endpoint d i (total_length config) offset in
      let found : Found = scan_endpoints endpoint d.num_endpoints in
      let directed = scan-Directed endpoint d.num_endpoints in
      ground (arith, fill_info-directions d found.bulk_in found.bulk_out info directed.0 directed.1)

  -- Whatever is accepted has an IN endpoint with the direction bit set and an OUT endpoint with it
  -- clear.
  pub parse_interface_descriptor-directions :
      (config : ConfigDesc) (intf_idx : ℕ) (old info : IntfInfo)
      → parse_interface_descriptor usb (some config) intf_idx (some old) ≡ (esp_ok, some info)
      → (info.bulk_in_ep / 2 ^ 7 % 2 ≡ 1) × (info.bulk_out_ep / 2 ^ 7 % 2 ≡ 0)
  unfolding parse_interface_descriptor
  parse_interface_descriptor-directions config intf_idx old info h =
      let (o, offset) = parse_interface config intf_idx 0 0 in
      parse_found-directions config o offset info (ground arith)
