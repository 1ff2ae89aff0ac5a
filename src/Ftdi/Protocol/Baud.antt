-- ===== src/Ftdi/Protocol/Baud.antt =====
-- What the baud rate words mean to the chip.
use portable_terminal.Base.{
  false, ◌||◌, ltb, ℕ, ◌+◌, ◌*◌, ◌/◌, ◌%◌, ◌^◌, ◌≤◌, ◌<◌, ◌≡◌, refl, Option, some, arith, ◌==◌,
  if◌then◌else◌, low-bit_or,
}
use native.Mathlib.Nat.{
  le-div_iff_mul-le, div-le_of_le-mul, div-mul-le_self, lt-div-mul-add, div-lt_iff_lt-mul, le_trans,
}
use portable_terminal.Esp.{EspErr, esp_ok, esp_err_invalid_arg}
use portable_terminal.Ftdi.{ChipType, ft232r, ft232h, ft2232d, ft4232h, ControlRequest}
use portable_terminal.Ftdi.Protocol.{
  ftdi_sio_set_baudrate, base_clock, clamp_divisor, fraction_code, encode_divisor, divisor_words,
  baud_words, calculate_baudrate_divisor, set_baudrate_request, build_set_baudrate,
}

-- The chip's reading of the two words: 14 bits of integer part, then a code for the eighths.
unfoldable pub eighths_of : ℕ → ℕ
eighths_of code =
    if code == 0
    then 0
    else if code == 1
    then 4
    else if code == 2
    then 2
    else if code == 3
    then 1
    else if code == 4
    then 3
    else code

-- the divisor in eighths
unfoldable pub decode_divisor : ℕ → ℕ → ℕ
unfolding eighths_of
decode_divisor value index =
    let word = index * 2 ^ 16 + value in word % 2 ^ 14 * 8 + eighths_of (word / 2 ^ 14 % 8)

eighths_of-fraction_code : (f : ℕ) → f < 8 → eighths_of (fraction_code f) ≡ f
unfolding eighths_of fraction_code
eighths_of-fraction_code f h = ground arith

fraction_code-lt : (f : ℕ) → fraction_code f < 8
unfolding fraction_code
fraction_code-lt f = ground arith

eighths_of-lt : (c : ℕ) → c < 8 → eighths_of c < 8
unfolding eighths_of
eighths_of-lt c h = ground arith

-- With an integer part below 2 ^ 14 the `|` is a sum.
encode_divisor-sum :
    (d : ℕ) → d < 2 ^ 17 → encode_divisor d ≡ d / 8 + fraction_code (d % 8) * 2 ^ 14
unfolding encode_divisor
encode_divisor-sum d h = low-bit_or 14 (fraction_code (d % 8)) (d / 8) (omega arith)

decode-encode :
    (d : ℕ)
    → d < 2 ^ 17
    → decode_divisor (encode_divisor d % 2 ^ 16) (encode_divisor d / 2 ^ 16 % 2 ^ 16) ≡ d
unfolding decode_divisor
decode-encode d h =
    let code : ℕ = fraction_code (d % 8) in
    let small : code < 8 = fraction_code-lt (d % 8) in
    let sum : encode_divisor d ≡ d / 8 + code * 2 ^ 14 = encode_divisor-sum d h in
    let word : encode_divisor d / 2 ^ 16 % 2 ^ 16 * 2 ^ 16 + encode_divisor d % 2 ^ 16
        ≡ d / 8 + code * 2 ^ 14 =
      omega arith in
    let high : (d / 8 + code * 2 ^ 14) / 2 ^ 14 % 8 ≡ code = omega arith in
    rw (word, high, eighths_of-fraction_code (d % 8) (omega arith)) (omega arith)

decode_divisor-lt : (value index : ℕ) → decode_divisor value index < 2 ^ 17
unfolding decode_divisor
decode_divisor-lt value index =
    let word : ℕ = index * 2 ^ 16 + value in
    omega (arith, eighths_of-lt (word / 2 ^ 14 % 8) (omega arith))

-- A divisor of 16 eighths or more, which every accepted rate has, meets no special case.
divisor_words_lem :
    (d : ℕ)
    → 16 ≤ d
    → d < 0x1FFFF8
    → divisor_words (clamp_divisor d)
      ≡ (encode_divisor d % 2 ^ 16, encode_divisor d / 2 ^ 16 % 2 ^ 16)
unfolding divisor_words clamp_divisor
divisor_words_lem d lo hi = ground arith

base_clock_bounds : (chip : ChipType) → (3000000 ≤ base_clock chip) × (base_clock chip ≤ 12000000)
unfolding base_clock
base_clock_bounds ChipType.ft232r = omega arith
base_clock_bounds _ = omega arith

-- `8 * clock / baudrate` for a rate in range.
div_bounds :
    (clock baudrate : ℕ)
    → 300 ≤ baudrate
    → baudrate ≤ clock / 2
    → clock ≤ 12000000
    → (16 ≤ clock * 8 % 2 ^ 32 / baudrate)
      × (clock * 8 % 2 ^ 32 / baudrate ≤ 320000)
      × (clock * 8 % 2 ^ 32 ≡ clock * 8)
div_bounds clock baudrate lo hi top =
    let whole : clock * 8 % 2 ^ 32 ≡ clock * 8 = omega arith in
    (
      (le-div_iff_mul-le (omega arith)).1 (rw whole (omega arith)),
      div-le_of_le-mul baudrate (rw whole (omega arith)),
      whole,
    )

-- The words that the request gets for a rate in range.
baud_words_of_rate :
    (clock baudrate : ℕ) (old : EspErr × Option ℕ × Option ℕ)
    → 300 ≤ baudrate
    → baudrate ≤ clock / 2
    → clock ≤ 12000000
    → baud_words clock baudrate old ≡ (
      esp_ok,
      some (encode_divisor (clock * 8 / baudrate) % 2 ^ 16),
      some (encode_divisor (clock * 8 / baudrate) / 2 ^ 16 % 2 ^ 16),
    )
unfolding baud_words
baud_words_of_rate clock baudrate old lo hi top =
    let (least, most, whole) = div_bounds clock baudrate lo hi top in
    let words = divisor_words_lem (clock * 8 % 2 ^ 32 / baudrate) least (omega arith) in
    rw (baud_in_range, words, whole)
  where
    baud_in_range : (ltb baudrate 300 || ltb (clock / 2) baudrate) ≡ false
    baud_in_range = ground arith

build_set_baudrate_words :
    (old : ControlRequest) (baudrate : ℕ) (chip : ChipType)
    → 300 ≤ baudrate
    → baudrate ≤ base_clock chip / 2
    → let word = encode_divisor (base_clock chip * 8 / baudrate) in
      build_set_baudrate (some old) baudrate chip ≡ (
        esp_ok,
        some (record {
          request = ftdi_sio_set_baudrate;
          value = word % 2 ^ 16;
          index = word / 2 ^ 16 % 2 ^ 16;
        }),
      )
unfolding build_set_baudrate calculate_baudrate_divisor
build_set_baudrate_words old baudrate chip lo hi =
    let words =
      baud_words_of_rate (base_clock chip) baudrate (esp_err_invalid_arg, some 0, some 0) lo hi
        (base_clock_bounds chip).1 in
    rw words (unfold set_baudrate_request in refl)

add_mul_one : (a b : ℕ) → (a + 1) * b ≡ a * b + b
add_mul_one a b = omega arith

mul_le_right : (a b c : ℕ) → a ≤ b → a * c ≤ b * c
mul_le_right a b c h = grind arith

-- Any rate from 300 up to half the base clock, whose divisor fits 14 bits of integer part, is
-- accepted, and the request's words, as the chip reads them, are the divisor that the rate asks
-- for, rounded down to an eighth.
pub build_set_baudrate-decodes :
    (old : ControlRequest) (baudrate : ℕ) (chip : ChipType)
    → 300 ≤ baudrate
    → baudrate ≤ base_clock chip / 2
    → base_clock chip * 8 < 2 ^ 17 * baudrate
    → (req : ControlRequest) × (build_set_baudrate (some old) baudrate chip ≡ (esp_ok, some req))
      × (req.request ≡ ftdi_sio_set_baudrate)
      × (decode_divisor req.value req.index * baudrate ≤ base_clock chip * 8)
      × (base_clock chip * 8 < (decode_divisor req.value req.index + 1) * baudrate)
build_set_baudrate-decodes old baudrate chip lo hi fits =
    let d : ℕ = base_clock chip * 8 / baudrate in
    let word : ℕ = encode_divisor d in
    let decoded : decode_divisor (word % 2 ^ 16) (word / 2 ^ 16 % 2 ^ 16) ≡ d =
      decode-encode d ((div-lt_iff_lt-mul (omega arith)).1 fits) in
    (
      record {
        request = ftdi_sio_set_baudrate;
        value = word % 2 ^ 16;
        index = word / 2 ^ 16 % 2 ^ 16;
      },
      build_set_baudrate_words old baudrate chip lo hi,
      refl,
      rw decoded (div-mul-le_self (base_clock chip * 8) baudrate),
      rw decoded (
          omega (
            arith,
            lt-div-mul-add {a = base_clock chip * 8} {b = baudrate} (omega arith),
            add_mul_one d baudrate,
          )),
    )

-- The three chips with a 3 MHz clock take every accepted rate without loss.
pub slow_clock_fits :
    (baudrate : ℕ) (chip : ChipType)
    → base_clock chip ≡ 3000000
    → 300 ≤ baudrate
    → base_clock chip * 8 < 2 ^ 17 * baudrate
slow_clock_fits baudrate chip slow lo = omega arith

-- A rate in range whose divisor needs more than 14 bits of integer part is accepted too, but the
-- chip reads another divisor than the one asked for: the integer part runs into the fraction code.
pub build_set_baudrate-loses :
    (old : ControlRequest) (baudrate : ℕ) (chip : ChipType)
    → 300 ≤ baudrate
    → baudrate ≤ base_clock chip / 2
    → 2 ^ 17 * baudrate ≤ base_clock chip * 8
    → (req : ControlRequest) × (build_set_baudrate (some old) baudrate chip ≡ (esp_ok, some req))
      × ((decode_divisor req.value req.index + 1) * baudrate ≤ base_clock chip * 8)
build_set_baudrate-loses old baudrate chip lo hi big =
    let word : ℕ = encode_divisor (base_clock chip * 8 / baudrate) in
    let read : ℕ = decode_divisor (word % 2 ^ 16) (word / 2 ^ 16 % 2 ^ 16) in
    (
      record {
        request = ftdi_sio_set_baudrate;
        value = word % 2 ^ 16;
        index = word / 2 ^ 16 % 2 ^ 16;
      },
      build_set_baudrate_words old baudrate chip lo hi,
      le_trans
          (mul_le_right (read + 1) (2 ^ 17) baudrate
            (omega (arith, decode_divisor-lt (word % 2 ^ 16) (word / 2 ^ 16 % 2 ^ 16))))
          big,
    )

-- the fastest rate of each chip, which is one bit in two cycles of its clock
abbrev pub top_rate : ChipType → ℕ
top_rate ft232h = 6000000
top_rate ft2232d = 3000000
top_rate ft4232h = 3000000
top_rate _ = 1500000
