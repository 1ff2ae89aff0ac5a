-- ===== src/ScreenLock.antt =====
-- main/screen_lock.cpp: the state, the entry of a PIN and the pad. What the functions paint and the
-- hooks of app_main are left out. `now` is `esp_timer_get_time`; the readings of one call count as
-- one.
use portable_terminal.Base.{
  ℕ, zero, suc, ◌+◌, ◌-◌, ◌*◌, ◌/◌, ◌%◌, ◌^◌, min, bit_or, bit_xor, Bool, true, false, not, ◌&&◌,
  ◌||◌, Option, none, some, List, [], ◌∷◌, Bytes, ltb, leb, ◌==◌, if◌then◌else◌, length, set,
  replicate,
}
use portable_terminal.Libc.{c_string, isdigit}
mod Storage
mod Runtime
mod Inputs
mod Outcomes
mod Pace
mod Unlock
mod Tests

abbrev pub default_timeout_min : ℕ
default_timeout_min = 10

abbrev pub max_timeout_min : ℕ
max_timeout_min = 1440

-- `is_locked` is `g_locked`; `brightness` is that of the display.
pub record Lock : Type 0 where
  pub pin_hash : Bytes
  pub pin_set : Bool
  pub enabled : Bool
  pub timeout_min : ℕ
  pub last_activity_us : ℕ
  pub is_locked : Bool
  pub awake : Bool
  pub brightness : ℕ
  pub saved_brightness : ℕ
  pub entry : Bytes
  pub entry_len : ℕ
  pub attempts : ℕ
  pub lockout_until_us : ℕ
  pub has_error : Bool

abbrev all_digits : Bytes → Bool
all_digits [] = true
all_digits (c ∷ cs) = isdigit c && all_digits cs

-- of a string
unfoldable pub pin_valid : Bytes → Bool
pin_valid pin = not (ltb (length pin) 4 || ltb 8 (length pin)) && all_digits pin

-- the loop over both hashes that `verify_pin` ends with
unfoldable pub differences : Bytes → Bytes → ℕ → ℕ
differences (h ∷ hs) (p ∷ ps) diff = differences hs ps (bit_or diff (bit_xor h p))
differences [] ps diff = diff
differences (_ ∷ _) [] diff = diff

abbrev pub empty_entry : Bytes
empty_entry = replicate 9 0

unfoldable pub lockout_remaining_s : ℕ → Lock → ℕ
lockout_remaining_s now s =
    if s.lockout_until_us == 0
    then 0
    else if leb s.lockout_until_us now
    then 0
    else (s.lockout_until_us - now + 999999) / 1000000

unfoldable pub activity_note : ℕ → Lock → Lock
activity_note now s = record s { last_activity_us = now }

unfoldable pub do_unlock : ℕ → Lock → Lock
unfolding activity_note
do_unlock now s = activity_note now (record s {
  is_locked = false;
  attempts = 0;
  lockout_until_us = 0;
  entry_len = 0;
  entry = empty_entry;
  has_error = false;
})

abbrev pub lock_s : ℕ → ℕ
lock_s attempts = 30 * 2 ^ min (attempts - 5) 3

-- a wrong PIN
unfoldable pub count_attempt : ℕ → Lock → Lock
count_attempt now s =
    let n = s.attempts + 1 in
    let counted = record s { attempts = n; has_error = true } in
    if leb 5 n then record counted { lockout_until_us = now + lock_s n * 1000000 } else counted

abbrev pub cleared_entry : Lock → Lock
cleared_entry s = record s { entry_len = 0; entry = empty_entry }

abbrev pub key_backspace : ℕ
key_backspace = 9

abbrev pub key_zero : ℕ
key_zero = 10

abbrev pub key_ok : ℕ
key_ok = 11

unfoldable pub erase_digit : Lock → Lock
erase_digit s =
    if ltb 0 s.entry_len
    then record s { entry_len = s.entry_len - 1; entry = set s.entry (s.entry_len - 1) 0 }
    else s

unfoldable pub add_digit : ℕ → Lock → Lock
add_digit digit s =
    if ltb s.entry_len 8
    then record s {
      has_error = false;
      entry = set s.entry s.entry_len (b'0' + digit);
      entry_len = s.entry_len + 1;
    }
    else s

-- What `mbedtls_sha256` leaves in a buffer, for the bytes of a string and the buffer before.
module _ (sha256 : Bytes → Bytes → Bytes) where
  unfoldable pub hash_pin : Bytes → Bytes
  hash_pin pin = sha256 pin (replicate 32 0)

  unfoldable pub verify_pin : Bytes → Lock → Bool
  unfolding hash_pin pin_valid differences
  verify_pin pin s =
      if not (pin_valid pin)
      then false
      else if not s.pin_set
      then false
      else differences (hash_pin pin) s.pin_hash 0 == 0

  -- the string that is tried
  abbrev pub tried : Lock → Bytes
  tried s = c_string (set s.entry s.entry_len 0)

  unfoldable pub submit_entry : ℕ → Lock → Lock
  unfolding verify_pin do_unlock count_attempt
  submit_entry now s =
      let ok = leb 4 s.entry_len && verify_pin (tried s) s in
      if ok then do_unlock now (cleared_entry s) else count_attempt now (cleared_entry s)

  unfoldable pub press_key : ℕ → ℕ → Lock → Lock
  unfolding lockout_remaining_s submit_entry erase_digit add_digit
  press_key key now s =
      if ltb 0 (lockout_remaining_s now s)
      then s
      else if key == key_ok
      then submit_entry now s
      else if key == key_backspace
      then erase_digit s
      else add_digit (if key == key_zero then 0 else key + 1) s

abbrev pad_x0 : ℕ
pad_x0 = 1280 / 2 - (3 * 140 + 2 * 14) / 2

abbrev pad_y0 : ℕ
pad_y0 = 300

-- A coordinate below 0 lies outside the pad, as 0 does.
unfoldable pub hit_key : ℕ → ℕ → Option ℕ
hit_key x y =
    let col = (x - pad_x0) / (140 + 14) in
    let row = (y - pad_y0) / (76 + 14) in
    if ltb x pad_x0 || ltb y pad_y0
    then none
    else if ltb 2 col || ltb 3 row
    then none
    else if leb 140 ((x - pad_x0) % (140 + 14))
    then none
    else if leb 76 ((y - pad_y0) % (76 + 14))
    then none
    else some (row * 3 + col)
