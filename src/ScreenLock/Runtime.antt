-- ===== src/ScreenLock/Runtime.antt =====
-- main/screen_lock.cpp: locking, waking and the input while the screen is locked.
use portable_terminal.Base.{
  ℕ, ◌-◌, ◌*◌, Bool, true, false, not, ◌||◌, Option, none, some, Bytes, ltb, leb, ◌==◌,
  if◌then◌else◌,
}
use portable_terminal.Libc.{isdigit}
use portable_terminal.ScreenLock.{
  Lock, empty_entry, lockout_remaining_s, activity_note, key_backspace, key_zero, key_ok, press_key,
  hit_key,
}

unfoldable pub lock_now : Lock → Lock
lock_now s = if s.is_locked then s else if not s.pin_set then s else record s {
  saved_brightness = if s.brightness == 0 then 128 else s.brightness;
  brightness = 0;
  awake = false;
  entry_len = 0;
  entry = empty_entry;
  has_error = false;
  is_locked = true;
}

-- the first argument says that the overlay of ap_qr_screen is up
unfoldable pub tick : Bool → ℕ → Lock → Lock
unfolding activity_note lock_now
tick qr_visible now s =
    if s.is_locked || (not s.enabled || not s.pin_set)
    then s
    else if qr_visible
    then activity_note now s
    else if leb (s.timeout_min * 60 * 1000000) (now - s.last_activity_us)
    then lock_now s
    else s

unfoldable pub wake_if_dark : Lock → Bool × Lock
wake_if_dark s =
    if not s.is_locked || s.awake
    then (false, s)
    else (true, record s { awake = true; brightness = s.saved_brightness })

pub data TouchEvent : Type 0 where
  touch_down : TouchEvent
  touch_move : TouchEvent
  touch_up : TouchEvent

module _ (sha256 : Bytes → Bytes → Bytes) where
  abbrev pub press_hit : Option ℕ → ℕ → Lock → Lock
  press_hit none now s = s
  press_hit (some key) now s = press_key sha256 key now s

  unfoldable pub handle_touch : TouchEvent → ℕ → ℕ → ℕ → Lock → Bool × Lock
  unfolding hit_key press_key
  handle_touch touch_down x y now s =
      if not s.is_locked then (false, s) else (true, press_hit (hit_key x y) now s)
  handle_touch touch_move x y now s = (s.is_locked, s)
  handle_touch touch_up x y now s = (s.is_locked, s)

  abbrev pub press_byte : ℕ → ℕ → Lock → Lock
  press_byte byte now s =
      if isdigit byte
      then press_key sha256 (if byte == b'0' then key_zero else byte - b'1') now s
      else if byte == 0x08 || byte == 0x7F
      then press_key sha256 key_backspace now s
      else if byte == 13 || byte == 10
      then press_key sha256 key_ok now s
      else s

  unfoldable pub feed_key : ℕ → ℕ → Lock → Bool × Lock
  unfolding wake_if_dark lockout_remaining_s press_key
  feed_key byte now s =
      let woken = wake_if_dark s in
      if not s.is_locked
      then (false, s)
      else if woken.0
      then woken
      else if ltb 0 (lockout_remaining_s now s)
      then (true, s)
      else (true, press_byte byte now s)
