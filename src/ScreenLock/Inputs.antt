-- ===== src/ScreenLock/Inputs.antt =====
-- What app_main sends to the screen lock, and runs of it.
use portable_terminal.Base.{ℕ, ◌≤◌, Bool, List, [], ◌∷◌, Bytes}
use portable_terminal.ScreenLock.{Lock, activity_note}
use portable_terminal.ScreenLock.Runtime.{
  lock_now, tick, wake_if_dark, TouchEvent, handle_touch, feed_key,
}

pub data Input : Type 0 where
  touched : TouchEvent → ℕ → ℕ → Input
  typed : ℕ → Input
  woken : Input
  noted : Input
  lock_pressed : Input
  ticked : Bool → Input

module _ (sha256 : Bytes → Bytes → Bytes) where
  -- an input at a time
  unfoldable pub on_input : Input → ℕ → Lock → Lock
  on_input (touched event x y) now s = (handle_touch sha256 event x y now s).1
  on_input (typed byte) now s = (feed_key sha256 byte now s).1
  on_input woken now s = (wake_if_dark s).1
  on_input noted now s = activity_note now s
  on_input lock_pressed now s = lock_now s
  on_input (ticked qr_visible) now s = tick qr_visible now s

  -- inputs with their times
  unfoldable pub run : List (ℕ × Input) → Lock → Lock
  unfolding on_input
  run [] s = s
  run (e ∷ es) s = run es (on_input e.1 e.0 s)

-- the times do not go back, from a first one on
unfoldable pub InOrder : ℕ → List (ℕ × Input) → Type 0
InOrder now [] = Unit {0}
InOrder now (e ∷ es) = (now ≤ e.0) × InOrder e.0 es

-- the time of the last input
unfoldable pub last_time : ℕ → List (ℕ × Input) → ℕ
last_time now [] = now
last_time now (e ∷ es) = last_time e.0 es
