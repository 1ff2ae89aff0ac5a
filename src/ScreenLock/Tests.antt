-- ===== src/ScreenLock/Tests.antt =====
-- A lock with the PIN 1234, under a hash that is the PIN itself.
use portable_terminal.Base.{
  replicate, ◌++◌, ℕ, ◌-◌, ◌*◌, ◌≤◌, ◌≡◌, refl, true, false, none, some, List, [], ◌∷◌, Bytes,
  arith, map,
}
use portable_terminal.Libc.{c_string}
use portable_terminal.ScreenLock.{
  Lock, empty_entry, default_timeout_min, hash_pin, pin_valid, differences, verify_pin, tried,
  activity_note, do_unlock, count_attempt, lockout_remaining_s, erase_digit, add_digit,
  submit_entry, press_key, hit_key,
}
use portable_terminal.ScreenLock.Storage.{
  init, set_config, NvsCall, NvsResult, nvs_ok, nvs_persist, set_pin,
}
use portable_terminal.ScreenLock.Runtime.{lock_now, tick, wake_if_dark, feed_key}
use portable_terminal.ScreenLock.Inputs.{
  Input, typed, ticked, woken, on_input, run, InOrder, last_time,
}
use portable_terminal.ScreenLock.Pace.{is_guess, wrong_guesses, wait_s, run_guesses_slow}
use portable_terminal.ScreenLock.Unlock.{Accepts, on_input_unlocks, set_pin_locks_out}

abbrev plain : Bytes → Bytes → Bytes
plain pin before = pin

abbrev pin : Bytes
pin = b'1' ∷ b'2' ∷ b'3' ∷ b'4' ∷ []

abbrev armed : Lock
armed = record {
  pin_hash = pin;
  pin_set = true;
  enabled = true;
  timeout_min = default_timeout_min;
  last_activity_us = 0;
  is_locked = false;
  awake = true;
  brightness = 0;
  saved_brightness = 128;
  entry = empty_entry;
  entry_len = 0;
  attempts = 0;
  lockout_until_us = 0;
  has_error = false;
}

abbrev keys : ℕ → Bytes → List (ℕ × Input)
keys now cs = map (λ c. (now, typed c)) cs

-- idle for ten minutes, woken, and the PIN but for the return
abbrev until_return : List (ℕ × Input)
until_return = (600000000, ticked false) ∷ (700000000, woken) ∷ keys 700000001 pin

abbrev asked : Lock
asked = run plain until_return armed

asked-is_locked : asked.is_locked ≡ true
unfolding run on_input tick lock_now activity_note wake_if_dark feed_key press_key
    lockout_remaining_s add_digit erase_digit submit_entry
asked-is_locked = refl

return_unlocks : (on_input plain (typed 13) 700000002 asked).is_locked ≡ false
unfolding run on_input tick lock_now activity_note wake_if_dark feed_key press_key
    lockout_remaining_s add_digit erase_digit submit_entry verify_pin hash_pin pin_valid differences
    do_unlock c_string count_attempt
return_unlocks = refl

on_input_unlocks_example :
    (asked.lockout_until_us ≤ 700000002) × Accepts plain (tried plain asked) asked
on_input_unlocks_example =
    on_input_unlocks plain (typed 13) 700000002 asked asked-is_locked return_unlocks

-- five wrong PINs at once, and a sixth one when the lockout is over
abbrev wrong : Bytes
wrong = b'1' ∷ b'1' ∷ b'1' ∷ b'1' ∷ 13 ∷ []

abbrev twice : Bytes
twice = wrong ++ wrong

abbrev guesses : List (ℕ × Input)
guesses =
    (600000000, ticked false)
    ∷ (700000000, woken)
    ∷ (keys 700000001 (twice ++ twice ++ wrong) ++ keys 730000001 wrong)

guesses-InOrder : InOrder 0 guesses
unfolding InOrder
guesses-InOrder = omega arith

run_guesses_slow_example :
    wait_s (wrong_guesses plain 0 guesses armed) * 1000000 ≤ last_time 0 guesses - 0
run_guesses_slow_example = run_guesses_slow plain 0 guesses armed guesses-InOrder

-- all six count, and the bound is sharp: the last one comes half a minute after the one before
six_guesses :
    (wrong_guesses plain 0 guesses armed ≡ 6)
    × ((run plain guesses armed).attempts ≡ 6)
    × (wait_s 6 ≡ 30)
unfolding run on_input tick lock_now activity_note wake_if_dark feed_key press_key
    lockout_remaining_s add_digit erase_digit submit_entry verify_pin hash_pin pin_valid differences
    do_unlock c_string count_attempt wrong_guesses is_guess wait_s
six_guesses = (refl, refl, refl)

-- a sixth PIN during the lockout is no guess
no_guess_in_lockout :
    wrong_guesses plain 0
      ((600000000, ticked false) ∷ (700000000, woken) ∷ keys 700000001 (twice ++ twice ++ twice))
      armed
    ≡ 5
unfolding run on_input tick lock_now activity_note wake_if_dark feed_key press_key
    lockout_remaining_s add_digit erase_digit submit_entry verify_pin hash_pin pin_valid differences
    do_unlock c_string count_attempt wrong_guesses is_guess wait_s
no_guess_in_lockout = refl

abbrev storage : NvsCall → NvsResult
storage _ = nvs_ok

stored : nvs_persist storage none true armed.enabled armed.timeout_min ≡ true
unfolding nvs_persist
stored = refl

abbrev locked : Lock
locked = record armed { is_locked = true }

set_pin_locks_out_example :
    (run plain until_return (set_pin storage plain none locked).1).is_locked ≡ true
set_pin_locks_out_example = set_pin_locks_out plain storage until_return locked refl stored

-- the fifth wrong PIN in a row starts a lockout of half a minute, the ninth one of four minutes
lockouts :
    (lockout_remaining_s 1000000 (count_attempt 1000000 (record locked { attempts = 4 })) ≡ 30)
    × (lockout_remaining_s 1000000 (count_attempt 1000000 (record locked { attempts = 8 })) ≡ 240)
unfolding lockout_remaining_s count_attempt
lockouts = (refl, refl)

-- the corners of the pad and a gap
pad : (hit_key 416 300 ≡ some 0) × (hit_key 863 645 ≡ some 11) × (hit_key 556 300 ≡ none)
unfolding hit_key
pad = (refl, refl, refl)

-- a timeout is between a minute and a day
clamped :
    ((set_config storage true 0 5 armed).1.timeout_min ≡ 1)
    × ((set_config storage true 2000 5 armed).1.timeout_min ≡ 1440)
unfolding set_config nvs_persist activity_note
clamped = (refl, refl)

-- a device that has nothing stored, and one with a hash and a timeout that is out of range
loaded :
    ((init true none none none 7 armed).timeout_min ≡ 10)
    × ((init true (some 1) (some 0) (some (replicate 32 5)) 7 armed).pin_hash ≡ replicate 32 5)
    × ((init true (some 1) (some 0) (some (replicate 32 5)) 7 armed).timeout_min ≡ 1)
unfolding init activity_note
loaded = (refl, refl, refl)
