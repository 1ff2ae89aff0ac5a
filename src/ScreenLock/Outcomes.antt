-- ===== src/ScreenLock/Outcomes.antt =====
-- What an input can come to.
use portable_terminal.Base.{
  ℕ, ◌+◌, ◌-◌, ◌*◌, ◌≤◌, ◌≡◌, refl, ◌∙◌, Bool, true, false, not, ◌&&◌, ◌||◌, Option, none, some,
  Bytes, arith, ltb, leb, ◌==◌, if◌then◌else◌, Bool-cases, inl, inr, ap, sym, subst, if-true,
  if-false, if_case, if_both,
}
use portable_terminal.Libc.{isdigit}
use portable_terminal.ScreenLock.{
  Lock, activity_note, do_unlock, count_attempt, cleared_entry, empty_entry, key_backspace,
  key_zero, key_ok, lockout_remaining_s, erase_digit, add_digit, submit_entry, press_key, hit_key,
  verify_pin, tried,
}
use portable_terminal.ScreenLock.Runtime.{
  press_hit, press_byte, lock_now, tick, wake_if_dark, TouchEvent, touch_down, touch_move, touch_up,
  handle_touch, feed_key,
}
use portable_terminal.ScreenLock.Inputs.{
  Input, touched, typed, woken, noted, lock_pressed, ticked, on_input,
}

-- The count of attempts, the lockout and the PIN are as before, and a lock is not taken off.
pub record Stays (s t : Lock) : Type 0 where
  pub same_attempts : t.attempts ≡ s.attempts
  pub same_lockout : t.lockout_until_us ≡ s.lockout_until_us
  pub same_pin : t.pin_set ≡ s.pin_set
  pub still_locked : s.is_locked ≡ true → t.is_locked ≡ true

Stays-same :
    (s t : Lock)
    → t.attempts ≡ s.attempts
    → t.lockout_until_us ≡ s.lockout_until_us
    → t.pin_set ≡ s.pin_set
    → t.is_locked ≡ s.is_locked
    → Stays s t
Stays-same s t a l p k = record {
  same_attempts = a;
  same_lockout = l;
  same_pin = p;
  still_locked = λ h. k ∙ h;
}

-- the lock with another PIN, or with none
abbrev pub with_pin : Bytes → Bool → Lock → Lock
with_pin hash is_set s = record s { pin_hash = hash; pin_set = is_set }

lock_now-Stays : (s : Lock) → Stays s (lock_now s)
unfolding lock_now
lock_now-Stays s =
    let dark : Lock = record s {
      saved_brightness = if s.brightness == 0 then 128 else s.brightness;
      brightness = 0;
      awake = false;
      entry_len = 0;
      entry = empty_entry;
      has_error = false;
      is_locked = true;
    } in
    if_case (Stays s) s.is_locked s (if not s.pin_set then s else dark)
      (λ e. Stays-same s s refl refl refl refl)
      (λ e.
        if_case (Stays s) (not s.pin_set) s dark (λ e. Stays-same s s refl refl refl refl)
          (λ e. record {
            same_attempts = refl;
            same_lockout = refl;
            same_pin = refl;
            still_locked = λ h. refl;
          }))

activity_note-Stays : (now : ℕ) (s : Lock) → Stays s (activity_note now s)
unfolding activity_note
activity_note-Stays now s = Stays-same s _ refl refl refl refl

tick-Stays : (qr_visible : Bool) (now : ℕ) (s : Lock) → Stays s (tick qr_visible now s)
unfolding tick
tick-Stays qr_visible now s =
    let idle = leb (s.timeout_min * 60 * 1000000) (now - s.last_activity_us) in
    let due = if idle then lock_now s else s in
    let kept = Stays-same s s refl refl refl refl in
    if_case (Stays s) (s.is_locked || (not s.enabled || not s.pin_set)) s
      (if qr_visible then activity_note now s else due) (λ e. kept)
      (λ e.
        if_case (Stays s) qr_visible (activity_note now s) due (λ e. activity_note-Stays now s)
          (λ e. if_case (Stays s) idle (lock_now s) s (λ e. lock_now-Stays s) (λ e. kept)))

over_lem :
    (now : ℕ) (s : Lock) → ltb 0 (lockout_remaining_s now s) ≡ false → s.lockout_until_us ≤ now
unfolding lockout_remaining_s
over_lem now s h = ground arith

not-false : (b : Bool) → not b ≡ false → b ≡ true
not-false b h = ground arith

module _ (sha256 : Bytes → Bytes → Bytes) where
  -- What an input makes of a lock `s`, and of the same lock with another PIN: neither changes what
  -- `Stays` says, or both try the PIN that has been entered, outside a lockout.
  pub data Twins (now : ℕ) (s s' : Lock) : Lock → Lock → Type 0 where
    both_stay : (t t' : Lock) → Stays s t → Stays s' t' → Twins now s s' t t'
    both_try :
        s.is_locked ≡ true
        → s.lockout_until_us ≤ now
        → Twins now s s' (submit_entry sha256 now s) (submit_entry sha256 now s')

  module _ (now : ℕ) (s : Lock) (hash : Bytes) (is_set : Bool) where
    abbrev other : Lock
    other = with_pin hash is_set s

    abbrev Twin : Lock → Lock → Type 0
    Twin = Twins now s other

    unchanged : Twin s other
    unchanged =
        both_stay s other (Stays-same s s refl refl refl refl)
          (Stays-same other other refl refl refl refl)

    erase_digit-Twin : Twin (erase_digit s) (erase_digit other)
    unfolding erase_digit
    erase_digit-Twin =
        if_both Twin (ltb 0 s.entry_len) _ s _ other
          (λ e.
            both_stay _ _ (Stays-same s _ refl refl refl refl)
              (Stays-same other _ refl refl refl refl))
          (λ e. unchanged)

    add_digit-Twin : (digit : ℕ) → Twin (add_digit digit s) (add_digit digit other)
    unfolding add_digit
    add_digit-Twin digit =
        if_both Twin (ltb s.entry_len 8) _ s _ other
          (λ e.
            both_stay _ _ (Stays-same s _ refl refl refl refl)
              (Stays-same other _ refl refl refl refl))
          (λ e. unchanged)

    press_key-Twin :
        (key : ℕ)
        → s.is_locked ≡ true
        → Twin (press_key sha256 key now s) (press_key sha256 key now other)
    unfolding press_key lockout_remaining_s
    press_key-Twin key locked =
        let digit = if key == key_zero then 0 else key + 1 in
        let edit : Lock → Lock =
          λ t. if key == key_backspace then erase_digit t else add_digit digit t in
        let press : Lock → Lock =
          λ t. if key == key_ok then submit_entry sha256 now t else edit t in
        if_both Twin (ltb 0 (lockout_remaining_s now s)) s (press s) other (press other)
          (λ e. unchanged)
          (λ free.
            if_both Twin (key == key_ok) (submit_entry sha256 now s) (edit s)
              (submit_entry sha256 now other) (edit other)
              (λ e. both_try locked (over_lem now s free))
              (λ e.
                if_both Twin (key == key_backspace) (erase_digit s) (add_digit digit s)
                  (erase_digit other) (add_digit digit other) (λ e. erase_digit-Twin)
                  (λ e. add_digit-Twin digit)))

    press_hit-Twin :
        (key : Option ℕ)
        → s.is_locked ≡ true
        → Twin (press_hit sha256 key now s) (press_hit sha256 key now other)
    press_hit-Twin none locked = unchanged
    press_hit-Twin (some key) locked = press_key-Twin key locked

    press_byte-Twin :
        (byte : ℕ)
        → s.is_locked ≡ true
        → Twin (press_byte sha256 byte now s) (press_byte sha256 byte now other)
    press_byte-Twin byte locked =
        let press : ℕ → Lock → Lock = λ key t. press_key sha256 key now t in
        let enter : Lock → Lock = λ t. if byte == 13 || byte == 10 then press key_ok t else t in
        let others : Lock → Lock =
          λ t. if byte == 0x08 || byte == 0x7F then press key_backspace t else enter t in
        let digit = if byte == b'0' then key_zero else byte - b'1' in
        if_both Twin (isdigit byte) (press digit s) (others s) (press digit other) (others other)
          (λ e. press_key-Twin digit locked)
          (λ e.
            if_both Twin (byte == 0x08 || byte == 0x7F) (press key_backspace s) (enter s)
              (press key_backspace other) (enter other) (λ e. press_key-Twin key_backspace locked)
              (λ e.
                if_both Twin (byte == 13 || byte == 10) (press key_ok s) s (press key_ok other)
                  other (λ e. press_key-Twin key_ok locked) (λ e. unchanged)))

    -- of the results that come with an answer
    abbrev Answered : Bool × Lock → Bool × Lock → Type 0
    Answered x y = Twin x.1 y.1

    wake_if_dark-Twin : Answered (wake_if_dark s) (wake_if_dark other)
    unfolding wake_if_dark
    wake_if_dark-Twin =
        let lit : Lock → Bool × Lock =
          λ t. (true, record t { awake = true; brightness = t.saved_brightness }) in
        if_both Answered (not s.is_locked || s.awake) (false, s) (lit s) (false, other) (lit other)
          (λ e. unchanged)
          (λ e.
            both_stay _ _ (Stays-same s _ refl refl refl refl)
              (Stays-same other _ refl refl refl refl))

    wakes_both : (wake_if_dark s).0 ≡ (wake_if_dark other).0
    unfolding wake_if_dark
    wakes_both = elim (Bool-cases (not s.is_locked || s.awake)) [
      | inl e ↦
          ap (λ (x : Bool × Lock). x.0) (if-true _ _ e)
          ∙ sym (ap (λ (x : Bool × Lock). x.0) (if-true _ _ e))
      | inr e ↦
          ap (λ (x : Bool × Lock). x.0) (if-false _ _ e)
          ∙ sym (ap (λ (x : Bool × Lock). x.0) (if-false _ _ e))
    ]

    feed_key-Twin :
        (byte : ℕ) → Answered (feed_key sha256 byte now s) (feed_key sha256 byte now other)
    unfolding feed_key lockout_remaining_s
    feed_key-Twin byte =
        let pressed : Lock → Bool × Lock = λ t. (true, press_byte sha256 byte now t) in
        let awake : Lock → Bool × Lock =
          λ t. if ltb 0 (lockout_remaining_s now t) then (true, t) else pressed t in
        let woken = (wake_if_dark s).0 in
        let lit : Bool → Lock → Bool × Lock = λ b t. if b then wake_if_dark t else awake t in
        subst
          (λ b.
            Answered (feed_key sha256 byte now s)
              (if not s.is_locked then (false, other) else lit b other))
          wakes_both
          (if_both Answered (not s.is_locked) (false, s) (lit woken s) (false, other)
            (lit woken other) (λ e. unchanged)
            (λ on.
              if_both Answered woken (wake_if_dark s) (awake s) (wake_if_dark other) (awake other)
                (λ e. wake_if_dark-Twin)
                (λ e.
                  if_both Answered (ltb 0 (lockout_remaining_s now s)) (true, s) (pressed s)
                    (true, other) (pressed other) (λ e. unchanged)
                    (λ e. press_byte-Twin byte (not-false s.is_locked on)))))

    handle_touch-Twin :
        (event : TouchEvent) (x y : ℕ)
        → Answered (handle_touch sha256 event x y now s) (handle_touch sha256 event x y now other)
    unfolding handle_touch
    handle_touch-Twin touch_down x y =
        let pressed : Lock → Bool × Lock = λ t. (true, press_hit sha256 (hit_key x y) now t) in
        if_both Answered (not s.is_locked) (false, s) (pressed s) (false, other) (pressed other)
          (λ e. unchanged) (λ on. press_hit-Twin (hit_key x y) (not-false s.is_locked on))
    handle_touch-Twin touch_move x y = unchanged
    handle_touch-Twin touch_up x y = unchanged

    pub on_input-Twin : (i : Input) → Twin (on_input sha256 i now s) (on_input sha256 i now other)
    unfolding on_input
    on_input-Twin (touched event x y) = handle_touch-Twin event x y
    on_input-Twin (typed byte) = feed_key-Twin byte
    on_input-Twin woken = wake_if_dark-Twin
    on_input-Twin noted = both_stay _ _ (activity_note-Stays now s) (activity_note-Stays now other)
    on_input-Twin lock_pressed = both_stay _ _ (lock_now-Stays s) (lock_now-Stays other)
    on_input-Twin (ticked qr_visible) =
        both_stay _ _ (tick-Stays qr_visible now s) (tick-Stays qr_visible now other)

  -- A PIN is tried only outside a lockout.
  pub data Outcome (now : ℕ) (s : Lock) : Lock → Type 0 where
    stayed : (t : Lock) → Stays s t → Outcome now s t
    failed : s.lockout_until_us ≤ now → Outcome now s (count_attempt now (cleared_entry s))
    opened :
        s.lockout_until_us ≤ now
        → verify_pin sha256 (tried sha256 s) s ≡ true
        → Outcome now s (do_unlock now (cleared_entry s))

  submit_entry-Outcome :
      (now : ℕ) (s : Lock) → s.lockout_until_us ≤ now → Outcome now s (submit_entry sha256 now s)
  unfolding submit_entry
  submit_entry-Outcome now s over =
      let ok = leb 4 s.entry_len && verify_pin sha256 (tried sha256 s) s in
      if_case (Outcome now s) ok (do_unlock now (cleared_entry s))
        (count_attempt now (cleared_entry s)) (λ e. opened over (ground arith)) (λ e. failed over)

  Twins-Outcome : (now : ℕ) (s s' t t' : Lock) → Twins now s s' t t' → Outcome now s t
  Twins-Outcome now s s' t t' (both_stay _ _ p q) = stayed t p
  Twins-Outcome now s s' _ _ (both_try locked over) = submit_entry-Outcome now s over

  pub on_input-Outcome : (now : ℕ) (s : Lock) (i : Input) → Outcome now s (on_input sha256 i now s)
  on_input-Outcome now s i = Twins-Outcome now s s _ _ (on_input-Twin now s s.pin_hash s.pin_set i)
