-- ===== src/ScreenLock/Unlock.antt =====
-- What takes the lock off.
use portable_terminal.Base.{
  ℕ, ◌≤◌, ◌≡◌, refl, sym, ap, ◌∙◌, ==_iff, if-true, if-false, Bool, true, false, not, List, none,
  replicate, subst, [], ◌∷◌, Bytes, Bool-cases, inl, inr, arith,
}
use portable_terminal.ScreenLock.{
  Lock, activity_note, do_unlock, count_attempt, cleared_entry, verify_pin, pin_valid, tried,
  differences, hash_pin,
}
use portable_terminal.ScreenLock.Storage.{NvsCall, NvsResult, nvs_persist, set_pin}
use portable_terminal.ScreenLock.Inputs.{Input, on_input, run}
use portable_terminal.ScreenLock.Outcomes.{Outcome, stayed, failed, opened, on_input-Outcome}

count_attempt-locked :
    (now : ℕ) (s : Lock) → (count_attempt now (cleared_entry s)).is_locked ≡ s.is_locked
unfolding count_attempt
count_attempt-locked now s = ground arith

count_attempt-pin : (now : ℕ) (s : Lock) → (count_attempt now (cleared_entry s)).pin_set ≡ s.pin_set
unfolding count_attempt
count_attempt-pin now s = ground arith

true-not_false : true ≡ false → ⊥
true-not_false e = ground arith

module _ (sha256 : Bytes → Bytes → Bytes) where
  Outcome-unlocks :
      (now : ℕ) (s t : Lock)
      → Outcome sha256 now s t
      → s.is_locked ≡ true
      → t.is_locked ≡ false
      → (s.lockout_until_us ≤ now) × (verify_pin sha256 (tried sha256 s) s ≡ true)
  Outcome-unlocks now s _ (stayed t same) locked free =
      absurd (true-not_false (sym (same.still_locked locked) ∙ free))
  Outcome-unlocks now s _ (failed over) locked free =
      absurd (true-not_false (sym (count_attempt-locked now s ∙ locked) ∙ free))
  Outcome-unlocks now s _ (opened over right) locked free = (over, right)

  -- `verify_pin` accepts a PIN.
  pub record Accepts (pin : Bytes) (s : Lock) : Type 0 where
    is_valid : pin_valid pin ≡ true
    is_set : s.pin_set ≡ true
    no_difference : differences (hash_pin sha256 pin) s.pin_hash 0 ≡ 0

  verify_pin-Accepts : (pin : Bytes) (s : Lock) → verify_pin sha256 pin s ≡ true → Accepts pin s
  unfolding verify_pin
  verify_pin-Accepts pin s h = elim (Bool-cases (pin_valid pin)) [
    | inr bad ↦ absurd (true-not_false (sym h ∙ if-true _ _ (ap not bad)))
    | inl good ↦
        let rest = sym (if-false _ _ (ap not good)) ∙ h in
        elim (Bool-cases s.pin_set) [
          | inr none_set ↦ absurd (true-not_false (sym rest ∙ if-true _ _ (ap not none_set)))
          | inl there ↦ record {
            is_valid = good;
            is_set = there;
            no_difference = (==_iff _ _).0 (sym (if-false _ _ (ap not there)) ∙ rest);
          }
        ]
  ]

  -- An input takes the lock off only outside a lockout, when a PIN is set, and with an entry of four
  -- to eight digits whose hash does not differ from that of the PIN.
  pub on_input_unlocks :
      (i : Input) (now : ℕ) (s : Lock)
      → s.is_locked ≡ true
      → (on_input sha256 i now s).is_locked ≡ false
      → (s.lockout_until_us ≤ now) × Accepts (tried sha256 s) s
  on_input_unlocks i now s locked free =
      let o = Outcome-unlocks now s _ (on_input-Outcome sha256 now s i) locked free in
      (o.0, verify_pin-Accepts (tried sha256 s) s o.1)

  Outcome-pin : (now : ℕ) (s t : Lock) → Outcome sha256 now s t → t.pin_set ≡ s.pin_set
  unfolding do_unlock activity_note
  Outcome-pin now s _ (stayed t same) = same.same_pin
  Outcome-pin now s _ (failed over) = count_attempt-pin now s
  Outcome-pin now s _ (opened over right) = refl

  stays_locked :
      (i : Input) (now : ℕ) (s : Lock)
      → s.is_locked ≡ true
      → s.pin_set ≡ false
      → (on_input sha256 i now s).is_locked ≡ true
  stays_locked i now s locked cleared = elim (Bool-cases (on_input sha256 i now s).is_locked) [
    | inl on ↦ on
    | inr off ↦
        absurd (true-not_false (sym (on_input_unlocks i now s locked off).1.is_set ∙ cleared))
  ]

  run_cleared_locked :
      (es : List (ℕ × Input)) (s : Lock)
      → s.is_locked ≡ true
      → s.pin_set ≡ false
      → (run sha256 es s).is_locked ≡ true
  unfolding run
  run_cleared_locked [] s locked cleared = locked
  run_cleared_locked (e ∷ es) s locked cleared =
      run_cleared_locked es (on_input sha256 e.1 e.0 s) (stays_locked e.1 e.0 s locked cleared)
        (Outcome-pin e.0 s _ (on_input-Outcome sha256 e.0 s e.1) ∙ cleared)

  -- When `set_pin` clears the PIN while the lock is on, and the storage takes it, the lock stays on
  -- whatever is touched, typed and waited for.
  pub set_pin_locks_out :
      (answer : NvsCall → NvsResult) (es : List (ℕ × Input)) (s : Lock)
      → s.is_locked ≡ true
      → nvs_persist answer none true s.enabled s.timeout_min ≡ true
      → (run sha256 es (set_pin answer sha256 none s).1).is_locked ≡ true
  unfolding set_pin
  set_pin_locks_out answer es s locked stored =
      let cleared : Lock = record s { pin_hash = replicate 32 0; pin_set = false } in
      subst (λ (o : Bool × Lock). (run sha256 es o.1).is_locked ≡ true)
        (sym (if-false (false, s) (true, cleared) (ap not stored)))
        (run_cleared_locked es cleared locked refl)
