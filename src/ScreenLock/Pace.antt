-- ===== src/ScreenLock/Pace.antt =====
-- How fast PINs can be guessed.
use portable_terminal.Base.{
  ℕ, zero, suc, ◌+◌, ◌-◌, ◌*◌, ◌^◌, ◌≤◌, ◌≡◌, refl, sym, ap, ◌∙◌, subst, min, Bool, true, false,
  not, ◌&&◌, List, [], ◌∷◌, Bytes, arith, ltb, leb, ◌==◌, if◌then◌else◌, leb→le, if-false, if_case,
  Bool-cases, inl, inr,
}
use portable_terminal.ScreenLock.{
  Lock, activity_note, do_unlock, count_attempt, cleared_entry, lock_s, hash_pin, tried,
  submit_entry, verify_pin,
}
use native.Mathlib.Decide.{ℕ_discrete}
use portable_terminal.ScreenLock.Inputs.{Input, on_input, run, InOrder, last_time}
use portable_terminal.ScreenLock.Outcomes.{
  Stays, Twins, both_stay, both_try, with_pin, on_input-Twin,
}

module _ (sha256 : Bytes → Bytes → Bytes) where
  -- An input is a guess if it would take the lock off, were the PIN the one that has been entered.
  unfoldable pub is_guess : Input → ℕ → Lock → Bool
  is_guess i now s =
      let lucky = with_pin (hash_pin sha256 (tried sha256 s)) true s in
      s.is_locked && not (on_input sha256 i now lucky).is_locked

  -- the wrong guesses, after n of them and an input that makes `t` of `s`
  abbrev pub tally : ℕ → Input → ℕ → Lock → Lock → ℕ
  tally n i now s t =
      if s.is_locked && not t.is_locked then 0 else if is_guess i now s then n + 1 else n

  -- how many wrong guesses have been made since the lock was last taken off, after n of them
  unfoldable pub wrong_guesses : ℕ → List (ℕ × Input) → Lock → ℕ
  unfolding is_guess
  wrong_guesses n [] s = n
  wrong_guesses n (e ∷ es) s =
      let t = on_input sha256 e.1 e.0 s in wrong_guesses (tally n e.1 e.0 s t) es t

-- how many seconds of lockout the nth wrong guess is to cost
abbrev pub cost_s : ℕ → ℕ
cost_s n =
    if ltb n 5 then 0 else if n == 5 then 30 else if n == 6 then 60 else if n == 7 then 120 else 240

-- the lockouts that stand between n wrong guesses
unfoldable pub wait_s : ℕ → ℕ
wait_s zero = 0
wait_s (suc n) = wait_s n + cost_s n

cost_s-lock_s : (n : ℕ) → 5 ≤ n → cost_s n ≤ lock_s n
cost_s-lock_s n h = elim (ℕ_discrete n 5) [
  | yes e ↦ at e (omega arith)
  | no not_5 ↦ elim (ℕ_discrete n 6) [
    | yes e ↦ at e (omega arith)
    | no not_6 ↦ elim (ℕ_discrete n 7) [
      | yes e ↦ at e (omega arith)
      | no not_7 ↦
          let most : min (n - 5) 3 ≡ 3 = omega arith in
          let four : cost_s n ≤ 240 = ground arith in
          omega (arith, four, ap (λ (k : ℕ). 30 * 2 ^ k) most)
    ]
  ]
]
  where
    at : {k : ℕ} → n ≡ k → cost_s k ≤ lock_s k → cost_s n ≤ lock_s n
    at e le = subst (λ (m : ℕ). cost_s m ≤ lock_s m) (sym e) le

cost_s-le : (n m : ℕ) → n ≤ m → cost_s n ≤ cost_s m
cost_s-le n m h = ground arith

wait_s-next : (n : ℕ) → wait_s (n + 1) ≡ wait_s n + cost_s n
unfolding wait_s
wait_s-next n = let next : n + 1 ≡ suc n = omega arith in ap wait_s next

wait_s-few : (n : ℕ) → n ≤ 5 → wait_s n ≡ 0
unfolding wait_s
wait_s-few zero h = refl
wait_s-few (suc n) h =
    let none : cost_s n ≡ 0 = ground arith in omega (arith, wait_s-few n (omega arith), none)

-- With the first input at `start` and n wrong guesses: they took the lockouts that stand between
-- them, and the next one is to come after the lockout of the last.
record Paced (start now n : ℕ) (s : Lock) : Type 0 where
  not_before : start ≤ now
  counted : n ≤ s.attempts
  in_time : wait_s n * 1000000 + start ≤ now
  locked_out : 1 ≤ n → 5 ≤ s.attempts → (wait_s n + cost_s n) * 1000000 + start ≤ s.lockout_until_us

module _ (start now : ℕ) where
  Paced-none : (s : Lock) → start ≤ now → Paced start now 0 s
  unfolding wait_s
  Paced-none s h = record {
    not_before = h;
    counted = omega arith;
    in_time = omega arith;
    locked_out = λ one. absurd (omega arith);
  }

  -- the time since an earlier input
  Paced-later :
      (before n : ℕ) (s : Lock) → before ≤ now → Paced start before n s → Paced start now n s
  Paced-later before n s h p = record {
    not_before = omega (arith, h, p.not_before);
    counted = p.counted;
    in_time = omega (arith, h, p.in_time);
    locked_out = p.locked_out;
  }

  Paced-Stays : (n : ℕ) (s t : Lock) → Stays s t → Paced start now n s → Paced start now n t
  Paced-Stays n s t k p = record {
    not_before = p.not_before;
    counted = omega (arith, k.same_attempts, p.counted);
    in_time = p.in_time;
    locked_out = λ one many.
        omega (arith, k.same_lockout, p.locked_out one (omega (arith, k.same_attempts, many)));
  }

  -- an attempt that was no guess
  Paced-fewer : (n : ℕ) (s : Lock) → Paced start now (n + 1) s → Paced start now n s
  Paced-fewer n s p =
      let le : wait_s n ≤ wait_s (n + 1) = omega (arith, wait_s-next n) in
      let cost = cost_s-le n (n + 1) (omega arith) in
      record {
        not_before = p.not_before;
        counted = omega (arith, p.counted);
        in_time = omega (arith, p.in_time, le);
        locked_out = λ one many. omega (arith, p.locked_out (omega arith) many, le, cost);
      }

  Paced-count_attempt :
      (n : ℕ) (s : Lock)
      → s.lockout_until_us ≤ now
      → Paced start now n s
      → Paced start now (n + 1) (count_attempt now (cleared_entry s))
  unfolding count_attempt
  Paced-count_attempt n s over p =
      let few : n ≤ 4 → wait_s (n + 1) * 1000000 + start ≤ now =
        λ h. omega (arith, wait_s-few (n + 1) (omega arith), p.not_before) in
      let in_time : wait_s (n + 1) * 1000000 + start ≤ now = elim (Bool-cases (leb 5 s.attempts)) [
        | inl many ↦ elim (Bool-cases (leb 1 n)) [
          | inl one ↦
              let last = p.locked_out (leb→le 1 n one) (leb→le 5 s.attempts many) in
              omega (arith, over, last, wait_s-next n)
          | inr none ↦ few (ground arith)
        ]
        | inr fewer ↦ few (ground (arith, p.counted))
      ] in
      let a = s.attempts + 1 in
      if_case (Paced start now (n + 1)) (leb 5 a) _ _
        (λ e. record {
          not_before = p.not_before;
          counted = omega (arith, p.counted);
          in_time = in_time;
          locked_out = λ one many.
              let cost = cost_s-le (n + 1) a (omega (arith, p.counted)) in
              omega (arith, in_time, cost, cost_s-lock_s a (leb→le 5 a e));
        })
        (λ e. record {
          not_before = p.not_before;
          counted = omega (arith, p.counted);
          in_time = in_time;
          locked_out = λ one many. absurd (ground arith);
        })

  -- `tally` by whether the lock is on before, after, and after the lucky guess
  abbrev tally_by : ℕ → Bool → Bool → Bool → ℕ
  tally_by n before after lucky =
      if before && not after then 0 else if before && not lucky then n + 1 else n

  stays_on : (a b : Bool) → (a ≡ true → b ≡ true) → (a && not b) ≡ false
  stays_on true b h = ground (arith, h refl)
  stays_on false b h = refl

  count_attempt-on : (s : Lock) → (count_attempt now (cleared_entry s)).is_locked ≡ s.is_locked
  unfolding count_attempt
  count_attempt-on s = ground arith

  Paced-failed :
      (n : ℕ) (s : Lock) (lucky : Bool)
      → s.lockout_until_us ≤ now
      → Paced start now n s
      → let t = count_attempt now (cleared_entry s) in
        Paced start now (tally_by n s.is_locked t.is_locked lucky) t
  Paced-failed n s lucky over p =
      let t = count_attempt now (cleared_entry s) in
      let more = Paced-count_attempt n s over p in
      let m = if s.is_locked && not lucky then n + 1 else n in
      let on = stays_on s.is_locked t.is_locked (λ h. count_attempt-on s ∙ h) in
      subst (λ (k : ℕ). Paced start now k t) (sym (if-false 0 m on))
        (if_case (λ (k : ℕ). Paced start now k t) (s.is_locked && not lucky) (n + 1) n (λ e. more)
          (λ e. Paced-fewer n t more))

  Paced-opened :
      (n : ℕ) (s : Lock) (lucky : Bool)
      → s.is_locked ≡ true
      → Paced start now n s
      → let t = do_unlock now (cleared_entry s) in
        Paced start now (tally_by n s.is_locked t.is_locked lucky) t
  unfolding do_unlock activity_note
  Paced-opened n s lucky locked p =
      let t = do_unlock now (cleared_entry s) in
      subst (λ (b : Bool). Paced start now (tally_by n b false lucky) t) (sym locked)
        (Paced-none t p.not_before)

  Paced-submit_entry :
      (sha256 : Bytes → Bytes → Bytes) (n : ℕ) (s : Lock) (lucky : Bool)
      → s.is_locked ≡ true
      → s.lockout_until_us ≤ now
      → Paced start now n s
      → let t = submit_entry sha256 now s in
        Paced start now (tally_by n s.is_locked t.is_locked lucky) t
  unfolding submit_entry
  Paced-submit_entry sha256 n s lucky locked over p =
      let ok = leb 4 s.entry_len && verify_pin sha256 (tried sha256 s) s in
      if_case (λ (t : Lock). Paced start now (tally_by n s.is_locked t.is_locked lucky) t) ok
        (do_unlock now (cleared_entry s)) (count_attempt now (cleared_entry s))
        (λ e. Paced-opened n s lucky locked p) (λ e. Paced-failed n s lucky over p)

  Paced-Twins :
      (sha256 : Bytes → Bytes → Bytes) (n : ℕ) (s s' t t' : Lock)
      → s'.is_locked ≡ s.is_locked
      → Paced start now n s
      → Twins sha256 now s s' t t'
      → Paced start now (tally_by n s.is_locked t.is_locked t'.is_locked) t
  Paced-Twins sha256 n s s' _ _ same p (both_stay t t' k k') =
      let m = if s.is_locked && not t'.is_locked then n + 1 else n in
      let on = stays_on s.is_locked t.is_locked k.still_locked in
      let on' = stays_on s.is_locked t'.is_locked (λ h. k'.still_locked (same ∙ h)) in
      subst (λ (j : ℕ). Paced start now j t) (sym (if-false 0 m on ∙ if-false (n + 1) n on'))
        (Paced-Stays n s t k p)
  Paced-Twins sha256 n s s' _ _ same p (both_try locked over) =
      Paced-submit_entry sha256 n s (submit_entry sha256 now s').is_locked locked over p

module _ (sha256 : Bytes → Bytes → Bytes) where
  Paced-on_input :
      (start now n : ℕ) (i : Input) (s : Lock)
      → Paced start now n s
      → let t = on_input sha256 i now s in Paced start now (tally sha256 n i now s t) t
  unfolding is_guess
  Paced-on_input start now n i s p =
      let hash = hash_pin sha256 (tried sha256 s) in
      Paced-Twins start now sha256 n s (with_pin hash true s) _ _ refl p
        (on_input-Twin sha256 now s hash true i)

  run-Paced :
      (start now n : ℕ) (es : List (ℕ × Input)) (s : Lock)
      → InOrder now es
      → Paced start now n s
      → Paced start (last_time now es) (wrong_guesses sha256 n es s) (run sha256 es s)
  unfolding run InOrder last_time wrong_guesses
  run-Paced start now n [] s order p = p
  run-Paced start now n (e ∷ es) s order p =
      let t = on_input sha256 e.1 e.0 s in
      run-Paced start e.0 (tally sha256 n e.1 e.0 s t) es t order.1
        (Paced-on_input start e.0 n e.1 s (Paced-later start e.0 now n s order.0 p))

  -- Whatever is touched, typed and waited for, and whatever the lock's state at first, n wrong
  -- guesses since the lock was last taken off stand as far apart as the lockouts between them: half
  -- a minute behind the fifth, one minute behind the sixth, two behind the seventh and four behind
  -- each later one. An input is a guess if it would take the lock off, were the PIN the one entered.
  pub run_guesses_slow :
      (now : ℕ) (es : List (ℕ × Input)) (s : Lock)
      → InOrder now es
      → wait_s (wrong_guesses sha256 0 es s) * 1000000 ≤ last_time now es - now
  run_guesses_slow now es s order =
      let p = run-Paced now now 0 es s order (Paced-none now now s (omega arith)) in
      omega (arith, p.in_time, p.not_before)
