-- ===== src/Term/Parser/Digits.antt =====
-- Bytes of a control sequence in `Parser::feed`: a decimal parameter and a separator.
use portable_terminal.Base.{
  ℕ, zero, suc, ◌+◌, ◌*◌, ◌/◌, ◌%◌, ◌^◌, ◌≤◌, ◌<◌, ◌≡◌, ◌⊎◌, inl, inr, refl, sym, ap, subst, ◌∙◌,
  Bool, true, false, ◌||◌, Option, some, List, [], ◌∷◌, ◌++◌, Bytes, arith, ltb, ◌==◌, if-true,
  if-false, Bool-cases, ltb→lt, length, Returns, returns, Returns-bind,
}
use native.Mathlib.Nat.{pow-suc}
use portable_terminal.Term.Decimal.{digits_of, decimal}
use portable_terminal.Term.Parser.State.{
  ParserSink, Mode, Parser, csi_entry, csi_param, max_params, with_mode, with_first,
  push_param_digit, next_param, is_c0, is_param_digit,
}
use portable_terminal.Term.Parser.Feed.{feed, feed_byte, on_mode, on_csi_entry, on_csi_param}
use portable_terminal.Term.Parser.Utf8.{feed-append}
use portable_terminal.Term.Parser.Params.{
  Holds, append_digit-Holds, append_param-Holds, digit_mode, next_mode,
}

-- in the middle of a parameter, and at the start of one
pub record Reading (private : Bool) (done : List ℕ) (cur : ℕ) (p : Parser) : Type 0 where
  pub mode_is : p.mode ≡ csi_param
  pub holds : Holds private done cur p

pub record Ready (private : Bool) (done : List ℕ) (p : Parser) : Type 0 where
  pub mode_is : (p.mode ≡ csi_entry) ⊎ (p.mode ≡ csi_param)
  pub holds : Holds private done 0 (with_first p)

with_first_self :
    (private : Bool) (done : List ℕ) (cur : ℕ) (p : Parser)
    → Holds private done cur p
    → with_first p ≡ p
with_first_self private done cur p h =
    let test : p.n_params == 0 ≡ false = ground (arith, h.count) in if-false _ _ test

Holds-mode :
    (private : Bool) (done : List ℕ) (cur : ℕ) (p : Parser) (m : Mode)
    → Holds private done cur p
    → Holds private done cur (with_mode m p)
Holds-mode private done cur p m h = record {
  room = h.room;
  count = h.count;
  size = h.size;
  before = h.before;
  last = h.last;
  fits = h.fits;
  no_intermediates = h.no_intermediates;
  marked = h.marked;
}

module _ {S : Type 0} (sink : ParserSink S) where
  -- the sink is not called
  abbrev pub Reaches : S → (Parser → Type 0) → Option (Parser × S) → Type 0
  Reaches s Q = Returns (λ (x : Parser × S). (x.1 ≡ s) × Q x.0)

  pub feed_byte-mode :
      (b : ℕ) (p : Parser) (s : S) (m : Mode)
      → (b == 0x18 || b == 0x1A) ≡ false
      → p.mode ≡ m
      → feed_byte sink b (p, s) ≡ on_mode sink m b p s
  unfolding feed_byte
  feed_byte-mode b p s m h e = if-false _ _ h ∙ ap (λ k. on_mode sink k b p s) e

  param_digit_lem :
      (d : ℕ) (p : Parser) (s : S)
      → d < 10
      → p.mode ≡ csi_param
      → feed_byte sink (b'0' + d) (p, s) ≡ some (push_param_digit (b'0' + d) p, s)
  unfolding on_mode on_csi_param
  param_digit_lem d p s h m =
      let e1 : is_c0 (b'0' + d) ≡ false = ground arith in
      let e2 : is_param_digit (b'0' + d) ≡ true = ground arith in
      feed_byte-mode (b'0' + d) p s csi_param (ground arith) m ∙ if-false _ _ e1 ∙ if-true _ _ e2

  entry_digit_lem :
      (d : ℕ) (p : Parser) (s : S)
      → d < 10
      → p.mode ≡ csi_entry
      → feed_byte sink (b'0' + d) (p, s)
        ≡ some (with_mode csi_param (push_param_digit (b'0' + d) p), s)
  unfolding on_mode on_csi_entry
  entry_digit_lem d p s h m =
      let e1 : is_c0 (b'0' + d) ≡ false = ground arith in
      let e2 : is_param_digit (b'0' + d) ≡ true = ground arith in
      feed_byte-mode (b'0' + d) p s csi_entry (ground arith) m ∙ if-false _ _ e1 ∙ if-true _ _ e2

  -- the first digit of a parameter
  Ready-digit :
      (private : Bool) (done : List ℕ) (d : ℕ) (p : Parser) (s : S)
      → d < 10
      → Ready private done p
      → Reaches s (Reading private done d) (feed_byte sink (b'0' + d) (p, s))
  unfolding push_param_digit
  Ready-digit private done d p s h r =
      let digit : Holds private done d (push_param_digit (b'0' + d) p) =
        subst (λ (k : ℕ). Holds private done k (push_param_digit (b'0' + d) p)) (omega arith)
          (append_digit-Holds private done 0 d (with_first p) r.holds (omega arith)) in
      elim r.mode_is [
        | inl entry ↦
            subst (Reaches s (Reading private done d)) (sym (entry_digit_lem d p s h entry)) (
              returns (
                refl,
                record {
                  mode_is = refl;
                  holds = Holds-mode private done d (push_param_digit (b'0' + d) p) csi_param digit;
                },
              ))
        | inr param ↦
            subst (Reaches s (Reading private done d)) (sym (param_digit_lem d p s h param))
              (returns (refl, record { mode_is = digit_mode (b'0' + d) p ∙ param; holds = digit }))
      ]

  -- a digit more
  next_digit :
      (private : Bool) (done : List ℕ) (cur d : ℕ) (p : Parser) (s : S)
      → d < 10
      → cur ≤ 99999
      → Reading private done cur p
      → Reaches s (Reading private done (cur * 10 + d)) (feed_byte sink (b'0' + d) (p, s))
  unfolding push_param_digit
  next_digit private done cur d p s h le r =
      let digit =
        append_digit-Holds private done cur d (with_first p)
          (subst (Holds private done cur) (sym (with_first_self private done cur p r.holds))
            r.holds)
          le in
      subst (Reaches s (Reading private done (cur * 10 + d)))
        (sym (param_digit_lem d p s h r.mode_is))
        (returns (refl, record { mode_is = digit_mode (b'0' + d) p ∙ r.mode_is; holds = digit }))

  pub one_byte :
      (b : ℕ) (x : Parser × S) (s : S) (Q : Parser → Type 0)
      → Reaches s Q (feed_byte sink b x)
      → Reaches s Q (feed sink (b ∷ []) x)
  unfolding feed
  one_byte b x s Q r = Returns-bind r λ y k. returns k

  pub then_bytes :
      (xs ys : Bytes) (p : Parser) (s : S) (Q R : Parser → Type 0)
      → Reaches s Q (feed sink xs (p, s))
      → ((q : Parser) → Q q → Reaches s R (feed sink ys (q, s)))
      → Reaches s R (feed sink (xs ++ ys) (p, s))
  then_bytes xs ys p s Q R r k = subst (Reaches s R) (sym (feed-append sink xs ys (p, s))) (
      Returns-bind r
        λ y (same, h). subst (λ t. Reaches s R (feed sink ys (y.0, t))) (sym same) (k y.0 h))

  digits_lem :
      (private : Bool) (done : List ℕ) (fuel n : ℕ) (p : Parser) (s : S)
      → n < 10 ^ suc fuel
      → n ≤ 999999
      → Ready private done p
      → Reaches s (Reading private done n) (feed sink (digits_of (suc fuel) n) (p, s))
  unfolding digits_of
  digits_lem private done zero n p s lt le r =
      let one : ltb n 10 ≡ true = ground arith in
      rw one (one_byte (b'0' + n) (p, s) s _ (Ready-digit private done n p s (ltb→lt n 10 one) r))
  digits_lem private done (suc fuel) n p s lt le r = elim (Bool-cases (ltb n 10)) [
    | inl one ↦
        rw one (one_byte (b'0' + n) (p, s) s _ (Ready-digit private done n p s (ltb→lt n 10 one) r))
    | inr more ↦ rw more (
        then_bytes (digits_of (suc fuel) (n / 10)) ((b'0' + n % 10) ∷ []) p s _ _
          (digits_lem private done fuel (n / 10) p s (omega (arith, pow-suc 10 (suc fuel)))
            (omega arith) r)
          λ q reading.
            subst
              (λ k. Reaches s (Reading private done k) (feed sink ((b'0' + n % 10) ∷ []) (q, s)))
              (omega arith)
              (one_byte (b'0' + n % 10) (q, s) s _
                (next_digit private done (n / 10) (n % 10) q s (omega arith) (omega arith)
                  reading)))
  ]

  pub decimal_lem :
      (private : Bool) (done : List ℕ) (n : ℕ) (p : Parser) (s : S)
      → n ≤ 999999
      → Ready private done p
      → Reaches s (Reading private done n) (feed sink (decimal n) (p, s))
  unfolding decimal
  decimal_lem private done n p s le r = digits_lem private done 9 n p s (omega arith) le r

  pub separator_lem :
      (private : Bool) (done : List ℕ) (cur : ℕ) (p : Parser) (s : S)
      → length done + 1 < max_params
      → Reading private done cur p
      → Reaches s (Ready private (done ++ cur ∷ [])) (feed_byte sink b';' (p, s))
  unfolding on_mode on_csi_param next_param
  separator_lem private done cur p s room r =
      let same = with_first_self private done cur p r.holds in
      let next =
        append_param-Holds private done cur (with_first p)
          (subst (Holds private done cur) (sym same) r.holds) room in
      let again = with_first_self private (done ++ cur ∷ []) 0 (next_param p) next in
      subst (Reaches s (Ready private (done ++ cur ∷ [])))
        (sym (feed_byte-mode b';' p s csi_param refl r.mode_is))
        (returns (
          refl,
          record {
            mode_is = inr (next_mode p ∙ r.mode_is);
            holds = subst (Holds private (done ++ cur ∷ []) 0) (sym again) next;
          },
        ))
