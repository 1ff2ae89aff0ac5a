-- ===== src/Base/Bits.antt =====
-- `|` of disjoint fields as a sum, at every width.
use Prim.Native.Nat.{
  ℕ, zero, suc, ◌+◌, ◌*◌, ◌/◌, ◌%◌, ◌^◌, ◌≤◌, ◌<◌, max, bit_or, digits, bit_or-bitwise,
}
use mathlib.Core.Path.{◌≡◌, refl, sym, ap, ◌∙◌}
use mathlib.Core.Logic.{inl, inr}
use portable_terminal.Base.Compare.{ltb, Bool-cases, ltb→lt, not-ltb→le}
use native.Mathlib.Omega.{arith}
use native.Mathlib.Nat.{pow-suc}

-- `digits` for the maximum, on `n` digits: the definition behind `bit_or`
abbrev or_digits : ℕ → ℕ → ℕ → ℕ
or_digits n a b = digits (λ c. c) max n a b

above_zero : (n b : ℕ) → or_digits (suc n) 0 b ≡ or_digits n 0 b
above_zero zero b = refl
above_zero (suc n) b = refl

above_zero_zero : (n : ℕ) → or_digits n 0 0 ≡ 0
above_zero_zero zero = refl
above_zero_zero (suc n) = refl

one_digit_more : (n a b : ℕ) → a ≤ n → or_digits (suc n) a b ≡ or_digits n a b
one_digit_more n zero b h = above_zero n b
one_digit_more zero (suc a) b h = absurd (omega arith)
one_digit_more (suc n) (suc a) b h =
    let rest = one_digit_more n (suc a / 2) (b / 2) (omega arith) in omega (arith, rest)

bit_or-or_digits : (n a b : ℕ) → a ≤ n → bit_or a b ≡ or_digits n a b
bit_or-or_digits zero zero b h = bit_or-bitwise 0 b
bit_or-or_digits zero (suc a) b h = absurd (omega arith)
bit_or-or_digits (suc n) a b h = elim (Bool-cases (ltb n a)) [
  | inr fewer ↦
      let le = not-ltb→le n a fewer in bit_or-or_digits n a b le ∙ sym (one_digit_more n a b le)
  | inl last ↦
      let all : a ≡ suc n = omega (arith, h, ltb→lt n a last) in
      (λ i. bit_or-bitwise a b i) ∙ ap (λ k. or_digits k a b) all
]

zero-bit_or : (b : ℕ) → bit_or 0 b ≡ b
zero-bit_or b = bit_or-bitwise 0 b

low_of_zero : (a b : ℕ) → a ≤ 0 → bit_or a b ≡ bit_or (a / 2) (b / 2) * 2 + max (a % 2) (b % 2)
low_of_zero zero b h = omega (arith, zero-bit_or b, zero-bit_or (b / 2))
low_of_zero (suc a) b h = absurd (omega arith)

low_of_positive : (a b : ℕ) → 0 < a → bit_or a b ≡ bit_or (a / 2) (b / 2) * 2 + max (a % 2) (b % 2)
low_of_positive zero b h = absurd (omega arith)
low_of_positive (suc a) b h =
    let whole = bit_or-or_digits (suc a) (suc a) b (omega arith) in
    let half = bit_or-or_digits a (suc a / 2) (b / 2) (omega arith) in omega (arith, whole, half)

bit_or_low : (a b : ℕ) → bit_or a b ≡ bit_or (a / 2) (b / 2) * 2 + max (a % 2) (b % 2)
bit_or_low a b = elim (Bool-cases (ltb 0 a)) [
  | inr none_set ↦ low_of_zero a b (not-ltb→le 0 a none_set)
  | inl some_set ↦ low_of_positive a b (ltb→lt 0 a some_set)
]

or_digits-zero : (n a : ℕ) → a ≤ n → or_digits n a 0 ≡ a
or_digits-zero n zero h = above_zero_zero n
or_digits-zero zero (suc a) h = absurd (omega arith)
or_digits-zero (suc n) (suc a) h = omega (arith, or_digits-zero n (suc a / 2) (omega arith))

pub bit_or-zero : (a : ℕ) → bit_or a 0 ≡ a
bit_or-zero a = bit_or-or_digits a a 0 (omega arith) ∙ or_digits-zero a a (omega arith)

shift_suc : (q k : ℕ) → q * 2 ^ suc k ≡ q * 2 ^ k * 2
shift_suc q k = omega (arith, ap (λ (t : ℕ). q * t) (pow-suc 2 k))

-- `low | (q << k)` with `low` in the k lowest bits.
pub low-bit_or : (k q low : ℕ) → low < 2 ^ k → bit_or low (q * 2 ^ k) ≡ low + q * 2 ^ k
low-bit_or zero q zero h = omega (arith, zero-bit_or (q * 2 ^ 0))
low-bit_or zero q (suc low) h = absurd (omega arith)
low-bit_or (suc k) q low h = ground (
  arith,
  bit_or_low low (q * 2 ^ suc k),
  shift_suc q k,
  pow-suc 2 k,
  low-bit_or k q (low / 2) (omega (arith, pow-suc 2 k)),
)

-- `(q << k) | low` with `low` in the k lowest bits.
pub bit_or-low : (k q low : ℕ) → low < 2 ^ k → bit_or (q * 2 ^ k) low ≡ q * 2 ^ k + low
bit_or-low zero q zero h = omega (arith, bit_or-zero (q * 2 ^ 0))
bit_or-low zero q (suc low) h = absurd (omega arith)
bit_or-low (suc k) q low h = ground (
  arith,
  bit_or_low (q * 2 ^ suc k) low,
  shift_suc q k,
  pow-suc 2 k,
  bit_or-low k q (low / 2) (omega (arith, pow-suc 2 k)),
)
