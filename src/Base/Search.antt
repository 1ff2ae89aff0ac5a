-- ===== src/Base/Search.antt =====
-- The first index at which a test holds, and how many entries pass a test.
use Prim.Native.Nat.{ℕ, zero, suc, ◌+◌, ◌<◌}
use mathlib.Core.Path.{◌≡◌, refl, ap}
use mathlib.Core.Logic.{◌⊎◌, inl, inr}
use mathlib.Core.Bool.{Bool, true, false}
use mathlib.Core.List.{List, [], ◌∷◌}
use mathlib.Core.Option.{Option, none, some}
use native.Mathlib.Omega.{arith}
use portable_terminal.Base.Compare.{if◌then◌else◌}
use portable_terminal.Base.Lists.{length, get_or, set}

abbrev pub next_index : Option ℕ → Option ℕ
next_index none = none
next_index (some i) = some (suc i)

abbrev pub to_digit : Bool → ℕ
to_digit true = 1
to_digit false = 0

module _ {ℓ} {A : Type ℓ} (p : A → Bool) where
  unfoldable pub find_index : List A → Option ℕ
  find_index [] = none
  find_index (x ∷ xs) = let rest = find_index xs in if p x then some 0 else next_index rest

  unfoldable pub count_if : List A → ℕ
  count_if [] = 0
  count_if (x ∷ xs) = to_digit (p x) + count_if xs

  pub count_if-set :
      (xs : List A) (i : ℕ) (v d : A)
      → i < length xs
      → count_if (set xs i v) + to_digit (p (get_or xs i d)) ≡ count_if xs + to_digit (p v)
  unfolding count_if
  count_if-set [] i v d h = absurd (omega arith)
  count_if-set (x ∷ xs) zero v d h = omega arith
  count_if-set (x ∷ xs) (suc i) v d h = omega (arith, count_if-set xs i v d (omega arith))

-- the two ways in which a search steps
absent_step :
    (b : Bool) (o : Option ℕ)
    → (if b then some 0 else next_index o) ≡ none
    → (b ≡ false) × (o ≡ none)
absent_step true o h = absurd (cc)
absent_step false none h = (refl, refl)
absent_step false (some i) h = absurd (cc)

present_step :
    (b : Bool) (o : Option ℕ) (i : ℕ)
    → (if b then some 0 else next_index o) ≡ some i
    → ((b ≡ true) × (i ≡ 0)) ⊎ ((k : ℕ) × (o ≡ some k) × (i ≡ suc k))
present_step true o i h = inl (refl, cc)
present_step false none i h = absurd (cc)
present_step false (some k) i h = inr (k, refl, cc)

module _ {ℓ} {A : Type ℓ} (p : A → Bool) where
  pub find_index-count_if : (xs : List A) → find_index p xs ≡ none → count_if p xs ≡ 0
  unfolding find_index count_if
  find_index-count_if [] h = refl
  find_index-count_if (x ∷ xs) h =
      let (here, rest) = absent_step (p x) (find_index p xs) h in
      omega (arith, ap to_digit here, find_index-count_if xs rest)

  pub find_index-holds :
      (xs : List A) (i : ℕ) (d : A)
      → find_index p xs ≡ some i
      → (i < length xs) × (p (get_or xs i d) ≡ true)
  unfolding find_index
  find_index-holds [] i d h = absurd (cc)
  find_index-holds (x ∷ xs) i d h = elim (present_step (p x) (find_index p xs) i h) [
    | inl (here, at) ↦ rw at (omega arith, here)
    | inr (k, found, at) ↦
        let (lt, holds) = find_index-holds xs k d found in rw at (omega arith, holds)
  ]
