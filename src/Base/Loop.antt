-- ===== src/Base/Loop.antt =====
-- Counted loops whose rounds may fail, and their invariant rule. `none` is an access out of bounds.
use Prim.Native.Nat.{ℕ, zero, suc, ◌+◌, ◌≤◌, ◌<◌}
use mathlib.Core.Path.{◌≡◌, refl, subst}
use mathlib.Core.Bool.{Bool, true, false}
use portable_terminal.Base.Compare.{if◌then◌else◌}
use mathlib.Core.Option.{Option, none, some}
use native.Mathlib.Omega.{arith}

infixl 5 ◌>>=◌
abbrev pub ◌>>=◌ {ℓ κ} : {A : Type ℓ} {B : Type κ} → Option A → (A → Option B) → Option B
none >>= f = none
some a >>= f = f a

module _ {ℓ κ μ} {A : Type ℓ} {B : Type κ} {C : Type μ} where
  pub bind_assoc :
      (m : Option A) (f : A → Option B) (g : B → Option C)
      → (m >>= f >>= g) ≡ (m >>= λ a. f a >>= g)
  bind_assoc none f g = refl
  bind_assoc (some a) f g = refl

module _ {ℓ κ} {A : Type ℓ} {B : Type κ} where
  pub bind_ext : (m : Option A) (f g : A → Option B) → ((a : A) → f a ≡ g a) → (m >>= f) ≡ (m >>= g)
  bind_ext none f g h = refl
  bind_ext (some a) f g h = h a

-- for (k = i; k < i + n; k++)
unfoldable pub for_up {ℓ} : {S : Type ℓ} → ℕ → ℕ → (ℕ → S → Option S) → S → Option S
for_up zero i body s = some s
for_up (suc n) i body s = body i s >>= for_up n (suc i) body

-- for (k = i + n - 1; k >= i; k--)
unfoldable pub for_down {ℓ} : {S : Type ℓ} → ℕ → ℕ → (ℕ → S → Option S) → S → Option S
for_down zero i body s = some s
for_down (suc n) i body s = body (i + n) s >>= for_down n i body

-- A value comes back, and `P` holds of it.
pub data Returns {ℓ κ} {A : Type ℓ} (P : A → Type κ) : Option A → Type (ℓ ⊔ κ) where
  returns : {a : A} → P a → Returns P (some a)

module _ {ℓ κ} {A : Type ℓ} {P : A → Type κ} where
  pub Returns-bind {ℓ' κ'} :
      {B : Type ℓ'} {Q : B → Type κ'} {m : Option A} {f : A → Option B}
      → Returns P m
      → ((a : A) → P a → Returns Q (f a))
      → Returns Q (m >>= f)
  Returns-bind (returns p) k = k _ p

  pub Returns-map {κ'} :
      {Q : A → Type κ'} {m : Option A} → Returns P m → ((a : A) → P a → Q a) → Returns Q m
  Returns-map (returns p) k = returns (k _ p)

pub if_Returns {ℓ κ} :
    {A : Type ℓ} {P : A → Type κ} (b : Bool) {m n : Option A}
    → (b ≡ true → Returns P m)
    → (b ≡ false → Returns P n)
    → Returns P (if b then m else n)
if_Returns true h k = h refl
if_Returns false h k = k refl

pub Returns-value {ℓ κ} :
    {A : Type ℓ} {P : A → Type κ} {m : Option A} → Returns P m → (a : A) × (m ≡ some a) × P a
Returns-value (returns {a} p) = (a, λ _. some a, p)

pub Returns-some {ℓ κ} :
    {A : Type ℓ} {P : A → Type κ} {m : Option A} {a : A} → Returns P m → m ≡ some a → P a
Returns-some {P = P} (returns p) e = subst P (cc) p

pub Returns-both {ℓ κ μ} :
    {A : Type ℓ} {P : A → Type κ} {Q : A → Type μ} {m : Option A}
    → Returns P m
    → Returns Q m
    → Returns (λ a. P a × Q a) m
Returns-both (returns p) q = returns (p, Returns-some q refl)

module _ {ℓ κ} {S : Type ℓ} (P : ℕ → S → Type κ) (body : ℕ → S → Option S) where
  pub for_up-Returns :
      (n i stop : ℕ) (s : S)
      → i + n ≡ stop
      → ((k : ℕ) (t : S) → i ≤ k → k < stop → P k t → Returns (P (suc k)) (body k t))
      → P i s
      → Returns (P stop) (for_up n i body s)
  unfolding for_up
  for_up-Returns zero i stop s e keep p = returns (subst (λ k. P k s) (omega arith) p)
  for_up-Returns (suc n) i stop s e keep p =
      Returns-bind (keep i s (omega arith) (omega arith) p)
        λ t. for_up-Returns n (suc i) stop t (omega arith) (λ k u le. keep k u (omega arith))

  pub for_down-Returns :
      (n i : ℕ) (s : S)
      → ((k : ℕ) (t : S) → i ≤ k → k < i + n → P (suc k) t → Returns (P k) (body k t))
      → P (i + n) s
      → Returns (P i) (for_down n i body s)
  unfolding for_down
  for_down-Returns zero i s keep p = returns (subst (λ k. P k s) (omega arith) p)
  for_down-Returns (suc n) i s keep p =
      Returns-bind (keep (i + n) s (omega arith) (omega arith) (subst (λ k. P k s) (omega arith) p))
        λ t. for_down-Returns n i t (λ k u le lt. keep k u le (omega arith))
