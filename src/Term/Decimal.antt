-- ===== src/Term/Decimal.antt =====
-- Numbers in decimal, as `%u` prints them.
use portable_terminal.Base.{ℕ, zero, suc, ◌+◌, ◌/◌, ◌%◌, ltb, if◌then◌else◌, [], ◌∷◌, ◌++◌, Bytes}

-- fuel is the most digits there can be
unfoldable pub digits_of : ℕ → ℕ → Bytes
digits_of zero n = []
digits_of (suc fuel) n =
    let front = digits_of fuel (n / 10) in
    if ltb n 10 then (b'0' + n) ∷ [] else front ++ (b'0' + n % 10) ∷ []

-- An `unsigned` has ten digits at most.
unfoldable pub decimal : ℕ → Bytes
unfolding digits_of
decimal n = digits_of 10 n
