-- ===== src/CookedInput.antt =====
-- main/cooked_input.cpp: the filter for the bytes of a serial line.
use portable_terminal.Base.{ℕ, Bool, true, false, ◌||◌, [], ◌∷◌, ◌++◌, Bytes, ◌==◌, if◌then◌else◌}
mod Typing
mod Tests

abbrev pub cr : ℕ
cr = 0x0D

abbrev pub lf : ℕ
lf = 0x0A

abbrev pub bs : ℕ
bs = 0x08

abbrev pub del : ℕ
del = 0x7F

abbrev pub sp : ℕ
sp = 0x20

-- `prev_was_cr_` and what is appended to `out`
unfoldable pub filter_byte : ℕ → Bool × Bytes → Bool × Bytes
filter_byte b x =
    if b == cr
    then (true, x.1 ++ (cr ∷ lf ∷ []))
    else if b == lf
    then (if x.0 then (false, x.1) else (false, x.1 ++ (cr ∷ lf ∷ [])))
    else if b == bs || b == del
    then (false, x.1 ++ (bs ∷ sp ∷ bs ∷ []))
    else (false, x.1 ++ (b ∷ []))

unfoldable pub filter_bytes : Bytes → Bool × Bytes → Bool × Bytes
unfolding filter_byte
filter_bytes [] x = x
filter_bytes (b ∷ rest) x = filter_bytes rest (filter_byte b x)
