-- ===== src/Libc.antt =====
-- The C library functions that the modelled code calls. A C string is the list of its bytes before
-- the NUL; a signed integer is its bit pattern of w bits, a number below 2 ^ w.
use portable_terminal.Base.{
  ℕ, ◌+◌, ◌-◌, ◌*◌, ◌%◌, ◌^◌, ◌≤◌, Bool, true, false, ◌&&◌, ◌||◌, Option, none, some, [], ◌∷◌,
  Bytes, arith, length, take, ltb, leb, ◌==◌, min, if◌then◌else◌,
}

-- what the functions on strings see of an array: the bytes before the first NUL
unfoldable pub c_string : Bytes → Bytes
c_string [] = []
c_string (b ∷ bs) = let rest = c_string bs in if b == 0 then [] else b ∷ rest

-- `strlcpy(dst, src, n)`, the string that `dst` then holds
abbrev pub strlcpy : Bytes → ℕ → Bytes
strlcpy src n = take (n - 1) src

-- the part before the first `c`, and the part behind it, if there is a `c`
unfoldable pub split_first : ℕ → Bytes → Option (Bytes × Bytes)
split_first c [] = none
split_first c (b ∷ bs) = elim (b == c) [
  | true ↦ some ([], bs)
  | false ↦ elim (split_first c bs) [ none ↦ none | some (pre, post) ↦ some (b ∷ pre, post) ]
]

-- the part before the last `c`, and the part behind it (`strrchr`)
unfoldable pub split_last : ℕ → Bytes → Option (Bytes × Bytes)
split_last c [] = none
split_last c (b ∷ bs) = elim (split_last c bs) [
  | some (pre, post) ↦ some (b ∷ pre, post)
  | none ↦ if b == c then some ([], bs) else none
]

abbrev pub isspace : ℕ → Bool
isspace c = c == b' ' || leb 9 c && leb c 13

abbrev pub isdigit : ℕ → Bool
isdigit c = leb b'0' c && leb c b'9'

-- `tolower` in the C locale
abbrev pub tolower : ℕ → ℕ
tolower c = if leb b'A' c && leb c b'Z' then c + 32 else c

unfoldable pub skip_space : Bytes → Bytes
skip_space [] = []
skip_space (c ∷ cs) = let rest = skip_space cs in if isspace c then rest else c ∷ cs

-- the number that the leading digits spell, after `acc`
unfoldable pub digits_value : ℕ → Bytes → ℕ
digits_value acc [] = acc
digits_value acc (c ∷ cs) =
    let next = digits_value (acc * 10 + (c - b'0')) cs in if isdigit c then next else acc

-- saturation to w bits, then the bit pattern
abbrev pub saturate : ℕ → Bool → ℕ → ℕ
saturate w true n = (2 ^ w - min n (2 ^ (w - 1))) % 2 ^ w
saturate w false n = min n (2 ^ (w - 1) - 1)

unfoldable pub signed_value : ℕ → Bytes → ℕ
signed_value w [] = 0
signed_value w (c ∷ cs) =
    if c == b'-'
    then saturate w true (digits_value 0 cs)
    else if c == b'+'
    then saturate w false (digits_value 0 cs)
    else saturate w false (digits_value 0 (c ∷ cs))

-- `strtol(s, NULL, 10)` of a w-bit type, `strtoll` at 64 bits; it gives 0 where there is no number.
unfoldable pub strtol : ℕ → Bytes → ℕ
unfolding signed_value skip_space
strtol w s = signed_value w (skip_space s)

-- `atoi` over the 32-bit `int` of the target
abbrev pub atoi : Bytes → ℕ
atoi = strtol 32

-- `a < b` on the signed integers that two 32-bit patterns stand for
abbrev pub signed_ltb : ℕ → ℕ → Bool
signed_ltb a b = ltb ((a + 2 ^ 31) % 2 ^ 32) ((b + 2 ^ 31) % 2 ^ 32)

-- `strcasecmp(a, b) == 0`
unfoldable pub strcase_eq : Bytes → Bytes → Bool
strcase_eq [] [] = true
strcase_eq (a ∷ as_) (b ∷ bs) = tolower a == tolower b && strcase_eq as_ bs
strcase_eq _ _ = false

pub length-c_string : (bs : Bytes) → length (c_string bs) ≤ length bs
unfolding c_string
length-c_string [] = omega arith
length-c_string (b ∷ bs) = ground (arith, length-c_string bs)
