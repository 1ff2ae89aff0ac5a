-- ===== src/Jstream/Token.antt =====
-- `ts_js_str_eq` and `ts_js_str_copy` of components/tailscale/src/tailscale_jstream.c: what the parser's
-- user reads of a token.
use portable_terminal.Base.{
  ℕ, zero, suc, ◌≤◌, ◌<◌, ◌≡◌, ◌↔◌, refl, ap, ◌∙◌, Bool, true, false, not, ◌&&◌, leb, bytes_eq, [],
  ◌∷◌, ◌++◌, Bytes, arith, length, take, drop, ◌==◌, if◌then◌else◌, Bool-cases, inl, inr,
  length-take, length-drop, take_all, take-suc_append, subst, length-append, bytes_eq_iff, ==_iff,
}
use portable_terminal.Jstream.{Js}

-- the token of the most recent event
abbrev pub token : Js → Bytes
token j = take j.tok_len j.tok

-- `ts_js_str_eq`
unfoldable pub str_eq : Js → Bytes → Bool
str_eq j literal = if not (length literal == j.tok_len) then false else bytes_eq (token j) literal

-- the switch of `ts_js_str_copy`
unfoldable pub unescape : ℕ → ℕ
unescape n =
    if n == b'n'
    then 10
    else if n == b'r'
    then 13
    else if n == b't'
    then 9
    else if n == b'b'
    then 8
    else if n == b'f'
    then 12
    else if n == b'u'
    then b'?'
    else n

-- `case 'u'`: the four hex digits behind it, if they are there
unfoldable pub past_hex : ℕ → Bytes → Bytes
past_hex n rest = if n == b'u' && leb 4 (length rest) then drop 4 rest else rest

-- The loop of `ts_js_str_copy` from `i` on, with room for `cap - out` bytes: the bytes it stores.
unfoldable pub copy_loop : ℕ → Bytes → Bytes
copy_loop zero t = []
copy_loop (suc room) [] = []
copy_loop (suc room) (c ∷ []) = c ∷ []
copy_loop (suc room) (c ∷ n ∷ rest) = elim (c == b'\\') [
  | true ↦ unescape n ∷ copy_loop room (past_hex n rest)
  | false ↦ c ∷ copy_loop room (n ∷ rest)
]

-- `ts_js_str_copy`; `dst` is the array of `dst_size` bytes.
unfoldable pub str_copy : Js → Bytes → Bytes × Bool
str_copy j [] = ([], false)
str_copy j (b ∷ dst) =
    let out = copy_loop (length dst) (token j) in
    (out ++ 0 ∷ drop (length out) dst, length out == j.tok_len)

length-past_hex : (n : ℕ) (rest : Bytes) → length (past_hex n rest) ≤ length rest
unfolding past_hex
length-past_hex n rest = ground (arith, length-drop 4 rest)

-- a backslash with a byte behind it
unfoldable pub has_escape : Bytes → Bool
has_escape [] = false
has_escape (c ∷ []) = false
has_escape (c ∷ n ∷ rest) = let later = has_escape (n ∷ rest) in if c == b'\\' then true else later

copy_loop-room : (room : ℕ) (t : Bytes) → length (copy_loop room t) ≤ room
unfolding copy_loop
copy_loop-room zero t = omega arith
copy_loop-room (suc room) [] = omega arith
copy_loop-room (suc room) (c ∷ []) = omega arith
copy_loop-room (suc room) (c ∷ n ∷ rest) = elim (Bool-cases (c == b'\\')) [
  | inl escape ↦ rw (escape, copy_loop) (omega (arith, copy_loop-room room (past_hex n rest)))
  | inr plain ↦ rw (plain, copy_loop) (omega (arith, copy_loop-room room (n ∷ rest)))
]

copy_loop-le : (room : ℕ) (t : Bytes) → length (copy_loop room t) ≤ length t
unfolding copy_loop
copy_loop-le zero t = omega arith
copy_loop-le (suc room) [] = omega arith
copy_loop-le (suc room) (c ∷ []) = omega arith
copy_loop-le (suc room) (c ∷ n ∷ rest) = elim (Bool-cases (c == b'\\')) [
  | inl escape ↦
      rw (escape, copy_loop)
        (omega (arith, copy_loop-le room (past_hex n rest), length-past_hex n rest))
  | inr plain ↦ rw (plain, copy_loop) (omega (arith, copy_loop-le room (n ∷ rest)))
]

-- An escape makes the copy shorter than the token.
copy_loop-escape :
    (room : ℕ) (t : Bytes) → has_escape t ≡ true → length (copy_loop room t) < length t
unfolding has_escape copy_loop
copy_loop-escape room [] h = absurd (cc)
copy_loop-escape room (c ∷ []) h = absurd (cc)
copy_loop-escape zero (c ∷ n ∷ rest) h = omega arith
copy_loop-escape (suc room) (c ∷ n ∷ rest) h = elim (Bool-cases (c == b'\\')) [
  | inl escape ↦
      rw (escape, copy_loop)
        (omega (arith, copy_loop-le room (past_hex n rest), length-past_hex n rest))
  | inr plain ↦
      rw (plain, copy_loop) (omega (arith, copy_loop-escape room (n ∷ rest) (rw plain at h)))
]

-- Without an escape the copy is the token, as far as there is room.
copy_loop-plain : (room : ℕ) (t : Bytes) → has_escape t ≡ false → copy_loop room t ≡ take room t
unfolding has_escape copy_loop
copy_loop-plain zero t h = refl
copy_loop-plain (suc room) [] h = refl
copy_loop-plain (suc zero) (c ∷ []) h = refl
copy_loop-plain (suc (suc room)) (c ∷ []) h = refl
copy_loop-plain (suc room) (c ∷ n ∷ rest) h = elim (Bool-cases (c == b'\\')) [
  | inl escape ↦ absurd (ground arith)
  | inr plain ↦ rw (plain, copy_loop) (ap (◌∷◌ c) (copy_loop-plain room (n ∷ rest) (rw plain at h)))
]

-- The copy stays within `dst`: the array keeps its size.
pub length-str_copy : (j : Js) (dst : Bytes) → length (str_copy j dst).0 ≡ length dst
unfolding str_copy
length-str_copy j [] = refl
length-str_copy j (b ∷ dst) =
    let out : Bytes = copy_loop (length dst) (token j) in
    omega (
      arith,
      length-append out (0 ∷ drop (length out) dst),
      length-drop (length out) dst,
      copy_loop-room (length dst) (token j),
    )

-- A token without an escape that is shorter than the array is copied whole, with a NUL behind it,
-- and the copy is reported as complete.
pub str_copy_plain :
    (j : Js) (dst : Bytes)
    → j.tok_len ≤ length j.tok
    → has_escape (token j) ≡ false
    → j.tok_len < length dst
    → (str_copy j dst).1 ≡ true × (take (suc j.tok_len) (str_copy j dst).0 ≡ token j ++ 0 ∷ [])
unfolding str_copy
str_copy_plain j [] fits plain room = absurd (omega arith)
str_copy_plain j (b ∷ dst) fits plain room =
    let t : Bytes = token j in
    let whole : length t ≡ j.tok_len = omega (arith, length-take j.tok_len j.tok) in
    let copied : copy_loop (length dst) t ≡ t =
      copy_loop-plain (length dst) t plain ∙ take_all (length dst) t (omega arith) in
    let rest : Bytes = 0 ∷ drop (length t) dst in
    (
      rw copied ((==_iff (length t) j.tok_len).1 whole),
      rw copied (
          subst (λ n. take (suc n) (t ++ rest) ≡ t ++ 0 ∷ []) whole
            (take-suc_append t 0 (drop (length t) dst))),
    )

-- A token with an escape is never reported as complete, however large the array is.
pub str_copy_escape :
    (j : Js) (dst : Bytes)
    → j.tok_len ≤ length j.tok
    → has_escape (token j) ≡ true
    → (str_copy j dst).1 ≡ false
unfolding str_copy
str_copy_escape j [] fits escape = refl
str_copy_escape j (b ∷ dst) fits escape =
    let short = copy_loop-escape (length dst) (token j) escape in
    let whole = length-take j.tok_len j.tok in ground (arith, short, whole)

-- A comparison with a literal holds exactly if the token is the literal.
pub str_eq_iff :
    (j : Js) (literal : Bytes)
    → j.tok_len ≤ length j.tok
    → (str_eq j literal ≡ true) ↔ (token j ≡ literal)
unfolding str_eq
str_eq_iff j literal fits =
    let whole = length-take j.tok_len j.tok in
    let same = bytes_eq_iff (token j) literal in
    (λ h. ground (arith, same), λ e. ground (arith, same, e, ap (λ (t : Bytes). length t) e, whole))
