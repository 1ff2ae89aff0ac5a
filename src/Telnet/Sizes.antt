-- ===== src/Telnet/Sizes.antt =====
-- The message of `send_naws_sb` against a reader of RFC 1073 and RFC 855: within a subnegotiation a
-- byte 255 stands for itself only when it is doubled, and `IAC SE` is its end.
use portable_terminal.Base.{
  ℕ, ◌+◌, ◌*◌, ◌/◌, ◌%◌, ◌^◌, ◌<◌, ◌≡◌, ◌≢◌, ap, ◌∙◌, Bool, true, false, not, ◌&&◌, Option, none,
  some, [], ◌∷◌, Bytes, arith, ◌==◌, if◌then◌else◌, ◌>>=◌,
}
use portable_terminal.Telnet.{iac, sb, se, opt_naws, naws_message}

-- the payload of a subnegotiation; the flag says that an `IAC` came before
unfoldable pub payload : Bool → Bytes → Option Bytes
payload escaped [] = none
payload escaped (b ∷ bs) =
    let rest = payload (b == iac && not escaped) bs in
    let with_byte = rest >>= λ xs. some (b ∷ xs) in
    if escaped
    then (if b == iac then with_byte else if b == se then some [] else none)
    else if b == iac
    then rest
    else with_byte

abbrev sizes : Bytes → Option (ℕ × ℕ)
sizes (a ∷ b ∷ c ∷ d ∷ []) = some (a * 2 ^ 8 + b, c * 2 ^ 8 + d)
sizes _ = none

-- columns and rows
unfoldable pub read_naws : Bytes → Option (ℕ × ℕ)
unfolding payload
read_naws (x ∷ y ∷ z ∷ bs) =
    if x == iac && (y == sb && z == opt_naws) then payload false bs >>= sizes else none
read_naws _ = none

payload-plain :
    (b : ℕ) (bs : Bytes)
    → b ≢ iac
    → payload false (b ∷ bs) ≡ (payload false bs >>= λ xs. some (b ∷ xs))
unfolding payload
payload-plain b bs h =
    let e : b == iac ≡ false = ground arith in
    ap
      (λ (t : Bool).
        let rest = payload (t && true) bs in if t then rest else rest >>= λ xs. some (b ∷ xs))
      e

payload-four :
    (a b c d : ℕ)
    → a ≢ iac
    → b ≢ iac
    → c ≢ iac
    → d ≢ iac
    → payload false (a ∷ b ∷ c ∷ d ∷ iac ∷ se ∷ []) ≡ some (a ∷ b ∷ c ∷ d ∷ [])
unfolding payload
payload-four a b c d ha hb hc hd =
    let keep : ℕ → Option Bytes → Option Bytes = λ x m. m >>= λ xs. some (x ∷ xs) in
    payload-plain a (b ∷ c ∷ d ∷ iac ∷ se ∷ []) ha
    ∙ ap (keep a) (
        payload-plain b (c ∷ d ∷ iac ∷ se ∷ []) hb
        ∙ ap (keep b) (
            payload-plain c (d ∷ iac ∷ se ∷ []) hc
            ∙ ap (keep c) (payload-plain d (iac ∷ se ∷ []) hd)))

-- A size of 16 bits a side, none of whose bytes is 255, comes back from the message that
-- `send_naws_sb` writes.
pub naws_message-read :
    (c r : ℕ)
    → c < 2 ^ 16
    → r < 2 ^ 16
    → c / 2 ^ 8 ≢ iac
    → c % 2 ^ 8 ≢ iac
    → r / 2 ^ 8 ≢ iac
    → r % 2 ^ 8 ≢ iac
    → read_naws (naws_message c r) ≡ some (c, r)
unfolding read_naws naws_message
naws_message-read c r hc hr h1 h2 h3 h4 =
    let whole : (n : ℕ) → n < 2 ^ 16 → n / 2 ^ 8 % 2 ^ 8 * 2 ^ 8 + n % 2 ^ 8 ≡ n =
      λ n h. omega arith in
    ap (λ m. m >>= sizes)
      (payload-four (c / 2 ^ 8 % 2 ^ 8) (c % 2 ^ 8) (r / 2 ^ 8 % 2 ^ 8) (r % 2 ^ 8) (omega arith) h2
        (omega arith) h4)
    ∙ ap (λ x. some (x, r / 2 ^ 8 % 2 ^ 8 * 2 ^ 8 + r % 2 ^ 8)) (whole c hc)
    ∙ ap (λ y. some (c, y)) (whole r hr)
