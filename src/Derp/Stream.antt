-- ===== src/Derp/Stream.antt =====
-- Whole reads and writes over the partial ones of the TLS connection, for
-- components/tailscale/src/tailscale_derp.c.
use portable_terminal.Base.{
  ℕ, zero, suc, ◌-◌, ◌≤◌, ◌<◌, ◌≡◌, refl, sym, ap, ◌∙◌, subst, min, Bool, true, false, Option, none,
  some, [], ◌∷◌, ◌++◌, Bytes, arith, length, drop, ◌==◌, if◌then◌else◌, length-append, length-drop,
  ==_iff, drop-length_append, append_assoc,
}
use portable_terminal.Derp.{joined, read_loop, derp_tls_read, drain_loop}

-- What the code relies on in `esp_tls_conn_read`, while bytes are left in the stream: it reads at
-- least one byte and at most as many as are wanted, and they are the next of the stream.
pub record IsReading {ℓ} {T : Type ℓ} (conn_read : T → ℕ → Bytes × T) (stream : T → Bytes)
    : Type ℓ where
  pub some_read : (t : T) (n : ℕ) → 0 < n → 0 < length (stream t) → 0 < length (conn_read t n).0
  pub not_more : (t : T) (n : ℕ) → length (conn_read t n).0 ≤ n
  pub in_order : (t : T) (n : ℕ) → stream t ≡ (conn_read t n).0 ++ stream (conn_read t n).1

at_zero : (n : ℕ) → n ≡ 0 → let o : Option Bytes = if n == 0 then some [] else none in o ≡ some []
at_zero n e = rw e

drop_append : (n : ℕ) (xs ys : Bytes) → n ≤ length xs → drop n (xs ++ ys) ≡ drop n xs ++ ys
drop_append zero xs ys h = refl
drop_append (suc n) [] ys h = absurd (omega arith)
drop_append (suc n) (x ∷ xs) ys h = drop_append n xs ys (omega arith)

empty_lem : (xs : Bytes) → length xs ≡ 0 → xs ≡ []
empty_lem [] h = refl
empty_lem (x ∷ xs) h = absurd (omega (arith, h))

not_zero : (n : ℕ) → (n == 0) ≡ false → 0 < n
not_zero n h = ground arith

abbrev map_joined : Bytes → Option Bytes → Option Bytes
map_joined first none = none
map_joined first (some more) = some (first ++ more)

module _ {ℓ} {T : Type ℓ} (conn_read : T → ℕ → Bytes × T) (stream : T → Bytes) where
  -- The bytes that were read and those that are left are the stream.
  pub record IsRead (n : ℕ) (t : T) (r : Option Bytes × T) : Type ℓ where
    pub bytes : Bytes
    pub given : r.0 ≡ some bytes
    pub count : length bytes ≡ n
    pub in_stream : stream t ≡ bytes ++ stream r.1

  IsRead-more :
      (n : ℕ) (t : T) (first : Bytes) (r : Option Bytes × T) (t' : T)
      → length first ≤ n
      → stream t ≡ first ++ stream t'
      → IsRead (n - length first) t' r
      → IsRead n t (joined first r)
  IsRead-more n t first (none, u) t' le split rest = absurd (cc)
  IsRead-more n t first (some more, u) t' le split rest = record {
    bytes = first ++ rest.bytes;
    given = ap (map_joined first) rest.given;
    count = omega (arith, length-append first rest.bytes, rest.count, le);
    in_stream =
        split
        ∙ ap (λ z. first ++ z) rest.in_stream
        ∙ sym (append_assoc first rest.bytes (stream u));
  }

  nothing-IsRead : (n : ℕ) (t : T) → n ≡ 0 → IsRead n t (some [], t)
  nothing-IsRead n t e = record { bytes = []; given = refl; count = sym e; in_stream = refl }

  if_IsRead :
      (n : ℕ) (t : T) (b : Bool) (x y : Option Bytes × T)
      → (b ≡ true → IsRead n t x)
      → (b ≡ false → IsRead n t y)
      → IsRead n t (if b then x else y)
  if_IsRead n t true x y h g = h refl
  if_IsRead n t false x y h g = g refl

  read_loop-IsRead :
      IsReading conn_read stream
      → (fuel n : ℕ) (t : T) → n ≤ fuel
      → n ≤ length (stream t)
      → IsRead n t (read_loop conn_read fuel n t)
  unfolding read_loop
  read_loop-IsRead reading zero n t h g =
      let none_left : n ≡ 0 = omega (arith, h) in
      subst (λ o. IsRead n t (o, t)) (sym (at_zero n none_left)) (nothing-IsRead n t none_left)
  read_loop-IsRead reading (suc fuel) n t h g =
      let (bytes, t') = conn_read t n in
      let split = reading.in_order t n in
      let le = reading.not_more t n in
      if_IsRead n t (n == 0) (some [], t) _ (λ e. nothing-IsRead n t ((==_iff n 0).0 e))
        (λ ne.
          let pos = not_zero n ne in
          let got = reading.some_read t n pos (omega (arith, pos, g)) in
          if_IsRead n t (length bytes == 0) (none, t') _
            (λ e. absurd (omega (arith, got, (==_iff (length bytes) 0).0 e)))
            (λ _.
              IsRead-more n t bytes (read_loop conn_read fuel (n - length bytes) t') t' le split (
                read_loop-IsRead reading fuel (n - length bytes) t' (omega (arith, h, got))
                  (omega (arith, g, le, ap length split, length-append bytes (stream t'))))))

  -- While the stream holds the bytes, `derp_tls_read` returns them all, however the TLS layer cuts
  -- them up.
  pub derp_tls_read-IsRead :
      IsReading conn_read stream
      → (n : ℕ) (t : T) → n ≤ length (stream t)
      → IsRead n t (derp_tls_read conn_read n t)
  unfolding derp_tls_read
  derp_tls_read-IsRead reading n t h = read_loop-IsRead reading n n t (omega arith) h

  if_drained :
      (rest : Bytes) (b : Bool) (x y : T)
      → (b ≡ true → stream x ≡ rest)
      → (b ≡ false → stream y ≡ rest)
      → stream (if b then x else y) ≡ rest
  if_drained rest true x y h g = h refl
  if_drained rest false x y h g = g refl

  pub drain_loop-drops :
      IsReading conn_read stream
      → (fuel rem : ℕ) (t : T) (rest : Bytes) (gone : Bytes) → rem ≤ fuel
      → length gone ≡ rem
      → stream t ≡ gone ++ rest
      → stream (drain_loop conn_read fuel rem t) ≡ rest
  unfolding drain_loop
  drain_loop-drops reading zero rem t rest [] h size split = split
  drain_loop-drops reading zero rem t rest (b ∷ gone) h size split = absurd (omega (arith, h, size))
  drain_loop-drops reading (suc fuel) rem t rest gone h size split =
      let n = min rem 64 in
      let t' = (derp_tls_read conn_read n t).1 in
      let all = ap length split in
      let both = length-append gone rest in
      let read = derp_tls_read-IsRead reading n t (omega (arith, all, both, size)) in
      let left : stream t' ≡ drop n gone ++ rest =
        sym (drop-length_append read.bytes (stream t'))
        ∙ ap (λ k. drop k (read.bytes ++ stream t')) read.count
        ∙ ap (drop n) (sym read.in_stream ∙ split)
        ∙ drop_append n gone rest (omega (arith, size)) in
      if_drained rest (rem == 0) t (drain_loop conn_read fuel (rem - n) t')
        (λ e. split ∙ ap (λ g. g ++ rest) (empty_lem gone (size ∙ (==_iff rem 0).0 e)))
        (λ ne.
          drain_loop-drops reading fuel (rem - n) t' rest (drop n gone)
            (omega (arith, h, not_zero rem ne)) (omega (arith, length-drop n gone, size)) left)
