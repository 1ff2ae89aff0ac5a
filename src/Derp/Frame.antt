-- ===== src/Derp/Frame.antt =====
-- A frame of components/tailscale/src/tailscale_derp.c is read back, or skipped if it is too large.
use portable_terminal.Base.{
  ℕ, ◌+◌, ◌*◌, ◌/◌, ◌%◌, ◌^◌, ◌≤◌, ◌<◌, ◌≡◌, refl, sym, ap, ◌∙◌, subst, bit_or, bit_or-low, Bool,
  true, false, Option, none, some, [], ◌++◌, Bytes, arith, length, take, drop, ltb, if◌then◌else◌,
  length-append, append_assoc, ltb→lt, not-ltb→le, take-length_append, drop-length_append,
}
use portable_terminal.Esp.{EspErr, esp_ok}
use portable_terminal.Derp.{
  header, length_of, with_payload, derp_tls_read, drain_loop, read_payload, with_header,
  derp_read_frame,
}
use portable_terminal.Derp.Stream.{IsReading, derp_tls_read-IsRead, drain_loop-drops}

-- The four bytes of a length give it back.
length_of-header : (frame_type n : ℕ) → n < 2 ^ 32 → length_of (header frame_type n) ≡ n
unfolding length_of
length_of-header frame_type n h =
    let a = n / 2 ^ 24 % 256 in
    let b = n / 2 ^ 16 % 256 in
    let c = n / 2 ^ 8 % 256 in
    let d = n % 256 in
    let one : bit_or (a * 2 ^ 24) (b * 2 ^ 16) ≡ (a * 2 ^ 8 + b) * 2 ^ 16 =
      omega (arith, bit_or-low 24 a (b * 2 ^ 16) (omega arith)) in
    let two : bit_or ((a * 2 ^ 8 + b) * 2 ^ 16) (c * 2 ^ 8)
        ≡ ((a * 2 ^ 8 + b) * 2 ^ 8 + c) * 2 ^ 8 =
      omega (arith, bit_or-low 16 (a * 2 ^ 8 + b) (c * 2 ^ 8) (omega arith)) in
    let three : bit_or (((a * 2 ^ 8 + b) * 2 ^ 8 + c) * 2 ^ 8) d
        ≡ ((a * 2 ^ 8 + b) * 2 ^ 8 + c) * 2 ^ 8 + d =
      bit_or-low 8 ((a * 2 ^ 8 + b) * 2 ^ 8 + c) d (omega arith) in
    let sum : ((a * 2 ^ 8 + b) * 2 ^ 8 + c) * 2 ^ 8 + d ≡ n = omega (arith, h) in
    ap (λ x. bit_or (bit_or x (c * 2 ^ 8)) d) one ∙ ap (λ x. bit_or x d) two ∙ three ∙ sum

abbrev map_payload : ℕ → ℕ → Option Bytes → Option (ℕ × ℕ × Bytes)
map_payload frame_type n none = none
map_payload frame_type n (some bytes) = some (frame_type, n, bytes)

some_injective : {a b : Bytes} → some a ≡ some b → a ≡ b
some_injective e = cc

module _ {ℓ} {T : Type ℓ} (conn_read : T → ℕ → Bytes × T) (stream : T → Bytes) where
  -- Reading `bytes` off the front of the stream.
  front_read :
      IsReading conn_read stream
      → (t : T) (bytes rest : Bytes) → stream t ≡ bytes ++ rest
      → ((derp_tls_read conn_read (length bytes) t).0 ≡ some bytes)
        × (stream (derp_tls_read conn_read (length bytes) t).1 ≡ rest)
  front_read reading t bytes rest split =
      let n = length bytes in
      let t' = (derp_tls_read conn_read n t).1 in
      let enough : n ≤ length (stream t) =
        omega (arith, ap length split, length-append bytes rest) in
      let read = derp_tls_read-IsRead conn_read stream reading n t enough in
      let same = sym read.in_stream ∙ split in
      (
        read.given
            ∙ ap some (
                sym (take-length_append read.bytes (stream t'))
                ∙ ap (λ k. take k (read.bytes ++ stream t')) read.count
                ∙ ap (take n) same
                ∙ take-length_append bytes rest),
        sym (drop-length_append read.bytes (stream t'))
            ∙ ap (λ k. drop k (read.bytes ++ stream t')) read.count
            ∙ ap (drop n) same
            ∙ drop-length_append bytes rest,
      )

  -- What reading a frame comes to: the payload if it fits, nothing of it if it does not, and in both
  -- cases the stream stands behind the frame.
  pub record IsFrameRead (buf_max frame_type : ℕ) (payload rest : Bytes)
      (r : EspErr × Option (ℕ × ℕ × Bytes) × T) : Type 0 where
    pub ok : r.0 ≡ esp_ok
    pub fits : length payload ≤ buf_max → r.1 ≡ some (frame_type, length payload, payload)
    pub large : buf_max < length payload → r.1 ≡ some (frame_type, length payload, [])
    pub left : stream r.2 ≡ rest

  either :
      (buf_max frame_type : ℕ) (payload rest : Bytes) (b : Bool)
      (x y : EspErr × Option (ℕ × ℕ × Bytes) × T)
      → (b ≡ true → IsFrameRead buf_max frame_type payload rest x)
      → (b ≡ false → IsFrameRead buf_max frame_type payload rest y)
      → IsFrameRead buf_max frame_type payload rest (if b then x else y)
  either buf_max frame_type payload rest true x y h g = h refl
  either buf_max frame_type payload rest false x y h g = g refl

  drained :
      IsReading conn_read stream
      → (buf_max frame_type : ℕ) (payload rest : Bytes) (t : T) → buf_max < length payload
      → stream t ≡ payload ++ rest
      → IsFrameRead buf_max frame_type payload rest (
        esp_ok,
        some (frame_type, length payload, []),
        drain_loop conn_read (length payload) (length payload) t,
      )
  drained reading buf_max frame_type payload rest t lt split = record {
    ok = refl;
    fits = λ le. absurd (omega (arith, lt, le));
    large = λ _. refl;
    left =
        drain_loop-drops conn_read stream reading (length payload) (length payload) t rest payload
          (omega arith) refl split;
  }

  stored :
      (buf_max frame_type : ℕ) (payload rest : Bytes) (r : Option Bytes × T)
      → length payload ≤ buf_max
      → r.0 ≡ some payload
      → stream r.1 ≡ rest
      → IsFrameRead buf_max frame_type payload rest (with_payload frame_type (length payload) r)
  stored buf_max frame_type payload rest (none, t) le e left = absurd (cc)
  stored buf_max frame_type payload rest (some bytes, t) le e left = record {
    ok = refl;
    fits = λ _. ap (map_payload frame_type (length payload)) e;
    large = λ lt. absurd (omega (arith, lt, le));
    left = left;
  }

  read_payload-IsFrameRead :
      IsReading conn_read stream
      → (buf_max frame_type : ℕ) (payload rest : Bytes) (t : T) → length payload < 2 ^ 32
      → stream t ≡ payload ++ rest
      → IsFrameRead buf_max frame_type payload rest
          (read_payload conn_read buf_max (header frame_type (length payload)) t)
  unfolding read_payload
  read_payload-IsFrameRead reading buf_max frame_type payload rest t small split =
      let n = length payload in
      let (got, left) = front_read reading t payload rest split in
      let by : ℕ → EspErr × Option (ℕ × ℕ × Bytes) × T = λ plen.
        if ltb buf_max plen
        then (esp_ok, some (frame_type, plen, []), drain_loop conn_read plen plen t)
        else with_payload frame_type plen (derp_tls_read conn_read plen t) in
      subst (λ plen. IsFrameRead buf_max frame_type payload rest (by plen))
        (sym (length_of-header frame_type n small))
        (either buf_max frame_type payload rest (ltb buf_max n) _ _
          (λ e. drained reading buf_max frame_type payload rest t (ltb→lt buf_max n e) split)
          (λ e.
            stored buf_max frame_type payload rest (derp_tls_read conn_read n t)
              (not-ltb→le buf_max n e) got left))

  with_header-IsFrameRead :
      IsReading conn_read stream
      → (buf_max frame_type : ℕ) (payload rest : Bytes) (r : Option Bytes × T)
      → length payload < 2 ^ 32
      → r.0 ≡ some (header frame_type (length payload))
      → stream r.1 ≡ payload ++ rest
      → IsFrameRead buf_max frame_type payload rest (with_header conn_read buf_max r)
  with_header-IsFrameRead reading buf_max frame_type payload rest (none, t) small e left =
      absurd (cc)
  with_header-IsFrameRead reading buf_max frame_type payload rest (some hdr, t) small e left =
      subst (λ h. IsFrameRead buf_max frame_type payload rest (read_payload conn_read buf_max h t))
        (sym (some_injective e))
        (read_payload-IsFrameRead reading buf_max frame_type payload rest t small left)

  -- A frame at the front of the stream, with a payload of less than 2^32 bytes, is read without an
  -- error and with its type and length, however the TLS layer cuts it up: its payload is stored if it
  -- fits into the buffer and discarded if it does not, and the stream is left at what follows.
  pub derp_read_frame-IsFrameRead :
      IsReading conn_read stream
      → (buf_max frame_type : ℕ) (payload rest : Bytes) (t : T) → length payload < 2 ^ 32
      → stream t ≡ header frame_type (length payload) ++ payload ++ rest
      → IsFrameRead buf_max frame_type payload rest (derp_read_frame conn_read buf_max t)
  unfolding derp_read_frame
  derp_read_frame-IsFrameRead reading buf_max frame_type payload rest t small split =
      let hdr = header frame_type (length payload) in
      let (got, left) =
        front_read reading t hdr (payload ++ rest) (split ∙ append_assoc hdr payload rest) in
      with_header-IsFrameRead reading buf_max frame_type payload rest (derp_tls_read conn_read 5 t)
        small got left
