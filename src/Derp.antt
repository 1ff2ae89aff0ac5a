-- ===== src/Derp.antt =====
-- The framing of components/tailscale/src/tailscale_derp.c over a TLS connection. `esp_tls_conn_read`
-- is the parameter `conn_read`: it gives the bytes that it read, none when it returns 0 or less, and
-- the connection after it. `esp_tls_conn_write` is `conn_write`, which gives how many of the bytes it
-- took. The connection is not NULL.
pub mod Stream
pub mod Frame
pub mod Sending
pub mod Pool
mod Tests
use portable_terminal.Base.{
  ℕ, zero, suc, ◌+◌, ◌-◌, ◌*◌, ◌/◌, ◌%◌, ◌^◌, min, bit_or, Bool, true, false, not, Option, none,
  some, List, [], ◌∷◌, ◌++◌, Bytes, length, get_or, drop, ltb, ◌==◌, if◌then◌else◌,
}
use portable_terminal.Esp.{EspErr, esp_ok, esp_fail}

-- the five bytes before a payload
abbrev pub header : ℕ → ℕ → Bytes
header frame_type plen =
    frame_type ∷ plen / 2 ^ 24 % 256 ∷ plen / 2 ^ 16 % 256 ∷ plen / 2 ^ 8 % 256 ∷ plen % 256 ∷ []

-- the length in the header that was read
unfoldable pub length_of : Bytes → ℕ
length_of hdr =
    bit_or
      (bit_or (bit_or (get_or hdr 1 0 * 2 ^ 24) (get_or hdr 2 0 * 2 ^ 16)) (get_or hdr 3 0 * 2 ^ 8))
      (get_or hdr 4 0)

abbrev pub joined {ℓ} : {T : Type ℓ} → Bytes → Option Bytes × T → Option Bytes × T
joined bytes (none, t) = (none, t)
joined bytes (some more, t) = (some (bytes ++ more), t)

-- the payload that was read behind a header
abbrev pub with_payload {ℓ} :
    {T : Type ℓ} → ℕ → ℕ → Option Bytes × T → EspErr × Option (ℕ × ℕ × Bytes) × T
with_payload type plen (none, t) = (esp_fail, none, t)
with_payload type plen (some payload, t) = (esp_ok, some (type, plen, payload), t)

module _ {ℓ} {T : Type ℓ} (conn_read : T → ℕ → Bytes × T) where
  -- the loop until `n` more bytes are read; each round reads at least one, so `n` rounds are enough
  unfoldable pub read_loop : ℕ → ℕ → T → Option Bytes × T
  read_loop zero n t = (if n == 0 then some [] else none, t)
  read_loop (suc fuel) n t =
      let (bytes, t') = conn_read t n in
      let rest = read_loop fuel (n - length bytes) t' in
      if n == 0 then (some [], t) else if length bytes == 0 then (none, t') else joined bytes rest

  -- `derp_tls_read`; `none` is -1.
  unfoldable pub derp_tls_read : ℕ → T → Option Bytes × T
  unfolding read_loop
  derp_tls_read n t = read_loop n n t

  -- the loop that discards `rem` bytes, 64 at a time; each round takes at least one off
  unfoldable pub drain_loop : ℕ → ℕ → T → T
  unfolding derp_tls_read
  drain_loop zero rem t = t
  drain_loop (suc fuel) rem t =
      let n = min rem 64 in
      let (_, t') = derp_tls_read n t in
      let rest = drain_loop fuel (rem - n) t' in if rem == 0 then t else rest

  -- what follows the header
  unfoldable pub read_payload : ℕ → Bytes → T → EspErr × Option (ℕ × ℕ × Bytes) × T
  unfolding length_of derp_tls_read drain_loop
  read_payload buf_max hdr t =
      let plen = length_of hdr in
      if ltb buf_max plen
      then (esp_ok, some (get_or hdr 0 0, plen, []), drain_loop plen plen t)
      else with_payload (get_or hdr 0 0) plen (derp_tls_read plen t)

  abbrev pub with_header : ℕ → Option Bytes × T → EspErr × Option (ℕ × ℕ × Bytes) × T
  with_header buf_max (none, t) = (esp_fail, none, t)
  with_header buf_max (some hdr, t) = read_payload buf_max hdr t

  -- `derp_read_frame`: the type, the length and what is stored into `buf`, if it returns ESP_OK; the
  -- callers look at them only then.
  unfoldable pub derp_read_frame : ℕ → T → EspErr × Option (ℕ × ℕ × Bytes) × T
  unfolding derp_tls_read
  derp_read_frame buf_max t = with_header buf_max (derp_tls_read 5 t)

module _ {ℓ} {T : Type ℓ} (conn_write : T → Bytes → ℕ × T) where
  -- the loop until all bytes are written; each round writes at least one
  unfoldable pub write_loop : ℕ → Bytes → T → Bool × T
  write_loop zero buf t = (length buf == 0, t)
  write_loop (suc fuel) buf t =
      let (n, t') = conn_write t buf in
      let rest = write_loop fuel (drop n buf) t' in
      if length buf == 0 then (true, t) else if n == 0 then (false, t') else rest

  -- `derp_tls_write`; `false` is -1.
  unfoldable pub derp_tls_write : Bytes → T → Bool × T
  unfolding write_loop
  derp_tls_write buf t = write_loop (length buf) buf t

  -- `derp_send_frame`
  unfoldable pub derp_send_frame : ℕ → Bytes → T → EspErr × T
  unfolding derp_tls_write
  derp_send_frame frame_type payload t =
      let (ok, t') = derp_tls_write (header frame_type (length payload)) t in
      let (ok', t'') = derp_tls_write payload t' in
      if not ok
      then (esp_fail, t')
      else if length payload == 0
      then (esp_ok, t')
      else if not ok'
      then (esp_fail, t'')
      else (esp_ok, t'')
