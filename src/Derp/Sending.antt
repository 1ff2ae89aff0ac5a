-- ===== src/Derp/Sending.antt =====
-- `derp_send_frame` of components/tailscale/src/tailscale_derp.c writes the whole frame.
use portable_terminal.Base.{
  ℕ, zero, suc, ◌≤◌, ◌<◌, ◌≡◌, refl, sym, ap, ◌∙◌, Bool, true, false, not, [], ◌∷◌, ◌++◌, Bytes,
  arith, length, take, drop, ◌==◌, if◌then◌else◌, length-drop, ==_iff, append_assoc, append-nil,
  take_append_drop,
}
use portable_terminal.Esp.{EspErr, esp_ok, esp_fail}
use portable_terminal.Derp.{header, write_loop, derp_tls_write, derp_send_frame}

-- What the code relies on in `esp_tls_conn_write`, on a connection that works: it takes at least one
-- byte and at most all, from the front.
pub record IsWriting {ℓ} {T : Type ℓ} (conn_write : T → Bytes → ℕ × T) (written : T → Bytes)
    : Type ℓ where
  pub some_written : (t : T) (buf : Bytes) → 0 < length buf → 0 < (conn_write t buf).0
  pub not_more : (t : T) (buf : Bytes) → (conn_write t buf).0 ≤ length buf
  pub in_order :
      (t : T) (buf : Bytes)
      → written (conn_write t buf).1 ≡ written t ++ take (conn_write t buf).0 buf

not_empty : (n : ℕ) → (n == 0) ≡ false → 0 < n
not_empty n h = ground arith

module _ {ℓ} {T : Type ℓ} (conn_write : T → Bytes → ℕ × T) (written : T → Bytes) where
  -- all of the bytes are written behind what was written before
  abbrev IsWritten : Bytes → T → Bool × T → Type 0
  IsWritten buf t r = (r.0 ≡ true) × (written r.1 ≡ written t ++ buf)

  if_IsWritten :
      (buf : Bytes) (t : T) (b : Bool) (x y : Bool × T)
      → (b ≡ true → IsWritten buf t x)
      → (b ≡ false → IsWritten buf t y)
      → IsWritten buf t (if b then x else y)
  if_IsWritten buf t true x y h g = h refl
  if_IsWritten buf t false x y h g = g refl

  all_written : (buf : Bytes) (t : T) → length buf ≡ 0 → written t ≡ written t ++ buf
  all_written [] t h = sym (append-nil (written t))
  all_written (b ∷ buf) t h = absurd (omega (arith, h))

  write_loop-IsWritten :
      IsWriting conn_write written
      → (fuel : ℕ) (buf : Bytes) (t : T) → length buf ≤ fuel
      → IsWritten buf t (write_loop conn_write fuel buf t)
  unfolding write_loop
  write_loop-IsWritten writing zero buf t h =
      let e : length buf ≡ 0 = omega (arith, h) in
      ((==_iff (length buf) 0).1 e, all_written buf t e)
  write_loop-IsWritten writing (suc fuel) buf t h =
      let (n, t') = conn_write t buf in
      let le = writing.not_more t buf in
      if_IsWritten buf t (length buf == 0) (true, t) _
        (λ e. (refl, all_written buf t ((==_iff (length buf) 0).0 e)))
        (λ ne.
          let got = writing.some_written t buf (not_empty (length buf) ne) in
          if_IsWritten buf t (n == 0) (false, t') _
            (λ e. absurd (omega (arith, got, (==_iff n 0).0 e)))
            (λ _.
              let (ok, rest) =
                write_loop-IsWritten writing fuel (drop n buf) t'
                  (omega (arith, h, got, length-drop n buf)) in
              (
                ok,
                rest
                    ∙ ap (λ w. w ++ drop n buf) (writing.in_order t buf)
                    ∙ append_assoc (written t) (take n buf) (drop n buf)
                    ∙ ap (λ w. written t ++ w) (take_append_drop n buf),
              )))

  derp_tls_write-IsWritten :
      IsWriting conn_write written
      → (buf : Bytes) (t : T) → IsWritten buf t (derp_tls_write conn_write buf t)
  unfolding derp_tls_write
  derp_tls_write-IsWritten writing buf t =
      write_loop-IsWritten writing (length buf) buf t (omega arith)

  outcome :
      (ok ok' : Bool) (t t' : T) (is_empty : Bool) (all : Bytes)
      → ok ≡ true
      → ok' ≡ true
      → written t' ≡ all
      → (is_empty ≡ true → written t ≡ all)
      → let r : EspErr × T =
          if not ok
          then (esp_fail, t)
          else if is_empty
          then (esp_ok, t)
          else if not ok'
          then (esp_fail, t')
          else (esp_ok, t') in
        (r.0 ≡ esp_ok) × (written r.1 ≡ all)
  outcome true true t t' true all e e' h g = (refl, g refl)
  outcome true true t t' false all e e' h g = (refl, h)
  outcome true false t t' is_empty all e e' h g = absurd (cc)
  outcome false ok' t t' is_empty all e e' h g = absurd (cc)

  -- On a connection that works, `derp_send_frame` succeeds and has written the header and then the
  -- payload, however the TLS layer cuts them up.
  pub derp_send_frame-writes :
      IsWriting conn_write written
      → (frame_type : ℕ) (payload : Bytes) (t : T)
      → ((derp_send_frame conn_write frame_type payload t).0 ≡ esp_ok)
        × (written (derp_send_frame conn_write frame_type payload t).1
            ≡ written t ++ (header frame_type (length payload) ++ payload))
  unfolding derp_send_frame
  derp_send_frame-writes writing frame_type payload t =
      let hdr = header frame_type (length payload) in
      let r = derp_tls_write conn_write hdr t in
      let r' = derp_tls_write conn_write payload r.1 in
      let (ok, front) = derp_tls_write-IsWritten writing hdr t in
      let (ok', back) = derp_tls_write-IsWritten writing payload r.1 in
      let whole : written r'.1 ≡ written t ++ (hdr ++ payload) =
        back ∙ ap (λ w. w ++ payload) front ∙ append_assoc (written t) hdr payload in
      outcome r.0 r'.0 r.1 r'.1 (length payload == 0) (written t ++ (hdr ++ payload)) ok ok' whole
        (λ e.
          all_written payload r.1 ((==_iff (length payload) 0).0 e)
          ∙ ap (λ w. w ++ payload) front
          ∙ append_assoc (written t) hdr payload)
