-- ===== src/Derp/Tests.antt =====
-- A frame over a connection that gives out one byte at a time, and the pool of connections.
use portable_terminal.Base.{
  ℕ, zero, suc, ◌≤◌, ◌<◌, ◌≡◌, refl, [], ◌∷◌, ◌++◌, Bytes, arith, length, take, sym, append-nil,
  true, false, some, List, get_or, count_if, find_index,
}
use portable_terminal.Esp.{esp_ok}
use portable_terminal.Derp.{header, derp_read_frame, derp_send_frame}
use portable_terminal.Derp.Pool.{
  Conn, no_conn, empty_pool, serves, use_conn, choose_conn, derp_ensure_region,
}
use portable_terminal.Derp.Pool.Unique.{derp_ensure_region_unique}
use portable_terminal.Derp.Pool.Ready.{IsReady, derp_ensure_region-ready}
use portable_terminal.Derp.Stream.{IsReading}
use portable_terminal.Derp.Frame.{IsFrameRead, derp_read_frame-IsFrameRead}
use portable_terminal.Derp.Sending.{IsWriting, derp_send_frame-writes}

-- the stream itself is the connection
abbrev read_byte : Bytes → ℕ → Bytes × Bytes
read_byte t zero = ([], t)
read_byte [] (suc n) = ([], [])
read_byte (b ∷ t) (suc n) = (b ∷ [], t)

abbrev itself : Bytes → Bytes
itself t = t

some_read : (t : Bytes) (n : ℕ) → 0 < n → 0 < length t → 0 < length (read_byte t n).0
some_read t zero h g = absurd (omega arith)
some_read [] (suc n) h g = absurd (omega arith)
some_read (b ∷ t) (suc n) h g = omega arith

not_more : (t : Bytes) (n : ℕ) → length (read_byte t n).0 ≤ n
not_more t zero = omega arith
not_more [] (suc n) = omega arith
not_more (b ∷ t) (suc n) = omega arith

in_order : (t : Bytes) (n : ℕ) → t ≡ (read_byte t n).0 ++ (read_byte t n).1
in_order t zero = refl
in_order [] (suc n) = refl
in_order (b ∷ t) (suc n) = refl

read_byte-IsReading : IsReading read_byte itself
read_byte-IsReading = record { some_read = some_read; not_more = not_more; in_order = in_order }

-- a keep-alive frame with three bytes, and one byte of what follows
abbrev body : Bytes
body = 1 ∷ 2 ∷ 3 ∷ []

derp_read_frame-IsFrameRead_example :
    IsFrameRead read_byte itself 2048 6 body
      (9 ∷ [])
      (derp_read_frame read_byte 2048 (header 6 3 ++ body ++ 9 ∷ []))
derp_read_frame-IsFrameRead_example =
    derp_read_frame-IsFrameRead read_byte itself read_byte-IsReading 2048 6 body (9 ∷ [])
      (header 6 3 ++ body ++ 9 ∷ []) (omega arith) refl

abbrev write_byte : Bytes → Bytes → ℕ × Bytes
write_byte t [] = (0, t)
write_byte t (b ∷ buf) = (1, t ++ b ∷ [])

write_byte-some : (t buf : Bytes) → 0 < length buf → 0 < (write_byte t buf).0
write_byte-some t [] h = absurd (omega arith)
write_byte-some t (b ∷ buf) h = omega arith

write_byte-le : (t buf : Bytes) → (write_byte t buf).0 ≤ length buf
write_byte-le t [] = omega arith
write_byte-le t (b ∷ buf) = omega arith

write_byte-order : (t buf : Bytes) → (write_byte t buf).1 ≡ t ++ take (write_byte t buf).0 buf
write_byte-order t [] = sym (append-nil t)
write_byte-order t (b ∷ buf) = refl

write_byte-IsWriting : IsWriting write_byte itself
write_byte-IsWriting = record {
  some_written = write_byte-some;
  not_more = write_byte-le;
  in_order = write_byte-order;
}

derp_send_frame-writes_example :
    ((derp_send_frame write_byte 4 body []).0 ≡ esp_ok)
    × ((derp_send_frame write_byte 4 body []).1 ≡ header 4 3 ++ body)
derp_send_frame-writes_example =
    derp_send_frame-writes write_byte itself write_byte-IsWriting 4 body []

-- region 2 is established in the first slot, the others are free
abbrev connected : Conn
connected = record {
  in_use = true;
  region_id = 2;
  has_tls = true;
  running = true;
  connecting = false;
}

abbrev one_connected : List Conn
one_connected = connected ∷ no_conn ∷ no_conn ∷ no_conn ∷ []

empty_pool-le : (region : ℕ) → count_if (serves region) empty_pool ≤ 1
unfolding count_if
empty_pool-le region = omega arith

returned : (derp_ensure_region true true 2 one_connected).ready ≡ some 0
unfolding derp_ensure_region choose_conn use_conn find_index
returned = refl

derp_ensure_region_unique_example :
    count_if (serves 2) (derp_ensure_region true true 2 empty_pool).pool ≤ 1
derp_ensure_region_unique_example = derp_ensure_region_unique true true 2 empty_pool empty_pool-le 2

derp_ensure_region-ready_example : IsReady 2 (get_or one_connected 0 no_conn)
derp_ensure_region-ready_example = derp_ensure_region-ready true true 2 one_connected 0 returned
