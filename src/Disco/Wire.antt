-- ===== src/Disco/Wire.antt =====
-- The frames of components/tailscale/src/tailscale_disco.c: what is sent is what is read.
use portable_terminal.Base.{
  ℕ, ◌+◌, ◌*◌, ◌/◌, ◌%◌, ◌^◌, ◌≤◌, ◌<◌, ◌≡◌, ◌≢◌, refl, sym, ap, ◌∙◌, subst, Bool, true, false,
  Option, none, some, ◌++◌, Bytes, arith, length, take, drop, ltb, if◌then◌else◌, length-append,
  take-length_append, drop-length_append, append_assoc,
}
use portable_terminal.Esp.{EspErr, esp_ok, esp_err_no_mem}
use portable_terminal.Disco.{
  Env, State, magic, header_len, tag_len, frame_bytes, sender_of, nonce_of, box_of, fill_random,
  build_disco_frame, open_disco_frame,
}
use portable_terminal.Disco.Send.{addrport_bytes}
use portable_terminal.Disco.Receive.{pt_max, all_zero, unpack_addrport_v4}

-- An IPv4 address and a port that a Ping may go to come back from the 18 bytes that carry them.
pub unpack_addrport_v4-addrport_bytes :
    (ip port : ℕ)
    → ip < 2 ^ 32
    → port < 2 ^ 16
    → ip ≢ 0
    → port ≢ 0
    → ip / 2 ^ 24 ≢ 0x7F
    → ip / 2 ^ 28 ≢ 0xE
    → unpack_addrport_v4 (addrport_bytes ip port) ≡ some (ip, port)
unfolding unpack_addrport_v4 all_zero
unpack_addrport_v4-addrport_bytes ip port i p i0 p0 local multi =
    let ip_back : ip / 2 ^ 24 % 256 * 2 ^ 24
          + ip / 2 ^ 16 % 256 * 2 ^ 16
          + ip / 2 ^ 8 % 256 * 2 ^ 8
          + ip % 256
        ≡ ip =
      omega arith in
    let port_back : port / 2 ^ 8 % 256 * 2 ^ 8 + port % 256 ≡ port = omega arith in
    rw (ip_back, port_back) (ground arith)

-- What the code relies on in the crypto library: a sealed box opens under the same key and nonce and
-- is 16 bytes longer than its text, and both ends of an exchange compute one key.
pub record IsBox (env : Env) (s r : State) : Type 0 where
  pub opens : (k n pt : Bytes) → env.box_open k n (env.box_seal k n pt) ≡ some pt
  pub box_length : (k n pt : Bytes) → length (env.box_seal k n pt) ≡ 16 + length pt
  pub random_length : (i n : ℕ) → length (env.random i n) ≡ n
  pub shared : env.x25519 s.disco_priv r.disco_pub ≡ env.x25519 r.disco_priv s.disco_pub
  pub pub_length : length s.disco_pub ≡ 32

take_front : (n : ℕ) (xs ys : Bytes) → length xs ≡ n → take n (xs ++ ys) ≡ xs
take_front n xs ys h = ap (λ k. take k (xs ++ ys)) (sym h) ∙ take-length_append xs ys

drop_front : (n : ℕ) (xs ys : Bytes) → length xs ≡ n → drop n (xs ++ ys) ≡ ys
drop_front n xs ys h = ap (λ k. drop k (xs ++ ys)) (sym h) ∙ drop-length_append xs ys

-- the fields of a frame, cut out again
cut :
    (a b c d : Bytes)
    → length a ≡ 6
    → length b ≡ 32
    → length c ≡ 24
    → (take 6 (a ++ b ++ c ++ d) ≡ a)
      × (take 32 (drop 6 (a ++ b ++ c ++ d)) ≡ b)
      × (take 24 (drop 38 (a ++ b ++ c ++ d)) ≡ c)
      × (drop 62 (a ++ b ++ c ++ d) ≡ d)
cut a b c d la lb lc =
    let behind_a : a ++ b ++ c ++ d ≡ a ++ (b ++ (c ++ d)) =
      append_assoc (a ++ b) c d ∙ append_assoc a b (c ++ d) in
    let behind_b : a ++ b ++ c ++ d ≡ (a ++ b) ++ (c ++ d) = append_assoc (a ++ b) c d in
    let ab = length-append a b in
    let abc = length-append (a ++ b) c in
    (
      ap (take 6) behind_a ∙ take_front 6 a (b ++ (c ++ d)) la,
      ap (λ x. take 32 (drop 6 x)) behind_a
          ∙ ap (take 32) (drop_front 6 a (b ++ (c ++ d)) la)
          ∙ take_front 32 b (c ++ d) lb,
      ap (λ x. take 24 (drop 38 x)) behind_b
          ∙ ap (take 24) (drop_front 38 (a ++ b) (c ++ d) (omega (arith, ab, la, lb)))
          ∙ take_front 24 c d lc,
      drop_front 62 (a ++ b ++ c) d (omega (arith, abc, ab, la, lb, lc)),
    )

built_cases :
    (f g : Bytes) (s s' t : State) (b : Bool)
    → (let r : EspErr × Option Bytes × State =
          if b then (esp_err_no_mem, none, t) else (esp_ok, some f, s) in
        r ≡ (esp_ok, some g, s'))
    → g ≡ f
built_cases f g s s' t true h = absurd (cc)
built_cases f g s s' t false h = cc

-- what a frame that was built is
built_frame :
    (env : Env) (key inner : Bytes) (cap : ℕ) (s s' : State) (frame : Bytes)
    → build_disco_frame env key inner cap s ≡ (esp_ok, some frame, s')
    → frame ≡ frame_bytes env s (env.random s.draws 24) key inner
unfolding build_disco_frame
built_frame env key inner cap s s' frame h =
    let st : State = (fill_random env 24 s).1 in
    built_cases (frame_bytes env s (env.random s.draws 24) key inner) frame st s' s
      (ltb cap (header_len + tag_len + length inner)) h

opened_lem :
    (env : Env) (frame key : Bytes) (r : State)
    → header_len + tag_len ≤ length frame
    → length frame ≤ header_len + tag_len + pt_max
    → open_disco_frame env frame key pt_max r
      ≡ env.box_open (env.x25519 r.disco_priv key) (nonce_of frame) (box_of frame)
unfolding open_disco_frame
opened_lem env frame key r low high = ground arith

-- A frame that was built for a receiver opens there, under the key of the sender that it carries, to
-- the text that was put in, if that fits the receiver's buffer of 256 bytes.
pub open_disco_frame-build :
    (env : Env) (s r s' : State) (inner frame : Bytes) (cap : ℕ)
    → IsBox env s r
    → build_disco_frame env r.disco_pub inner cap s ≡ (esp_ok, some frame, s')
    → length inner ≤ pt_max
    → (take 6 frame ≡ magic)
      × (sender_of frame ≡ s.disco_pub)
      × (length frame ≡ header_len + tag_len + length inner)
      × (open_disco_frame env frame (sender_of frame) pt_max r ≡ some inner)
open_disco_frame-build env s r s' inner frame cap box built fits =
    let nonce = env.random s.draws 24 in
    let key = env.x25519 s.disco_priv r.disco_pub in
    let sealed = env.box_seal key nonce inner in
    let nonce_length = box.random_length s.draws 24 in
    let whole = frame_bytes env s nonce r.disco_pub inner in
    let (starts, sender, middle, end) =
      cut magic s.disco_pub nonce sealed refl box.pub_length nonce_length in
    let size : length whole ≡ header_len + tag_len + length inner = omega (
      arith,
      length-append (magic ++ s.disco_pub ++ nonce) sealed,
      length-append (magic ++ s.disco_pub) nonce,
      length-append magic s.disco_pub,
      box.pub_length,
      nonce_length,
      box.box_length key nonce inner,
    ) in
    let opens : open_disco_frame env whole (sender_of whole) pt_max r ≡ some inner =
      opened_lem env whole (sender_of whole) r (omega (arith, size)) (omega (arith, size, fits))
      ∙ ap (λ k. env.box_open (env.x25519 r.disco_priv k) (nonce_of whole) (box_of whole)) sender
      ∙ ap (λ k. env.box_open k (nonce_of whole) (box_of whole)) (sym box.shared)
      ∙ ap (λ n. env.box_open key n (box_of whole)) middle
      ∙ ap (env.box_open key nonce) end
      ∙ box.opens key nonce inner in
    subst
      (λ f.
        (take 6 f ≡ magic)
        × (sender_of f ≡ s.disco_pub)
        × (length f ≡ header_len + tag_len + length inner)
        × (open_disco_frame env f (sender_of f) pt_max r ≡ some inner))
      (sym (built_frame env r.disco_pub inner cap s s' frame built)) (starts, sender, size, opens)
