-- ===== src/Ftdi/Transfer/Packets.antt =====
-- What the bulk IN callback delivers, against a reading of the transfer byte by byte.
use portable_terminal.Base.{
  ℕ, zero, suc, ◌+◌, ◌-◌, ◌≤◌, ◌<◌, ◌≡◌, refl, ap, sym, ◌∙◌, true, none, some, List, [], ◌∷◌, ◌++◌,
  Bytes, arith, length, take, drop, ltb, leb, ◌==◌, if◌then◌else◌, append_assoc, append-nil,
  length-take, length-drop, take_append_drop, inl, inr, ◌⊎◌,
}
use portable_terminal.Ftdi.{ModemStatus}
use portable_terminal.Ftdi.Protocol.{status_of}
use portable_terminal.Ftdi.Transfer.{
  Device, Event, modem_status, received, completed, update_status, deliver, in_chunk, chunk_size,
  in_loop, InResult, in_xfer_cb,
}

-- all bytes that the data callback gets, in order
abbrev pub data_of : List Event → Bytes
data_of [] = []
data_of (modem_status ∷ es) = data_of es
data_of (received bs ∷ es) = bs ++ data_of es

-- the place of the next byte in its packet
abbrev pub next_place : ℕ → ℕ → ℕ
next_place mps k = if suc k == mps then 0 else suc k

-- The bytes that are not among the first two of their packet of `mps` bytes.
unfoldable pub strip : ℕ → ℕ → Bytes → Bytes
strip mps k [] = []
strip mps k (b ∷ bs) =
    let rest = strip mps (next_place mps k) bs in if leb 2 k then b ∷ rest else rest

data_of-append : (xs ys : List Event) → data_of (xs ++ ys) ≡ data_of xs ++ data_of ys
data_of-append [] ys = refl
data_of-append (modem_status ∷ xs) ys = data_of-append xs ys
data_of-append (received bs ∷ xs) ys =
    rw (data_of-append xs ys) (sym (append_assoc bs (data_of xs) (data_of ys)))

abbrev wrap : ℕ → ℕ → ℕ
wrap mps k = if k == mps then 0 else k

drop_nil : (n : ℕ) → drop {A = ℕ} n [] ≡ []
drop_nil zero = refl
drop_nil (suc n) = refl

-- One byte at place k, in front of what `drop` leaves of the others.
keep_or_drop :
    (k b : ℕ) (c rest : Bytes)
    → (if leb 2 k then b ∷ (drop (2 - suc k) c ++ rest) else drop (2 - suc k) c ++ rest)
      ≡ drop (2 - k) (b ∷ c) ++ rest
keep_or_drop zero b c rest = refl
keep_or_drop (suc zero) b c rest = refl
keep_or_drop (suc (suc k)) b c rest =
    let gone : 2 - suc (suc (suc k)) ≡ 0 = omega arith in
    let gone' : 2 - suc (suc k) ≡ 0 = omega arith in
    let kept : leb 2 (suc (suc k)) ≡ true = ground arith in rw (gone, gone', kept)

strip_cons :
    (mps k b : ℕ) (bs : Bytes) (next : ℕ)
    → next_place mps k ≡ next
    → strip mps k (b ∷ bs) ≡ (if leb 2 k then b ∷ strip mps next bs else strip mps next bs)
unfolding strip
strip_cons mps k b bs next e = rw e

-- Within one packet `strip` drops what is left of the first two bytes.
strip_packet :
    (mps k b : ℕ) (c r : Bytes)
    → k + length (b ∷ c) ≤ mps
    → strip mps k ((b ∷ c) ++ r)
      ≡ drop (2 - k) (b ∷ c) ++ strip mps (wrap mps (k + length (b ∷ c))) r
strip_packet mps k b [] r h =
    let next : k + 1 ≡ suc k = omega arith in
    let nothing = drop_nil (2 - suc k) in
    let one = keep_or_drop k b [] (strip mps (next_place mps k) r) in
    rw next (strip_cons mps k b r (next_place mps k) refl ∙ (rw nothing at one))
strip_packet mps k b (b' ∷ c) r h =
    let inside : next_place mps k ≡ suc k = ground arith in
    let next : k + suc (suc (length c)) ≡ suc k + suc (length c) = omega arith in
    let ih = strip_packet mps (suc k) b' c r (omega arith) in
    let cons = strip_cons mps k b ((b' ∷ c) ++ r) (suc k) inside in
    rw next (
      (rw ih at cons)
      ∙ keep_or_drop k b (b' ∷ c) (strip mps (wrap mps (suc k + length (b' ∷ c))) r))

module _ (dev : Device) where
  in_chunk-settings :
      (chunk : Bytes)
      → ((in_chunk dev chunk).0.in_mps ≡ dev.in_mps)
        × ((in_chunk dev chunk).0.has_data_cb ≡ dev.has_data_cb)
  unfolding in_chunk update_status
  in_chunk-settings chunk = ground arith

  data_of-deliver :
      (payload : Bytes) → dev.has_data_cb ≡ true → data_of (deliver dev payload) ≡ payload
  unfolding deliver
  data_of-deliver [] cb = refl
  data_of-deliver (b ∷ payload) cb =
      let some_data : ltb 0 (suc (length payload)) ≡ true = ground arith in
      rw (cb, some_data) (append-nil (b ∷ payload))

data_of-update_status : (dev : Device) (s : ModemStatus) → data_of (update_status dev s).1 ≡ []
unfolding update_status
data_of-update_status dev s = ground arith

update_status-settings :
    (dev : Device) (s : ModemStatus)
    → ((update_status dev s).0.in_mps ≡ dev.in_mps)
      × ((update_status dev s).0.has_data_cb ≡ dev.has_data_cb)
unfolding update_status
update_status-settings dev s = ground arith

-- A chunk's data is what stands behind its status bytes.
data_of-in_chunk :
    (dev : Device) (chunk : Bytes)
    → dev.has_data_cb ≡ true
    → data_of (in_chunk dev chunk).1 ≡ drop 2 chunk
unfolding in_chunk
data_of-in_chunk dev [] cb = refl
data_of-in_chunk dev (b ∷ []) cb = refl
data_of-in_chunk dev (b ∷ b' ∷ rest) cb =
    let long : leb 2 (suc (suc (length rest))) ≡ true = ground arith in
    let s : ModemStatus = status_of b b' in
    let settings = update_status-settings dev s in
    rw long (
      data_of-append (update_status dev s).1 (deliver (update_status dev s).0 rest)
      ∙ rw (data_of-update_status dev s)
          (data_of-deliver (update_status dev s).0 rest (settings.1 ∙ cb)))

-- What the whole loop leaves.
record Delivers (dev : Device) (left : Bytes) (r : Device × List Event) : Type 0 where
  data_is : data_of r.1 ≡ strip dev.in_mps 0 left
  mps_is : r.0.in_mps ≡ dev.in_mps

chunk_size_bounds :
    (mps n : ℕ)
    → 0 < mps
    → 0 < n
    → (0 < chunk_size mps n)
      × (chunk_size mps n ≤ mps)
      × (chunk_size mps n ≤ n)
      × ((chunk_size mps n ≡ mps) ⊎ (chunk_size mps n ≡ n))
unfolding chunk_size
chunk_size_bounds mps n h k = ground arith

drop_all : (n : ℕ) (xs : Bytes) → length xs ≤ n → drop n xs ≡ []
drop_all zero [] h = refl
drop_all zero (x ∷ xs) h = absurd (omega arith)
drop_all (suc n) [] h = refl
drop_all (suc n) (x ∷ xs) h = drop_all n xs (omega arith)

strip-nil : (mps k : ℕ) → strip mps k [] ≡ []
unfolding strip
strip-nil mps k = refl

-- One chunk of the loop is one packet of the byte by byte reading.
strip_chunk :
    (mps size b : ℕ) (rest : Bytes)
    → 0 < size
    → size ≤ mps
    → size ≤ length (b ∷ rest)
    → (size ≡ mps) ⊎ (size ≡ length (b ∷ rest))
    → strip mps 0 (b ∷ rest) ≡ drop 2 (take size (b ∷ rest)) ++ strip mps 0 (drop size (b ∷ rest))
strip_chunk mps zero b rest pos le in_left stop = absurd (omega arith)
strip_chunk mps (suc n) b rest pos le in_left stop =
    let fits : 0 + suc (length (take n rest)) ≡ suc n = omega (arith, length-take n rest) in
    let packet = strip_packet mps 0 b (take n rest) (drop n rest) (omega arith) in
    let whole : strip mps 0 (b ∷ rest) ≡ strip mps 0 (b ∷ (take n rest ++ drop n rest)) =
      rw (take_append_drop n rest) in
    whole ∙ packet ∙ ap (λ t. drop 2 (b ∷ take n rest) ++ t) (rw fits (go stop))
  where
    go :
        (suc n ≡ mps) ⊎ (suc n ≡ length (b ∷ rest))
        → strip mps (wrap mps (suc n)) (drop n rest) ≡ strip mps 0 (drop n rest)
    go (inl same) = let at_end : (suc n == mps) ≡ true = ground arith in rw at_end
    go (inr all) =
        let empty : drop n rest ≡ [] = drop_all n rest (omega arith) in
        rw empty (strip-nil mps (wrap mps (suc n)) ∙ sym (strip-nil mps 0))

in_loop-Delivers :
    (fuel : ℕ) (dev : Device) (left : Bytes)
    → length left ≤ fuel
    → 0 < dev.in_mps
    → dev.has_data_cb ≡ true
    → (r : Device × List Event) × (in_loop fuel dev left ≡ some r) × Delivers dev left r
unfolding in_loop
in_loop-Delivers fuel dev [] h mps cb =
    ((dev, []), refl, record { data_is = sym (strip-nil dev.in_mps 0); mps_is = refl })
in_loop-Delivers zero dev (b ∷ rest) h mps cb = absurd (omega arith)
in_loop-Delivers (suc fuel) dev (b ∷ rest) h mps cb =
    let left : Bytes = b ∷ rest in
    let size : ℕ = chunk_size dev.in_mps (length left) in
    let chunk : Bytes = take size left in
    let kept = in_chunk-settings dev chunk in
    let (pos, le, in_left, stop) = chunk_size_bounds dev.in_mps (length left) mps (omega arith) in
    let (r, ran, later) =
      in_loop-Delivers fuel (in_chunk dev chunk).0 (drop size left)
        (omega (arith, length-drop size left)) (omega (arith, kept.0)) (kept.1 ∙ cb) in
    (
      (r.0, (in_chunk dev chunk).1 ++ r.1),
      rw (ran, in_loop),
      record {
        data_is =
            data_of-append (in_chunk dev chunk).1 r.1
            ∙ rw (data_of-in_chunk dev chunk cb, later.data_is, kept.0)
                (sym (strip_chunk dev.in_mps size b rest pos le in_left stop));
        mps_is = later.mps_is ∙ kept.0;
      },
    )

-- With a packet size of one or more and a data callback, a completed transfer is worked off in as
-- many rounds as it has bytes or fewer; the callback gets exactly the bytes that are not among the
-- first two of their packet, in order, and the transfer is submitted again.
pub in_xfer_cb-payload :
    (dev : Device) (buffer : Bytes)
    → 0 < dev.in_mps
    → dev.has_data_cb ≡ true
    → (r : InResult) × (in_xfer_cb (length buffer) completed dev buffer ≡ some r)
      × (data_of r.events ≡ strip dev.in_mps 0 buffer)
      × (r.resubmitted ≡ true)
unfolding in_xfer_cb
in_xfer_cb-payload dev buffer mps cb =
    let (r, ran, done) = in_loop-Delivers (length buffer) dev buffer (omega arith) mps cb in
    (
      record { device = r.0; events = r.1; resubmitted = true },
      rw (ran, in_xfer_cb),
      done.data_is,
      refl,
    )

in_loop-stalls :
    (fuel : ℕ) (dev : Device) (b : ℕ) (rest : Bytes)
    → dev.in_mps ≡ 0
    → in_loop fuel dev (b ∷ rest) ≡ none
unfolding in_loop
in_loop-stalls zero dev b rest mps = refl
in_loop-stalls (suc fuel) dev b rest mps =
    let left : Bytes = b ∷ rest in
    let size : ℕ = chunk_size dev.in_mps (length left) in
    let nothing : size ≡ 0 = unfold chunk_size in ground arith in
    let same : drop size left ≡ left = rw nothing in
    let again =
      in_loop-stalls fuel (in_chunk dev (take size left)).0 b rest
        ((in_chunk-settings dev (take size left)).0 ∙ mps) in
    rw (same, again, in_loop)

-- With a packet size of 0 a completed transfer that holds any byte is never worked off: the loop
-- makes no progress, whatever the number of rounds.
pub in_xfer_cb-stalls :
    (fuel : ℕ) (dev : Device) (b : ℕ) (rest : Bytes)
    → dev.in_mps ≡ 0
    → in_xfer_cb fuel completed dev (b ∷ rest) ≡ none
unfolding in_xfer_cb
in_xfer_cb-stalls fuel dev b rest mps = rw (in_loop-stalls fuel dev b rest mps, in_xfer_cb)
