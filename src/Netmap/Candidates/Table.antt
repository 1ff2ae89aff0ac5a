-- ===== src/Netmap/Candidates/Table.antt =====
-- The candidate table of components/tailscale/src/tailscale_netmap.c holds the best candidates in
-- order.
use portable_terminal.Base.{
  ℕ, zero, suc, ◌≤◌, ◌<◌, ◌≡◌, refl, sym, ap, ◌∙◌, subst, true, false, List, [], ◌∷◌, ◌++◌, arith,
  length, get_or, set, take, ltb, Bool-cases, inl, inr, length-set, take-suc-set,
}
use portable_terminal.Netmap.Candidates.{Candidate, no_candidate, make_room, place}
use portable_terminal.Netmap.Candidates.Best.{
  insert_desc, IsDescending, insert_desc-worse, insert_desc-end, IsDescending-init,
}

module _ {ℓ} {A : Type ℓ} where
  pub take-suc :
      (n : ℕ) (xs : List A) (d : A)
      → n < length xs
      → take (suc n) xs ≡ take n xs ++ get_or xs n d ∷ []
  take-suc n [] d h = absurd (omega arith)
  take-suc zero (x ∷ xs) d h = refl
  take-suc (suc n) (x ∷ xs) d h = ap (◌∷◌ x) (take-suc n xs d (omega arith))

  take-set_later : (n : ℕ) (xs : List A) (k : ℕ) (v : A) → n ≤ k → take n (set xs k v) ≡ take n xs
  take-set_later zero xs k v h = refl
  take-set_later (suc n) [] k v h = refl
  take-set_later (suc n) (x ∷ xs) zero v h = absurd (omega arith)
  take-set_later (suc n) (x ∷ xs) (suc k) v h = ap (◌∷◌ x) (take-set_later n xs k v (omega arith))

  get_or-set_later :
      (xs : List A) (k : ℕ) (v d : A) (j : ℕ) → k < j → get_or (set xs k v) j d ≡ get_or xs j d
  get_or-set_later [] k v d j h = refl
  get_or-set_later (x ∷ xs) zero v d zero h = absurd (omega arith)
  get_or-set_later (x ∷ xs) zero v d (suc j) h = refl
  get_or-set_later (x ∷ xs) (suc k) v d zero h = absurd (omega arith)
  get_or-set_later (x ∷ xs) (suc k) v d (suc j) h = get_or-set_later xs k v d j (omega arith)

  get_or-set_at : (xs : List A) (i : ℕ) (v d : A) → i < length xs → get_or (set xs i v) i d ≡ v
  get_or-set_at [] i v d h = absurd (omega arith)
  get_or-set_at (x ∷ xs) zero v d h = refl
  get_or-set_at (x ∷ xs) (suc i) v d h = get_or-set_at xs i v d (omega arith)

  pub take-take : (m n : ℕ) (xs : List A) → m ≤ n → take m (take n xs) ≡ take m xs
  take-take zero n xs h = refl
  take-take (suc m) zero xs h = absurd (omega arith)
  take-take (suc m) (suc n) [] h = refl
  take-take (suc m) (suc n) (x ∷ xs) h = ap (◌∷◌ x) (take-take m n xs (omega arith))

room_moves :
    (k : ℕ) (cands : List Candidate) (score : ℕ)
    → ltb (get_or cands k no_candidate).score score ≡ true
    → make_room (suc k) cands score
      ≡ make_room k (set cands (suc k) (get_or cands k no_candidate)) score
unfolding make_room
room_moves k cands score e = rw (e, make_room)

room_stops :
    (k : ℕ) (cands : List Candidate) (score : ℕ)
    → ltb (get_or cands k no_candidate).score score ≡ false
    → make_room (suc k) cands score ≡ (suc k, cands)
unfolding make_room
room_stops k cands score e = rw (e, make_room)

-- one round of the loop that makes room
place_moves :
    (k : ℕ) (c : Candidate) (cands : List Candidate)
    → ltb (get_or cands k no_candidate).score c.score ≡ true
    → place (suc k) c cands ≡ place k c (set cands (suc k) (get_or cands k no_candidate))
unfolding place
place_moves k c cands e = ap (λ r. set r.1 r.0 c) (room_moves k cands c.score e)

place_stops :
    (k : ℕ) (c : Candidate) (cands : List Candidate)
    → ltb (get_or cands k no_candidate).score c.score ≡ false
    → place (suc k) c cands ≡ set cands (suc k) c
unfolding place
place_stops k c cands e = ap (λ r. set r.1 r.0 c) (room_stops k cands c.score e)

place_here : (c : Candidate) (cands : List Candidate) → place 0 c cands ≡ set cands 0 c
unfolding place make_room
place_here c cands = refl

pub length-place :
    (k : ℕ) (c : Candidate) (cands : List Candidate) → length (place k c cands) ≡ length cands
length-place zero c cands = ap length (place_here c cands) ∙ length-set cands 0 c
length-place (suc k) c cands =
    let y = get_or cands k no_candidate in
    elim (Bool-cases (ltb y.score c.score)) [
      | inl e ↦
          ap length (place_moves k c cands e)
          ∙ length-place k c (set cands (suc k) y)
          ∙ length-set cands (suc k) y
      | inr e ↦ ap length (place_stops k c cands e) ∙ length-set cands (suc k) c
    ]

-- Nothing behind the slot changes.
place_later :
    (k : ℕ) (c : Candidate) (cands : List Candidate) (j : ℕ)
    → k < j
    → get_or (place k c cands) j no_candidate ≡ get_or cands j no_candidate
place_later zero c cands j h =
    ap (λ l. get_or l j no_candidate) (place_here c cands)
    ∙ get_or-set_later cands 0 c no_candidate j h
place_later (suc k) c cands j h =
    let y = get_or cands k no_candidate in
    elim (Bool-cases (ltb y.score c.score)) [
      | inl e ↦
          ap (λ l. get_or l j no_candidate) (place_moves k c cands e)
          ∙ place_later k c (set cands (suc k) y) j (omega arith)
          ∙ get_or-set_later cands (suc k) y no_candidate j h
      | inr e ↦
          ap (λ l. get_or l j no_candidate) (place_stops k c cands e)
          ∙ get_or-set_later cands (suc k) c no_candidate j h
    ]

-- Placing a candidate is inserting it among the first `k`.
pub place-take :
    (k : ℕ) (c : Candidate) (cands : List Candidate)
    → k < length cands
    → IsDescending (take k cands)
    → take (suc k) (place k c cands) ≡ insert_desc c (take k cands)
unfolding insert_desc
place-take zero c cands lt d = ap (take 1) (place_here c cands) ∙ take-suc-set cands 0 c lt
place-take (suc k) c cands lt d =
    let y = get_or cands k no_candidate in
    let split = take-suc k cands no_candidate (omega arith) in
    let moved = set cands (suc k) y in
    elim (Bool-cases (ltb y.score c.score)) [
      | inl e ↦
          let front = take-set_later k cands (suc k) y (omega arith) in
          let before =
            subst IsDescending (sym front)
              (IsDescending-init y (take k cands) (subst IsDescending split d)) in
          let size = length-set cands (suc k) y in
          let ih = place-take k c moved (omega (arith, size)) before in
          let behind =
            place_later k c moved (suc k) (omega arith)
            ∙ get_or-set_at cands (suc k) y no_candidate lt in
          ap (take (suc (suc k))) (place_moves k c cands e)
          ∙ take-suc (suc k) (place k c moved) no_candidate
              (omega (arith, length-place k c moved, size))
          ∙ ap (λ l. l ++ get_or (place k c moved) (suc k) no_candidate ∷ [])
              (ih ∙ ap (insert_desc c) front)
          ∙ ap (λ z. insert_desc c (take k cands) ++ z ∷ []) behind
          ∙ sym (ap (insert_desc c) split ∙ insert_desc-worse c y (take k cands) e)
      | inr e ↦
          ap (take (suc (suc k))) (place_stops k c cands e)
          ∙ take-suc-set cands (suc k) c lt
          ∙ sym (
              ap (insert_desc c) split
              ∙ insert_desc-end c y (take k cands) (subst IsDescending split d) e
              ∙ ap (λ l. l ++ c ∷ []) (sym split))
    ]
