-- ===== src/Netmap/Candidates/Top.antt =====
-- Adding candidates to the table of components/tailscale/src/tailscale_netmap.c keeps the best eight.
use portable_terminal.Base.{
  ℕ, zero, suc, ◌+◌, ◌-◌, ◌≤◌, ◌<◌, ◌≡◌, refl, sym, ap, ◌∙◌, subst, true, false, List, [], ◌∷◌,
  ◌++◌, arith, length, get_or, take, ltb, leb, Bool-cases, inl, inr, length-take, take_all,
  take-length_append, min, leb→le,
}
use portable_terminal.Netmap.Candidates.{
  Candidate, CandidateTable, max_candidates, no_candidate, empty_table, place, add_candidate,
  add_candidates, used,
}
use portable_terminal.Netmap.Candidates.Best.{
  insert_desc, sort_onto, IsDescending, insert_desc-IsDescending, insert_desc-worse,
  insert_desc-end, IsDescending-take,
}
use portable_terminal.Netmap.Candidates.Table.{place-take, length-place, take-suc, take-take}

-- The table holds the first eight of `l`, which is in descending order.
pub record Holds (l : List Candidate) (t : CandidateTable) : Type 0 where
  pub size : length t.cands ≡ max_candidates
  pub count : t.cand_count ≤ max_candidates
  pub sorted : IsDescending l
  pub first : used t ≡ take max_candidates l
  pub full : t.cand_count ≡ min max_candidates (length l)

length-insert : (c : Candidate) (l : List Candidate) → length (insert_desc c l) ≡ suc (length l)
unfolding insert_desc
length-insert c [] = refl
length-insert c (y ∷ ys) = elim (Bool-cases (ltb y.score c.score)) [
  | inl e ↦ rw e
  | inr e ↦ rw e (ap suc (length-insert c ys))
]

front : (n : ℕ) (x : Candidate) (xs : List Candidate) → take n (x ∷ take n xs) ≡ take n (x ∷ xs)
front zero x xs = refl
front (suc n) x xs = ap (◌∷◌ x) (take-take n (suc n) xs (omega arith))

-- What an insertion leaves among the first `n` depends on the first `n` only.
take-insert :
    (n : ℕ) (c : Candidate) (l : List Candidate)
    → take n (insert_desc c (take n l)) ≡ take n (insert_desc c l)
unfolding insert_desc
take-insert zero c l = refl
take-insert (suc n) c [] = refl
take-insert (suc n) c (x ∷ xs) = elim (Bool-cases (ltb x.score c.score)) [
  | inl e ↦ rw e (ap (◌∷◌ c) (front n x xs))
  | inr e ↦ rw e (ap (◌∷◌ x) (take-insert n c xs))
]

not-leb→lt : (a b : ℕ) → leb a b ≡ false → b < a
not-leb→lt a b h = ground arith

not_above : (y c : ℕ) → c ≤ y → ltb y c ≡ false
not_above y c h = ground arith

is_above : (y c : ℕ) → y < c → ltb y c ≡ true
is_above y c h = ground arith

below_max :
    (c : Candidate) (l : List Candidate)
    → length l ≡ max_candidates
    → IsDescending l
    → leb c.score (get_or l (max_candidates - 1) no_candidate).score ≡ true
    → take max_candidates (insert_desc c l) ≡ l
below_max c l size d e =
    let y = get_or l 7 no_candidate in
    let whole = sym (take_all 8 l (omega (arith, size))) in
    let split = whole ∙ take-suc 7 l no_candidate (omega (arith, size)) in
    let low : ltb y.score c.score ≡ false = not_above y.score c.score (leb→le c.score y.score e) in
    let at_end =
      ap (insert_desc c) split
      ∙ insert_desc-end c y (take 7 l) (subst IsDescending split d) low
      ∙ ap (λ z. z ++ c ∷ []) (sym split) in
    ap (take 8) at_end ∙ ap (λ n. take n (l ++ c ∷ [])) (sym size) ∙ take-length_append l (c ∷ [])

above_max :
    (c : Candidate) (l : List Candidate)
    → length l ≡ max_candidates
    → leb c.score (get_or l (max_candidates - 1) no_candidate).score ≡ false
    → take max_candidates (insert_desc c l) ≡ insert_desc c (take (max_candidates - 1) l)
above_max c l size e =
    let y = get_or l 7 no_candidate in
    let whole = sym (take_all 8 l (omega (arith, size))) in
    let split = whole ∙ take-suc 7 l no_candidate (omega (arith, size)) in
    let high : ltb y.score c.score ≡ true =
      is_above y.score c.score (not-leb→lt c.score y.score e) in
    let better = insert_desc c (take 7 l) in
    let eight : length better ≡ 8 =
      omega (arith, length-insert c (take 7 l), length-take 7 l, size) in
    ap (λ z. take 8 (insert_desc c z)) split
    ∙ ap (take 8) (insert_desc-worse c y (take 7 l) high)
    ∙ ap (λ n. take n (better ++ y ∷ [])) (sym eight)
    ∙ take-length_append better (y ∷ [])

added_room :
    (c : Candidate) (t : CandidateTable)
    → leb max_candidates t.cand_count ≡ false
    → add_candidate c t
      ≡ record t { cands = place t.cand_count c t.cands; cand_count = t.cand_count + 1 }
unfolding add_candidate
added_room c t e = simp e

added_worse :
    (c : Candidate) (t : CandidateTable)
    → leb max_candidates t.cand_count ≡ true
    → leb c.score (get_or t.cands (max_candidates - 1) no_candidate).score ≡ true
    → add_candidate c t ≡ t
unfolding add_candidate
added_worse c t e g = simp (e, g)

added_better :
    (c : Candidate) (t : CandidateTable)
    → leb max_candidates t.cand_count ≡ true
    → leb c.score (get_or t.cands (max_candidates - 1) no_candidate).score ≡ false
    → add_candidate c t ≡ record t { cands = place (max_candidates - 1) c t.cands }
unfolding add_candidate
added_better c t e g = simp (e, g)

room_left :
    (c : Candidate) (l : List Candidate) (t : CandidateTable)
    → t.cand_count < max_candidates
    → Holds l t
    → Holds
        (insert_desc c l)
        (record t { cands = place t.cand_count c t.cands; cand_count = t.cand_count + 1 })
room_left c l t lt h =
    let grown = length-insert c l in
    let few : length l ≤ 7 = omega (arith, h.full, lt) in
    let one_more : t.cand_count + 1 ≡ suc t.cand_count = omega arith in
    let whole : used t ≡ l = h.first ∙ take_all 8 l (omega (arith, few)) in
    let sorted = subst IsDescending (sym whole) h.sorted in
    record {
      size = length-place t.cand_count c t.cands ∙ h.size;
      count = omega (arith, lt);
      sorted = insert_desc-IsDescending c l h.sorted;
      first =
          ap (λ n. take n (place t.cand_count c t.cands)) one_more
          ∙ place-take t.cand_count c t.cands (omega (arith, lt, h.size)) sorted
          ∙ ap (insert_desc c) whole
          ∙ sym (take_all 8 (insert_desc c l) (omega (arith, grown, few)));
      full = omega (arith, grown, h.full, lt);
    }

full_table :
    (l : List Candidate) (t : CandidateTable)
    → t.cand_count ≡ max_candidates
    → Holds l t
    → (take max_candidates l ≡ t.cands) × IsDescending t.cands
full_table l t e h =
    let whole =
      sym h.first ∙ ap (λ n. take n t.cands) e ∙ take_all 8 t.cands (omega (arith, h.size)) in
    (whole, subst IsDescending whole (IsDescending-take 8 l h.sorted))

no_room :
    (c : Candidate) (l : List Candidate) (t t' : CandidateTable)
    → t.cand_count ≡ max_candidates
    → Holds l t
    → length t'.cands ≡ max_candidates
    → t'.cand_count ≡ max_candidates
    → take max_candidates t'.cands ≡ take max_candidates (insert_desc c t.cands)
    → Holds (insert_desc c l) t'
no_room c l t t' e h size count new =
    let (whole, _) = full_table l t e h in
    record {
      size = size;
      count = omega (arith, count);
      sorted = insert_desc-IsDescending c l h.sorted;
      first =
          ap (λ n. take n t'.cands) count
          ∙ new
          ∙ sym (ap (λ z. take 8 (insert_desc c z)) whole)
          ∙ take-insert 8 c l;
      full = omega (arith, count, h.full, e, length-insert c l);
    }

-- One more candidate: the table then holds the first eight of the list with the candidate put in.
add_candidate-Holds :
    (c : Candidate) (l : List Candidate) (t : CandidateTable)
    → Holds l t
    → Holds (insert_desc c l) (add_candidate c t)
add_candidate-Holds c l t h = elim (Bool-cases (leb max_candidates t.cand_count)) [
  | inr room ↦
      subst (λ r. Holds (insert_desc c l) r) (sym (added_room c t room))
        (room_left c l t (not-leb→lt 8 t.cand_count room) h)
  | inl is_full ↦
      let eight : t.cand_count ≡ 8 = omega (arith, leb→le 8 t.cand_count is_full, h.count) in
      let (_, sorted) = full_table l t eight h in
      let last = get_or t.cands 7 no_candidate in
      let all = take_all 8 t.cands (omega (arith, h.size)) in
      elim (Bool-cases (leb c.score last.score)) [
        | inl worse ↦
            subst (λ r. Holds (insert_desc c l) r) (sym (added_worse c t is_full worse))
              (no_room c l t t eight h h.size eight
                (all ∙ sym (below_max c t.cands h.size sorted worse)))
        | inr better ↦
            let new = place 7 c t.cands in
            let front = subst IsDescending (sym all) sorted in
            subst (λ r. Holds (insert_desc c l) r) (sym (added_better c t is_full better))
              (no_room c l t (record t { cands = new }) eight h (length-place 7 c t.cands ∙ h.size)
                eight
                (place-take 7 c t.cands (omega (arith, h.size)) (IsDescending-take 7 t.cands sorted)
                  ∙ sym (above_max c t.cands h.size better)))
      ]
]

add_candidates-Holds :
    (cs l : List Candidate) (t : CandidateTable)
    → Holds l t
    → Holds (sort_onto cs l) (add_candidates cs t)
unfolding sort_onto add_candidates
add_candidates-Holds [] l t h = h
add_candidates-Holds (c ∷ cs) l t h =
    add_candidates-Holds cs (insert_desc c l) (add_candidate c t) (add_candidate-Holds c l t h)

empty_table-Holds : Holds [] empty_table
unfolding IsDescending
empty_table-Holds = record {
  size = refl;
  count = omega arith;
  sorted = omega arith;
  first = refl;
  full = refl;
}

-- After any number of candidates the table holds the first eight of them in descending order of their
-- scores, those of one score in the order in which they came; and it is in that order itself.
pub add_candidates-best :
    (cs : List Candidate)
    → (used (add_candidates cs empty_table) ≡ take max_candidates (sort_onto cs []))
      × IsDescending (used (add_candidates cs empty_table))
add_candidates-best cs =
    let h = add_candidates-Holds cs [] empty_table empty_table-Holds in
    (h.first, subst IsDescending (sym h.first) (IsDescending-take 8 (sort_onto cs []) h.sorted))
