-- ===== src/Netmap/Candidates/Best.antt =====
-- The candidate table of components/tailscale/src/tailscale_netmap.c is to hold: the
-- stable sort of the candidates by score.
use portable_terminal.Base.{
  ℕ, zero, suc, ◌≤◌, ◌≡◌, ap, true, false, List, [], ◌∷◌, ◌++◌, arith, take, ltb, if◌then◌else◌,
  Bool-cases, inl, inr, ltb→lt, not-ltb→le,
}
use portable_terminal.Netmap.Candidates.{Candidate}

-- Behind every candidate that is at least as good, before every other.
unfoldable pub insert_desc : Candidate → List Candidate → List Candidate
insert_desc c [] = c ∷ []
insert_desc c (y ∷ ys) =
    let rest = insert_desc c ys in if ltb y.score c.score then c ∷ y ∷ ys else y ∷ rest

-- the stable sort by descending score
unfoldable pub sort_onto : List Candidate → List Candidate → List Candidate
sort_onto [] l = l
sort_onto (c ∷ cs) l = sort_onto cs (insert_desc c l)

unfoldable pub AllAtMost : ℕ → List Candidate → Type 0
AllAtMost b [] = 0 ≤ b
AllAtMost b (x ∷ xs) = (x.score ≤ b) × AllAtMost b xs

-- descending scores
unfoldable pub IsDescending : List Candidate → Type 0
unfolding AllAtMost
IsDescending [] = 0 ≤ 0
IsDescending (x ∷ xs) = AllAtMost x.score xs × IsDescending xs

AllAtMost-insert :
    (b : ℕ) (c : Candidate) (l : List Candidate)
    → c.score ≤ b
    → AllAtMost b l
    → AllAtMost b (insert_desc c l)
unfolding AllAtMost insert_desc
AllAtMost-insert b c [] h a = (h, omega arith)
AllAtMost-insert b c (y ∷ ys) h (first, rest) = elim (Bool-cases (ltb y.score c.score)) [
  | inl e ↦ rw e (h, (first, rest))
  | inr e ↦ rw e (first, AllAtMost-insert b c ys h rest)
]

AllAtMost-le : (a b : ℕ) (l : List Candidate) → a ≤ b → AllAtMost a l → AllAtMost b l
unfolding AllAtMost
AllAtMost-le a b [] h r = omega arith
AllAtMost-le a b (x ∷ xs) h (first, rest) = (omega (arith, first), AllAtMost-le a b xs h rest)

pub insert_desc-IsDescending :
    (c : Candidate) (l : List Candidate) → IsDescending l → IsDescending (insert_desc c l)
unfolding AllAtMost IsDescending insert_desc
insert_desc-IsDescending c [] d = (omega arith, omega arith)
insert_desc-IsDescending c (y ∷ ys) (all, d) = elim (Bool-cases (ltb y.score c.score)) [
  | inl e ↦
      let lt = ltb→lt y.score c.score e in
      rw e ((omega (arith, lt), AllAtMost-le y.score c.score ys (omega (arith, lt)) all), (all, d))
  | inr e ↦ rw e (
    AllAtMost-insert y.score c ys (not-ltb→le y.score c.score e) all,
    insert_desc-IsDescending c ys d,
  )
]

-- A worse candidate at the end stays there.
pub insert_desc-worse :
    (c y : Candidate) (l : List Candidate)
    → ltb y.score c.score ≡ true
    → insert_desc c (l ++ y ∷ []) ≡ insert_desc c l ++ y ∷ []
unfolding insert_desc
insert_desc-worse c y [] e = rw e
insert_desc-worse c y (x ∷ xs) e = elim (Bool-cases (ltb x.score c.score)) [
  | inl g ↦ rw g
  | inr g ↦ rw g (ap (◌∷◌ x) (insert_desc-worse c y xs e))
]

AllAtMost-end :
    (b : ℕ) (y : Candidate) (l : List Candidate) → AllAtMost b (l ++ y ∷ []) → y.score ≤ b
unfolding AllAtMost
AllAtMost-end b y [] (h, _) = h
AllAtMost-end b y (x ∷ xs) (_, h) = AllAtMost-end b y xs h

not_below : (x y c : ℕ) → y ≤ x → c ≤ y → ltb x c ≡ false
not_below x y c h g = ground arith

-- Behind a last candidate that is at least as good, the new one is last.
pub insert_desc-end :
    (c y : Candidate) (l : List Candidate)
    → IsDescending (l ++ y ∷ [])
    → ltb y.score c.score ≡ false
    → insert_desc c (l ++ y ∷ []) ≡ (l ++ y ∷ []) ++ c ∷ []
unfolding insert_desc IsDescending
insert_desc-end c y [] d e = rw e
insert_desc-end c y (x ∷ xs) (all, d) e =
    let above = AllAtMost-end x.score y xs all in
    let low = not-ltb→le y.score c.score e in
    let g : ltb x.score c.score ≡ false = not_below x.score y.score c.score above low in
    rw g (ap (◌∷◌ x) (insert_desc-end c y xs d e))

AllAtMost-take : (b n : ℕ) (l : List Candidate) → AllAtMost b l → AllAtMost b (take n l)
unfolding AllAtMost
AllAtMost-take b zero l h = omega arith
AllAtMost-take b (suc n) [] h = omega arith
AllAtMost-take b (suc n) (x ∷ xs) (first, h) = (first, AllAtMost-take b n xs h)

pub IsDescending-take : (n : ℕ) (l : List Candidate) → IsDescending l → IsDescending (take n l)
unfolding IsDescending AllAtMost
IsDescending-take zero l d = omega arith
IsDescending-take (suc n) [] d = omega arith
IsDescending-take (suc n) (x ∷ xs) (all, d) =
    (AllAtMost-take x.score n xs all, IsDescending-take n xs d)

AllAtMost-init :
    (b : ℕ) (y : Candidate) (l : List Candidate) → AllAtMost b (l ++ y ∷ []) → AllAtMost b l
unfolding AllAtMost
AllAtMost-init b y [] h = omega arith
AllAtMost-init b y (x ∷ xs) (first, h) = (first, AllAtMost-init b y xs h)

pub IsDescending-init :
    (y : Candidate) (l : List Candidate) → IsDescending (l ++ y ∷ []) → IsDescending l
unfolding IsDescending
IsDescending-init y [] d = omega arith
IsDescending-init y (x ∷ xs) (all, d) = (AllAtMost-init x.score y xs all, IsDescending-init y xs d)
