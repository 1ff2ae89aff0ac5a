-- ===== src/Jstream/Tails.antt =====
-- What the scans of the parser take of the buffer: a part at its start.
use portable_terminal.Base.{
  ℕ, zero, suc, ◌+◌, ◌≤◌, ◌<◌, ◌≡◌, refl, true, [], ◌∷◌, ◌++◌, Bytes, arith, length, ◌==◌,
  if◌then◌else◌, Bool-cases, inl, inr, IsTail, IsTail-refl, IsTail-trans, IsTail-cons,
  length-append,
}
use portable_terminal.Jstream.{
  Js, is_ws, skip_ws, Scanned, scan_string, number_run, number_length, in_object, skip_separators,
}

pub skip_ws-IsTail : (cs : Bytes) → IsTail (skip_ws cs) cs
unfolding skip_ws
skip_ws-IsTail [] = IsTail-refl []
skip_ws-IsTail (c ∷ cs) = elim (Bool-cases (is_ws c)) [
  | inl ws ↦ rw ws (IsTail-cons c (skip_ws cs) cs (skip_ws-IsTail cs))
  | inr other ↦ rw other (IsTail-refl (c ∷ cs))
]

pub skip_separators-IsTail :
    (fuel : ℕ) (j : Js) (cs : Bytes) → IsTail (skip_separators fuel j cs).input cs
unfolding skip_separators
skip_separators-IsTail fuel j [] = IsTail-refl []
skip_separators-IsTail zero j (c ∷ cs) = IsTail-refl (c ∷ cs)
skip_separators-IsTail (suc fuel) j (c ∷ cs) = elim (Bool-cases (c == b',')) [
  | inl comma ↦
      let j' : Js = if in_object j then record j { expect_key = true } else j in
      rw (comma, skip_separators) (past (skip_separators-IsTail fuel j' (skip_ws cs)))
  | inr plain ↦ elim (Bool-cases (c == b':')) [
    | inl colon ↦
        rw (plain, colon, skip_separators) (past (skip_separators-IsTail fuel j (skip_ws cs)))
    | inr other ↦ rw (plain, other, skip_separators) (IsTail-refl (c ∷ cs))
  ]
]
  where
    past : {xs : Bytes} → IsTail xs (skip_ws cs) → IsTail xs (c ∷ cs)
    past {xs} t = IsTail-cons c xs cs (IsTail-trans xs (skip_ws cs) cs t (skip_ws-IsTail cs))

-- The scan of a string passes over a part of the buffer, and takes one byte more for the quote.
pub record Scans (cs : Bytes) (s : Scanned) : Type 0 where
  pub tail : IsTail s.rest cs
  pub passed_le : s.passed ≤ length cs
  pub closed_lt : s.closed ≡ true → s.passed < length cs

scan-pass :
    (n : ℕ) (pre cs : Bytes) (s : Scanned)
    → length pre ≡ n
    → Scans cs s
    → Scans (pre ++ cs) (record s { passed = n + s.passed })
scan-pass n pre cs s e h = record {
  tail = IsTail-trans s.rest cs (pre ++ cs) h.tail (pre, refl);
  passed_le = omega (arith, length-append pre cs, h.passed_le);
  closed_lt = λ c. omega (arith, length-append pre cs, h.closed_lt c);
}

pub scan_string-Scans : (cs : Bytes) → Scans cs (scan_string cs)
unfolding scan_string
scan_string-Scans [] = record {
  tail = IsTail-refl [];
  passed_le = omega arith;
  closed_lt = λ c. absurd (cc);
}
scan_string-Scans (c ∷ []) = elim (Bool-cases (c == b'"')) [
  | inl quote ↦
      rw quote
        (record { tail = (c ∷ [], refl); passed_le = omega arith; closed_lt = λ _. omega arith })
  | inr plain ↦ elim (Bool-cases (c == b'\\')) [
    | inl escape ↦
        rw (plain, escape)
          (record {
            tail = IsTail-refl (c ∷ []);
            passed_le = omega arith;
            closed_lt = λ h. absurd (cc);
          })
    | inr other ↦
        rw (plain, other)
          (record { tail = (c ∷ [], refl); passed_le = omega arith; closed_lt = λ h. absurd (cc) })
  ]
]
scan_string-Scans (c ∷ d ∷ cs) = elim (Bool-cases (c == b'"')) [
  | inl quote ↦
      rw (quote, scan_string)
        (record { tail = (c ∷ [], refl); passed_le = omega arith; closed_lt = λ _. omega arith })
  | inr plain ↦ elim (Bool-cases (c == b'\\')) [
    | inl escape ↦
        rw (plain, escape, scan_string)
          (scan-pass 2 (c ∷ d ∷ []) cs (scan_string cs) refl (scan_string-Scans cs))
    | inr other ↦
        rw (plain, other, scan_string)
          (scan-pass 1 (c ∷ []) (d ∷ cs) (scan_string (d ∷ cs)) refl (scan_string-Scans (d ∷ cs)))
  ]
]

number_run-le : (cs : Bytes) → number_run cs ≤ length cs
unfolding number_run
number_run-le [] = omega arith
number_run-le (c ∷ cs) = ground (arith, number_run-le cs)

pub number_length-le : (cs : Bytes) → number_length cs ≤ length cs
unfolding number_length
number_length-le [] = omega arith
number_length-le (c ∷ cs) = ground (arith, number_run-le cs, number_run-le (c ∷ cs))
