-- ===== src/Telnet/Writing.antt =====
-- The loop of `write_raw`.
use portable_terminal.Base.{
  ℕ, zero, suc, ◌≤◌, ◌≡◌, refl, ap, ◌∙◌, true, some, List, [], ◌∷◌, ◌++◌, Bytes, arith, length,
  take, drop, take_append_drop, ◌>>=◌,
}
use portable_terminal.Telnet.{SendAnswer, sent, would_block, send_failed, raw_loop, write_raw}

-- the answers before an error by which the socket takes a byte or more
unfoldable pub progress : List SendAnswer → ℕ
progress [] = 0
progress (sent _ ∷ answers) = suc (progress answers)
progress (would_block ∷ answers) = progress answers
progress (send_failed ∷ _) = 0

length-drop-le : (n : ℕ) (xs : Bytes) → length (drop n xs) ≤ length xs
length-drop-le zero xs = omega arith
length-drop-le (suc n) [] = omega arith
length-drop-le (suc n) (x ∷ xs) = let ih = length-drop-le n xs in omega arith

raw_loop-all :
    (answers : List SendAnswer) (bytes : Bytes)
    → length bytes ≤ progress answers
    → raw_loop answers bytes ≡ some bytes
unfolding raw_loop progress
raw_loop-all [] [] h = refl
raw_loop-all (sent _ ∷ _) [] h = refl
raw_loop-all (would_block ∷ _) [] h = refl
raw_loop-all (send_failed ∷ _) [] h = refl
raw_loop-all [] (b ∷ bs) h = ground arith
raw_loop-all (sent n ∷ answers) (b ∷ bs) h =
    ap (λ m. m >>= λ rest. some (take (suc n) (b ∷ bs) ++ rest))
      (raw_loop-all answers (drop (suc n) (b ∷ bs))
        (let shorter = length-drop-le n bs in omega arith))
    ∙ ap some (take_append_drop (suc n) (b ∷ bs))
raw_loop-all (would_block ∷ answers) (b ∷ bs) h = raw_loop-all answers (b ∷ bs) h
raw_loop-all (send_failed ∷ answers) (b ∷ bs) h = ground arith

-- If the socket takes a byte or more at least as often as there are bytes, before it reports an
-- error, `write_raw` on an open socket ends and has written them all, however often the socket
-- would have blocked.
pub write_raw_completes :
    (answers : List SendAnswer) (bytes : Bytes)
    → length bytes ≤ progress answers
    → write_raw true answers bytes ≡ some bytes
unfolding write_raw
write_raw_completes answers bytes h = raw_loop-all answers bytes h
