-- ===== src/Telnet/Escaping.antt =====
-- What `telnet_task` sends, read by a filter at the other end.
use portable_terminal.Base.{
  ℕ, ◌≡◌, refl, sym, ap, ◌∙◌, true, List, [], ◌∷◌, ◌++◌, Bytes, map, ◌==◌, if-true, if-false,
  Bool-cases, ==_iff, inl, inr,
}
use portable_terminal.Telnet.{iac, in_data, Session, escape_tx}
use portable_terminal.Telnet.Chunks.{joined, receive_all}
use portable_terminal.Telnet.Requests.{byte, item_bytes, stream_bytes, IsStream, text_of, answers}
use portable_terminal.Telnet.Streams.{receive_all-stream}

stream_bytes-escaped : (bs : Bytes) → escape_tx bs ≡ stream_bytes (map byte bs)
unfolding stream_bytes item_bytes escape_tx
stream_bytes-escaped [] = refl
stream_bytes-escaped (b ∷ bs) = elim (Bool-cases (b == iac)) [
  | inl e ↦
      let same : b ≡ iac = (==_iff b iac).0 e in
      if-true _ _ e
      ∙ ap (λ x. x ∷ iac ∷ escape_tx bs) same
      ∙ ap (λ xs. iac ∷ iac ∷ xs) (stream_bytes-escaped bs)
      ∙ sym (ap (λ xs. xs ++ stream_bytes (map byte bs)) (if-true (iac ∷ iac ∷ []) (b ∷ []) e))
  | inr e ↦
      if-false _ _ e
      ∙ ap (λ xs. b ∷ xs) (stream_bytes-escaped bs)
      ∙ sym (ap (λ xs. xs ++ stream_bytes (map byte bs)) (if-false (iac ∷ iac ∷ []) (b ∷ []) e))
]

IsStream-text : (bs : Bytes) → IsStream (map byte bs)
IsStream-text [] = tt
IsStream-text (b ∷ bs) = (tt, IsStream-text bs)

text_of-text : (bs : Bytes) → text_of (map byte bs) ≡ bs
unfolding text_of
text_of-text [] = refl
text_of-text (b ∷ bs) = ap (λ t. b ∷ t) (text_of-text bs)

answers-text : (c r : ℕ) (bs : Bytes) → answers c r (map byte bs) ≡ []
unfolding answers
answers-text c r [] = refl
answers-text c r (b ∷ bs) = answers-text c r bs

-- Any bytes that `telnet_task` escapes and sends come out of the filter of another end at rest as
-- they were, however they are cut up on the way; that end answers nothing and is at rest again.
pub receive_all-escape_tx :
    (bs : Bytes) (chunks : List Bytes) (s : Session)
    → s.pstate ≡ in_data
    → joined chunks ≡ escape_tx bs
    → let out = receive_all true chunks s in
      (out.1.0 ≡ bs) × (out.1.1 ≡ []) × (out.0.pstate ≡ in_data)
receive_all-escape_tx bs chunks s rest cut =
    let read =
      receive_all-stream (map byte bs) chunks s (IsStream-text bs) rest
        (cut ∙ stream_bytes-escaped bs) in
    (read.0 ∙ text_of-text bs, read.1 ∙ answers-text s.cols s.rows bs, read.2)
