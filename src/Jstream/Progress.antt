-- ===== src/Jstream/Progress.antt =====
-- The cursor of the parser stays in the buffer and moves on, and a token lies in the buffer.
use portable_terminal.Base.{
  ℕ, ◌≤◌, ◌<◌, ◌≡◌, refl, Bool, true, false, not, ◌&&◌, ◌||◌, [], ◌∷◌, Bytes, arith, length, take,
  ltb, leb, ◌==◌, if◌then◌else◌, bytes_eq, Bool-cases, ltb→lt, not-ltb→le, inl, inr, IsTail,
  IsTail-refl, IsTail-trans, subst, IsTail-cons, IsTail-drop, length-IsTail, length-drop,
}
use portable_terminal.Jstream.{
  Js, JsEvent, obj_start, obj_end, arr_start, arr_end, key, string, number, bool, null, js_end,
  js_error, skip_ws, Scanned, scan_string, end_string, parse_string, is_digit, number_length,
  parse_number, parse_literal, in_object, skip_separators, open_scope, close_scope, expect_after,
  read_string, after_value, read_element, next_element, next, is_last, is_error, max_depth,
}
use portable_terminal.Jstream.Tails.{
  skip_ws-IsTail, skip_separators-IsTail, Scans, scan_string-Scans, number_length-le,
}

-- What one call promises of the cursor, when the element starts with `start` in the buffer: it only
-- moves on, and it moves on by a byte or more unless the call says that this is the end or an error;
-- the bytes of a key, string or number lie in the buffer.
abbrev pub has_token : JsEvent → Bool
has_token key = true
has_token string = true
has_token number = true
has_token _ = false

pub record Advances (start : Bytes) (r : Js × JsEvent) : Type 0 where
  pub tail : IsTail r.0.input start
  pub moves : is_last r.1 ≡ false → length r.0.input < length start
  pub token_at : has_token r.1 ≡ true → IsTail r.0.tok start
  pub token_fits : has_token r.1 ≡ true → r.0.tok_len ≤ length r.0.tok

open_scope-Advances :
    (j : Js) (bracket c : ℕ) (expect : Bool) (evt : JsEvent)
    → has_token evt ≡ false
    → Advances (c ∷ j.input) (open_scope j bracket expect evt)
unfolding open_scope
open_scope-Advances j bracket c expect evt plain = elim (Bool-cases (leb max_depth j.depth)) [
  | inl full ↦ rw full (record {
    tail = (c ∷ [], refl);
    moves = λ h. absurd (cc);
    token_at = λ h. absurd (cc);
    token_fits = λ h. absurd (cc);
  })
  | inr room ↦ rw room (record {
    tail = (c ∷ [], refl);
    moves = λ h. omega arith;
    token_at = λ h. absurd (cc);
    token_fits = λ h. absurd (cc);
  })
]

close_scope-Advances :
    (j : Js) (c : ℕ) (evt : JsEvent)
    → has_token evt ≡ false
    → Advances (c ∷ j.input) (close_scope j evt)
unfolding close_scope
close_scope-Advances j c evt plain = elim (Bool-cases (j.depth == 0)) [
  | inl top ↦ rw top (record {
    tail = (c ∷ [], refl);
    moves = λ h. absurd (cc);
    token_at = λ h. absurd (cc);
    token_fits = λ h. absurd (cc);
  })
  | inr inside ↦ rw inside (record {
    tail = (c ∷ [], refl);
    moves = λ h. omega arith;
    token_at = λ h. absurd (cc);
    token_fits = λ h. absurd (cc);
  })
]

end_string-Advances :
    (j : Js) (c : ℕ) (s : Scanned) (evt : JsEvent)
    → Scans j.input s
    → Advances (c ∷ j.input) (end_string j s evt)
unfolding end_string
end_string-Advances j c s evt h = elim (Bool-cases s.closed) [
  | inl closed ↦ rw closed (record {
    tail = IsTail-cons c s.rest j.input h.tail;
    moves = λ _. omega (arith, length-IsTail h.tail);
    token_at = λ _. (c ∷ [], refl);
    token_fits = λ _. h.passed_le;
  })
  | inr open_ended ↦ rw open_ended (record {
    tail = IsTail-cons c s.rest j.input h.tail;
    moves = λ h. absurd (cc);
    token_at = λ h. absurd (cc);
    token_fits = λ h. absurd (cc);
  })
]

-- A change of the other fields keeps the promise.
Advances-expect :
    (start : Bytes) (j : Js) (evt : JsEvent) (b : Bool)
    → Advances start (j, evt)
    → Advances start (record j { expect_key = b }, evt)
Advances-expect start j evt b h = record {
  tail = h.tail;
  moves = h.moves;
  token_at = h.token_at;
  token_fits = h.token_fits;
}

expect_after-Advances :
    (start : Bytes) (was_key : Bool) (r : Js × JsEvent)
    → Advances start r
    → Advances start (expect_after was_key r)
unfolding expect_after
expect_after-Advances start true (j, evt) h = Advances-expect start j evt false h
expect_after-Advances start false (j, evt) h = elim (Bool-cases (in_object j)) [
  | inl inside ↦ rw inside (Advances-expect start j evt true h)
  | inr outside ↦ rw outside h
]

read_string-Advances : (j : Js) (c : ℕ) → Advances (c ∷ j.input) (read_string j)
unfolding read_string parse_string
read_string-Advances j c =
    expect_after-Advances (c ∷ j.input) (j.expect_key && in_object j) _
      (end_string-Advances j c (scan_string j.input) _ (scan_string-Scans j.input))

after_value-Advances :
    (start : Bytes) (r : Js × JsEvent) → Advances start r → Advances start (after_value r)
unfolding after_value
after_value-Advances start (j, evt) h = elim (Bool-cases (not (is_error evt) && in_object j)) [
  | inl inside ↦ rw inside (Advances-expect start j evt true h)
  | inr outside ↦ rw outside h
]

parse_number-Advances : (j : Js) → Advances j.input (parse_number j)
unfolding parse_number
parse_number-Advances j = elim (Bool-cases (ltb 0 (number_length j.input))) [
  | inl some_digits ↦ rw some_digits (record {
    tail = IsTail-drop (number_length j.input) j.input;
    moves = λ _. omega (
      arith,
      length-drop (number_length j.input) j.input,
      number_length-le j.input,
      ltb→lt 0 (number_length j.input) some_digits,
    );
    token_at = λ _. IsTail-refl j.input;
    token_fits = λ _. number_length-le j.input;
  })
  | inr nothing ↦ rw nothing (record {
    tail = IsTail-drop (number_length j.input) j.input;
    moves = λ h. absurd (cc);
    token_at = λ h. absurd (cc);
    token_fits = λ h. absurd (cc);
  })
]

stays :
    (j : Js) (evt : JsEvent)
    → is_last evt ≡ true
    → has_token evt ≡ false
    → Advances j.input (j, evt)
stays j evt last plain = record {
  tail = IsTail-refl j.input;
  moves = λ h. absurd (cc);
  token_at = λ h. absurd (cc);
  token_fits = λ h. absurd (cc);
}

parse_literal-Advances :
    (j : Js) (c : ℕ) (lit : Bytes) (evt : JsEvent) (b : Bool)
    → has_token evt ≡ false
    → Advances j.input (parse_literal j (c ∷ lit) evt b)
unfolding parse_literal
parse_literal-Advances j c lit evt b plain =
    elim (Bool-cases (ltb (length j.input) (length (c ∷ lit)))) [
      | inl short ↦ rw short (stays j js_error refl refl)
      | inr long ↦ elim (Bool-cases (not (bytes_eq (take (length (c ∷ lit)) j.input) (c ∷ lit)))) [
        | inl differs ↦ rw (long, differs) (stays j js_error refl refl)
        | inr same ↦
            rw (long, same)
              (record {
                tail = IsTail-drop (length (c ∷ lit)) j.input;
                moves = λ _. omega (
                  arith,
                  length-drop (length (c ∷ lit)) j.input,
                  not-ltb→le (length j.input) (length (c ∷ lit)) long,
                );
                token_at = λ h. absurd (cc);
                token_fits = λ h. absurd (cc);
              })
      ]
    ]

read_element-Advances :
    (j : Js) (c : ℕ) (cs : Bytes) → j.input ≡ c ∷ cs → Advances (c ∷ cs) (read_element j c cs)
unfolding read_element
read_element-Advances j c cs e =
    let behind : Js = record j { input = cs } in
    let here : Advances (c ∷ cs) (j, js_error) =
      subst (λ s. Advances s (j, js_error)) e (stays j js_error refl refl) in
    let at_n =
      if_Advances (c == b'n') (literal (b'u' ∷ b'l' ∷ b'l' ∷ []) b'n' null false refl) here in
    let at_f =
      if_Advances (c == b'f') (literal (b'a' ∷ b'l' ∷ b's' ∷ b'e' ∷ []) b'f' bool false refl)
        at_n in
    let at_t =
      if_Advances (c == b't') (literal (b'r' ∷ b'u' ∷ b'e' ∷ []) b't' bool true refl) at_f in
    let at_digit =
      if_Advances (c == b'-' || is_digit c)
        (after_value-Advances (c ∷ cs) (parse_number j)
          (subst (λ s. Advances s (parse_number j)) e (parse_number-Advances j)))
        at_t in
    let at_quote = if_Advances (c == b'"') (read_string-Advances behind c) at_digit in
    let at_arr_end =
      if_Advances (c == b']') (close_scope-Advances behind c arr_end refl) at_quote in
    let at_arr =
      if_Advances (c == b'[') (open_scope-Advances behind b'[' c false arr_start refl) at_arr_end in
    let at_obj_end = if_Advances (c == b'}') (close_scope-Advances behind c obj_end refl) at_arr in
    if_Advances (c == b'{') (open_scope-Advances behind b'{' c true obj_start refl) at_obj_end
  where
    if_Advances :
        (test : Bool) {r r' : Js × JsEvent}
        → Advances (c ∷ cs) r
        → Advances (c ∷ cs) r'
        → Advances (c ∷ cs) (if test then r else r')
    if_Advances true h h' = h
    if_Advances false h h' = h'

    literal :
        (lit : Bytes) (first : ℕ) (evt : JsEvent) (b : Bool)
        → has_token evt ≡ false
        → Advances (c ∷ cs) (after_value (parse_literal j (first ∷ lit) evt b))
    literal lit first evt b plain =
        after_value-Advances (c ∷ cs) (parse_literal j (first ∷ lit) evt b) (
          subst (λ s. Advances s (parse_literal j (first ∷ lit) evt b)) e
            (parse_literal-Advances j first lit evt b plain))

next_element-Advances : (j : Js) (cs : Bytes) → j.input ≡ cs → Advances cs (next_element j cs)
unfolding next_element
next_element-Advances j [] e = subst (λ s. Advances s (j, js_end)) e (stays j js_end refl refl)
next_element-Advances j (c ∷ cs) e = read_element-Advances j c cs e

Advances-IsTail :
    (start whole : Bytes) (r : Js × JsEvent)
    → IsTail start whole
    → Advances start r
    → Advances whole r
Advances-IsTail start whole r t h = record {
  tail = IsTail-trans r.0.input start whole h.tail t;
  moves = λ l. omega (arith, h.moves l, length-IsTail t);
  token_at = λ k. IsTail-trans r.0.tok start whole (h.token_at k) t;
  token_fits = h.token_fits;
}

-- Each call of `ts_js_next` leaves the cursor in the buffer, at or behind where it was, and further on
-- by a byte or more unless it reports the end or an error; the token of a key, a string or a number
-- lies in what was left of the buffer.
pub next-Advances : (j : Js) → Advances j.input (next j)
unfolding next
next-Advances j =
    let start : Bytes = skip_ws j.input in
    let j' : Js = skip_separators (length start) j start in
    Advances-IsTail j'.input j.input (next_element j' j'.input)
      (IsTail-trans j'.input start j.input (skip_separators-IsTail (length start) j start)
        (skip_ws-IsTail j.input))
      (next_element-Advances j' j'.input refl)
