-- ===== src/Term/Parser/Utf8.antt =====
-- The UTF-8 decoder of parser.cpp against an encoder.
use portable_terminal.Base.{
  ℕ, suc, ◌+◌, ◌-◌, ◌*◌, ◌/◌, ◌%◌, ◌^◌, ◌≤◌, ◌<◌, ◌≡◌, ◌≢◌, refl, sym, ap, ◌∙◌, true, false, ◌||◌,
  Option, none, some, List, [], ◌∷◌, ◌++◌, Bytes, arith, ltb, ◌==◌, if◌then◌else◌, if-true,
  if-false, Bool-cases, inl, inr, bit_or, bit_or-low, ◌>>=◌, bind_assoc, bind_ext,
}
use portable_terminal.Term.Parser.State.{ParserSink, Parser, ground_mode}
use portable_terminal.Term.Parser.Feed.{
  feed, feed_byte, on_mode, on_ground_byte, on_lead, on_continuation, joined_cp,
}

pub feed-append :
    {S : Type 0} (sink : ParserSink S) (xs ys : Bytes) (x : Parser × S)
    → feed sink (xs ++ ys) x ≡ (feed sink xs x >>= feed sink ys)
unfolding feed
feed-append sink [] ys x = refl
feed-append sink (b ∷ xs) ys x =
    bind_ext (feed_byte sink b x) _ _ (λ y. feed-append sink xs ys y)
    ∙ sym (bind_assoc (feed_byte sink b x) _ _)

-- between two characters
abbrev pub idle : Parser → Parser
idle p = record p { mode = ground_mode; cp = 0; cp_remaining = 0 }

-- within a character: `cp` so far, and n bytes to come
abbrev pub within : Parser → ℕ → ℕ → Parser
within p cp n = record p { mode = ground_mode; cp = cp; cp_remaining = n }

abbrev pub cont : ℕ → ℕ
cont n = 0x80 + n % 64

-- the bytes of a code point
unfoldable pub utf8 : ℕ → Bytes
utf8 cp =
    if ltb cp 0x80
    then cp ∷ []
    else if ltb cp 0x800
    then (0xC0 + cp / 64) ∷ cont cp ∷ []
    else if ltb cp 0x10000
    then (0xE0 + cp / 4096) ∷ cont (cp / 64) ∷ cont cp ∷ []
    else (0xF0 + cp / 262144) ∷ cont (cp / 4096) ∷ cont (cp / 64) ∷ cont cp ∷ []

joined_cp_lem :
    {S : Type 0} (sink : ParserSink S) (cp b : ℕ)
    → cp < 2 ^ 26
    → joined_cp sink cp b ≡ cp * 64 + b % 64
joined_cp_lem sink cp b h =
    let small : cp * 2 ^ 6 % 2 ^ 32 ≡ cp * 2 ^ 6 = omega arith in
    ap (λ (t : ℕ). bit_or t (b % 64)) small ∙ bit_or-low 6 cp (b % 64) (omega arith)

module _ {S : Type 0} (sink : ParserSink S) (p : Parser) (s : S) where
  ascii_lem :
      (b : ℕ)
      → 0x20 ≤ b
      → b < 0x7F
      → feed_byte sink b (idle p, s) ≡ (sink.put_char b s >>= λ t. some (idle p, t))
  unfolding feed_byte on_mode on_ground_byte on_lead
  ascii_lem b h h' =
      let e1 : b == 0x18 || b == 0x1A ≡ false = ground arith in
      let e2 : b == 0x1B ≡ false = ground arith in
      let e3 : b == 0x7F ≡ false = ground arith in
      let e4 : ltb b 0x20 ≡ false = ground arith in
      let e5 : ltb b 0x80 ≡ true = ground arith in
      if-false _ _ e1 ∙ if-false _ _ e2 ∙ if-false _ _ e3 ∙ if-false _ _ e4 ∙ if-true _ _ e5

  -- a byte from 0x80 on is no control
  high_lem :
      (b : ℕ) (q : Parser)
      → 0x80 ≤ b
      → feed_byte sink b (record q { mode = ground_mode }, s) ≡ (
          if ltb 0 q.cp_remaining
          then (if b / 64 == 2
              then on_continuation sink b (record q { mode = ground_mode }) s
              else on_lead sink b (record q { mode = ground_mode; cp = 0; cp_remaining = 0 }) s)
          else on_lead sink b (record q { mode = ground_mode }) s)
  unfolding feed_byte on_mode on_ground_byte
  high_lem b q h =
      let e1 : b == 0x18 || b == 0x1A ≡ false = ground arith in
      let e2 : b == 0x1B ≡ false = ground arith in
      let e3 : b == 0x7F ≡ false = ground arith in
      let e4 : ltb b 0x20 ≡ false = ground arith in
      if-false _ _ e1 ∙ if-false _ _ e2 ∙ if-false _ _ e3 ∙ if-false _ _ e4

  lead2_lem : (n : ℕ) → n < 32 → feed_byte sink (0xC0 + n) (idle p, s) ≡ some (within p n 1, s)
  unfolding on_lead
  lead2_lem n h =
      let e1 : ltb (0xC0 + n) 0x80 ≡ false = ground arith in
      let e2 : (0xC0 + n) / 32 == 6 ≡ true = ground arith in
      let low : (0xC0 + n) % 32 ≡ n = omega arith in
      high_lem (0xC0 + n) (idle p) (omega arith)
      ∙ if-false _ _ e1
      ∙ if-true _ _ e2
      ∙ ap (λ (k : ℕ). some (within p k 1, s)) low

  lead3_lem : (n : ℕ) → n < 16 → feed_byte sink (0xE0 + n) (idle p, s) ≡ some (within p n 2, s)
  unfolding on_lead
  lead3_lem n h =
      let e1 : ltb (0xE0 + n) 0x80 ≡ false = ground arith in
      let e2 : (0xE0 + n) / 32 == 6 ≡ false = ground arith in
      let e3 : (0xE0 + n) / 16 == 14 ≡ true = ground arith in
      let low : (0xE0 + n) % 16 ≡ n = omega arith in
      high_lem (0xE0 + n) (idle p) (omega arith)
      ∙ if-false _ _ e1
      ∙ if-false _ _ e2
      ∙ if-true _ _ e3
      ∙ ap (λ (k : ℕ). some (within p k 2, s)) low

  lead4_lem : (n : ℕ) → n < 8 → feed_byte sink (0xF0 + n) (idle p, s) ≡ some (within p n 3, s)
  unfolding on_lead
  lead4_lem n h =
      let e1 : ltb (0xF0 + n) 0x80 ≡ false = ground arith in
      let e2 : (0xF0 + n) / 32 == 6 ≡ false = ground arith in
      let e3 : (0xF0 + n) / 16 == 14 ≡ false = ground arith in
      let e4 : (0xF0 + n) / 8 == 30 ≡ true = ground arith in
      let low : (0xF0 + n) % 8 ≡ n = omega arith in
      high_lem (0xF0 + n) (idle p) (omega arith)
      ∙ if-false _ _ e1
      ∙ if-false _ _ e2
      ∙ if-false _ _ e3
      ∙ if-true _ _ e4
      ∙ ap (λ (k : ℕ). some (within p k 3, s)) low

  cont_lem :
      (cp n left : ℕ)
      → cp < 2 ^ 26
      → feed_byte sink (cont n) (within p cp (suc (suc left)), s)
        ≡ some (within p (cp * 64 + n % 64) (suc left), s)
  unfolding on_continuation
  cont_lem cp n left h =
      let e1 : ltb 0 (suc (suc left)) ≡ true = ground arith in
      let e2 : cont n / 64 == 2 ≡ true = ground arith in
      let e3 : suc (suc left) - 1 == 0 ≡ false = ground arith in
      let low : cont n % 64 ≡ n % 64 = omega arith in
      let fewer : suc (suc left) - 1 ≡ suc left = omega arith in
      high_lem (cont n) (within p cp (suc (suc left))) (omega arith)
      ∙ if-true _ _ e1
      ∙ if-true _ _ e2
      ∙ if-false _ _ e3
      ∙ ap (λ (k : ℕ). some (within p k (suc (suc left) - 1), s))
          (joined_cp_lem sink cp (cont n) h ∙ ap (λ (t : ℕ). cp * 64 + t) low)
      ∙ ap (λ (k : ℕ). some (within p (cp * 64 + n % 64) k, s)) fewer

  last_lem :
      (cp n : ℕ)
      → cp < 2 ^ 26
      → feed_byte sink (cont n) (within p cp 1, s)
        ≡ (sink.put_char (cp * 64 + n % 64) s >>= λ t. some (idle p, t))
  unfolding on_continuation
  last_lem cp n h =
      let e2 : cont n / 64 == 2 ≡ true = ground arith in
      let low : cont n % 64 ≡ n % 64 = omega arith in
      high_lem (cont n) (within p cp 1) (omega arith)
      ∙ if-true _ _ e2
      ∙ ap (λ (k : ℕ). sink.put_char k s >>= λ t. some (idle p, t))
          (joined_cp_lem sink cp (cont n) h ∙ ap (λ (t : ℕ). cp * 64 + t) low)

  end_lem : (m : Option (Parser × S)) → (m >>= feed sink []) ≡ m
  unfolding feed
  end_lem none = refl
  end_lem (some x) = refl

module _ {S : Type 0} (sink : ParserSink S) (p : Parser) (s : S) where
  abbrev puts : ℕ → Option (Parser × S)
  puts cp = sink.put_char cp s >>= λ t. some (idle p, t)

  last_puts :
      (cp n ch : ℕ)
      → cp < 2 ^ 26
      → cp * 64 + n % 64 ≡ ch
      → feed sink (cont n ∷ []) (within p cp 1, s) ≡ puts ch
  unfolding feed
  last_puts cp n ch h e =
      ap (λ m. m >>= feed sink []) (last_lem sink p s cp n h) ∙ end_lem sink p s _ ∙ ap puts e

  cont_then :
      (cp n left ch : ℕ) (bs : Bytes)
      → cp < 2 ^ 26
      → feed sink bs (within p (cp * 64 + n % 64) (suc left), s) ≡ puts ch
      → feed sink (cont n ∷ bs) (within p cp (suc (suc left)), s) ≡ puts ch
  unfolding feed
  cont_then cp n left ch bs h e = ap (λ m. m >>= feed sink bs) (cont_lem sink p s cp n left h) ∙ e

  -- A character that is no control, in UTF-8, is put on the sink, and the parser is between two
  -- characters again.
  pub feed-utf8 :
      (cp : ℕ) → 0x20 ≤ cp → cp ≢ 0x7F → cp < 0x200000 → feed sink (utf8 cp) (idle p, s) ≡ puts cp
  unfolding feed utf8
  feed-utf8 cp low ne high = elim (Bool-cases (ltb cp 0x80)) [
    | inl one ↦
        ap (λ bs. feed sink bs (idle p, s)) (if-true _ _ one)
        ∙ ap (λ m. m >>= feed sink []) (ascii_lem sink p s cp low (ground arith))
        ∙ end_lem sink p s _
    | inr more ↦ elim (Bool-cases (ltb cp 0x800)) [
      | inl two ↦
          ap (λ bs. feed sink bs (idle p, s)) (if-false _ _ more ∙ if-true _ _ two)
          ∙ ap (λ m. m >>= feed sink (cont cp ∷ [])) (lead2_lem sink p s (cp / 64) (ground arith))
          ∙ last_puts (cp / 64) cp cp (ground arith) (omega arith)
      | inr more' ↦ elim (Bool-cases (ltb cp 0x10000)) [
        | inl three ↦
            ap (λ bs. feed sink bs (idle p, s))
              (if-false _ _ more ∙ if-false _ _ more' ∙ if-true _ _ three)
            ∙ ap (λ m. m >>= feed sink (cont (cp / 64) ∷ cont cp ∷ []))
                (lead3_lem sink p s (cp / 4096) (ground arith))
            ∙ cont_then (cp / 4096) (cp / 64) 0 cp (cont cp ∷ []) (ground arith)
                (last_puts (cp / 4096 * 64 + cp / 64 % 64) cp cp (ground arith) (omega arith))
        | inr four ↦
            ap (λ bs. feed sink bs (idle p, s))
              (if-false _ _ more ∙ if-false _ _ more' ∙ if-false _ _ four)
            ∙ ap (λ m. m >>= feed sink (cont (cp / 4096) ∷ cont (cp / 64) ∷ cont cp ∷ []))
                (lead4_lem sink p s (cp / 262144) (ground arith))
            ∙ cont_then (cp / 262144) (cp / 4096) 1 cp (cont (cp / 64) ∷ cont cp ∷ []) (omega arith)
                (cont_then (cp / 262144 * 64 + cp / 4096 % 64) (cp / 64) 0 cp (cont cp ∷ [])
                  (omega arith)
                  (last_puts ((cp / 262144 * 64 + cp / 4096 % 64) * 64 + cp / 64 % 64) cp cp
                    (omega arith) (omega arith)))
      ]
    ]
  ]

-- a code point of up to four bytes that is no control
abbrev pub IsPrintable : ℕ → Type 0
IsPrintable cp = (0x20 ≤ cp) × (cp ≢ 0x7F) × (cp < 0x200000)

abbrev pub AllPrintable : List ℕ → Type 0
AllPrintable [] = Unit {0}
AllPrintable (cp ∷ cps) = IsPrintable cp × AllPrintable cps

unfoldable pub utf8_text : List ℕ → Bytes
utf8_text [] = []
utf8_text (cp ∷ cps) = utf8 cp ++ utf8_text cps

unfoldable pub put_text : {S : Type 0} → ParserSink S → List ℕ → S → Option S
put_text sink [] s = some s
put_text sink (cp ∷ cps) s = sink.put_char cp s >>= put_text sink cps

-- A text without controls, in UTF-8, is put on the sink character by character, and the parser is
-- between two characters again.
pub feed-utf8_text :
    {S : Type 0} (sink : ParserSink S) (cps : List ℕ) (p : Parser) (s : S)
    → AllPrintable cps
    → feed sink (utf8_text cps) (idle p, s) ≡ (put_text sink cps s >>= λ t. some (idle p, t))
unfolding utf8_text put_text feed
feed-utf8_text sink [] p s h = refl
feed-utf8_text sink (cp ∷ cps) p s ((low, ne, high), h) =
    feed-append sink (utf8 cp) (utf8_text cps) (idle p, s)
    ∙ ap (λ m. m >>= feed sink (utf8_text cps)) (feed-utf8 sink p s cp low ne high)
    ∙ bind_assoc (sink.put_char cp s) _ _
    ∙ bind_ext (sink.put_char cp s) _ _ (λ t. feed-utf8_text sink cps p t h)
    ∙ sym (bind_assoc (sink.put_char cp s) _ _)
