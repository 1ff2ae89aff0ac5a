-- ===== src/CookedInput/Typing.antt =====
-- What is typed on a line, and what a VT100 is to get of it.
use portable_terminal.Base.{
  ℕ, ◌≡◌, ◌≢◌, sym, ap, ◌∙◌, Bool, true, false, ◌||◌, List, [], ◌∷◌, ◌++◌, Bytes, append-nil,
  append_assoc, arith, ◌==◌, if◌then◌else◌, if-false,
}
use portable_terminal.CookedInput.{cr, lf, bs, del, sp, filter_byte, filter_bytes}

-- a character, an end of line of the three kinds, an erasure of the two kinds
pub data Typed : Type 0 where
  char : ℕ → Typed
  end_cr : Typed
  end_lf : Typed
  end_crlf : Typed
  erase_bs : Typed
  erase_del : Typed

abbrev typed_bytes : Typed → Bytes
typed_bytes (char c) = c ∷ []
typed_bytes end_cr = cr ∷ []
typed_bytes end_lf = lf ∷ []
typed_bytes end_crlf = cr ∷ lf ∷ []
typed_bytes erase_bs = bs ∷ []
typed_bytes erase_del = del ∷ []

abbrev shown : Typed → Bytes
shown (char c) = c ∷ []
shown end_cr = cr ∷ lf ∷ []
shown end_lf = cr ∷ lf ∷ []
shown end_crlf = cr ∷ lf ∷ []
shown erase_bs = bs ∷ sp ∷ bs ∷ []
shown erase_del = bs ∷ sp ∷ bs ∷ []

abbrev IsChar : ℕ → Type 0
IsChar c = (c ≢ cr) × (c ≢ lf) × (c ≢ bs) × (c ≢ del)

-- A lone CR is not followed by a lone LF, which would be one end of line; the flag says that a CR
-- came before.
abbrev IsTyped : Bool → List Typed → Type 0
IsTyped after_cr [] = Unit {0}
IsTyped after_cr (char c ∷ ts) = IsChar c × IsTyped false ts
IsTyped after_cr (end_cr ∷ ts) = IsTyped true ts
IsTyped after_cr (end_lf ∷ ts) = (after_cr ≡ false) × IsTyped false ts
IsTyped after_cr (end_crlf ∷ ts) = IsTyped false ts
IsTyped after_cr (erase_bs ∷ ts) = IsTyped false ts
IsTyped after_cr (erase_del ∷ ts) = IsTyped false ts

abbrev pub all_bytes : List Typed → Bytes
all_bytes [] = []
all_bytes (t ∷ ts) = typed_bytes t ++ all_bytes ts

abbrev pub all_shown : List Typed → Bytes
all_shown [] = []
all_shown (t ∷ ts) = shown t ++ all_shown ts

-- Unless a lone LF comes behind a lone CR, characters come out as they are, every end of line, CR,
-- LF or CR LF, as CR LF, and either erasure as a step back, a blank and a step back, after what was
-- there.
pub filter_bytes_shows :
    (ts : List Typed) (after_cr : Bool) (out : Bytes)
    → IsTyped after_cr ts
    → (filter_bytes (all_bytes ts) (after_cr, out)).1 ≡ out ++ all_shown ts
unfolding filter_bytes filter_byte
filter_bytes_shows [] after_cr out v = sym (append-nil out)
filter_bytes_shows (char c ∷ ts) after_cr out v =
    let e1 : c == cr ≡ false = ground (arith, v.0) in
    let e2 : c == lf ≡ false = ground (arith, v.0) in
    let e3 : c == bs || c == del ≡ false = ground (arith, v.0) in
    ap (λ x. (filter_bytes (all_bytes ts) x).1)
      (if-false _ _ e1 ∙ if-false _ _ e2 ∙ if-false _ _ e3)
    ∙ filter_bytes_shows ts false (out ++ (c ∷ [])) v.1
    ∙ append_assoc out (c ∷ []) (all_shown ts)
filter_bytes_shows (end_cr ∷ ts) after_cr out v =
    filter_bytes_shows ts true (out ++ (cr ∷ lf ∷ [])) v
    ∙ append_assoc out (cr ∷ lf ∷ []) (all_shown ts)
filter_bytes_shows (end_lf ∷ ts) after_cr out v =
    ap
      (λ x.
        (filter_bytes (all_bytes ts)
          (if x then (false, out) else (false, out ++ (cr ∷ lf ∷ [])))).1)
      v.0
    ∙ filter_bytes_shows ts false (out ++ (cr ∷ lf ∷ [])) v.1
    ∙ append_assoc out (cr ∷ lf ∷ []) (all_shown ts)
filter_bytes_shows (end_crlf ∷ ts) after_cr out v =
    filter_bytes_shows ts false (out ++ (cr ∷ lf ∷ [])) v
    ∙ append_assoc out (cr ∷ lf ∷ []) (all_shown ts)
filter_bytes_shows (erase_bs ∷ ts) after_cr out v =
    filter_bytes_shows ts false (out ++ (bs ∷ sp ∷ bs ∷ [])) v
    ∙ append_assoc out (bs ∷ sp ∷ bs ∷ []) (all_shown ts)
filter_bytes_shows (erase_del ∷ ts) after_cr out v =
    filter_bytes_shows ts false (out ++ (bs ∷ sp ∷ bs ∷ [])) v
    ∙ append_assoc out (bs ∷ sp ∷ bs ∷ []) (all_shown ts)
