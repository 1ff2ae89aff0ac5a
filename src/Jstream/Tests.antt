-- ===== src/Jstream/Tests.antt =====
-- The parser on concrete texts.
use portable_terminal.Base.{◌≡◌, refl, false, some, [], ◌∷◌, Bytes, length, replicate}
use portable_terminal.Jstream.{
  Js, JsEvent, init, next, skip_ws, skip_separators, open_scope, read_element, next_element,
  max_depth,
}
use portable_terminal.Jstream.Progress.{Advances, next-Advances}
use portable_terminal.Jstream.Scope.{IsScoped, StepsBy, next-StepsBy, next-IsScoped, init-IsScoped}
use portable_terminal.Jstream.Skip.{skip, SkipsTo, skip-SkipsTo}

-- [["a"],2]
abbrev text : Bytes
text = b'[' ∷ b'[' ∷ b'"' ∷ b'a' ∷ b'"' ∷ b']' ∷ b',' ∷ b'2' ∷ b']' ∷ []

next-Advances_example : Advances (init text).input (next (init text))
next-Advances_example = next-Advances (init text)

next-StepsBy_example : StepsBy (init text) (next (init text))
next-StepsBy_example = next-StepsBy (init text) (init-IsScoped text)

next-IsScoped_example : IsScoped (next (init text)).0
next-IsScoped_example = next-IsScoped (init text) (init-IsScoped text)

skip-SkipsTo_example :
    (r : Js × JsEvent) × (skip (length (init text).input) (init text) ≡ some r)
    × SkipsTo (init text).depth (init text).input r
unfolding init next skip_ws skip_separators next_element read_element open_scope
skip-SkipsTo_example = skip-SkipsTo (init text) (init-IsScoped text) refl

-- a parser whose token is `ab` in front of a quote
abbrev at_token : Js
at_token = record {
  input = b',' ∷ [];
  tok = b'a' ∷ b'b' ∷ b'"' ∷ b',' ∷ [];
  tok_len = 2;
  bool_value = false;
  scope = replicate max_depth 0;
  depth = 0;
  expect_key = false;
}

-- a parser whose token is `a\n` with the escape
abbrev at_escape : Js
at_escape = record at_token { tok = b'a' ∷ 92 ∷ b'n' ∷ b'"' ∷ []; tok_len = 3 }
