-- ===== src/Jstream.antt =====
-- components/tailscale/src/tailscale_jstream.c: the streaming JSON parser. The buffer from `p` to
-- `end` is the list `input`, so a read at `p` is its head and `p++` its tail; `tok` is the buffer from
-- that pointer on, so the token is its first `tok_len` bytes. A loop over the buffer recurs on it.
pub mod Tails
pub mod Progress
pub mod Scope
pub mod Skip
pub mod Token
mod Tests
use portable_terminal.Base.{
  ℕ, zero, suc, ◌+◌, ◌-◌, Bool, true, false, not, ◌&&◌, ◌||◌, Option, none, some, List, [], ◌∷◌,
  ◌++◌, Bytes, length, get_or, set, take, drop, ltb, leb, ◌==◌, if◌then◌else◌, bytes_eq, replicate,
}

-- `TS_JS_MAX_DEPTH`
abbrev pub max_depth : ℕ
max_depth = 32

-- `ts_js_evt_t`
pub data JsEvent : Type 0 where
  js_none obj_start obj_end arr_start arr_end : JsEvent
  key string number bool null : JsEvent
  js_end js_error : JsEvent

-- `ts_js_t`
pub record Js : Type 0 where
  pub input : Bytes
  pub tok : Bytes
  pub tok_len : ℕ
  pub bool_value : Bool
  pub scope : Bytes
  pub depth : ℕ
  pub expect_key : Bool

-- `ts_js_init`
unfoldable pub init : Bytes → Js
init text = record {
  input = text;
  tok = [];
  tok_len = 0;
  bool_value = false;
  scope = replicate max_depth 0;
  depth = 0;
  expect_key = false;
}

abbrev pub is_ws : ℕ → Bool
is_ws c = c == b' ' || c == b'\t' || c == b'\n' || c == 13

-- `skip_ws`, on the buffer
unfoldable pub skip_ws : Bytes → Bytes
skip_ws [] = []
skip_ws (c ∷ cs) = let rest = skip_ws cs in if is_ws c then rest else c ∷ cs

-- The scan of `parse_string` up to the closing quote: how many bytes it passes over, whether it finds
-- the quote, and the buffer from where it stops, behind the quote if there is one.
pub record Scanned : Type 0 where
  pub passed : ℕ
  pub closed : Bool
  pub rest : Bytes

abbrev pub pass : ℕ → Scanned → Scanned
pass n s = record s { passed = n + s.passed }

unfoldable pub scan_string : Bytes → Scanned
scan_string [] = record { passed = 0; closed = false; rest = [] }
scan_string (c ∷ []) =
    if c == b'"'
    then record { passed = 0; closed = true; rest = [] }
    else if c == b'\\'
    then record { passed = 0; closed = false; rest = c ∷ [] }
    else record { passed = 1; closed = false; rest = [] }
scan_string (c ∷ d ∷ cs) = elim (c == b'"') [
  | true ↦ record { passed = 0; closed = true; rest = d ∷ cs }
  | false ↦ elim (c == b'\\') [
    | true ↦ pass 2 (scan_string cs)
    | false ↦ pass 1 (scan_string (d ∷ cs))
  ]
]

-- the end of `parse_string`, at `j->p`
unfoldable pub end_string : Js → Scanned → JsEvent → Js × JsEvent
end_string j s evt =
    if s.closed
    then (record j { input = s.rest; tok = j.input; tok_len = s.passed }, evt)
    else (record j { input = s.rest; tok = j.input }, js_error)

unfoldable pub parse_string : Js → JsEvent → Js × JsEvent
parse_string j evt = end_string j (scan_string j.input) evt

abbrev pub is_digit : ℕ → Bool
is_digit c = leb b'0' c && leb c b'9'

abbrev pub is_number_char : ℕ → Bool
is_number_char c = is_digit c || c == b'.' || c == b'e' || c == b'E' || c == b'+' || c == b'-'

-- the loop of `parse_number`: the count of its rounds
unfoldable pub number_run : Bytes → ℕ
number_run [] = 0
number_run (c ∷ cs) = let n = number_run cs in if is_number_char c then suc n else 0

-- the sign, then the loop
unfoldable pub number_length : Bytes → ℕ
number_length [] = 0
number_length (c ∷ cs) = if c == b'-' || c == b'+' then suc (number_run cs) else number_run (c ∷ cs)

unfoldable pub parse_number : Js → Js × JsEvent
parse_number j =
    let n = number_length j.input in
    (
      record j { input = drop n j.input; tok = j.input; tok_len = n },
      if ltb 0 n then number else js_error,
    )

unfoldable pub parse_literal : Js → Bytes → JsEvent → Bool → Js × JsEvent
parse_literal j lit evt bool_val =
    if ltb (length j.input) (length lit)
    then (j, js_error)
    else if not (bytes_eq (take (length lit) j.input) lit)
    then (j, js_error)
    else (record j { input = drop (length lit) j.input; bool_value = bool_val }, evt)

-- `j->depth > 0 && j->scope[j->depth - 1] == '{'`
abbrev pub in_object : Js → Bool
in_object j = ltb 0 j.depth && get_or j.scope (j.depth - 1) 0 == b'{'

-- the separators between elements, each with the white space behind it; on fuel
unfoldable pub skip_separators : ℕ → Js → Bytes → Js
skip_separators fuel j [] = record j { input = [] }
skip_separators zero j (c ∷ cs) = record j { input = c ∷ cs }
skip_separators (suc fuel) j (c ∷ cs) = elim (c == b',') [
  | true ↦
      skip_separators fuel (if in_object j then record j { expect_key = true } else j) (skip_ws cs)
  | false ↦ elim (c == b':') [
    | true ↦ skip_separators fuel j (skip_ws cs)
    | false ↦ record j { input = c ∷ cs }
  ]
]

-- `{` and `[`: the cursor stands behind the bracket
unfoldable pub open_scope : Js → ℕ → Bool → JsEvent → Js × JsEvent
open_scope j bracket expect evt = if leb max_depth j.depth then (j, js_error) else (
  record j { scope = set j.scope j.depth bracket; depth = j.depth + 1; expect_key = expect },
  evt,
)

-- `}` and `]`
unfoldable pub close_scope : Js → JsEvent → Js × JsEvent
close_scope j evt =
    if j.depth == 0
    then (j, js_error)
    else let j' = record j { depth = j.depth - 1 } in (record j' { expect_key = in_object j' }, evt)

-- what follows `parse_string` in `ts_js_next`
unfoldable pub expect_after : Bool → Js × JsEvent → Js × JsEvent
expect_after true (j, evt) = (record j { expect_key = false }, evt)
expect_after false (j, evt) =
    if in_object j then (record j { expect_key = true }, evt) else (j, evt)

-- behind the opening quote
unfoldable pub read_string : Js → Js × JsEvent
read_string j =
    let was_key = j.expect_key && in_object j in
    expect_after was_key (parse_string j (if was_key then key else string))

abbrev pub is_error : JsEvent → Bool
is_error js_error = true
is_error _ = false

-- the end of `ts_js_next`: after a value inside an object a key is expected
unfoldable pub after_value : Js × JsEvent → Js × JsEvent
after_value (j, evt) =
    if not (is_error evt) && in_object j then (record j { expect_key = true }, evt) else (j, evt)

abbrev pub lit_true : Bytes
lit_true = b't' ∷ b'r' ∷ b'u' ∷ b'e' ∷ []

abbrev pub lit_false : Bytes
lit_false = b'f' ∷ b'a' ∷ b'l' ∷ b's' ∷ b'e' ∷ []

abbrev pub lit_null : Bytes
lit_null = b'n' ∷ b'u' ∷ b'l' ∷ b'l' ∷ []

-- the rest of `ts_js_next`, at the first byte `c` of an element, with `cs` behind it
unfoldable pub read_element : Js → ℕ → Bytes → Js × JsEvent
read_element j c cs =
    let behind = record j { input = cs } in
    if c == b'{'
    then open_scope behind b'{' true obj_start
    else if c == b'}'
    then close_scope behind obj_end
    else if c == b'['
    then open_scope behind b'[' false arr_start
    else if c == b']'
    then close_scope behind arr_end
    else if c == b'"'
    then read_string behind
    else if c == b'-' || is_digit c
    then after_value (parse_number j)
    else if c == b't'
    then after_value (parse_literal j lit_true bool true)
    else if c == b'f'
    then after_value (parse_literal j lit_false bool false)
    else if c == b'n'
    then after_value (parse_literal j lit_null null false)
    else (j, js_error)

unfoldable pub next_element : Js → Bytes → Js × JsEvent
next_element j [] = (j, js_end)
next_element j (c ∷ cs) = read_element j c cs

-- `ts_js_next`
unfoldable pub next : Js → Js × JsEvent
next j =
    let start = skip_ws j.input in
    let j' = skip_separators (length start) j start in next_element j' j'.input

abbrev pub is_open : JsEvent → Bool
is_open obj_start = true
is_open arr_start = true
is_open _ = false

abbrev pub is_last : JsEvent → Bool
is_last js_end = true
is_last js_error = true
is_last _ = false
