-- ===== src/Jstream/Scope.antt =====
-- The stack of open brackets that the parser keeps in `scope` and `depth`.
use portable_terminal.Base.{
  ℕ, zero, suc, ◌+◌, ◌≤◌, ◌<◌, ◌≡◌, refl, ap, ◌∙◌, Bool, true, false, ◌&&◌, ◌||◌, [], ◌∷◌, ◌++◌,
  Bytes, arith, length, set, take, leb, ◌==◌, if◌then◌else◌, Bool-cases, inl, inr, length-set,
  take-suc-set, length-replicate,
}
use portable_terminal.Jstream.{
  Js, JsEvent, obj_start, obj_end, arr_start, arr_end, key, string, bool, null, skip_ws, Scanned,
  scan_string, end_string, parse_string, is_digit, parse_number, parse_literal, in_object,
  skip_separators, open_scope, close_scope, expect_after, read_string, after_value, read_element,
  next_element, next, max_depth, lit_true, lit_false, lit_null, init,
}

-- `scope` has its 32 places, and `depth` counts those in use.
pub record IsScoped (j : Js) : Type 0 where
  pub places : length j.scope ≡ max_depth
  pub in_use : j.depth ≤ max_depth

-- How one event changes the open brackets, outermost first: an opening event puts its bracket on, a
-- closing event takes the innermost one off, and any other leaves them as they are.
abbrev pub open_brackets : Js → Bytes
open_brackets j = take j.depth j.scope

abbrev pub Same : Js → Js → Type 0
Same j j' = (j'.depth ≡ j.depth) × (j'.scope ≡ j.scope)

abbrev pub Pushes : ℕ → Js → Js → Type 0
Pushes bracket j j' =
    (j'.depth ≡ j.depth + 1)
    × (open_brackets j' ≡ open_brackets j ++ bracket ∷ [])
    × (length j'.scope ≡ length j.scope)
    × (j.depth < max_depth)

abbrev pub Pops : Js → Js → Type 0
Pops j j' = (j'.depth + 1 ≡ j.depth) × (j'.scope ≡ j.scope)

abbrev pub StackStep : JsEvent → Js → Js → Type 0
StackStep obj_start j j' = Pushes b'{' j j'
StackStep arr_start j j' = Pushes b'[' j j'
StackStep obj_end j j' = Pops j j'
StackStep arr_end j j' = Pops j j'
StackStep _ j j' = Same j j'

skip_separators-Same : (fuel : ℕ) (j : Js) (cs : Bytes) → Same j (skip_separators fuel j cs)
unfolding skip_separators
skip_separators-Same fuel j [] = (refl, refl)
skip_separators-Same zero j (c ∷ cs) = (refl, refl)
skip_separators-Same (suc fuel) j (c ∷ cs) = elim (Bool-cases (c == b',')) [
  | inl comma ↦ elim (Bool-cases (in_object j)) [
    | inl inside ↦
        rw (comma, inside, skip_separators)
          (skip_separators-Same fuel (record j { expect_key = true }) (skip_ws cs))
    | inr outside ↦ rw (comma, outside, skip_separators) (skip_separators-Same fuel j (skip_ws cs))
  ]
  | inr plain ↦ elim (Bool-cases (c == b':')) [
    | inl colon ↦ rw (plain, colon, skip_separators) (skip_separators-Same fuel j (skip_ws cs))
    | inr other ↦ rw (plain, other, skip_separators) (refl, refl)
  ]
]

-- A record, so that a call's statement keeps the call in view.
pub record StepsBy (j : Js) (r : Js × JsEvent) : Type 0 where
  pub step : StackStep r.1 j r.0

pushed :
    (j : Js) (bracket : ℕ) (b : Bool)
    → IsScoped j
    → leb max_depth j.depth ≡ false
    → Pushes bracket j
        (record j { scope = set j.scope j.depth bracket; depth = j.depth + 1; expect_key = b })
pushed j bracket b h room =
    let below : j.depth < max_depth = ground arith in
    let next : j.depth + 1 ≡ suc j.depth = omega arith in
    (
      refl,
      rw next (take-suc-set j.scope j.depth bracket (omega (arith, h.places))),
      length-set j.scope j.depth bracket,
      below,
    )

open_obj : (j : Js) → IsScoped j → StepsBy j (open_scope j b'{' true obj_start)
unfolding open_scope
open_obj j h = elim (Bool-cases (leb max_depth j.depth)) [
  | inl full ↦ rw full (record { step = (refl, refl) })
  | inr room ↦ rw room (record { step = pushed j b'{' true h room })
]

open_arr : (j : Js) → IsScoped j → StepsBy j (open_scope j b'[' false arr_start)
unfolding open_scope
open_arr j h = elim (Bool-cases (leb max_depth j.depth)) [
  | inl full ↦ rw full (record { step = (refl, refl) })
  | inr room ↦ rw room (record { step = pushed j b'[' false h room })
]

close_obj : (j : Js) → StepsBy j (close_scope j obj_end)
unfolding close_scope
close_obj j = elim (Bool-cases (j.depth == 0)) [
  | inl top ↦ rw top (record { step = (refl, refl) })
  | inr inside ↦ rw inside (record { step = (ground arith, refl) })
]

close_arr : (j : Js) → StepsBy j (close_scope j arr_end)
unfolding close_scope
close_arr j = elim (Bool-cases (j.depth == 0)) [
  | inl top ↦ rw top (record { step = (refl, refl) })
  | inr inside ↦ rw inside (record { step = (ground arith, refl) })
]

-- A call that leaves the brackets alone, with an event that is no bracket.
abbrev is_bracket : JsEvent → Bool
is_bracket obj_start = true
is_bracket arr_start = true
is_bracket obj_end = true
is_bracket arr_end = true
is_bracket _ = false

abbrev Quiet : Js → Js × JsEvent → Type 0
Quiet j r = Same j r.0 × (is_bracket r.1 ≡ false)

Quiet-StepsBy : (j : Js) (evt : JsEvent) (j' : Js) → Quiet j (j', evt) → StepsBy j (j', evt)
Quiet-StepsBy j obj_start j' q = absurd (cc)
Quiet-StepsBy j arr_start j' q = absurd (cc)
Quiet-StepsBy j obj_end j' q = absurd (cc)
Quiet-StepsBy j arr_end j' q = absurd (cc)
Quiet-StepsBy j _ j' q = record { step = q.0 }

end_string-Quiet :
    (j : Js) (s : Scanned) (evt : JsEvent) → is_bracket evt ≡ false → Quiet j (end_string j s evt)
unfolding end_string
end_string-Quiet j s evt plain = ground arith

expect_after-Quiet : (j : Js) (b : Bool) (r : Js × JsEvent) → Quiet j r → Quiet j (expect_after b r)
unfolding expect_after
expect_after-Quiet j true (j', evt) q = q
expect_after-Quiet j false (j', evt) q = ground arith

read_string-Quiet : (j : Js) → Quiet j (read_string j)
unfolding read_string parse_string
read_string-Quiet j =
    let was_key : Bool = j.expect_key && in_object j in
    expect_after-Quiet j was_key _
      (end_string-Quiet j (scan_string j.input) (if was_key then key else string) (plain was_key))
  where
    plain : (b : Bool) → is_bracket (if b then key else string) ≡ false
    plain true = refl
    plain false = refl

read_string-StepsBy : (j : Js) → StepsBy j (read_string j)
read_string-StepsBy j = Quiet-StepsBy j (read_string j).1 (read_string j).0 (read_string-Quiet j)

after_value-Quiet : (j : Js) (r : Js × JsEvent) → Quiet j r → Quiet j (after_value r)
unfolding after_value
after_value-Quiet j (j', evt) q = ground arith

parse_number-Quiet : (j : Js) → Quiet j (parse_number j)
unfolding parse_number
parse_number-Quiet j = ground arith

parse_literal-Quiet :
    (j : Js) (lit : Bytes) (evt : JsEvent) (b : Bool)
    → is_bracket evt ≡ false
    → Quiet j (parse_literal j lit evt b)
unfolding parse_literal
parse_literal-Quiet j lit evt b plain = ground arith

Pushes-Same : (bracket : ℕ) (j k j' : Js) → Same j k → Pushes bracket k j' → Pushes bracket j j'
Pushes-Same bracket j k j' s t =
    (omega arith, t.1 ∙ rw (s.0, s.1), t.2 ∙ ap length s.1, omega arith)

-- A step from a state with the same brackets.
StackStep-Same : (evt : JsEvent) (j k j' : Js) → Same j k → StackStep evt k j' → StackStep evt j j'
StackStep-Same obj_start j k j' s t = Pushes-Same b'{' j k j' s t
StackStep-Same arr_start j k j' s t = Pushes-Same b'[' j k j' s t
StackStep-Same obj_end j k j' s t = (t.0 ∙ s.0, t.1 ∙ s.1)
StackStep-Same arr_end j k j' s t = (t.0 ∙ s.0, t.1 ∙ s.1)
StackStep-Same _ j k j' s t = (t.0 ∙ s.0, t.1 ∙ s.1)

read_element-StepsBy : (j : Js) (c : ℕ) (cs : Bytes) → IsScoped j → StepsBy j (read_element j c cs)
unfolding read_element
read_element-StepsBy j c cs h =
    let behind : Js = record j { input = cs } in
    let scoped : IsScoped behind = record { places = h.places; in_use = h.in_use } in
    if_StepsBy (c == b'{') (past _ (open_obj behind scoped)) (
      if_StepsBy (c == b'}') (past _ (close_obj behind)) (
        if_StepsBy (c == b'[') (past _ (open_arr behind scoped)) (
          if_StepsBy (c == b']') (past _ (close_arr behind)) (
            if_StepsBy (c == b'"') (past _ (read_string-StepsBy behind)) (
              if_StepsBy (c == b'-' || is_digit c) (value (parse_number j) (parse_number-Quiet j)) (
                if_StepsBy (c == b't')
                  (value (parse_literal j lit_true bool true)
                    (parse_literal-Quiet j lit_true bool true refl))
                  (if_StepsBy (c == b'f')
                    (value (parse_literal j lit_false bool false)
                      (parse_literal-Quiet j lit_false bool false refl))
                    (if_StepsBy (c == b'n')
                      (value (parse_literal j lit_null null false)
                        (parse_literal-Quiet j lit_null null false refl))
                      (record { step = (refl, refl) })))))))))
  where
    if_StepsBy :
        (test : Bool) {r r' : Js × JsEvent}
        → StepsBy j r
        → StepsBy j r'
        → StepsBy j (if test then r else r')
    if_StepsBy true a b = a
    if_StepsBy false a b = b

    past : (r : Js × JsEvent) → StepsBy (record j { input = cs }) r → StepsBy j r
    past r t = record {
      step = StackStep-Same r.1 j (record j { input = cs }) r.0 (refl, refl) t.step;
    }

    quiet : (r : Js × JsEvent) → Quiet j r → StepsBy j r
    quiet r q = Quiet-StepsBy j r.1 r.0 q

    value : (r : Js × JsEvent) → Quiet j r → StepsBy j (after_value r)
    value r q = quiet (after_value r) (after_value-Quiet j r q)

IsScoped-Same : (j j' : Js) → IsScoped j → Same j j' → IsScoped j'
IsScoped-Same j j' h s = record { places = ap length s.1 ∙ h.places; in_use = omega arith }

next_element-StepsBy : (j : Js) (cs : Bytes) → IsScoped j → StepsBy j (next_element j cs)
unfolding next_element
next_element-StepsBy j [] h = record { step = (refl, refl) }
next_element-StepsBy j (c ∷ cs) h = read_element-StepsBy j c cs h

-- Each call of `ts_js_next` changes the stack of open brackets as its event says: `{` and `[` go on the
-- stack, a closing event takes the innermost bracket off, and every other event, the end and errors
-- included, leaves the stack as it was.
pub next-StepsBy : (j : Js) → IsScoped j → StepsBy j (next j)
unfolding next
next-StepsBy j h =
    let start : Bytes = skip_ws j.input in
    let j' : Js = skip_separators (length start) j start in
    let same = skip_separators-Same (length start) j start in
    let r : Js × JsEvent = next_element j' j'.input in
    let moved = next_element-StepsBy j' j'.input (IsScoped-Same j j' h same) in
    record { step = StackStep-Same r.1 j j' r.0 same moved.step }

StackStep-IsScoped : (evt : JsEvent) (j j' : Js) → IsScoped j → StackStep evt j j' → IsScoped j'
StackStep-IsScoped obj_start j j' h t = record { places = t.2 ∙ h.places; in_use = omega arith }
StackStep-IsScoped arr_start j j' h t = record { places = t.2 ∙ h.places; in_use = omega arith }
StackStep-IsScoped obj_end j j' h t = record {
  places = ap length t.1 ∙ h.places;
  in_use = omega arith;
}
StackStep-IsScoped arr_end j j' h t = record {
  places = ap length t.1 ∙ h.places;
  in_use = omega arith;
}
StackStep-IsScoped _ j j' h t = record { places = ap length t.1 ∙ h.places; in_use = omega arith }

-- The stack stays within its 32 places.
pub next-IsScoped : (j : Js) → IsScoped j → IsScoped (next j).0
next-IsScoped j h = StackStep-IsScoped (next j).1 j (next j).0 h (next-StepsBy j h).step

pub init-IsScoped : (text : Bytes) → IsScoped (init text)
unfolding init
init-IsScoped text = record { places = length-replicate {A = ℕ} max_depth 0; in_use = omega arith }
