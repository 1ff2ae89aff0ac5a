-- ===== src/Jstream/Skip.antt =====
-- `ts_js_skip` of components/tailscale/src/tailscale_jstream.c: it ends, and leaves the parser behind
-- the value that it skips.
use portable_terminal.Base.{
  ℕ, zero, suc, ◌+◌, ◌≤◌, ◌<◌, ◌≡◌, Bool, true, false, Option, none, some, if◌then◌else◌, Bytes,
  arith, length, ltb, Bool-cases, inl, inr, IsTail, IsTail-refl, IsTail-trans, ltb→lt, not-ltb→le,
}
use portable_terminal.Jstream.{
  Js, JsEvent, obj_start, obj_end, arr_start, arr_end, next, is_open, is_last,
}
use portable_terminal.Jstream.Progress.{next-Advances}
use portable_terminal.Jstream.Scope.{IsScoped, StackStep, next-StepsBy, next-IsScoped}

-- `while (j->depth > start_depth)`, on fuel; `none` means that the fuel ran out.
unfoldable pub skip_loop : ℕ → ℕ → Js → JsEvent → Option (Js × JsEvent)
skip_loop zero start_depth j e = if ltb start_depth j.depth then none else some (j, e)
skip_loop (suc fuel) start_depth j e = elim (ltb start_depth j.depth) [
  | false ↦ some (j, e)
  | true ↦
      let (j', e') = next j in
      elim (is_last e') [ true ↦ some (j', e') | false ↦ skip_loop fuel start_depth j' e' ]
]

-- `ts_js_skip`
unfoldable pub skip : ℕ → Js → Option (Js × JsEvent)
skip fuel j =
    let (j', e) = next j in if is_open e then skip_loop fuel j.depth j' e else some (j', e)

-- One event closes at most one bracket.
depth_falls_by_one : (evt : JsEvent) (j j' : Js) → StackStep evt j j' → j.depth ≤ j'.depth + 1
depth_falls_by_one obj_start j j' t = omega arith
depth_falls_by_one arr_start j j' t = omega arith
depth_falls_by_one obj_end j j' t = omega arith
depth_falls_by_one arr_end j j' t = omega arith
depth_falls_by_one _ j j' t = omega arith

depth_rises :
    (evt : JsEvent) (j j' : Js) → is_open evt ≡ true → StackStep evt j j' → j.depth ≤ j'.depth
depth_rises obj_start j j' o t = omega arith
depth_rises arr_start j j' o t = omega arith
depth_rises _ j j' o t = absurd (cc)

is_open-is_last : (evt : JsEvent) → is_open evt ≡ true → is_last evt ≡ false
is_open-is_last evt o = ground arith

-- What the loop leaves: it is back at the depth it is to reach, or met the end or an error, and
-- the cursor has only moved on.
pub record SkipsTo (start_depth : ℕ) (start : Bytes) (r : Js × JsEvent) : Type 0 where
  pub back : is_last r.1 ≡ false → r.0.depth ≡ start_depth
  pub tail : IsTail r.0.input start
  pub scoped : IsScoped r.0

skip_loop-SkipsTo :
    (fuel start_depth : ℕ) (j : Js) (e : JsEvent)
    → length j.input < fuel
    → start_depth ≤ j.depth
    → IsScoped j
    → (r : Js × JsEvent) × (skip_loop fuel start_depth j e ≡ some r) × SkipsTo start_depth j.input r
unfolding skip_loop
skip_loop-SkipsTo zero start_depth j e h d s = absurd (omega arith)
skip_loop-SkipsTo (suc fuel) start_depth j e h d s = elim (Bool-cases (ltb start_depth j.depth)) [
  | inr back ↦ (
    (j, e),
    rw (back, skip_loop),
    record {
      back = λ _. omega (arith, not-ltb→le start_depth j.depth back);
      tail = IsTail-refl j.input;
      scoped = s;
    },
  )
  | inl inside ↦
      let r : Js × JsEvent = next j in
      let moved = next-Advances j in
      let scoped = next-IsScoped j s in
      elim (Bool-cases (is_last r.1)) [
        | inl last ↦ (
          r,
          rw (inside, last, skip_loop),
          record { back = λ h. absurd (cc); tail = moved.tail; scoped = scoped },
        )
        | inr more ↦
            let deep = depth_falls_by_one r.1 j r.0 (next-StepsBy j s).step in
            let (out, ran, done) =
              skip_loop-SkipsTo fuel start_depth r.0 r.1 (omega (arith, moved.moves more))
                (omega (arith, deep, ltb→lt start_depth j.depth inside)) scoped in
            (
              out,
              rw (inside, more, ran, skip_loop),
              record {
                back = done.back;
                tail = IsTail-trans out.0.input r.0.input j.input done.tail moved.tail;
                scoped = done.scoped;
              },
            )
      ]
]

abbrev pub is_close : JsEvent → Bool
is_close obj_end = true
is_close arr_end = true
is_close _ = false

depth_stays :
    (evt : JsEvent) (j j' : Js)
    → is_open evt ≡ false
    → is_close evt ≡ false
    → StackStep evt j j'
    → j'.depth ≡ j.depth
depth_stays obj_start j j' o c t = absurd (cc)
depth_stays arr_start j j' o c t = absurd (cc)
depth_stays obj_end j j' o c t = absurd (cc)
depth_stays arr_end j j' o c t = absurd (cc)
depth_stays _ j j' o c t = t.0

-- `ts_js_skip` ends within as many rounds as there are bytes left. If it met neither the end nor an
-- error, and the value was not a closing bracket, it stands at the depth at which it started; the
-- cursor stays in the buffer.
pub skip-SkipsTo :
    (j : Js)
    → IsScoped j
    → is_close (next j).1 ≡ false
    → (r : Js × JsEvent) × (skip (length j.input) j ≡ some r) × SkipsTo j.depth j.input r
unfolding skip
skip-SkipsTo j s plain =
    let r : Js × JsEvent = next j in
    let moved = next-Advances j in
    let scoped = next-IsScoped j s in
    let step = (next-StepsBy j s).step in
    elim (Bool-cases (is_open r.1)) [
      | inl opens ↦
          let (out, ran, done) =
            skip_loop-SkipsTo (length j.input) j.depth r.0 r.1
              (moved.moves (is_open-is_last r.1 opens)) (depth_rises r.1 j r.0 opens step) scoped in
          (
            out,
            rw (opens, skip) ran,
            record {
              back = done.back;
              tail = IsTail-trans out.0.input r.0.input j.input done.tail moved.tail;
              scoped = done.scoped;
            },
          )
      | inr other ↦ (
        r,
        rw (other, skip),
        record {
          back = λ _. depth_stays r.1 j r.0 other plain step;
          tail = moved.tail;
          scoped = scoped;
        },
      )
    ]
