-- ===== src/Derp/Pool/Unique.antt =====
-- The pool of components/tailscale/src/tailscale_derp.c has at most one connection for a region.
use portable_terminal.Base.{
  ℕ, ◌+◌, ◌≤◌, ◌<◌, ◌≡◌, refl, ap, subst, Bool, true, false, not, ◌&&◌, ◌||◌, ◌==◌, Option, none,
  some, List, arith, length, get_or, set, find_index, count_if, to_digit, count_if-set,
  find_index-count_if, find_index-holds, if◌then◌else◌, Option-cases, inl, inr, length-set,
}
use portable_terminal.Libc.{signed_ltb}
use portable_terminal.Derp.Pool.{
  Conn, no_conn, serves, is_unused, derp_find_region, reserved, Ensured, unchanged,
  derp_reserve_slot, use_conn, choose_conn, given_back, spawn_for, derp_ensure_region,
}

-- No region has two connections in use, and a slot to connect is a slot of the pool.
pub record IsUnique (e : Ensured) : Type 0 where
  pub one_each : (region : ℕ) → count_if (serves region) e.pool ≤ 1
  pub in_pool : (slot : ℕ) → e.to_connect ≡ some slot → slot < length e.pool

unchanged-IsUnique :
    (pool : List Conn)
    → ((region : ℕ) → count_if (serves region) pool ≤ 1)
    → IsUnique (unchanged pool)
unchanged-IsUnique pool h = record { one_each = h; in_pool = λ slot e. absurd (cc) }

some_same : {a b : ℕ} → some a ≡ some b → a ≡ b
some_same e = cc

-- A slot whose new content serves no region that the old did not.
kept_lem :
    (pool : List Conn) (slot : ℕ) (v : Conn)
    → slot < length pool
    → ((region : ℕ)
        → to_digit (serves region v) ≤ to_digit (serves region (get_or pool slot no_conn)))
    → ((region : ℕ) → count_if (serves region) pool ≤ 1)
    → (region : ℕ) → count_if (serves region) (set pool slot v) ≤ 1
kept_lem pool slot v lt fewer h region =
    omega (arith, count_if-set (serves region) pool slot v no_conn lt, fewer region, h region)

is_free_lem : (a b : Bool) → not a ≡ true → a && b ≡ false
is_free_lem a b h = ground arith

room_lem :
    (region r n m : ℕ) → n ≤ 1 → (region ≡ r → n ≡ 0) → m ≡ n + to_digit (region == r) → m ≤ 1
room_lem region r n m le none_yet e = ground arith

reserve-IsUnique :
    (region : ℕ) (pool : List Conn)
    → derp_find_region region pool ≡ none
    → ((r : ℕ) → count_if (serves r) pool ≤ 1)
    → IsUnique (derp_reserve_slot region pool)
unfolding derp_reserve_slot
reserve-IsUnique region pool absent h = elim (Option-cases (find_index is_unused pool)) [
  | inl full ↦ rw (full, derp_reserve_slot) (unchanged-IsUnique pool h)
  | inr (slot, free) ↦
      let (lt, unused) = find_index-holds is_unused pool slot no_conn free in
      let old = get_or pool slot no_conn in
      rw (free, derp_reserve_slot)
        (record {
          one_each = λ r.
              let gain = count_if-set (serves r) pool slot (reserved region) no_conn lt in
              let was_free = ap to_digit (is_free_lem old.in_use (old.region_id == r) unused) in
              room_lem region r (count_if (serves r) pool)
                (count_if (serves r) (set pool slot (reserved region))) (h r)
                (λ same.
                  subst (λ k. count_if (serves k) pool ≡ 0) same
                    (find_index-count_if (serves region) pool absent))
                (omega (arith, gain, was_free));
          in_pool = λ i e.
              subst (λ k. k < length (set pool slot (reserved region))) (some_same e)
                (omega (arith, lt, length-set pool slot (reserved region)));
        })
]

if_IsUnique : (b : Bool) (x y : Ensured) → IsUnique x → IsUnique y → IsUnique (if b then x else y)
if_IsUnique true x y h g = h
if_IsUnique false x y h g = g

use_conn-IsUnique :
    (slot : ℕ) (pool : List Conn)
    → slot < length pool
    → ((r : ℕ) → count_if (serves r) pool ≤ 1)
    → IsUnique (use_conn slot pool)
unfolding use_conn
use_conn-IsUnique slot pool lt h =
    let c = get_or pool slot no_conn in
    let again = record c { connecting = true } in
    if_IsUnique c.connecting (unchanged pool) _ (unchanged-IsUnique pool h) (
      if_IsUnique (c.running && c.has_tls) _ _
        (record { one_each = h; in_pool = λ i e. absurd (cc) })
        (record {
          one_each = kept_lem pool slot again lt (λ r. omega arith) h;
          in_pool = λ i e.
              subst (λ k. k < length (set pool slot again)) (some_same e)
                (omega (arith, lt, length-set pool slot again));
        }))

choose_conn-IsUnique :
    (region : ℕ) (pool : List Conn)
    → ((r : ℕ) → count_if (serves r) pool ≤ 1)
    → IsUnique (choose_conn region pool)
unfolding choose_conn
choose_conn-IsUnique region pool h = elim (Option-cases (derp_find_region region pool)) [
  | inl absent ↦ rw (absent, choose_conn) (reserve-IsUnique region pool absent h)
  | inr (slot, found) ↦
      let (lt, _) = find_index-holds (serves region) pool slot no_conn found in
      rw (found, choose_conn) (use_conn-IsUnique slot pool lt h)
]

spawn_for-one_each :
    (spawned : Bool) (o : Option ℕ) (e : Ensured)
    → e.to_connect ≡ o
    → IsUnique e
    → (r : ℕ) → count_if (serves r) (spawn_for spawned o e).pool ≤ 1
spawn_for-one_each spawned none e at u = u.one_each
spawn_for-one_each true (some slot) e at u = u.one_each
spawn_for-one_each false (some slot) e at u =
    kept_lem e.pool slot (given_back (get_or e.pool slot no_conn)) (u.in_pool slot at)
      (λ r. omega arith) u.one_each

if_one_each :
    (b : Bool) (x y : Ensured) (r : ℕ)
    → count_if (serves r) x.pool ≤ 1
    → count_if (serves r) y.pool ≤ 1
    → count_if (serves r) (if b then x else y).pool ≤ 1
if_one_each true x y r h g = h
if_one_each false x y r h g = g

-- If no region has two connections in use, none has after `derp_ensure_region`, whether or not the
-- connect task could be spawned.
pub derp_ensure_region_unique :
    (has_mutex spawned : Bool) (region : ℕ) (pool : List Conn)
    → ((r : ℕ) → count_if (serves r) pool ≤ 1)
    → (r : ℕ) → count_if (serves r) (derp_ensure_region has_mutex spawned region pool).pool ≤ 1
unfolding derp_ensure_region
derp_ensure_region_unique has_mutex spawned region pool h r =
    let e = choose_conn region pool in
    if_one_each (not (signed_ltb 0 region) || not has_mutex) (unchanged pool) _ r (h r)
      (spawn_for-one_each spawned e.to_connect e refl (choose_conn-IsUnique region pool h) r)
