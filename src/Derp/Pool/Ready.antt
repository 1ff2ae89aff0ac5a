-- ===== src/Derp/Pool/Ready.antt =====
-- Which connection `derp_ensure_region` of components/tailscale/src/tailscale_derp.c returns.
use portable_terminal.Base.{
  ℕ, ◌≡◌, refl, sym, ap, ◌∙◌, subst, Bool, true, false, not, ◌||◌, Option, none, some, List, arith,
  get_or, find_index, find_index-holds, if◌then◌else◌, Option-cases, inl, inr,
}
use portable_terminal.Libc.{signed_ltb}
use portable_terminal.Derp.Pool.{
  Conn, no_conn, serves, is_unused, derp_find_region, Ensured, unchanged, derp_reserve_slot,
  use_conn, choose_conn, spawn_for, derp_ensure_region,
}

-- an established connection that serves the region
pub record IsReady (region : ℕ) (c : Conn) : Type 0 where
  pub serves_it : serves region c ≡ true
  pub not_connecting : c.connecting ≡ false
  pub is_running : c.running ≡ true
  pub is_open : c.has_tls ≡ true

spawn_for-ready : (b : Bool) (o : Option ℕ) (e : Ensured) → (spawn_for b o e).ready ≡ e.ready
spawn_for-ready b none e = refl
spawn_for-ready true (some slot) e = refl
spawn_for-ready false (some slot) e = refl

reserve-ready : (region : ℕ) (pool : List Conn) → (derp_reserve_slot region pool).ready ≡ none
unfolding derp_reserve_slot
reserve-ready region pool = elim (Option-cases (find_index is_unused pool)) [
  | inl e ↦ rw (e, derp_reserve_slot)
  | inr (slot, e) ↦ rw (e, derp_reserve_slot)
]

use_conn-ready :
    (slot i : ℕ) (pool : List Conn)
    → (use_conn slot pool).ready ≡ some i
    → let c = get_or pool slot no_conn in
      (slot ≡ i) × (c.connecting ≡ false) × (c.running ≡ true) × (c.has_tls ≡ true)
unfolding use_conn
use_conn-ready slot i pool h = ground arith

choose_conn-ready :
    (region i : ℕ) (pool : List Conn)
    → (choose_conn region pool).ready ≡ some i
    → IsReady region (get_or pool i no_conn)
unfolding choose_conn derp_reserve_slot
choose_conn-ready region i pool h = elim (Option-cases (derp_find_region region pool)) [
  | inl absent ↦
      let e : choose_conn region pool ≡ derp_reserve_slot region pool = rw (absent, choose_conn) in
      let gone : none ≡ some i =
        sym (reserve-ready region pool) ∙ sym (ap (λ (x : Ensured). x.ready) e) ∙ h in
      absurd (cc)
  | inr (slot, found) ↦
      let e : choose_conn region pool ≡ use_conn slot pool = rw (found, choose_conn) in
      let (at, idle, running, open_) =
        use_conn-ready slot i pool (sym (ap (λ (x : Ensured). x.ready) e) ∙ h) in
      let (_, holds) = find_index-holds (serves region) pool slot no_conn found in
      subst (λ k. IsReady region (get_or pool k no_conn)) at
        (record { serves_it = holds; not_connecting = idle; is_running = running; is_open = open_ })
]

if_ready :
    (b : Bool) (x : Ensured) (pool : List Conn) (i : ℕ)
    → (if b then unchanged pool else x).ready ≡ some i
    → x.ready ≡ some i
if_ready true x pool i h = absurd (cc)
if_ready false x pool i h = h

-- A connection that `derp_ensure_region` returns is in use for the region, and is established: its
-- connect task is done, its tasks run and its TLS link is open.
pub derp_ensure_region-ready :
    (has_mutex spawned : Bool) (region : ℕ) (pool : List Conn) (i : ℕ)
    → (derp_ensure_region has_mutex spawned region pool).ready ≡ some i
    → IsReady region (get_or pool i no_conn)
unfolding derp_ensure_region
derp_ensure_region-ready has_mutex spawned region pool i h =
    let e = choose_conn region pool in
    let chosen =
      if_ready (not (signed_ltb 0 region) || not has_mutex) (spawn_for spawned e.to_connect e) pool
        i h in
    choose_conn-ready region i pool (sym (spawn_for-ready spawned e.to_connect e) ∙ chosen)
