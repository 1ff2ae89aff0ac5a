-- ===== src/Derp/Pool.antt =====
-- The pool of relay connections of components/tailscale/src/tailscale_derp.c, one per region. A region
-- is the bit pattern of an `int`; whether the pool's mutex exists, and whether the connect task could
-- be spawned, are arguments.
pub mod Unique
pub mod Ready
use portable_terminal.Base.{
  ℕ, Bool, true, false, not, ◌&&◌, ◌||◌, ◌==◌, Option, none, some, List, get_or, set, find_index,
  if◌then◌else◌, replicate,
}
use portable_terminal.Libc.{signed_ltb}

-- the fields of `derp_conn_t` that the pool decides by; `has_tls` is `tls != NULL`.
pub record Conn : Type 0 where
  pub in_use : Bool
  pub region_id : ℕ
  pub has_tls : Bool
  pub running : Bool
  pub connecting : Bool

-- `DERP_MAX_CONNS`
abbrev pub max_conns : ℕ
max_conns = 4

abbrev pub no_conn : Conn
no_conn = record {
  in_use = false;
  region_id = 0;
  has_tls = false;
  running = false;
  connecting = false;
}

abbrev pub empty_pool : List Conn
empty_pool = replicate max_conns no_conn

abbrev pub serves : ℕ → Conn → Bool
serves region c = c.in_use && c.region_id == region

abbrev pub is_unused : Conn → Bool
is_unused c = not c.in_use

-- `derp_find_region`
abbrev pub derp_find_region : ℕ → List Conn → Option ℕ
derp_find_region region = find_index (serves region)

-- the stores of `derp_reserve_slot`
abbrev pub reserved : ℕ → Conn
reserved region = record {
  in_use = true;
  region_id = region;
  has_tls = false;
  running = false;
  connecting = true;
}

-- what `derp_ensure_region` leaves: the ready connection, the slot that a connect task is to be
-- spawned for, and the pool
pub record Ensured : Type 0 where
  pub ready : Option ℕ
  pub to_connect : Option ℕ
  pub pool : List Conn

abbrev pub unchanged : List Conn → Ensured
unchanged pool = record { ready = none; to_connect = none; pool = pool }

-- `derp_reserve_slot`, and what its caller does with the slot
unfoldable pub derp_reserve_slot : ℕ → List Conn → Ensured
derp_reserve_slot region pool = elim (find_index is_unused pool) [
  | none ↦ unchanged pool
  | some slot ↦ record {
    ready = none;
    to_connect = some slot;
    pool = set pool slot (reserved region);
  }
]

-- the branches for a connection that serves the region
unfoldable pub use_conn : ℕ → List Conn → Ensured
use_conn slot pool =
    let c = get_or pool slot no_conn in
    if c.connecting
    then unchanged pool
    else if c.running && c.has_tls
    then record { ready = some slot; to_connect = none; pool = pool }
    else record {
      ready = none;
      to_connect = some slot;
      pool = set pool slot (record c { connecting = true });
    }

-- the part that holds the mutex
unfoldable pub choose_conn : ℕ → List Conn → Ensured
choose_conn region pool = elim (derp_find_region region pool) [
  | none ↦ derp_reserve_slot region pool
  | some slot ↦ use_conn slot pool
]

-- the slot is given back when the task could not be spawned
abbrev pub given_back : Conn → Conn
given_back c = record c { in_use = false; connecting = false }

-- spawning the connect task, if there is a slot to connect
abbrev pub spawn_for : Bool → Option ℕ → Ensured → Ensured
spawn_for spawned none e = e
spawn_for true (some slot) e = e
spawn_for false (some slot) e = record e {
  pool = set e.pool slot (given_back (get_or e.pool slot no_conn));
}

-- `derp_ensure_region`
unfoldable pub derp_ensure_region : Bool → Bool → ℕ → List Conn → Ensured
derp_ensure_region has_mutex spawned region pool =
    if not (signed_ltb 0 region) || not has_mutex
    then unchanged pool
    else (let e = choose_conn region pool in spawn_for spawned e.to_connect e)
