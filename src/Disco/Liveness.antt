-- ===== src/Disco/Liveness.antt =====
-- The liveness of direct paths in components/tailscale/src/tailscale_disco.c: the periodic sweep, and
-- the reset of a peer.
use portable_terminal.Base.{
  ℕ, zero, suc, ◌-◌, Bool, false, not, ◌&&◌, ◌==◌, none, some, List, [], ◌∷◌, get_or, set, ltb,
  if◌then◌else◌,
}
use portable_terminal.Disco.{Env, State, PendingPing, peers_max}
use portable_terminal.Disco.Send.{send_ping, is_verified_at}

-- `DISCO_REVERIFY_ACTIVE_US`, `DISCO_REVERIFY_STALE_US`
abbrev pub active_us : ℕ
active_us = 180000000

abbrev pub stale_us : ℕ
stale_us = 900000000

-- the time since the last Pong; `now` is not before it
abbrev pub age_of : ℕ → ℕ → State → ℕ
age_of now i st = now - get_or st.last_pong_ts i 0

-- the path is presumed dead
abbrev pub unverify : ℕ → State → State
unverify i st = record st {
  verified = set st.verified i false;
  last_pong_ts = set st.last_pong_ts i 0;
  last_call_me_maybe_ts = set st.last_call_me_maybe_ts i 0;
}

-- the heartbeat Ping
unfoldable pub probe : Env → ℕ → State → State
probe env i st = elim (env.get_peer_by_wg_idx i) [
  | none ↦ st
  | some (_, peer_disco_pub) ↦
      let (ip, port) = get_or st.verified_ep i (0, 0) in
      (send_ping env i peer_disco_pub ip port st).1
]

-- one round of the sweep
unfoldable pub sweep_one : Env → ℕ → ℕ → State → State
sweep_one env now i st =
    if not (get_or st.verified i false)
    then st
    else if ltb stale_us (age_of now i st)
    then unverify i st
    else if ltb active_us (age_of now i st)
    then probe env i st
    else st

-- the rounds of the first `n` peers
unfoldable pub sweep_first : Env → ℕ → ℕ → State → State
sweep_first env now zero st = st
sweep_first env now (suc n) st = sweep_one env now n (sweep_first env now n st)

-- `reverify_sweep_cb` at the time `now`
unfoldable pub reverify_sweep : Env → ℕ → State → State
reverify_sweep env now st = if st.inited then sweep_first env now peers_max st else st

-- the loop over the Pings in flight
unfoldable pub drop_pending : ℕ → List PendingPing → List PendingPing
drop_pending i [] = []
drop_pending i (p ∷ ps) =
    (if p.in_use && p.wg_peer_index == i then record p { in_use = false } else p)
    ∷ drop_pending i ps

-- `ts_disco_reset_peer`
unfoldable pub reset_peer : ℕ → State → State
reset_peer i st =
    let cleared =
      if ltb i peers_max
      then record st {
        verified = set st.verified i false;
        last_pong_ts = set st.last_pong_ts i 0;
        verified_ep = set st.verified_ep i (0, 0);
        last_call_me_maybe_ts = set st.last_call_me_maybe_ts i 0;
      }
      else st in
    record cleared { pending = drop_pending i cleared.pending }

-- `ts_disco_is_verified`
abbrev pub is_verified : ℕ → State → Bool
is_verified = is_verified_at
