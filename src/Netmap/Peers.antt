-- ===== src/Netmap/Peers.antt =====
-- The peer table of components/tailscale/src/tailscale_netmap.c: how one parsed peer is applied, how
-- peers are dropped, and the look-ups. The interface to WireGuard and DISCO is the list of the calls
-- that are made, oldest first, and the answers are the parameters of `Env`: they may depend on the
-- calls so far. `int64_t` and `int` are kept as their bit patterns.
pub mod Count
pub mod Valid
pub mod Apply
pub mod Sweep
pub mod Snapshot
use portable_terminal.Base.{
  ℕ, zero, suc, ◌+◌, ◌*◌, ◌/◌, ◌%◌, ◌^◌, Bool, true, false, not, ◌&&◌, ◌||◌, Option, none, some,
  List, [], ◌∷◌, ◌++◌, Bytes, length, get_or, set, take, drop, replicate, ltb, leb, ◌==◌,
  if◌then◌else◌, bytes_eq, map,
}
use portable_terminal.Esp.{EspErr, esp_ok}
use portable_terminal.Libc.{strlcpy, split_first, signed_ltb, strcase_eq}
use portable_terminal.Netmap.Candidates.{Candidate, CandidateTable, used}

-- `netmap_peer_t`
pub record Peer : Type 0 where
  pub active : Bool
  pub wg_index : ℕ
  pub node_id : ℕ
  pub node_pub : Bytes
  pub disco_pub : Bytes
  pub ts_ip : Bytes
  pub name : Bytes
  pub derp_region : ℕ

-- `peer_parse_t`
pub record ParsedPeer : Type 0 where
  pub id : ℕ
  pub have_node_pub : Bool
  pub key : Bytes
  pub disco_key : Bytes
  pub address : Bytes
  pub full_name : Bytes
  pub ep_ip : ℕ
  pub ep_port : ℕ
  pub have_direct_ep : Bool
  pub candidates : CandidateTable
  pub home_region : ℕ

-- the calls to wireguard_esp32 and tailscale_disco; a call that added a peer carries the index that
-- was given to it
pub data Call : Type 0 where
  wg_added : Bytes → ℕ → ℕ → Option ℕ → ℕ → ℕ → Call
  wg_add_failed : Bytes → Call
  wg_update_endpoint : ℕ → ℕ → ℕ → Call
  wg_remove_peer : ℕ → Call
  disco_reset_peer : ℕ → Call
  disco_send_ping : ℕ → Bytes → Bytes → ℕ → ℕ → Call
  disco_send_call_me_maybe : ℕ → Bytes → Bytes → ℕ → Call

-- the answers of the code outside
pub record Env : Type 0 where
  pub ip4addr_aton : Bytes → Option ℕ
  pub base64_encode : Bytes → Bytes
  pub add_peer : List Call → Bytes → EspErr × ℕ
  pub disco_is_verified : List Call → ℕ → Bool

-- `s_peers`, and the calls made so far
pub record State : Type 0 where
  pub peers : List Peer
  pub calls : List Call

-- `TS_NETMAP_MAX_PEERS`
abbrev pub max_peers : ℕ
max_peers = 16

abbrev pub no_peer : Peer
no_peer = record {
  active = false;
  wg_index = 0;
  node_id = 0;
  node_pub = replicate 32 0;
  disco_pub = replicate 32 0;
  ts_ip = [];
  name = [];
  derp_region = 0;
}

abbrev pub initial : State
initial = record { peers = replicate max_peers no_peer; calls = [] }

abbrev pub one_further : Option ℕ → Option ℕ
one_further none = none
one_further (some i) = some (suc i)

-- the loops that return the first index at which a test holds
unfoldable pub find_slot : (Peer → Bool) → List Peer → Option ℕ
find_slot p [] = none
find_slot p (x ∷ xs) = let rest = find_slot p xs in if p x then some 0 else one_further rest

abbrev pub has_key : Bytes → Peer → Bool
has_key key x = x.active && bytes_eq x.node_pub key

abbrev pub has_id : ℕ → Peer → Bool
has_id id x = x.active && x.node_id == id

abbrev pub is_free : Peer → Bool
is_free x = not x.active

-- `find_peer_slot`
abbrev pub find_peer_slot : Bytes → List Peer → Option ℕ
find_peer_slot key = find_slot (has_key key)

-- `find_peer_slot_by_id`
abbrev pub find_peer_slot_by_id : ℕ → List Peer → Option ℕ
find_peer_slot_by_id id = find_slot (has_id id)

-- `alloc_peer_slot`
abbrev pub alloc_peer_slot : List Peer → Option ℕ
alloc_peer_slot = find_slot is_free

-- the number of the address 127.3.3.40, and of 255.255.255.255
abbrev pub derp_address : ℕ
derp_address = 0x7F030328

abbrev pub host_mask : ℕ
host_mask = 0xFFFFFFFF

-- the loop over `p->disco_pub[b]`
unfoldable pub is_key_set : Bytes → Bool
is_key_set [] = false
is_key_set (b ∷ bs) = not (b == 0) || is_key_set bs

abbrev pub has_region : ParsedPeer → Bool
has_region p = signed_ltb 0 p.home_region

-- the endpoint for WireGuard; both settings of `CONFIG_TAILSCALE_DERP_ONLY` clear `have_direct_ep`
unfoldable pub wg_endpoint : ParsedPeer → ℕ × ℕ
wg_endpoint p =
    if has_region p then (derp_address, p.home_region % 2 ^ 16) else (p.ep_ip, p.ep_port)

-- `ts_disco_send_call_me_maybe`, if the peer has a DISCO key and a region
unfoldable pub call_me_maybe : ℕ → ParsedPeer → List Call
call_me_maybe wg_idx p =
    if is_key_set p.disco_key && has_region p
    then disco_send_call_me_maybe wg_idx p.key p.disco_key (p.home_region % 2 ^ 8) ∷ []
    else []

-- the loop over the candidates
unfoldable pub send_pings : ℕ → ParsedPeer → List Call
send_pings wg_idx p =
    if is_key_set p.disco_key
    then map (λ (c : Candidate). disco_send_ping wg_idx p.key p.disco_key c.ip c.port)
        (used p.candidates)
    else []

-- `wireguard_esp32_update_endpoint`, unless DISCO verified a direct path
unfoldable pub endpoint_update : Env → List Call → ℕ → ParsedPeer → List Call
endpoint_update env calls wg_idx p =
    let (ip, port) = wg_endpoint p in
    if not (ip == 0) && not (port == 0) && not (env.disco_is_verified calls wg_idx)
    then wg_update_endpoint wg_idx ip port ∷ []
    else []

-- what is stored into the entry of a peer that is in the table
abbrev pub refreshed : ParsedPeer → Peer → Peer
refreshed p old = record old {
  node_id = p.id;
  name = if ltb 0 (length p.full_name) then strlcpy p.full_name 64 else old.name;
}

-- the branch of a peer that is in the table
unfoldable pub refresh_peer : Env → ParsedPeer → ℕ → State → State
refresh_peer env p slot s =
    let old = get_or s.peers slot no_peer in
    record {
      peers = set s.peers slot (refreshed p old);
      calls = s.calls ++ endpoint_update env s.calls old.wg_index p ++ call_me_maybe old.wg_index p;
    }

-- `allowed_ip` and `allowed_mask`
unfoldable pub allowed : Env → Bytes → ℕ × ℕ
allowed env [] = (0, 0)
allowed env (c ∷ cs) = elim (env.ip4addr_aton (c ∷ cs)) [
  | none ↦ (0, 0)
  | some ip ↦ (ip, host_mask)
]

-- the table's entry for a new peer
abbrev pub new_peer : ParsedPeer → ℕ → Peer
new_peer p wg_idx = record {
  active = true;
  wg_index = wg_idx;
  node_id = p.id;
  node_pub = p.key;
  disco_pub = p.disco_key;
  ts_ip = strlcpy p.address 20;
  name = strlcpy p.full_name 64;
  derp_region = p.home_region;
}

abbrev pub added_call : Env → ParsedPeer → ℕ → Call
added_call env p wg_idx =
    let (ip, port) = wg_endpoint p in
    let (allowed_ip, allowed_mask) = allowed env p.address in
    wg_added (env.base64_encode p.key) allowed_ip allowed_mask (if ip == 0 then none else some ip)
      port wg_idx

-- what follows the call that adds the peer, with its outcome
unfoldable pub after_add : Env → ParsedPeer → ℕ → State × List Bool → EspErr × ℕ → State × List Bool
after_add env p slot (s, keep) (esp_ok, wg_idx) = (
  record {
    peers = set s.peers slot (new_peer p wg_idx);
    calls =
        s.calls ++ (added_call env p wg_idx ∷ []) ++ send_pings wg_idx p ++ call_me_maybe wg_idx p;
  },
  set keep slot true,
)
after_add env p slot (s, keep) (_, wg_idx) =
    (record s { calls = s.calls ++ wg_add_failed (env.base64_encode p.key) ∷ [] }, keep)

-- the branch of a new peer, in a free slot
unfoldable pub add_peer_at : Env → ParsedPeer → ℕ → State × List Bool → State × List Bool
unfolding after_add
add_peer_at env p slot (s, keep) =
    after_add env p slot (s, keep) (env.add_peer s.calls (env.base64_encode p.key))

-- `apply_one_peer`
unfoldable pub apply_one_peer : Env → ParsedPeer → State × List Bool → State × List Bool
apply_one_peer env p (s, keep) =
    if not p.have_node_pub then (s, keep) else elim (find_peer_slot p.key s.peers) [
      | some slot ↦ (refresh_peer env p slot s, set keep slot true)
      | none ↦ elim (alloc_peer_slot s.peers) [
        | none ↦ (s, keep)
        | some slot ↦ add_peer_at env p slot (s, keep)
      ]
    ]

-- the two calls that drop a peer
abbrev pub drop_calls : Peer → List Call
drop_calls x = disco_reset_peer x.wg_index ∷ wg_remove_peer x.wg_index ∷ []

abbrev pub retire : Peer → Peer
retire x = record x { active = false }

abbrev pub is_stale : Peer → List Bool → Bool
is_stale x keep = x.active && not (get_or keep 0 false)

abbrev pub sweep_one : Bool → Peer → List Peer × List Call → List Peer × List Call
sweep_one true x (ys, calls) = (retire x ∷ ys, drop_calls x ++ calls)
sweep_one false x (ys, calls) = (x ∷ ys, calls)

-- the loop after a full snapshot, over the table and `keep` side by side
unfoldable pub sweep_slots : List Peer → List Bool → List Peer × List Call
sweep_slots [] keep = ([], [])
sweep_slots (x ∷ xs) keep = sweep_one (is_stale x keep) x (sweep_slots xs (drop 1 keep))

unfoldable pub sweep : List Bool → State → State
sweep keep s =
    let (peers, calls) = sweep_slots s.peers keep in
    record { peers = peers; calls = s.calls ++ calls }

-- one number of "PeersRemoved"
unfoldable pub remove_by_id : ℕ → State → State
remove_by_id id s = elim (find_peer_slot_by_id id s.peers) [
  | none ↦ s
  | some slot ↦
      let old = get_or s.peers slot no_peer in
      record { peers = set s.peers slot (retire old); calls = s.calls ++ drop_calls old }
]

-- the peers of an array, one after the other
unfoldable pub apply_peers : Env → List ParsedPeer → State × List Bool → State × List Bool
apply_peers env [] st = st
apply_peers env (p ∷ ps) st = apply_peers env ps (apply_one_peer env p st)

-- `parse_peer_array_stream`, where the list is that of the peers which its walk over the array applies,
-- up to the end of the array or to a peer that does not parse
unfoldable pub update_peers : Env → Bool → List ParsedPeer → State → State
update_peers env full_snapshot ps s =
    let (s', keep) = apply_peers env ps (s, replicate max_peers false) in
    if full_snapshot then sweep keep s' else s'
