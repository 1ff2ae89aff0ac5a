-- ===== src/Netmap/Tests.antt =====
-- The tables on concrete peers.
use portable_terminal.Base.{ℕ, ◌≡◌, refl, Bool, true, false, none, [], ◌∷◌, arith, take, bytes_eq}
use portable_terminal.Esp.{EspErr, esp_ok, esp_fail}
use portable_terminal.Netmap.Candidates.{
  Candidate, max_candidates, empty_table, add_candidates, used,
}
use portable_terminal.Netmap.Candidates.Best.{sort_onto, IsDescending}
use portable_terminal.Netmap.Candidates.Top.{add_candidates-best}
use portable_terminal.Netmap.Peers.{
  ParsedPeer, Env, State, initial, find_slot, is_key_set, wg_endpoint, call_me_maybe, send_pings,
  allowed, after_add, add_peer_at, apply_one_peer, apply_peers, sweep_slots, sweep, update_peers,
  remove_by_id, refresh_peer, endpoint_update,
}
use portable_terminal.Netmap.Peers.Count.{count, live, clashes}
use portable_terminal.Netmap.Peers.Valid.{
  IsValid, IsKept, IsValid-IsKept, IsKept-IsValid, has_index,
}
use portable_terminal.Netmap.Peers.Sweep.{update_peers-IsKept, remove_by_id-IsValid}
use portable_terminal.Netmap.Peers.Snapshot.{listed, update_peers-IsListed}

-- WireGuard with two places: it gives out the first that is free, and refuses when none is.
abbrev pick : Bool → Bool → EspErr × ℕ
pick false _ = (esp_ok, 0)
pick true false = (esp_ok, 1)
pick true true = (esp_fail, 0)

abbrev env : Env
env = record {
  ip4addr_aton = λ text. none;
  base64_encode = λ key. key;
  add_peer = λ calls key. pick (live 0 false calls) (live 1 false calls);
  disco_is_verified = λ calls i. false;
}

initial-IsValid : IsValid initial
unfolding count live
initial-IsValid = record { size = refl; keys = λ key. omega arith; indices = λ w. refl }

abbrev laptop : ParsedPeer
laptop = record {
  id = 7;
  have_node_pub = true;
  key = 1 ∷ 2 ∷ [];
  disco_key = 3 ∷ 4 ∷ [];
  address = b'1' ∷ [];
  full_name = b'l' ∷ [];
  ep_ip = 0xC0A80102;
  ep_port = 41641;
  have_direct_ep = true;
  candidates = empty_table;
  home_region = 5;
}

abbrev phone : ParsedPeer
phone = record laptop { id = 8; key = 9 ∷ [] }

initial-IsKept : IsKept initial
initial-IsKept = IsValid-IsKept initial initial-IsValid

-- the table after a snapshot with two peers
abbrev two : State
two = update_peers env true (laptop ∷ phone ∷ []) initial

two-apart : (w : ℕ) → clashes w false two.calls ≡ 0
unfolding update_peers apply_peers apply_one_peer find_slot add_peer_at after_add wg_endpoint
    allowed send_pings call_me_maybe is_key_set live bytes_eq sweep sweep_slots clashes
two-apart w = ground arith

two-IsValid : IsValid two
two-IsValid =
    IsKept-IsValid two two-apart
      (update_peers-IsKept env true (laptop ∷ phone ∷ []) initial initial-IsKept)

-- WireGuard that gives out one index again and again, as for keys that it cannot use
abbrev careless : Env
careless = record env { add_peer = λ calls key. (esp_ok, 3) }

abbrev crowded : State
crowded = update_peers careless false (laptop ∷ phone ∷ []) initial

update_peers-IsKept_example : IsKept (update_peers careless true (phone ∷ []) crowded)
update_peers-IsKept_example =
    update_peers-IsKept careless true (phone ∷ []) crowded
      (update_peers-IsKept careless false (laptop ∷ phone ∷ []) initial initial-IsKept)

-- two entries have the index, and WireGuard has lost its peer there once one of them is dropped
one_lost :
    (count (has_index 3) crowded.peers ≡ 2)
    × (count (has_index 3) (update_peers careless true (phone ∷ []) crowded).peers ≡ 1)
    × (live 3 false (update_peers careless true (phone ∷ []) crowded).calls ≡ false)
unfolding update_peers apply_peers apply_one_peer find_slot add_peer_at after_add wg_endpoint
    allowed send_pings call_me_maybe is_key_set live bytes_eq sweep sweep_slots count refresh_peer
    endpoint_update
one_lost = (refl, refl, refl)

remove_by_id-IsValid_example : IsValid (remove_by_id 7 two)
remove_by_id-IsValid_example = remove_by_id-IsValid 7 two two-IsValid

update_peers-IsListed_example : listed (9 ∷ []) (laptop ∷ phone ∷ []) ≡ true
unfolding update_peers apply_peers apply_one_peer find_slot add_peer_at after_add wg_endpoint
    allowed send_pings call_me_maybe is_key_set live bytes_eq sweep sweep_slots
update_peers-IsListed_example = update_peers-IsListed env (laptop ∷ phone ∷ []) initial 1 refl

-- three candidates, the second one best
abbrev near : Candidate
near = record { ip = 0xC0A80105; port = 1; score = 35 }

abbrev far : Candidate
far = record { ip = 0x08080808; port = 2; score = 1 }

add_candidates-best_example :
    (used (add_candidates (far ∷ near ∷ far ∷ []) empty_table)
      ≡ take max_candidates (sort_onto (far ∷ near ∷ far ∷ []) []))
    × IsDescending (used (add_candidates (far ∷ near ∷ far ∷ []) empty_table))
add_candidates-best_example = add_candidates-best (far ∷ near ∷ far ∷ [])
