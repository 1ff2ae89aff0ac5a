-- ===== src/Netmap/Lookup.antt =====
-- The look-ups in the peer table of components/tailscale/src/tailscale_netmap.c that the shell, the
-- resolver and tailscale_disco.c make.
use portable_terminal.Base.{
  ℕ, Bool, true, false, not, ◌&&◌, ◌||◌, ◌==◌, Option, none, some, List, [], ◌∷◌, Bytes, get_or,
  if◌then◌else◌, bytes_eq,
}
use portable_terminal.Libc.{strlcpy, split_first, strcase_eq}
use portable_terminal.Netmap.Peers.{Peer, no_peer, find_slot}

-- the entry at the first index at which a test holds
abbrev pub entry_at : List Peer → Option ℕ → Option Peer
entry_at peers none = none
entry_at peers (some i) = some (get_or peers i no_peer)

abbrev pub has_disco : Bytes → Peer → Bool
has_disco disco_pub x = x.active && bytes_eq x.disco_pub disco_pub

abbrev pub at_index : ℕ → Peer → Bool
at_index wg_idx x = x.active && x.wg_index == wg_idx

-- `ts_netmap_lookup_by_disco`: the entry whose index and key it copies out
unfoldable pub lookup_by_disco : Bytes → List Peer → Option Peer
lookup_by_disco disco_pub peers = entry_at peers (find_slot (has_disco disco_pub) peers)

-- `ts_netmap_get_peer_by_wg_idx`: the entry whose two keys it copies out
unfoldable pub get_peer_by_wg_idx : ℕ → List Peer → Option Peer
get_peer_by_wg_idx wg_idx peers = entry_at peers (find_slot (at_index wg_idx) peers)

abbrev pub is_empty : Bytes → Bool
is_empty [] = true
is_empty (_ ∷ _) = false

-- `peer_name_matches`
unfoldable pub peer_name_matches : Bytes → Bytes → Bool
peer_name_matches peer_name query =
    if is_empty peer_name || is_empty query
    then false
    else if strcase_eq peer_name query
    then true
    else elim (split_first b'.' peer_name) [
      | none ↦ false
      | some (short, _) ↦ strcase_eq short query
    ]

abbrev pub answers_to : Bytes → Peer → Bool
answers_to name x = x.active && not (is_empty x.ts_ip) && peer_name_matches x.name name

-- `ts_netmap_resolve`: what it leaves in `ip_str`, if it returns true
unfoldable pub resolve : Bytes → ℕ → List Peer → Option Bytes
resolve name ip_str_len peers =
    if ip_str_len == 0 then none else elim (find_slot (answers_to name) peers) [
      | none ↦ none
      | some i ↦ some (strlcpy (get_or peers i no_peer).ts_ip ip_str_len)
    ]
