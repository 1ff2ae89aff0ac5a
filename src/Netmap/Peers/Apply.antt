-- ===== src/Netmap/Peers/Apply.antt =====
-- The operations on the peer table of components/tailscale/src/tailscale_netmap.c keep its invariant.
use portable_terminal.Base.{
  ℕ, ◌≡◌, refl, sym, subst, Bool, true, false, not, none, some, List, arith, get_or, set,
  Bool-cases, Option-cases, inl, inr,
}
use portable_terminal.Esp.{esp_ok}
use portable_terminal.Netmap.Peers.{
  ParsedPeer, Env, State, no_peer, has_key, is_free, find_peer_slot, alloc_peer_slot, refresh_peer,
  add_peer_at, apply_one_peer,
}
use portable_terminal.Netmap.Peers.Count.{find_slot-count, find_slot-holds}
use portable_terminal.Netmap.Peers.Valid.{
  IsKept, IsRefused, IsAdded, add_peer_at-cases, refresh_peer-IsKept, refused-IsKept, added-IsKept,
}

-- What applying one peer comes to.
pub data Outcome (env : Env) (p : ParsedPeer) (s : State) (keep : List Bool) (r : State × List Bool)
    : Type 0 where
  ignored : IsRefused (s, keep) r → Outcome env p s keep r
  refreshed_at :
      (slot : ℕ)
      → p.have_node_pub ≡ true
      → find_peer_slot p.key s.peers ≡ some slot
      → r ≡ (refresh_peer env p slot s, set keep slot true)
      → Outcome env p s keep r
  added_at :
      (slot i : ℕ)
      → p.have_node_pub ≡ true
      → find_peer_slot p.key s.peers ≡ none
      → alloc_peer_slot s.peers ≡ some slot
      → env.add_peer s.calls (env.base64_encode p.key) ≡ (esp_ok, i)
      → IsAdded p slot i (s, keep) r
      → Outcome env p s keep r

added_or_not :
    (env : Env) (p : ParsedPeer) (s : State) (keep : List Bool) (slot : ℕ)
    → p.have_node_pub ≡ true
    → find_peer_slot p.key s.peers ≡ none
    → alloc_peer_slot s.peers ≡ some slot
    → Outcome env p s keep (add_peer_at env p slot (s, keep))
added_or_not env p s keep slot given unknown free = elim (add_peer_at-cases env p slot s keep) [
  | inl r ↦ ignored r
  | inr (i, ok, a) ↦ added_at slot i given unknown free ok a
]

nothing_done : (s : State) (keep : List Bool) → IsRefused (s, keep) (s, keep)
nothing_done s keep = record {
  same_peers = refl;
  same_live = λ w. refl;
  same_clashes = λ w. refl;
  same_keep = refl;
}

module _ (env : Env) (p : ParsedPeer) (s : State) (keep : List Bool) where
  Outcome-by :
      (r : State × List Bool)
      → apply_one_peer env p (s, keep) ≡ r
      → Outcome env p s keep r
      → Outcome env p s keep (apply_one_peer env p (s, keep))
  Outcome-by r e o = subst (λ x. Outcome env p s keep x) (sym e) o

  no_key : p.have_node_pub ≡ false → apply_one_peer env p (s, keep) ≡ (s, keep)
  unfolding apply_one_peer
  no_key e = simp (e)

  known :
      p.have_node_pub ≡ true
      → (slot : ℕ) → find_peer_slot p.key s.peers ≡ some slot
      → apply_one_peer env p (s, keep) ≡ (refresh_peer env p slot s, set keep slot true)
  unfolding apply_one_peer
  known given slot found = simp (given, found)

  no_room :
      p.have_node_pub ≡ true
      → find_peer_slot p.key s.peers ≡ none
      → alloc_peer_slot s.peers ≡ none
      → apply_one_peer env p (s, keep) ≡ (s, keep)
  unfolding apply_one_peer
  no_room given unknown full = simp (given, unknown, full)

  room :
      p.have_node_pub ≡ true
      → find_peer_slot p.key s.peers ≡ none
      → (slot : ℕ) → alloc_peer_slot s.peers ≡ some slot
      → apply_one_peer env p (s, keep) ≡ add_peer_at env p slot (s, keep)
  unfolding apply_one_peer
  room given unknown slot free = simp (given, unknown, free)

  -- the four ways through `apply_one_peer`
  pub apply_one_peer-Outcome : Outcome env p s keep (apply_one_peer env p (s, keep))
  apply_one_peer-Outcome =
      let st : State × List Bool = (s, keep) in
      elim (Bool-cases p.have_node_pub) [
        | inr e ↦ Outcome-by st (no_key e) (ignored (nothing_done s keep))
        | inl given ↦ elim (Option-cases (find_peer_slot p.key s.peers)) [
          | inr (slot, found) ↦
              Outcome-by (refresh_peer env p slot s, set keep slot true) (known given slot found)
                (refreshed_at slot given found refl)
          | inl unknown ↦ elim (Option-cases (alloc_peer_slot s.peers)) [
            | inl full ↦ Outcome-by st (no_room given unknown full) (ignored (nothing_done s keep))
            | inr (slot, free) ↦
                Outcome-by (add_peer_at env p slot st) (room given unknown slot free)
                  (added_or_not env p s keep slot given unknown free)
          ]
        ]
      ]

not-true : (b : Bool) → not b ≡ true → b ≡ false
not-true b h = ground arith

pub apply_one_peer-IsKept :
    (env : Env) (p : ParsedPeer) (s : State) (keep : List Bool)
    → IsKept s
    → IsKept (apply_one_peer env p (s, keep)).0
apply_one_peer-IsKept env p s keep v =
    let r = apply_one_peer env p (s, keep) in
    elim (apply_one_peer-Outcome env p s keep) [
      | ignored same ↦ refused-IsKept s r.0 keep r.1 same v
      | refreshed_at slot given found e ↦
          let (lt, _) = find_slot-holds (has_key p.key) s.peers slot found in
          subst (λ (x : State × List Bool). IsKept x.0) (sym e)
            (refresh_peer-IsKept env p slot s lt v)
      | added_at slot i given unknown free ok a ↦
          let (lt, is_unused) = find_slot-holds is_free s.peers slot free in
          added-IsKept p slot i s r.0 keep r.1 lt
            (not-true (get_or s.peers slot no_peer).active is_unused)
            (find_slot-count (has_key p.key) s.peers unknown) a v
    ]
