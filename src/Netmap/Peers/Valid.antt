-- ===== src/Netmap/Peers/Valid.antt =====
-- The invariant of the peer table of components/tailscale/src/tailscale_netmap.c, against the calls
-- that were made to WireGuard.
use portable_terminal.Base.{
  ℕ, ◌+◌, ◌≤◌, ◌<◌, ◌≡◌, refl, sym, ap, ◌∙◌, subst, Bool, true, false, ◌&&◌, ◌||◌, ◌==◌, List, [],
  ◌∷◌, ◌++◌, Bytes, arith, length, get_or, set, inl, inr, ◌⊎◌, length-set, bytes_eq, bytes_eq_iff,
}
use portable_terminal.Esp.{EspErr, esp_ok}
use portable_terminal.Netmap.Peers.{
  Peer, ParsedPeer, Call, Env, State, max_peers, no_peer, has_key, endpoint_update, refreshed,
  refresh_peer, new_peer, add_peer_at, after_add, added_call, wg_add_failed, call_me_maybe,
  send_pings,
}
use portable_terminal.Netmap.Peers.Count.{
  to_nat, count, count-set, live, live-append, live-call_me_maybe, live-send_pings,
  live-endpoint_update, clashes, clashes-append, clashes-call_me_maybe, clashes-send_pings,
  clashes-endpoint_update,
}

abbrev pub has_index : ℕ → Peer → Bool
has_index w x = x.active && x.wg_index == w

-- No two active entries share a key, and at each index WireGuard has a peer exactly if one active
-- entry, and no second one, has that index.
pub record IsValid (s : State) : Type 0 where
  pub size : length s.peers ≡ max_peers
  pub keys : (key : Bytes) → count (has_key key) s.peers ≤ 1
  pub indices : (w : ℕ) → count (has_index w) s.peers ≡ to_nat (live w false s.calls)

-- What holds whichever indices WireGuard gives out. No two active entries share a key; a peer that
-- WireGuard still has is in the table; and as many entries share an index as WireGuard gave it out
-- while it had a peer there, and one more if it has a peer there now, at most.
pub record IsKept (s : State) : Type 0 where
  pub size : length s.peers ≡ max_peers
  pub keys : (key : Bytes) → count (has_key key) s.peers ≤ 1
  pub least : (w : ℕ) → to_nat (live w false s.calls) ≤ count (has_index w) s.peers
  pub most :
      (w : ℕ)
      → count (has_index w) s.peers ≤ to_nat (live w false s.calls) + clashes w false s.calls

pub IsValid-IsKept : (s : State) → IsValid s → IsKept s
IsValid-IsKept s v = record {
  size = v.size;
  keys = v.keys;
  least = λ w. omega (arith, v.indices w);
  most = λ w. omega (arith, v.indices w);
}

-- If it never gave out an index at which it had a peer, the table is as it should be.
pub IsKept-IsValid : (s : State) → ((w : ℕ) → clashes w false s.calls ≡ 0) → IsKept s → IsValid s
IsKept-IsValid s apart v = record {
  size = v.size;
  keys = v.keys;
  indices = λ w. omega (arith, apart w, v.least w, v.most w);
}

-- An entry that keeps its key and its index is as good as the old one.
set-same :
    (p : Peer → Bool) (xs : List Peer) (i : ℕ) (v : Peer)
    → i < length xs
    → p v ≡ p (get_or xs i no_peer)
    → count p (set xs i v) ≡ count p xs
set-same p xs i v lt same = omega (arith, count-set p xs i v lt, ap to_nat same)

refresh_peer-live :
    (env : Env) (p : ParsedPeer) (slot : ℕ) (s : State) (w : ℕ)
    → live w false (refresh_peer env p slot s).calls ≡ live w false s.calls
unfolding refresh_peer
refresh_peer-live env p slot s w =
    let i = (get_or s.peers slot no_peer).wg_index in
    let b = live w false s.calls in
    let update = endpoint_update env s.calls i p in
    live-append w false (s.calls ++ update) (call_me_maybe i p)
    ∙ live-call_me_maybe w (live w false (s.calls ++ update)) i p
    ∙ live-append w false s.calls update
    ∙ live-endpoint_update w b env s.calls i p

refresh_peer-clashes :
    (env : Env) (p : ParsedPeer) (slot : ℕ) (s : State) (w : ℕ)
    → clashes w false (refresh_peer env p slot s).calls ≡ clashes w false s.calls
unfolding refresh_peer
refresh_peer-clashes env p slot s w =
    let i = (get_or s.peers slot no_peer).wg_index in
    let update = endpoint_update env s.calls i p in
    let updated = s.calls ++ update in
    let all = clashes-append w false updated (call_me_maybe i p) in
    omega (
      arith,
      all,
      clashes-append w false s.calls update,
      clashes-endpoint_update w (live w false s.calls) env s.calls i p,
      clashes-call_me_maybe w (live w false updated) i p,
    )

refresh_peer-count :
    (q : Peer → Bool) (env : Env) (p : ParsedPeer) (slot : ℕ) (s : State)
    → slot < length s.peers
    → q (refreshed p (get_or s.peers slot no_peer)) ≡ q (get_or s.peers slot no_peer)
    → count q (refresh_peer env p slot s).peers ≡ count q s.peers
unfolding refresh_peer
refresh_peer-count q env p slot s lt same =
    set-same q s.peers slot (refreshed p (get_or s.peers slot no_peer)) lt same

refresh_peer-size :
    (env : Env) (p : ParsedPeer) (slot : ℕ) (s : State)
    → length (refresh_peer env p slot s).peers ≡ length s.peers
unfolding refresh_peer
refresh_peer-size env p slot s = length-set s.peers slot (refreshed p (get_or s.peers slot no_peer))

pub refresh_peer-IsKept :
    (env : Env) (p : ParsedPeer) (slot : ℕ) (s : State)
    → slot < length s.peers
    → IsKept s
    → IsKept (refresh_peer env p slot s)
refresh_peer-IsKept env p slot s lt v =
    let counted = λ (w : ℕ). refresh_peer-count (has_index w) env p slot s lt refl in
    let used = λ (w : ℕ). ap to_nat (refresh_peer-live env p slot s w) in
    record {
      size = refresh_peer-size env p slot s ∙ v.size;
      keys =
          λ key. omega (arith, refresh_peer-count (has_key key) env p slot s lt refl, v.keys key);
      least = λ w. omega (arith, counted w, used w, v.least w);
      most = λ w. omega (arith, counted w, used w, v.most w, refresh_peer-clashes env p slot s w);
    }

-- A free entry that becomes a peer: the tests that the new peer passes gain one.
fill_count :
    (q : Peer → Bool) (xs : List Peer) (slot : ℕ) (v : Peer)
    → slot < length xs
    → q (get_or xs slot no_peer) ≡ false
    → count q (set xs slot v) ≡ count q xs + to_nat (q v)
fill_count q xs slot v lt free = omega (arith, count-set q xs slot v lt, ap to_nat free)

-- The outcomes of adding a peer: a refusal, which changes only the list of calls, or a new entry.
pub record IsRefused (st st' : State × List Bool) : Type 0 where
  pub same_peers : st'.0.peers ≡ st.0.peers
  pub same_live : (w : ℕ) → live w false st'.0.calls ≡ live w false st.0.calls
  pub same_clashes : (w : ℕ) → clashes w false st'.0.calls ≡ clashes w false st.0.calls
  pub same_keep : st'.1 ≡ st.1

pub record IsAdded (p : ParsedPeer) (slot i : ℕ) (st st' : State × List Bool) : Type 0 where
  pub new_peers : st'.0.peers ≡ set st.0.peers slot (new_peer p i)
  pub new_live : (w : ℕ) → live w false st'.0.calls ≡ (i == w || live w false st.0.calls)
  pub new_clashes :
      (w : ℕ)
      → clashes w false st'.0.calls
        ≡ clashes w false st.0.calls + to_nat (i == w && live w false st.0.calls)
  pub new_keep : st'.1 ≡ set st.1 slot true

added_live :
    (env : Env) (p : ParsedPeer) (i w : ℕ) (cs : List Call)
    → live w false (cs ++ (added_call env p i ∷ []) ++ send_pings i p ++ call_me_maybe i p)
      ≡ (i == w || live w false cs)
unfolding live
added_live env p i w cs =
    let added = cs ++ added_call env p i ∷ [] in
    let pinged = added ++ send_pings i p in
    live-append w false pinged (call_me_maybe i p)
    ∙ live-call_me_maybe w (live w false pinged) i p
    ∙ live-append w false added (send_pings i p)
    ∙ live-send_pings w (live w false added) i p
    ∙ live-append w false cs (added_call env p i ∷ [])

added_clashes :
    (env : Env) (p : ParsedPeer) (i w : ℕ) (cs : List Call)
    → clashes w false (cs ++ (added_call env p i ∷ []) ++ send_pings i p ++ call_me_maybe i p)
      ≡ clashes w false cs + to_nat (i == w && live w false cs)
unfolding clashes
added_clashes env p i w cs =
    let added = cs ++ added_call env p i ∷ [] in
    let pinged = added ++ send_pings i p in
    let all = clashes-append w false pinged (call_me_maybe i p) in
    omega (
      arith,
      all,
      clashes-call_me_maybe w (live w false pinged) i p,
      clashes-append w false added (send_pings i p),
      clashes-send_pings w (live w false added) i p,
      clashes-append w false cs (added_call env p i ∷ []),
    )

refused_lem :
    (env : Env) (p : ParsedPeer) (s : State) (keep : List Bool)
    → IsRefused
        (s, keep)
        (record s { calls = s.calls ++ wg_add_failed (env.base64_encode p.key) ∷ [] }, keep)
unfolding live clashes
refused_lem env p s keep = record {
  same_peers = refl;
  same_live = λ w. live-append w false s.calls (wg_add_failed (env.base64_encode p.key) ∷ []);
  same_clashes = λ w.
      omega (arith, clashes-append w false s.calls (wg_add_failed (env.base64_encode p.key) ∷ []));
  same_keep = refl;
}

after_add-cases :
    (env : Env) (p : ParsedPeer) (slot : ℕ) (s : State) (keep : List Bool) (r : EspErr × ℕ)
    → IsRefused (s, keep) (after_add env p slot (s, keep) r)
      ⊎ ((i : ℕ) × (r ≡ (esp_ok, i))
          × IsAdded p slot i (s, keep) (after_add env p slot (s, keep) r))
unfolding after_add
after_add-cases env p slot s keep (esp_ok, i) = inr (
  i,
  refl,
  record {
    new_peers = refl;
    new_live = λ w. added_live env p i w s.calls;
    new_clashes = λ w. added_clashes env p i w s.calls;
    new_keep = refl;
  },
)
after_add-cases env p slot s keep (_, i) = inl (refused_lem env p s keep)

pub add_peer_at-cases :
    (env : Env) (p : ParsedPeer) (slot : ℕ) (s : State) (keep : List Bool)
    → IsRefused (s, keep) (add_peer_at env p slot (s, keep))
      ⊎ ((i : ℕ) × (env.add_peer s.calls (env.base64_encode p.key) ≡ (esp_ok, i))
          × IsAdded p slot i (s, keep) (add_peer_at env p slot (s, keep)))
unfolding add_peer_at
add_peer_at-cases env p slot s keep =
    after_add-cases env p slot s keep (env.add_peer s.calls (env.base64_encode p.key))

pub refused-IsKept :
    (s s' : State) (keep keep' : List Bool) → IsRefused (s, keep) (s', keep') → IsKept s → IsKept s'
refused-IsKept s s' keep keep' r v =
    let counted = λ (w : ℕ). ap (count (has_index w)) r.same_peers in
    let used = λ (w : ℕ). ap to_nat (r.same_live w) in
    record {
      size = ap length r.same_peers ∙ v.size;
      keys = λ key. subst (λ xs. count (has_key key) xs ≤ 1) (sym r.same_peers) (v.keys key);
      least = λ w. omega (arith, counted w, used w, v.least w);
      most = λ w. omega (arith, counted w, used w, v.most w, r.same_clashes w);
    }

key_bound :
    (a b : Bytes) (n : ℕ) (c : Bool) → bytes_eq a b ≡ c → n ≤ 1 → (a ≡ b → n ≡ 0) → n + to_nat c ≤ 1
key_bound a b n true e le h = omega (arith, h ((bytes_eq_iff a b).0 e))
key_bound a b n false e le h = omega arith

to_nat_or : (a b : Bool) → to_nat (a || b) + to_nat (a && b) ≡ to_nat a + to_nat b
to_nat_or true true = refl
to_nat_or true false = refl
to_nat_or false b = omega arith

to_nat_least : (a b : Bool) → to_nat (a || b) ≤ to_nat a + to_nat b
to_nat_least a b = omega (arith, to_nat_or a b)

pub added-IsKept :
    (p : ParsedPeer) (slot i : ℕ) (s s' : State) (keep keep' : List Bool)
    → slot < length s.peers
    → (get_or s.peers slot no_peer).active ≡ false
    → count (has_key p.key) s.peers ≡ 0
    → IsAdded p slot i (s, keep) (s', keep')
    → IsKept s
    → IsKept s'
added-IsKept p slot i s s' keep keep' lt free unknown a v =
    let old = get_or s.peers slot no_peer in
    let counted : (w : ℕ)
        → count (has_index w) s'.peers ≡ count (has_index w) s.peers + to_nat (i == w) =
      λ w.
        ap (count (has_index w)) a.new_peers
        ∙ fill_count (has_index w) s.peers slot (new_peer p i) lt
            (ap (λ b. b && old.wg_index == w) free) in
    let used = λ (w : ℕ). ap to_nat (a.new_live w) in
    record {
      size = ap length a.new_peers ∙ length-set s.peers slot (new_peer p i) ∙ v.size;
      keys = λ key.
          let gain =
            fill_count (has_key key) s.peers slot (new_peer p i) lt
              (ap (λ b. b && bytes_eq old.node_pub key) free) in
          let bound =
            key_bound p.key key (count (has_key key) s.peers) (bytes_eq p.key key) refl (v.keys key)
              (λ same. subst (λ k. count (has_key k) s.peers ≡ 0) same unknown) in
          subst (λ xs. count (has_key key) xs ≤ 1) (sym a.new_peers) (omega (arith, gain, bound));
      least = λ w.
          omega (arith, counted w, used w, to_nat_least (i == w) (live w false s.calls), v.least w);
      most = λ w. omega (
        arith,
        counted w,
        used w,
        a.new_clashes w,
        to_nat_or (i == w) (live w false s.calls),
        v.most w,
      );
    }
