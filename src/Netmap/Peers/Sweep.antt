-- ===== src/Netmap/Peers/Sweep.antt =====
-- Dropping peers from the table of components/tailscale/src/tailscale_netmap.c.
use portable_terminal.Base.{
  ℕ, suc, ◌+◌, ◌≤◌, ◌<◌, ◌≡◌, refl, sym, ap, ◌∙◌, subst, Bool, true, false, not, ◌&&◌, ◌==◌, none,
  some, List, [], ◌∷◌, ◌++◌, Bytes, arith, length, get_or, set, drop, replicate, Bool-cases,
  Option-cases, inl, inr, length-set,
}
use portable_terminal.Netmap.Peers.{
  Peer, ParsedPeer, Call, Env, State, max_peers, no_peer, has_key, has_id, find_peer_slot_by_id,
  apply_one_peer, drop_calls, retire, is_stale, sweep_one, sweep_slots, sweep, remove_by_id,
  apply_peers, update_peers,
}
use portable_terminal.Netmap.Peers.Count.{
  to_nat, count, count-set, find_slot-holds, live, live-append, clashes, clashes-append,
}
use portable_terminal.Netmap.Peers.Valid.{IsValid, IsKept, has_index}
use portable_terminal.Netmap.Peers.Apply.{apply_one_peer-IsKept}

one_length :
    (b : Bool) (x : Peer) (r : List Peer × List Call)
    → length (sweep_one b x r).0 ≡ suc (length r.0)
one_length true x r = refl
one_length false x r = refl

sweep_slots-length :
    (xs : List Peer) (keep : List Bool) → length (sweep_slots xs keep).0 ≡ length xs
unfolding sweep_slots
sweep_slots-length [] keep = refl
sweep_slots-length (x ∷ xs) keep =
    one_length (is_stale x keep) x (sweep_slots xs (drop 1 keep))
    ∙ ap suc (sweep_slots-length xs (drop 1 keep))

one_keys :
    (key : Bytes) (b : Bool) (x : Peer) (r : List Peer × List Call)
    → count (has_key key) (sweep_one b x r).0 ≤ to_nat (has_key key x) + count (has_key key) r.0
unfolding count
one_keys key true x r = omega arith
one_keys key false x r = omega arith

and_left : (a b : Bool) → a && b ≡ true → a ≡ true
and_left a b h = ground arith

dropped_arith :
    (n m i w : ℕ) (b : Bool)
    → n + (to_nat (i == w) + m) ≡ to_nat b
    → n + m ≡ to_nat (not (i == w) && b)
dropped_arith n m i w true h = ground arith
dropped_arith n m i w false h = ground arith

sweep_slots-keys :
    (key : Bytes) (xs : List Peer) (keep : List Bool)
    → count (has_key key) (sweep_slots xs keep).0 ≤ count (has_key key) xs
unfolding sweep_slots count
sweep_slots-keys key [] keep = omega arith
sweep_slots-keys key (x ∷ xs) keep =
    let here = one_keys key (is_stale x keep) x (sweep_slots xs (drop 1 keep)) in
    omega (arith, here, sweep_slots-keys key xs (drop 1 keep))

dropped_bounds :
    (n m k i w : ℕ) (b : Bool)
    → to_nat b ≤ n + (to_nat (i == w) + m)
    → n + (to_nat (i == w) + m) ≤ to_nat b + k
    → (to_nat (not (i == w) && b) ≤ n + m) × (n + m ≤ to_nat (not (i == w) && b) + k)
dropped_bounds n m k i w true least most = ground arith
dropped_bounds n m k i w false least most = ground arith

-- The calls keep up with the table: `n` entries before these have the index `w`.
sweep_slots-bounds :
    (w n k : ℕ) (b : Bool) (xs : List Peer) (keep : List Bool)
    → to_nat b ≤ n + count (has_index w) xs
    → n + count (has_index w) xs ≤ to_nat b + k
    → let r = sweep_slots xs keep in
      (to_nat (live w b r.1) ≤ n + count (has_index w) r.0)
      × (n + count (has_index w) r.0 ≤ to_nat (live w b r.1) + k)
unfolding sweep_slots count live
sweep_slots-bounds w n k b [] keep least most = (least, most)
sweep_slots-bounds w n k b (x ∷ xs) keep least most = elim (Bool-cases (is_stale x keep)) [
  | inl e ↦
      let is_on = and_left x.active (not (get_or keep 0 false)) e in
      let here = ap (λ c. to_nat (c && x.wg_index == w)) is_on in
      let (low, high) =
        dropped_bounds n (count (has_index w) xs) k x.wg_index w b (omega (arith, least, here))
          (omega (arith, most, here)) in
      let rest = sweep_slots-bounds w n k (not (x.wg_index == w) && b) xs (drop 1 keep) low high in
      simp e (omega (arith, rest))
  | inr e ↦
      let rest =
        sweep_slots-bounds w (n + to_nat (has_index w x)) k b xs (drop 1 keep)
          (omega (arith, least)) (omega (arith, most)) in
      simp e (omega (arith, rest))
]

sweep_slots-clashes :
    (w : ℕ) (b : Bool) (xs : List Peer) (keep : List Bool) → clashes w b (sweep_slots xs keep).1 ≡ 0
unfolding sweep_slots clashes
sweep_slots-clashes w b [] keep = refl
sweep_slots-clashes w b (x ∷ xs) keep = elim (Bool-cases (is_stale x keep)) [
  | inl e ↦
      simp e (omega (arith, sweep_slots-clashes w (not (x.wg_index == w) && b) xs (drop 1 keep)))
  | inr e ↦ simp e (sweep_slots-clashes w b xs (drop 1 keep))
]

sweep-IsKept : (keep : List Bool) (s : State) → IsKept s → IsKept (sweep keep s)
unfolding sweep
sweep-IsKept keep s v =
    let dropped = (sweep_slots s.peers keep).1 in
    let bounds = λ (w : ℕ).
      sweep_slots-bounds w 0 (clashes w false s.calls) (live w false s.calls) s.peers keep
        (omega (arith, v.least w)) (omega (arith, v.most w)) in
    let used = λ (w : ℕ). ap to_nat (live-append w false s.calls dropped) in
    record {
      size = sweep_slots-length s.peers keep ∙ v.size;
      keys = λ key. omega (arith, sweep_slots-keys key s.peers keep, v.keys key);
      least = λ w. omega (arith, (bounds w).0, used w);
      most = λ w. omega (
        arith,
        (bounds w).1,
        used w,
        clashes-append w false s.calls dropped,
        sweep_slots-clashes w (live w false s.calls) s.peers keep,
      );
    }

removed_lem :
    (s : State) (slot : ℕ)
    → slot < length s.peers
    → (get_or s.peers slot no_peer).active ≡ true
    → IsValid s
    → IsValid (record {
      peers = set s.peers slot (retire (get_or s.peers slot no_peer));
      calls = s.calls ++ drop_calls (get_or s.peers slot no_peer);
    })
unfolding live
removed_lem s slot lt is_on v =
    let old = get_or s.peers slot no_peer in
    record {
      size = length-set s.peers slot (retire old) ∙ v.size;
      keys = λ key. omega (arith, count-set (has_key key) s.peers slot (retire old) lt, v.keys key);
      indices = λ w.
          let fewer = count-set (has_index w) s.peers slot (retire old) lt in
          let here = ap (λ c. to_nat (c && old.wg_index == w)) is_on in
          let after =
            dropped_arith 0 (count (has_index w) (set s.peers slot (retire old))) old.wg_index w
              (live w false s.calls) (omega (arith, fewer, here, v.indices w)) in
          let calls = ap to_nat (live-append w false s.calls (drop_calls old)) in
          omega (arith, after, calls);
    }

absent_lem : (id : ℕ) (s : State) → find_peer_slot_by_id id s.peers ≡ none → remove_by_id id s ≡ s
unfolding remove_by_id
absent_lem id s e = rw (e, remove_by_id)

present_lem :
    (id : ℕ) (s : State) (slot : ℕ)
    → find_peer_slot_by_id id s.peers ≡ some slot
    → remove_by_id id s ≡ record {
      peers = set s.peers slot (retire (get_or s.peers slot no_peer));
      calls = s.calls ++ drop_calls (get_or s.peers slot no_peer);
    }
unfolding remove_by_id
present_lem id s slot e = rw (e, remove_by_id)

-- Dropping the peer of a node id keeps the table valid.
pub remove_by_id-IsValid : (id : ℕ) (s : State) → IsValid s → IsValid (remove_by_id id s)
remove_by_id-IsValid id s v = elim (Option-cases (find_peer_slot_by_id id s.peers)) [
  | inl e ↦ subst (λ r. IsValid r) (sym (absent_lem id s e)) v
  | inr (slot, e) ↦
      let (lt, holds) = find_slot-holds (has_id id) s.peers slot e in
      let old = get_or s.peers slot no_peer in
      subst (λ r. IsValid r) (sym (present_lem id s slot e))
        (removed_lem s slot lt (and_left old.active (old.node_id == id) holds) v)
]

apply_peers-IsKept :
    (env : Env) (ps : List ParsedPeer) (s : State) (keep : List Bool)
    → IsKept s
    → IsKept (apply_peers env ps (s, keep)).0
unfolding apply_peers
apply_peers-IsKept env [] s keep v = v
apply_peers-IsKept env (p ∷ ps) s keep v =
    let r = apply_one_peer env p (s, keep) in
    apply_peers-IsKept env ps r.0 r.1 (apply_one_peer-IsKept env p s keep v)

-- Whatever WireGuard answers, a list of parsed peers, a full snapshot or a change, keeps this of the
-- table: no two active entries share a key; each peer that the calls leave WireGuard with has an
-- active entry with its index; and an index has no more active entries than one for the peer that
-- WireGuard has there, if any, and one for each time it gave the index out while it had a peer there.
pub update_peers-IsKept :
    (env : Env) (full_snapshot : Bool) (ps : List ParsedPeer) (s : State)
    → IsKept s
    → IsKept (update_peers env full_snapshot ps s)
unfolding update_peers
update_peers-IsKept env true ps s v =
    let keep = replicate max_peers false in
    let (s', keep') = apply_peers env ps (s, keep) in
    sweep-IsKept keep' s' (apply_peers-IsKept env ps s keep v)
update_peers-IsKept env false ps s v = apply_peers-IsKept env ps s (replicate max_peers false) v
