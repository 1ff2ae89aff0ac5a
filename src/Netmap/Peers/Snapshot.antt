-- ===== src/Netmap/Peers/Snapshot.antt =====
-- What a full snapshot leaves in the peer table of components/tailscale/src/tailscale_netmap.c.
use portable_terminal.Base.{
  ℕ, zero, suc, ◌≡◌, refl, sym, ap, ◌∙◌, subst, Bool, true, false, not, ◌&&◌, ◌||◌, List, [], ◌∷◌,
  Bytes, arith, length, get_or, set, drop, replicate, inl, inr, get_or-set_self, get_or-set_or,
  bytes_eq, bytes_eq_iff, ◌<◌,
}
use portable_terminal.Netmap.Peers.{
  Peer, ParsedPeer, Call, Env, State, max_peers, no_peer, has_key, is_free, refreshed, refresh_peer,
  new_peer, apply_one_peer, is_stale, sweep_one, sweep_slots, sweep, apply_peers, update_peers,
}
use portable_terminal.Netmap.Peers.Count.{find_slot-holds}
use portable_terminal.Netmap.Peers.Apply.{ignored, refreshed_at, added_at, apply_one_peer-Outcome}

-- whether a peer with this key is among the parsed peers
unfoldable pub listed : Bytes → List ParsedPeer → Bool
listed key [] = false
listed key (p ∷ ps) = p.have_node_pub && bytes_eq p.key key || listed key ps

-- Every entry that is kept has a key of the list.
abbrev KeptIsIn : (Bytes → Bool) → List Peer → List Bool → Type 0
KeptIsIn is_in peers keep =
    (j : ℕ) → get_or keep j false ≡ true → is_in (get_or peers j no_peer).node_pub ≡ true

key_stays :
    (env : Env) (p : ParsedPeer) (slot : ℕ) (s : State) (j : ℕ)
    → (get_or (refresh_peer env p slot s).peers j no_peer).node_pub
      ≡ (get_or s.peers j no_peer).node_pub
unfolding refresh_peer
key_stays env p slot s j =
    let old = get_or s.peers slot no_peer in
    elim (get_or-set_or s.peers slot (refreshed p old) no_peer j) [
      | inl (same, e) ↦
          ap (λ (x : Peer). x.node_pub) e ∙ ap (λ i. (get_or s.peers i no_peer).node_pub) same
      | inr e ↦ ap (λ (x : Peer). x.node_pub) e
    ]

and_right : (a b : Bool) → a && b ≡ true → b ≡ true
and_right a b h = ground arith

found_key : (key : Bytes) (x : Peer) → has_key key x ≡ true → x.node_pub ≡ key
found_key key x h = (bytes_eq_iff x.node_pub key).0 (and_right x.active (bytes_eq x.node_pub key) h)

refreshed-KeptIsIn :
    (is_in : Bytes → Bool) (env : Env) (p : ParsedPeer) (slot : ℕ) (s : State) (keep : List Bool)
    → is_in p.key ≡ true
    → has_key p.key (get_or s.peers slot no_peer) ≡ true
    → KeptIsIn is_in s.peers keep
    → KeptIsIn is_in (refresh_peer env p slot s).peers (set keep slot true)
refreshed-KeptIsIn is_in env p slot s keep here found k j h =
    let at : Bytes = (get_or s.peers j no_peer).node_pub in
    let old : is_in at ≡ true = elim (get_or-set_or keep slot true false j) [
      | inl (same, _) ↦
          let key = found_key p.key (get_or s.peers slot no_peer) found in
          ap is_in (sym (ap (λ i. (get_or s.peers i no_peer).node_pub) same) ∙ key) ∙ here
      | inr e ↦ k j (sym e ∙ h)
    ] in
    ap is_in (key_stays env p slot s j) ∙ old

added-KeptIsIn :
    (is_in : Bytes → Bool) (p : ParsedPeer) (slot i : ℕ) (peers : List Peer) (keep : List Bool)
    → is_in p.key ≡ true
    → slot < length peers
    → KeptIsIn is_in peers keep
    → KeptIsIn is_in (set peers slot (new_peer p i)) (set keep slot true)
added-KeptIsIn is_in p slot i peers keep here lt k j h =
    elim (get_or-set_or peers slot (new_peer p i) no_peer j) [
      | inl (_, e) ↦ ap (λ (x : Peer). is_in x.node_pub) e ∙ here
      | inr e ↦ elim (get_or-set_or keep slot true false j) [
        | inl (same, _) ↦
            let new = get_or-set_self peers slot (new_peer p i) no_peer lt in
            let there =
              ap (λ a. get_or (set peers slot (new_peer p i)) a no_peer) (sym same) ∙ new in
            ap (λ (x : Peer). is_in x.node_pub) there ∙ here
        | inr g ↦ ap (λ (x : Peer). is_in x.node_pub) e ∙ k j (sym g ∙ h)
      ]
    ]

apply_one_peer-KeptIsIn :
    (is_in : Bytes → Bool) (env : Env) (p : ParsedPeer) (s : State) (keep : List Bool)
    → (p.have_node_pub ≡ true → is_in p.key ≡ true)
    → KeptIsIn is_in s.peers keep
    → let r = apply_one_peer env p (s, keep) in KeptIsIn is_in r.0.peers r.1
apply_one_peer-KeptIsIn is_in env p s keep here k = elim (apply_one_peer-Outcome env p s keep) [
  | ignored same ↦
      subst (λ xs. KeptIsIn is_in xs (apply_one_peer env p (s, keep)).1) (sym same.same_peers)
        (subst (λ ks. KeptIsIn is_in s.peers ks) (sym same.same_keep) k)
  | refreshed_at slot given found e ↦
      let (_, holds) = find_slot-holds (has_key p.key) s.peers slot found in
      subst (λ (x : State × List Bool). KeptIsIn is_in x.0.peers x.1) (sym e)
        (refreshed-KeptIsIn is_in env p slot s keep (here given) holds k)
  | added_at slot i given unknown free ok a ↦
      let (lt, _) = find_slot-holds is_free s.peers slot free in
      subst (λ xs. KeptIsIn is_in xs (apply_one_peer env p (s, keep)).1) (sym a.new_peers)
        (subst (λ ks. KeptIsIn is_in (set s.peers slot (new_peer p i)) ks) (sym a.new_keep)
          (added-KeptIsIn is_in p slot i s.peers keep (here given) lt k))
]

listed_here :
    (p : ParsedPeer) (ps : List ParsedPeer) → p.have_node_pub ≡ true → listed p.key (p ∷ ps) ≡ true
unfolding listed
listed_here p ps given =
    let same = (bytes_eq_iff p.key p.key).1 refl in
    ap (λ b. b && bytes_eq p.key p.key || listed p.key ps) given
    ∙ ap (λ b. b || listed p.key ps) same

or_right : (a b : Bool) → b ≡ true → a || b ≡ true
or_right a b h = ground arith

listed_later :
    (key : Bytes) (p : ParsedPeer) (ps : List ParsedPeer)
    → listed key ps ≡ true
    → listed key (p ∷ ps) ≡ true
unfolding listed
listed_later key p ps h = or_right (p.have_node_pub && bytes_eq p.key key) (listed key ps) h

apply_peers-KeptIsIn :
    (is_in : Bytes → Bool) (env : Env) (ps : List ParsedPeer) (s : State) (keep : List Bool)
    → ((key : Bytes) → listed key ps ≡ true → is_in key ≡ true)
    → KeptIsIn is_in s.peers keep
    → let r = apply_peers env ps (s, keep) in KeptIsIn is_in r.0.peers r.1
unfolding apply_peers
apply_peers-KeptIsIn is_in env [] s keep all k = k
apply_peers-KeptIsIn is_in env (p ∷ ps) s keep all k =
    let r = apply_one_peer env p (s, keep) in
    apply_peers-KeptIsIn is_in env ps r.0 r.1 (λ key h. all key (listed_later key p ps h))
      (apply_one_peer-KeptIsIn is_in env p s keep (λ given. all p.key (listed_here p ps given)) k)

fresh_lem : (a k : Bool) → a && not k ≡ false → a ≡ true → k ≡ true
fresh_lem a k e h = ground arith

one_kept :
    (x : Peer) (b : Bool) (r : List Peer × List Call) (xs : List Peer) (keep : List Bool) (j : ℕ)
    → is_stale x keep ≡ b
    → ((i : ℕ)
        → (get_or r.0 i no_peer).active ≡ true
        → (get_or (drop 1 keep) i false ≡ true) × (get_or r.0 i no_peer ≡ get_or xs i no_peer))
    → (get_or (sweep_one b x r).0 j no_peer).active ≡ true
    → (get_or keep j false ≡ true)
      × (get_or (sweep_one b x r).0 j no_peer ≡ get_or (x ∷ xs) j no_peer)
one_kept x true r xs keep zero e rest h = absurd (cc)
one_kept x false r xs keep zero e rest h = (fresh_lem x.active (get_or keep 0 false) e h, refl)
one_kept x true r xs [] (suc j) e rest h = rest j h
one_kept x true r xs (k ∷ keep) (suc j) e rest h = rest j h
one_kept x false r xs [] (suc j) e rest h = rest j h
one_kept x false r xs (k ∷ keep) (suc j) e rest h = rest j h

-- What the loop leaves active was kept, and was not changed.
sweep_slots-kept :
    (xs : List Peer) (keep : List Bool) (j : ℕ)
    → (get_or (sweep_slots xs keep).0 j no_peer).active ≡ true
    → (get_or keep j false ≡ true)
      × (get_or (sweep_slots xs keep).0 j no_peer ≡ get_or xs j no_peer)
unfolding sweep_slots
sweep_slots-kept [] keep j h = absurd (cc)
sweep_slots-kept (x ∷ xs) keep j h =
    one_kept x (is_stale x keep) (sweep_slots xs (drop 1 keep)) xs keep j refl
      (sweep_slots-kept xs (drop 1 keep)) h

get_or-replicate {ℓ} : {A : Type ℓ} (n : ℕ) (a : A) (j : ℕ) → get_or (replicate n a) j a ≡ a
get_or-replicate zero a j = refl
get_or-replicate (suc n) a zero = refl
get_or-replicate (suc n) a (suc j) = get_or-replicate n a j

none_kept_lem : (b : Bool) (j : ℕ) → get_or (replicate max_peers false) j false ≡ true → b ≡ true
none_kept_lem b j h =
    let e : false ≡ true = sym (get_or-replicate max_peers false j) ∙ h in absurd (cc)

-- After a full snapshot every active entry has a key that a peer of the snapshot has.
pub update_peers-IsListed :
    (env : Env) (ps : List ParsedPeer) (s : State) (j : ℕ)
    → let x = get_or (update_peers env true ps s).peers j no_peer in
      x.active ≡ true → listed x.node_pub ps ≡ true
unfolding update_peers sweep
update_peers-IsListed env ps s j is_on =
    let none_kept = replicate max_peers false in
    let (s', keep) = apply_peers env ps (s, none_kept) in
    let (kept, same) = sweep_slots-kept s'.peers keep j is_on in
    let ok =
      apply_peers-KeptIsIn (λ key. listed key ps) env ps s none_kept (λ key h. h)
        (λ i. none_kept_lem (listed (get_or s.peers i no_peer).node_pub ps) i) in
    ap (λ (x : Peer). listed x.node_pub ps) same ∙ ok j kept
