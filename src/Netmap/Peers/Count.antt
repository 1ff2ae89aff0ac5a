-- ===== src/Netmap/Peers/Count.antt =====
-- Counting the entries of the peer table of components/tailscale/src/tailscale_netmap.c, and which
-- WireGuard indices a list of calls leaves in use.
use portable_terminal.Base.{
  ℕ, zero, suc, ◌+◌, ◌<◌, ◌≡◌, refl, ap, Bool, true, false, not, ◌&&◌, ◌||◌, ◌==◌, Option, none,
  some, List, [], ◌∷◌, ◌++◌, arith, length, get_or, set, if◌then◌else◌, Bool-cases, inl, inr, ◌⊎◌,
  map, Bytes,
}
use portable_terminal.Netmap.Candidates.{Candidate, used}
use portable_terminal.Netmap.Peers.{
  Peer, ParsedPeer, Call, wg_added, wg_remove_peer, disco_send_ping, no_peer, find_slot,
  one_further, is_key_set, call_me_maybe, send_pings, Env, endpoint_update,
}

abbrev pub to_nat : Bool → ℕ
to_nat true = 1
to_nat false = 0

-- how many entries pass the test
unfoldable pub count : (Peer → Bool) → List Peer → ℕ
count p [] = 0
count p (x ∷ xs) = to_nat (p x) + count p xs

pub count-set :
    (p : Peer → Bool) (xs : List Peer) (i : ℕ) (v : Peer)
    → i < length xs
    → count p (set xs i v) + to_nat (p (get_or xs i no_peer)) ≡ count p xs + to_nat (p v)
unfolding count
count-set p [] i v h = absurd (omega arith)
count-set p (x ∷ xs) zero v h = omega arith
count-set p (x ∷ xs) (suc i) v h = omega (arith, count-set p xs i v (omega arith))

not_found_cases :
    (b : Bool) (o : Option ℕ)
    → (if b then some 0 else one_further o) ≡ none
    → (b ≡ false) × (o ≡ none)
not_found_cases true o h = absurd (cc)
not_found_cases false none h = (refl, refl)
not_found_cases false (some i) h = absurd (cc)

pub find_slot-count : (p : Peer → Bool) (xs : List Peer) → find_slot p xs ≡ none → count p xs ≡ 0
unfolding find_slot count
find_slot-count p [] h = refl
find_slot-count p (x ∷ xs) h =
    let (here, rest) = not_found_cases (p x) (find_slot p xs) h in
    omega (arith, ap to_nat here, find_slot-count p xs rest)

found_cases :
    (b : Bool) (o : Option ℕ) (i : ℕ)
    → (if b then some 0 else one_further o) ≡ some i
    → ((b ≡ true) × (i ≡ 0)) ⊎ ((k : ℕ) × (o ≡ some k) × (i ≡ suc k))
found_cases true o i h = inl (refl, cc)
found_cases false none i h = absurd (cc)
found_cases false (some k) i h = inr (k, refl, cc)

pub find_slot-holds :
    (p : Peer → Bool) (xs : List Peer) (i : ℕ)
    → find_slot p xs ≡ some i
    → (i < length xs) × (p (get_or xs i no_peer) ≡ true)
unfolding find_slot
find_slot-holds p [] i h = absurd (cc)
find_slot-holds p (x ∷ xs) i h = elim (found_cases (p x) (find_slot p xs) i h) [
  | inl (here, at) ↦ rw (at) (omega arith, here)
  | inr (k, found, at) ↦
      let (lt, holds) = find_slot-holds p xs k found in rw (at) (omega arith, holds)
]

-- whether WireGuard has a peer at the index after one call
abbrev pub effect : ℕ → Bool → Call → Bool
effect w b (wg_added _ _ _ _ _ i) = i == w || b
effect w b (wg_remove_peer i) = not (i == w) && b
effect w b _ = b

-- whether WireGuard has a peer at the index `w` after the calls, if `b` says so before them
unfoldable pub live : ℕ → Bool → List Call → Bool
live w b [] = b
live w b (c ∷ cs) = live w (effect w b c) cs

pub live-append :
    (w : ℕ) (b : Bool) (xs ys : List Call) → live w b (xs ++ ys) ≡ live w (live w b xs) ys
unfolding live
live-append w b [] ys = refl
live-append w b (x ∷ xs) ys = live-append w (effect w b x) xs ys

pub live-call_me_maybe :
    (w : ℕ) (b : Bool) (i : ℕ) (p : ParsedPeer) → live w b (call_me_maybe i p) ≡ b
unfolding live call_me_maybe
live-call_me_maybe w b i p = ground arith

pub live-endpoint_update :
    (w : ℕ) (b : Bool) (env : Env) (cs : List Call) (i : ℕ) (p : ParsedPeer)
    → live w b (endpoint_update env cs i p) ≡ b
unfolding live endpoint_update
live-endpoint_update w b env cs i p = ground arith

pings_lem :
    (w : ℕ) (b : Bool) (i : ℕ) (key disco : Bytes) (cs : List Candidate)
    → live w b (map (λ (c : Candidate). disco_send_ping i key disco c.ip c.port) cs) ≡ b
unfolding live
pings_lem w b i key disco [] = refl
pings_lem w b i key disco (c ∷ cs) = pings_lem w b i key disco cs

pub live-send_pings : (w : ℕ) (b : Bool) (i : ℕ) (p : ParsedPeer) → live w b (send_pings i p) ≡ b
unfolding send_pings live
live-send_pings w b i p = elim (Bool-cases (is_key_set p.disco_key)) [
  | inl e ↦ rw e (pings_lem w b i p.key p.disco_key (used p.candidates))
  | inr e ↦ rw e
]

-- whether a call adds a peer at the index `w` while WireGuard has one there
abbrev pub clash : ℕ → Bool → Call → Bool
clash w b (wg_added _ _ _ _ _ i) = i == w && b
clash w b _ = false

-- how many of the calls do
unfoldable pub clashes : ℕ → Bool → List Call → ℕ
clashes w b [] = 0
clashes w b (c ∷ cs) = to_nat (clash w b c) + clashes w (effect w b c) cs

pub clashes-append :
    (w : ℕ) (b : Bool) (xs ys : List Call)
    → clashes w b (xs ++ ys) ≡ clashes w b xs + clashes w (live w b xs) ys
unfolding clashes live
clashes-append w b [] ys = omega arith
clashes-append w b (x ∷ xs) ys = omega (arith, clashes-append w (effect w b x) xs ys)

pub clashes-call_me_maybe :
    (w : ℕ) (b : Bool) (i : ℕ) (p : ParsedPeer) → clashes w b (call_me_maybe i p) ≡ 0
unfolding clashes call_me_maybe
clashes-call_me_maybe w b i p = ground arith

pub clashes-endpoint_update :
    (w : ℕ) (b : Bool) (env : Env) (cs : List Call) (i : ℕ) (p : ParsedPeer)
    → clashes w b (endpoint_update env cs i p) ≡ 0
unfolding clashes endpoint_update
clashes-endpoint_update w b env cs i p = ground arith

pings_clash :
    (w : ℕ) (b : Bool) (i : ℕ) (key disco : Bytes) (cs : List Candidate)
    → clashes w b (map (λ (c : Candidate). disco_send_ping i key disco c.ip c.port) cs) ≡ 0
unfolding clashes
pings_clash w b i key disco [] = refl
pings_clash w b i key disco (c ∷ cs) = omega (arith, pings_clash w b i key disco cs)

pub clashes-send_pings :
    (w : ℕ) (b : Bool) (i : ℕ) (p : ParsedPeer) → clashes w b (send_pings i p) ≡ 0
unfolding send_pings clashes
clashes-send_pings w b i p = elim (Bool-cases (is_key_set p.disco_key)) [
  | inl e ↦ rw e (pings_clash w b i p.key p.disco_key (used p.candidates))
  | inr e ↦ rw e
]
