-- ===== src/Netmap/Candidates/Score.antt =====
-- How the score of components/tailscale/src/tailscale_netmap.c ranks addresses.
use portable_terminal.Base.{ℕ, ◌+◌, ◌≤◌, ◌<◌, ◌≡◌, ◌≢◌, arith}
use portable_terminal.Netmap.Candidates.{network, self_bonus, endpoint_score}

-- A score is one more than the bonus, or five more.
score_between :
    (self_ip a : ℕ)
    → (self_bonus self_ip a + 1 ≤ endpoint_score self_ip a)
      × (endpoint_score self_ip a ≤ self_bonus self_ip a + 5)
unfolding endpoint_score
score_between self_ip a = ground arith

network_widens_16 : (a b : ℕ) → network 8 a ≡ network 8 b → network 16 a ≡ network 16 b
network_widens_16 a b h = omega arith

network_widens_24 : (a b : ℕ) → network 16 a ≡ network 16 b → network 24 a ≡ network 24 b
network_widens_24 a b h = omega arith

bonus_in_24 : (s a : ℕ) → s ≢ 0 → network 8 a ≡ network 8 s → self_bonus s a ≡ 30
unfolding self_bonus
bonus_in_24 s a own h = ground arith

bonus_off_24 : (s a : ℕ) → network 8 a ≢ network 8 s → self_bonus s a ≤ 20
unfolding self_bonus
bonus_off_24 s a h = ground arith

bonus_in_16 : (s a : ℕ) → s ≢ 0 → network 16 a ≡ network 16 s → 20 ≤ self_bonus s a
unfolding self_bonus
bonus_in_16 s a own h = ground arith

bonus_off_16 :
    (s a : ℕ) → network 8 a ≢ network 8 s → network 16 a ≢ network 16 s → self_bonus s a ≤ 10
unfolding self_bonus
bonus_off_16 s a h g = ground arith

bonus_in_8 : (s a : ℕ) → s ≢ 0 → network 24 a ≡ network 24 s → 10 ≤ self_bonus s a
unfolding self_bonus
bonus_in_8 s a own h = ground arith

bonus_off_8 :
    (s a : ℕ)
    → network 8 a ≢ network 8 s
    → network 16 a ≢ network 16 s
    → network 24 a ≢ network 24 s
    → self_bonus s a ≡ 0
unfolding self_bonus
bonus_off_8 s a h g f = ground arith

-- When our own address is known, an address in our own /24 ranks above every address outside it, an
-- address in our /16 above every address outside that, and one in our /8 above every address outside
-- our /8.
pub endpoint_score_ranks :
    (self_ip a b : ℕ)
    → self_ip ≢ 0
    → (network 8 a ≡ network 8 self_ip
        → network 8 b ≢ network 8 self_ip
        → endpoint_score self_ip b < endpoint_score self_ip a)
      × (network 16 a ≡ network 16 self_ip
          → network 16 b ≢ network 16 self_ip
          → endpoint_score self_ip b < endpoint_score self_ip a)
      × (network 24 a ≡ network 24 self_ip
          → network 24 b ≢ network 24 self_ip
          → endpoint_score self_ip b < endpoint_score self_ip a)
endpoint_score_ranks s a b own =
    let (low, _) = score_between s a in
    let (_, high) = score_between s b in
    (
      λ near far. omega (arith, low, high, bonus_in_24 s a own near, bonus_off_24 s b far),
      λ near far.
          let off_8 : network 8 b ≢ network 8 s = λ h. far (network_widens_16 b s h) in
          omega (arith, low, high, bonus_in_16 s a own near, bonus_off_16 s b off_8 far),
      λ near far.
          let off_16 : network 16 b ≢ network 16 s = λ h. far (network_widens_24 b s h) in
          let off_8 : network 8 b ≢ network 8 s = λ h. off_16 (network_widens_16 b s h) in
          omega (arith, low, high, bonus_in_8 s a own near, bonus_off_8 s b off_8 off_16 far),
    )
