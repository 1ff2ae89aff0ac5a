-- ===== src/Netmap/Candidates.antt =====
-- The endpoints of a peer in components/tailscale/src/tailscale_netmap.c: parsing "1.2.3.4:12345", the
-- score of an address, and the table of the best eight. An IPv4 address is its number in host order;
-- `x & mask` with the k low bits clear in the mask is `x / 2 ^ k * 2 ^ k`. lwIP's `ip4addr_aton` is the
-- parameter `aton`.
pub mod Score
pub mod Best
pub mod Table
pub mod Top
use portable_terminal.Base.{
  ℕ, zero, suc, ◌+◌, ◌-◌, ◌*◌, ◌/◌, ◌%◌, ◌^◌, Bool, true, false, not, ◌&&◌, ◌||◌, Option, none,
  some, List, [], ◌∷◌, Bytes, length, get_or, set, take, replicate, ltb, leb, ◌==◌, if◌then◌else◌,
}
use portable_terminal.Libc.{split_last, atoi}

-- `ep_candidate_t`
pub record Candidate : Type 0 where
  pub ip : ℕ
  pub port : ℕ
  pub score : ℕ

-- `parse_endpoint`; `ip_buf` has 40 bytes.
unfoldable pub parse_endpoint : (Bytes → Option ℕ) → Bytes → Option (ℕ × ℕ)
parse_endpoint aton ep_str = elim (split_last b':' ep_str) [
  | none ↦ none
  | some (ip_text, port_text) ↦
      let port = atoi port_text % 2 ^ 16 in
      if length ip_text == 0 || leb 40 (length ip_text) then none else elim (aton ip_text) [
        | none ↦ none
        | some ip ↦ if port == 0 then none else some (ip, port)
      ]
]

-- `a & ~(2 ^ k - 1)`
abbrev pub network : ℕ → ℕ → ℕ
network k a = a / 2 ^ k * 2 ^ k

abbrev pub is_rfc1918 : ℕ → Bool
is_rfc1918 a =
    network 24 a == 0x0A000000
    || network 20 a == 0xAC100000
    || network 16 a == 0xC0A80000
    || network 16 a == 0xA9FE0000

unfoldable pub self_bonus : ℕ → ℕ → ℕ
self_bonus self_ip a =
    if self_ip == 0
    then 0
    else if network 8 a == network 8 self_ip
    then 30
    else if network 16 a == network 16 self_ip
    then 20
    else if network 24 a == network 24 self_ip
    then 10
    else 0

-- the score of address `a`, when our own address is `self_ip` (0 if there is none)
unfoldable pub endpoint_score : ℕ → ℕ → ℕ
unfolding self_bonus
endpoint_score self_ip a = 1 + (if is_rfc1918 a then 4 else 0) + self_bonus self_ip a

-- `TS_NETMAP_MAX_CANDIDATES`
abbrev pub max_candidates : ℕ
max_candidates = 8

-- `cands` and `cand_count` of `peer_parse_t`
pub record CandidateTable : Type 0 where
  pub cands : List Candidate
  pub cand_count : ℕ

abbrev pub no_candidate : Candidate
no_candidate = record { ip = 0; port = 0; score = 0 }

abbrev pub empty_table : CandidateTable
empty_table = record { cands = replicate max_candidates no_candidate; cand_count = 0 }

-- The `while` loop: the free slot moves down past every worse candidate, each of which moves up.
unfoldable pub make_room : ℕ → List Candidate → ℕ → ℕ × List Candidate
make_room zero cands score = (zero, cands)
make_room (suc k) cands score = elim (ltb (get_or cands k no_candidate).score score) [
  | true ↦ make_room k (set cands (suc k) (get_or cands k no_candidate)) score
  | false ↦ (suc k, cands)
]

-- the stores into `cands[slot]`
unfoldable pub place : ℕ → Candidate → List Candidate → List Candidate
place slot c cands = let (k, moved) = make_room slot cands c.score in set moved k c

-- one candidate of the loop over "Endpoints"
unfoldable pub add_candidate : Candidate → CandidateTable → CandidateTable
add_candidate c t =
    if leb max_candidates t.cand_count
    then (if leb c.score (get_or t.cands (max_candidates - 1) no_candidate).score
        then t
        else record t { cands = place (max_candidates - 1) c t.cands })
    else record t { cands = place t.cand_count c t.cands; cand_count = t.cand_count + 1 }

-- the candidates in the table, best first
abbrev pub used : CandidateTable → List Candidate
used t = take t.cand_count t.cands

-- the loop over the candidates of the list that parsed
unfoldable pub add_candidates : List Candidate → CandidateTable → CandidateTable
add_candidates [] t = t
add_candidates (c ∷ cs) t = add_candidates cs (add_candidate c t)
