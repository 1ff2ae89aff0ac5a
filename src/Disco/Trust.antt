-- ===== src/Disco/Trust.antt =====
-- When components/tailscale/src/tailscale_disco.c takes a direct path for verified.
use portable_terminal.Base.{
  ℕ, ◌+◌, ◌≡◌, refl, sym, ap, ◌∙◌, Bool, true, false, not, ◌&&◌, ◌||◌, ◌==◌, some, List, Bytes,
  arith, length, get_or, set, take, drop, ltb, if◌then◌else◌, bytes_eq, Bool-cases, Option-cases,
  inl, inr, ◌⊎◌, ==_iff, get_or-set_or,
}
use portable_terminal.Disco.{
  Env, State, magic, header_len, tag_len, inner_hdr_len, txid_len, peers_max, msg_ping, msg_pong,
  msg_call_me_maybe, no_pending, pending_find, sender_of, open_disco_frame,
}
use portable_terminal.Disco.Send.{is_verified_at}
use portable_terminal.Disco.Receive.{
  promote, released, answer_pending, on_pong, dispatch, pt_max, rx,
}
use portable_terminal.Disco.Flags.{on_ping-verified, call_me_maybe-verified}

-- The outcome of handling a message: the flags as they were, or one more set.
Flagged : ℕ → State → State → Type 0
Flagged i st st' = (st'.verified ≡ st.verified) ⊎ (st'.verified ≡ set st.verified i true)

if_Flagged :
    (i : ℕ) (st x y : State) (b : Bool)
    → Flagged i st x
    → Flagged i st y
    → Flagged i st (if b then x else y)
if_Flagged i st x y true h g = h
if_Flagged i st x y false h g = g

promote-Flagged : (now i ip port : ℕ) (st : State) → Flagged i st (promote now i ip port st)
unfolding promote Flagged
promote-Flagged now i ip port st =
    if_Flagged i st _ _ (is_verified_at i st) (inl refl)
      (if_Flagged i st _ _ (ltb i peers_max) (inr refl) (inl refl))

-- what makes a Pong count: the Ping in the slot is in flight, carries the Pong's number and went to
-- the sender
record Answers (sender pt : Bytes) (slot : ℕ) (st : State) : Type 0 where
  in_flight : pending_find (take txid_len (drop inner_hdr_len pt)) st ≡ some slot
  pinged : bytes_eq (get_or st.pending slot no_pending).peer_disco_pub sender ≡ true

-- the index of the peer that a pending Ping went to
abbrev index_at : ℕ → State → ℕ
index_at slot st = (get_or st.pending slot no_pending).wg_peer_index

answer-Flagged :
    (now : ℕ) (sender : Bytes) (slot ip port : ℕ) (st : State)
    → ((answer_pending now sender slot ip port st).verified ≡ st.verified)
      ⊎ ((bytes_eq (get_or st.pending slot no_pending).peer_disco_pub sender ≡ true)
          × Flagged (index_at slot st) st (answer_pending now sender slot ip port st))
unfolding answer_pending Flagged
answer-Flagged now sender slot ip port st =
    let pp = get_or st.pending slot no_pending in
    let st' = record st { pending = set st.pending slot (released pp) } in
    elim (Bool-cases (bytes_eq pp.peer_disco_pub sender)) [
      | inr e ↦ inl (rw e)
      | inl e ↦ inr (e, rw e (promote-Flagged now pp.wg_peer_index ip port st'))
    ]

-- The outcome of a handler: the flags as they were, or set as a Pong that answers a Ping says.
record ByPong (sender pt : Bytes) (st st' : State) : Type 0 where
  slot : ℕ
  answers : Answers sender pt slot st
  flagged : Flagged (index_at slot st) st st'

Handled : Bytes → Bytes → State → State → Type 0
Handled sender pt st st' = (st'.verified ≡ st.verified) ⊎ ByPong sender pt st st'

on_pong-Handled :
    (now : ℕ) (sender pt : Bytes) (ip port : ℕ) (st : State)
    → Handled sender pt st (on_pong now sender pt ip port st)
unfolding on_pong Handled
on_pong-Handled now sender pt ip port st =
    let tx_id = take txid_len (drop inner_hdr_len pt) in
    elim (Bool-cases (ltb (length pt) (inner_hdr_len + txid_len))) [
      | inl e ↦ inl (rw e)
      | inr e ↦ elim (Option-cases (pending_find tx_id st)) [
        | inl g ↦ inl (rw (e, g))
        | inr (slot, g) ↦ elim (answer-Flagged now sender slot ip port st) [
          | inl same ↦ inl (rw (e, g) same)
          | inr (pinged, f) ↦ inr (record {
            slot = slot;
            answers = record { in_flight = g; pinged = pinged };
            flagged = rw (e, g) f;
          })
        ]
      ]
    ]

dispatch-Handled :
    (env : Env) (now : ℕ) (sender pt : Bytes) (ip port : ℕ) (st : State)
    → let st' = dispatch env now sender pt ip port st in
      (st'.verified ≡ st.verified) ⊎ ((get_or pt 0 0 ≡ msg_pong) × ByPong sender pt st st')
unfolding dispatch Handled
dispatch-Handled env now sender pt ip port st =
    let type = get_or pt 0 0 in
    elim (Bool-cases (type == msg_ping)) [
      | inl e ↦ inl (rw e (on_ping-verified env now sender pt ip port st))
      | inr e ↦ elim (Bool-cases (type == msg_pong)) [
        | inl g ↦ elim (on_pong-Handled now sender pt ip port st) [
          | inl same ↦ inl (rw (e, g) same)
          | inr by_pong ↦ inr ((==_iff type msg_pong).0 g, rw (e, g) by_pong)
        ]
        | inr g ↦ elim (Bool-cases (type == msg_call_me_maybe)) [
          | inl h ↦ inl (rw (e, g, h) (call_me_maybe-verified env sender pt st))
          | inr h ↦ inl (rw (e, g, h))
        ]
      ]
    ]

-- A Pong in the frame answers the Ping in the slot: the frame has the magic and opens, under the key
-- of the sender that it names, to a Pong whose number is that of a Ping in flight to that sender.
pub record IsAnswer (env : Env) (frame : Bytes) (i : ℕ) (st : State) : Type 0 where
  pub pt : Bytes
  pub slot : ℕ
  pub starts : bytes_eq (take 6 frame) magic ≡ true
  pub opened : open_disco_frame env frame (sender_of frame) pt_max st ≡ some pt
  pub is_pong : get_or pt 0 0 ≡ msg_pong
  pub in_flight : pending_find (take txid_len (drop inner_hdr_len pt)) st ≡ some slot
  pub pinged : bytes_eq (get_or st.pending slot no_pending).peer_disco_pub (sender_of frame) ≡ true
  pub peer : (get_or st.pending slot no_pending).wg_peer_index ≡ i

last_passes : (a b c : Bool) → not a || b || not c ≡ false → c ≡ true
last_passes a b c h = ground arith

rx-dispatches :
    (env : Env) (now : ℕ) (frame : Bytes) (ip port : ℕ) (st : State)
    → ((rx env now frame ip port st).verified ≡ st.verified)
      ⊎ ((pt : Bytes) × (bytes_eq (take 6 frame) magic ≡ true)
          × (open_disco_frame env frame (sender_of frame) pt_max st ≡ some pt)
          × (rx env now frame ip port st ≡ dispatch env now (sender_of frame) pt ip port st))
unfolding rx
rx-dispatches env now frame ip port st =
    let shut =
      not st.inited
      || ltb (length frame) (header_len + tag_len + inner_hdr_len)
      || not (bytes_eq (take 6 frame) magic) in
    elim (Bool-cases shut) [
      | inl e ↦ inl (rw e)
      | inr e ↦ elim (Option-cases (open_disco_frame env frame (sender_of frame) pt_max st)) [
        | inl g ↦ inl (rw (e, g))
        | inr (pt, g) ↦ elim (Bool-cases (ltb (length pt) inner_hdr_len)) [
          | inl h ↦ inl (rw (e, g, h))
          | inr h ↦ inr (
            pt,
            last_passes st.inited (ltb (length frame) (header_len + tag_len + inner_hdr_len))
                (bytes_eq (take 6 frame) magic) e,
            g,
            rw (e, g, h),
          )
        ]
      ]
    ]

absurd_lem {ℓ} : {A : Type ℓ} → false ≡ true → A
absurd_lem h = absurd (cc)

newly_set :
    (i j : ℕ) (before after : List Bool)
    → ltb i peers_max && get_or before i false ≡ false
    → ltb i peers_max && get_or after i false ≡ true
    → (after ≡ before) ⊎ (after ≡ set before j true)
    → j ≡ i
newly_set i j before after off on (inl same) =
    absurd_lem (sym off ∙ ap (λ l. ltb i peers_max && get_or l i false) (sym same) ∙ on)
newly_set i j before after off on (inr new) = elim (get_or-set_or before j true false i) [
  | inl (at, _) ↦ at
  | inr e ↦ absurd_lem (
      sym off
      ∙ ap (λ b. ltb i peers_max && b) (sym e)
      ∙ ap (λ l. ltb i peers_max && get_or l i false) (sym new)
      ∙ on)
]

no-IsAnswer :
    (env : Env) (frame : Bytes) (i : ℕ) (st st' : State)
    → st'.verified ≡ st.verified
    → is_verified_at i st ≡ false
    → is_verified_at i st' ≡ true
    → IsAnswer env frame i st
no-IsAnswer env frame i st st' same off on =
    absurd_lem (sym off ∙ ap (λ l. ltb i peers_max && get_or l i false) (sym same) ∙ on)

-- A datagram makes a peer verified only by a Pong from that peer to a Ping in flight to it: if the
-- peer was not verified before and is after, then the frame opens under its sender's key to a Pong
-- whose number a Ping in flight has that went to that sender, on the peer's index.
pub rx-verifies :
    (env : Env) (now : ℕ) (frame : Bytes) (src_ip src_port : ℕ) (st : State) (i : ℕ)
    → is_verified_at i st ≡ false
    → is_verified_at i (rx env now frame src_ip src_port st) ≡ true
    → IsAnswer env frame i st
unfolding Flagged
rx-verifies env now frame ip port st i off on =
    let st' = rx env now frame ip port st in
    elim (rx-dispatches env now frame ip port st) [
      | inl same ↦ no-IsAnswer env frame i st st' same off on
      | inr (pt, starts, opened, e) ↦
          elim (dispatch-Handled env now (sender_of frame) pt ip port st) [
            | inl same ↦
                no-IsAnswer env frame i st st' (ap (λ (s : State). s.verified) e ∙ same) off on
            | inr (is_pong, by_pong) ↦
                let on_dispatch = sym (ap (λ (s : State). is_verified_at i s) e) ∙ on in
                record {
                  pt = pt;
                  slot = by_pong.slot;
                  starts = starts;
                  opened = opened;
                  is_pong = is_pong;
                  in_flight = by_pong.answers.in_flight;
                  pinged = by_pong.answers.pinged;
                  peer =
                      newly_set i (index_at by_pong.slot st) st.verified
                        (dispatch env now (sender_of frame) pt ip port st).verified off on_dispatch
                        by_pong.flagged;
                }
          ]
    ]
