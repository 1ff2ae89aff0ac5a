-- ===== src/Telnet/Chunks.antt =====
-- `process_rx` does not see where the network cuts the stream.
use portable_terminal.Base.{
  ℕ, ◌≡◌, refl, sym, ap, ◌∙◌, Bool, true, false, ◌||◌, List, [], ◌∷◌, ◌++◌, Bytes, append-nil,
  append_assoc, ◌==◌, if◌then◌else◌,
}
use portable_terminal.Telnet.{
  iac, sb, se, dont_cmd, do_cmd, wont_cmd, will_cmd, opt_echo, opt_sga, opt_naws, RxState, in_data,
  in_iac, in_iac2, in_sb_head, in_sb_data, in_sb_iac, Session, Received, write_call, send_naws_sb,
  reply, naws_message, accept_naws, handle_negotiation, move, keep, note_command, on_state,
  rx_bytes, delivered, process_rx,
}

abbrev pub joined : List Bytes → Bytes
joined [] = []
joined (bs ∷ rest) = bs ++ joined rest

abbrev pub fresh : Session → Received
fresh s = record { session = s; data_bytes = []; writes = [] }

abbrev pub results : Received → Session × (Bytes × List Bytes)
results r = (r.session, (r.data_bytes, r.writes))

-- The chunks that `recv` returns, one after the other: the session, the bytes that `rx_apply` was
-- given and what was written. The first argument says that `rx_apply` is set.
unfoldable pub receive_all : Bool → List Bytes → Session → Session × (Bytes × List Bytes)
unfolding process_rx
receive_all has_sink [] s = (s, ([], []))
receive_all has_sink (chunk ∷ chunks) s =
    let now = process_rx has_sink chunk s in
    let later = receive_all has_sink chunks now.0 in
    (later.0, (joined now.1.0 ++ later.1.0, now.1.1 ++ later.1.1))

-- q with the data and the writes of r before its own
abbrev behind : Received → Received → Received
behind r q = record q { data_bytes = r.data_bytes ++ q.data_bytes; writes = r.writes ++ q.writes }

if_map :
    {A B : Type 0} (f : A → B) (t : Bool) (x y : A) (x' y' : B)
    → x' ≡ f x
    → y' ≡ f y
    → (if t then x' else y') ≡ f (if t then x else y)
if_map f true x y x' y' p q = p
if_map f false x y x' y' p q = q

write_call-behind :
    (m : Bytes) (r q : Received) → write_call m (behind r q) ≡ behind r (write_call m q)
write_call-behind m r q =
    ap (λ w. record (behind r q) { writes = w }) (append_assoc r.writes q.writes (m ∷ []))

keep-behind : (b : ℕ) (r q : Received) → keep b (behind r q) ≡ behind r (keep b q)
keep-behind b r q =
    ap (λ d. record (behind r q) { data_bytes = d })
      (append_assoc r.data_bytes q.data_bytes (b ∷ []))

handle_negotiation-behind :
    (cmd opt : ℕ) (r q : Received)
    → handle_negotiation cmd opt (behind r q) ≡ behind r (handle_negotiation cmd opt q)
unfolding handle_negotiation send_naws_sb
handle_negotiation-behind cmd opt r q =
    let f = behind r in
    let put : Bytes → Received = λ m. write_call m q in
    let welcome = reply (if opt == opt_echo || opt == opt_sga then do_cmd else dont_cmd) opt in
    let refuse = reply wont_cmd opt in
    let agree = put (reply will_cmd opt) in
    let last = if cmd == wont_cmd then put (reply dont_cmd opt) else q in
    let third = if cmd == dont_cmd then put refuse else last in
    let second = if cmd == will_cmd then put welcome else third in
    let size = naws_message q.session.cols q.session.rows in
    if_map f (cmd == do_cmd)
      (if opt == opt_naws then send_naws_sb (accept_naws agree) else put refuse) second _ _
      (if_map f (opt == opt_naws) (send_naws_sb (accept_naws agree)) (put refuse) _ _
        (ap (λ x. send_naws_sb (accept_naws x)) (write_call-behind (reply will_cmd opt) r q)
          ∙ write_call-behind size r (accept_naws agree))
        (write_call-behind refuse r q))
      (if_map f (cmd == will_cmd) (put welcome) third _ _ (write_call-behind welcome r q) (
        if_map f (cmd == dont_cmd) (put refuse) last _ _ (write_call-behind refuse r q) (
          if_map f (cmd == wont_cmd) (put (reply dont_cmd opt)) q _ _
            (write_call-behind (reply dont_cmd opt) r q) refl)))

on_state-behind :
    (t : RxState) (b : ℕ) (r q : Received) → on_state t b (behind r q) ≡ behind r (on_state t b q)
unfolding on_state
on_state-behind in_data b r q =
    if_map (behind r) (b == iac) (move in_iac q) (keep b q) _ _ refl (keep-behind b r q)
on_state-behind in_iac b r q =
    let f = behind r in
    let verb = b == do_cmd || (b == dont_cmd || (b == will_cmd || b == wont_cmd)) in
    let third = if verb then move in_iac2 (note_command b q) else move in_data q in
    let second = if b == sb then move in_sb_head q else third in
    if_map f (b == iac) (move in_data (keep iac q)) second _ _
      (ap (move in_data) (keep-behind iac r q))
      (if_map f (b == sb) (move in_sb_head q) third _ _ refl
        (if_map f verb (move in_iac2 (note_command b q)) (move in_data q) _ _ refl refl))
on_state-behind in_iac2 b r q =
    ap (move in_data) (handle_negotiation-behind q.session.cmd_byte b r q)
on_state-behind in_sb_head b r q = refl
on_state-behind in_sb_data b r q = if_map (behind r) (b == iac) (move in_sb_iac q) q _ _ refl refl
on_state-behind in_sb_iac b r q =
    let third = if b == iac then move in_sb_data q else move in_data q in
    if_map (behind r) (b == se) (move in_data q) third _ _ refl
      (if_map (behind r) (b == iac) (move in_sb_data q) (move in_data q) _ _ refl refl)

rx_bytes-behind :
    (bs : Bytes) (r q : Received) → rx_bytes bs (behind r q) ≡ behind r (rx_bytes bs q)
unfolding rx_bytes
rx_bytes-behind [] r q = refl
rx_bytes-behind (b ∷ bs) r q =
    ap (rx_bytes bs) (on_state-behind q.session.pstate b r q)
    ∙ rx_bytes-behind bs r (on_state q.session.pstate b q)

behind-fresh : (r : Received) → behind r (fresh r.session) ≡ r
behind-fresh r =
    ap (λ d. record r { data_bytes = d; writes = r.writes ++ [] }) (append-nil r.data_bytes)
    ∙ ap (λ w. record r { writes = w }) (append-nil r.writes)

rx_bytes-append :
    (xs ys : Bytes) (r : Received) → rx_bytes (xs ++ ys) r ≡ rx_bytes ys (rx_bytes xs r)
unfolding rx_bytes
rx_bytes-append [] ys r = refl
rx_bytes-append (x ∷ xs) ys r = rx_bytes-append xs ys (on_state r.session.pstate x r)

joined-delivered : (bs : Bytes) → joined (delivered true bs) ≡ bs
joined-delivered [] = refl
joined-delivered (b ∷ bs) = append-nil (b ∷ bs)

-- However the network cuts the bytes that a server sends, with `rx_apply` set, the filter ends in
-- the state, hands on the data and makes the writes that it would for all of them in one chunk.
pub receive_all-joined :
    (chunks : List Bytes) (s : Session)
    → receive_all true chunks s ≡ results (rx_bytes (joined chunks) (fresh s))
unfolding receive_all process_rx rx_bytes
receive_all-joined [] s = refl
receive_all-joined (chunk ∷ chunks) s =
    let now = rx_bytes chunk (fresh s) in
    let first : joined (delivered true now.data_bytes) ≡ now.data_bytes =
      joined-delivered now.data_bytes in
    let later = receive_all-joined chunks now.session in
    ap (λ o. (o.0, (joined (delivered true now.data_bytes) ++ o.1.0, now.writes ++ o.1.1))) later
    ∙ ap
        (λ d. results (record (behind now (rx_bytes (joined chunks) (fresh now.session))) {
          data_bytes = d ++ (rx_bytes (joined chunks) (fresh now.session)).data_bytes;
        }))
        first
    ∙ ap results (sym (rx_bytes-behind (joined chunks) now (fresh now.session)))
    ∙ ap (λ q. results (rx_bytes (joined chunks) q)) (behind-fresh now)
    ∙ ap results (sym (rx_bytes-append chunk (joined chunks) (fresh s)))
