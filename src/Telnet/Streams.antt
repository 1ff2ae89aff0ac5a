-- ===== src/Telnet/Streams.antt =====
-- The filter `process_rx` on the stream of a server that keeps to RFC 854 and RFC 855.
use portable_terminal.Base.{
  ℕ, ◌≡◌, refl, sym, ap, ◌∙◌, Bool, true, false, ◌||◌, List, [], ◌∷◌, ◌++◌, Bytes, append-nil,
  append_assoc, arith, ◌==◌, if◌then◌else◌, if-true, if-false, Bool-cases, inl, inr, ==_iff,
}
use portable_terminal.Telnet.{
  iac, dont_cmd, do_cmd, wont_cmd, will_cmd, sb, se, opt_naws, in_data, in_iac2, in_sb_data,
  Session, Received, handle_negotiation, move, keep, note_command, note_option, on_state, rx_bytes,
  send_naws_sb, accept_naws, naws_message, write_call, reply,
}
use portable_terminal.Telnet.Chunks.{joined, fresh, results, receive_all, receive_all-joined}
use portable_terminal.Telnet.Requests.{
  Verb, wants_naws, IsItem, do_it, do_not, will_do, will_not, verb_byte, Item, byte, command,
  request, subnegotiation, doubled, item_bytes, stream_bytes, IsStream, text_of, answer, answers,
  asks_naws,
}

-- an answered request
abbrev answered : Verb → ℕ → Received → Received
answered v opt r = record r {
  writes = r.writes ++ answer r.session.cols r.session.rows v opt;
  session = record r.session {
    cmd_byte = verb_byte v;
    naws_accepted = wants_naws v opt || r.session.naws_accepted;
  };
}

-- what an item does, apart from the state of the filter
unfoldable heard : Item → Received → Received
heard (byte b) r = keep b r
heard (command _) r = r
heard (request v opt) r = answered v opt r
heard (subnegotiation opt _) r = note_option opt r

unfoldable heard_all : List Item → Received → Received
heard_all [] r = r
heard_all (i ∷ is) r = heard_all is (heard i r)

do_lem :
    (wants : Bool) (opt : ℕ) (r : Received)
    → (if wants
        then send_naws_sb (accept_naws (write_call (reply will_cmd opt_naws) r))
        else write_call (reply wont_cmd opt) r)
      ≡ record r {
        writes =
            r.writes
            ++ (if wants
                then reply will_cmd opt_naws ∷ naws_message r.session.cols r.session.rows ∷ []
                else reply wont_cmd opt ∷ []);
        session = record r.session { naws_accepted = wants || r.session.naws_accepted };
      }
unfolding send_naws_sb
do_lem false opt r = refl
do_lem true opt r =
    ap (λ w. record r { writes = w; session = record r.session { naws_accepted = true } })
      (append_assoc r.writes _ _)

handle_negotiation-answered :
    (v : Verb) (opt : ℕ) (r : Received)
    → handle_negotiation (verb_byte v) opt (note_command (verb_byte v) r) ≡ answered v opt r
unfolding handle_negotiation answer wants_naws
handle_negotiation-answered do_it opt r = elim (Bool-cases (opt == opt_naws)) [
  | inl e ↦
      let same : opt ≡ opt_naws = (==_iff opt opt_naws).0 e in
      ap
        (λ o.
          if opt == opt_naws
          then send_naws_sb (accept_naws (write_call (reply will_cmd o) (note_command do_cmd r)))
          else write_call (reply wont_cmd opt) (note_command do_cmd r))
        same
      ∙ do_lem (opt == opt_naws) opt (note_command do_cmd r)
  | inr e ↦
      let noted = note_command do_cmd r in
      let refused = write_call (reply wont_cmd opt) noted in
      if-false _ _ e
      ∙ sym (
          if-false (send_naws_sb (accept_naws (write_call (reply will_cmd opt_naws) noted))) refused
            e)
      ∙ do_lem (opt == opt_naws) opt noted
]
handle_negotiation-answered do_not opt r = refl
handle_negotiation-answered will_do opt r = refl
handle_negotiation-answered will_not opt r = refl

rx_bytes-doubled :
    (bs rest : Bytes) (r : Received)
    → rx_bytes ((doubled bs ++ (iac ∷ se ∷ [])) ++ rest) (move in_sb_data r)
      ≡ rx_bytes rest (move in_data r)
unfolding rx_bytes on_state doubled
rx_bytes-doubled [] rest r = refl
rx_bytes-doubled (b ∷ bs) rest r = elim (Bool-cases (b == iac)) [
  | inl e ↦
      ap (λ (t : Bytes). rx_bytes ((t ++ (iac ∷ se ∷ [])) ++ rest) (move in_sb_data r))
        (if-true _ _ e)
      ∙ rx_bytes-doubled bs rest r
  | inr e ↦
      ap (λ (t : Bytes). rx_bytes ((t ++ (iac ∷ se ∷ [])) ++ rest) (move in_sb_data r))
        (if-false _ _ e)
      ∙ ap (rx_bytes ((doubled bs ++ (iac ∷ se ∷ [])) ++ rest)) (if-false _ _ e)
      ∙ rx_bytes-doubled bs rest r
]

request_lem :
    (v : Verb) (opt : ℕ) (rest : Bytes) (r : Received)
    → rx_bytes (iac ∷ verb_byte v ∷ opt ∷ rest) (move in_data r)
      ≡ rx_bytes rest (
          move in_data
            (handle_negotiation (verb_byte v) opt (note_command (verb_byte v) (move in_iac2 r))))
unfolding rx_bytes on_state
request_lem do_it opt rest r = refl
request_lem do_not opt rest r = refl
request_lem will_do opt rest r = refl
request_lem will_not opt rest r = refl

rx_bytes-item :
    (i : Item) (rest : Bytes) (r : Received)
    → IsItem i
    → rx_bytes (item_bytes i ++ rest) (move in_data r) ≡ rx_bytes rest (move in_data (heard i r))
unfolding rx_bytes on_state item_bytes heard
rx_bytes-item (byte b) rest r v = elim (Bool-cases (b == iac)) [
  | inl e ↦
      let same : b ≡ iac = (==_iff b iac).0 e in
      ap (λ (t : Bytes). rx_bytes (t ++ rest) (move in_data r)) (if-true _ _ e)
      ∙ ap (λ (t : ℕ). rx_bytes rest (move in_data (keep t r))) (sym same)
  | inr e ↦
      ap (λ (t : Bytes). rx_bytes (t ++ rest) (move in_data r)) (if-false _ _ e)
      ∙ ap (rx_bytes rest) (if-false _ _ e)
]
rx_bytes-item (command c) rest r v =
    let e1 : c == iac ≡ false = ground arith in
    let e2 : c == sb ≡ false = ground arith in
    let e3 : c == do_cmd || (c == dont_cmd || (c == will_cmd || c == wont_cmd)) ≡ false =
      ground arith in
    ap (rx_bytes rest) (if-false _ _ e1 ∙ if-false _ _ e2 ∙ if-false _ _ e3)
rx_bytes-item (request v opt) rest r _ =
    request_lem v opt rest r
    ∙ ap (λ x. rx_bytes rest (move in_data x)) (handle_negotiation-answered v opt (move in_iac2 r))
rx_bytes-item (subnegotiation opt bs) rest r v = rx_bytes-doubled bs rest (note_option opt r)

rx_bytes-stream :
    (is : List Item) (r : Received)
    → IsStream is
    → rx_bytes (stream_bytes is) (move in_data r) ≡ move in_data (heard_all is r)
unfolding rx_bytes stream_bytes heard_all
rx_bytes-stream [] r v = refl
rx_bytes-stream (i ∷ is) r v =
    rx_bytes-item i (stream_bytes is) r v.0 ∙ rx_bytes-stream is (heard i r) v.1

data-heard_all :
    (is : List Item) (r : Received) → (heard_all is r).data_bytes ≡ r.data_bytes ++ text_of is
unfolding heard_all heard text_of
data-heard_all [] r = sym (append-nil r.data_bytes)
data-heard_all (byte b ∷ is) r =
    data-heard_all is (keep b r) ∙ append_assoc r.data_bytes (b ∷ []) (text_of is)
data-heard_all (command _ ∷ is) r = data-heard_all is r
data-heard_all (subnegotiation opt _ ∷ is) r = data-heard_all is (note_option opt r)
data-heard_all (request v opt ∷ is) r = data-heard_all is (answered v opt r)

writes-heard_all :
    (is : List Item) (r : Received)
    → (heard_all is r).writes ≡ r.writes ++ answers r.session.cols r.session.rows is
unfolding heard_all heard answers
writes-heard_all [] r = sym (append-nil r.writes)
writes-heard_all (byte b ∷ is) r = writes-heard_all is (keep b r)
writes-heard_all (command _ ∷ is) r = writes-heard_all is r
writes-heard_all (subnegotiation opt _ ∷ is) r = writes-heard_all is (note_option opt r)
writes-heard_all (request v opt ∷ is) r =
    writes-heard_all is (answered v opt r)
    ∙ append_assoc r.writes (answer r.session.cols r.session.rows v opt) _

or_swap : (a b c : Bool) → a || (b || c) ≡ (b || a) || c
or_swap true true c = refl
or_swap true false c = refl
or_swap false true c = refl
or_swap false false c = refl

naws-heard_all :
    (is : List Item) (r : Received)
    → (heard_all is r).session.naws_accepted ≡ asks_naws is || r.session.naws_accepted
unfolding heard_all heard asks_naws
naws-heard_all [] r = refl
naws-heard_all (byte b ∷ is) r = naws-heard_all is (keep b r)
naws-heard_all (command _ ∷ is) r = naws-heard_all is r
naws-heard_all (subnegotiation opt _ ∷ is) r = naws-heard_all is (note_option opt r)
naws-heard_all (request v opt ∷ is) r =
    naws-heard_all is (answered v opt r) ∙ or_swap (asks_naws is) (wants_naws v opt) _

pub receive_all-stream :
    (is : List Item) (chunks : List Bytes) (s : Session)
    → IsStream is
    → s.pstate ≡ in_data
    → joined chunks ≡ stream_bytes is
    → let out = receive_all true chunks s in
      (out.1.0 ≡ text_of is)
      × (out.1.1 ≡ answers s.cols s.rows is)
      × (out.0.pstate ≡ in_data)
      × (out.0.naws_accepted ≡ asks_naws is || s.naws_accepted)
receive_all-stream is chunks s v rest cut =
    let start = record s { pstate = in_data } in
    let same : s ≡ start = ap (λ t. record s { pstate = t }) rest in
    let run : receive_all true chunks s ≡ results (move in_data (heard_all is (fresh s))) =
      receive_all-joined chunks s
      ∙ ap (λ bs. results (rx_bytes bs (fresh s))) cut
      ∙ ap (λ t. results (rx_bytes (stream_bytes is) (fresh t))) same
      ∙ ap results (rx_bytes-stream is (fresh s) v) in
    (
      ap (λ o. o.1.0) run ∙ data-heard_all is (fresh s),
      ap (λ o. o.1.1) run ∙ writes-heard_all is (fresh s),
      ap (λ o. o.0.pstate) run,
      ap (λ o. o.0.naws_accepted) run ∙ naws-heard_all is (fresh s),
    )
