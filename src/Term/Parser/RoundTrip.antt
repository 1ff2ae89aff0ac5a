-- ===== src/Term/Parser/RoundTrip.antt =====
-- Control sequences with decimal parameters come back from `Parser::feed`.
use portable_terminal.Base.{
  ℕ, ◌+◌, ◌≤◌, ◌≡◌, inl, inr, refl, sym, ap, subst, ◌∙◌, Bool, true, false, ◌&&◌, Option, none,
  some, List, [], ◌∷◌, ◌++◌, Bytes, arith, ◌==◌, if◌then◌else◌, if-true, if-false, length, take,
  length-set, length-append, get_or-set_self, take-suc, append_assoc, ◌>>=◌, returns, Returns-map,
  Returns-value,
}
use portable_terminal.Term.Decimal.{decimal}
use portable_terminal.Term.Parser.State.{
  ParserSink, Parser, csi_param, ground_mode, max_params, with_mode, with_first, enter_esc,
  enter_csi, is_csi_final, is_c0, is_param_digit, is_separator, is_csi_intermediate,
}
use portable_terminal.Term.Parser.Feed.{
  feed, feed_byte, on_mode, on_ground_byte, on_esc, on_csi_entry, on_csi_param, dispatch_csi,
  with_trailing,
}
use portable_terminal.Term.Parser.Utf8.{feed-append}
use portable_terminal.Term.Parser.Params.{Holds}
use portable_terminal.Term.Parser.Digits.{
  Reading, Ready, Reaches, feed_byte-mode, one_byte, then_bytes, decimal_lem, separator_lem,
}

-- the parameters of a control sequence
unfoldable pub params_bytes : List ℕ → Bytes
params_bytes [] = []
params_bytes (n ∷ []) = decimal n
params_bytes (n ∷ m ∷ ns) = decimal n ++ b';' ∷ params_bytes (m ∷ ns)

abbrev pub SixDigits : List ℕ → Type 0
SixDigits [] = Unit {0}
SixDigits (n ∷ ns) = (n ≤ 999999) × SixDigits ns

module _ {S : Type 0} (sink : ParserSink S) where
  -- all parameters are read
  record AllRead (private : Bool) (all : List ℕ) (p : Parser) : Type 0 where
    done : List ℕ
    cur : ℕ
    parts : done ++ cur ∷ [] ≡ all
    reading : Reading private done cur p

  params_lem :
      (private : Bool) (done : List ℕ) (n : ℕ) (ns : List ℕ) (p : Parser) (s : S)
      → length done + length (n ∷ ns) ≤ max_params
      → SixDigits (n ∷ ns)
      → Ready private done p
      → Reaches sink s (AllRead private (done ++ n ∷ ns)) (feed sink (params_bytes (n ∷ ns)) (p, s))
  unfolding params_bytes
  params_lem private done n [] p s room (le, _) r =
      Returns-map (decimal_lem sink private done n p s le r) λ x (same, reading).
        (same, record { done = done; cur = n; parts = refl; reading = reading })
  params_lem private done n (m ∷ ns) p s room (le, rest) r =
      then_bytes sink (decimal n) (b';' ∷ params_bytes (m ∷ ns)) p s _ _
        (decimal_lem sink private done n p s le r)
        λ q reading.
          then_bytes sink (b';' ∷ []) (params_bytes (m ∷ ns)) q s _ _
            (one_byte sink b';' (q, s) s _
              (separator_lem sink private done n q s (omega arith) reading))
            λ q' ready.
              subst
                (λ (all : List ℕ).
                  Reaches sink s (AllRead private all) (feed sink (params_bytes (m ∷ ns)) (q', s)))
                (append_assoc done (n ∷ []) (m ∷ ns))
                (params_lem private (done ++ n ∷ []) m ns q' s
                  (omega (arith, length-append {0} done (n ∷ []))) rest ready)

  final_lem :
      (private : Bool) (done : List ℕ) (cur final : ℕ) (p : Parser) (s : S)
      → is_csi_final final ≡ true
      → Reading private done cur p
      → feed_byte sink final (p, s) ≡ (
          sink.csi final (done ++ cur ∷ []) [] private s >>= λ t. some (with_mode ground_mode p, t))
  unfolding on_mode on_csi_param dispatch_csi
  final_lem private done cur final p s h r =
      let hold = r.holds in
      let e1 : is_c0 final ≡ false = ground arith in
      let e2 : is_param_digit final ≡ false = ground arith in
      let e3 : is_separator final ≡ false = ground arith in
      let e4 : is_csi_intermediate final ≡ false = ground arith in
      let counted : p.n_params == 0 && p.param_started ≡ false = ground (arith, hold.count) in
      let trailing : with_trailing sink p ≡ p = if-false _ _ counted in
      let all : take p.n_params p.params ≡ done ++ cur ∷ [] =
        ap (λ (k : ℕ). take k p.params) hold.count
        ∙ take-suc p.params (length done) 0 (omega (arith, hold.size, hold.room))
        ∙ (λ i. hold.before i ++ hold.last i ∷ []) in
      let plain : take p.n_intermediates p.intermediates ≡ [] =
        ap (λ (k : ℕ). take k p.intermediates) hold.no_intermediates in
      feed_byte-mode sink final p s csi_param (ground arith) r.mode_is
      ∙ if-false _ _ e1
      ∙ if-false _ _ e2
      ∙ if-false _ _ e3
      ∙ if-false _ _ e4
      ∙ if-true _ _ h
      ∙ ap (λ (q : Parser). dispatch_csi sink final q s) trailing
      ∙ if-false _ _ hold.fits
      ∙ (λ i. sink.csi final (all i) (plain i) (hold.marked i) s >>= λ t.
          some (with_mode ground_mode p, t))

abbrev pub marker : Bool → Bytes
marker private = if private then b'?' ∷ [] else []

-- `CSI ? n ; n … final`
abbrev pub csi_bytes : Bool → List ℕ → ℕ → Bytes
csi_bytes private ps final = 0x1B ∷ b'[' ∷ (marker private ++ params_bytes ps ++ final ∷ [])

module _ {S : Type 0} (sink : ParserSink S) where
  feed_none : (m : Option (Parser × S)) → (m >>= feed sink []) ≡ m
  unfolding feed
  feed_none none = refl
  feed_none (some x) = refl

  fresh_Holds :
      (private : Bool) (p : Parser)
      → length p.params ≡ max_params
      → p.n_params ≡ 0
      → p.csi_overflow ≡ false
      → p.n_intermediates ≡ 0
      → p.private_marker ≡ private
      → Holds private [] 0 (with_first p)
  fresh_Holds private p size none_ fits plain marked =
      let test : p.n_params == 0 ≡ true = ground (arith, none_) in
      subst (Holds private [] 0) (sym (if-true _ _ test)) (record {
        room = omega arith;
        count = refl;
        size = length-set p.params 0 0 ∙ size;
        before = refl;
        last = get_or-set_self p.params 0 0 0 (omega (arith, size));
        fits = fits;
        no_intermediates = plain;
        marked = marked;
      })

  opening_lem :
      (p : Parser) (s : S)
      → p.mode ≡ ground_mode
      → feed sink (0x1B ∷ b'[' ∷ []) (p, s) ≡ some (enter_csi (enter_esc p), s)
  unfolding feed on_mode on_ground_byte on_esc feed_byte
  opening_lem p s m =
      ap (λ x. x >>= feed sink (b'[' ∷ [])) (feed_byte-mode sink 0x1B p s ground_mode refl m)

  start_lem :
      (private : Bool) (p : Parser) (s : S)
      → length p.params ≡ max_params
      → p.mode ≡ ground_mode
      → Reaches sink s (Ready private []) (feed sink (0x1B ∷ b'[' ∷ marker private) (p, s))
  unfolding feed feed_byte on_mode on_csi_entry
  start_lem false p s size m = subst (Reaches sink s (Ready false [])) (sym (opening_lem p s m)) (
      returns (
        refl,
        record {
          mode_is = inl refl;
          holds = fresh_Holds false (enter_csi (enter_esc p)) size refl refl refl refl;
        },
      ))
  start_lem true p s size m =
      then_bytes sink (0x1B ∷ b'[' ∷ []) (b'?' ∷ []) p s (λ q. q ≡ enter_csi (enter_esc p)) _
        (subst (Reaches sink s (λ q. q ≡ enter_csi (enter_esc p))) (sym (opening_lem p s m))
          (returns (refl, refl)))
        λ q e.
          subst (λ (x : Parser). Reaches sink s (Ready true []) (feed sink (b'?' ∷ []) (x, s)))
            (sym e)
            (returns (
              refl,
              record {
                mode_is = inr refl;
                holds =
                    fresh_Holds true
                      (record (enter_csi (enter_esc p)) { private_marker = true; mode = csi_param })
                      size refl refl refl refl;
              },
            ))

  -- A control sequence with up to sixteen decimal parameters of up to six digits, with or without
  -- the marker `?`, is handed to the sink with just these parameters, and the parser is at rest
  -- again.
  pub feed-csi_bytes :
      (private : Bool) (n : ℕ) (ns : List ℕ) (final : ℕ) (p : Parser) (s : S)
      → length (n ∷ ns) ≤ max_params
      → SixDigits (n ∷ ns)
      → is_csi_final final ≡ true
      → length p.params ≡ max_params
      → p.mode ≡ ground_mode
      → (q : Parser) × (q.mode ≡ ground_mode)
        × (feed sink (csi_bytes private (n ∷ ns) final) (p, s)
            ≡ (sink.csi final (n ∷ ns) [] private s >>= λ t. some (q, t)))
  unfolding feed
  feed-csi_bytes private n ns final p s fewer six h size m =
      let read =
        then_bytes sink (0x1B ∷ b'[' ∷ marker private) (params_bytes (n ∷ ns)) p s _ _
          (start_lem private p s size m)
          λ q ready. params_lem sink private [] n ns q s (omega (arith, fewer)) six ready in
      let (x, e, (same, all)) = Returns-value read in
      let calls = λ (t : S).
        sink.csi final (n ∷ ns) [] private t >>= λ u. some (with_mode ground_mode x.0, u) in
      (
        with_mode ground_mode x.0,
        refl,
        feed-append sink (0x1B ∷ b'[' ∷ marker private ++ params_bytes (n ∷ ns)) (final ∷ []) (p, s)
            ∙ ap (λ y. y >>= feed sink (final ∷ [])) e
            ∙ ap (λ y. y >>= feed sink [])
                (final_lem sink private all.done all.cur final x.0 x.1 h all.reading)
            ∙ feed_none (
                sink.csi final (all.done ++ all.cur ∷ []) [] private x.1 >>= λ u.
                some (with_mode ground_mode x.0, u))
            ∙ (λ i. sink.csi final (all.parts i) [] private x.1 >>= λ u.
                some (with_mode ground_mode x.0, u))
            ∙ ap calls same,
      )
