-- ===== src/Term/Parser/Params.antt =====
-- Control sequences with decimal parameters come back from the parser of parser.cpp.
use portable_terminal.Base.{
  ℕ, suc, ◌+◌, ◌-◌, ◌*◌, ◌≤◌, ◌<◌, ◌≡◌, refl, sym, ap, ◌∙◌, Bool, true, false, ◌||◌, List, [], ◌∷◌,
  ◌++◌, arith, ltb, leb, ◌==◌, if◌then◌else◌, length, get_or, set, take, length-set, length-append,
  get_or-set_self, take-set, take-suc,
}
use portable_terminal.Term.Parser.State.{
  Mode, Parser, max_params, with_first, append_digit, append_param, push_param_digit, next_param,
}

-- The last parameter has the value `cur` so far, behind those of `done`.
pub record Holds (private : Bool) (done : List ℕ) (cur : ℕ) (p : Parser) : Type 0 where
  pub room : length done < max_params
  pub count : p.n_params ≡ suc (length done)
  pub size : length p.params ≡ max_params
  pub before : take (length done) p.params ≡ done
  pub last : get_or p.params (length done) 0 ≡ cur
  pub fits : p.csi_overflow ≡ false
  pub no_intermediates : p.n_intermediates ≡ 0
  pub marked : p.private_marker ≡ private

pub append_digit-Holds :
    (private : Bool) (done : List ℕ) (cur d : ℕ) (p : Parser)
    → Holds private done cur p
    → cur ≤ 99999
    → Holds private done (cur * 10 + d) (append_digit (b'0' + d) p)
unfolding append_digit
append_digit-Holds private done cur d p h le =
    let i = p.n_params - 1 in
    let at : i ≡ length done = omega (arith, h.count) in
    let now : get_or p.params i 0 ≡ cur = ap (λ (k : ℕ). get_or p.params k 0) at ∙ h.last in
    let value : get_or p.params i 0 * 10 + (b'0' + d - b'0') ≡ cur * 10 + d = omega (arith, now) in
    let lt : length done < length p.params = omega (arith, h.size, h.room) in
    let test : leb max_params i || ltb 99999 (get_or p.params i 0) ≡ false =
      ground (arith, at, now, h.room) in
    let v = get_or p.params i 0 * 10 + (b'0' + d - b'0') in
    rw test (record {
      room = h.room;
      count = h.count;
      size = length-set p.params i v ∙ h.size;
      before =
          ap (λ (k : ℕ). take (length done) (set p.params k v)) at
          ∙ take-set p.params (length done) v
          ∙ h.before;
      last =
          ap (λ (k : ℕ). get_or (set p.params k v) (length done) 0) at
          ∙ get_or-set_self p.params (length done) v 0 lt
          ∙ value;
      fits = h.fits;
      no_intermediates = h.no_intermediates;
      marked = h.marked;
    })

pub append_param-Holds :
    (private : Bool) (done : List ℕ) (cur : ℕ) (p : Parser)
    → Holds private done cur p
    → length done + 1 < max_params
    → Holds private (done ++ cur ∷ []) 0 (append_param p)
unfolding append_param
append_param-Holds private done cur p h lt =
    let one_more : length (done ++ cur ∷ []) ≡ suc (length done) =
      omega (arith, length-append {0} done (cur ∷ [])) in
    let at : p.n_params ≡ length (done ++ cur ∷ []) = h.count ∙ sym one_more in
    let within : length done < length p.params = omega (arith, h.size, h.room) in
    let test : ltb p.n_params max_params ≡ true = ground (arith, h.count) in
    rw test (record {
      room = omega (arith, one_more);
      count = omega (arith, at);
      size = length-set p.params p.n_params 0 ∙ h.size;
      before =
          ap (λ (k : ℕ). take (length (done ++ cur ∷ [])) (set p.params k 0)) at
          ∙ take-set p.params (length (done ++ cur ∷ [])) 0
          ∙ ap (λ (k : ℕ). take k p.params) one_more
          ∙ take-suc p.params (length done) 0 within
          ∙ (λ i. h.before i ++ h.last i ∷ []);
      last =
          ap (λ (k : ℕ). get_or (set p.params k 0) (length (done ++ cur ∷ [])) 0) at
          ∙ get_or-set_self p.params (length (done ++ cur ∷ [])) 0 0
              (omega (arith, one_more, h.size));
      fits = h.fits;
      no_intermediates = h.no_intermediates;
      marked = h.marked;
    })

if_mode :
    (b : Bool) (x y : Parser) (m : Mode) → x.mode ≡ m → y.mode ≡ m → (if b then x else y).mode ≡ m
if_mode true x y m h k = h
if_mode false x y m h k = k

first_mode : (p : Parser) → (with_first p).mode ≡ p.mode
first_mode p =
    if_mode (p.n_params == 0) (record p { n_params = 1; params = set p.params 0 0 }) p p.mode refl
      refl

pub digit_mode : (d : ℕ) (p : Parser) → (push_param_digit d p).mode ≡ p.mode
unfolding push_param_digit append_digit
digit_mode d p = if_mode _ _ _ p.mode (first_mode p) (first_mode p)

pub next_mode : (p : Parser) → (next_param p).mode ≡ p.mode
unfolding next_param append_param
next_mode p = if_mode _ _ _ p.mode (first_mode p) (first_mode p)
