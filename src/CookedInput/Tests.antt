-- ===== src/CookedInput/Tests.antt =====
-- A line with an erasure and ends of every kind.
use portable_terminal.Base.{◌≡◌, refl, false, List, [], ◌∷◌, ◌++◌, arith}
use portable_terminal.CookedInput.{cr, lf, filter_byte, filter_bytes}
use portable_terminal.CookedInput.Typing.{
  Typed, char, end_cr, end_lf, end_crlf, erase_del, all_bytes, all_shown, filter_bytes_shows,
}

abbrev input : List Typed
input = char b'x' ∷ erase_del ∷ char b'y' ∷ end_cr ∷ end_crlf ∷ end_lf ∷ []

filter_bytes_shows_example : (filter_bytes (all_bytes input) (false, [])).1 ≡ [] ++ all_shown input
filter_bytes_shows_example =
    filter_bytes_shows input false [] (grind arith, (grind arith, (refl, tt)))

-- CR and LF are one end of line also when they come in two chunks
pair_in_two_chunks :
    filter_bytes (lf ∷ []) (filter_bytes (cr ∷ []) (false, [])) ≡ (false, cr ∷ lf ∷ [])
unfolding filter_bytes filter_byte
pair_in_two_chunks = refl
