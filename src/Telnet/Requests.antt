-- ===== src/Telnet/Requests.antt =====
-- A server's stream as RFC 854 and RFC 855 describe it, and what a client answers to it.
use portable_terminal.Base.{
  ℕ, Bool, false, ◌||◌, ◌≢◌, List, [], ◌∷◌, ◌++◌, Bytes, ◌==◌, if◌then◌else◌,
}
use portable_terminal.Telnet.{
  iac, dont_cmd, do_cmd, wont_cmd, will_cmd, sb, se, opt_echo, opt_sga, opt_naws, naws_message,
  reply,
}

pub data Verb : Type 0 where
  do_it : Verb
  do_not : Verb
  will_do : Verb
  will_not : Verb

abbrev pub verb_byte : Verb → ℕ
verb_byte do_it = do_cmd
verb_byte do_not = dont_cmd
verb_byte will_do = will_cmd
verb_byte will_not = wont_cmd

-- a byte of data, a command of one byte, a request, a subnegotiation with its option and payload
pub data Item : Type 0 where
  byte : ℕ → Item
  command : ℕ → Item
  request : Verb → ℕ → Item
  subnegotiation : ℕ → Bytes → Item

-- a payload with every 255 doubled
unfoldable pub doubled : Bytes → Bytes
doubled [] = []
doubled (b ∷ bs) = if b == iac then iac ∷ iac ∷ doubled bs else b ∷ doubled bs

unfoldable pub item_bytes : Item → Bytes
unfolding doubled
item_bytes (byte b) = if b == iac then iac ∷ iac ∷ [] else b ∷ []
item_bytes (command c) = iac ∷ c ∷ []
item_bytes (request v opt) = iac ∷ verb_byte v ∷ opt ∷ []
item_bytes (subnegotiation opt bs) = iac ∷ sb ∷ opt ∷ (doubled bs ++ (iac ∷ se ∷ []))

unfoldable pub stream_bytes : List Item → Bytes
unfolding item_bytes
stream_bytes [] = []
stream_bytes (i ∷ is) = item_bytes i ++ stream_bytes is

-- A command of one byte is none of those that more bytes follow.
abbrev IsPlain : ℕ → Type 0
IsPlain c = (c ≢ iac) × (c ≢ sb) × (c ≢ do_cmd) × (c ≢ dont_cmd) × (c ≢ will_cmd) × (c ≢ wont_cmd)

abbrev pub IsItem : Item → Type 0
IsItem (command c) = IsPlain c
IsItem (byte _) = Unit {0}
IsItem (request _ _) = Unit {0}
IsItem (subnegotiation _ _) = Unit {0}

abbrev pub IsStream : List Item → Type 0
IsStream [] = Unit {0}
IsStream (i ∷ is) = IsItem i × IsStream is

unfoldable pub text_of : List Item → Bytes
text_of [] = []
text_of (byte b ∷ is) = b ∷ text_of is
text_of (command _ ∷ is) = text_of is
text_of (request _ _ ∷ is) = text_of is
text_of (subnegotiation _ _ ∷ is) = text_of is

-- The policy: window sizes are agreed to and sent at once, echo and suppress-go-ahead are welcome
-- on the server's side, all else is refused.
unfoldable pub answer : ℕ → ℕ → Verb → ℕ → List Bytes
answer c r do_it opt =
    if opt == opt_naws
    then reply will_cmd opt_naws ∷ naws_message c r ∷ []
    else reply wont_cmd opt ∷ []
answer c r do_not opt = reply wont_cmd opt ∷ []
answer c r will_do opt =
    reply (if opt == opt_echo || opt == opt_sga then do_cmd else dont_cmd) opt ∷ []
answer c r will_not opt = reply dont_cmd opt ∷ []

unfoldable pub answers : ℕ → ℕ → List Item → List Bytes
unfolding answer
answers c r [] = []
answers c r (request v opt ∷ is) = answer c r v opt ++ answers c r is
answers c r (byte _ ∷ is) = answers c r is
answers c r (command _ ∷ is) = answers c r is
answers c r (subnegotiation _ _ ∷ is) = answers c r is

-- whether a request is for window sizes
unfoldable pub wants_naws : Verb → ℕ → Bool
wants_naws do_it opt = opt == opt_naws
wants_naws do_not opt = false
wants_naws will_do opt = false
wants_naws will_not opt = false

unfoldable pub asks_naws : List Item → Bool
unfolding wants_naws
asks_naws [] = false
asks_naws (request v opt ∷ is) = wants_naws v opt || asks_naws is
asks_naws (byte _ ∷ is) = asks_naws is
asks_naws (command _ ∷ is) = asks_naws is
asks_naws (subnegotiation _ _ ∷ is) = asks_naws is
