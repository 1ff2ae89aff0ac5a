-- ===== src/ScreenLock/Storage.antt =====
-- main/screen_lock.cpp: the configuration and the PIN, with the NVS storage.
use portable_terminal.Base.{
  ℕ, Bool, true, false, not, ◌&&◌, ◌||◌, Option, none, some, [], ◌∷◌, Bytes, ltb, ◌==◌,
  if◌then◌else◌, length, drop, ◌++◌, replicate,
}
use portable_terminal.ScreenLock.{
  default_timeout_min, max_timeout_min, Lock, pin_valid, activity_note, hash_pin,
}

pub data NvsCall : Type 0 where
  nvs_open : NvsCall
  set_pin_hash : Bytes → NvsCall
  erase_pin_hash : NvsCall
  set_enabled : ℕ → NvsCall
  set_timeout_min : ℕ → NvsCall
  nvs_commit : NvsCall

pub data NvsResult : Type 0 where
  nvs_ok : NvsResult
  nvs_not_found : NvsResult
  nvs_error : NvsResult

abbrev is_ok : NvsResult → Bool
is_ok nvs_ok = true
is_ok nvs_not_found = false
is_ok nvs_error = false

abbrev forgive_missing : NvsResult → NvsResult
forgive_missing nvs_ok = nvs_ok
forgive_missing nvs_not_found = nvs_ok
forgive_missing nvs_error = nvs_error

-- over what the storage answers to a call
module _ (answer : NvsCall → NvsResult) where
  abbrev store_hash : Option Bytes → Bool → NvsResult
  store_hash (some hash) erase_hash = answer (set_pin_hash hash)
  store_hash none erase_hash =
      if erase_hash then forgive_missing (answer erase_pin_hash) else nvs_ok

  unfoldable pub nvs_persist : Option Bytes → Bool → Bool → ℕ → Bool
  nvs_persist hash erase_hash enabled timeout_min =
      is_ok (answer nvs_open)
      && (is_ok (store_hash hash erase_hash)
          && (is_ok (answer (set_enabled (if enabled then 1 else 0)))
              && (is_ok (answer (set_timeout_min timeout_min)) && is_ok (answer nvs_commit))))

  unfoldable pub set_config : Bool → ℕ → ℕ → Lock → Bool × Lock
  unfolding nvs_persist activity_note
  set_config enabled timeout_min now s =
      let least = if ltb timeout_min 1 then 1 else timeout_min in
      let t = if ltb max_timeout_min least then max_timeout_min else least in
      if not (nvs_persist none false enabled t)
      then (false, s)
      else (true, activity_note now (record s { enabled = enabled; timeout_min = t }))

  -- no string stands for a null pointer
  abbrev is_clear : Option Bytes → Bool
  is_clear none = true
  is_clear (some []) = true
  is_clear (some (_ ∷ _)) = false

  abbrev digits_or_empty : Option Bytes → Bytes
  digits_or_empty none = []
  digits_or_empty (some pin) = pin

  unfoldable pub set_pin : (Bytes → Bytes → Bytes) → Option Bytes → Lock → Bool × Lock
  unfolding nvs_persist pin_valid hash_pin
  set_pin sha256 pin s =
      let hash = hash_pin sha256 (digits_or_empty pin) in
      if is_clear pin
      then (if not (nvs_persist none true s.enabled s.timeout_min)
          then (false, s)
          else (true, record s { pin_hash = replicate 32 0; pin_set = false }))
      else if not (pin_valid (digits_or_empty pin))
      then (false, s)
      else if not (nvs_persist (some hash) false s.enabled s.timeout_min)
      then (false, s)
      else (true, record s { pin_hash = hash; pin_set = true })

abbrev pub value_or : Option ℕ → ℕ → ℕ
value_or none d = d
value_or (some n) d = n

-- The hash in the array after `nvs_get_blob`; a shorter blob overwrites its beginning only.
abbrev pub loaded_hash : Option Bytes → Bytes → Bytes
loaded_hash none old = old
loaded_hash (some blob) old = blob ++ drop (length blob) old

abbrev pub is_hash : Option Bytes → Bool
is_hash none = false
is_hash (some blob) = length blob == 32

-- Whether the storage opens, and what it has under the three keys; a blob of more than 32 bytes is
-- not given out.
unfoldable pub init : Bool → Option ℕ → Option ℕ → Option Bytes → ℕ → Lock → Lock
unfolding activity_note
init opens en tm blob now s =
    let t = value_or tm default_timeout_min in
    let least = if ltb t 1 then 1 else t in
    let loaded = record s {
      pin_hash = loaded_hash blob s.pin_hash;
      pin_set = is_hash blob || s.pin_set;
      enabled = not (value_or en 0 == 0);
      timeout_min = if ltb max_timeout_min least then max_timeout_min else least;
    } in
    activity_note now (if opens then loaded else s)
