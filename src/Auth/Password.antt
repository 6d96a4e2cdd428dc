-- ===== src/Auth/Password.antt =====
-- src/meeting_mgr/auth/password.py. PBKDF2 is a parameter, a function of the password and the salt;
-- the salt that `os.urandom` gives is an argument.
use meeting_mgr.Base.{
  ℕ, ◌+◌, ◌-◌, ◌*◌, ◌/◌, ◌%◌, Bool, true, false, not, ◌&&◌, ◌||◌, Option, none, some, List, [], ◌∷◌,
  ◌++◌, ltb, leb, ◌==◌, if◌then◌else◌, is_empty,
}
use meeting_mgr.Base.Text.{Text, text_eq}

-- The digit of a number below 16.
abbrev pub hex_digit : ℕ → ℕ
hex_digit n = if ltb n 10 then b'0' + n else 87 + n

-- `data.hex()`
unfoldable pub hex : List ℕ → Text
hex [] = []
hex (b ∷ bytes) = hex_digit (b / 16) ∷ hex_digit (b % 16) ∷ hex bytes

unfoldable pub hex_value : ℕ → Option ℕ
hex_value c =
    if leb b'0' c && leb c b'9'
    then some (c - b'0')
    else if leb b'a' c && leb c b'f'
    then some (c - 87)
    else if leb b'A' c && leb c b'F'
    then some (c - 55)
    else none

-- One byte in front of the rest.
abbrev pub byte_and : Option ℕ → Option ℕ → Option (List ℕ) → Option (List ℕ)
byte_and (some high) (some low) (some bytes) = some ((high * 16 + low) ∷ bytes)
byte_and _ _ _ = none

-- The white space of ASCII.
abbrev pub is_blank : ℕ → Bool
is_blank c = (leb 9 c && leb c 13) || c == 32

-- `bytes.fromhex(text)`: white space may stand between bytes; `none` is a ValueError.
unfoldable pub fromhex : Text → Option (List ℕ)
fromhex [] = some []
fromhex (c ∷ []) = if is_blank c then some [] else none
fromhex (c ∷ d ∷ text) =
    let skipped = fromhex (d ∷ text) in
    let rest = fromhex text in
    if is_blank c then skipped else byte_and (hex_value c) (hex_value d) rest

-- `text.partition(sep)`, with whether the separator is there.
unfoldable pub partition : (sep : ℕ) → Text → Text × Bool × Text
partition sep [] = ([], false, [])
partition sep (c ∷ text) =
    let (before, found, rest) = partition sep text in
    if c == sep then ([], true, text) else (c ∷ before, found, rest)

module _ (pbkdf2 : Text → List ℕ → List ℕ) where
  unfoldable pub hash_password : (password : Text) → (salt : List ℕ) → Text
  hash_password password salt = hex salt ++ b'$' ∷ hex (pbkdf2 password salt)

  -- The comparison, once both parts are read.
  abbrev pub compare_digests : Text → Option (List ℕ) → Option (List ℕ) → Bool
  compare_digests password (some salt) (some expected) = text_eq (pbkdf2 password salt) expected
  compare_digests password _ _ = false

  unfoldable pub verify_text : (password stored : Text) → Bool
  verify_text password stored =
      let (salt_hex, sep, digest_hex) = partition b'$' stored in
      sep && compare_digests password (fromhex salt_hex) (fromhex digest_hex)

  -- `not stored` holds of `None` and of the empty text.
  unfoldable pub verify_password : Text → Option Text → Bool
  verify_password password none = false
  verify_password password (some stored) = not (is_empty stored) && verify_text password stored
