-- ===== src/BotCredentials/Bearer.antt =====
-- src/meeting_mgr/auth/bot_deps.py: the credential that a bearer token stands for.
use meeting_mgr.Base.{
  ℕ, Bool, false, not, ◌&&◌, ◌||◌, Option, none, some, List, [], leb, ◌==◌, if◌then◌else◌, is_some,
  find, any, is_empty,
}
use meeting_mgr.Base.Text.{Text, codes, starts_with, remove_prefix}
use meeting_mgr.Base.Decimal.{ℤ, int_of, pos, negsuc}
use meeting_mgr.Models.{BotCredential}
use meeting_mgr.Db.State.{Exc, http, value_error}
use meeting_mgr.Db.Action.{Action, pure, ◌>>=◌, ◌>>◌, raise_if, gets_db, or_raise}
use meeting_mgr.Db.Session.{get_readonly_session}
use meeting_mgr.Auth.Password.{partition, verify_password}

-- `_UNAUTHORIZED`
abbrev pub unauthorized : Exc
unauthorized = http 401 "invalid bot credential"

abbrev pub bearer : Text
bearer = codes "Bearer "

-- The token of the header, or the empty text.
unfoldable pub token_in : Option Text → Text
token_in none = []
token_in (some auth) = if starts_with bearer auth then remove_prefix bearer auth else []

-- `c.isdigit()` of a Latin-1 character, which those of a header are: the superscripts count.
abbrev pub is_digit_char : ℕ → Bool
is_digit_char c = (leb b'0' c && leb c b'9') || c == 0xb2 || c == 0xb3 || c == 0xb9

-- `text.isdigit()`
unfoldable pub isdigit : Text → Bool
isdigit text = not (is_empty text) && not (any (λ c. not (is_digit_char c)) text)

-- `c.id == id` for an `int`
abbrev pub is_int : ℤ → ℕ → Bool
is_int (pos n) id = n == id
is_int (negsuc n) id = false

-- `s.get(BotCredential, int(id_text))` over all Organizations.
abbrev pub get_by_text : Text → Action (Option BotCredential)
get_by_text id_text = do
  id ← or_raise (int_of id_text) value_error
  gets_db (λ db. find (λ c. is_int id c.id) db.bot_credentials)

unfoldable pub find_credential : Text → Bool → Action (Option BotCredential)
find_credential id_text sep = if sep && isdigit id_text then get_by_text id_text else pure none

-- `cred is not None and cred.revoked_at is None`
abbrev pub is_valid : Option BotCredential → Bool
is_valid none = false
is_valid (some cred) = not (is_some cred.revoked_at)

-- `cred.token_hash if valid else _DUMMY_HASH`
abbrev pub stored_hash : (dummy_hash : Text) → Option BotCredential → Text
stored_hash dummy_hash none = dummy_hash
stored_hash dummy_hash (some cred) = if is_some cred.revoked_at then dummy_hash else cred.token_hash

module _ (pbkdf2 : Text → List ℕ → List ℕ) (dummy_hash : Text) where
  -- The hash is compared on every path.
  unfoldable pub check_credential : (secret : Text) → Option BotCredential → Action BotCredential
  check_credential secret found = do
    raise_if
        (not (is_valid found)
          || not (verify_password pbkdf2 secret (some (stored_hash dummy_hash found))))
        unauthorized
    or_raise found unauthorized

  unfoldable pub get_bot_credential : (authorization : Option Text) → Action BotCredential
  get_bot_credential authorization = get_readonly_session λ s. do
    let parts = partition b'.' (token_in authorization)
    found ← find_credential parts.0 parts.1
    check_credential parts.2 found
