-- ===== src/Auth.antt =====
-- src/meeting_mgr/auth/deps.py, src/meeting_mgr/auth/mtls.py and src/meeting_mgr/api/auth.py: who a
-- request comes from. Of the session cookie, the account's id is kept.
pub mod Password
pub mod Hex
pub mod Trust
pub mod Login
use meeting_mgr.Base.{
  ℕ, ◌+◌, Bool, false, not, ◌&&◌, ◌||◌, Option, none, some, List, [], ◌∷◌, ◌++◌, map, leb, ◌==◌,
  if◌then◌else◌, is_some, filter, find, any, is_empty,
}
use meeting_mgr.Base.Text.{Text, codes, text_eq}
use meeting_mgr.Models.{Role, Account, member}
use meeting_mgr.Db.State.{Exc, http, integrity_error}
use meeting_mgr.Db.Action.{
  Action, pure, raise, ◌>>=◌, ◌>>◌, raise_if, gets_db, modify_db, new_id, one_or_none, one,
  or_raise,
}
use meeting_mgr.Db.Session.{get_session, get_readonly_session, organizations, accounts}
use meeting_mgr.Auth.Password.{verify_password}

-- Headers in the order of the request, their names in lower case, as ASGI has them.
pub record Request : Type 0 where
  pub headers : List (Text × Text)
  pub account_id : Option ℕ

-- `request.headers.get(name)`
unfoldable pub header : Text → List (Text × Text) → Option Text
header name [] = none
header name ((k, v) ∷ headers) = if text_eq k name then some v else header name headers

-- `MTLS_SUBJECT_HEADER`
abbrev pub mtls_subject_header : Text
mtls_subject_header = codes "x-ssl-client-subject"

-- `k.lower()` on bytes
abbrev pub lower_byte : ℕ → ℕ
lower_byte c = if leb b'A' c && leb c b'Z' then c + 32 else c

abbrev pub lower : Text → Text
lower k = map lower_byte k

-- `MTLSHeaderStripMiddleware.__call__` on the headers of an http scope; the source address is what
-- the network layer reports.
unfoldable pub strip_headers :
    (allowlist : List Text) → (source_ip : Option Text) → List (Text × Text) → List (Text × Text)
strip_headers allowlist source_ip headers =
    let trusted : Bool = elim source_ip [ none ↦ false | some ip ↦ any (text_eq ip) allowlist ] in
    if trusted then headers else filter (λ h. not (text_eq (lower h.0) mtls_subject_header)) headers

abbrev pub required : Exc
required = http 401 "authentication required"

-- `column = value` in SQL, which no NULL meets.
abbrev pub is_text : Option Text → Text → Bool
is_text none t = false
is_text (some u) t = text_eq u t

-- `filter_by(mtls_subject=subject).one_or_none()`; an empty subject is false.
unfoldable pub account_of_subject : Option Text → Action (Option Account)
account_of_subject none = pure none
account_of_subject (some []) = pure none
account_of_subject (some (c ∷ subject)) = do
  rows ← gets_db (λ db. filter (λ a. is_text a.mtls_subject (c ∷ subject)) db.accounts)
  one_or_none rows

-- The account of the session, where none has been found so far.
unfoldable pub account_of_session : Option ℕ → Option Account → Action Account
account_of_session account_id (some account) = pure account
account_of_session none none = raise required
account_of_session (some id) none = do
  found ← gets_db (λ db. find (λ a. a.id == id) db.accounts)
  or_raise found required

unfoldable pub get_current_account : Request → Action Account
get_current_account request = get_readonly_session λ s. do
  account ← account_of_subject (header mtls_subject_header request.headers)
  account_of_session request.account_id account

-- `_view`
pub record AccountView : Type 0 where
  pub id : ℕ
  pub email : Text
  pub role : Role
  pub organization_id : ℕ

abbrev pub account_view : Account → AccountView
account_view a = record {
  id = a.id;
  email = a.email;
  role = a.role;
  organization_id = a.organization_id;
}

abbrev pub invalid_credentials : Exc
invalid_credentials = http 401 "invalid credentials"

-- `account is not None and account.password_hash is not None`
abbrev pub password_hash_of : Option Account → Option Text
password_hash_of none = none
password_hash_of (some account) = account.password_hash

abbrev pub has_password : Option Account → Bool
has_password account = is_some (password_hash_of account)

module _ (pbkdf2 : Text → List ℕ → List ℕ) (dummy_hash : Text) where
  -- The check of a login: the hash is compared on every path.
  abbrev pub check_login : (password : Text) → Option Account → Action Account
  check_login password account = do
    let stored : Text = elim (password_hash_of account) [ none ↦ dummy_hash | some hash ↦ hash ]
    raise_if (not (has_password account) || not (verify_password pbkdf2 password (some stored)))
        invalid_credentials
    or_raise account invalid_credentials

  -- The reply, and the account's id for the session.
  unfoldable pub login : (email password : Text) → Action (AccountView × Option ℕ)
  login email password = do
    account ← get_readonly_session λ s. do
      rows ← gets_db (λ db. filter (λ a. text_eq a.email email) db.accounts)
      found ← one_or_none rows
      check_login password found
    pure (account_view account, some account.id)

unfoldable pub me : Request → Action AccountView
me request = do account ← get_current_account request; pure (account_view account)

abbrev pub no_claims : Exc
no_claims = http 400 "OIDC provider did not return sub and email claims"

-- A first login: an Account in the Organization "default", of which there has to be one.
unfoldable pub provision : (subject email : Text) → Action Account
provision subject email = do
  rows ← gets_db (λ db. filter (λ o. text_eq o.name (codes "default")) db.organizations)
  org ← one rows
  id ← new_id
  let account : Account = record {
    id = id;
    organization_id = org.id;
    email = email;
    role = member;
    password_hash = none;
    oidc_subject = some subject;
    mtls_subject = none;
  }
  clash ← gets_db (λ db.
      any
        (λ a.
          a.organization_id == org.id && text_eq a.email email || is_text a.oidc_subject subject)
        db.accounts)
  raise_if clash integrity_error
  modify_db (λ db. record db { accounts = db.accounts ++ account ∷ [] })
  pure account

-- `oidc_callback`, with the claims that the provider's library has verified; the id for the session.
unfoldable pub oidc_callback : (subject email : Text) → Action ℕ
oidc_callback subject email = do
  raise_if (is_empty subject || is_empty email) no_claims
  account ← get_session λ s. do
    rows ← gets_db (λ db. filter (λ a. is_text a.oidc_subject subject) db.accounts)
    found ← one_or_none rows
    elim found [ some account ↦ pure account | none ↦ provision subject email ]
  pure account.id
