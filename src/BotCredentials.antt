-- ===== src/BotCredentials.antt =====
-- src/meeting_mgr/bot_credentials.py and src/meeting_mgr/api/bot_credentials.py: tokens of bots.
-- What `secrets` and `os.urandom` give is an argument.
pub mod Bearer
pub mod Tokens
pub mod Minting
pub mod Issuing
pub mod Revoking
use meeting_mgr.Base.{
  ℕ, Bool, true, false, not, ◌&&◌, Option, none, some, List, [], ◌∷◌, ◌++◌, map, ltb, ◌==◌,
  if◌then◌else◌, length, filter, any, update_where,
}
use meeting_mgr.Base.Text.{Text, text_eq}
use meeting_mgr.Base.Decimal.{decimal}
use meeting_mgr.Models.{
  Role, Account, BotCredential, admin, bot_credential_target, no_detail, credential_detail,
}
use meeting_mgr.Db.State.{Exc, http, integrity_error, data_error}
use meeting_mgr.Db.Action.{
  Action, pure, raise, gets, ◌>>=◌, ◌>>◌, raise_if, gets_db, modify_db, new_id, one_or_none,
  or_raise, catch,
}
use meeting_mgr.Db.Session.{
  Session, get_org_session, get_readonly_org_session, sees_org, bot_credentials, get_account,
}
use meeting_mgr.Db.Rows.{check_row, record_audit}
use meeting_mgr.Auth.Password.{hash_password}
use meeting_mgr.Authz.{require_role}

-- f"{cred.id}.{secret}"
unfoldable pub token_of : ℕ → Text → Text
token_of id secret = decimal id ++ b'.' ∷ secret

-- The insert under uq_bot_credential_org_label, with a label that fits a String(200).
unfoldable pub insert_credential :
    Session → (org_id : ℕ) → (label : Text) → (owner_account_id : ℕ) → Action BotCredential
insert_credential s org_id label owner_account_id = do
  id ← new_id
  now ← gets (λ w. w.now)
  raise_if (ltb 200 (length label)) data_error
  check_row (sees_org s org_id)
  clash ←
      gets_db
        (λ db. any (λ c. c.organization_id == org_id && text_eq c.label label) db.bot_credentials)
  raise_if clash integrity_error
  let cred : BotCredential = record {
    id = id;
    organization_id = org_id;
    owner_account_id = owner_account_id;
    label = label;
    token_hash = [];
    revoked_at = none;
    created_at = now;
  }
  modify_db (λ db. record db { bot_credentials = db.bot_credentials ++ cred ∷ [] })
  pure cred

-- An assignment to the columns of a loaded row.
abbrev pub update_credential : Session → ℕ → (BotCredential → BotCredential) → Action (Unit {0})
update_credential s id f = modify_db (λ db. record db {
  bot_credentials =
      update_where (λ c. c.id == id && sees_org s c.organization_id) f db.bot_credentials;
})

abbrev pub set_hash : Text → BotCredential → BotCredential
set_hash hash c = record c { token_hash = hash }

abbrev pub set_revoked : ℕ → BotCredential → BotCredential
set_revoked now c = record c { revoked_at = some now }

module _ (pbkdf2 : Text → List ℕ → List ℕ) where
  unfoldable pub create_bot_credential :
      Session
      → (org_id : ℕ) → (label : Text) → (owner_account_id : ℕ) → (secret : Text) → (salt : List ℕ)
      → Action (BotCredential × Text)
  create_bot_credential s org_id label owner_account_id secret salt = do
    cred ← insert_credential s org_id label owner_account_id
    update_credential s cred.id (set_hash (hash_password pbkdf2 secret salt))
    pure (set_hash (hash_password pbkdf2 secret salt) cred, token_of cred.id secret)

-- `order_by(id)`, the order of insertion, since ids grow.
unfoldable pub list_bot_credentials : Session → (org_id : ℕ) → Action (List BotCredential)
list_bot_credentials s org_id =
    gets_db (λ db. filter (λ c. c.organization_id == org_id) (bot_credentials s db))

-- The update of a row that was found.
abbrev pub revoke_found : Session → Option BotCredential → Action (Option BotCredential)
revoke_found s none = pure none
revoke_found s (some cred) = do
  now ← gets (λ w. w.now)
  update_credential s cred.id (set_revoked now)
  pure (some (set_revoked now cred))

unfoldable pub revoke_bot_credential :
    Session → (org_id credential_id : ℕ) → Action (Option BotCredential)
revoke_bot_credential s org_id credential_id = do
  rows ← gets_db (λ db.
      filter (λ c. c.id == credential_id && c.organization_id == org_id) (bot_credentials s db))
  found ← one_or_none rows
  revoke_found s found

-- `_view`
pub record View : Type 0 where
  pub id : ℕ
  pub label : Text
  pub owner_account_id : ℕ
  pub revoked_at : Option ℕ
  pub created_at : ℕ

abbrev pub view : BotCredential → View
view c = record {
  id = c.id;
  label = c.label;
  owner_account_id = c.owner_account_id;
  revoked_at = c.revoked_at;
  created_at = c.created_at;
}

-- `_ADMIN_ONLY`
abbrev pub admin_only : List Role
admin_only = admin ∷ []

unfoldable pub read_bot_credentials : Account → Action (List View)
read_bot_credentials account = do
  require_role account admin_only
  get_readonly_org_session account.organization_id
      λ s. do creds ← list_bot_credentials s account.organization_id; pure (map view creds)

abbrev pub foreign_owner : Exc
foreign_owner = http 422 "owner_account_id must belong to your organization"

abbrev pub label_taken : Exc
label_taken = http 409 "a bot credential with that label already exists"

abbrev pub is_integrity_error : Exc → Bool
is_integrity_error integrity_error = true
is_integrity_error e = false

-- `except IntegrityError`
abbrev pub on_taken : {A : Type 0} → Exc → Action A
on_taken e = raise (if is_integrity_error e then label_taken else e)

-- `owner is None or owner.organization_id != account.organization_id`
abbrev pub is_foreign : Account → Option Account → Bool
is_foreign account none = true
is_foreign account (some owner) = not (owner.organization_id == account.organization_id)

module _ (pbkdf2 : Text → List ℕ → List ℕ) where
  -- The view and the token, which is in the reply alone.
  unfoldable pub write_bot_credential :
      (label : Text)
      → (owner_account_id : ℕ) → Account
      → (secret : Text) → (salt : List ℕ) → Action (View × Text)
  write_bot_credential label owner_account_id account secret salt = do
    require_role account admin_only
    get_org_session account.organization_id λ s. do
      owner ← get_account s owner_account_id
      raise_if (is_foreign account owner) foreign_owner
      (cred, token) ←
          catch
            (create_bot_credential pbkdf2 s account.organization_id label owner_account_id secret
              salt)
            on_taken
      record_audit s account.organization_id (some account.id) "bot_credential.create"
          (bot_credential_target cred.id) (credential_detail label owner_account_id)
      pure (view cred, token)

abbrev pub no_credential : Exc
no_credential = http 404 "bot credential not found"

unfoldable pub revoke : (credential_id : ℕ) → Account → Action View
revoke credential_id account = do
  require_role account admin_only
  get_org_session account.organization_id λ s. do
    found ← revoke_bot_credential s account.organization_id credential_id
    cred ← or_raise found no_credential
    record_audit s account.organization_id (some account.id) "bot_credential.revoke"
        (bot_credential_target cred.id) no_detail
    pure (view cred)
