-- ===== src/Tests/Granting.antt =====
-- A password, a certificate's subject and a bot's token. The digest is the bytes of the password and
-- the salt.
use meeting_mgr.Base.{ℕ, ◌%◌, ◌≡◌, refl, none, some, List, [], ◌∷◌, ◌++◌, map, arith, if◌then◌else◌}
use meeting_mgr.Base.Text.{Text, codes, text_eq}
use meeting_mgr.Models.{Account, BotCredential, admin, member}
use meeting_mgr.Db.State.{World, multiple_results_found, ok, err}
use meeting_mgr.Db.Rows.{record_audit}
use meeting_mgr.Db.Time.{days}
use meeting_mgr.Tests.Samples.{sample_account, empty_db, sample_world}
use meeting_mgr.Auth.{Request, mtls_subject_header, get_current_account, login}
use meeting_mgr.Auth.Password.{hash_password}
use meeting_mgr.Auth.Hex.{AreBytes}
use meeting_mgr.Auth.Trust.{stripped, untrusted_subject_is_ignored}
use meeting_mgr.Auth.Login.{login_answers}
use meeting_mgr.BotCredentials.{
  token_of, insert_credential, set_revoked, create_bot_credential, revoke_bot_credential, View,
  view, write_bot_credential, revoke,
}
use meeting_mgr.BotCredentials.Bearer.{unauthorized, get_bot_credential}
use meeting_mgr.BotCredentials.Tokens.{presented}
use meeting_mgr.BotCredentials.Issuing.{token_authenticates}
use meeting_mgr.BotCredentials.Revoking.{revoked_token_is_refused}
use meeting_mgr.Authz.{require_role}

abbrev byte_of : ℕ → ℕ
byte_of c = c % 256

abbrev digest : Text → List ℕ → List ℕ
digest password salt = map byte_of (password ++ salt)

bytes_of_text : (t : Text) → AreBytes (map byte_of t)
bytes_of_text [] = tt
bytes_of_text (c ∷ t) = (omega arith, bytes_of_text t)

digest-AreBytes : (password : Text) (salt : List ℕ) → AreBytes (digest password salt)
digest-AreBytes password salt = bytes_of_text (password ++ salt)

abbrev salt : List ℕ
salt = 7 ∷ 255 ∷ []

abbrev with_password : Account
with_password = record (sample_account 2 member) {
  password_hash = some (hash_password digest (codes "pw") salt);
}

abbrev accounts_world : World
accounts_world =
    sample_world (record empty_db { accounts = with_password ∷ sample_account 3 admin ∷ [] }) [] []

-- Two accounts with one email, so that no password logs in.
login_answers_example :
    login digest [] (codes "a@b") (codes "pw") accounts_world
    ≡ (err multiple_results_found, accounts_world)
unfolding text_eq
login_answers_example =
    login_answers digest [] digest-AreBytes (codes "a@b") (codes "pw") (codes "pw") salt
      with_password (sample_account 3 admin ∷ []) accounts_world (omega arith, (omega arith, tt))
      refl refl

abbrev forged : Request
forged = record { headers = (mtls_subject_header, codes "CN=admin") ∷ []; account_id = some 2 }

untrusted_subject_is_ignored_example :
    get_current_account
      (stripped (codes "10.0.0.1" ∷ []) (some (codes "10.0.0.2")) forged)
      accounts_world
    ≡ get_current_account (record forged { headers = [] }) accounts_world
unfolding text_eq
untrusted_subject_is_ignored_example =
    untrusted_subject_is_ignored (codes "10.0.0.1" ∷ []) (some (codes "10.0.0.2")) forged
      accounts_world refl

abbrev issued : View × Text
issued = (
  record {
    id = 50;
    label = codes "zoom";
    owner_account_id = 2;
    revoked_at = none;
    created_at = days 100;
  },
  token_of 50 (codes "s"),
)

abbrev after_issue : World
after_issue =
    (write_bot_credential digest (codes "zoom") 2 (sample_account 3 admin) (codes "s") salt
      accounts_world).1

token_authenticates_example :
    (token_of 50 (codes "s") ≡ token_of 50 (codes "s"))
    × ((c : BotCredential) × (issued.0 ≡ view c)
        × (c.organization_id ≡ 1)
        × (get_bot_credential digest [] (presented 50 (codes "t")) after_issue ≡ (
            if text_eq (digest (codes "t") salt) (digest (codes "s") salt)
            then (ok c, after_issue)
            else (err unauthorized, after_issue))))
unfolding write_bot_credential require_role create_bot_credential insert_credential record_audit
    text_eq
token_authenticates_example =
    token_authenticates digest (codes "zoom") 2 (sample_account 3 admin) (codes "s") salt
      digest-AreBytes (omega arith, (omega arith, tt)) [] (codes "t") issued.0 issued.1
      accounts_world after_issue refl refl

abbrev granted : BotCredential
granted = record {
  id = 5;
  organization_id = 1;
  owner_account_id = 2;
  label = codes "zoom";
  token_hash = hash_password digest (codes "s") salt;
  revoked_at = none;
  created_at = 0;
}

abbrev credentials_world : World
credentials_world = sample_world (record empty_db { bot_credentials = granted ∷ [] }) [] []

abbrev after_revoke : World
after_revoke = (revoke 5 (sample_account 3 admin) credentials_world).1

revoked_token_is_refused_example :
    get_bot_credential digest [] (presented 5 (codes "s")) after_revoke
    ≡ (err unauthorized, after_revoke)
unfolding revoke require_role revoke_bot_credential record_audit
revoked_token_is_refused_example =
    revoked_token_is_refused digest [] 5 (sample_account 3 admin) (codes "s")
      (view (set_revoked (days 100) granted)) granted credentials_world after_revoke refl refl
