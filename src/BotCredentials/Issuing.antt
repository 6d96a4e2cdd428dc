-- ===== src/BotCredentials/Issuing.antt =====
-- The reply of a request for a new credential, and what its token opens.
use meeting_mgr.Base.{
  ℕ, ◌≡◌, refl, sym, ap, ◌∙◌, subst, Bool, true, false, Option, some, List, ◌==◌, if◌then◌else◌,
  find, any,
}
use meeting_mgr.Base.Text.{Text, text_eq}
use meeting_mgr.Models.{Account, BotCredential, bot_credential_target, credential_detail}
use meeting_mgr.Db.State.{Db, World, Result, ok, err}
use meeting_mgr.Db.Action.{Action, pure, ◌>>=◌, ◌>>◌, raise_if, gets_db, catch}
use meeting_mgr.Db.Session.{settle, discard, accounts, tenant}
use meeting_mgr.Db.Rows.{record_audit}
use meeting_mgr.Db.Laws.{settle_ok, ok_eq}
use meeting_mgr.BotCredentials.Bearer.{unauthorized, check_credential, get_bot_credential}
use meeting_mgr.BotCredentials.{
  token_of, create_bot_credential, View, view, admin_only, foreign_owner, label_taken,
  is_integrity_error, on_taken, is_foreign, write_bot_credential,
}
use meeting_mgr.BotCredentials.Tokens.{presented, credential_of, get-presented, check-valid}
use meeting_mgr.BotCredentials.Minting.{minted, create_ok}
use meeting_mgr.Auth.Hex.{AreBytes, verify-hash}
use meeting_mgr.Db.Frames.{bind_ok, raise_if_ok, reraised_ok}
use meeting_mgr.Db.Inserts.{record_audit-db}
use meeting_mgr.Authz.{require_role}
use meeting_mgr.Authz.Roles.{require_role_ok}

undisturbed :
    (c : BotCredential) (v : World) (b : Bool)
    → discard v.db (if b then (ok c, v) else (err unauthorized, v))
      ≡ (if b then (ok c, v) else (err unauthorized, v))
undisturbed c v true = refl
undisturbed c v false = refl

module _ (pbkdf2 : Text → List ℕ → List ℕ) (label : Text) (owner : ℕ) (account : Account)
    (secret : Text) (salt : List ℕ) where
  abbrev org : ℕ
  org = account.organization_id

  abbrev create : Action (BotCredential × Text)
  create = create_bot_credential pbkdf2 (tenant org) org label owner secret salt

  abbrev audit : BotCredential → Action (Unit {0})
  audit c =
      record_audit (tenant org) org (some account.id) "bot_credential.create"
        (bot_credential_target c.id) (credential_detail label owner)

  abbrev finish : BotCredential × Text → Action (View × Text)
  finish p = audit p.0 >> pure (view p.0, p.1)

  abbrev in_session : Option Account → Action (View × Text)
  in_session found =
      raise_if (is_foreign account found) foreign_owner >> (catch create on_taken >>= finish)

  -- What a reply tells.
  abbrev Issued : View → Text → World → World → Type 0
  Issued reply token w v =
      (reply ≡ view (minted org label owner pbkdf2 secret salt w))
      × (token ≡ token_of w.next_id secret)
      × (credential_of w.next_id v.db ≡ some (minted org label owner pbkdf2 secret salt w))

  session_ok :
      (found : Option Account) (reply : View) (token : Text) (w v : World)
      → in_session found w ≡ (ok (reply, token), v)
      → any (λ (d : BotCredential). w.next_id == d.id) w.db.bot_credentials ≡ false
      → Issued reply token w v
  session_ok found reply token w v h fresh =
      let (_, w', e, h') =
        bind_ok (raise_if (is_foreign account found) foreign_owner)
          (λ _. catch create on_taken >>= finish) w h in
      let (_, same) = raise_if_ok (is_foreign account found) foreign_owner w e in
      let (p, x, run, h'') = bind_ok (catch create on_taken) finish w' h' in
      let made = reraised_ok create (λ e. if is_integrity_error e then label_taken else e) w' run in
      let (_, y, audited, last) = bind_ok (audit p.0) (λ _. pure (view p.0, p.1)) x h'' in
      let (c, t, row) =
        create_ok org label owner pbkdf2 secret salt w x p.0 p.1
          (subst (λ z. create z ≡ (ok p, x)) same made) fresh in
      let (replied, end) = ok_eq refl last in
      let kept : v.db.bot_credentials ≡ x.db.bot_credentials =
        ap (λ (z : World). z.db.bot_credentials) (sym end)
        ∙ ap (λ (r : Result (Unit {0}) × World). r.1.db.bot_credentials) (sym audited)
        ∙ ap (λ (d : Db). d.bot_credentials)
            (record_audit-db (tenant org) org (some account.id) "bot_credential.create"
              (bot_credential_target p.0.id) (credential_detail label owner) x) in
      (
        ap (λ q. q.0) (sym replied) ∙ ap view c,
        ap (λ q. q.1) (sym replied) ∙ t,
        ap (find (λ (d : BotCredential). w.next_id == d.id)) kept ∙ row,
      )

  write_ok :
      (reply : View) (token : Text) (w v : World)
      → write_bot_credential pbkdf2 label owner account secret salt w ≡ (ok (reply, token), v)
      → any (λ (d : BotCredential). w.next_id == d.id) w.db.bot_credentials ≡ false
      → Issued reply token w v
  unfolding write_bot_credential
  write_ok reply token w v h fresh =
      let body : Action (View × Text) =
        gets_db (λ db. find (λ a. a.id == owner) (accounts (tenant org) db)) >>= in_session in
      let (_, w', e, h') =
        bind_ok (require_role account admin_only) (λ _ z. settle z.db (body z)) w h in
      let (_, same) = require_role_ok account admin_only w e in
      let inner : body w ≡ (ok (reply, token), v) =
        subst (λ z. body z ≡ (ok (reply, token), v)) same (settle_ok w'.db (body w') h') in
      session_ok (find (λ a. a.id == owner) (accounts (tenant org) w.db)) reply token w v inner
        fresh

  -- Where the new id is free and PBKDF2 gives bytes, a request for a credential that returns gives
  -- a token of the credential's id and the secret, and a bearer token of this id opens the new
  -- credential, of the account's Organization, exactly if its secret has the digest of the one
  -- issued; else it gets the 401.
  pub token_authenticates :
      (digests : (p : Text) (s : List ℕ) → AreBytes (pbkdf2 p s))
      → AreBytes salt
      → (dummy_hash q : Text) (reply : View) (token : Text) (w v : World)
      → any (λ (d : BotCredential). w.next_id == d.id) w.db.bot_credentials ≡ false
      → write_bot_credential pbkdf2 label owner account secret salt w ≡ (ok (reply, token), v)
      → (token ≡ token_of reply.id secret)
        × ((c : BotCredential) × (reply ≡ view c)
            × (c.organization_id ≡ account.organization_id)
            × (get_bot_credential pbkdf2 dummy_hash (presented reply.id q) v ≡ (
                if text_eq (pbkdf2 q salt) (pbkdf2 secret salt)
                then (ok c, v)
                else (err unauthorized, v))))
  token_authenticates digests bytes dummy_hash q reply token w v fresh h =
      let c = minted org label owner pbkdf2 secret salt w in
      let (replied, t, row) = write_ok reply token w v h fresh in
      let id_is : reply.id ≡ w.next_id = ap (λ (x : View). x.id) replied in
      let answer : Bool → Result BotCredential × World =
        λ b. if b then (ok c, v) else (err unauthorized, v) in
      (
        t ∙ ap (λ i. token_of i secret) (sym id_is),
        (
          c,
          replied,
          refl,
          ap (λ i. get_bot_credential pbkdf2 dummy_hash (presented i q) v) id_is
              ∙ get-presented pbkdf2 dummy_hash w.next_id q v
              ∙ ap (λ o. discard v.db (check_credential pbkdf2 dummy_hash q o v)) row
              ∙ ap (discard v.db) (check-valid pbkdf2 dummy_hash q c v refl)
              ∙ ap (λ b. discard v.db (answer b)) (verify-hash pbkdf2 digests secret q salt bytes)
              ∙ undisturbed c v (text_eq (pbkdf2 q salt) (pbkdf2 secret salt)),
        ),
      )
