-- ===== src/BotCredentials/Revoking.antt =====
-- What becomes of the token of a credential that is revoked.
use meeting_mgr.Base.{
  ℕ, ◌≡◌, refl, sym, ap, ◌∙◌, subst, fun_ext, inl, inr, Bool, true, false, ◌&&◌, Option, some, List,
  [], ◌∷◌, arith, ◌==◌, if◌then◌else◌, ==_refl, Bool-cases, filter, find, update_where,
}
use meeting_mgr.Base.Text.{Text}
use meeting_mgr.Models.{Account, BotCredential, bot_credential_target, no_detail}
use meeting_mgr.Db.State.{Db, World, Result, ok, err}
use meeting_mgr.Db.Action.{Action, pure, ◌>>=◌, ◌>>◌, one_or_none, or_raise}
use meeting_mgr.Db.Session.{settle, discard, bot_credentials, tenant}
use meeting_mgr.Db.Rows.{record_audit}
use meeting_mgr.Db.Laws.{settle_ok, after, ok_eq, err_not_ok}
use meeting_mgr.BotCredentials.Bearer.{unauthorized, check_credential, get_bot_credential}
use meeting_mgr.BotCredentials.{
  set_revoked, revoke_found, revoke_bot_credential, View, view, admin_only, no_credential, revoke,
}
use meeting_mgr.BotCredentials.Tokens.{presented, credential_of, get-presented, check-invalid}
use meeting_mgr.Db.Frames.{bind_ok}
use meeting_mgr.Authz.{require_role}
use meeting_mgr.Authz.Roles.{require_role_ok}
use meeting_mgr.Base.Updates.{filter-update_where, filter-filter_of, filter-filter}
use meeting_mgr.Db.Inserts.{record_audit-db}

abbrev with_id : ℕ → Db → List BotCredential
with_id id db = filter (λ c. id == c.id) db.bot_credentials

find_first :
    (p : BotCredential → Bool) (cs : List BotCredential) {c : BotCredential}
    {rest : List BotCredential}
    → filter p cs ≡ c ∷ rest
    → find p cs ≡ some c
find_first p [] h = cc
find_first p (d ∷ cs) {c = c} {rest = rest} h = elim (Bool-cases (p d)) [
  | inl t ↦ rw t (ap some (first (filter_head t ∙ h)))
  | inr t ↦ rw t (find_first p cs {c = c} {rest = rest} (sym (filter_skip t) ∙ h))
]
  where
    filter_head : p d ≡ true → d ∷ filter p cs ≡ filter p (d ∷ cs)
    filter_head t = rw t refl

    filter_skip : p d ≡ false → filter p (d ∷ cs) ≡ filter p cs
    filter_skip t = rw t refl

    first : d ∷ filter p cs ≡ c ∷ rest → d ≡ c
    first e = ap (λ xs. elim xs [ [] ↦ d | x ∷ _ ↦ x ]) e

module _ (id : ℕ) (account : Account) where
  abbrev org : ℕ
  org = account.organization_id

  abbrev after_found : Option BotCredential → Action View
  after_found found = do
    cred ← or_raise found no_credential
    record_audit (tenant org) org (some account.id) "bot_credential.revoke"
        (bot_credential_target cred.id) no_detail
    pure (view cred)

  -- The session by the rows that the query gives.
  abbrev by_rows : World → List BotCredential → Result View × World
  by_rows w rows = after (after (one_or_none rows w) (revoke_found (tenant org))) after_found

  own_rows :
      (w : World) (c : BotCredential)
      → with_id id w.db ≡ c ∷ []
      → filter (λ d. d.id == id && d.organization_id == org) (bot_credentials (tenant org) w.db)
        ≡ (if c.organization_id == org then c ∷ [] else [])
  own_rows w c h =
      filter-filter_of (λ (d : BotCredential). d.id == id && d.organization_id == org)
        (λ d. d.organization_id == org) (λ d e. ground (arith, e)) w.db.bot_credentials
      ∙ ap (λ p. filter p w.db.bot_credentials)
          (fun_ext (λ d. ap (λ b. b && d.organization_id == org) (==_comm d.id id)))
      ∙ sym (
          filter-filter (λ (d : BotCredential). d.organization_id == org) (λ d. id == d.id)
            w.db.bot_credentials)
      ∙ ap (filter (λ (d : BotCredential). d.organization_id == org)) h
    where
      ==_comm : (a b : ℕ) → (a == b) ≡ (b == a)
      ==_comm a b = ground arith

  revoked_rows :
      (w : World) (c : BotCredential)
      → with_id id w.db ≡ c ∷ []
      → (c.organization_id == org) ≡ true
      → filter
          (λ (d : BotCredential). id == d.id)
          (update_where
            (λ d. d.id == c.id && d.organization_id == org)
            (set_revoked w.now)
            w.db.bot_credentials)
        ≡ set_revoked w.now c ∷ []
  revoked_rows w c h own =
      filter-update_where (λ (d : BotCredential). id == d.id)
        (λ d. d.id == c.id && d.organization_id == org) (set_revoked w.now) (λ d. refl)
        w.db.bot_credentials
      ∙ ap (update_where (λ d. d.id == c.id && d.organization_id == org) (set_revoked w.now)) h
      ∙ rw (==_refl c.id, own) refl

  abbrev after_update : BotCredential → World → World
  after_update c w = record w {
    db = record w.db {
      bot_credentials =
          update_where (λ d. d.id == c.id && d.organization_id == org) (set_revoked w.now)
            w.db.bot_credentials;
    };
  }

  audited :
      (reply : View) (c : BotCredential) (w v : World)
      → with_id id w.db ≡ c ∷ []
      → (c.organization_id == org) ≡ true
      → after_found (some (set_revoked w.now c)) (after_update c w) ≡ (ok reply, v)
      → credential_of id v.db ≡ some (set_revoked w.now c)
  audited reply c w v h own run =
      let audit =
        record_audit (tenant org) org (some account.id) "bot_credential.revoke"
          (bot_credential_target c.id) no_detail in
      let (_, y, done_, last) =
        bind_ok audit (λ _. pure (view (set_revoked w.now c))) (after_update c w) run in
      let (_, end) = ok_eq refl last in
      let kept : v.db.bot_credentials ≡ (after_update c w).db.bot_credentials =
        ap (λ (z : World). z.db.bot_credentials) (sym end)
        ∙ ap (λ (r : Result (Unit {0}) × World). r.1.db.bot_credentials) (sym done_)
        ∙ ap (λ (d : Db). d.bot_credentials)
            (record_audit-db (tenant org) org (some account.id) "bot_credential.revoke"
              (bot_credential_target c.id) no_detail (after_update c w)) in
      ap (find (λ (d : BotCredential). id == d.id)) kept
      ∙ find_first (λ d. id == d.id) (after_update c w).db.bot_credentials (revoked_rows w c h own)

  -- A revocation that returns has set the time of the row.
  by_rows_ok :
      (reply : View) (c : BotCredential) (w v : World)
      → with_id id w.db ≡ c ∷ []
      → by_rows w (if c.organization_id == org then c ∷ [] else []) ≡ (ok reply, v)
      → credential_of id v.db ≡ some (set_revoked w.now c)
  by_rows_ok reply c w v h run = elim (Bool-cases (c.organization_id == org)) [
    | inr e ↦
        absurd (err_not_ok refl (sym (ap (λ b. by_rows w (if b then c ∷ [] else [])) e) ∙ run))
    | inl e ↦
        let run' = sym (ap (λ b. by_rows w (if b then c ∷ [] else [])) e) ∙ run in
        audited reply c w v h e run'
  ]

  revoke_ok :
      (reply : View) (c : BotCredential) (w v : World)
      → with_id id w.db ≡ c ∷ []
      → revoke id account w ≡ (ok reply, v)
      → credential_of id v.db ≡ some (set_revoked w.now c)
  unfolding revoke revoke_bot_credential
  revoke_ok reply c w v h run =
      let query = λ (z : World).
        filter (λ (d : BotCredential). d.id == id && d.organization_id == org)
          (bot_credentials (tenant org) z.db) in
      let (_, w', e, run') =
        bind_ok (require_role account admin_only) (λ _ z. settle z.db (by_rows z (query z))) w
          run in
      let (_, same) = require_role_ok account admin_only w e in
      let inner =
        subst (λ z. by_rows z (query z) ≡ (ok reply, v)) same
          (settle_ok w'.db (by_rows w' (query w')) run') in
      by_rows_ok reply c w v h (sym (ap (by_rows w) (own_rows w c h)) ∙ inner)

-- After a revocation that returns, no secret opens a credential that has the id to itself: a bearer
-- token with the id is answered with the 401.
pub revoked_token_is_refused :
    (pbkdf2 : Text → List ℕ → List ℕ) (dummy_hash : Text) (id : ℕ) (account : Account)
    (secret : Text) (reply : View) (c : BotCredential) (w v : World)
    → with_id id w.db ≡ c ∷ []
    → revoke id account w ≡ (ok reply, v)
    → get_bot_credential pbkdf2 dummy_hash (presented id secret) v ≡ (err unauthorized, v)
revoked_token_is_refused pbkdf2 dummy_hash id account secret reply c w v h run =
    get-presented pbkdf2 dummy_hash id secret v
    ∙ ap (λ o. discard v.db (check_credential pbkdf2 dummy_hash secret o v))
        (revoke_ok id account reply c w v h run)
    ∙ ap (discard v.db) (check-invalid pbkdf2 dummy_hash secret (some (set_revoked w.now c)) v refl)
