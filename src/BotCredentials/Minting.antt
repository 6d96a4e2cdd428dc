-- ===== src/BotCredentials/Minting.antt =====
-- A new credential, and the token that stands for it.
use meeting_mgr.Base.{
  ℕ, suc, ◌≡◌, refl, sym, ap, ap₂, ◌∙◌, ◌⊎◌, inl, inr, Bool, true, false, ◌&&◌, none, some, List,
  [], ◌∷◌, ◌++◌, arith, ltb, ◌==◌, ==_refl, Bool-cases, length, find, any, update_where,
}
use meeting_mgr.Base.Text.{Text, text_eq}
use meeting_mgr.Models.{BotCredential}
use meeting_mgr.Db.State.{World, Exc, Result, integrity_error, data_error, ok, err}
use meeting_mgr.Db.Action.{Action, pure, ◌>>◌}
use meeting_mgr.Db.Session.{tenant}
use meeting_mgr.Db.Laws.{after, ok_eq, err_not_ok}
use meeting_mgr.BotCredentials.{
  token_of, insert_credential, update_credential, set_hash, create_bot_credential,
}
use meeting_mgr.BotCredentials.Tokens.{credential_of}
use meeting_mgr.Auth.Password.{hash_password}

-- The first row of a new id, after the update that follows its insert.
find_new :
    (id : ℕ) (p : BotCredential → Bool) (hash : Text) (cs : List BotCredential) (c : BotCredential)
    → any (λ d. id == d.id) cs ≡ false
    → (id == c.id) ≡ true
    → p c ≡ true
    → find (λ d. id == d.id) (update_where p (set_hash hash) (cs ++ c ∷ []))
      ≡ some (set_hash hash c)
find_new id p hash [] c fresh e h = rw (h, e) refl
find_new id p hash (d ∷ cs) c fresh e h = elim (Bool-cases (p d)) [
  | inl t ↦ rw (t, first_other) (find_new id p hash cs c later e h)
  | inr t ↦ rw (t, first_other) (find_new id p hash cs c later e h)
]
  where
    first_other : (id == d.id) ≡ false
    first_other = ground (arith, fresh)

    later : any (λ (d : BotCredential). id == d.id) cs ≡ false
    later = ground (arith, fresh)

module _ (org : ℕ) (label : Text) (owner : ℕ) where
  abbrev pub new_credential : World → BotCredential
  new_credential w = record {
    id = w.next_id;
    organization_id = org;
    owner_account_id = owner;
    label = label;
    token_hash = [];
    revoked_at = none;
    created_at = w.now;
  }

  abbrev appended : World → World
  appended w = record w {
    db = record w.db { bot_credentials = w.db.bot_credentials ++ new_credential w ∷ [] };
    next_id = suc w.next_id;
  }

  insert_outcome :
      (w : World)
      → (insert_credential (tenant org) org label owner w ≡ (ok (new_credential w), appended w))
        ⊎ ((e : Exc) × (u : World) × (insert_credential (tenant org) org label owner w
              ≡ (err e, u)))
  unfolding insert_credential
  insert_outcome w = elim (Bool-cases (ltb 200 (length label))) [
    | inl t ↦ inr (data_error, record w { next_id = suc w.next_id }, rw t refl)
    | inr t ↦
        elim (Bool-cases
          (any (λ c. c.organization_id == org && text_eq c.label label) w.db.bot_credentials)) [
            | inl c ↦
                inr (
                  integrity_error,
                  record w { next_id = suc w.next_id },
                  rw (t, ==_refl org, c) refl,
                )
            | inr c ↦ inl (rw (t, ==_refl org, c) refl)
          ]
  ]

  module _ (pbkdf2 : Text → List ℕ → List ℕ) (secret : Text) (salt : List ℕ) where
    abbrev pub minted : World → BotCredential
    minted w = set_hash (hash_password pbkdf2 secret salt) (new_credential w)

    abbrev hashed : World → World
    hashed w = record w {
      db = record w.db {
        bot_credentials =
            update_where (λ d. d.id == w.next_id && d.organization_id == org)
              (set_hash (hash_password pbkdf2 secret salt))
              (w.db.bot_credentials ++ new_credential w ∷ []);
      };
      next_id = suc w.next_id;
    }

    abbrev made_of : World → Result (BotCredential × Text) × World
    made_of w = (ok (minted w, token_of w.next_id secret), hashed w)

    done_ok :
        (w v : World) (c : BotCredential) (token : Text)
        → made_of w ≡ (ok (c, token), v)
        → any (λ d. w.next_id == d.id) w.db.bot_credentials ≡ false
        → (c ≡ minted w)
          × (token ≡ token_of w.next_id secret)
          × (credential_of w.next_id v.db ≡ some (minted w))
    done_ok w v c token run fresh =
        let (made, same) = ok_eq refl run in
        let found =
          find_new w.next_id (λ d. d.id == w.next_id && d.organization_id == org)
            (hash_password pbkdf2 secret salt) w.db.bot_credentials (new_credential w) fresh
            (==_refl w.next_id) (ap₂ (◌&&◌) (==_refl w.next_id) (==_refl org)) in
        (
          sym (ap (λ p. p.0) made),
          sym (ap (λ p. p.1) made),
          ap (λ (z : World). credential_of w.next_id z.db) (sym same) ∙ found,
        )

    -- The row of a credential that was made, by its id.
    pub create_ok :
        (w v : World) (c : BotCredential) (token : Text)
        → create_bot_credential pbkdf2 (tenant org) org label owner secret salt w
          ≡ (ok (c, token), v)
        → any (λ d. w.next_id == d.id) w.db.bot_credentials ≡ false
        → (c ≡ minted w)
          × (token ≡ token_of w.next_id secret)
          × (credential_of w.next_id v.db ≡ some (minted w))
    unfolding create_bot_credential
    create_ok w v c token h fresh =
        let rest : BotCredential → Action (BotCredential × Text) = λ d.
          update_credential (tenant org) d.id (set_hash (hash_password pbkdf2 secret salt))
          >> pure (set_hash (hash_password pbkdf2 secret salt) d, token_of d.id secret) in
        elim (insert_outcome w) [
          | inl e ↦ done_ok w v c token (sym (ap (λ r. after r rest) e) ∙ h) fresh
          | inr (x, u, e) ↦ absurd (err_not_ok refl (sym (ap (λ r. after r rest) e) ∙ h))
        ]
