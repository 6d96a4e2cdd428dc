-- ===== src/BotCredentials/Tokens.antt =====
-- How a presented token is taken apart.
use meeting_mgr.Base.{
  ℕ, ◌≡◌, refl, ap, ap₂, ◌∙◌, Bool, true, false, not, ◌&&◌, ◌||◌, Option, none, some, List, [], ◌∷◌,
  ◌++◌, arith, leb, ◌==◌, if◌then◌else◌, is_some, find, any,
}
use meeting_mgr.Base.Text.{Text, remove_prefix, starts_with-append, remove_prefix-append}
use meeting_mgr.Base.Decimal.{decimal}
use meeting_mgr.Models.{BotCredential}
use meeting_mgr.Db.State.{Db, World, value_error, ok, err}
use meeting_mgr.Db.Action.{pure, ◌>>=◌, raise_if, gets_db, or_raise}
use meeting_mgr.Db.Session.{discard}
use meeting_mgr.Db.Laws.{after}
use meeting_mgr.BotCredentials.Bearer.{
  unauthorized, bearer, token_in, is_digit_char, isdigit, is_int, get_by_text, find_credential,
  is_valid, stored_hash, check_credential, get_bot_credential,
}
use meeting_mgr.BotCredentials.{token_of}
use meeting_mgr.Auth.Password.{partition, verify_password}
use meeting_mgr.Base.Decimal.RoundTrip.{
  int_of-decimal, AreDigits, decimal-AreDigits, decimal_not_empty,
}

partition_digits :
    (ds : Text) (rest : Text) → AreDigits ds → partition b'.' (ds ++ b'.' ∷ rest) ≡ (ds, true, rest)
unfolding partition
partition_digits [] rest h = refl
partition_digits (d ∷ ds) rest (h, hs) = rw (no_point d h, partition_digits ds rest hs) refl
  where
    no_point : (c : ℕ) → (leb b'0' c && leb c b'9') ≡ true → (c == b'.') ≡ false
    no_point c e = ground (arith, e)

no_other : (ds : Text) → AreDigits ds → any (λ c. not (is_digit_char c)) ds ≡ false
no_other [] h = refl
no_other (d ∷ ds) (h, hs) = ground (arith, h, no_other ds hs)

isdigit-decimal : (n : ℕ) → isdigit (decimal n) ≡ true
unfolding isdigit
isdigit-decimal n =
    ap₂ (λ a b. not a && not b) (decimal_not_empty n) (no_other (decimal n) (decimal-AreDigits n))

token_in-bearer : (token : Text) → token_in (some (bearer ++ token)) ≡ token
unfolding token_in
token_in-bearer token =
    ap (λ b. if b then remove_prefix bearer (bearer ++ token) else [])
      (starts_with-append bearer token)
    ∙ remove_prefix-append bearer token

-- The header of a token.
abbrev pub presented : ℕ → Text → Option Text
presented id secret = some (bearer ++ token_of id secret)

-- The row of an id, in whatever Organization.
abbrev pub credential_of : ℕ → Db → Option BotCredential
credential_of id db = find (λ c. id == c.id) db.bot_credentials

find_credential-decimal :
    (id : ℕ) (w : World) → find_credential (decimal id) true w ≡ (ok (credential_of id w.db), w)
unfolding find_credential
find_credential-decimal id w =
    ap (λ b. (if b then get_by_text (decimal id) else pure none) w) (isdigit-decimal id)
    ∙ ap
        (λ o.
          (or_raise o value_error >>= λ i.
          gets_db (λ db. find (λ (c : BotCredential). is_int i c.id) db.bot_credentials))
            w)
        (int_of-decimal id)

module _ (pbkdf2 : Text → List ℕ → List ℕ) (dummy_hash : Text) where
  -- A presented token is judged by the row of its id.
  pub get-presented :
      (id : ℕ) (secret : Text) (w : World)
      → get_bot_credential pbkdf2 dummy_hash (presented id secret) w
        ≡ discard w.db (check_credential pbkdf2 dummy_hash secret (credential_of id w.db) w)
  unfolding get_bot_credential token_of
  get-presented id secret w =
      let judge = λ (parts : Text × Bool × Text).
        discard w.db (
          after (find_credential parts.0 parts.1 w) (check_credential pbkdf2 dummy_hash parts.2)) in
      ap (λ t. judge (partition b'.' t)) (token_in-bearer (decimal id ++ b'.' ∷ secret))
      ∙ ap judge (partition_digits (decimal id) secret (decimal-AreDigits id))
      ∙ ap (λ r. discard w.db (after r (check_credential pbkdf2 dummy_hash secret)))
          (find_credential-decimal id w)

  -- Without a row, or with a revoked one, the token is refused.
  pub check-invalid :
      (secret : Text) (found : Option BotCredential) (w : World)
      → is_valid found ≡ false
      → check_credential pbkdf2 dummy_hash secret found w ≡ (err unauthorized, w)
  unfolding check_credential
  check-invalid secret found w h =
      ap
        (λ b.
          after {B = BotCredential}
            (raise_if
              (not b || not (verify_password pbkdf2 secret (some (stored_hash dummy_hash found))))
              unauthorized w)
            (λ _. or_raise found unauthorized))
        h

  pub check-valid :
      (secret : Text) (c : BotCredential) (w : World)
      → c.revoked_at ≡ none
      → check_credential pbkdf2 dummy_hash secret (some c) w ≡ (
          if verify_password pbkdf2 secret (some c.token_hash)
          then (ok c, w)
          else (err unauthorized, w))
  unfolding check_credential
  check-valid secret c w h =
      ap
        (λ (b : Bool).
          after {B = BotCredential}
            (raise_if
              (not (not b)
                || not
                    (verify_password pbkdf2 secret (some (if b then dummy_hash else c.token_hash))))
              unauthorized w)
            (λ _ v. (ok c, v)))
        (ap is_some h)
      ∙ decided (verify_password pbkdf2 secret (some c.token_hash))
    where
      decided :
          (b : Bool)
          → after {B = BotCredential} (raise_if (not b) unauthorized w) (λ _ v. (ok c, v))
            ≡ (if b then (ok c, w) else (err unauthorized, w))
      decided true = refl
      decided false = refl
