-- ===== src/Auth/Login.antt =====
-- Which passwords log in.
use meeting_mgr.Base.{
  ℕ, ◌≡◌, refl, ap, ◌∙◌, Bool, true, false, not, ◌||◌, Option, none, some, List, [], ◌∷◌,
  if◌then◌else◌, is_some, filter, is_empty,
}
use meeting_mgr.Base.Text.{Text, text_eq}
use meeting_mgr.Models.{Account}
use meeting_mgr.Db.State.{Db, World, Result, multiple_results_found, ok, err}
use meeting_mgr.Db.Action.{pure, raise_if, one_or_none}
use meeting_mgr.Db.Session.{discard}
use meeting_mgr.Db.Laws.{after}
use meeting_mgr.Auth.{AccountView, account_view, invalid_credentials, check_login, login}
use meeting_mgr.Auth.Password.{hash_password, verify_password}
use meeting_mgr.Auth.Hex.{AreBytes, verify-hash}

abbrev pub with_email : Text → Db → List Account
with_email email db = filter (λ a. text_eq a.email email) db.accounts

module _ (pbkdf2 : Text → List ℕ → List ℕ) (dummy_hash : Text) where
  -- A login by the accounts of its email.
  from_rows : Text → World → List Account → Result (AccountView × Option ℕ) × World
  from_rows password w rows =
      after (discard w.db (after (one_or_none rows w) (check_login pbkdf2 dummy_hash password)))
        (λ account. pure (account_view account, some account.id))

  login-from_rows :
      (email password : Text) (w : World)
      → login pbkdf2 dummy_hash email password w ≡ from_rows password w (with_email email w.db)
  unfolding login from_rows
  login-from_rows email password w = refl

  -- Where two accounts have the email, no password logs in.
  shared_email_locks_out :
      (email password : Text) (a b : Account) (more : List Account) (w : World)
      → with_email email w.db ≡ a ∷ b ∷ more
      → login pbkdf2 dummy_hash email password w ≡ (err multiple_results_found, w)
  unfolding from_rows
  shared_email_locks_out email password a b more w h =
      login-from_rows email password w ∙ ap (from_rows password w) h

  abbrev refused : World → Result (AccountView × Option ℕ) × World
  refused w = (err invalid_credentials, w)

  module _ (digests : (p : Text) (salt : List ℕ) → AreBytes (pbkdf2 p salt)) where
    one_account :
        (p q : Text) (salt : List ℕ) (account : Account) (w : World)
        → AreBytes salt
        → account.password_hash ≡ some (hash_password pbkdf2 p salt)
        → from_rows q w (account ∷ []) ≡ (
            if text_eq (pbkdf2 q salt) (pbkdf2 p salt)
            then (ok (account_view account, some account.id), w)
            else refused w)
    unfolding from_rows
    one_account p q salt account w b h =
        let answer : Bool → Bool → Result (AccountView × Option ℕ) × World = λ a c.
          after {A = Account} {B = AccountView × Option ℕ}
            (discard w.db (
              after {B = Account} (raise_if (not a || not c) invalid_credentials w)
                (λ _ v. (ok account, v))))
            (λ a. pure (account_view a, some a.id)) in
        let passes : Option Text → Result (AccountView × Option ℕ) × World = λ o.
          answer (is_some o)
            (verify_password pbkdf2 q (some (elim o [ none ↦ dummy_hash | some hash ↦ hash ]))) in
        ap passes h
        ∙ ap (answer true) (verify-hash pbkdf2 digests p q salt b)
        ∙ decided (text_eq (pbkdf2 q salt) (pbkdf2 p salt))
      where
        decided :
            (c : Bool)
            → after
                (discard w.db (
                  after {B = Account}
                    (raise_if (not c) invalid_credentials w)
                    (λ _ v. (ok account, v))))
                (λ a. pure (account_view a, some a.id))
              ≡ (if c then (ok (account_view account, some account.id), w) else refused w)
        decided true = refl
        decided false = refl

    -- Where an account with a hashed password is found by an email and PBKDF2 gives bytes: if
    -- another account has the email too, a login fails with an error of the query, whatever the
    -- password; else it succeeds exactly if the password's digest for the salt is that of the
    -- account's password, and gets the 401 if not.
    pub login_answers :
        (email p q : Text) (salt : List ℕ) (account : Account) (more : List Account) (w : World)
        → AreBytes salt
        → with_email email w.db ≡ account ∷ more
        → account.password_hash ≡ some (hash_password pbkdf2 p salt)
        → login pbkdf2 dummy_hash email q w ≡ (
            if is_empty more
            then (if text_eq (pbkdf2 q salt) (pbkdf2 p salt)
                then (ok (account_view account, some account.id), w)
                else refused w)
            else (err multiple_results_found, w))
    login_answers email p q salt account [] w b rows h =
        login-from_rows email q w ∙ ap (from_rows q w) rows ∙ one_account p q salt account w b h
    login_answers email p q salt account (other ∷ more) w b rows h =
        shared_email_locks_out email q account other more w rows
