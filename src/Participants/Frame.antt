-- ===== src/Participants/Frame.antt =====
-- Resolving a name touches the table of participants and no other.
use meeting_mgr.Db.Laws.{after}
use meeting_mgr.Base.{
  ℕ, ◌≡◌, refl, ap, ◌∙◌, Bool, true, false, not, Option, none, some, List, [], ◌∷◌, ◌++◌,
  if◌then◌else◌, is_empty,
}
use meeting_mgr.Base.Text.{Text, strip}
use meeting_mgr.Models.{Participant}
use meeting_mgr.Db.State.{
  Db, World, Exc, Result, http, integrity_error, no_result_found, multiple_results_found,
  row_security_violation, client_error, no_such_key, broker_error, attribute_error, value_error,
  overflow_error, inference_error, normalize_error, os_error, file_not_found, stale_file,
  data_error, range_not_satisfiable, ok, err,
}
use meeting_mgr.Db.Action.{
  Action, pure, ◌>>=◌, ◌>>◌, raise_if, gets_db, modify_db, new_id, one_or_none, one, catch,
}
use meeting_mgr.Db.Session.{Session, settle, sees_org, participants}
use meeting_mgr.Db.Rows.{begin_nested, check_row}
use meeting_mgr.Participants.{
  named, add_participant, reread, insert_or_reread, found_or_new, resolve_participant,
}

abbrev pub Framed : World → World → Type 0
Framed w v = v.db ≡ record w.db { participants = v.db.participants }

framed_same : (w : World) → Framed w w
framed_same w = refl

Framed-trans : (w v u : World) → Framed w v → Framed v u → Framed w u
Framed-trans w v u h k = k ∙ ap (λ (d : Db). record d { participants = u.db.participants }) h

abbrev pub IsFramed : {A : Type 0} → Action A → Type 0
IsFramed m = (w : World) → Framed w (m w).1

module _ {A B : Type 0} where
  framed_after :
      (w : World) (f : A → Action B) (r : Result A × World)
      → Framed w r.1
      → ((a : A) → IsFramed (f a))
      → Framed w (after r f).1
  framed_after w f (ok a, v) h k = Framed-trans w v (f a v).1 h (k a v)
  framed_after w f (err e, v) h k = h

  pub IsFramed-bind :
      (m : Action A) (f : A → Action B)
      → IsFramed m
      → ((a : A) → IsFramed (f a))
      → IsFramed (m >>= f)
  IsFramed-bind m f h k w = framed_after w f (m w) (h w) k

module _ {A : Type 0} where
  settled : (w : World) (r : Result A × World) → Framed w r.1 → Framed w (settle w.db r).1
  settled w (ok a, v) h = h
  settled w (err e, v) h = refl

  IsFramed-begin_nested : (m : Action A) → IsFramed m → IsFramed (begin_nested m)
  IsFramed-begin_nested m h w = settled w (m w) (h w)

  caught :
      (w : World) (handler : Exc → Action A) (r : Result A × World)
      → Framed w r.1
      → ((e : Exc) → IsFramed (handler e))
      → Framed w (catch (λ _. r) handler w).1
  caught w handler (ok a, v) h k = h
  caught w handler (err e, v) h k = Framed-trans w v (handler e v).1 h (k e v)

  IsFramed-catch :
      (m : Action A) (handler : Exc → Action A)
      → IsFramed m
      → ((e : Exc) → IsFramed (handler e))
      → IsFramed (catch m handler)
  IsFramed-catch m handler h k w = caught w handler (m w) (h w) k

IsFramed-one : {A : Type 0} (xs : List A) → IsFramed (one xs)
IsFramed-one [] = framed_same
IsFramed-one (x ∷ []) = framed_same
IsFramed-one (x ∷ y ∷ r) = framed_same

IsFramed-one_or_none : {A : Type 0} (xs : List A) → IsFramed (one_or_none xs)
IsFramed-one_or_none [] = framed_same
IsFramed-one_or_none (x ∷ []) = framed_same
IsFramed-one_or_none (x ∷ y ∷ r) = framed_same

IsFramed-reread :
    (s : Session) (org_id : ℕ) (name : Text) (e : Exc) → IsFramed (reread s org_id name e)
unfolding reread
IsFramed-reread s org_id name integrity_error w =
    IsFramed-bind (one (named org_id name (participants s w.db))) (λ p. pure (some p.id))
      (IsFramed-one (named org_id name (participants s w.db))) (λ p. framed_same) w
IsFramed-reread s org_id name (http c d) w = refl
IsFramed-reread s org_id name no_result_found w = refl
IsFramed-reread s org_id name multiple_results_found w = refl
IsFramed-reread s org_id name row_security_violation w = refl
IsFramed-reread s org_id name client_error w = refl
IsFramed-reread s org_id name no_such_key w = refl
IsFramed-reread s org_id name broker_error w = refl
IsFramed-reread s org_id name attribute_error w = refl
IsFramed-reread s org_id name value_error w = refl
IsFramed-reread s org_id name overflow_error w = refl
IsFramed-reread s org_id name inference_error w = refl
IsFramed-reread s org_id name normalize_error w = refl
IsFramed-reread s org_id name os_error w = refl
IsFramed-reread s org_id name file_not_found w = refl
IsFramed-reread s org_id name stale_file w = refl
IsFramed-reread s org_id name data_error w = refl
IsFramed-reread s org_id name range_not_satisfiable w = refl

IsFramed-raise_if : (c : Bool) (e : Exc) → IsFramed (raise_if c e)
IsFramed-raise_if c e w = refl

IsFramed-add_participant :
    (s : Session) (org_id : ℕ) (name : Text) → IsFramed (add_participant s org_id name)
unfolding add_participant
IsFramed-add_participant s org_id name =
    IsFramed-bind new_id (λ i. check_row (sees_org s org_id) >> insert i) (λ w. refl)
      (λ i.
        IsFramed-bind (check_row (sees_org s org_id)) (λ _. insert i)
          (IsFramed-raise_if (not (sees_org s org_id)) row_security_violation)
          (λ _.
            IsFramed-bind (gets_db clash) (λ taken. raise_if taken integrity_error >> put i)
              framed_same
              (λ taken.
                IsFramed-bind (raise_if taken integrity_error) (λ _. put i)
                  (IsFramed-raise_if taken integrity_error) (λ _. put_framed i))))
  where
    clash : Db → Bool
    clash db = not (is_empty (named org_id name db.participants))

    put : ℕ → Action ℕ
    put i = do
      modify_db (λ db. record db {
        participants =
            db.participants ++ record { id = i; organization_id = org_id; name = name } ∷ [];
      })
      pure i

    insert : ℕ → Action ℕ
    insert i = gets_db clash >>= λ taken. raise_if taken integrity_error >> put i

    put_framed : (i : ℕ) → IsFramed (put i)
    put_framed i w = refl

IsFramed-insert_or_reread :
    (s : Session) (org_id : ℕ) (name : Text) → IsFramed (insert_or_reread s org_id name)
unfolding insert_or_reread
IsFramed-insert_or_reread s org_id name =
    IsFramed-catch (begin_nested (add_participant s org_id name >>= λ i. pure (some i)))
      (reread s org_id name)
      (IsFramed-begin_nested (add_participant s org_id name >>= λ i. pure (some i)) (
        IsFramed-bind (add_participant s org_id name) (λ i. pure (some i))
          (IsFramed-add_participant s org_id name) (λ i. framed_same)))
      (IsFramed-reread s org_id name)

IsFramed-found_or_new :
    (s : Session) (org_id : ℕ) (name : Text) (found : Option Participant)
    → IsFramed (found_or_new s org_id name found)
IsFramed-found_or_new s org_id name (some p) = framed_same
IsFramed-found_or_new s org_id name none = IsFramed-insert_or_reread s org_id name

resolve_if :
    (s : Session) (org_id : ℕ) (name : Text) (blank : Bool)
    → IsFramed (
        if blank then pure none else (do
          rows ← gets_db (λ db. named org_id name (participants s db))
          found ← one_or_none rows
          found_or_new s org_id name found))
resolve_if s org_id name true w = refl
resolve_if s org_id name false w =
    IsFramed-bind (one_or_none (named org_id name (participants s w.db)))
      (found_or_new s org_id name) (IsFramed-one_or_none (named org_id name (participants s w.db)))
      (IsFramed-found_or_new s org_id name) w

-- Whether a name is resolved or the attempt raises, no table but that of participants has changed.
pub IsFramed-resolve_participant :
    (s : Session) (org_id : ℕ) (name : Option Text) → IsFramed (resolve_participant s org_id name)
unfolding resolve_participant
IsFramed-resolve_participant s org_id none = framed_same
IsFramed-resolve_participant s org_id (some name) = resolve_if s org_id name (is_empty (strip name))
