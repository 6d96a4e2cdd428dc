-- ===== src/Participants.antt =====
-- src/meeting_mgr/participants.py and provenance.py.
pub mod Frame
use meeting_mgr.Base.{
  ℕ, not, ◌&&◌, Option, none, some, List, [], ◌∷◌, ◌++◌, ◌==◌, if◌then◌else◌, filter, is_empty,
}
use meeting_mgr.Base.Text.{Text, text_eq, strip}
use meeting_mgr.Models.{Participant, Artifact, confirmed}
use meeting_mgr.Db.State.{Exc, integrity_error}
use meeting_mgr.Db.Action.{
  Action, pure, raise, ◌>>=◌, ◌>>◌, raise_if, gets_db, modify_db, new_id, one_or_none, one, catch,
}
use meeting_mgr.Db.Session.{Session, sees_org, participants}
use meeting_mgr.Db.Rows.{begin_nested, check_row}

abbrev pub named : ℕ → Text → List Participant → List Participant
named org_id name = filter (λ p. p.organization_id == org_id && text_eq p.name name)

-- The insert under uq_participant_org_name; the new row's id.
unfoldable pub add_participant : Session → ℕ → Text → Action ℕ
add_participant s org_id name = do
  participant_id ← new_id
  check_row (sees_org s org_id)
  clash ← gets_db (λ db. not (is_empty (named org_id name db.participants)))
  raise_if clash integrity_error
  modify_db (λ db. record db {
    participants =
        db.participants
        ++ record { id = participant_id; organization_id = org_id; name = name } ∷ [];
  })
  pure participant_id

-- `except IntegrityError`: the row that another worker has put in.
unfoldable pub reread : Session → ℕ → Text → Exc → Action (Option ℕ)
reread s org_id name integrity_error = do
  rows ← gets_db (λ db. named org_id name (participants s db))
  p ← one rows
  pure (some p.id)
reread s org_id name e = raise e

-- The nested block, which rolls back alone.
unfoldable pub insert_or_reread : Session → ℕ → Text → Action (Option ℕ)
insert_or_reread s org_id name =
    catch (begin_nested do i ← add_participant s org_id name; pure (some i)) (reread s org_id name)

abbrev pub found_or_new : Session → ℕ → Text → Option Participant → Action (Option ℕ)
found_or_new s org_id name (some p) = pure (some p.id)
found_or_new s org_id name none = insert_or_reread s org_id name

unfoldable pub resolve_participant : Session → ℕ → Option Text → Action (Option ℕ)
resolve_participant s org_id none = pure none
resolve_participant s org_id (some name) = if is_empty (strip name) then pure none else (do
  rows ← gets_db (λ db. named org_id name (participants s db))
  found ← one_or_none rows
  found_or_new s org_id name found)

-- `confirm(row)` of provenance.py: the one writer of "confirmed".
abbrev pub confirm : Artifact → Artifact
confirm row = record row { provenance = confirmed }
