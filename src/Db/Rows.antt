-- ===== src/Db/Rows.antt =====
-- Inserts and updates of rows: row security checks what a tenant writes, as it does what it reads,
-- and a unique constraint raises an IntegrityError.
use meeting_mgr.Base.{
  ℕ, String, Bool, not, ◌&&◌, Option, none, some, [], ◌∷◌, ◌++◌, ◌==◌, update_where,
}
use meeting_mgr.Base.Text.{Text}
use meeting_mgr.Models.{Status, Meeting, Target, Detail, failed}
use meeting_mgr.Db.State.{row_security_violation}
use meeting_mgr.Db.Action.{Action, ◌>>=◌, ◌>>◌, raise_if, gets_db, modify_db, new_id}
use meeting_mgr.Db.Session.{Session, settle, sees_org, sees_meeting}

-- `with s.begin_nested()`: an exception undoes the block alone.
abbrev pub begin_nested : {A : Type 0} → Action A → Action A
begin_nested m w = settle w.db (m w)

-- What a tenant may not insert.
abbrev pub check_row : Bool → Action (Unit {0})
check_row visible = raise_if (not visible) row_security_violation

unfoldable pub add_meeting : Session → Meeting → Action (Unit {0})
add_meeting s m = do
  check_row (sees_org s m.organization_id)
  modify_db (λ db. record db { meetings = db.meetings ++ m ∷ [] })

unfoldable pub add_recording : Session → (meeting_id : ℕ) → (raw_key : Text) → Action (Unit {0})
unfolding sees_meeting
add_recording s meeting_id raw_key = do
  recording_id ← new_id
  visible ← gets_db (λ db. sees_meeting s db meeting_id)
  check_row visible
  modify_db (λ db. record db {
    recordings =
        db.recordings
        ++ record {
          id = recording_id;
          meeting_id = meeting_id;
          raw_key = some raw_key;
          normalized_key = none;
          duration_seconds = none;
        }
          ∷ [];
  })

-- An assignment to the columns of a row that the session has loaded.
abbrev pub update_meeting : Session → ℕ → (Meeting → Meeting) → Action (Unit {0})
update_meeting s mid f = modify_db (λ db. record db {
  meetings = update_where (λ m. m.id == mid && sees_org s m.organization_id) f db.meetings;
})

-- `m.status = ...`
abbrev pub set_status : Status → Meeting → Meeting
set_status status m = record m { status = status }

-- `m.status, m.failed_stage = "failed", stage`
abbrev pub fail_at : String → Meeting → Meeting
fail_at stage m = record m { status = failed; failed_stage = some stage }

-- src/meeting_mgr/audit.py
unfoldable pub record_audit :
    Session
    → (organization_id : ℕ) → (actor_account_id : Option ℕ) → (action : String) → Target
    → Detail
    → Action (Unit {0})
record_audit s organization_id actor_account_id action target detail = do
  entry_id ← new_id
  check_row (sees_org s organization_id)
  modify_db (λ db. record db {
    audit_log =
        db.audit_log
        ++ record {
          id = entry_id;
          organization_id = organization_id;
          actor_account_id = actor_account_id;
          action = action;
          target = target;
          detail = detail;
        }
          ∷ [];
  })
