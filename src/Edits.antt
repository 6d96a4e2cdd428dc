-- ===== src/Edits.antt =====
-- src/meeting_mgr/api/edits.py: what people change of the derived records. The body of an edit is a
-- list of well-typed fields; a JSON value of another type than its column has is left out.
pub mod Artifacts
pub mod Holders
unfoldable pub use Artifacts.*
unfoldable pub use Holders.*
pub mod Fields
pub mod Confirmed
pub mod Regenerated
use meeting_mgr.Base.{
  ℕ, ◌*◌, Bool, true, not, ◌&&◌, Option, none, some, List, [], ◌∷◌, ◌==◌, if◌then◌else◌, filter,
  any, update_where,
}
use meeting_mgr.Base.Text.{Text}
use meeting_mgr.Models.{
  Account, Content, Artifact, Target, artifact_target, category_target, no_detail, field_names,
}
use meeting_mgr.Db.State.{Db, Exc, regenerate_task, http, value_error}
use meeting_mgr.Db.Action.{
  Action, pure, raise, ◌>>=◌, ◌>>◌, raise_if, gets_db, modify_db, one_or_none, or_raise, delay,
}
use meeting_mgr.Db.Session.{Session, get_org_session, sees_meeting}
use meeting_mgr.Db.Rows.{record_audit}
use meeting_mgr.Capture.{authorized_meeting}
use meeting_mgr.Participants.{resolve_participant, confirm}
use meeting_mgr.Edits.Artifacts.{
  ArtifactType, type_named, table, put_table, FieldEdit, sorted_names, editable, set_plain,
  set_participant, set_due, set_due_date, set_participant_name,
}

abbrev pub unknown_type : Exc
unknown_type = http 404 "unknown artifact type"

abbrev pub no_item : Exc
no_item = http 404 "item not found in this meeting"

abbrev pub not_editable : Exc
not_editable = http 400 "not editable"

-- `filter_by(id=item_id, meeting_id=meeting_id)` under the session's row security.
abbrev pub is_item : Session → Db → ℕ → ℕ → Artifact → Bool
is_item s db meeting_id item_id a =
    a.id == item_id && a.meeting_id == meeting_id && sees_meeting s db a.meeting_id

-- What `_lookup` finds.
pub record Found : Type 0 where
  pub row : Artifact
  pub model : ArtifactType
  pub organization_id : ℕ

-- `_lookup`, with `write=True`
unfoldable pub lookup_item : Session → Account → ℕ → Text → ℕ → Action Found
lookup_item s account meeting_id artifact_type item_id = do
  meeting ← authorized_meeting account meeting_id s true
  model ← or_raise (type_named artifact_type) unknown_type
  rows ← gets_db (λ db. filter (is_item s db meeting_id item_id) (table model db))
  found ← one_or_none rows
  row ← or_raise found no_item
  pure (record { row = row; model = model; organization_id = meeting.organization_id })

-- Writes a row back, or deletes it.
unfoldable pub write_item :
    Session → ArtifactType → ℕ → ℕ → (Artifact → Artifact) → Action (Unit {0})
write_item s model meeting_id item_id f =
    modify_db
      (λ db. put_table model (update_where (is_item s db meeting_id item_id) f (table model db)) db)

-- `date.fromisoformat` is a parameter: whether a text is a date.
module _ (is_date : Text → Bool) where
  -- An empty text is false.
  abbrev pub date_of : Option Text → Action (Option Text)
  date_of none = pure none
  date_of (some []) = pure none
  date_of (some (c ∷ cs)) = if is_date (c ∷ cs) then pure (some (c ∷ cs)) else raise value_error

  -- One round of the loop over the body.
  unfoldable pub apply_edit : Session → ℕ → FieldEdit → Content → Action Content
  apply_edit s org_id (set_participant_name name) content = do
    pid ← resolve_participant s org_id name
    pure (set_participant pid content)
  apply_edit s org_id (set_due_date date) content = do
    due ← date_of date
    pure (set_due due content)
  apply_edit s org_id edit content = pure (set_plain edit content)

  unfoldable pub apply_edits : Session → ℕ → List FieldEdit → Content → Action Content
  apply_edits s org_id [] content = pure content
  apply_edits s org_id (e ∷ es) content = do
    next ← apply_edit s org_id e content
    apply_edits s org_id es next

  -- The row after `confirm`.
  abbrev pub confirmed_with : Content → Artifact → Artifact
  confirmed_with content row = confirm (record row { content = content })

  -- The part of `edit_artifact` after the lookup.
  unfoldable pub edit_found :
      Session → ℕ → ℕ → Target → List FieldEdit → Account → Found → Action Artifact
  edit_found s meeting_id item_id target body account found = do
    raise_if (any (λ e. not (editable found.model e)) body) not_editable
    content ← apply_edits s found.organization_id body found.row.content
    write_item s found.model meeting_id item_id (confirmed_with content)
    record_audit s found.organization_id (some account.id) "artifact.edit" target
        (field_names (sorted_names body))
    pure (confirmed_with content found.row)

  unfoldable pub edit_artifact : ℕ → Text → ℕ → List FieldEdit → Account → Action Artifact
  edit_artifact meeting_id artifact_type item_id body account =
      get_org_session account.organization_id λ s. do
        found ← lookup_item s account meeting_id artifact_type item_id
        edit_found s meeting_id item_id (artifact_target meeting_id artifact_type item_id) body
            account found

unfoldable pub delete_artifact : ℕ → Text → ℕ → Account → Action (Unit {0})
delete_artifact meeting_id artifact_type item_id account =
    get_org_session account.organization_id λ s. do
      found ← lookup_item s account meeting_id artifact_type item_id
      modify_db (λ db.
          put_table found.model
            (filter (λ a. not (is_item s db meeting_id item_id a)) (table found.model db)) db)
      record_audit s found.organization_id (some account.id) "artifact.delete"
          (artifact_target meeting_id artifact_type item_id) no_detail

-- `s.query(model).filter_by(meeting_id=...).delete()`
unfoldable pub delete_category : Session → ArtifactType → ℕ → Action (Unit {0})
delete_category s model meeting_id = modify_db (λ db.
    put_table model
      (filter (λ a. not (a.meeting_id == meeting_id && sees_meeting s db a.meeting_id))
        (table model db))
      db)

unfoldable pub regenerate_artifact : ℕ → Text → Account → Action Text
regenerate_artifact meeting_id artifact_type account = do
  model ← or_raise (type_named artifact_type) unknown_type
  get_org_session account.organization_id λ s. do
    meeting ← authorized_meeting account meeting_id s true
    delete_category s model meeting_id
    record_audit s meeting.organization_id (some account.id) "artifact.regenerate"
        (category_target meeting_id artifact_type) no_detail
  delay (regenerate_task meeting_id artifact_type)
  pure artifact_type
