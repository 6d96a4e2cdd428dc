-- ===== src/Edits/Fields.antt =====
-- The fields of an edit and the tables that it writes.
use meeting_mgr.Base.{
  ℕ, ◌≡◌, refl, Bool, true, false, Option, none, some, List, [], ◌∷◌, ◌++◌, if◌then◌else◌,
}
use meeting_mgr.Base.Text.{Text}
use meeting_mgr.Models.{Content, Artifact, AuditLogEntry}
use meeting_mgr.Db.State.{Db, value_error}
use meeting_mgr.Db.Action.{pure, raise}
use meeting_mgr.Db.Session.{Session}
use meeting_mgr.Participants.{resolve_participant}
use meeting_mgr.Participants.Frame.{Framed, IsFramed, IsFramed-bind, IsFramed-resolve_participant}
use meeting_mgr.Edits.{
  date_of, apply_edit, apply_edits, ArtifactType, table, put_table, FieldEdit, set_participant,
  set_due, key_topics, minutes, action_items, decision_points, set_title, set_text, set_status_text,
  set_due_date, set_participant_name, set_settled, other_field,
}

module _ (is_date : Text → Bool) where
  date-IsFramed : (due : Option Text) → IsFramed (date_of is_date due)
  date-IsFramed none w = refl
  date-IsFramed (some []) w = refl
  date-IsFramed (some (c ∷ cs)) w = checked (is_date (c ∷ cs))
    where
      checked : (b : Bool) → Framed w ((if b then pure (some (c ∷ cs)) else raise value_error) w).1
      checked true = refl
      checked false = refl

  apply_edit-IsFramed :
      (s : Session) (org_id : ℕ) (e : FieldEdit) (content : Content)
      → IsFramed (apply_edit is_date s org_id e content)
  unfolding apply_edit
  apply_edit-IsFramed s org_id (set_participant_name name) content w =
      IsFramed-bind (resolve_participant s org_id name) (λ pid. pure (set_participant pid content))
        (IsFramed-resolve_participant s org_id name) (λ pid v. refl) w
  apply_edit-IsFramed s org_id (set_due_date due) content w =
      IsFramed-bind (date_of is_date due) (λ due. pure (set_due due content)) (date-IsFramed due)
        (λ due v. refl) w
  apply_edit-IsFramed s org_id (set_title v) content w = refl
  apply_edit-IsFramed s org_id (set_text v) content w = refl
  apply_edit-IsFramed s org_id (set_status_text v) content w = refl
  apply_edit-IsFramed s org_id (set_settled v) content w = refl
  apply_edit-IsFramed s org_id (other_field name) content w = refl

  pub apply_edits-IsFramed :
      (s : Session) (org_id : ℕ) (es : List FieldEdit) (content : Content)
      → IsFramed (apply_edits is_date s org_id es content)
  unfolding apply_edits
  apply_edits-IsFramed s org_id [] content w = refl
  apply_edits-IsFramed s org_id (e ∷ es) content w =
      IsFramed-bind (apply_edit is_date s org_id e content) (apply_edits is_date s org_id es)
        (apply_edit-IsFramed s org_id e content) (apply_edits-IsFramed s org_id es) w

-- What was put in a table is there, whatever goes into the audit log.
pub written_table :
    (k : ArtifactType) (rows : List Artifact) (db : Db) (entries : List AuditLogEntry)
    → table k (record (put_table k rows db) { audit_log = entries }) ≡ rows
written_table key_topics rows db entries = refl
written_table minutes rows db entries = refl
written_table action_items rows db entries = refl
written_table decision_points rows db entries = refl

-- A write of a table and one entry of the audit log.
pub put_table_only :
    (k : ArtifactType) (rows : List Artifact) (db : Db) (entry : AuditLogEntry)
    → let written = record (put_table k rows db) {
      audit_log = (put_table k rows db).audit_log ++ entry ∷ [];
    } in
      written ≡ record (put_table k (table k written) db) { audit_log = db.audit_log ++ entry ∷ [] }
put_table_only key_topics rows db entry = refl
put_table_only minutes rows db entry = refl
put_table_only action_items rows db entry = refl
put_table_only decision_points rows db entry = refl
