-- ===== src/Edits/Artifacts.antt =====
-- The four tables of derived records in src/meeting_mgr/api/edits.py, and the fields that an edit sets.
use meeting_mgr.Base.{
  ℕ, Bool, true, false, ◌&&◌, Option, none, some, List, [], ◌∷◌, ltb, ◌==◌, if◌then◌else◌,
}
use meeting_mgr.Base.Text.{Text, codes, text_eq}
use meeting_mgr.Models.{Content, Artifact, key_topic, minute, action_item, decision_point}
use meeting_mgr.Db.State.{Db}

-- A key of `_ARTIFACTS`, which is also one of `_REGENERATABLE`.
pub data ArtifactType : Type 0 where
  key_topics minutes action_items decision_points : ArtifactType

unfoldable pub type_named : Text → Option ArtifactType
type_named name =
    if text_eq name (codes "key_topics")
    then some key_topics
    else if text_eq name (codes "minutes")
    then some minutes
    else if text_eq name (codes "action_items")
    then some action_items
    else if text_eq name (codes "decision_points")
    then some decision_points
    else none

-- The table of the model.
abbrev pub table : ArtifactType → Db → List Artifact
table key_topics db = db.key_topics
table minutes db = db.minutes
table action_items db = db.action_items
table decision_points db = db.decision_points

abbrev pub put_table : ArtifactType → List Artifact → Db → Db
put_table key_topics rows db = record db { key_topics = rows }
put_table minutes rows db = record db { minutes = rows }
put_table action_items rows db = record db { action_items = rows }
put_table decision_points rows db = record db { decision_points = rows }

-- One item of the body of a PATCH: the field with its value.
pub data FieldEdit : Type 0 where
  set_title set_text set_status_text : Text → FieldEdit
  set_due_date set_participant_name : Option Text → FieldEdit
  set_settled : Bool → FieldEdit
  other_field : (name : Text) → FieldEdit

-- The key of the item.
abbrev pub field_name : FieldEdit → Text
field_name (set_title v) = codes "title"
field_name (set_text v) = codes "text"
field_name (set_status_text v) = codes "status"
field_name (set_due_date v) = codes "due_date"
field_name (set_participant_name v) = codes "participant_name"
field_name (set_settled v) = codes "settled"
field_name (other_field name) = name

-- The order of texts.
unfoldable pub text_leb : Text → Text → Bool
text_leb [] t = true
text_leb (c ∷ cs) [] = false
text_leb (c ∷ cs) (d ∷ ds) = let rest = text_leb cs ds in if ltb c d then true else c == d && rest

unfoldable pub insert_name : Text → List Text → List Text
insert_name n [] = n ∷ []
insert_name n (m ∷ ms) = if text_leb n m then n ∷ m ∷ ms else m ∷ insert_name n ms

-- `sorted(body)`
unfoldable pub sorted_names : List FieldEdit → List Text
sorted_names [] = []
sorted_names (e ∷ es) = insert_name (field_name e) (sorted_names es)

-- The fields that a person may change, by type.
unfoldable pub editable : ArtifactType → FieldEdit → Bool
editable key_topics (set_title v) = true
editable minutes (set_text v) = true
editable action_items (set_text v) = true
editable action_items (set_status_text v) = true
editable action_items (set_due_date v) = true
editable action_items (set_participant_name v) = true
editable decision_points (set_text v) = true
editable decision_points (set_settled v) = true
editable _ _ = false

-- `setattr(row, field, value)`
abbrev pub set_plain : FieldEdit → Content → Content
set_plain (set_title v) (key_topic title) = key_topic v
set_plain (set_text v) (minute text) = minute v
set_plain (set_text v) (action_item text pid due status) = action_item v pid due status
set_plain (set_status_text v) (action_item text pid due status) = action_item text pid due v
set_plain (set_text v) (decision_point text settled positions) = decision_point v settled positions
set_plain (set_settled v) (decision_point text settled positions) = decision_point text v positions
set_plain _ content = content

abbrev pub set_participant : Option ℕ → Content → Content
set_participant pid (action_item text old due status) = action_item text pid due status
set_participant pid content = content

abbrev pub set_due : Option Text → Content → Content
set_due due (action_item text pid old status) = action_item text pid due status
set_due due content = content
