-- ===== src/Tests/Editing.antt =====
-- An action item that is edited, and a category that is regenerated.
use meeting_mgr.Base.{◌≡◌, refl, Bool, true, false, not, none, some, List, [], ◌∷◌, any}
use meeting_mgr.Base.Text.{Text, codes, text_eq, is_space, lstrip, rstrip, strip}
use meeting_mgr.Models.{
  Account, Content, Artifact, Target, member, published, inferred, confirmed, action_item,
  artifact_target,
}
use meeting_mgr.Db.State.{Db, World, Result}
use meeting_mgr.Db.Session.{sees_meeting, tenant}
use meeting_mgr.Db.Rows.{record_audit}
use meeting_mgr.Tests.Samples.{sample_account, sample_meeting, empty_db, sample_world}
use meeting_mgr.Authz.{can_read, authorize}
use meeting_mgr.Capture.{authorized_meeting}
use meeting_mgr.Participants.{add_participant, insert_or_reread, resolve_participant}
use meeting_mgr.Participants.Frame.{Framed}
use meeting_mgr.Edits.{
  Found, write_item, apply_edit, apply_edits, confirmed_with, edit_found, regenerate_artifact,
  type_named, FieldEdit, text_leb, insert_name, sorted_names, editable, action_items,
  set_status_text, set_participant_name,
}
use meeting_mgr.Edits.Confirmed.{EditedRows, Wrote, edit_confirms}
use meeting_mgr.Edits.Regenerated.{Emptied, regeneration_starts_empty}

abbrev editor : Account
editor = sample_account 2 member

abbrev proposed : Artifact
proposed = record {
  id = 20;
  meeting_id = 7;
  citations = 9 ∷ [];
  provenance = inferred;
  content = action_item (codes "call") none none (codes "open");
}

abbrev edit_db : Db
edit_db = record empty_db {
  meetings = sample_meeting 7 published ∷ [];
  action_items = proposed ∷ [];
}

abbrev edit_world : World
edit_world = sample_world edit_db [] []

abbrev changes : List FieldEdit
changes = set_status_text (codes "done") ∷ set_participant_name (some (codes "Ann")) ∷ []

abbrev found_item : Found
found_item = record { row = proposed; model = action_items; organization_id = 1 }

abbrev any_date : Text → Bool
any_date t = true

abbrev item_target : Target
item_target = artifact_target 7 (codes "action_items") 20

abbrev edited : Result Artifact × World
edited = edit_found any_date (tenant 1) 7 20 item_target changes editor found_item edit_world

abbrev edited_row : Artifact
edited_row = record proposed {
  provenance = confirmed;
  content = action_item (codes "call") (some 50) none (codes "done");
}

edit_confirms_example :
    (any (λ e. not (editable action_items e)) changes ≡ false)
    × ((content : Content) × (v : World) × Framed edit_world v
        × (edited_row ≡ confirmed_with any_date content proposed)
        × EditedRows (tenant 1) v.db 7 20 content v.db.action_items edited.1.db.action_items
        × Wrote any_date (tenant 1) 7 20 item_target changes editor found_item v edited.1)
unfolding edit_found apply_edits apply_edit resolve_participant insert_or_reread add_participant
    write_item record_audit sees_meeting editable sorted_names insert_name text_leb strip lstrip
    rstrip is_space text_eq
edit_confirms_example =
    edit_confirms any_date (tenant 1) 7 20 item_target changes editor found_item edit_world edited.1
      edited_row refl

regeneration_starts_empty_example :
    Emptied 7
      (codes "action_items")
      editor
      edit_world
      (sample_meeting 7 published)
      action_items
      (regenerate_artifact 7 (codes "action_items") editor edit_world)
unfolding type_named text_eq authorized_meeting authorize can_read
regeneration_starts_empty_example =
    regeneration_starts_empty 7 (codes "action_items") editor edit_world
      (sample_meeting 7 published) action_items refl refl refl
