-- ===== src/Meetings.antt =====
-- src/meeting_mgr/api/meetings.py: Meetings are uploaded and listed.
pub mod Audio
pub mod Events
pub mod Reading
pub mod Order
pub mod Pages
pub mod Uploads
pub mod Hidden
pub mod Ranges
pub mod Closing
use meeting_mgr.Base.{
  ℕ, String, ◌&&◌, Option, List, [], ◌∷◌, ◌++◌, map, ltb, ◌==◌, if◌then◌else◌, take, drop, filter,
}
use meeting_mgr.Base.Text.{Text, codes}
use meeting_mgr.Base.Decimal.{ℤ, decimal, pos}
use meeting_mgr.Models.{Role, Status, Account, Meeting, admin, member, pending}
use meeting_mgr.Db.State.{Db, run_pipeline_task, data_error}
use meeting_mgr.Db.Action.{Action, pure, raise, gets, ◌>>=◌, ◌>>◌, gets_db, new_id, delay}
use meeting_mgr.Db.Session.{Session, get_org_session, get_readonly_org_session, meetings}
use meeting_mgr.Db.Rows.{add_meeting, add_recording}
use meeting_mgr.Storage.{ensure_bucket, put_stream}
use meeting_mgr.Authz.{readable_meetings_filter, require_role}
use meeting_mgr.Capture.{new_meeting, Reply}

-- f"raw/{m.id}/{file.filename}"
unfoldable pub upload_key : ℕ → Text → Text
upload_key meeting_id filename = codes "raw/" ++ (decimal meeting_id ++ b'/' ∷ filename)

-- The roles that may upload.
abbrev pub can_create : List Role
can_create = admin ∷ member ∷ []

-- The session of `create_meeting`; the result is the Meeting's id.
unfoldable pub create_rows : (title filename : Text) → List ℕ → Account → Action ℕ
create_rows title filename bytes account = get_org_session account.organization_id λ s. do
  meeting_id ← new_id
  now ← gets (λ w. w.now)
  add_meeting s (new_meeting meeting_id account.organization_id account.id title pending now)
  put_stream (upload_key meeting_id filename) bytes
  add_recording s meeting_id (upload_key meeting_id filename)
  pure meeting_id

unfoldable pub create_meeting : (title filename : Text) → List ℕ → Account → Action Reply
create_meeting title filename bytes account = do
  require_role account can_create
  ensure_bucket
  meeting_id ← create_rows title filename bytes account
  delay (run_pipeline_task meeting_id)
  pure (record { meeting_id = meeting_id; status = pending })

-- `order_by(id.desc())`
module _ {A : Type 0} (id : A → ℕ) where
  unfoldable pub insert_desc : A → List A → List A
  insert_desc x [] = x ∷ []
  insert_desc x (y ∷ ys) = if ltb (id x) (id y) then y ∷ insert_desc x ys else x ∷ y ∷ ys

  unfoldable pub sort_desc : List A → List A
  sort_desc [] = []
  sort_desc (x ∷ xs) = insert_desc x (sort_desc xs)

-- `.offset(offset).limit(limit)`, which the database refuses if either is negative.
unfoldable pub page : {A : Type 0} → (limit offset : ℤ) → List A → Action (List A)
page (pos limit) (pos offset) rows = pure (take limit (drop offset rows))
page _ _ rows = raise data_error

-- A row of the listing.
pub record MeetingView : Type 0 where
  pub id : ℕ
  pub title : Text
  pub status : Status
  pub current_stage : Option String
  pub failed_stage : Option String
  pub created_at : ℕ

abbrev pub meeting_view : Meeting → MeetingView
meeting_view m = record {
  id = m.id;
  title = m.title;
  status = m.status;
  current_stage = m.current_stage;
  failed_stage = m.failed_stage;
  created_at = m.created_at;
}

-- The Meetings of a listing before it is cut into pages.
unfoldable pub listed : Account → Session → Db → List Meeting
listed account s db =
    sort_desc (λ m. m.id)
      (filter
        (λ m.
          m.organization_id == account.organization_id && readable_meetings_filter account s db m)
        (meetings s db))

unfoldable pub list_meetings : Account → (limit offset : ℤ) → Action (List MeetingView)
list_meetings account limit offset = get_readonly_org_session account.organization_id λ s. do
  rows ← gets_db (listed account s)
  some_rows ← page limit offset rows
  pure (map meeting_view some_rows)
