-- ===== src/Capture.antt =====
-- src/meeting_mgr/api/capture.py: browser capture. A handler is the sequence of its sessions and
-- storage calls; `finish_capture` is cut into its two transactions and what lies between, so that
-- other requests can come in between; the first, which reads and then writes without a condition, is
-- cut between the two.
pub mod Outcomes
pub mod Commits
pub mod Counts
pub mod Marking
pub mod Quiet
pub mod Races
pub mod Finish
pub mod Winning
pub mod Stale
use meeting_mgr.Base.{
  ℕ, Bool, true, false, not, ◌&&◌, ◌||◌, Option, none, some, List, [], ◌∷◌, ◌++◌, ◌==◌,
  if◌then◌else◌, any, update_where,
}
use meeting_mgr.Base.Text.{Text, codes}
use meeting_mgr.Base.Decimal.{ℤ, decimal}
use meeting_mgr.Models.{
  Role, Status, Account, Meeting, admin, member, private, pending, capturing, finishing, processing,
  published, failed,
}
use meeting_mgr.Db.State.{Exc, json, run_pipeline_task, http, attribute_error}
use meeting_mgr.Db.Action.{
  Action, pure, raise, gets, ◌>>=◌, ◌>>◌, raise_if, gets_db, modify_db, new_id, or_raise, delay,
}
use meeting_mgr.Db.Session.{
  Session, get_org_session, get_readonly_org_session, sees_org, meetings, get_meeting,
}
use meeting_mgr.Db.Rows.{add_meeting, add_recording, update_meeting, set_status}
use meeting_mgr.Storage.{ensure_bucket, put_object, put_stream, list_keys}
use meeting_mgr.Authz.{require_role, authorize}
use meeting_mgr.ChunkStorage.{chunk_prefix, chunk_key, sorted_keys, sorted_seqs}

-- `_CAN_CAPTURE`
abbrev pub can_capture : List Role
can_capture = admin ∷ member ∷ []

abbrev pub subdir : Text
subdir = codes "chunks"

abbrev pub suffix : Text
suffix = codes ".webm"

-- f"raw/{meeting_id}/manifest.json"
unfoldable pub manifest_key : ℕ → Text
manifest_key meeting_id = codes "raw/" ++ (decimal meeting_id ++ codes "/manifest.json")

-- f"manifest:{manifest_key}"
abbrev pub manifest_ref : Text → Text
manifest_ref key = codes "manifest:" ++ key

-- The columns that `Meeting(...)` leaves to their defaults.
abbrev pub new_meeting :
    (id organization_id owner : ℕ) → (title : Text) → Status → (created_at : ℕ) → Meeting
new_meeting id organization_id owner title status created_at = record {
  id = id;
  organization_id = organization_id;
  title = title;
  status = status;
  failed_stage = none;
  current_stage = none;
  created_at = created_at;
  owner_account_id = some owner;
  visibility = private;
}

abbrev pub status_eq : Status → Status → Bool
status_eq pending pending = true
status_eq capturing capturing = true
status_eq finishing finishing = true
status_eq processing processing = true
status_eq published published = true
status_eq failed failed = true
status_eq _ _ = false

-- The body of a reply.
pub record Reply : Type 0 where
  pub meeting_id : ℕ
  pub status : Status

unfoldable pub start_capture : Text → Account → Action Reply
start_capture title account = do
  require_role account can_capture
  get_org_session account.organization_id λ s. do
    meeting_id ← new_id
    now ← gets (λ w. w.now)
    add_meeting s (new_meeting meeting_id account.organization_id account.id title capturing now)
    pure (record { meeting_id = meeting_id; status = capturing })

-- `s.get(Meeting, meeting_id)` and `authorize(account, m, s, write=...)`, which leaves a Meeting.
unfoldable pub authorized_meeting : Account → ℕ → Session → (write : Bool) → Action Meeting
authorized_meeting account meeting_id s write = do
  found ← get_meeting s meeting_id
  authorize account found s write
  or_raise found attribute_error

abbrev pub not_accepting : Exc
not_accepting = http 409 "meeting is not accepting capture chunks"

unfoldable pub upload_chunk : (meeting_id : ℕ) → (seq : ℤ) → List ℕ → Account → Action ℤ
upload_chunk meeting_id seq chunk account = do
  get_org_session account.organization_id λ s. do
    m ← authorized_meeting account meeting_id s true
    raise_if (not (status_eq m.status capturing)) not_accepting
  ensure_bucket
  put_stream (chunk_key meeting_id seq subdir suffix) chunk
  pure seq

unfoldable pub list_chunks : ℕ → Account → Action (List ℤ)
list_chunks meeting_id account = do
  get_readonly_org_session account.organization_id
      λ s. do authorized_meeting account meeting_id s false; pure tt
  keys ← list_keys (chunk_prefix meeting_id subdir)
  sorted_seqs (chunk_prefix meeting_id subdir) suffix keys

abbrev pub not_in_capture : Exc
not_in_capture = http 409 "meeting is not in capture state"

abbrev pub no_chunks : Exc
no_chunks = http 422 "no chunks were uploaded"

-- What the first transaction of `finish_capture` reads: the row as it was committed then, which is
-- not locked.
unfoldable pub flip_read : ℕ → Account → Action (Unit {0})
flip_read meeting_id account = get_org_session account.organization_id λ s. do
  m ← authorized_meeting account meeting_id s true
  raise_if (not (status_eq m.status capturing || status_eq m.status finishing)) not_in_capture

-- What it writes as it is committed: `UPDATE meeting SET status = 'finishing' WHERE id =
-- meeting_id`, whatever the status is by then.
unfoldable pub flip_write : ℕ → Account → Action (Unit {0})
flip_write meeting_id account =
    get_org_session account.organization_id λ s. update_meeting s meeting_id (set_status finishing)

-- The first transaction: the status flips before the chunks are listed.
unfoldable pub finish_flip : ℕ → Account → Action (Unit {0})
finish_flip meeting_id account = do flip_read meeting_id account; flip_write meeting_id account

-- The snapshot of the chunks, in the order of their numbers.
unfoldable pub snapshot : ℕ → Action (List Text)
snapshot meeting_id = do
  keys ← list_keys (chunk_prefix meeting_id subdir)
  sorted_keys (chunk_prefix meeting_id subdir) suffix keys

-- What the second transaction found.
pub data Outcome : Type 0 where
  done empty duplicate : Outcome

-- `UPDATE meeting SET status = to WHERE id = meeting_id AND status = 'finishing'`; whether a row
-- was updated.
unfoldable pub leave_finishing : Session → ℕ → Status → Action Bool
leave_finishing s meeting_id to = do
  let matches = λ (m : Meeting).
      m.id == meeting_id && sees_org s m.organization_id && status_eq m.status finishing
  updated ← gets_db (λ db. any matches db.meetings)
  modify_db (λ db. record db { meetings = update_where matches (set_status to) db.meetings })
  pure updated

-- The manifest and the Recording, once the transition to "pending" is this caller's.
unfoldable pub write_manifest : Session → ℕ → List Text → Action Outcome
write_manifest s meeting_id keys = do
  put_object (manifest_key meeting_id) (json keys)
  add_recording s meeting_id (manifest_ref (manifest_key meeting_id))
  pure done

-- The second transaction of `finish_capture`.
unfoldable pub finish_commit : ℕ → Account → List Text → Action Outcome
finish_commit meeting_id account [] = get_org_session account.organization_id λ s. do
  updated ← leave_finishing s meeting_id capturing
  pure (if updated then empty else duplicate)
finish_commit meeting_id account (k ∷ ks) = get_org_session account.organization_id λ s. do
  updated ← leave_finishing s meeting_id pending
  if updated then write_manifest s meeting_id (k ∷ ks) else pure duplicate

-- The reply of a caller that lost the race; `none` is "unknown".
abbrev pub lost_reply : ℕ → Option Meeting → Action (ℕ × Option Status)
lost_reply meeting_id none = pure (meeting_id, none)
lost_reply meeting_id (some current) = do
  raise_if (status_eq current.status capturing) no_chunks
  pure (meeting_id, some current.status)

-- What `finish_capture` does after the second transaction.
unfoldable pub finish_reply : ℕ → Account → Outcome → Action (ℕ × Option Status)
finish_reply meeting_id account duplicate = do
  current ← get_readonly_org_session account.organization_id λ s. get_meeting s meeting_id
  lost_reply meeting_id current
finish_reply meeting_id account empty = raise no_chunks
finish_reply meeting_id account done = do
  delay (run_pipeline_task meeting_id)
  pure (meeting_id, some pending)

unfoldable pub finish_capture : ℕ → Account → Action (ℕ × Option Status)
finish_capture meeting_id account = do
  finish_flip meeting_id account
  keys ← snapshot meeting_id
  outcome ← finish_commit meeting_id account keys
  finish_reply meeting_id account outcome
