-- ===== src/Bot/Finish.antt =====
-- src/meeting_mgr/api/bot.py: the end of a session, cut at its transactions.
use meeting_mgr.Base.{ℕ, not, none, List, [], ◌∷◌, ◌++◌, length}
use meeting_mgr.Base.Text.{Text, codes}
use meeting_mgr.Base.Decimal.{decimal}
use meeting_mgr.Models.{
  Status, BotCredential, pending, capturing, finishing, failed, meeting_target, no_detail,
  chunk_count,
}
use meeting_mgr.Db.State.{Exc, json, run_pipeline_task, http, attribute_error}
use meeting_mgr.Db.Action.{Action, pure, ◌>>=◌, ◌>>◌, raise_if, when, or_raise, delay}
use meeting_mgr.Db.Session.{get_org_session, get_meeting}
use meeting_mgr.Db.Rows.{add_recording, update_meeting, set_status, fail_at, record_audit}
use meeting_mgr.Storage.{put_object, list_keys}
use meeting_mgr.ChunkStorage.{chunk_prefix, sorted_keys}
use meeting_mgr.Capture.{manifest_ref, status_eq}
use meeting_mgr.Bot.{subdir, suffix, session_meeting, owned_session}

abbrev pub not_capturing : Exc
not_capturing = http 409 "session is not in a capturing state"

-- The first transaction of `finish_session`; it leaves the Meeting's id.
unfoldable pub finish_flip : ℕ → BotCredential → Action ℕ
finish_flip session_id credential = get_org_session credential.organization_id λ s. do
  session ← owned_session s session_id credential
  m ← session_meeting s session
  raise_if (not (status_eq m.status capturing)) not_capturing
  update_meeting s m.id (set_status finishing)
  pure m.id

-- The snapshot of the chunks, in the order of their numbers.
unfoldable pub snapshot : ℕ → Action (List Text)
snapshot meeting_id = do
  keys ← list_keys (chunk_prefix meeting_id subdir)
  sorted_keys (chunk_prefix meeting_id subdir) suffix keys

-- f"raw/{meeting_id}/bot-manifest.json"
unfoldable pub manifest_key : ℕ → Text
manifest_key meeting_id = codes "raw/" ++ (decimal meeting_id ++ codes "/bot-manifest.json")

-- The second transaction of `finish_session`; the status is that of the reply.
unfoldable pub finish_commit : ℕ → BotCredential → List Text → Action Status
finish_commit meeting_id credential [] = get_org_session credential.organization_id λ s. do
  found ← get_meeting s meeting_id
  or_raise found attribute_error
  update_meeting s meeting_id (fail_at "bot_ingest")
  record_audit s credential.organization_id none "meeting.bot_ingest.empty"
      (meeting_target meeting_id) no_detail
  pure failed
finish_commit meeting_id credential (k ∷ ks) = get_org_session credential.organization_id λ s. do
  found ← get_meeting s meeting_id
  put_object (manifest_key meeting_id) (json (k ∷ ks))
  add_recording s meeting_id (manifest_ref (manifest_key meeting_id))
  or_raise found attribute_error
  update_meeting s meeting_id (set_status pending)
  record_audit s credential.organization_id none "meeting.bot_ingest.finish"
      (meeting_target meeting_id) (chunk_count (length (k ∷ ks)))
  pure pending

unfoldable pub finish_session : ℕ → BotCredential → Action (ℕ × Status)
finish_session session_id credential = do
  meeting_id ← finish_flip session_id credential
  keys ← snapshot meeting_id
  status ← finish_commit meeting_id credential keys
  when (status_eq status pending) (delay (run_pipeline_task meeting_id))
  pure (meeting_id, status)
