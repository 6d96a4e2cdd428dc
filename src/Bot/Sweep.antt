-- ===== src/Bot/Sweep.antt =====
-- src/meeting_mgr/pipeline/bot.py: the sweep that fails out the Meetings of stale bot sessions.
use meeting_mgr.Base.{ℕ, Bool, ◌&&◌, ◌||◌, Option, none, some, List, map, leb, ◌==◌, filter, any}
use meeting_mgr.Models.{
  Status, Meeting, BotSession, capturing, finishing, meeting_target, bot_session_id,
}
use meeting_mgr.Db.State.{Db, Exc}
use meeting_mgr.Db.Action.{Action, pure, gets, ◌>>=◌, ◌>>◌, gets_db, catch, for_each}
use meeting_mgr.Db.Session.{Session, get_readonly_session, get_org_session, get_meeting}
use meeting_mgr.Db.Rows.{update_meeting, fail_at, record_audit}
use meeting_mgr.Db.Time.{seconds, minus}
use meeting_mgr.Capture.{status_eq}

-- pipeline/bot_config.py
abbrev pub stale_session_seconds : ℕ
stale_session_seconds = 14400

-- What the untenanted query selects: a session, its Organization and its Meeting.
pub record Row : Type 0 where
  pub session_id : ℕ
  pub organization_id : ℕ
  pub meeting_id : ℕ

abbrev pub in_ingest : Status → Bool
in_ingest status = status_eq status capturing || status_eq status finishing

-- The join on the Meeting, and the filter.
abbrev pub is_stale : ℕ → Db → BotSession → Bool
is_stale cutoff db b =
    any (λ m. m.id == b.meeting_id && in_ingest m.status) db.meetings
    && leb b.last_activity_at cutoff

abbrev row_of : BotSession → Row
row_of b = record {
  session_id = b.id;
  organization_id = b.organization_id;
  meeting_id = b.meeting_id;
}

unfoldable pub stale_rows : ℕ → Db → List Row
stale_rows cutoff db = map row_of (filter (is_stale cutoff db) db.bot_sessions)

-- The transition of one Meeting, on the status that it has now.
fail_out : Session → Row → Status → Action (Unit {0})
unfolding record_audit
fail_out s row capturing = do
  update_meeting s row.meeting_id (fail_at "bot_ingest")
  record_audit s row.organization_id none "meeting.bot_ingest.stale" (meeting_target row.meeting_id)
      (bot_session_id row.session_id)
fail_out s row finishing = do
  update_meeting s row.meeting_id (fail_at "bot_ingest_finish_stuck")
  record_audit s row.organization_id none "meeting.bot_ingest.finish_stuck"
      (meeting_target row.meeting_id) (bot_session_id row.session_id)
fail_out s row _ = pure tt

fail_found : Session → Row → Option Meeting → Action (Unit {0})
unfolding fail_out
fail_found s row none = pure tt
fail_found s row (some m) = fail_out s row m.status

-- One round of the loop, in a session of the row's own Organization.
unfoldable pub sweep_row : Row → Action (Unit {0})
unfolding fail_found
sweep_row row =
    get_org_session row.organization_id
      λ s. do found ← get_meeting s row.meeting_id; fail_found s row found

abbrev pub swallow : Exc → Action (Unit {0})
swallow e = pure tt

unfoldable pub sweep_stale_bot_sessions : Action (Unit {0})
unfolding stale_rows for_each sweep_row minus
sweep_stale_bot_sessions = do
  now ← gets (λ w. w.now)
  cutoff ← minus now (seconds stale_session_seconds)
  rows ← get_readonly_session λ s. gets_db (stale_rows cutoff)
  for_each rows (λ row. catch (sweep_row row) swallow)
