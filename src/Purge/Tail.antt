-- ===== src/Purge/Tail.antt =====
-- A purge as its storage half, then its database half, in one session.
use meeting_mgr.Db.Laws.{after}
use meeting_mgr.Base.{ℕ, ◌≡◌, refl, not, none, List, arith, ◌==◌, ==_refl, length}
use meeting_mgr.Base.Text.{Text}
use meeting_mgr.Models.{meeting_target, keys_deleted}
use meeting_mgr.Db.State.{World, ok}
use meeting_mgr.Db.Action.{Action, ◌>>=◌, when}
use meeting_mgr.Db.Session.{settle, tenant}
use meeting_mgr.Db.Rows.{record_audit}
use meeting_mgr.Retention.{Kind, audio, full}
use meeting_mgr.Purge.{
  purge_audio_objects, delete_recordings, purge_meeting_audio, delete_meeting, purge_meeting_full,
  purge_by_kind,
}

-- The audit entry of a purge that found a row to delete.
unfoldable pub audited : ℕ → Kind → ℕ → List Text → ℕ → Action (Unit {0})
audited org_id full mid keys deleted = when (not (deleted == 0)) (
    record_audit (tenant org_id) org_id none "meeting.purge.full" (meeting_target mid)
      (keys_deleted (length keys)))
audited org_id audio mid keys deleted = when (not (deleted == 0)) (
    record_audit (tenant org_id) org_id none "meeting.purge.audio" (meeting_target mid)
      (keys_deleted (length keys)))

-- The part of a purge after the storage: the row goes, and an audit entry is written.
unfoldable pub tail : ℕ → Kind → ℕ → List Text → Action (Unit {0})
tail org_id full mid keys = delete_meeting (tenant org_id) mid >>= audited org_id full mid keys
tail org_id audio mid keys = delete_recordings (tenant org_id) mid >>= audited org_id audio mid keys

-- The tail always returns, and leaves the storage alone.
pub tail_returns :
    (org_id : ℕ) (kind : Kind) (mid : ℕ) (keys : List Text) (w : World)
    → ((tail org_id kind mid keys w).0 ≡ ok tt)
      × ((tail org_id kind mid keys w).1.objects ≡ w.objects)
unfolding tail audited record_audit delete_meeting delete_recordings
tail_returns org_id full mid keys w = ground (arith, ==_refl org_id)
tail_returns org_id audio mid keys w = ground (arith, ==_refl org_id)

pub purge_as_settle :
    (org_id mid : ℕ) (kind : Kind) (w : World)
    → purge_by_kind org_id kind mid w
      ≡ settle w.db (after (purge_audio_objects (tenant org_id) mid w) (tail org_id kind mid))
unfolding purge_by_kind purge_meeting_full purge_meeting_audio tail audited
purge_as_settle org_id mid full w = refl
purge_as_settle org_id mid audio w = refl
