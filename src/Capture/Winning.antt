-- ===== src/Capture/Winning.antt =====
-- A finish that meets no failure.
use meeting_mgr.Base.{
  ℕ, ◌≡◌, ap, ◌∙◌, Bool, true, ◌&&◌, List, [], ◌∷◌, arith, ◌==◌, if◌then◌else◌, any,
}
use meeting_mgr.Base.Text.{Text}
use meeting_mgr.Models.{Account, Meeting, pending}
use meeting_mgr.Db.State.{World, ok}
use meeting_mgr.Db.Action.{pure, service_call}
use meeting_mgr.Db.Session.{settle, sees_meeting, tenant}
use meeting_mgr.Db.Rows.{add_recording}
use meeting_mgr.Db.Laws.{calm}
use meeting_mgr.Storage.{put_object}
use meeting_mgr.Capture.{leave_finishing, write_manifest, finish_commit, done, duplicate}
use meeting_mgr.Capture.Outcomes.{with_meetings}
use meeting_mgr.Capture.Commits.{takes, taken, committed}

-- The rows of the transition are still the Organization's.
pub taken_seen :
    (o mid : ℕ) (ms : List Meeting)
    → any (takes o mid) ms ≡ true
    → any (λ m. m.id == mid && m.organization_id == o) (taken o mid pending ms) ≡ true
taken_seen o mid [] h = cc h
taken_seen o mid (m ∷ ms) h = ground (arith, h, taken_seen o mid ms)

won_commit :
    (o mid : ℕ) (k : Text) (ks : List Text) (w : World)
    → any (takes o mid) w.db.meetings ≡ true
    → settle w.db (
        write_manifest
          (tenant o)
          mid
          (k ∷ ks)
          (with_meetings (taken o mid pending w.db.meetings) (calm w)))
      ≡ (ok done, committed o mid (k ∷ ks) (calm w))
unfolding write_manifest put_object service_call add_recording sees_meeting
won_commit o mid k ks w won = ground (arith, taken_seen o mid w.db.meetings won)

-- If the Meeting is "finishing", chunks were found and no storage call fails, the second
-- transaction of a finish succeeds: the Meeting is "pending", and the manifest and one Recording
-- are written.
pub calm_finish_wins :
    (mid : ℕ) (a : Account) (k : Text) (ks : List Text) (w : World)
    → any (takes a.organization_id mid) w.db.meetings ≡ true
    → finish_commit mid a (k ∷ ks) (calm w)
      ≡ (ok done, committed a.organization_id mid (k ∷ ks) (calm w))
unfolding finish_commit leave_finishing
calm_finish_wins mid a k ks w won =
    let o = a.organization_id in
    ap
      (λ (b : Bool). settle w.db (
        (if b then write_manifest (tenant o) mid (k ∷ ks) else pure duplicate)
          (with_meetings (taken o mid pending w.db.meetings) (calm w))))
      won
    ∙ won_commit o mid k ks w won
