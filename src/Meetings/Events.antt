-- ===== src/Meetings/Events.antt =====
-- `stream_events` of src/meeting_mgr/api/meetings.py: a snapshot of the Meeting, and its progress from
-- then on. What `subscribe` yields is an argument.
use text.Mathlib.Text.{◌==◌ as str_eq}
use meeting_mgr.Base.{
  ℕ, String, Bool, true, false, ◌&&◌, ◌||◌, Option, List, [], ◌∷◌, if◌then◌else◌,
}
use meeting_mgr.Models.{Status, Account, Meeting, published, failed}
use meeting_mgr.Db.State.{StageState, Progress, finished, stage_failed}
use meeting_mgr.Db.Action.{Action, pure, ◌>>=◌}
use meeting_mgr.Db.Session.{get_readonly_org_session}
use meeting_mgr.Capture.{authorized_meeting}

pub record Snapshot : Type 0 where
  pub status : Status
  pub current_stage : Option String
  pub failed_stage : Option String

-- One server-sent event.
pub data Event : Type 0 where
  snapshot_event : Snapshot → Event
  progress_event : Progress → Event

-- `status in ("published", "failed")`
abbrev pub is_over : Status → Bool
is_over published = true
is_over failed = true
is_over _ = false

abbrev pub is_failed : StageState → Bool
is_failed stage_failed = true
is_failed _ = false

abbrev pub is_finished : StageState → Bool
is_finished finished = true
is_finished _ = false

-- `finished_publish or event.get("state") == "failed"`
abbrev pub is_last : Progress → Bool
is_last p = (str_eq p.stage "publish" && is_finished p.state) || is_failed p.state

-- The loop over the subscription, to the last event.
unfoldable pub pass_on : List Progress → List Event
pass_on [] = []
pass_on (p ∷ ps) = let rest = pass_on ps in progress_event p ∷ (if is_last p then [] else rest)

-- `events()`
unfoldable pub events : Snapshot → List Progress → List Event
events seen subscribed =
    snapshot_event seen ∷ (if is_over seen.status then [] else pass_on subscribed)

abbrev pub snapshot_of : Meeting → Snapshot
snapshot_of m = record {
  status = m.status;
  current_stage = m.current_stage;
  failed_stage = m.failed_stage;
}

unfoldable pub stream_events :
    (meeting_id : ℕ) → Account → (subscribed : List Progress) → Action (List Event)
stream_events meeting_id account subscribed = do
  seen ←
      get_readonly_org_session account.organization_id
        λ s. do m ← authorized_meeting account meeting_id s false; pure (snapshot_of m)
  pure (events seen subscribed)
