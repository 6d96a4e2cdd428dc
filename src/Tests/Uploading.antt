-- ===== src/Tests/Uploading.antt =====
-- A Meeting that is uploaded, listed, read and watched, and a Range header.
use meeting_mgr.Base.{
  ◌≤◌, String, ◌≡◌, refl, ◌⊎◌, Option, none, some, List, [], ◌∷◌, map, length, All,
}
use meeting_mgr.Base.Text.{Text, codes}
use meeting_mgr.Base.Decimal.{pos}
use meeting_mgr.Models.{Meeting, member, pending, processing, published}
use meeting_mgr.Db.State.{StageState, Progress, World, blob, finished, stage_failed, ok, err}
use meeting_mgr.Db.Action.{Action, pure}
use meeting_mgr.Tests.Samples.{sample_account, sample_meeting, empty_db, sample_world}
use meeting_mgr.Meetings.{create_meeting, meeting_view, list_meetings}
use meeting_mgr.Meetings.Audio.{Answer, valid_range, read_audio, refused}
use meeting_mgr.Meetings.Events.{Snapshot, events, stream_events, snapshot_event, progress_event}
use meeting_mgr.Meetings.Reading.{read_meeting}
use meeting_mgr.Meetings.Order.{IsDescending}
use meeting_mgr.Meetings.Pages.{IsListable, list_meetings_page}
use meeting_mgr.Meetings.Uploads.{IsCreated, create-IsCreated}
use meeting_mgr.Meetings.Hidden.{hidden_meetings_look_missing}
use meeting_mgr.Meetings.Ranges.{IsBytesRange, valid_range_decides}
use meeting_mgr.Meetings.Closing.{stream_ends_at_failure}
use meeting_mgr.Authz.{can_read, not_found}

abbrev idle : World
idle = sample_world empty_db [] []

create-IsCreated_example :
    IsCreated
      (codes "weekly")
      (codes "a.wav")
      (1 ∷ [])
      (sample_account 2 member)
      idle
      (create_meeting (codes "weekly") (codes "a.wav") (1 ∷ []) (sample_account 2 member) idle)
create-IsCreated_example =
    create-IsCreated (codes "weekly") (codes "a.wav") (1 ∷ []) (sample_account 2 member) idle

abbrev listed_world : World
listed_world =
    sample_world
      (record empty_db { meetings = sample_meeting 7 published ∷ sample_meeting 8 pending ∷ [] })
      ((codes "n", blob (1 ∷ 2 ∷ 3 ∷ [])) ∷ []) []

list_meetings_page_example :
    (rows : List Meeting) × (list_meetings (sample_account 2 member) (pos 1) (pos 0) listed_world
      ≡ (ok (map meeting_view rows), listed_world))
    × (length rows ≤ 1)
    × IsDescending (λ m. m.id) rows
    × All (IsListable (sample_account 2 member) listed_world.db) rows
list_meetings_page_example = list_meetings_page (sample_account 2 member) 1 0 listed_world

-- A storage that has no object.
abbrev no_object : Text → Option Text → Action Answer
no_object key range = pure (refused (codes "NoSuchKey"))

hidden_meetings_look_missing_example :
    (read_meeting 7 (sample_account 9 member) listed_world ≡ (err not_found, listed_world))
    × (stream_events 7 (sample_account 9 member) [] listed_world ≡ (err not_found, listed_world))
    × (read_audio no_object 7 none (sample_account 9 member) listed_world
        ≡ (err not_found, listed_world))
unfolding can_read
hidden_meetings_look_missing_example =
    hidden_meetings_look_missing (sample_account 9 member) 7 listed_world (λ m e. cc e) [] no_object
      none

abbrev two_ranges : Text
two_ranges = codes "bytes=0-1,4-5"

valid_range_decides_example :
    ((valid_range (some two_ranges) ≡ some two_ranges) × IsBytesRange two_ranges)
    ⊎ ((valid_range (some two_ranges) ≡ none) × ¬ IsBytesRange two_ranges)
valid_range_decides_example = valid_range_decides two_ranges

abbrev running : Snapshot
running = record { status = processing; current_stage = some "align"; failed_stage = none }

abbrev progress : String → StageState → Progress
progress stage state = record { meeting_id = 7; stage = stage; state = state }

stream_ends_at_failure_example :
    events running (
      progress "align" finished
      ∷ progress "attribute" stage_failed
      ∷ progress "publish" finished
      ∷ [])
    ≡ snapshot_event running
      ∷ map progress_event (progress "align" finished ∷ progress "attribute" stage_failed ∷ [])
stream_ends_at_failure_example =
    stream_ends_at_failure running (progress "align" finished ∷ [])
      (progress "publish" finished ∷ []) 7 "attribute" refl (refl, tt)
