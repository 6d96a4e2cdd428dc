-- ===== src/Tests/Capturing.antt =====
-- Two finishes of one Meeting at the same time, and the chunks of one.
use meeting_mgr.Base.{ℕ, ◌≡◌, refl, List, [], ◌∷◌, ◌++◌, arith, take, drop}
use meeting_mgr.Base.Text.{Text, codes, text_eq}
use meeting_mgr.Base.Decimal.{emit, decimal}
use meeting_mgr.Models.{Account, member, capturing, finishing}
use meeting_mgr.Db.State.{Db, World, blob, ok}
use meeting_mgr.Db.Action.{service_call}
use meeting_mgr.Db.Session.{sees_meeting}
use meeting_mgr.Db.Rows.{add_recording}
use meeting_mgr.Db.Laws.{calm}
use meeting_mgr.Storage.{without, lookup, put_object}
use meeting_mgr.Tests.Samples.{sample_account, sample_meeting, empty_db, sample_world}
use meeting_mgr.Capture.{
  manifest_key, manifest_ref, flip_write, leave_finishing, write_manifest, finish_commit,
}
use meeting_mgr.Capture.Commits.{new_recording}
use meeting_mgr.Capture.Marking.{IsConsistent, Moves}
use meeting_mgr.Capture.Races.{
  Steps, marks, recordings_need_marks, flip_writes, commits, no_step, step_after,
}
use meeting_mgr.Capture.Finish.{finished_is_purgeable}
use meeting_mgr.Pipeline.Stages.{fetch_raw}
use meeting_mgr.Pipeline.Reassembly.{finished_is_reassembled}
use meeting_mgr.Purge.Recovery.{named}

abbrev owner : Account
owner = sample_account 2 member

abbrev capture_db : Db
capture_db = record empty_db { meetings = sample_meeting 7 capturing ∷ [] }

abbrev keys : List Text
keys = codes "c1" ∷ codes "c2" ∷ []

abbrev start : World
start = sample_world capture_db [] []

start-Holds : IsConsistent 50 capture_db
start-Holds = record { single = λ mid. ground arith; fresh_rows = λ mid h. ground arith }

-- Both requests read before one of them is done.
abbrev one_done : World
one_done = (finish_commit 7 owner keys (flip_write 7 owner start).1).1

abbrev both_done : World
both_done = (finish_commit 7 owner keys (flip_write 7 owner one_done).1).1

abbrev overlap : Steps start both_done
overlap =
    step_after
      (step_after (step_after (step_after no_step (flip_writes 7 owner)) (commits 7 owner keys))
        (flip_writes 7 owner))
      (commits 7 owner keys)

recordings_need_marks_example : Moves (marks overlap) start both_done
recordings_need_marks_example = recordings_need_marks start both_done overlap start-Holds

abbrev one_flipped : World
one_flipped = sample_world (record empty_db { meetings = sample_meeting 7 finishing ∷ [] }) [] []

abbrev one_committed : World
one_committed = (finish_commit 7 owner keys one_flipped).1

finished_is_purgeable_example :
    (one_committed.db.recordings ≡ new_recording 50 7 ∷ [])
    × (named one_committed.objects (new_recording 50 7) ≡ keys ++ manifest_key 7 ∷ [])
unfolding finish_commit leave_finishing write_manifest put_object service_call add_recording
    sees_meeting
finished_is_purgeable_example = finished_is_purgeable 7 owner keys one_flipped one_committed refl

-- The chunks of the finish, stored.
abbrev data_of : Text → List ℕ
data_of key = take 1 (drop 1 key)

abbrev stored : World
stored = record one_flipped {
  objects = (codes "c1", blob (codes "1")) ∷ (codes "c2", blob (codes "2")) ∷ [];
}

finished_is_reassembled_example :
    fetch_raw (manifest_ref (manifest_key 7)) (calm (finish_commit 7 owner keys stored).1)
    ≡ (ok (codes "12"), calm (finish_commit 7 owner keys stored).1)
unfolding finish_commit leave_finishing write_manifest put_object service_call add_recording
    sees_meeting lookup without text_eq manifest_key decimal emit
finished_is_reassembled_example =
    finished_is_reassembled 7 owner keys data_of stored (finish_commit 7 owner keys stored).1 refl
      (refl, (refl, tt))
