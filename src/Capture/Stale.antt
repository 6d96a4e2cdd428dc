-- ===== src/Capture/Stale.antt =====
-- Two finishes whose first transactions overlap.
use meeting_mgr.Base.{ℕ, List}
use meeting_mgr.Base.Text.{Text}
use meeting_mgr.Models.{Account}
use meeting_mgr.Db.State.{World}
use meeting_mgr.Db.Laws.{calm}
use meeting_mgr.Capture.{flip_write, finish_commit}
use meeting_mgr.Capture.Outcomes.{with_meetings, flipped}
use meeting_mgr.Capture.Commits.{committed}

-- One request from the write of its first transaction to the end of its second.
abbrev pub write_and_commit : ℕ → Account → List Text → World → World
write_and_commit mid a keys w = (finish_commit mid a keys (calm (flip_write mid a w).1)).1

abbrev after_commit : (o mid : ℕ) → List Text → World → World
after_commit o mid keys w =
    committed o mid keys (calm (with_meetings (flipped o mid w.db.meetings) w))
