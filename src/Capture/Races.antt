-- ===== src/Capture/Races.antt =====
-- Requests to browser capture in any order.
use meeting_mgr.Base.{
  ℕ, suc, ◌+◌, ◌≡◌, refl, sym, ap, subst, ◌⊎◌, inl, inr, Bool, false, List, [], ◌∷◌, ◌++◌, arith,
  ==_refl, Bool-cases, any,
}
use meeting_mgr.Base.Text.{Text}
use meeting_mgr.Base.Decimal.{ℤ}
use meeting_mgr.Models.{Account, Meeting, capturing, finishing}
use meeting_mgr.Db.State.{Task, World}
use meeting_mgr.Db.Rows.{add_meeting}
use meeting_mgr.Storage.{Objects}
use meeting_mgr.Authz.{role_eq, require_role}
use meeting_mgr.Capture.{
  can_capture, new_meeting, status_eq, start_capture, upload_chunk, flip_read, flip_write, snapshot,
  Outcome, finish_commit, finish_reply,
}
use meeting_mgr.Capture.Counts.{rows-append, finishings-append}
use meeting_mgr.Capture.Marking.{Holds, Moves, nobody, only, quiet-Moves, write-Moves, commit-Moves}
use meeting_mgr.Capture.Quiet.{IsQuiet-upload, IsQuiet-flip_read, IsQuiet-snapshot, IsQuiet-reply}

-- A new Meeting, and the start of a capture.
abbrev started_meeting : Text → Account → World → Meeting
started_meeting title a w = new_meeting w.next_id a.organization_id a.id title capturing w.now

start_outcome :
    (title : Text) (a : Account) (w : World)
    → ((start_capture title a w).1 ≡ w)
      ⊎ ((start_capture title a w).1 ≡ record w {
        db = record w.db { meetings = w.db.meetings ++ started_meeting title a w ∷ [] };
        next_id = suc w.next_id;
      })
unfolding start_capture require_role add_meeting
start_outcome title a w = elim (Bool-cases (any (role_eq a.role) can_capture)) [
  | inl e ↦ inr (ground (arith, e, ==_refl a.organization_id))
  | inr e ↦ inl (ground (arith, e))
]

started-Moves :
    (w : World) (m : Meeting)
    → m.id ≡ w.next_id
    → m.status ≡ capturing
    → Holds w
    → Moves nobody w (record w {
      db = record w.db { meetings = w.db.meetings ++ m ∷ [] };
      next_id = suc w.next_id;
    })
started-Moves w m e s c = record {
  holds = record {
    single = λ mid. ground (arith, rows-append mid w.db.meetings m, c.single mid, c.fresh_rows mid);
    fresh_rows = λ mid h.
        ground (arith, rows-append mid w.db.meetings m, c.fresh_rows mid (omega (arith, h)));
  };
  bound = λ mid.
      let closed : status_eq m.status finishing ≡ false = ap (λ t. status_eq t finishing) s in
      ground (arith, closed, finishings-append mid w.db.meetings m);
}

start-Moves :
    (title : Text) (a : Account) (w : World) → Holds w → Moves nobody w (start_capture title a w).1
start-Moves title a w c = elim (start_outcome title a w) [
  | inl e ↦
      subst (Moves nobody w) (sym e) (quiet-Moves w w (record { db = refl; ids = omega arith }) c)
  | inr e ↦ subst (Moves nobody w) (sym e) (started-Moves w (started_meeting title a w) refl refl c)
]

-- One step of one request, or something outside: the storage, the broker, the clock. The read and
-- the write of a finish's first transaction are two steps, since the row is not locked between them;
-- a write may come at any time. The second transaction begins with the update of the row, which it
-- holds locked, and may have any list of keys.
pub data Step (w : World) : World → Type 0 where
  starts : (title : Text) (a : Account) → Step w (start_capture title a w).1
  uploads :
      (mid : ℕ) (seq : ℤ) (chunk : List ℕ) (a : Account) → Step w (upload_chunk mid seq chunk a w).1
  flip_reads : (mid : ℕ) (a : Account) → Step w (flip_read mid a w).1
  flip_writes : (mid : ℕ) (a : Account) → Step w (flip_write mid a w).1
  snapshots : (mid : ℕ) → Step w (snapshot mid w).1
  commits : (mid : ℕ) (a : Account) (keys : List Text) → Step w (finish_commit mid a keys w).1
  replies : (mid : ℕ) (a : Account) (outcome : Outcome) → Step w (finish_reply mid a outcome w).1
  outside :
      (objects : Objects) (queue : List Task) (faults : List Bool) (now : ℕ)
      → Step w (record w { objects = objects; queue = queue; faults = faults; now = now })

pub data Steps (w : World) : World → Type 0 where
  no_step : Steps w w
  step_after : {w' w'' : World} → Steps w w' → Step w' w'' → Steps w w''

-- The Meeting that a step marks "finishing", if it does.
abbrev pub marks_of : {w w' : World} → Step w w' → ℕ → ℕ
marks_of (starts title a) = nobody
marks_of (uploads mid seq chunk a) = nobody
marks_of (flip_reads mid a) = nobody
marks_of (flip_writes mid a) = only mid
marks_of (snapshots mid) = nobody
marks_of (commits mid a keys) = nobody
marks_of (replies mid a outcome) = nobody
marks_of (outside objects queue faults now) = nobody

-- How often the steps mark a Meeting.
abbrev pub marks : {w w' : World} → Steps w w' → ℕ → ℕ
marks no_step mid = 0
marks (step_after steps step) mid = marks steps mid + marks_of step mid

Step-Moves : {w w' : World} (step : Step w w') → Holds w → Moves (marks_of step) w w'
Step-Moves {w} (starts title a) c = start-Moves title a w c
Step-Moves {w} (uploads mid seq chunk a) c = quiet-Moves w _ (IsQuiet-upload mid seq chunk a w) c
Step-Moves {w} (flip_reads mid a) c = quiet-Moves w _ (IsQuiet-flip_read mid a w) c
Step-Moves {w} (flip_writes mid a) c = write-Moves mid a w c
Step-Moves {w} (snapshots mid) c = quiet-Moves w _ (IsQuiet-snapshot mid w) c
Step-Moves {w} (commits mid a keys) c = commit-Moves mid a keys w c
Step-Moves {w} (replies mid a outcome) c = quiet-Moves w _ (IsQuiet-reply mid a outcome w) c
Step-Moves {w} (outside objects queue faults now) c =
    quiet-Moves w _ (record { db = refl; ids = omega arith }) c

-- After any interleaving of steps of requests to browser capture, in which the read and the write
-- of a finish's first transaction are steps of their own and the write comes at any time: a Meeting
-- has at most one Recording more than before for each time that it was marked "finishing", a mark
-- from before counted, and while it is "finishing" one less; and ids are still not given twice, if
-- they were not before.
pub recordings_need_marks : (w w' : World) (steps : Steps w w') → Holds w → Moves (marks steps) w w'
recordings_need_marks w w' no_step c = record { holds = c; bound = λ mid. omega arith }
recordings_need_marks w w' (step_after {w' = v} steps step) c =
    let before = recordings_need_marks w v steps c in
    let last = Step-Moves step before.holds in
    record { holds = last.holds; bound = λ mid. omega (arith, before.bound mid, last.bound mid) }
