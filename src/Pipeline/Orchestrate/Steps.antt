-- ===== src/Pipeline/Orchestrate/Steps.antt =====
-- What one round of the pipeline's loop does to the Meeting's row, on each outcome of its stage.
use meeting_mgr.Base.{
  ℕ, String, ◌≡◌, refl, ap, ◌∙◌, inl, inr, ◌&&◌, Option, none, some, List, [], ◌∷◌, ◌++◌, arith,
  ◌==◌, Bool-cases, filter, find, update_where,
}
use meeting_mgr.Models.{Meeting}
use meeting_mgr.Db.State.{Db, StageState, World, started, stage_failed, attribute_error, ok}
use meeting_mgr.Db.Action.{Action, ◌>>◌, or_raise, next_fault, service_call}
use meeting_mgr.Db.Session.{settle, sees_org, untenanted}
use meeting_mgr.Db.Rows.{update_meeting, fail_at}
use meeting_mgr.Db.Laws.{after, after_call}
use meeting_mgr.Pipeline.Orchestrate.{
  publish_progress, write_meeting, with_stage, set_current_stage, set_stage_failure,
}

-- The row of the Meeting.
abbrev pub meeting_of : ℕ → World → Option Meeting
meeting_of mid w = find (λ m. m.id == mid) w.db.meetings

-- The world with the row rewritten.
abbrev rewritten : ℕ → (Meeting → Meeting) → World → World
rewritten mid f w = record w {
  db = record w.db {
    meetings =
        update_where (λ m. m.id == mid && sees_org untenanted m.organization_id) f w.db.meetings;
  };
}

find_seen :
    (mid : ℕ) (ms : List Meeting)
    → find (λ m. m.id == mid) (filter (λ m. sees_org untenanted m.organization_id) ms)
      ≡ find (λ m. m.id == mid) ms
find_seen mid [] = refl
find_seen mid (m ∷ ms) = ground (arith, find_seen mid ms)

find-update_where :
    (mid : ℕ) (f : Meeting → Meeting)
    → ((m : Meeting) → (f m).id ≡ m.id)
    → (ms : List Meeting) (m : Meeting) → find (λ m. m.id == mid) ms ≡ some m
    → find
        (λ m. m.id == mid)
        (update_where (λ m. m.id == mid && sees_org untenanted m.organization_id) f ms)
      ≡ some (f m)
find-update_where mid f keeps [] m h = cc
find-update_where mid f keeps (n ∷ ms) m h = elim (Bool-cases (n.id == mid)) [
  | inl e ↦ ground (arith, e, h, keeps n)
  | inr e ↦ ground (arith, e, h, find-update_where mid f keeps ms m)
]

-- A write to a Meeting that is there.
write_outcome :
    (mid : ℕ) (f : Meeting → Meeting) (w : World) (m : Meeting)
    → meeting_of mid w ≡ some m
    → write_meeting mid f w ≡ (ok tt, rewritten mid f w)
unfolding write_meeting
write_outcome mid f w m h =
    ap
      (λ found. settle w.db ((or_raise found attribute_error >> update_meeting untenanted mid f) w))
      (find_seen mid w.db.meetings ∙ h)

-- A message never fails, and concerns no row.
pub publish_outcome :
    (mid : ℕ) (stage : String) (state : StageState) (w : World)
    → (v : World) × (publish_progress mid stage state w ≡ (ok tt, v)) × (v.db ≡ w.db)
unfolding publish_progress service_call
publish_outcome mid stage state w = elim (Bool-cases (next_fault w.faults).0) [
  | inl e ↦ (after_call w, ground (arith, e), refl)
  | inr e ↦ (
    record (after_call w) {
      progress = w.progress ++ record { meeting_id = mid; stage = stage; state = state } ∷ [];
    },
    ground (arith, e),
    refl,
  )
]

-- An action that returns at `w`, with what its row is then.
abbrev pub Sets : Action (Unit {0}) → ℕ → World → Meeting → Type 0
Sets act mid w m = (v : World) × (act w ≡ (ok tt, v)) × (meeting_of mid v ≡ some m)

pub Sets-then :
    (a b : Action (Unit {0})) (mid : ℕ) (w : World) (m m' : Meeting)
    → Sets a mid w m
    → ((v : World) → meeting_of mid v ≡ some m → Sets b mid v m')
    → Sets (a >> b) mid w m'
Sets-then a b mid w m m' (v, run, row) next =
    let (u, run', row') = next v row in (u, ap (λ r. after r (λ _. b)) run ∙ run', row')

pub Sets-message :
    (mid : ℕ) (stage : String) (state : StageState) (w : World) (m : Meeting)
    → meeting_of mid w ≡ some m
    → Sets (publish_progress mid stage state) mid w m
Sets-message mid stage state w m h =
    let (v, run, same) = publish_outcome mid stage state w in
    (v, run, ap (λ (d : Db). find (λ m. m.id == mid) d.meetings) same ∙ h)

pub Sets-write :
    (mid : ℕ) (f : Meeting → Meeting) (w : World) (m : Meeting)
    → ((m : Meeting) → (f m).id ≡ m.id)
    → meeting_of mid w ≡ some m
    → Sets (write_meeting mid f) mid w (f m)
Sets-write mid f w m keeps h =
    (rewritten mid f w, write_outcome mid f w m h, find-update_where mid f keeps w.db.meetings m h)

-- The round up to the call of the stage.
abbrev pub begin : ℕ → String → Action (Unit {0})
begin mid name = do set_current_stage mid (some name); publish_progress mid name started

pub begin-Sets :
    (mid : ℕ) (name : String) (w : World) (m : Meeting)
    → meeting_of mid w ≡ some m
    → Sets (begin mid name) mid w (with_stage (some name) m)
unfolding set_current_stage
begin-Sets mid name w m h =
    Sets-then (set_current_stage mid (some name)) (publish_progress mid name started) mid w
      (with_stage (some name) m) (with_stage (some name) m)
      (Sets-write mid (with_stage (some name)) w m (λ m. refl) h)
      (λ v row. Sets-message mid name started v (with_stage (some name) m) row)

-- A failure is recorded in the row and told to those who watch.
abbrev pub record_failure : ℕ → String → Action (Unit {0})
record_failure mid name = do set_stage_failure mid name; publish_progress mid name stage_failed

pub failure-Sets :
    (mid : ℕ) (name : String) (w : World) (m : Meeting)
    → meeting_of mid w ≡ some m
    → Sets (record_failure mid name) mid w (fail_at name m)
unfolding set_stage_failure
failure-Sets mid name w m h =
    Sets-then (set_stage_failure mid name) (publish_progress mid name stage_failed) mid w
      (fail_at name m) (fail_at name m) (Sets-write mid (fail_at name) w m (λ m. refl) h)
      (λ v row. Sets-message mid name stage_failed v (fail_at name m) row)

pub clears :
    (mid : ℕ) (w : World) (m : Meeting)
    → meeting_of mid w ≡ some m
    → Sets (set_current_stage mid none) mid w (with_stage none m)
unfolding set_current_stage
clears mid w m h = Sets-write mid (with_stage none) w m (λ m. refl) h
