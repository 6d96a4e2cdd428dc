-- ===== src/Pipeline/Orchestrate.antt =====
-- src/meeting_mgr/pipeline/orchestrate.py, with `set_stage_failure` of app.py and `publish` of
-- progress.py. The stages are a parameter here; Pipeline.Stages has the program's.
pub mod Steps
pub mod Rounds
pub mod Runs
use text.Mathlib.Text.{◌==◌ as str_eq}
use meeting_mgr.Base.{
  ℕ, String, Bool, true, false, not, ◌||◌, Option, none, some, List, [], ◌∷◌, ◌++◌, ◌==◌,
  if◌then◌else◌,
}
use meeting_mgr.Models.{Meeting, published, failed}
use meeting_mgr.Db.State.{
  StageState, Exc, started, finished, stage_failed, broker_error, attribute_error, value_error, ok,
}
use meeting_mgr.Db.Action.{Action, pure, raise, ◌>>=◌, ◌>>◌, when, or_raise, catch, service_call}
use meeting_mgr.Db.Session.{get_session, get_meeting}
use meeting_mgr.Db.Rows.{update_meeting, set_status, fail_at}

abbrev pub Stage : Type 0
Stage = String × (ℕ → Action (Unit {0}))

-- `OPTIONAL_STAGES`
unfoldable pub is_optional : String → Bool
is_optional name =
    str_eq name "key_topics"
    || str_eq name "minutes"
    || str_eq name "action_items"
    || str_eq name "decision_points"

-- A message on the Meeting's channel; a dead Redis loses it and nothing else.
unfoldable pub publish_progress : ℕ → String → StageState → Action (Unit {0})
publish_progress meeting_id stage state =
    catch
      (do
        service_call broker_error
        λ w. (
          ok tt,
          record w {
            progress =
                w.progress ++ record { meeting_id = meeting_id; stage = stage; state = state } ∷ [];
          },
        ))
      (λ e. pure tt)

-- A write to the Meeting, which has to be there.
unfoldable pub write_meeting : ℕ → (Meeting → Meeting) → Action (Unit {0})
write_meeting meeting_id f = get_session λ s. do
  found ← get_meeting s meeting_id
  or_raise found attribute_error
  update_meeting s meeting_id f

abbrev pub with_stage : Option String → Meeting → Meeting
with_stage stage m = record m { current_stage = stage }

-- `_set_current_stage`
unfoldable pub set_current_stage : ℕ → Option String → Action (Unit {0})
set_current_stage meeting_id stage = write_meeting meeting_id (with_stage stage)

unfoldable pub set_stage_failure : ℕ → String → Action (Unit {0})
set_stage_failure meeting_id stage = write_meeting meeting_id (fail_at stage)

-- The stage `publish`.
unfoldable pub publish : ℕ → Action (Unit {0})
publish meeting_id = write_meeting meeting_id (set_status published)

-- The handler of a stage's exception; whether the loop goes on.
unfoldable pub on_failure : ℕ → String → Exc → Action Bool
on_failure meeting_id name e = do
  set_stage_failure meeting_id name
  publish_progress meeting_id name stage_failed
  (if is_optional name then pure true else (do set_current_stage meeting_id none; raise e))

-- One round: the stage, and its "finished" message if it did not fail.
unfoldable pub run_stage : ℕ → Stage → Action (Unit {0})
run_stage meeting_id (name, fn) = do
  set_current_stage meeting_id (some name)
  publish_progress meeting_id name started
  went_wrong ← catch (do fn meeting_id; pure false) (on_failure meeting_id name)
  when (not went_wrong) (publish_progress meeting_id name finished)

unfoldable pub run_stages : ℕ → List Stage → Action (Unit {0})
run_stages meeting_id [] = set_current_stage meeting_id none
run_stages meeting_id (stage ∷ rest) = do run_stage meeting_id stage; run_stages meeting_id rest

-- `STAGES[names.index(from_stage):]`; `none` where no stage has the name.
unfoldable pub from_name : String → List Stage → Option (List Stage)
from_name name [] = none
from_name name (stage ∷ rest) =
    if str_eq stage.0 name then some (stage ∷ rest) else from_name name rest

-- An empty `from_stage` is false, as `None` is.
unfoldable pub start_at : Option String → List Stage → Action (List Stage)
start_at none stages = pure stages
start_at (some name) stages =
    if str_eq name "" then pure stages else or_raise (from_name name stages) value_error

unfoldable pub run_pipeline : List Stage → ℕ → Option String → Action (Unit {0})
run_pipeline stages meeting_id from_stage = do
  todo ← start_at from_stage stages
  run_stages meeting_id todo
