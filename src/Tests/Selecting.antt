-- ===== src/Tests/Selecting.antt =====
-- A policy of 30 days for the audio and 90 for the rest, and one that reaches back too far.
use meeting_mgr.Base.{◌≡◌, refl, none, some, List, [], ◌∷◌, arith, All}
use meeting_mgr.Base.Text.{codes}
use meeting_mgr.Base.Decimal.{pos}
use meeting_mgr.Models.{Meeting, RetentionPolicy, published}
use meeting_mgr.Db.State.{Db, World, overflow_error, ok, err}
use meeting_mgr.Db.Session.{tenant}
use meeting_mgr.Db.Time.{days}
use meeting_mgr.Tests.Samples.{sample_meeting, sample_recording, empty_db, sample_world}
use meeting_mgr.Retention.{PurgeCandidate, select_purge_candidates}
use meeting_mgr.Retention.Due.{Due}
use meeting_mgr.Retention.Outcome.{selection-Due, selection_overflows}
use meeting_mgr.RetentionApi.Validation.{IsJudged, validate_decides}

abbrev policy : RetentionPolicy
policy = record {
  id = 1;
  organization_id = 1;
  audio_retention_days = some 30;
  meeting_retention_days = some 90;
}

abbrev long_policy : RetentionPolicy
long_policy = record policy { meeting_retention_days = some 1000000 }

abbrev older : Meeting
older = sample_meeting 7 published

abbrev younger : Meeting
younger = record (sample_meeting 8 published) { created_at = days 50 }

abbrev policy_db : RetentionPolicy → Db
policy_db p = record empty_db {
  meetings = younger ∷ older ∷ [];
  recordings = sample_recording 8 (codes "r") ∷ [];
  policies = p ∷ [];
}

abbrev policy_world : RetentionPolicy → World
policy_world p = sample_world (policy_db p) [] []

selection-Due_example :
    (cs : List PurgeCandidate) × (select_purge_candidates
        (tenant 1)
        1
        (some 500)
        (policy_world policy)
      ≡ (ok cs, policy_world policy))
    × All (Due (tenant 1) 1 (days 100) policy (policy_db policy)) cs
selection-Due_example =
    selection-Due (tenant 1) 1 policy (some 500) (policy_world policy) refl
      ((omega arith, omega arith), (omega arith, omega arith))

selection_overflows_example :
    select_purge_candidates (tenant 1) 1 none (policy_world long_policy)
    ≡ (err overflow_error, policy_world long_policy)
selection_overflows_example =
    selection_overflows (tenant 1) 1 long_policy none (policy_world long_policy) refl
      (λ r. omega (arith, r.0.1))

validate_decides_example :
    IsJudged
      (record { audio_retention_days = some (pos 90); meeting_retention_days = some (pos 30) })
      (policy_world policy)
validate_decides_example = validate_decides (some (pos 90)) (some (pos 30)) (policy_world policy)
