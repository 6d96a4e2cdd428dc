-- ===== src/RetentionApi.antt =====
-- src/meeting_mgr/api/retention.py: the endpoints of the retention policy.
pub mod Validation
use meeting_mgr.Base.{ℕ, Bool, true, false, Option, none, some, List, [], ◌∷◌, ltb}
use meeting_mgr.Base.Decimal.{ℤ, pos, negsuc}
use meeting_mgr.Models.{
  Role, Account, RetentionPolicy, admin, organization_target, no_detail, policy_days,
}
use meeting_mgr.Db.State.{Exc, purge_organization_task, http}
use meeting_mgr.Db.Action.{Action, pure, ◌>>=◌, ◌>>◌, raise_if, delay}
use meeting_mgr.Db.Session.{get_org_session, get_readonly_org_session}
use meeting_mgr.Db.Rows.{record_audit}
use meeting_mgr.Retention.{PurgeCandidate, select_purge_candidates, get_policy, upsert_policy}
use meeting_mgr.Authz.{require_role}

-- `RetentionPolicyIn` as the client sends it; `_ADMIN_ONLY`.
pub record RetentionPolicyIn : Type 0 where
  pub audio_retention_days : Option ℤ
  pub meeting_retention_days : Option ℤ

abbrev pub admin_only : List Role
admin_only = admin ∷ []

-- `value is not None and value < 0`
abbrev pub is_negative : Option ℤ → Bool
is_negative (some (negsuc n)) = true
is_negative _ = false

abbrev pub days_of : Option ℤ → Option ℕ
days_of (some (pos n)) = some n
days_of _ = none

-- `audio > meeting`, where both are set.
abbrev pub exceeds : Option ℕ → Option ℕ → Bool
exceeds (some audio_days) (some meeting_days) = ltb meeting_days audio_days
exceeds _ _ = false

-- A ValueError of the validator is a 422 reply.
abbrev pub unprocessable : Exc
unprocessable = http 422 "unprocessable"

-- `_validate`: the day counts, once neither is negative and the audio goes no later than the rest.
unfoldable pub validate : RetentionPolicyIn → Action (Option ℕ × Option ℕ)
validate body = do
  raise_if (is_negative body.audio_retention_days) unprocessable
  raise_if (is_negative body.meeting_retention_days) unprocessable
  raise_if (exceeds (days_of body.audio_retention_days) (days_of body.meeting_retention_days))
      unprocessable
  pure (days_of body.audio_retention_days, days_of body.meeting_retention_days)

-- `_view`
unfoldable pub view : Option RetentionPolicy → Option ℕ × Option ℕ
view none = (none, none)
view (some policy) = (policy.audio_retention_days, policy.meeting_retention_days)

unfoldable pub read_policy : Account → Action (Option ℕ × Option ℕ)
read_policy account = do
  require_role account admin_only
  get_readonly_org_session account.organization_id
      λ s. do policy ← get_policy s account.organization_id; pure (view policy)

unfoldable pub preview_purge : Account → Action (List PurgeCandidate)
preview_purge account = do
  require_role account admin_only
  get_readonly_org_session account.organization_id
      λ s. select_purge_candidates s account.organization_id none

unfoldable pub trigger_purge : Account → Action (Unit {0})
trigger_purge account = do
  require_role account admin_only
  get_org_session account.organization_id λ s.
      record_audit s account.organization_id (some account.id) "retention.purge.triggered"
        (organization_target account.organization_id) no_detail
  delay (purge_organization_task account.organization_id)

-- The body is validated before the handler runs.
unfoldable pub write_policy : RetentionPolicyIn → Account → Action (Option ℕ × Option ℕ)
write_policy body account = do
  (audio_days, meeting_days) ← validate body
  require_role account admin_only
  get_org_session account.organization_id λ s. do
    policy ← upsert_policy s account.organization_id audio_days meeting_days
    record_audit s account.organization_id (some account.id) "retention_policy.update"
        (organization_target account.organization_id) (policy_days audio_days meeting_days)
    pure (view (some policy))
