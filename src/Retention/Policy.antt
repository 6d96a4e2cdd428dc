-- ===== src/Retention/Policy.antt =====
-- src/meeting_mgr/retention.py: the policy of an Organization.
use meeting_mgr.Base.{ℕ, ◌&&◌, Option, none, some, [], ◌∷◌, ◌++◌, ◌==◌, filter, find, update_where}
use meeting_mgr.Models.{RetentionPolicy}
use meeting_mgr.Db.State.{attribute_error}
use meeting_mgr.Db.Action.{
  Action, pure, ◌>>=◌, ◌>>◌, gets_db, modify_db, new_id, one_or_none, or_raise,
}
use meeting_mgr.Db.Session.{Session, sees_org, policies}
use meeting_mgr.Db.Rows.{check_row}

-- `get_policy`
unfoldable pub get_policy : Session → ℕ → Action (Option RetentionPolicy)
get_policy s org_id = do
  rows ← gets_db (λ db. filter (λ p. p.organization_id == org_id) (policies s db))
  one_or_none rows

abbrev set_days : Session → ℕ → Option ℕ → Option ℕ → Action RetentionPolicy
set_days s policy_id audio_days meeting_days = do
  modify_db (λ db. record db {
    policies =
        update_where (λ p. p.id == policy_id && sees_org s p.organization_id)
          (λ p. record p {
            audio_retention_days = audio_days;
            meeting_retention_days = meeting_days;
          })
          db.policies;
  })
  found ← gets_db (λ db. find (λ p. p.id == policy_id) (policies s db))
  or_raise found attribute_error

-- The id of the row that `upsert_policy` writes: the one found, or a new one with no days set.
abbrev policy_row : Session → ℕ → Option RetentionPolicy → Action ℕ
policy_row s org_id (some policy) = pure policy.id
policy_row s org_id none = do
  policy_id ← new_id
  check_row (sees_org s org_id)
  modify_db (λ db. record db {
    policies =
        db.policies
        ++ record {
          id = policy_id;
          organization_id = org_id;
          audio_retention_days = none;
          meeting_retention_days = none;
        }
          ∷ [];
  })
  pure policy_id

unfoldable pub upsert_policy : Session → ℕ → Option ℕ → Option ℕ → Action RetentionPolicy
upsert_policy s org_id audio_days meeting_days = do
  policy ← get_policy s org_id
  policy_id ← policy_row s org_id policy
  set_days s policy_id audio_days meeting_days
