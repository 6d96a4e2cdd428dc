-- ===== src/Edits/Holders.antt =====
-- src/meeting_mgr/api/edits.py: who a speaker cluster is, decided by a person.
use meeting_mgr.Base.{ℕ, true, not, ◌&&◌, Option, none, some, [], ◌∷◌, ◌++◌, ◌==◌, filter}
use meeting_mgr.Base.Text.{Text}
use meeting_mgr.Models.{Account, confirmed, cluster_target, participant_detail}
use meeting_mgr.Db.State.{Exc, http}
use meeting_mgr.Db.Action.{
  Action, pure, ◌>>=◌, ◌>>◌, gets_db, modify_db, new_id, one_or_none, or_raise,
}
use meeting_mgr.Db.Session.{Session, get_org_session, sees_cluster, clusters}
use meeting_mgr.Db.Rows.{record_audit}
use meeting_mgr.Capture.{authorized_meeting}
use meeting_mgr.Participants.{resolve_participant}

-- `AttributionIn` is its one field. The reply is the participant, if one was decided on.
abbrev pub no_cluster : Exc
no_cluster = http 404 "cluster not found in this meeting"

-- `attribution = Attribution(...); confirm(attribution); s.add(attribution)`
unfoldable pub add_confirmed : ℕ → Option ℕ → Action (Unit {0})
add_confirmed cluster_id none = pure tt
add_confirmed cluster_id (some participant_id) = do
  i ← new_id
  modify_db (λ db. record db {
    attributions =
        db.attributions
        ++ record {
          id = i;
          cluster_id = cluster_id;
          participant_id = participant_id;
          provenance = confirmed;
        }
          ∷ [];
  })

-- `s.query(Attribution).filter_by(cluster_id=...).delete()`
unfoldable pub delete_attributions : Session → ℕ → Action (Unit {0})
delete_attributions s cluster_id = modify_db (λ db. record db {
  attributions =
      filter (λ a. not (a.cluster_id == cluster_id && sees_cluster s db a.cluster_id))
        db.attributions;
})

unfoldable pub confirm_attribution : ℕ → ℕ → Option Text → Account → Action (Option ℕ)
confirm_attribution meeting_id cluster_id participant_name account =
    get_org_session account.organization_id λ s. do
      meeting ← authorized_meeting account meeting_id s true
      rows ←
          gets_db
            (λ db. filter (λ c. c.id == cluster_id && c.meeting_id == meeting_id) (clusters s db))
      cluster ← one_or_none rows
      or_raise cluster no_cluster
      delete_attributions s cluster_id
      participant_id ← resolve_participant s meeting.organization_id participant_name
      record_audit s meeting.organization_id (some account.id) "cluster.attribute"
          (cluster_target meeting_id cluster_id) (participant_detail participant_id)
      add_confirmed cluster_id participant_id
      pure participant_id
