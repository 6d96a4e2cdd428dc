-- ===== src/Purge/Sessions.antt =====
-- Purges that fail do not hold up the others.
use meeting_mgr.Base.{ℕ, ◌≡◌, refl, List, [], ◌∷◌}
use meeting_mgr.Db.State.{World, ok}
use meeting_mgr.Retention.{PurgeCandidate}
use meeting_mgr.Purge.{purge_by_kind, purge_candidates}
use meeting_mgr.Purge.Objects.{passed_over}

-- The loop over the candidates of an Organization returns, whatever storage calls fail.
pub purge_candidates_returns :
    (org_id : ℕ) (candidates : List PurgeCandidate) (w : World)
    → (purge_candidates org_id candidates w).0 ≡ ok tt
unfolding purge_candidates
purge_candidates_returns org_id [] w = refl
purge_candidates_returns org_id (c ∷ cs) w =
    passed_over (purge_candidates org_id cs) (purge_by_kind org_id c.kind c.meeting_id w) w
      (purge_candidates_returns org_id cs)
