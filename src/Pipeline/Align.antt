-- ===== src/Pipeline/Align.antt =====
-- src/meeting_mgr/pipeline/align.py: each Segment goes to the speaker whose spans it overlaps most.
-- Times are whole numbers of one small unit, whose sums are exact.
pub mod Best
use Prim.Native.Nat.{min, max}
use meeting_mgr.Base.{
  ℕ, ◌+◌, ◌-◌, Option, none, some, List, [], ◌∷◌, ltb, leb, ◌==◌, if◌then◌else◌, filter,
  update_where,
}
use meeting_mgr.Models.{Span, SpeakerCluster, Segment}
use meeting_mgr.Db.Action.{Action, modify_db}
use meeting_mgr.Db.Session.{get_session, clusters, segments}

-- `overlap`: the truncated difference is `max(0.0, ...)`.
unfoldable pub overlap : (a_start a_end b_start b_end : ℕ) → ℕ
overlap a_start a_end b_start b_end = min a_end b_end - max a_start b_start

-- The sum over a cluster's spans.
unfoldable pub total_overlap : Segment → List Span → ℕ
unfolding overlap
total_overlap seg [] = 0
total_overlap seg (sp ∷ spans) =
    overlap seg.start_seconds seg.end_seconds sp.start sp.end + total_overlap seg spans

-- The loop over the clusters, with the best so far.
unfoldable pub best_cluster : Segment → List SpeakerCluster → Option ℕ → ℕ → Option ℕ
unfolding total_overlap
best_cluster seg [] best_id best = best_id
best_cluster seg (c ∷ cs) best_id best =
    let total = total_overlap seg c.spans in
    let better = ltb best total in
    best_cluster seg cs (if better then some c.id else best_id) (if better then total else best)

unfoldable pub insert_by_id : SpeakerCluster → List SpeakerCluster → List SpeakerCluster
insert_by_id c [] = c ∷ []
insert_by_id c (d ∷ ds) = if leb c.id d.id then c ∷ d ∷ ds else d ∷ insert_by_id c ds

-- `.order_by(SpeakerCluster.id)`
unfoldable pub by_id : List SpeakerCluster → List SpeakerCluster
unfolding insert_by_id
by_id [] = []
by_id (c ∷ cs) = insert_by_id c (by_id cs)

-- `seg.cluster_id = best_id` for each Segment of the Meeting.
unfoldable pub align : ℕ → Action (Unit {0})
align meeting_id = get_session λ s. modify_db (λ db.
    let ordered = by_id (filter (λ c. c.meeting_id == meeting_id) (clusters s db)) in
    record db {
      segments =
          update_where (λ g. g.meeting_id == meeting_id)
            (λ g. record g { cluster_id = best_cluster g ordered none 0 }) db.segments;
    })
