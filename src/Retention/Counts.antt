-- ===== src/Retention/Counts.antt =====
-- src/meeting_mgr/retention.py: what a purge candidate's report counts.
use meeting_mgr.Base.{
  ℕ, Bool, true, false, ◌&&◌, List, [], ◌∷◌, ◌++◌, map, ◌==◌, if◌then◌else◌, length, filter, any,
}
use meeting_mgr.Models.{Provenance, Artifact, unknown, inferred, confirmed}
use meeting_mgr.Db.State.{Db}
use meeting_mgr.Db.Session.{Session, sees_meeting, clusters, segments, attributions}

abbrev pub provenance_eq : Provenance → Provenance → Bool
provenance_eq unknown unknown = true
provenance_eq inferred inferred = true
provenance_eq confirmed confirmed = true
provenance_eq _ _ = false

-- A row of `GROUP BY provenance`; a value that no row has is left out.
abbrev one_group : List Provenance → Provenance → List (Provenance × ℕ)
one_group rows p =
    let n = length (filter (provenance_eq p) rows) in if n == 0 then [] else (p, n) ∷ []

unfoldable pub group_by_provenance : List Provenance → List (Provenance × ℕ)
group_by_provenance rows =
    one_group rows unknown ++ (one_group rows inferred ++ one_group rows confirmed)

-- The dictionary that `_provenance_counts` builds, a field to a key.
pub record ProvenanceCounts : Type 0 where
  pub key_topic : List (Provenance × ℕ)
  pub minute : List (Provenance × ℕ)
  pub action_item : List (Provenance × ℕ)
  pub decision_point : List (Provenance × ℕ)
  pub attribution : List (Provenance × ℕ)
  pub segment_total : ℕ

abbrev rows_of : Session → Db → ℕ → List Artifact → List Provenance
rows_of s db mid table =
    map (λ a. a.provenance)
      (filter (λ a. sees_meeting s db a.meeting_id && a.meeting_id == mid) table)

-- The attributions of the Meeting's clusters, by the join on `cluster_id`.
abbrev attribution_rows : Session → Db → ℕ → List Provenance
attribution_rows s db mid =
    map (λ a. a.provenance)
      (filter (λ a. any (λ c. a.cluster_id == c.id && c.meeting_id == mid) (clusters s db))
        (attributions s db))

unfoldable pub provenance_counts : Session → Db → ℕ → ProvenanceCounts
provenance_counts s db mid = record {
  key_topic = group_by_provenance (rows_of s db mid db.key_topics);
  minute = group_by_provenance (rows_of s db mid db.minutes);
  action_item = group_by_provenance (rows_of s db mid db.action_items);
  decision_point = group_by_provenance (rows_of s db mid db.decision_points);
  attribution = group_by_provenance (attribution_rows s db mid);
  segment_total = length (filter (λ g. g.meeting_id == mid) (segments s db));
}
