-- ===== src/Meetings/Reading.antt =====
-- `read_meeting` of src/meeting_mgr/api/meetings.py: one Meeting with all that is derived from it,
-- the fields of `_FIELDS` alone.
use meeting_mgr.Base.{ℕ, String, false, ◌&&◌, Option, List, [], ◌∷◌, map, ◌==◌, filter, find, any}
use meeting_mgr.Base.Text.{Text}
use meeting_mgr.Models.{
  Status, Provenance, Account, Meeting, Span, SpeakerCluster, Segment, Attribution, Content,
  Artifact,
}
use meeting_mgr.Db.State.{Db, attribute_error}
use meeting_mgr.Db.Action.{Action, pure, ◌>>=◌, gets_db, or_raise}
use meeting_mgr.Db.Session.{
  Session, get_readonly_org_session, sees_meeting, participants, clusters, segments, attributions,
}
use meeting_mgr.Capture.{authorized_meeting}

pub record SegmentView : Type 0 where
  pub id : ℕ
  pub start_seconds : ℕ
  pub end_seconds : ℕ
  pub text : Text
  pub cluster_id : Option ℕ

pub record ClusterView : Type 0 where
  pub id : ℕ
  pub label : Text
  pub spans : List Span

pub record AttributionView : Type 0 where
  pub cluster_id : ℕ
  pub participant_id : ℕ
  pub participant_name : Text
  pub provenance : Provenance

-- A row of one of the four derived tables.
pub record ArtifactView : Type 0 where
  pub id : ℕ
  pub content : Content
  pub citations : List ℕ
  pub provenance : Provenance

pub record FullView : Type 0 where
  pub id : ℕ
  pub title : Text
  pub status : Status
  pub failed_stage : Option String
  pub segments : List SegmentView
  pub clusters : List ClusterView
  pub attributions : List AttributionView
  pub key_topics : List ArtifactView
  pub minutes : List ArtifactView
  pub action_items : List ArtifactView
  pub decision_points : List ArtifactView

abbrev pub segment_view : Segment → SegmentView
segment_view g = record {
  id = g.id;
  start_seconds = g.start_seconds;
  end_seconds = g.end_seconds;
  text = g.text;
  cluster_id = g.cluster_id;
}

abbrev pub cluster_view : SpeakerCluster → ClusterView
cluster_view c = record { id = c.id; label = c.label; spans = c.spans }

abbrev pub artifact_view : Artifact → ArtifactView
artifact_view a = record {
  id = a.id;
  content = a.content;
  citations = a.citations;
  provenance = a.provenance;
}

-- `rows(model)` of a derived table.
abbrev pub rows_of : Session → ℕ → Db → List Artifact → List ArtifactView
rows_of s meeting_id db table =
    map artifact_view
      (filter (λ a. a.meeting_id == meeting_id && sees_meeting s db a.meeting_id) table)

-- The Attributions whose cluster is the Meeting's.
abbrev pub attributions_of : Session → ℕ → Db → List Attribution
attributions_of s meeting_id db =
    filter (λ a. any (λ c. c.id == a.cluster_id && c.meeting_id == meeting_id) (clusters s db))
      (attributions s db)

-- With the name of the participant, who has to be there.
unfoldable pub attribution_views : Session → List Attribution → Action (List AttributionView)
attribution_views s [] = pure []
attribution_views s (a ∷ rest) = do
  found ← gets_db (λ db. find (λ p. p.id == a.participant_id) (participants s db))
  participant ← or_raise found attribute_error
  views ← attribution_views s rest
  pure (
      record {
        cluster_id = a.cluster_id;
        participant_id = a.participant_id;
        participant_name = participant.name;
        provenance = a.provenance;
      }
      ∷ views)

abbrev pub full_view : Session → Meeting → ℕ → Db → List AttributionView → FullView
full_view s m meeting_id db attributed = record {
  id = m.id;
  title = m.title;
  status = m.status;
  failed_stage = m.failed_stage;
  segments = map segment_view (filter (λ g. g.meeting_id == meeting_id) (segments s db));
  clusters = map cluster_view (filter (λ c. c.meeting_id == meeting_id) (clusters s db));
  attributions = attributed;
  key_topics = rows_of s meeting_id db db.key_topics;
  minutes = rows_of s meeting_id db db.minutes;
  action_items = rows_of s meeting_id db db.action_items;
  decision_points = rows_of s meeting_id db db.decision_points;
}

unfoldable pub read_meeting : (meeting_id : ℕ) → Account → Action FullView
read_meeting meeting_id account = get_readonly_org_session account.organization_id λ s. do
  m ← authorized_meeting account meeting_id s false
  found ← gets_db (attributions_of s meeting_id)
  attributed ← attribution_views s found
  gets_db (λ db. full_view s m meeting_id db attributed)
