-- ===== src/Pipeline/Attribute.antt =====
-- src/meeting_mgr/pipeline/attribute.py: names for the speakers of a Meeting.
use meeting_mgr.Base.{
  ℕ, Option, none, some, List, [], ◌∷◌, ◌++◌, ◌==◌, if◌then◌else◌, is_some, filter,
}
use meeting_mgr.Base.Text.{Text, text_eq}
use meeting_mgr.Models.{SpeakerCluster, inferred}
use meeting_mgr.Db.State.{inference_error}
use meeting_mgr.Db.Action.{Action, pure, ◌>>=◌, ◌>>◌, gets_db, modify_db, new_id, or_raise}
use meeting_mgr.Db.Session.{Session, get_session, clusters}
use meeting_mgr.Pipeline.Transcript.{render_transcript}
use meeting_mgr.Pipeline.Extract.{Chat, resolve_if_named, organization_of}

-- attribute.py `ClusterName`
pub record ClusterName : Type 0 where
  pub label : Text
  pub name : Option Text

-- `by_label.get(label)`: of two clusters with one label the dictionary keeps the later.
unfoldable pub by_label : Text → List SpeakerCluster → Option SpeakerCluster
unfolding text_eq
by_label label [] = none
by_label label (c ∷ cs) =
    let later = by_label label cs in
    if is_some later then later else if text_eq c.label label then some c else none

unfoldable pub add_attribution : ℕ → Option ℕ → Action (Unit {0})
add_attribution cid none = pure tt
add_attribution cid (some pid) = do
  i ← new_id
  modify_db (λ db. record db {
    attributions =
        db.attributions
        ++ record { id = i; cluster_id = cid; participant_id = pid; provenance = inferred } ∷ [];
  })

-- One proposed name: the attribution, unless no cluster, name or participant comes of it.
unfoldable pub attribute_to : Session → ℕ → Option SpeakerCluster → Option Text → Action (Unit {0})
attribute_to s org_id none name = pure tt
attribute_to s org_id (some cluster) name = do
  participant_id ← resolve_if_named s org_id name
  add_attribution cluster.id participant_id

unfoldable pub attribute_all :
    Session → ℕ → List SpeakerCluster → List ClusterName → Action (Unit {0})
unfolding by_label
attribute_all s org_id cs [] = pure tt
attribute_all s org_id cs (p ∷ ps) = do
  attribute_to s org_id (by_label p.label cs) p.name
  attribute_all s org_id cs ps

unfoldable pub attribute : Chat (List ClusterName) → ℕ → Action (Unit {0})
attribute chat meeting_id = do
  prompt ← render_transcript meeting_id
  names ← or_raise (chat prompt) inference_error
  get_session λ s. do
    org_id ← organization_of s meeting_id
    cs ← gets_db (λ db. filter (λ c. c.meeting_id == meeting_id) (clusters s db))
    attribute_all s org_id cs names
