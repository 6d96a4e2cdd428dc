-- ===== src/Pipeline/Extract.antt =====
-- src/meeting_mgr/pipeline/extract.py: what a language model proposes, and what of it is stored. The
-- model's answer, parsed by its schema, is a parameter.
pub mod Grounded
use meeting_mgr.Base.{
  ℕ, Bool, Option, none, some, List, [], ◌∷◌, ◌++◌, map, ltb, ◌==◌, if◌then◌else◌, length, filter,
  any,
}
use meeting_mgr.Base.Text.{Text, codes}
use meeting_mgr.Base.Decimal.{ℤ, pos, negsuc}
use meeting_mgr.Models.{Content, Artifact, inferred, key_topic, minute, action_item, decision_point}
use meeting_mgr.Db.State.{Db, data_error, attribute_error, inference_error}
use meeting_mgr.Db.Action.{
  Action, pure, ◌>>=◌, ◌>>◌, raise_if, gets_db, modify_db, new_id, or_raise,
}
use meeting_mgr.Db.Session.{
  Session, get_session, get_readonly_session, sees_meeting, segments, get_meeting,
}
use meeting_mgr.Participants.{resolve_participant}
use meeting_mgr.Pipeline.Transcript.{render_cited_transcript}

pub record TopicOut : Type 0 where
  pub title : Text
  pub citations : List ℤ

pub record MinuteOut : Type 0 where
  pub text : Text
  pub citations : List ℤ

pub record ActionItemOut : Type 0 where
  pub text : Text
  pub participant_name : Option Text
  pub citations : List ℤ

pub record PositionOut : Type 0 where
  pub participant_name : Text
  pub position : Text

pub record DecisionPointOut : Type 0 where
  pub text : Text
  pub settled : Bool
  pub positions : List PositionOut
  pub citations : List ℤ

-- `structured_chat` of one schema: the answer to a prompt's transcript, or an InferenceError.
abbrev pub Chat : Type 0 → Type 0
Chat A = Text → Option A

-- `_ask`; the instruction is part of the parameter.
unfoldable pub ask : {A : Type 0} → Chat A → ℕ → Action A
ask chat meeting_id = do
  prompt ← render_cited_transcript meeting_id
  or_raise (chat prompt) inference_error

-- `_valid_segment_ids`
unfoldable pub valid_segment_ids : ℕ → Action (List ℕ)
unfolding sees_meeting
valid_segment_ids meeting_id =
    get_readonly_session λ s.
      gets_db (λ db. map (λ g. g.id) (filter (λ g. g.meeting_id == meeting_id) (segments s db)))

-- `_cited`: the citations that are ids of Segments, in their order.
unfoldable pub cited : List ℤ → List ℕ → List ℕ
cited [] valid = []
cited (negsuc n ∷ cs) valid = cited cs valid
cited (pos n ∷ cs) valid =
    let rest = cited cs valid in if any (λ i. n == i) valid then n ∷ rest else rest

abbrev pub new_artifact : ℕ → ℕ → List ℕ → Content → Artifact
new_artifact id meeting_id citations content = record {
  id = id;
  meeting_id = meeting_id;
  citations = citations;
  provenance = inferred;
  content = content;
}

-- An insert into one of the four tables, which `put` names.
unfoldable pub add_artifact :
    (List Artifact → Db → Db) → (Db → List Artifact) → ℕ → List ℕ → Content → Action (Unit {0})
add_artifact put table meeting_id citations content = do
  i ← new_id
  modify_db (λ db. put (table db ++ new_artifact i meeting_id citations content ∷ []) db)

abbrev pub put_key_topics : List Artifact → Db → Db
put_key_topics rows db = record db { key_topics = rows }

abbrev pub put_minutes : List Artifact → Db → Db
put_minutes rows db = record db { minutes = rows }

abbrev pub put_action_items : List Artifact → Db → Db
put_action_items rows db = record db { action_items = rows }

abbrev pub put_decision_points : List Artifact → Db → Db
put_decision_points rows db = record db { decision_points = rows }

-- `continue` where no citation is left.
abbrev pub unless_uncited : List ℕ → Action (Unit {0}) → Action (Unit {0})
unless_uncited [] m = pure tt
unless_uncited (c ∷ cs) m = m

-- What the column `title`, a String(300), does not take.
abbrev pub title_too_long : Text → Bool
title_too_long title = ltb 300 (length title)

unfoldable pub store_topics : ℕ → List ℕ → List TopicOut → Action (Unit {0})
store_topics meeting_id valid [] = pure tt
store_topics meeting_id valid (t ∷ ts) = do
  unless_uncited (cited t.citations valid) (
      raise_if (title_too_long t.title) data_error
      >> add_artifact put_key_topics (λ db. db.key_topics) meeting_id (cited t.citations valid)
          (key_topic t.title))
  store_topics meeting_id valid ts

unfoldable pub extract_key_topics : Chat (List TopicOut) → ℕ → Action (Unit {0})
extract_key_topics chat meeting_id = do
  out ← ask chat meeting_id
  valid ← valid_segment_ids meeting_id
  get_session λ s. store_topics meeting_id valid out

unfoldable pub store_minutes : ℕ → List ℕ → List MinuteOut → Action (Unit {0})
store_minutes meeting_id valid [] = pure tt
store_minutes meeting_id valid (m ∷ ms) = do
  unless_uncited (cited m.citations valid) (
      add_artifact put_minutes (λ db. db.minutes) meeting_id (cited m.citations valid)
        (minute m.text))
  store_minutes meeting_id valid ms

unfoldable pub extract_minutes : Chat (List MinuteOut) → ℕ → Action (Unit {0})
extract_minutes chat meeting_id = do
  out ← ask chat meeting_id
  valid ← valid_segment_ids meeting_id
  get_session λ s. store_minutes meeting_id valid out

-- `if a.participant_name: resolve_participant(...)`; an empty name is false.
unfoldable pub resolve_if_named : Session → ℕ → Option Text → Action (Option ℕ)
resolve_if_named s org_id none = pure none
resolve_if_named s org_id (some []) = pure none
resolve_if_named s org_id (some (c ∷ name)) = resolve_participant s org_id (some (c ∷ name))

-- The status that the table gives by default.
abbrev pub open_status : Text
open_status = codes "open"

unfoldable pub store_action_item : Session → ℕ → ℕ → List ℕ → ActionItemOut → Action (Unit {0})
store_action_item s org_id meeting_id citations a = do
  participant_id ← resolve_if_named s org_id a.participant_name
  add_artifact put_action_items (λ db. db.action_items) meeting_id citations
      (action_item a.text participant_id none open_status)

unfoldable pub store_action_items :
    Session → ℕ → ℕ → List ℕ → List ActionItemOut → Action (Unit {0})
store_action_items s org_id meeting_id valid [] = pure tt
store_action_items s org_id meeting_id valid (a ∷ rest) = do
  unless_uncited (cited a.citations valid)
      (store_action_item s org_id meeting_id (cited a.citations valid) a)
  store_action_items s org_id meeting_id valid rest

-- `s.get(Meeting, meeting_id).organization_id`
unfoldable pub organization_of : Session → ℕ → Action ℕ
organization_of s meeting_id = do
  found ← get_meeting s meeting_id
  m ← or_raise found attribute_error
  pure m.organization_id

unfoldable pub extract_action_items : Chat (List ActionItemOut) → ℕ → Action (Unit {0})
extract_action_items chat meeting_id = do
  out ← ask chat meeting_id
  valid ← valid_segment_ids meeting_id
  get_session λ s. do
    org_id ← organization_of s meeting_id
    store_action_items s org_id meeting_id valid out

-- A position with no identifiable holder is left out.
abbrev pub held : Text → Option ℕ → List (ℕ × Text) → List (ℕ × Text)
held position none rest = rest
held position (some pid) rest = (pid, position) ∷ rest

unfoldable pub resolve_positions : Session → ℕ → List PositionOut → Action (List (ℕ × Text))
resolve_positions s org_id [] = pure []
resolve_positions s org_id (p ∷ ps) = do
  pid ← resolve_participant s org_id (some p.participant_name)
  rest ← resolve_positions s org_id ps
  pure (held p.position pid rest)

unfoldable pub store_decision : Session → ℕ → ℕ → List ℕ → DecisionPointOut → Action (Unit {0})
store_decision s org_id meeting_id citations d = do
  positions ← resolve_positions s org_id d.positions
  add_artifact put_decision_points (λ db. db.decision_points) meeting_id citations
      (decision_point d.text d.settled positions)

unfoldable pub store_decisions :
    Session → ℕ → ℕ → List ℕ → List DecisionPointOut → Action (Unit {0})
store_decisions s org_id meeting_id valid [] = pure tt
store_decisions s org_id meeting_id valid (d ∷ rest) = do
  unless_uncited (cited d.citations valid)
      (store_decision s org_id meeting_id (cited d.citations valid) d)
  store_decisions s org_id meeting_id valid rest

unfoldable pub extract_decision_points : Chat (List DecisionPointOut) → ℕ → Action (Unit {0})
extract_decision_points chat meeting_id = do
  out ← ask chat meeting_id
  valid ← valid_segment_ids meeting_id
  get_session
      λ s. do org_id ← organization_of s meeting_id; store_decisions s org_id meeting_id valid out
