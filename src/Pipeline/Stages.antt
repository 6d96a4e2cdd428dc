-- ===== src/Pipeline/Stages.antt =====
-- The stages that call other programs (normalize.py, diarize.py, transcribe.py), and the list of all
-- stages in orchestrate.py.
use meeting_mgr.Base.{
  ℕ, Option, none, some, List, [], ◌∷◌, ◌++◌, ◌==◌, if◌then◌else◌, filter, update_where,
}
use meeting_mgr.Base.Text.{Text, codes, starts_with, remove_prefix, strip}
use meeting_mgr.Base.Decimal.{decimal}
use meeting_mgr.Models.{Recording, Span, processing}
use meeting_mgr.Db.State.{
  Body, blob, json, client_error, attribute_error, value_error, inference_error, normalize_error,
}
use meeting_mgr.Db.Action.{
  Action, pure, raise, ◌>>=◌, ◌>>◌, gets_db, modify_db, new_id, one, or_raise,
}
use meeting_mgr.Db.Session.{Session, get_session, get_readonly_session, recordings, get_meeting}
use meeting_mgr.Db.Rows.{update_meeting, set_status}
use meeting_mgr.Storage.{put_stream, get_object}
use meeting_mgr.Pipeline.Extract.{
  TopicOut, MinuteOut, ActionItemOut, DecisionPointOut, Chat, extract_key_topics, extract_minutes,
  extract_action_items, extract_decision_points,
}
use meeting_mgr.Pipeline.Attribute.{ClusterName, attribute}
use meeting_mgr.Pipeline.Align.{align}
use meeting_mgr.Pipeline.Orchestrate.{Stage, publish}

-- One element of the diarizer's "clusters" and of the recognizer's "segments".
pub record ClusterOut : Type 0 where
  pub label : Text
  pub spans : List Span

pub record SegmentOut : Type 0 where
  pub start : ℕ
  pub end : ℕ
  pub text : Text

-- The programs and services that the stages call, each with `none` for its failure: ffmpeg turns the
-- bytes into a WAV file, ffprobe reads its duration.
pub record Services : Type 0 where
  pub ffmpeg : List ℕ → Option (List ℕ)
  pub ffprobe : List ℕ → Option ℕ
  pub diarizer : List ℕ → Option (List ClusterOut)
  pub recognizer : List ℕ → Option (List SegmentOut)
  pub name_speakers : Chat (List ClusterName)
  pub list_topics : Chat (List TopicOut)
  pub write_minutes : Chat (List MinuteOut)
  pub list_action_items : Chat (List ActionItemOut)
  pub list_decisions : Chat (List DecisionPointOut)

-- The bytes of an object; a manifest's text is never audio.
abbrev pub bytes_of : Body → Action (List ℕ)
bytes_of (blob bytes) = pure bytes
bytes_of (json keys) = raise normalize_error

-- `get_stream` and `append_stream`
unfoldable pub get_bytes : Text → Action (List ℕ)
get_bytes key = do body ← get_object key; bytes_of body

unfoldable pub append_chunks : List Text → Action (List ℕ)
append_chunks [] = pure []
append_chunks (k ∷ ks) = do bytes ← get_bytes k; rest ← append_chunks ks; pure (bytes ++ rest)

abbrev pub manifest_list : Body → Action (List Text)
manifest_list (json keys) = pure keys
manifest_list (blob bytes) = raise value_error

-- `_write_manifest_chunks`: what the file holds in the end.
unfoldable pub write_manifest_chunks : Text → Action (List ℕ)
write_manifest_chunks manifest_key = do
  body ← get_object manifest_key
  keys ← manifest_list body
  append_chunks keys

abbrev pub manifest_mark : Text
manifest_mark = codes "manifest:"

-- The file that `normalize` gives to ffmpeg.
unfoldable pub fetch_raw : Text → Action (List ℕ)
fetch_raw raw_key =
    if starts_with manifest_mark raw_key
    then write_manifest_chunks (remove_prefix manifest_mark raw_key)
    else get_bytes raw_key

-- f"normalized/{meeting_id}.wav"
unfoldable pub normalized_key : ℕ → Text
normalized_key meeting_id = codes "normalized/" ++ (decimal meeting_id ++ codes ".wav")

-- `s.query(Recording).filter_by(meeting_id=meeting_id).one()`
abbrev pub the_recording : Session → ℕ → Action Recording
the_recording s meeting_id = do
  rows ← gets_db (λ db. filter (λ r. r.meeting_id == meeting_id) (recordings s db))
  one rows

-- The last session of `normalize`.
unfoldable pub store_normalized : ℕ → Text → ℕ → Action (Unit {0})
store_normalized meeting_id key duration = get_session λ s. do
  rec ← the_recording s meeting_id
  modify_db (λ db. record db {
    recordings =
        update_where (λ r. r.id == rec.id)
          (λ r. record r { normalized_key = some key; duration_seconds = some duration })
          db.recordings;
  })
  found ← get_meeting s meeting_id
  or_raise found attribute_error
  update_meeting s meeting_id (set_status processing)

unfoldable pub normalize : Services → ℕ → Action (Unit {0})
normalize services meeting_id = do
  rec ← get_readonly_session λ s. the_recording s meeting_id
  raw_key ← or_raise rec.raw_key attribute_error
  raw ← fetch_raw raw_key
  wav ← or_raise (services.ffmpeg raw) normalize_error
  duration ← or_raise (services.ffprobe wav) normalize_error
  put_stream (normalized_key meeting_id) wav
  store_normalized meeting_id (normalized_key meeting_id) duration

-- The normalized audio, which `diarize` and `transcribe` read; a key that is None fails in `get_stream`.
unfoldable pub fetch_normalized : ℕ → Action (List ℕ)
fetch_normalized meeting_id = do
  rec ← get_readonly_session λ s. the_recording s meeting_id
  key ← or_raise rec.normalized_key client_error
  get_bytes key

unfoldable pub add_clusters : ℕ → List ClusterOut → Action (Unit {0})
add_clusters meeting_id [] = pure tt
add_clusters meeting_id (c ∷ cs) = do
  i ← new_id
  modify_db (λ db. record db {
    clusters =
        db.clusters
        ++ record { id = i; meeting_id = meeting_id; label = c.label; spans = c.spans } ∷ [];
  })
  add_clusters meeting_id cs

unfoldable pub diarize : Services → ℕ → Action (Unit {0})
diarize services meeting_id = do
  audio ← fetch_normalized meeting_id
  cs ← or_raise (services.diarizer audio) inference_error
  get_session λ s. add_clusters meeting_id cs

unfoldable pub add_segments : ℕ → List SegmentOut → Action (Unit {0})
add_segments meeting_id [] = pure tt
add_segments meeting_id (g ∷ gs) = do
  i ← new_id
  modify_db (λ db. record db {
    segments =
        db.segments
        ++ record {
          id = i;
          meeting_id = meeting_id;
          cluster_id = none;
          start_seconds = g.start;
          end_seconds = g.end;
          text = strip g.text;
        }
          ∷ [];
  })
  add_segments meeting_id gs

unfoldable pub transcribe : Services → ℕ → Action (Unit {0})
transcribe services meeting_id = do
  audio ← fetch_normalized meeting_id
  gs ← or_raise (services.recognizer audio) inference_error
  get_session λ s. add_segments meeting_id gs

-- `STAGES`
unfoldable pub stages : Services → List Stage
stages services =
    ("normalize", normalize services)
    ∷ ("diarize", diarize services)
    ∷ ("transcribe", transcribe services)
    ∷ ("align", align)
    ∷ ("attribute", attribute services.name_speakers)
    ∷ ("key_topics", extract_key_topics services.list_topics)
    ∷ ("minutes", extract_minutes services.write_minutes)
    ∷ ("action_items", extract_action_items services.list_action_items)
    ∷ ("decision_points", extract_decision_points services.list_decisions)
    ∷ ("publish", publish)
    ∷ []
