-- ===== src/Tests/Running.antt =====
-- Rounds with made-up stages, and a run of the program's.
use meeting_mgr.Base.{ℕ, String, ◌≡◌, refl, inl, inr, none, some, List, [], ◌∷◌, ◌++◌}
use meeting_mgr.Base.Text.{codes, text_eq, starts_with, remove_prefix}
use meeting_mgr.Base.Decimal.{emit, decimal, pos}
use meeting_mgr.Models.{Meeting, SpeakerCluster, Segment, pending, published}
use meeting_mgr.Db.State.{Db, World, blob, inference_error, ok, err}
use meeting_mgr.Db.Action.{Action, pure, raise, service_call}
use meeting_mgr.Db.Session.{sees_meeting}
use meeting_mgr.Db.Rows.{fail_at}
use meeting_mgr.Storage.{without, lookup, put_object, put_stream, get_object}
use meeting_mgr.Tests.Samples.{sample_meeting, sample_recording, empty_db, sample_world}
use meeting_mgr.Pipeline.Orchestrate.{
  Stage, is_optional, publish_progress, write_meeting, with_stage, set_current_stage,
  set_stage_failure, publish, on_failure, run_stage, run_stages,
}
use meeting_mgr.Pipeline.Orchestrate.Steps.{meeting_of, begin}
use meeting_mgr.Pipeline.Orchestrate.Runs.{
  mandatory_failure_stops, optional_failure_continues, served_run_publishes,
}
use meeting_mgr.Pipeline.Align.{total_overlap, best_cluster, align}
use meeting_mgr.Pipeline.Align.Best.{IsBest, best_cluster-IsBest}
use meeting_mgr.Pipeline.Extract.{
  TopicOut, Chat, ask, valid_segment_ids, store_topics, extract_key_topics, store_minutes,
  extract_minutes, resolve_if_named, store_action_items, organization_of, extract_action_items,
  store_decisions, extract_decision_points,
}
use meeting_mgr.Pipeline.Extract.Grounded.{
  segment_ids, prompt_of, Extracted, key_topics_are_grounded,
}
use meeting_mgr.Pipeline.Stages.{
  Services, get_bytes, fetch_raw, normalized_key, store_normalized, normalize, fetch_normalized,
  add_clusters, diarize, add_segments, transcribe,
}
use meeting_mgr.Pipeline.Attribute.{by_label, attribute_all, attribute}
use meeting_mgr.Pipeline.Transcript.{
  insert_in_time, in_time, label_of, transcript, cited_line, plain_line, join_lines,
  render_cited_transcript, render_transcript,
}

abbrev crash : ℕ → Action (Unit {0})
crash mid = raise inference_error

abbrev nothing_to_do : ℕ → Action (Unit {0})
nothing_to_do mid = pure tt

abbrev run_db : Db
run_db = record empty_db { meetings = sample_meeting 7 pending ∷ [] }

abbrev run_world : World
run_world = sample_world run_db [] []

abbrev at : String → World
at name = (begin 7 name run_world).1

mandatory_failure_stops_example :
    (w' : World) × ((rest : List Stage)
      → run_stages 7 (("diarize", crash) ∷ rest) run_world ≡ (err inference_error, w'))
    × (meeting_of 7 w'
        ≡ some (
            with_stage none
              (fail_at "diarize" (with_stage (some "diarize") (sample_meeting 7 pending)))))
unfolding is_optional set_current_stage write_meeting publish_progress service_call
mandatory_failure_stops_example =
    mandatory_failure_stops 7 "diarize" crash run_world (at "diarize") (at "diarize")
      inference_error (with_stage (some "diarize") (sample_meeting 7 pending)) refl refl refl refl

optional_failure_continues_example :
    (w' : World) × ((rest : List Stage)
      → run_stages 7 (("minutes", crash) ∷ rest) run_world ≡ run_stages 7 rest w')
    × (meeting_of 7 w'
        ≡ some (fail_at "minutes" (with_stage (some "minutes") (sample_meeting 7 pending))))
unfolding is_optional set_current_stage write_meeting publish_progress service_call
optional_failure_continues_example =
    optional_failure_continues 7 "minutes" crash run_world (at "minutes") (at "minutes")
      inference_error (with_stage (some "minutes") (sample_meeting 7 pending)) refl refl refl refl

-- The program's stages for a Meeting with a Recording of one byte, where the extraction of minutes
-- gets no answer.
abbrev services : Services
services = record {
  ffmpeg = λ raw. some raw;
  ffprobe = λ wav. some 60;
  diarizer =
      λ wav. some (record { label = codes "A"; spans = record { start = 0; end = 5 } ∷ [] } ∷ []);
  recognizer = λ wav. some (record { start = 0; end = 5; text = codes "hi" } ∷ []);
  name_speakers = λ prompt. some [];
  list_topics = λ prompt. some [];
  write_minutes = λ prompt. none;
  list_action_items = λ prompt. some [];
  list_decisions = λ prompt. some [];
}

abbrev work : List Stage
work =
    ("normalize", normalize services)
    ∷ ("diarize", diarize services)
    ∷ ("transcribe", transcribe services)
    ∷ ("align", align)
    ∷ ("attribute", attribute services.name_speakers)
    ∷ ("key_topics", extract_key_topics services.list_topics)
    ∷ ("minutes", extract_minutes services.write_minutes)
    ∷ ("action_items", extract_action_items services.list_action_items)
    ∷ ("decision_points", extract_decision_points services.list_decisions)
    ∷ []

abbrev uploaded : World
uploaded =
    sample_world
      (record run_db {
        recordings = record (sample_recording 7 (codes "r")) { normalized_key = none } ∷ [];
      })
      ((codes "r", blob (1 ∷ [])) ∷ []) []

served_run_publishes_example :
    (w' : World) × (m' : Meeting) × (run_stages 7 (work ++ ("publish", publish) ∷ []) uploaded
      ≡ (ok tt, w'))
    × (meeting_of 7 w' ≡ some m')
    × (m'.status ≡ published)
    × (m'.current_stage ≡ none)
unfolding is_optional run_stage set_current_stage write_meeting publish_progress service_call
    on_failure set_stage_failure normalize fetch_raw get_bytes store_normalized normalized_key
    fetch_normalized diarize add_clusters transcribe add_segments align best_cluster total_overlap
    attribute attribute_all extract_key_topics store_topics ask valid_segment_ids extract_minutes
    store_minutes extract_action_items extract_decision_points get_object put_stream put_object
    lookup without text_eq starts_with remove_prefix sees_meeting render_cited_transcript
    render_transcript transcript decimal emit organization_of store_action_items store_decisions
    resolve_if_named in_time insert_in_time label_of join_lines plain_line cited_line by_label
served_run_publishes_example =
    served_run_publishes 7 work uploaded (sample_meeting 7 pending) refl (
      (_, refl, inl refl),
      (
        (_, refl, inl refl),
        (
          (_, refl, inl refl),
          (
            (_, refl, inl refl),
            (
              (_, refl, inl refl),
              (
                (_, refl, inl refl),
                (
                  (_, refl, inr (refl, inference_error, refl)),
                  ((_, refl, inl refl), ((_, refl, inl refl), tt)),
                ),
              ),
            ),
          ),
        ),
      ),
    )

abbrev speakers : List SpeakerCluster
speakers =
    record { id = 1; meeting_id = 7; label = codes "A"; spans = record { start = 0; end = 5 } ∷ [] }
    ∷ record {
      id = 2;
      meeting_id = 7;
      label = codes "B";
      spans = record { start = 4; end = 10 } ∷ [];
    }
    ∷ []

abbrev spoken : Segment
spoken = record {
  id = 9;
  meeting_id = 7;
  cluster_id = none;
  start_seconds = 3;
  end_seconds = 8;
  text = [];
}

best_cluster-IsBest_example :
    (best : ℕ) × IsBest spoken speakers (best_cluster spoken speakers none 0) best
best_cluster-IsBest_example = best_cluster-IsBest spoken speakers

abbrev spoken_db : Db
spoken_db = record empty_db { segments = spoken ∷ [] }

abbrev spoken_world : World
spoken_world = sample_world spoken_db [] []

-- A model that proposes one topic with a citation that holds and one that does not.
abbrev chatty : Chat (List TopicOut)
chatty prompt = some (record { title = codes "plan"; citations = pos 9 ∷ pos 4 ∷ [] } ∷ [])

key_topics_are_grounded_example :
    ((out : List TopicOut)
      → chatty (prompt_of 7 spoken_db) ≡ some out
      → Extracted 7
          (segment_ids 7 spoken_db)
          out
          spoken_world
          (extract_key_topics chatty 7 spoken_world))
    × (chatty (prompt_of 7 spoken_db) ≡ none
        → extract_key_topics chatty 7 spoken_world ≡ (err inference_error, spoken_world))
key_topics_are_grounded_example = key_topics_are_grounded chatty 7 spoken_world
