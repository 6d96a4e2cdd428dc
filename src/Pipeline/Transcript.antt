-- ===== src/Pipeline/Transcript.antt =====
-- The transcripts that the prompts of src/meeting_mgr/pipeline/extract.py and attribute.py hold.
use meeting_mgr.Base.{
  ℕ, Bool, ◌&&◌, ◌||◌, Option, none, some, List, [], ◌∷◌, ◌++◌, map, ltb, leb, ◌==◌, if◌then◌else◌,
  filter,
}
use meeting_mgr.Base.Text.{Text, codes}
use meeting_mgr.Base.Decimal.{decimal}
use meeting_mgr.Models.{SpeakerCluster, Segment}
use meeting_mgr.Db.State.{Db}
use meeting_mgr.Db.Action.{Action, gets_db}
use meeting_mgr.Db.Session.{Session, get_readonly_session, clusters, segments}

-- A row of the transcript, as the prompts render it: the Segment, and its cluster's label.
abbrev pub Line : Type 0
Line = ℕ × Text × Text

abbrev precedes : Segment → Segment → Bool
precedes a b =
    ltb a.start_seconds b.start_seconds || (a.start_seconds == b.start_seconds && leb a.id b.id)

unfoldable pub insert_in_time : Segment → List Segment → List Segment
insert_in_time g [] = g ∷ []
insert_in_time g (h ∷ hs) = if precedes g h then g ∷ h ∷ hs else h ∷ insert_in_time g hs

-- `.order_by(Segment.start_seconds, Segment.id)`
unfoldable pub in_time : List Segment → List Segment
unfolding insert_in_time
in_time [] = []
in_time (g ∷ gs) = insert_in_time g (in_time gs)

-- The outer join on the cluster: `c.label if c else 'UNKNOWN'`.
unfoldable pub label_of : List SpeakerCluster → Option ℕ → Text
label_of cs none = codes "UNKNOWN"
label_of [] (some i) = codes "UNKNOWN"
label_of (c ∷ cs) (some i) = if c.id == i then c.label else label_of cs (some i)

-- The rows of `render_transcript` and `render_cited_transcript`.
unfoldable pub transcript : Session → ℕ → Db → List Line
unfolding in_time label_of
transcript s meeting_id db =
    map (λ g. (g.id, label_of (clusters s db) g.cluster_id, g.text))
      (in_time (filter (λ g. g.meeting_id == meeting_id) (segments s db)))

-- f"[{seg.id}][{label}] {seg.text}"
unfoldable pub cited_line : Line → Text
unfolding decimal
cited_line (i, label, text) =
    codes "[" ++ (decimal i ++ (codes "][" ++ (label ++ (codes "] " ++ text))))

-- f"[{label}] {seg.text}"
unfoldable pub plain_line : Line → Text
plain_line (i, label, text) = codes "[" ++ (label ++ (codes "] " ++ text))

-- `"\n".join(...)`
unfoldable pub join_lines : List Text → Text
join_lines [] = []
join_lines (t ∷ []) = t
join_lines (t ∷ u ∷ r) = t ++ (b'\n' ∷ join_lines (u ∷ r))

unfoldable pub render_cited_transcript : ℕ → Action Text
unfolding transcript cited_line join_lines
render_cited_transcript meeting_id =
    get_readonly_session
      λ s. gets_db (λ db. join_lines (map cited_line (transcript s meeting_id db)))

unfoldable pub render_transcript : ℕ → Action Text
unfolding transcript plain_line join_lines
render_transcript meeting_id =
    get_readonly_session
      λ s. gets_db (λ db. join_lines (map plain_line (transcript s meeting_id db)))
