-- ===== src/Retention.antt =====
-- src/meeting_mgr/retention.py: the retention policy and what it selects for deletion.
pub mod Policy
pub mod Counts
unfoldable pub use Policy.*
unfoldable pub use Counts.*
pub mod Selection
pub mod Due
pub mod Outcome
use meeting_mgr.Base.{
  ℕ, ◌*◌, Bool, not, ◌&&◌, Option, none, some, List, [], ◌∷◌, ◌++◌, map, leb, ◌==◌, if◌then◌else◌,
  is_some, take, filter, any,
}
use meeting_mgr.Base.Text.{Text}
use meeting_mgr.Models.{Meeting, Recording, RetentionPolicy}
use meeting_mgr.Db.State.{Db}
use meeting_mgr.Db.Action.{Action, pure, gets, ◌>>=◌, ◌>>◌, gets_db}
use meeting_mgr.Db.Session.{Session, meetings, recordings}
use meeting_mgr.Db.Time.{timedelta_days, minus}
use meeting_mgr.Retention.Policy.{get_policy}
use meeting_mgr.Retention.Counts.{ProvenanceCounts, provenance_counts}

-- `kind`: "audio" or "full".
pub data Kind : Type 0 where
  audio full : Kind

pub record PurgeCandidate : Type 0 where
  pub meeting_id : ℕ
  pub title : Text
  pub created_at : ℕ
  pub kind : Kind
  pub provenance_counts : ProvenanceCounts

-- `PurgeCandidate(m.id, m.title, m.created_at, kind, _provenance_counts(s, m.id))`
abbrev pub candidate : Session → Db → Kind → Meeting → PurgeCandidate
candidate s db kind m = record {
  meeting_id = m.id;
  title = m.title;
  created_at = m.created_at;
  kind = kind;
  provenance_counts = provenance_counts s db m.id;
}

unfoldable pub insert_by_age : Meeting → List Meeting → List Meeting
insert_by_age m [] = m ∷ []
insert_by_age m (n ∷ ns) =
    if leb m.created_at n.created_at then m ∷ n ∷ ns else n ∷ insert_by_age m ns

-- `.order_by(Meeting.created_at.asc())`
unfoldable pub oldest_first : List Meeting → List Meeting
oldest_first [] = []
oldest_first (m ∷ ms) = insert_by_age m (oldest_first ms)

-- `.limit(limit)`; no limit returns all.
abbrev pub limited {ℓ} : {A : Type ℓ} → Option ℕ → List A → List A
limited none xs = xs
limited (some n) xs = take n xs

-- `now - timedelta(days=n)`
unfoldable pub cutoff : ℕ → ℕ → Action ℕ
cutoff now n = do delta ← timedelta_days n; minus now delta

-- `full_query`: the Organization's Meetings up to the cutoff.
unfoldable pub full_eligible : Session → ℕ → ℕ → Db → List Meeting
full_eligible s org_id before db =
    filter (λ m. m.organization_id == org_id && leb m.created_at before) (meetings s db)

-- A Meeting once for each Recording that the join pairs it with.
unfoldable pub join_recordings : List Recording → List Meeting → List Meeting
join_recordings recs [] = []
join_recordings recs (m ∷ ms) =
    map (λ r. m) (filter (λ r. r.meeting_id == m.id && is_some r.raw_key) recs)
    ++ join_recordings recs ms

-- `Meeting.id.notin_(full_ids)`
abbrev pub is_in : ℕ → List ℕ → Bool
is_in i ids = any (λ j. i == j) ids

-- `audio_query`, with the Meetings that are purged in full left out before the limit.
unfoldable pub audio_eligible : Session → ℕ → ℕ → List ℕ → Db → List Meeting
audio_eligible s org_id before full_ids db =
    filter (λ m. not (is_in m.id full_ids))
      (join_recordings (recordings s db) (full_eligible s org_id before db))

-- A query of one entity returns each row's object once.
unfoldable pub unique : List Meeting → List Meeting
unique [] = []
unique (m ∷ ms) = m ∷ filter (λ n. not (n.id == m.id)) (unique ms)

-- The branch for full purges: the eligible ids, all of them, and the page of candidates.
unfoldable pub full_part :
    Session → ℕ → ℕ → Option ℕ → Option ℕ → Action (List ℕ × List PurgeCandidate)
full_part s org_id now limit none = pure ([], [])
full_part s org_id now limit (some n) = do
  before ← cutoff now n
  gets_db (λ db.
      let rows = full_eligible s org_id before db in
      (map (λ m. m.id) rows, map (candidate s db full) (limited limit (oldest_first rows))))

-- The branch for audio purges.
unfoldable pub audio_part :
    Session → ℕ → ℕ → Option ℕ → List ℕ → Option ℕ → Action (List PurgeCandidate)
audio_part s org_id now limit full_ids none = pure []
audio_part s org_id now limit full_ids (some n) = do
  before ← cutoff now n
  gets_db (λ db.
      map (candidate s db audio)
        (unique (limited limit (oldest_first (audio_eligible s org_id before full_ids db)))))

abbrev pub candidates_under :
    Session → ℕ → ℕ → Option ℕ → Option RetentionPolicy → Action (List PurgeCandidate)
candidates_under s org_id now limit none = pure []
candidates_under s org_id now limit (some policy) = do
  (full_ids, candidates) ← full_part s org_id now limit policy.meeting_retention_days
  more ← audio_part s org_id now limit full_ids policy.audio_retention_days
  pure (candidates ++ more)

-- `now=None` is the clock's time.
unfoldable pub select_purge_candidates :
    Session → ℕ → (limit : Option ℕ) → Action (List PurgeCandidate)
select_purge_candidates s org_id limit = do
  now ← gets (λ w. w.now)
  policy ← get_policy s org_id
  candidates_under s org_id now limit policy

-- The default of `limit`.
abbrev pub batch : ℕ
batch = 500
