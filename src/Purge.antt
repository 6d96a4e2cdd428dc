-- ===== src/Purge.antt =====
-- src/meeting_mgr/pipeline/purge.py: deletion of audio and of whole Meetings, storage first.
pub mod Objects
pub mod Tail
pub mod Recovery
pub mod Sessions
pub mod Sweep
pub mod Isolation
pub mod Erasure
use meeting_mgr.Base.{
  ℕ, not, ◌&&◌, ◌||◌, Option, none, some, List, [], ◌∷◌, ◌++◌, map, ◌==◌, if◌then◌else◌, is_some,
  length, filter, any,
}
use meeting_mgr.Base.Text.{Text, codes, starts_with, remove_prefix}
use meeting_mgr.Models.{Recording, meeting_target, keys_deleted}
use meeting_mgr.Db.State.{
  Db, Body, Exc, blob, json, purge_organization_task, no_such_key, value_error,
}
use meeting_mgr.Db.Action.{
  Action, pure, raise, ◌>>=◌, ◌>>◌, when, gets_db, modify_db, one_or_none, catch, delay,
}
use meeting_mgr.Db.Session.{
  Session, get_readonly_session, get_org_session, sees_org, sees_meeting, meetings, recordings,
}
use meeting_mgr.Db.Rows.{record_audit}
use meeting_mgr.Storage.{get_object, delete_object}
use meeting_mgr.Retention.{Kind, PurgeCandidate, select_purge_candidates, batch, audio, full}

-- The handler of `ClientError`, whose code is in `_MISSING` for `no_such_key` alone.
abbrev on_missing : Exc → Action (List Text)
on_missing no_such_key = pure []
on_missing e = raise e

-- `json.loads`; bytes that are no manifest raise a ValueError.
abbrev loads : Body → Action (List Text)
loads (json keys) = pure keys
loads (blob bytes) = raise value_error

-- `_manifest_chunk_keys`
unfoldable pub manifest_chunk_keys : Text → Action (List Text)
manifest_chunk_keys manifest_key = catch (do raw ← get_object manifest_key; loads raw) on_missing

-- `for key in keys: delete_object(key)`
unfoldable pub delete_all : List Text → Action (Unit {0})
delete_all [] = pure tt
delete_all (k ∷ ks) = do delete_object k; delete_all ks

abbrev pub manifest_mark : Text
manifest_mark = codes "manifest:"

-- What `rec.raw_key` refers to; an empty key is false.
pub data RawKey : Type 0 where
  nothing : RawKey
  manifest object : Text → RawKey

unfoldable pub raw_kind : Option Text → RawKey
unfolding starts_with remove_prefix
raw_kind none = nothing
raw_kind (some []) = nothing
raw_kind (some (c ∷ raw)) =
    if starts_with manifest_mark (c ∷ raw)
    then manifest (remove_prefix manifest_mark (c ∷ raw))
    else object (c ∷ raw)

-- The branches of `_purge_audio_objects` on the raw key: the manifest goes after its chunks.
unfoldable pub purge_raw : RawKey → Action (List Text)
purge_raw nothing = pure []
purge_raw (manifest manifest_key) = do
  chunk_keys ← manifest_chunk_keys manifest_key
  delete_all chunk_keys
  delete_object manifest_key
  pure (chunk_keys ++ manifest_key ∷ [])
purge_raw (object key) = do delete_object key; pure (key ∷ [])

unfoldable pub purge_normalized : Option Text → Action (List Text)
purge_normalized none = pure []
purge_normalized (some []) = pure []
purge_normalized (some (c ∷ key)) = do delete_object (c ∷ key); pure ((c ∷ key) ∷ [])

unfoldable pub purge_recording : Option Recording → Action (List Text)
purge_recording none = pure []
purge_recording (some rec) = do
  keys ← purge_raw (raw_kind rec.raw_key)
  more ← purge_normalized rec.normalized_key
  pure (keys ++ more)

abbrev pub recordings_of : Session → ℕ → Db → List Recording
recordings_of s mid db = filter (λ r. r.meeting_id == mid) (recordings s db)

-- `_purge_audio_objects`: the keys removed.
unfoldable pub purge_audio_objects : Session → ℕ → Action (List Text)
purge_audio_objects s mid = do
  rows ← gets_db (recordings_of s mid)
  rec ← one_or_none rows
  purge_recording rec

-- `s.query(Recording).filter_by(meeting_id=...).delete()`; the number of rows.
unfoldable pub delete_recordings : Session → ℕ → Action ℕ
delete_recordings s mid = do
  deleted ← gets_db (λ db. length (recordings_of s mid db))
  modify_db (λ db. record db {
    recordings =
        filter (λ r. not (r.meeting_id == mid && sees_meeting s db r.meeting_id)) db.recordings;
  })
  pure deleted

unfoldable pub purge_meeting_audio : (org_id meeting_id : ℕ) → Action (Unit {0})
purge_meeting_audio org_id mid = get_org_session org_id λ s. do
  keys ← purge_audio_objects s mid
  deleted ← delete_recordings s mid
  when (not (deleted == 0)) (
      record_audit s org_id none "meeting.purge.audio" (meeting_target mid)
        (keys_deleted (length keys)))

-- ON DELETE CASCADE from a Meeting: the child rows go, whatever row security says of them.
unfoldable pub cascade : ℕ → Db → Db
cascade mid db =
    let doomed = λ (c : ℕ). any (λ k. k.id == c && k.meeting_id == mid) db.clusters in
    record db {
      shares = filter (λ r. not (r.meeting_id == mid)) db.shares;
      recordings = filter (λ r. not (r.meeting_id == mid)) db.recordings;
      clusters = filter (λ r. not (r.meeting_id == mid)) db.clusters;
      segments = filter (λ r. not (r.meeting_id == mid)) db.segments;
      attributions = filter (λ r. not (doomed r.cluster_id)) db.attributions;
      key_topics = filter (λ r. not (r.meeting_id == mid)) db.key_topics;
      minutes = filter (λ r. not (r.meeting_id == mid)) db.minutes;
      action_items = filter (λ r. not (r.meeting_id == mid)) db.action_items;
      decision_points = filter (λ r. not (r.meeting_id == mid)) db.decision_points;
      bot_sessions = filter (λ r. not (r.meeting_id == mid)) db.bot_sessions;
    }

-- `s.query(Meeting).filter_by(id=...).delete()`; the number of rows.
unfoldable pub delete_meeting : Session → ℕ → Action ℕ
delete_meeting s mid = do
  deleted ← gets_db (λ db. length (filter (λ m. m.id == mid) (meetings s db)))
  modify_db (λ db. if deleted == 0 then db else record (cascade mid db) {
    meetings = filter (λ m. not (m.id == mid && sees_org s m.organization_id)) db.meetings;
  })
  pure deleted

unfoldable pub purge_meeting_full : (org_id meeting_id : ℕ) → Action (Unit {0})
purge_meeting_full org_id mid = get_org_session org_id λ s. do
  keys ← purge_audio_objects s mid
  deleted ← delete_meeting s mid
  when (not (deleted == 0)) (
      record_audit s org_id none "meeting.purge.full" (meeting_target mid)
        (keys_deleted (length keys)))

unfoldable pub purge_by_kind : ℕ → Kind → ℕ → Action (Unit {0})
purge_by_kind org_id full mid = purge_meeting_full org_id mid
purge_by_kind org_id audio mid = purge_meeting_audio org_id mid

abbrev pub swallow : Exc → Action (Unit {0})
swallow e = pure tt

-- The loop over the candidates: a failure is logged and passed over.
unfoldable pub purge_candidates : ℕ → List PurgeCandidate → Action (Unit {0})
purge_candidates org_id [] = pure tt
purge_candidates org_id (c ∷ cs) = do
  catch (purge_by_kind org_id c.kind c.meeting_id) swallow
  purge_candidates org_id cs

unfoldable pub purge_organization : ℕ → Action (Unit {0})
purge_organization org_id = do
  candidates ← get_org_session org_id λ s. select_purge_candidates s org_id (some batch)
  purge_candidates org_id candidates

-- The Organizations with either day count set.
unfoldable pub with_policy : Db → List ℕ
with_policy db =
    map (λ p. p.organization_id)
      (filter (λ p. is_some p.audio_retention_days || is_some p.meeting_retention_days) db.policies)

-- The dispatch loop: one that fails does not hold up the rest.
unfoldable pub dispatch_all : List ℕ → Action (Unit {0})
dispatch_all [] = pure tt
dispatch_all (o ∷ os) = do catch (delay (purge_organization_task o)) swallow; dispatch_all os

unfoldable pub sweep_retention : Action (Unit {0})
sweep_retention = do org_ids ← get_readonly_session λ s. gets_db with_policy; dispatch_all org_ids
