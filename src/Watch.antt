-- ===== src/Watch.antt =====
-- src/meeting_mgr/pipeline/watch.py: files that appear in a watched directory become Meetings.
pub mod Scanning
pub mod Ingest
pub mod Whole
pub mod Quiet
pub mod Placing
pub mod Leaving
pub mod Scan
pub mod Heartbeat
pub mod Dispatch
use meeting_mgr.Base.{
  ℕ, ◌+◌, Bool, true, false, not, ◌&&◌, Option, none, some, List, [], ◌∷◌, ◌++◌, map, leb, ◌==◌,
  if◌then◌else◌, length, filter,
}
use meeting_mgr.Base.Text.{Text, codes, text_eq, starts_with}
use meeting_mgr.Base.Decimal.{decimal}
use meeting_mgr.Models.{WatchFolder, pending}
use meeting_mgr.Db.State.{FilePath, File, Exc, run_pipeline_task, file_not_found, stale_file}
use meeting_mgr.Db.Action.{Action, pure, raise, gets, ◌>>=◌, ◌>>◌, raise_if, new_id, catch, delay}
use meeting_mgr.Db.Session.{get_org_session}
use meeting_mgr.Db.Rows.{add_meeting, add_recording}
use meeting_mgr.Db.Time.{seconds}
use meeting_mgr.Storage.{ensure_bucket, put_stream}
use meeting_mgr.Files.{os_call, stat, read_file, replace, path_of, basename, relpath}
use meeting_mgr.Capture.{subdir, new_meeting}

-- `STABLE_QUIET_SECONDS`
abbrev pub stable_quiet_seconds : ℕ
stable_quiet_seconds = 30

-- `(now - mtime) >= quiet_seconds`
abbrev pub quiet_since : ℕ → File → Bool
quiet_since now file = leb (file.mtime + seconds stable_quiet_seconds) now

abbrev pub is_missing : Exc → Bool
is_missing file_not_found = true
is_missing e = false

-- `except FileNotFoundError`
abbrev pub on_not_found : {A : Type 0} → A → Exc → Action A
on_not_found a e = if is_missing e then pure a else raise e

-- `_is_stable`, at the time of the call.
unfoldable pub is_stable : FilePath → Action Bool
is_stable path =
    catch (do file ← stat path; now ← gets (λ w. w.now); pure (quiet_since now file))
      (on_not_found false)

-- `_move_into`: `os.makedirs` is a call of its own, which may fail.
unfoldable pub move_into : (root : FilePath) → (subdir : Text) → FilePath → Action (Unit {0})
move_into root subdir path = do os_call; replace path (root ++ subdir ∷ relpath root path)

-- `_stat_signature(path) != baseline`
abbrev pub same_signature : File → File → Bool
same_signature f g = length f.content == length g.content && f.mtime == g.mtime

-- f"raw/{meeting_id}/{name}"
unfoldable pub raw_key : ℕ → Text → Text
raw_key meeting_id name = codes "raw/" ++ (decimal meeting_id ++ b'/' ∷ name)

abbrev pub root_of : WatchFolder → FilePath
root_of folder = path_of folder.root_path

abbrev pub ingested_dir : Text
ingested_dir = codes ".ingested"

abbrev pub failed_dir : Text
failed_dir = codes ".failed"

-- The second look at the file, and the upload of what is read then.
unfoldable pub upload_unchanged : FilePath → (baseline : File) → (key : Text) → Action (Unit {0})
upload_unchanged path baseline key = do
  current ← stat path
  raise_if (not (same_signature current baseline)) stale_file
  bytes ← read_file path
  put_stream key bytes

-- The transaction of `ingest_file`, with the move in it; the result is the Meeting's id.
unfoldable pub ingest_rows : WatchFolder → FilePath → (baseline : File) → Action ℕ
ingest_rows folder path baseline = get_org_session folder.organization_id λ s. do
  meeting_id ← new_id
  now ← gets (λ w. w.now)
  add_meeting s (
      new_meeting meeting_id folder.organization_id folder.owner_account_id (basename path) pending
        now)
  upload_unchanged path baseline (raw_key meeting_id (basename path))
  add_recording s meeting_id (raw_key meeting_id (basename path))
  move_into (root_of folder) ingested_dir path
  pure meeting_id

abbrev pub is_stale : Exc → Bool
is_stale stale_file = true
is_stale e = false

-- The two handlers around the transaction.
unfoldable pub ingest_failed : WatchFolder → FilePath → Exc → Action (Option ℕ)
ingest_failed folder path e =
    if is_stale e then pure none else move_into (root_of folder) failed_dir path >> raise e

-- `run_pipeline(meeting_id); return meeting_id`
abbrev pub start_pipeline : Option ℕ → Action (Option ℕ)
start_pipeline none = pure none
start_pipeline (some meeting_id) = do delay (run_pipeline_task meeting_id); pure (some meeting_id)

-- `ingest_file` once the baseline is taken, or the file was not there.
unfoldable pub ingest_seen : WatchFolder → FilePath → Option File → Action (Option ℕ)
ingest_seen folder path none = pure none
ingest_seen folder path (some baseline) = do
  outcome ←
      catch (do meeting_id ← ingest_rows folder path baseline; pure (some meeting_id))
        (ingest_failed folder path)
  start_pipeline outcome

-- The baseline, if the file is there.
unfoldable pub first_look : FilePath → Action (Option File)
first_look path = catch (do file ← stat path; pure (some file)) (on_not_found none)

unfoldable pub ingest_file : WatchFolder → FilePath → Action (Option ℕ)
ingest_file folder path = do
  ensure_bucket
  baseline ← first_look path
  ingest_seen folder path baseline

-- The names of a path below a directory.
unfoldable pub below : (root path : FilePath) → Option FilePath
below [] path = some path
below (r ∷ root) [] = none
below (r ∷ root) (n ∷ path) = let rest = below root path in if text_eq r n then rest else none

-- No directory on the way starts with a dot; the file's own name may.
unfoldable pub in_plain_dirs : FilePath → Bool
in_plain_dirs [] = false
in_plain_dirs (name ∷ []) = true
in_plain_dirs (dir ∷ n ∷ path) = not (starts_with (codes ".") dir) && in_plain_dirs (n ∷ path)

unfoldable pub is_candidate : (root path : FilePath) → Bool
is_candidate root path = elim (below root path) [ none ↦ false | some rel ↦ in_plain_dirs rel ]

-- `_candidate_files`: one listing, as the directory stands when the scan begins.
unfoldable pub candidate_files : FilePath → List File → List FilePath
candidate_files root files = filter (is_candidate root) (map (λ f. f.path) files)
