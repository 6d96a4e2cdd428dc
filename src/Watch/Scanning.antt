-- ===== src/Watch/Scanning.antt =====
-- The tasks of src/meeting_mgr/pipeline/watch.py: the scan of one directory, and the dispatch of all
-- scans. The text of an exception, `str(exc)`, is a parameter.
use meeting_mgr.Base.{
  ℕ, Bool, false, ◌&&◌, Option, none, some, List, [], ◌∷◌, ◌++◌, map, ltb, ◌==◌, if◌then◌else◌,
  length, filter, find, update_where,
}
use meeting_mgr.Base.Text.{Text, codes}
use meeting_mgr.Models.{WatchFolder}
use meeting_mgr.Db.State.{
  Db, FilePath, Task, Exc, scan_watch_folder_task, data_error, attribute_error, ok,
}
use meeting_mgr.Db.Action.{
  Action, pure, gets, ◌>>=◌, ◌>>◌, raise_if, gets_db, or_raise, catch, delay,
}
use meeting_mgr.Db.Session.{get_readonly_session, get_org_session, sees_org, watch_folders}
use meeting_mgr.Files.{relpath, slashed}
use meeting_mgr.Watch.{is_stable, root_of, ingest_file, candidate_files}
use meeting_mgr.WatchFolders.{get_watch_folder}

-- `"; ".join(errors) if errors else None`
abbrev pub joined : Text → List Text → Text
joined e [] = e
joined e (f ∷ errors) = e ++ (codes "; " ++ joined f errors)

abbrev pub error_text : List Text → Option Text
error_text [] = none
error_text (e ∷ errors) = some (joined e errors)

-- What the column `last_scan_error`, a String(2000), does not take.
abbrev pub too_long : Option Text → Bool
too_long none = false
too_long (some text) = ltb 2000 (length text)

abbrev pub heartbeat : ℕ → Option Text → WatchFolder → WatchFolder
heartbeat now error folder = record folder { last_scan_at = some now; last_scan_error = error }

-- The second session of `scan_watch_folder`.
unfoldable pub record_scan : (watch_folder_id organization_id : ℕ) → List Text → Action (Unit {0})
record_scan watch_folder_id organization_id errors = get_org_session organization_id λ s. do
  found ← gets_db (λ db. find (λ f. f.id == watch_folder_id) (watch_folders s db))
  or_raise found attribute_error
  raise_if (too_long (error_text errors)) data_error
  λ w. (
    ok tt,
    record w {
      db = record w.db {
        watch_folders =
            update_where (λ f. f.id == watch_folder_id && sees_org s f.organization_id)
              (heartbeat w.now (error_text errors)) w.db.watch_folders;
      };
    },
  )

module _ (message : Exc → Text) where
  -- One file of the loop: what it adds to `errors`.
  unfoldable pub try_ingest : WatchFolder → FilePath → Action (List Text)
  try_ingest folder path =
      catch (do ingest_file folder path; pure [])
        (λ e. pure ((slashed (relpath (root_of folder) path) ++ (codes ": " ++ message e)) ∷ []))

  unfoldable pub scan_file : WatchFolder → FilePath → Action (List Text)
  scan_file folder path = do
    stable ← is_stable path
    if stable then try_ingest folder path else pure []

  -- The loop over the candidates.
  unfoldable pub scan_files : WatchFolder → List FilePath → Action (List Text)
  scan_files folder [] = pure []
  scan_files folder (path ∷ paths) = do
    errors ← scan_file folder path
    more ← scan_files folder paths
    pure (errors ++ more)

  -- `scan_watch_folder` once the folder is known to be enabled.
  unfoldable pub scan_enabled :
      WatchFolder → (watch_folder_id organization_id : ℕ) → Action (Unit {0})
  scan_enabled folder watch_folder_id organization_id = do
    paths ← gets (λ w. candidate_files (root_of folder) w.files)
    errors ← scan_files folder paths
    record_scan watch_folder_id organization_id errors

  abbrev pub scan_found :
      Option WatchFolder → (watch_folder_id organization_id : ℕ) → Action (Unit {0})
  scan_found none watch_folder_id organization_id = pure tt
  scan_found (some folder) watch_folder_id organization_id =
      if folder.enabled then scan_enabled folder watch_folder_id organization_id else pure tt

  unfoldable pub scan_watch_folder : (watch_folder_id organization_id : ℕ) → Action (Unit {0})
  scan_watch_folder watch_folder_id organization_id = do
    found ← get_org_session organization_id λ s. get_watch_folder s organization_id watch_folder_id
    scan_found found watch_folder_id organization_id

-- The enabled folders of all Organizations.
unfoldable pub enabled_folders : Db → List (ℕ × ℕ)
enabled_folders db = map (λ f. (f.id, f.organization_id)) (filter (λ f. f.enabled) db.watch_folders)

abbrev pub scan_task : ℕ × ℕ → Task
scan_task (watch_folder_id, organization_id) =
    scan_watch_folder_task watch_folder_id organization_id

-- A dispatch that fails is logged and passed over.
unfoldable pub dispatch_scans : List (ℕ × ℕ) → Action (Unit {0})
dispatch_scans [] = pure tt
dispatch_scans (f ∷ fs) = do catch (delay (scan_task f)) (λ _. pure tt); dispatch_scans fs

unfoldable pub scan_watch_folders : Action (Unit {0})
scan_watch_folders = do
  rows ← get_readonly_session λ s. gets_db enabled_folders
  dispatch_scans rows
