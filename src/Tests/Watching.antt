-- ===== src/Tests/Watching.antt =====
-- A watched directory with two files, one of them still being written.
use meeting_mgr.Base.{◌≡◌, refl, true, false, none, List, [], ◌∷◌, filter}
use meeting_mgr.Base.Text.{Text, codes, text_eq, starts_with}
use meeting_mgr.Models.{WatchFolder, admin, member}
use meeting_mgr.Db.State.{FilePath, World, Exc, ok}
use meeting_mgr.Db.Rows.{record_audit}
use meeting_mgr.Db.Time.{days}
use meeting_mgr.Tests.Samples.{sample_account, empty_db, sample_world}
use meeting_mgr.Files.{split_names, path_of}
use meeting_mgr.Watch.{ingest_file, below, in_plain_dirs, is_candidate}
use meeting_mgr.Watch.Whole.{IsWhole, ingest-IsWhole}
use meeting_mgr.Watch.Leaving.{IsLeft, ingest_leaves}
use meeting_mgr.Watch.Heartbeat.{Reported, scan_reports}
use meeting_mgr.WatchFolders.{
  insert_folder, upsert_watch_folder, View, view, read_watch_folders, WatchFolderIn,
  write_watch_folder,
}
use meeting_mgr.WatchFolders.Views.{IsAccepted}
use meeting_mgr.WatchFolders.Listing.{write_then_read}
use meeting_mgr.Authz.{require_role}
use meeting_mgr.Watch.Scanning.{scan_watch_folder}

abbrev folder : WatchFolder
folder = record {
  id = 4;
  organization_id = 1;
  owner_account_id = 2;
  root_path = codes "/in";
  enabled = true;
  last_scan_at = none;
  last_scan_error = none;
  created_at = 0;
}

abbrev call_path : FilePath
call_path = codes "in" ∷ codes "call.wav" ∷ []

abbrev watched : World
watched =
    record (sample_world
      (record empty_db {
        watch_folders = folder ∷ [];
        accounts = sample_account 2 member ∷ sample_account 3 admin ∷ [];
      })
      [] []) {
        files =
            record { path = call_path; content = 1 ∷ 2 ∷ []; mtime = 0 }
            ∷ record { path = codes "in" ∷ codes "b.wav" ∷ []; content = []; mtime = days 100 }
            ∷ [];
      }

ingest-IsWhole_example : IsWhole folder call_path watched (ingest_file folder call_path watched)
ingest-IsWhole_example = ingest-IsWhole folder call_path watched

ingest_leaves_example : IsLeft folder call_path watched.files (ingest_file folder call_path watched)
unfolding is_candidate below in_plain_dirs path_of split_names text_eq starts_with
ingest_leaves_example = ingest_leaves folder call_path watched refl refl

abbrev shown : Exc → Text
shown e = codes "failed"

scan_reports_example : Reported 4 1 folder watched (scan_watch_folder shown 4 1 watched)
scan_reports_example = scan_reports 4 1 shown folder watched refl refl

abbrev registration : WatchFolderIn
registration = record { root_path = codes "/new"; owner_account_id = 2; enabled = true }

abbrev registered : View
registered = record {
  id = 50;
  root_path = codes "/new";
  owner_account_id = 2;
  enabled = true;
  last_scan_at = none;
  last_scan_error = none;
  stalled = false;
}

abbrev after_write : World
after_write = (write_watch_folder registration (sample_account 3 admin) watched).1

write_then_read_example :
    IsAccepted registration (sample_account 3 admin) registered watched after_write
    × ((views : List View) × (read_watch_folders (sample_account 3 admin) after_write
          ≡ (ok views, after_write))
        × (filter (λ (x : View). text_eq x.root_path (codes "/new")) views ≡ registered ∷ []))
unfolding write_watch_folder require_role upsert_watch_folder insert_folder record_audit view
    text_eq starts_with
write_then_read_example =
    write_then_read registration (sample_account 3 admin) (sample_account 3 admin) registered
      watched after_write refl refl refl
