-- ===== src/WatchFolders.antt =====
-- src/meeting_mgr/watch_folder.py and src/meeting_mgr/api/watch_folders.py: the table of watched
-- directories and the endpoints over it.
pub mod Writes
pub mod Views
pub mod Listing
use meeting_mgr.Base.{
  ℕ, ◌+◌, ◌*◌, Bool, true, not, ◌&&◌, Option, none, some, List, [], ◌∷◌, ◌++◌, map, ltb, ◌==◌,
  length, filter, any, update_where,
}
use meeting_mgr.Base.Text.{Text, text_eq}
use meeting_mgr.Models.{Role, Account, WatchFolder, admin, watch_folder_target, folder_detail}
use meeting_mgr.Db.State.{Exc, http, integrity_error, data_error}
use meeting_mgr.Db.Action.{
  Action, pure, gets, ◌>>=◌, ◌>>◌, raise_if, gets_db, modify_db, new_id, one_or_none,
}
use meeting_mgr.Db.Session.{
  Session, get_org_session, get_readonly_org_session, sees_org, watch_folders, get_account,
}
use meeting_mgr.Db.Rows.{check_row, record_audit}
use meeting_mgr.Db.Time.{seconds}
use meeting_mgr.Authz.{require_role}
use meeting_mgr.Files.{is_abs}

-- `filter_by(id=..., organization_id=...).one_or_none()`
unfoldable pub get_watch_folder :
    Session → (org_id watch_folder_id : ℕ) → Action (Option WatchFolder)
get_watch_folder s org_id watch_folder_id = do
  rows ← gets_db (λ db.
      filter (λ f. f.id == watch_folder_id && f.organization_id == org_id) (watch_folders s db))
  one_or_none rows

-- `order_by(id)`, the order of insertion, since ids grow.
unfoldable pub list_watch_folders : Session → (org_id : ℕ) → Action (List WatchFolder)
list_watch_folders s org_id =
    gets_db (λ db. filter (λ f. f.organization_id == org_id) (watch_folders s db))

abbrev pub at_path : (org_id : ℕ) → (root_path : Text) → WatchFolder → Bool
at_path org_id root_path f = f.organization_id == org_id && text_eq f.root_path root_path

abbrev pub configure : (owner_account_id : ℕ) → (enabled : Bool) → WatchFolder → WatchFolder
configure owner enabled f = record f { owner_account_id = owner; enabled = enabled }

-- The insert of a new row, under uq_watch_folder_org_path, with a path that fits a String(500).
unfoldable pub insert_folder :
    Session
    → (org_id : ℕ) → (root_path : Text) → (owner : ℕ) → (enabled : Bool) → Action WatchFolder
insert_folder s org_id root_path owner enabled = do
  id ← new_id
  now ← gets (λ w. w.now)
  raise_if (ltb 500 (length root_path)) data_error
  check_row (sees_org s org_id)
  clash ← gets_db (λ db. any (at_path org_id root_path) db.watch_folders)
  raise_if clash integrity_error
  let folder : WatchFolder = record {
    id = id;
    organization_id = org_id;
    owner_account_id = owner;
    root_path = root_path;
    enabled = enabled;
    last_scan_at = none;
    last_scan_error = none;
    created_at = now;
  }
  modify_db (λ db. record db { watch_folders = db.watch_folders ++ folder ∷ [] })
  pure folder

unfoldable pub update_folder :
    Session → WatchFolder → (owner : ℕ) → (enabled : Bool) → Action WatchFolder
update_folder s f owner enabled = do
  modify_db (λ db. record db {
    watch_folders =
        update_where (λ g. g.id == f.id && sees_org s g.organization_id) (configure owner enabled)
          db.watch_folders;
  })
  pure (configure owner enabled f)

abbrev pub insert_or_update :
    Session
    → (org_id : ℕ) → (root_path : Text) → (owner : ℕ) → (enabled : Bool) → Option WatchFolder
    → Action WatchFolder
insert_or_update s org_id root_path owner enabled none =
    insert_folder s org_id root_path owner enabled
insert_or_update s org_id root_path owner enabled (some f) = update_folder s f owner enabled

unfoldable pub upsert_watch_folder :
    Session
    → (org_id : ℕ) → (root_path : Text) → (owner : ℕ) → (enabled : Bool) → Action WatchFolder
upsert_watch_folder s org_id root_path owner enabled = do
  rows ← gets_db (λ db. filter (at_path org_id root_path) (watch_folders s db))
  found ← one_or_none rows
  insert_or_update s org_id root_path owner enabled found

-- pipeline/watch_config.py
abbrev pub scan_interval_seconds : ℕ
scan_interval_seconds = 300

-- `_STALLED_AFTER`
abbrev pub stalled_after : ℕ
stalled_after = seconds (2 * scan_interval_seconds)

-- `wf.last_scan_at or wf.created_at`
abbrev pub reference : WatchFolder → ℕ
reference f = elim f.last_scan_at [ none ↦ f.created_at | some t ↦ t ]

-- `_view`
pub record View : Type 0 where
  pub id : ℕ
  pub root_path : Text
  pub owner_account_id : ℕ
  pub enabled : Bool
  pub last_scan_at : Option ℕ
  pub last_scan_error : Option Text
  pub stalled : Bool

unfoldable pub view : ℕ → WatchFolder → View
view now f = record {
  id = f.id;
  root_path = f.root_path;
  owner_account_id = f.owner_account_id;
  enabled = f.enabled;
  last_scan_at = f.last_scan_at;
  last_scan_error = f.last_scan_error;
  stalled = f.enabled && ltb (reference f + stalled_after) now;
}

-- `_ADMIN_ONLY`
abbrev pub admin_only : List Role
admin_only = admin ∷ []

unfoldable pub read_watch_folders : Account → Action (List View)
read_watch_folders account = do
  require_role account admin_only
  get_readonly_org_session account.organization_id λ s. do
    folders ← list_watch_folders s account.organization_id
    gets (λ w. map (view w.now) folders)

pub record WatchFolderIn : Type 0 where
  pub root_path : Text
  pub owner_account_id : ℕ
  pub enabled : Bool

abbrev pub not_absolute : Exc
not_absolute = http 422 "root_path must be an absolute path"

abbrev pub foreign_owner : Exc
foreign_owner = http 422 "owner_account_id must belong to your organization"

-- `owner is None or owner.organization_id != account.organization_id`
abbrev pub is_foreign : Account → Option Account → Bool
is_foreign account none = true
is_foreign account (some owner) = not (owner.organization_id == account.organization_id)

unfoldable pub write_watch_folder : WatchFolderIn → Account → Action View
write_watch_folder body account = do
  require_role account admin_only
  raise_if (not (is_abs body.root_path)) not_absolute
  get_org_session account.organization_id λ s. do
    owner ← get_account s body.owner_account_id
    raise_if (is_foreign account owner) foreign_owner
    folder ←
        upsert_watch_folder s account.organization_id body.root_path body.owner_account_id
          body.enabled
    record_audit s account.organization_id (some account.id) "watch_folder.update"
        (watch_folder_target folder.id)
        (folder_detail body.root_path body.owner_account_id body.enabled)
    gets (λ w. view w.now folder)
