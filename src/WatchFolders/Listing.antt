-- ===== src/WatchFolders/Listing.antt =====
-- What the listing shows of a write.
use meeting_mgr.Base.{ℕ, ◌≡◌, sym, ap, ◌∙◌, subst, true, List, [], ◌∷◌, map, ◌==◌, filter, any}
use meeting_mgr.Base.Text.{Text, text_eq}
use meeting_mgr.Models.{Account, WatchFolder}
use meeting_mgr.Db.State.{World, ok}
use meeting_mgr.Db.Action.{gets, ◌>>=◌, gets_db}
use meeting_mgr.Db.Session.{get_readonly_org_session, watch_folders, tenant}
use meeting_mgr.Db.Laws.{after}
use meeting_mgr.WatchFolders.{
  list_watch_folders, at_path, View, view, admin_only, read_watch_folders, WatchFolderIn,
  write_watch_folder,
}
use meeting_mgr.Authz.{role_eq}
use meeting_mgr.Authz.Roles.{require_role-allowed}
use meeting_mgr.WatchFolders.Views.{IsAccepted, write-IsAccepted}
use meeting_mgr.Base.Updates.{filter-filter_of, filter-filter, filter-map}

listed_at :
    (now org : ℕ) (root_path : Text) (fs : List WatchFolder) {f : WatchFolder}
    → filter (at_path org root_path) fs ≡ f ∷ []
    → filter
        (λ (x : View). text_eq x.root_path root_path)
        (map (view now) (
          filter
            (λ (g : WatchFolder). g.organization_id == org)
            (filter (λ (g : WatchFolder). g.organization_id == org) fs)))
      ≡ view now f ∷ []
unfolding view
listed_at now org root_path fs h =
    let own = λ (g : WatchFolder). g.organization_id == org in
    filter-map (λ (x : View). text_eq x.root_path root_path) (view now) (filter own (filter own fs))
    ∙ ap (λ gs. map (view now) (filter (λ (g : WatchFolder). text_eq g.root_path root_path) gs))
        (filter-filter_of own own (λ g e. e) fs)
    ∙ ap (map (view now))
        (filter-filter (λ (g : WatchFolder). text_eq g.root_path root_path) own fs ∙ h)

read_by_admin :
    (reader : Account) (w : World)
    → any (role_eq reader.role) admin_only ≡ true
    → read_watch_folders reader w ≡ (
      ok (
          map (view w.now) (
            filter
              (λ (g : WatchFolder). g.organization_id == reader.organization_id)
              (watch_folders (tenant reader.organization_id) w.db))),
      w,
    )
unfolding read_watch_folders list_watch_folders
read_by_admin reader w h =
    let listing = get_readonly_org_session reader.organization_id λ s.
      gets_db (λ db.
        filter (λ (f : WatchFolder). f.organization_id == reader.organization_id)
          (watch_folders s db))
      >>= λ folders. gets (λ v. map (view v.now) folders) in
    ap (λ r. after r (λ _. listing)) (require_role-allowed reader admin_only w h)

-- A write of a watched directory that returns had an absolute path and an owner of the
-- Organization, and left other Organizations' folders alone; the listing for an admin of the
-- Organization after it returns and shows the reply as its one entry of the path.
pub write_then_read :
    (body : WatchFolderIn) (account reader : Account) (reply : View) (w v : World)
    → write_watch_folder body account w ≡ (ok reply, v)
    → any (role_eq reader.role) admin_only ≡ true
    → reader.organization_id ≡ account.organization_id
    → IsAccepted body account reply w v
      × ((views : List View) × (read_watch_folders reader v ≡ (ok views, v))
          × (filter (λ (x : View). text_eq x.root_path body.root_path) views ≡ reply ∷ []))
write_then_read body account reader reply w v h may same =
    let i = write-IsAccepted body account reply w v h in
    let row =
      subst (λ o. filter (at_path o body.root_path) v.db.watch_folders ≡ i.folder ∷ []) (sym same)
        i.written.row in
    (
      i,
      (
        _,
        read_by_admin reader v may,
        listed_at v.now reader.organization_id body.root_path v.db.watch_folders row
            ∙ ap (λ (x : View). x ∷ []) (sym i.replied),
      ),
    )
