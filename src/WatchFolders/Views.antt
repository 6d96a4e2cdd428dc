-- ===== src/WatchFolders/Views.antt =====
-- A write of a watched directory, and the listing after it.
use meeting_mgr.Base.{
  ℕ, String, ◌≡◌, refl, sym, ap, ◌∙◌, subst, Bool, true, false, not, Option, none, some, arith,
  ◌==◌, ==_iff, filter, find,
}
use meeting_mgr.Base.Text.{Text}
use meeting_mgr.Models.{Account, Target, Detail, WatchFolder, watch_folder_target, folder_detail}
use meeting_mgr.Db.State.{Db, World, Result, ok}
use meeting_mgr.Db.Action.{Action, gets, ◌>>=◌, ◌>>◌, raise_if, gets_db}
use meeting_mgr.Db.Session.{Session, get_org_session, accounts, tenant}
use meeting_mgr.Db.Rows.{record_audit}
use meeting_mgr.Db.Laws.{settle_ok, ok_eq}
use meeting_mgr.WatchFolders.{
  at_path, upsert_watch_folder, View, view, admin_only, WatchFolderIn, not_absolute, foreign_owner,
  is_foreign, write_watch_folder,
}
use meeting_mgr.Authz.Roles.{require_role_ok}
use meeting_mgr.Authz.{require_role}
use meeting_mgr.Db.Frames.{bind_ok, raise_if_ok}
use meeting_mgr.WatchFolders.Writes.{IsWritten, upsert-IsWritten}
use meeting_mgr.Files.{is_abs}

audit_keeps :
    (s : Session) (org : ℕ) (actor : Option ℕ) (action : String) (target : Target) (entry : Detail)
    (w : World)
    → let v = (record_audit s org actor action target entry w).1 in
      (v.db.watch_folders ≡ w.db.watch_folders) × (v.now ≡ w.now)
unfolding record_audit
audit_keeps s org actor action target entry w = (ground arith, ground arith)

-- What a write that returns has checked and left.
pub record IsAccepted (body : WatchFolderIn) (account : Account) (reply : View) (w v : World)
    : Type 0 where
  pub absolute : is_abs body.root_path ≡ true
  pub owner : Account
  pub owner_there :
      find (λ a. a.id == body.owner_account_id) (accounts (tenant account.organization_id) w.db)
      ≡ some owner
  pub owner_own : owner.organization_id ≡ account.organization_id
  pub folder : WatchFolder
  pub written :
      IsWritten account.organization_id body.root_path body.owner_account_id body.enabled folder w v
  pub replied : reply ≡ view v.now folder

own_owner :
    (account : Account) (o : Option Account)
    → is_foreign account o ≡ false
    → (owner : Account) × (o ≡ some owner) × (owner.organization_id ≡ account.organization_id)
own_owner account none h = cc
own_owner account (some owner) h =
    (owner, refl, ground (arith, h, ==_iff owner.organization_id account.organization_id))

after_audit :
    {org : ℕ} {root_path : Text} {owner : ℕ} {enabled : Bool} {f : WatchFolder} {w x y : World}
    → IsWritten org root_path owner enabled f w x
    → y.db.watch_folders ≡ x.db.watch_folders
    → y.now ≡ x.now
    → IsWritten org root_path owner enabled f w y
after_audit {org} {root_path} i e n = record {
  row = ap (filter (at_path org root_path)) e ∙ i.row;
  owner_set = i.owner_set;
  enabled_set = i.enabled_set;
  others_same =
      λ o h. ap (filter (λ (g : WatchFolder). g.organization_id == o)) e ∙ i.others_same o h;
  now_same = n ∙ i.now_same;
}

module _ (body : WatchFolderIn) (account : Account) where
  abbrev upsert : Action WatchFolder
  upsert =
      upsert_watch_folder (tenant account.organization_id) account.organization_id body.root_path
        body.owner_account_id body.enabled

  abbrev audit : WatchFolder → Action (Unit {0})
  audit folder =
      record_audit (tenant account.organization_id) account.organization_id (some account.id)
        "watch_folder.update" (watch_folder_target folder.id)
        (folder_detail body.root_path body.owner_account_id body.enabled)

  abbrev owner_of : Db → Option Account
  owner_of db =
      find (λ a. a.id == body.owner_account_id) (accounts (tenant account.organization_id) db)

  -- The session of a write.
  accepted :
      (reply : View) (w v : World)
      → is_abs body.root_path ≡ true
      → (raise_if (is_foreign account (owner_of w.db)) foreign_owner
            >> (upsert >>= λ folder. audit folder >> gets (λ u. view u.now folder)))
          w
        ≡ (ok reply, v)
      → IsAccepted body account reply w v
  accepted reply w v absolute h =
      let (a, w', e, h') =
        bind_ok (raise_if (is_foreign account (owner_of w.db)) foreign_owner)
          (λ _. upsert >>= λ folder. audit folder >> gets (λ u. view u.now folder)) w h in
      let (own, same) = raise_if_ok (is_foreign account (owner_of w.db)) foreign_owner w e in
      let (owner, there_is, its) = own_owner account (owner_of w.db) own in
      let (f, x, run, h'') =
        bind_ok upsert (λ folder. audit folder >> gets (λ u. view u.now folder)) w' h' in
      let (b, y, done_, last) = bind_ok (audit f) (λ _. gets (λ u. view u.now f)) x h'' in
      let i : IsWritten account.organization_id body.root_path body.owner_account_id body.enabled f
          w x =
        subst
          (λ z.
            IsWritten account.organization_id body.root_path body.owner_account_id body.enabled f z
              x)
          same
          (upsert-IsWritten account.organization_id body.root_path body.owner_account_id
            body.enabled w' x f run) in
      let k =
        audit_keeps (tenant account.organization_id) account.organization_id (some account.id)
          "watch_folder.update" (watch_folder_target f.id)
          (folder_detail body.root_path body.owner_account_id body.enabled) x in
      let (replied, same') = ok_eq refl last in
      let folders : v.db.watch_folders ≡ x.db.watch_folders =
        ap (λ (z : World). z.db.watch_folders) (sym same')
        ∙ ap (λ (r : Result (Unit {0}) × World). r.1.db.watch_folders) (sym done_)
        ∙ k.0 in
      let clock : v.now ≡ x.now =
        ap (λ (z : World). z.now) (sym same')
        ∙ ap (λ (r : Result (Unit {0}) × World). r.1.now) (sym done_)
        ∙ k.1 in
      record {
        absolute = absolute;
        owner = owner;
        owner_there = there_is;
        owner_own = its;
        folder = f;
        written = after_audit i folders clock;
        replied = sym replied ∙ ap (λ (z : World). view z.now f) same';
      }

  -- A write that returns.
  pub write-IsAccepted :
      (reply : View) (w v : World)
      → write_watch_folder body account w ≡ (ok reply, v)
      → IsAccepted body account reply w v
  unfolding write_watch_folder
  write-IsAccepted reply w v h =
      let session = get_org_session account.organization_id λ s. gets_db owner_of >>= λ owner.
      raise_if (is_foreign account owner) foreign_owner
      >> (upsert >>= λ folder. audit folder >> gets (λ u. view u.now folder)) in
      let (_, w', e, h') =
        bind_ok (require_role account admin_only)
          (λ _. raise_if (not (is_abs body.root_path)) not_absolute >> session) w h in
      let (_, w'', e', h'') =
        bind_ok (raise_if (not (is_abs body.root_path)) not_absolute) (λ _. session) w' h' in
      let (_, same) = require_role_ok account admin_only w e in
      let (absolute, same') = raise_if_ok (not (is_abs body.root_path)) not_absolute w' e' in
      let inner =
        settle_ok w''.db
          ((gets_db owner_of >>= λ owner.
              raise_if (is_foreign account owner) foreign_owner
              >> (upsert >>= λ folder. audit folder >> gets (λ u. view u.now folder)))
            w'')
          h'' in
      subst (λ z. IsAccepted body account reply z v) (same' ∙ same)
        (accepted reply w'' v (ground (arith, absolute)) inner)
