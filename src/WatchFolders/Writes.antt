-- ===== src/WatchFolders/Writes.antt =====
-- What an upsert of a watched directory leaves in the table.
use meeting_mgr.Base.{
  ℕ, suc, ◌≡◌, refl, sym, ap, ◌∙◌, subst, ◌≢◌, ◌⊎◌, inl, inr, Bool, true, false, ◌&&◌, none, List,
  [], ◌∷◌, ◌++◌, arith, ltb, ◌==◌, ==_iff, ==_refl, Bool-cases, length, filter, any, update_where,
  All, append_nil, All-filter, filter-append,
}
use meeting_mgr.Base.Text.{Text, text_eq_refl}
use meeting_mgr.Models.{WatchFolder}
use meeting_mgr.Db.State.{World, Exc, integrity_error, data_error, ok, err}
use meeting_mgr.Db.Action.{one_or_none}
use meeting_mgr.Db.Session.{sees_org, watch_folders, tenant}
use meeting_mgr.Db.Laws.{after, same_ok, err_not_ok}
use meeting_mgr.WatchFolders.{
  at_path, configure, insert_folder, update_folder, insert_or_update, upsert_watch_folder,
}
use meeting_mgr.Base.Updates.{
  filter-update_where, filter-filter_of, filter_of_none, update_where_of_none,
}

at_path_sees :
    (org : ℕ) (root_path : Text) (f : WatchFolder)
    → at_path org root_path f ≡ true
    → sees_org (tenant org) f.organization_id ≡ true
at_path_sees org root_path f h = ground (arith, h)

-- The row of the path is as asked for, it is the only one, and no row of another Organization has
-- changed.
pub record IsWritten (org : ℕ) (root_path : Text) (owner : ℕ) (enabled : Bool) (f : WatchFolder)
    (w v : World) : Type 0 where
  pub row : filter (at_path org root_path) v.db.watch_folders ≡ f ∷ []
  pub owner_set : f.owner_account_id ≡ owner
  pub enabled_set : f.enabled ≡ enabled
  pub others_same :
      (o : ℕ)
      → o ≢ org
      → filter (λ (g : WatchFolder). g.organization_id == o) v.db.watch_folders
        ≡ filter (λ g. g.organization_id == o) w.db.watch_folders
  pub now_same : v.now ≡ w.now

other_org : (o org : ℕ) → o ≢ org → (org == o) ≡ false
other_org o org h = ground (arith, ==_iff org o)

module _ (org : ℕ) (root_path : Text) (owner : ℕ) (enabled : Bool) where
  abbrev new_folder : World → WatchFolder
  new_folder w = record {
    id = w.next_id;
    organization_id = org;
    owner_account_id = owner;
    root_path = root_path;
    enabled = enabled;
    last_scan_at = none;
    last_scan_error = none;
    created_at = w.now;
  }

  abbrev appended : World → World
  appended w = record w {
    db = record w.db { watch_folders = w.db.watch_folders ++ new_folder w ∷ [] };
    next_id = suc w.next_id;
  }

  insert_outcome :
      (w : World)
      → ((any (at_path org root_path) w.db.watch_folders ≡ false)
          × (insert_folder (tenant org) org root_path owner enabled w
              ≡ (ok (new_folder w), appended w)))
        ⊎ ((e : Exc) × (u : World) × (insert_folder (tenant org) org root_path owner enabled w
              ≡ (err e, u)))
  unfolding insert_folder
  insert_outcome w = elim (Bool-cases (ltb 500 (length root_path))) [
    | inl t ↦ inr (data_error, record w { next_id = suc w.next_id }, rw t refl)
    | inr t ↦ elim (Bool-cases (any (at_path org root_path) w.db.watch_folders)) [
      | inl c ↦
          inr (integrity_error, record w { next_id = suc w.next_id }, rw (t, ==_refl org, c) refl)
      | inr c ↦ inl (c, rw (t, ==_refl org, c) refl)
    ]
  ]

  new_folder-IsWritten :
      (w : World)
      → any (at_path org root_path) w.db.watch_folders ≡ false
      → IsWritten org root_path owner enabled (new_folder w) w (appended w)
  new_folder-IsWritten w c = record {
    row =
        filter-append (at_path org root_path) w.db.watch_folders (new_folder w ∷ [])
        ∙ rw
            (
              filter_of_none (at_path org root_path) w.db.watch_folders c,
              ==_refl org,
              text_eq_refl root_path,
            )
            refl;
    owner_set = refl;
    enabled_set = refl;
    others_same = λ o h.
        filter-append (λ (g : WatchFolder). g.organization_id == o) w.db.watch_folders
          (new_folder w ∷ [])
        ∙ rw (other_org o org h)
            (append_nil (filter (λ (g : WatchFolder). g.organization_id == o) w.db.watch_folders));
    now_same = refl;
  }

  at_path_of_row :
      (fs : List WatchFolder) (f : WatchFolder)
      → filter (at_path org root_path) fs ≡ f ∷ []
      → (f.organization_id == org) ≡ true
  at_path_of_row fs f h =
      let q =
        (subst (All (λ g. at_path org root_path g ≡ true)) h
          (All-filter (at_path org root_path) fs)).0 in
      ground (arith, q)

  updated-IsWritten :
      (w : World) (f : WatchFolder)
      → filter (at_path org root_path) w.db.watch_folders ≡ f ∷ []
      → let r = update_folder (tenant org) f owner enabled w in
        IsWritten org root_path owner enabled (configure owner enabled f) w r.1
  unfolding update_folder
  updated-IsWritten w f h =
      let p = λ (g : WatchFolder). g.id == f.id && g.organization_id == org in
      record {
        row =
            filter-update_where (at_path org root_path) p (configure owner enabled) (λ g. refl)
              w.db.watch_folders
            ∙ ap (update_where p (configure owner enabled)) h
            ∙ rw (==_refl f.id, at_path_of_row w.db.watch_folders f h) refl;
        owner_set = refl;
        enabled_set = refl;
        others_same = λ o h.
            update_where_of_none (λ g. g.organization_id == o) p (configure owner enabled)
              (λ g e. ground (arith, h, e)) (λ g. refl) w.db.watch_folders;
        now_same = refl;
      }

  written :
      (w v : World) (f : WatchFolder) (rows : List WatchFolder)
      → filter (at_path org root_path) w.db.watch_folders ≡ rows
      → after (one_or_none rows w) (insert_or_update (tenant org) org root_path owner enabled)
        ≡ (ok f, v)
      → IsWritten org root_path owner enabled f w v
  unfolding update_folder
  written w v f [] e h = elim (insert_outcome w) [
    | inl (c, run) ↦
        same_ok (λ x u. IsWritten org root_path owner enabled x w u) run h
          (new_folder-IsWritten w c)
    | inr (x, u, run) ↦ absurd (err_not_ok run h)
  ]
  written w v f (g ∷ []) e h =
      same_ok (λ x u. IsWritten org root_path owner enabled x w u) refl h (updated-IsWritten w g e)
  written w v f (g ∷ g' ∷ r) e h = cc

  -- An upsert that returns.
  pub upsert-IsWritten :
      (w v : World) (f : WatchFolder)
      → upsert_watch_folder (tenant org) org root_path owner enabled w ≡ (ok f, v)
      → IsWritten org root_path owner enabled f w v
  unfolding upsert_watch_folder
  upsert-IsWritten w v f h =
      written w v f (filter (at_path org root_path) (watch_folders (tenant org) w.db))
        (sym (
          filter-filter_of (at_path org root_path) (λ (g : WatchFolder). g.organization_id == org)
            (at_path_sees org root_path) w.db.watch_folders))
        h
