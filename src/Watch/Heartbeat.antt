-- ===== src/Watch/Heartbeat.antt =====
-- What a scan tells of itself in the folder's row.
use meeting_mgr.Base.{
  ℕ, ◌≡◌, refl, sym, ap, ◌∙◌, subst, ◌⊎◌, inl, inr, Bool, true, false, ◌&&◌, Option, some, List, [],
  ◌∷◌, ◌++◌, map, arith, ◌==◌, if◌then◌else◌, Bool-cases, filter, find, update_where, All,
}
use meeting_mgr.Base.Text.{Text}
use meeting_mgr.Models.{Meeting, Recording, WatchFolder}
use meeting_mgr.Db.State.{Db, World, Exc, Result, os_error, data_error, ok, err}
use meeting_mgr.Db.Action.{pure, one_or_none}
use meeting_mgr.Db.Session.{settle, sees_org, watch_folders, tenant}
use meeting_mgr.Db.Laws.{after}
use meeting_mgr.Watch.{root_of, candidate_files}
use meeting_mgr.WatchFolders.{get_watch_folder}
use meeting_mgr.Watch.Scan.{IsOfFolder, Scanned, scan_files-Scanned}
use meeting_mgr.Watch.Scanning.{
  error_text, too_long, heartbeat, record_scan, scan_files, scan_enabled, scan_found,
  scan_watch_folder,
}

dropped :
    (p : WatchFolder → Bool) (x : WatchFolder) (fs : List WatchFolder)
    → p x ≡ false
    → filter p (x ∷ fs) ≡ filter p fs
dropped p x fs e = rw e refl

find_of_filter :
    (p q : WatchFolder → Bool)
    → ((f : WatchFolder) → p f ≡ true → q f ≡ true)
    → (fs : List WatchFolder) {f : WatchFolder} {rest : List WatchFolder} → filter p fs ≡ f ∷ rest
    → (g : WatchFolder) × (find q fs ≡ some g)
find_of_filter p q h [] e = cc
find_of_filter p q h (x ∷ fs) e = elim (Bool-cases (q x)) [
  | inl t ↦ (x, rw t refl)
  | inr t ↦
      let fresh : p x ≡ false = elim (Bool-cases (p x)) [
        | inl s ↦ absurd (ground (arith, h x s, t))
        | inr s ↦ s
      ] in
      let (g, k) = find_of_filter p q h fs (sym (dropped p x fs fresh) ∙ e) in (g, rw t k)
]

abbrev row_of : ℕ → ℕ → WatchFolder → Bool
row_of id org f = f.id == id && f.organization_id == org

-- The table after a heartbeat.
abbrev pub beaten : (id org now : ℕ) → Option Text → List WatchFolder → List WatchFolder
beaten id org now error fs =
    update_where (λ f. f.id == id && sees_org (tenant org) f.organization_id) (heartbeat now error)
      fs

module _ (id org : ℕ) where
  -- The ends of a scan: a heartbeat that fits, or a failed look at a file, or a text that is too
  -- long for the column; without a heartbeat the table is as it was.
  abbrev pub IsBeaten : World → Result (Unit {0}) × World → Type 0
  IsBeaten w r =
      ((error : Option Text) × (too_long error ≡ false)
        × (r.0 ≡ ok tt)
        × (r.1.db.watch_folders ≡ beaten id org r.1.now error w.db.watch_folders))
      ⊎ (((r.0 ≡ err os_error)
            ⊎ ((errors : List Text) × (too_long (error_text errors) ≡ true)
                × (r.0 ≡ err data_error)))
          × (r.1.db.watch_folders ≡ w.db.watch_folders))

  recorded :
      (errors : List Text) (g : WatchFolder) (w : World)
      → find (λ f. f.id == id) (watch_folders (tenant org) w.db) ≡ some g
      → IsBeaten w (record_scan id org errors w)
        × ((record_scan id org errors w).1.db
            ≡ record w.db { watch_folders = (record_scan id org errors w).1.db.watch_folders })
  unfolding record_scan
  recorded errors g w h = elim (Bool-cases (too_long (error_text errors))) [
    | inl t ↦ rw (h, t) (inr (inr (errors, t, refl), refl), refl)
    | inr t ↦ rw (h, t) (inl (error_text errors, t, refl, refl), refl)
  ]

  -- The rows that a scan has added, and the folder's own row.
  pub record Reported (folder : WatchFolder) (w : World) (r : Result (Unit {0}) × World)
      : Type 0 where
    pub meetings : List Meeting
    pub recordings : List Recording
    pub db : r.1.db ≡ record w.db {
      meetings = w.db.meetings ++ meetings;
      recordings = w.db.recordings ++ recordings;
      watch_folders = r.1.db.watch_folders;
    }
    pub own : All (IsOfFolder folder) meetings
    pub paired :
        map (λ (r : Recording). r.meeting_id) recordings ≡ map (λ (m : Meeting). m.id) meetings
    pub heartbeat : IsBeaten w r

  module _ (message : Exc → Text) where
    scanned :
        (folder : WatchFolder) (g : WatchFolder) (w : World) (r : Result (List Text) × World)
        → find (λ f. f.id == id) (watch_folders (tenant org) w.db) ≡ some g
        → Scanned message folder w r
        → Reported folder w (after r (record_scan id org))
    scanned folder g w (ok errors, v) h (grown, o) =
        let same : v.db.watch_folders ≡ w.db.watch_folders =
          ap (λ (d : Db). d.watch_folders) grown.db in
        let sees = λ (fs : List WatchFolder).
          find (λ (f : WatchFolder). f.id == id)
            (filter (λ (f : WatchFolder). f.organization_id == org) fs) in
        let (beat, only) = recorded errors g v (ap sees same ∙ h) in
        record {
          meetings = grown.meetings;
          recordings = grown.recordings;
          db =
              only
              ∙ ap
                  (λ (d : Db). record d {
                    watch_folders = (record_scan id org errors v).1.db.watch_folders;
                  })
                  grown.db;
          own = grown.own;
          paired = grown.paired;
          heartbeat =
              subst
                (λ fs.
                  IsBeaten (record w { db = record w.db { watch_folders = fs } })
                    (record_scan id org errors v))
                same beat;
        }
    scanned folder g w (err e, v) h (grown, inl (_, o)) = cc
    scanned folder g w (err e, v) h (grown, inr o) =
        let same : v.db.watch_folders ≡ w.db.watch_folders =
          ap (λ (d : Db). d.watch_folders) grown.db in
        record {
          meetings = grown.meetings;
          recordings = grown.recordings;
          db =
              grown.db
              ∙ ap
                  (λ fs. record w.db {
                    meetings = w.db.meetings ++ grown.meetings;
                    recordings = w.db.recordings ++ grown.recordings;
                    watch_folders = fs;
                  })
                  (sym same);
          own = grown.own;
          paired = grown.paired;
          heartbeat = inr (inl (ground (arith, o)), same);
        }

    -- A scan of an enabled folder only adds Meetings of the folder, each with its Recording; it
    -- returns with the heartbeat and an error text of at most 2000 characters in the folder's row,
    -- or the row is as it was and the scan raises: an OSError of a look at a file, or the
    -- database's error at a longer text.
    pub scan_reports :
        (folder : WatchFolder) (w : World)
        → filter (row_of id org) (watch_folders (tenant org) w.db) ≡ folder ∷ []
        → folder.enabled ≡ true
        → Reported folder w (scan_watch_folder message id org w)
    unfolding scan_watch_folder get_watch_folder scan_enabled
    scan_reports folder w h on =
        let (g, k') =
          find_of_filter (row_of id org) (λ f. f.id == id) (λ f e. ground (arith, e))
            (watch_folders (tenant org) w.db) h in
        let k = λ (rows : List WatchFolder).
          after (settle w.db (one_or_none rows w)) (λ found. scan_found message found id org) in
        subst (λ rows. Reported folder w (k rows)) (sym h)
          (subst
            (λ b. Reported folder w ((if b then scan_enabled message folder id org else pure tt) w))
            (sym on)
            (scanned folder g w
              (scan_files message folder (candidate_files (root_of folder) w.files) w) k'
              (scan_files-Scanned message folder (candidate_files (root_of folder) w.files) w)))
