-- ===== src/Watch/Scan.antt =====
-- A scan of a directory: what it adds to the tables, and how it can end.
use meeting_mgr.Base.{
  ℕ, ◌≡◌, refl, sym, ap, ap₂, ◌∙◌, subst, ◌⊎◌, inl, inr, Bool, true, false, Option, some, List, [],
  ◌∷◌, ◌++◌, map, arith, if◌then◌else◌, All, append_assoc, append_nil, All-append, map-append,
}
use meeting_mgr.Base.Text.{Text, codes}
use meeting_mgr.Models.{Meeting, Recording, WatchFolder, pending}
use meeting_mgr.Db.State.{Db, FilePath, File, World, Exc, Result, os_error, ok, err}
use meeting_mgr.Db.Action.{Action, pure, ◌>>=◌, catch}
use meeting_mgr.Db.Laws.{after}
use meeting_mgr.Files.{stat, relpath, slashed}
use meeting_mgr.Watch.{quiet_since, on_not_found, is_stable, root_of, ingest_file}
use meeting_mgr.Files.Frames.{after_os, find_file_outcome}
use meeting_mgr.Watch.Ingest.{folder_meeting, folder_recording}
use meeting_mgr.Watch.Whole.{ingest-IsWhole}
use meeting_mgr.Watch.Scanning.{try_ingest, scan_file, scan_files}

-- The row of a watched directory's Meeting.
abbrev pub IsOfFolder : WatchFolder → Meeting → Type 0
IsOfFolder folder m =
    (m.organization_id ≡ folder.organization_id)
    × (m.owner_account_id ≡ some folder.owner_account_id)
    × (m.status ≡ pending)

-- Meetings of the folder have been added, each with its Recording, and no other row has changed.
pub record Grown (folder : WatchFolder) (w v : World) : Type 0 where
  pub meetings : List Meeting
  pub recordings : List Recording
  pub db : v.db ≡ record w.db {
    meetings = w.db.meetings ++ meetings;
    recordings = w.db.recordings ++ recordings;
  }
  pub own : All (IsOfFolder folder) meetings
  pub paired :
      map (λ (r : Recording). r.meeting_id) recordings ≡ map (λ (m : Meeting). m.id) meetings

-- The tables with more Meetings and Recordings.
abbrev with_more : List Meeting → List Recording → Db → Db
with_more ms rs db = record db { meetings = db.meetings ++ ms; recordings = db.recordings ++ rs }

Grown-same : (folder : WatchFolder) (w v : World) → v.db ≡ w.db → Grown folder w v
Grown-same folder w v e = record {
  meetings = [];
  recordings = [];
  db =
      e
      ∙ ap₂ (λ ms rs. record w.db { meetings = ms; recordings = rs })
          (sym (append_nil w.db.meetings)) (sym (append_nil w.db.recordings));
  own = tt;
  paired = refl;
}

Grown-trans :
    (folder : WatchFolder) (w v u : World) → Grown folder w v → Grown folder v u → Grown folder w u
Grown-trans folder w v u g h = record {
  meetings = g.meetings ++ h.meetings;
  recordings = g.recordings ++ h.recordings;
  db =
      h.db
      ∙ ap (with_more h.meetings h.recordings) g.db
      ∙ ap₂ (λ ms rs. record w.db { meetings = ms; recordings = rs })
          (append_assoc w.db.meetings g.meetings h.meetings)
          (append_assoc w.db.recordings g.recordings h.recordings);
  own = All-append (IsOfFolder folder) g.meetings h.meetings g.own h.own;
  paired =
      map-append (λ (r : Recording). r.meeting_id) g.recordings h.recordings
      ∙ ap₂ (◌++◌) g.paired h.paired
      ∙ sym (map-append (λ (m : Meeting). m.id) g.meetings h.meetings);
}

ingest-Grown :
    (folder : WatchFolder) (path : FilePath) (w : World)
    → Grown folder w (ingest_file folder path w).1
ingest-Grown folder path w = elim (ingest-IsWhole folder path w) [
  | inl p ↦ Grown-same folder w (ingest_file folder path w).1 p.0
  | inr p ↦ record {
    meetings = folder_meeting folder path w ∷ [];
    recordings = folder_recording path w ∷ [];
    db = p.0;
    own = ((refl, refl, refl), tt);
    paired = refl;
  }
]

pub is_stable_outcome :
    (path : FilePath) (w : World)
    → ((b : Bool) × (is_stable path w ≡ (ok b, after_os w)))
      ⊎ (is_stable path w ≡ (err os_error, after_os w))
unfolding is_stable stat
is_stable_outcome path w =
    let k = λ (r : Result File × World).
      catch (λ _. after r (λ file v. (ok (quiet_since v.now file), v))) (on_not_found false) w in
    elim (find_file_outcome path w) [
      | inl (f, _, e) ↦ inl (quiet_since w.now f, ap k e)
      | inr (x, inl n, e) ↦ inr (ap k e ∙ ap (λ y. k (err y, after_os w)) n)
      | inr (x, inr n, e) ↦ inl (false, ap k e ∙ ap (λ y. k (err y, after_os w)) n)
    ]

module _ (message : Exc → Text) (folder : WatchFolder) where
  -- More rows of the folder, and a list of errors or a failed look at a file.
  abbrev pub Scanned : World → Result (List Text) × World → Type 0
  Scanned w r =
      Grown folder w r.1 × (((errors : List Text) × (r.0 ≡ ok errors)) ⊎ (r.0 ≡ err os_error))

  tried :
      (text : Exc → List Text) (w : World) (r : Result (Option ℕ) × World)
      → Grown folder w r.1
      → Scanned w (catch (λ _. after r (λ _. pure [])) (λ e. pure (text e)) w)
  tried text w (ok a, v) g = (g, inl ([], refl))
  tried text w (err e, v) g = (g, inl (text e, refl))

  try_ingest-Scanned : (path : FilePath) (w : World) → Scanned w (try_ingest message folder path w)
  unfolding try_ingest
  try_ingest-Scanned path w =
      tried (λ e. (slashed (relpath (root_of folder) path) ++ (codes ": " ++ message e)) ∷ []) w
        (ingest_file folder path w) (ingest-Grown folder path w)

  same-Grown : (w : World) → Grown folder w (after_os w)
  same-Grown w = Grown-same folder w (after_os w) refl

  chosen :
      (b : Bool) (path : FilePath) (w : World)
      → Scanned w ((if b then try_ingest message folder path else pure []) (after_os w))
  chosen true path w =
      let (g, o) = try_ingest-Scanned path (after_os w) in
      (Grown-trans folder w (after_os w) _ (same-Grown w) g, o)
  chosen false path w = (same-Grown w, inl ([], refl))

  scan_file-Scanned : (path : FilePath) (w : World) → Scanned w (scan_file message folder path w)
  unfolding scan_file
  scan_file-Scanned path w =
      let k = λ (r : Result Bool × World).
        after r (λ b. if b then try_ingest message folder path else pure []) in
      elim (is_stable_outcome path w) [
        | inl (b, e) ↦ subst (λ r. Scanned w (k r)) (sym e) (chosen b path w)
        | inr e ↦ subst (λ r. Scanned w (k r)) (sym e) (same-Grown w, inr refl)
      ]

  more :
      (errors : List Text) (w : World) (r : Result (List Text) × World)
      → Scanned w r
      → Scanned w (after r (λ more. pure (errors ++ more)))
  more errors w (ok fs, v) (g, o) = (g, inl (errors ++ fs, refl))
  more errors w (err e, v) (g, inl (fs, o)) = cc
  more errors w (err e, v) (g, inr o) = (g, inr (ground (arith, o)))

  and_then :
      (rest : Action (List Text)) (w : World) (r : Result (List Text) × World)
      → Scanned w r
      → ((v : World) → Scanned v (rest v))
      → Scanned w (after r (λ errors. rest >>= λ more. pure (errors ++ more)))
  and_then rest w (ok errors, v) (g, o) h =
      let (g', o') = more errors v (rest v) (h v) in (Grown-trans folder w v _ g g', o')
  and_then rest w (err e, v) (g, inl (fs, o)) h = cc
  and_then rest w (err e, v) (g, inr o) h = (g, inr (ground (arith, o)))

  -- The loop only adds Meetings of the folder, each with its Recording, and ends at the last file or
  -- with a failed look at a file.
  pub scan_files-Scanned :
      (paths : List FilePath) (w : World) → Scanned w (scan_files message folder paths w)
  unfolding scan_files
  scan_files-Scanned [] w = (Grown-same folder w w refl, inl ([], refl))
  scan_files-Scanned (path ∷ paths) w =
      and_then (scan_files message folder paths) w (scan_file message folder path w)
        (scan_file-Scanned path w) (scan_files-Scanned paths)
