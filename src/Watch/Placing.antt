-- ===== src/Watch/Placing.antt =====
-- Where an ingest leaves the file, while no other program touches the disk.
use meeting_mgr.Base.{
  ℕ, ◌≡◌, refl, sym, ap, ◌∙◌, subst, ◌⊎◌, inl, inr, some, [], ◌∷◌, ◌++◌, arith, Bool-cases,
}
use meeting_mgr.Base.Text.{Text}
use meeting_mgr.Models.{WatchFolder}
use meeting_mgr.Db.State.{Db, FilePath, File, World, Exc, Result, os_error, ok, err}
use meeting_mgr.Db.Action.{Action, pure, ◌>>◌}
use meeting_mgr.Db.Session.{settle, tenant}
use meeting_mgr.Db.Rows.{add_recording}
use meeting_mgr.Db.Laws.{after}
use meeting_mgr.Files.{path_eq, Files, file_at, moved, replace, basename, relpath}
use meeting_mgr.Watch.{move_into, raw_key, root_of, ingested_dir, upload_unchanged, ingest_rows}
use meeting_mgr.Files.Frames.{after_os, os_call_outcome, find_file_outcome}
use meeting_mgr.Watch.Ingest.{rest_of_rows, begun, ingest_rows_begins}
use meeting_mgr.Watch.Quiet.{Left, quiet_call, IsStill-add_recording, IsStill-upload_unchanged}
use meeting_mgr.Files.Paths.{path_eq_iff}

pub find_path : (path : FilePath) (fs : Files) {f : File} → file_at path fs ≡ some f → f.path ≡ path
find_path path [] {f} h = cc
find_path path (g ∷ fs) {f} h = elim (Bool-cases (path_eq g.path path)) [
  | inl e ↦ ground (arith, e, h, path_eq_iff g.path path)
  | inr e ↦ find_path path fs {f = f} (ground (arith, e, h))
]

module _ (root : FilePath) (path : FilePath) (fs : Files) where
  -- The file is in the subdirectory.
  abbrev pub MovedTo : Text → World → Type 0
  MovedTo sub v =
      (f : File) × (file_at path fs ≡ some f)
      × (v.files ≡ moved f (root ++ sub ∷ relpath root path) fs)

  -- An action that moves the file when it returns, and else leaves the files.
  abbrev pub Placed : {A : Type 0} → Text → Result A × World → Type 0
  Placed {A} sub r =
      ((a : A) × (r.0 ≡ ok a) × MovedTo sub r.1) ⊎ ((e : Exc) × (r.0 ≡ err e) × Left fs r.1)

  pub move_into-Placed :
      (sub : Text) (w : World) → Left fs w → Placed sub (move_into root sub path w)
  unfolding move_into replace
  move_into-Placed sub w l =
      let dest = root ++ sub ∷ relpath root path in
      let still = quiet_call fs (after_os w) (quiet_call fs w l) in
      let put = λ (r : Result File × World).
        after {B = Unit {0}} r (λ file v. (ok tt, record v { files = moved file dest v.files })) in
      let k = λ (r : Result (Unit {0}) × World). after r (λ _. replace path dest) in
      elim (os_call_outcome w) [
        | inl e ↦
            subst (λ r. Placed sub (k r)) (sym e)
              (elim (find_file_outcome path (after_os w)) [
                | inl (f, h, g) ↦
                    subst (λ r. Placed sub (put r)) (sym g)
                      (inl (
                        tt,
                        refl,
                        (f, sym (ap (file_at path) still.0) ∙ h, ap (moved f dest) still.0),
                      ))
                | inr (x, _, g) ↦ subst (λ r. Placed sub (put r)) (sym g) (inr (x, refl, still))
              ])
        | inr e ↦ subst (λ r. Placed sub (k r)) (sym e) (inr (os_error, refl, quiet_call fs w l))
      ]

  module _ {A B : Type 0} (sub : Text) where
    placed_after :
        (k : A → Action B) (r : Result A × World)
        → Left fs r.1
        → ((a : A) (v : World) → Left fs v → Placed sub (k a v))
        → Placed sub (after r k)
    placed_after k (ok a, v) l f = f a v l
    placed_after k (err e, v) l f = inr (e, refl, l)

    placed_pure : (b : B) (r : Result A × World) → Placed sub r → Placed sub (after r (λ _. pure b))
    placed_pure b (ok a, v) (inl (_, _, m)) = inl (b, refl, m)
    placed_pure b (ok a, v) (inr (e, h, _)) = cc
    placed_pure b (err x, v) (inl (_, h, _)) = cc
    placed_pure b (err x, v) (inr (e, h, l)) = inr (x, refl, l)

rest_of_rows-Placed :
    (folder : WatchFolder) (path : FilePath) (baseline : File) (mid : ℕ) (fs : Files) (w : World)
    → Left fs w
    → Placed (root_of folder) path fs ingested_dir (rest_of_rows folder path baseline mid w)
rest_of_rows-Placed folder path baseline mid fs w l =
    let key = raw_key mid (basename path) in
    let move = move_into (root_of folder) ingested_dir path in
    let s = tenant folder.organization_id in
    placed_after (root_of folder) path fs ingested_dir
      (λ _. add_recording s mid key >> (move >> pure mid)) (upload_unchanged path baseline key w)
      (IsStill-upload_unchanged path baseline key fs w l)
      (λ _ v l'.
        placed_after (root_of folder) path fs ingested_dir (λ _. move >> pure mid)
          (add_recording s mid key v) (IsStill-add_recording s mid key fs v l')
          (λ _ u l''.
            placed_pure (root_of folder) path fs ingested_dir mid (move u)
              (move_into-Placed (root_of folder) path fs ingested_dir u l'')))

settled :
    {A : Type 0} (root path : FilePath) (fs : Files) (sub : Text) (before : Db)
    (r : Result A × World)
    → Placed root path fs sub r
    → Placed root path fs sub (settle before r)
settled root path fs sub before (ok a, w) p = p
settled root path fs sub before (err x, w) (inl (_, h, _)) = cc
settled root path fs sub before (err x, w) (inr p) = inr p

pub ingest_rows-Placed :
    (folder : WatchFolder) (path : FilePath) (baseline : File) (fs : Files) (w : World)
    → Left fs w
    → Placed (root_of folder) path fs ingested_dir (ingest_rows folder path baseline w)
ingest_rows-Placed folder path baseline fs w l =
    subst (Placed (root_of folder) path fs ingested_dir)
      (sym (ingest_rows_begins folder path baseline w))
      (settled (root_of folder) path fs ingested_dir w.db
        (rest_of_rows folder path baseline w.next_id (begun folder path w))
        (rest_of_rows-Placed folder path baseline w.next_id fs (begun folder path w) l))
