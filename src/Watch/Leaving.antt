-- ===== src/Watch/Leaving.antt =====
-- What an ingest leaves for the next scan, while no other program touches the disk.
use meeting_mgr.Base.{
  ℕ, ◌≡◌, refl, sym, ap, ◌∙◌, subst, ◌≢◌, ◌⊎◌, inl, inr, true, Option, none, some, [], ◌∷◌, ◌++◌,
  Bool-cases,
}
use meeting_mgr.Base.Text.{Text, codes, starts_with}
use meeting_mgr.Models.{WatchFolder}
use meeting_mgr.Db.State.{
  FilePath, File, World, Exc, Result, run_pipeline_task, client_error, ok, err,
}
use meeting_mgr.Db.Action.{pure, raise, ◌>>=◌, catch}
use meeting_mgr.Db.Laws.{delay_outcome, after}
use meeting_mgr.Storage.{ensure_bucket}
use meeting_mgr.Files.{Files, file_at, stat, relpath}
use meeting_mgr.Watch.{
  on_not_found, move_into, root_of, ingested_dir, failed_dir, ingest_rows, is_stale, ingest_failed,
  start_pipeline, ingest_seen, first_look, ingest_file, is_candidate, candidate_files,
}
use meeting_mgr.Files.Frames.{after_os, find_file_outcome}
use meeting_mgr.Watch.Quiet.{Left, IsStill, quiet_call, IsStill-service_call}
use meeting_mgr.Files.Paths.{path_eq_refl, is_candidate-moved, except, candidate_files-moved}
use meeting_mgr.Watch.Placing.{find_path, MovedTo, Placed, move_into-Placed, ingest_rows-Placed}

abbrev pub NoId : Result (Option ℕ) → Type 0
NoId r = (id : ℕ) → r ≢ ok (some id)

module _ (folder : WatchFolder) (path : FilePath) (fs : Files) where
  -- The file stays, or is moved to the one directory or the other.
  abbrev Settled : Result (Option ℕ) × World → Type 0
  Settled r =
      ((r.1.files ≡ fs) × NoId r.0)
      ⊎ (MovedTo (root_of folder) path fs ingested_dir r.1
          ⊎ (MovedTo (root_of folder) path fs failed_dir r.1 × NoId r.0))

  pipeline-Settled :
      (id : ℕ) (w : World)
      → MovedTo (root_of folder) path fs ingested_dir w
      → Settled (start_pipeline (some id) w)
  pipeline-Settled id w m =
      let k = λ (r : Result (Unit {0}) × World). after r (λ _. pure (some id)) in
      elim (delay_outcome (run_pipeline_task id) w) [
        | inl e ↦ subst (λ r. Settled (k r)) (sym e) (inr (inl m))
        | inr e ↦ subst (λ r. Settled (k r)) (sym e) (inr (inl m))
      ]

  failed-Settled :
      (e : Exc) (r : Result (Unit {0}) × World)
      → Placed (root_of folder) path fs failed_dir r
      → Settled (after (after {B = Option ℕ} r (λ _. raise e)) start_pipeline)
  failed-Settled e (ok a, v) (inl (_, _, m)) = inr (inr (m, λ id h. cc))
  failed-Settled e (ok a, v) (inr (x, h, _)) = cc
  failed-Settled e (err x, v) (inl (_, h, _)) = cc
  failed-Settled e (err x, v) (inr (_, _, l)) = inl (l.0, λ id h. cc)

  handled-Settled :
      (e : Exc) (w : World)
      → Left fs w
      → Settled (after (ingest_failed folder path e w) start_pipeline)
  unfolding ingest_failed
  handled-Settled e w l = elim (Bool-cases (is_stale e)) [
    | inl s ↦ rw s (inl (l.0, λ id h. cc))
    | inr s ↦ rw s (
        failed-Settled e (move_into (root_of folder) failed_dir path w)
          (move_into-Placed (root_of folder) path fs failed_dir w l))
  ]

  -- What follows the transaction.
  rows-Settled :
      (w : World) (r : Result ℕ × World)
      → Placed (root_of folder) path fs ingested_dir r
      → Settled (
          after
            (catch (λ _. after r (λ id. pure (some id))) (ingest_failed folder path) w)
            start_pipeline)
  rows-Settled w (ok id, u) (inl (_, _, m)) = pipeline-Settled id u m
  rows-Settled w (ok id, u) (inr (_, h, _)) = cc
  rows-Settled w (err x, u) (inl (_, h, _)) = cc
  rows-Settled w (err x, u) (inr (_, _, l)) = handled-Settled x u l

  seen-Settled :
      (seen : Option File) (w : World) → Left fs w → Settled (ingest_seen folder path seen w)
  unfolding ingest_seen
  seen-Settled none w l = inl (l.0, λ id h. cc)
  seen-Settled (some baseline) w l =
      rows-Settled w (ingest_rows folder path baseline w)
        (ingest_rows-Placed folder path baseline fs w l)

  look-Settled :
      (r : Result (Option File) × World) → Left fs r.1 → Settled (after r (ingest_seen folder path))
  look-Settled (ok seen, v) l = seen-Settled seen v l
  look-Settled (err e, v) l = inl (l.0, λ id h. cc)

  IsStill-first_look : IsStill (first_look path)
  unfolding first_look stat
  IsStill-first_look gs w l =
      let k = λ (r : Result File × World).
        catch (λ _. after r (λ file. pure (some file))) (on_not_found none) w in
      elim (find_file_outcome path w) [
        | inl (f, _, e) ↦ subst (λ r. Left gs (k r).1) (sym e) (quiet_call gs w l)
        | inr (x, inl n, e) ↦
            subst (λ r. Left gs (k r).1) (sym (e ∙ ap (λ y. (err y, after_os w)) n))
              (quiet_call gs w l)
        | inr (x, inr n, e) ↦
            subst (λ r. Left gs (k r).1) (sym (e ∙ ap (λ y. (err y, after_os w)) n))
              (quiet_call gs w l)
      ]

  ready-Settled :
      (r : Result (Unit {0}) × World)
      → Left fs r.1
      → Settled (after r (λ _. first_look path >>= ingest_seen folder path))
  ready-Settled (ok _, v) l = look-Settled (first_look path v) (IsStill-first_look fs v l)
  ready-Settled (err e, v) l = inl (l.0, λ id h. cc)

  ingest-Settled : (w : World) → Left fs w → Settled (ingest_file folder path w)
  unfolding ingest_file ensure_bucket
  ingest-Settled w l = ready-Settled (ensure_bucket w) (IsStill-service_call client_error fs w l)

-- The candidates of the next scan are the others, and the file is in the subdirectory.
abbrev pub IsPutAway : (root path : FilePath) → Text → Files → Files → Type 0
IsPutAway root path sub fs gs =
    (candidate_files root gs ≡ except path (candidate_files root fs))
    × ((f : File) × (file_at path fs ≡ some f)
        × (file_at (root ++ sub ∷ relpath root path) gs
            ≡ some (record f { path = root ++ sub ∷ relpath root path })))

put_away :
    (root path : FilePath) (sub : Text) (fs : Files) (w : World)
    → starts_with (codes ".") sub ≡ true
    → is_candidate root path ≡ true
    → MovedTo root path fs sub w
    → IsPutAway root path sub fs w.files
put_away root path sub fs w dotted h (f, there_is, e) =
    let dest = root ++ sub ∷ relpath root path in
    (
      ap (candidate_files root) e
          ∙ candidate_files-moved root dest f fs (is_candidate-moved root path sub dotted h)
          ∙ ap (λ p. except p (candidate_files root fs)) (find_path path fs there_is),
      (f, there_is, ap (file_at dest) e ∙ rw (path_eq_refl dest) refl),
    )

-- The files as they were, or the file put away in one of the two directories; an id comes back only
-- of a file among the ingested.
abbrev pub IsLeft : WatchFolder → FilePath → Files → Result (Option ℕ) × World → Type 0
IsLeft folder path fs r =
    ((r.1.files ≡ fs) × NoId r.0)
    ⊎ (IsPutAway (root_of folder) path ingested_dir fs r.1.files
        ⊎ (IsPutAway (root_of folder) path failed_dir fs r.1.files × NoId r.0))

-- While no other program changes the files, an ingest of a candidate file, whatever calls fail,
-- leaves all files as they were, or has moved the one into .ingested or .failed with its content
-- and its time, so that the candidates of the next scan are the others; an id is returned only with
-- the file in .ingested.
pub ingest_leaves :
    (folder : WatchFolder) (path : FilePath) (w : World)
    → w.changes ≡ []
    → is_candidate (root_of folder) path ≡ true
    → IsLeft folder path w.files (ingest_file folder path w)
unfolding starts_with
ingest_leaves folder path w quiet h =
    let root = root_of folder in
    let v = (ingest_file folder path w).1 in
    elim (ingest-Settled folder path w.files w (refl, quiet)) [
      | inl s ↦ inl s
      | inr (inl m) ↦ inr (inl (put_away root path ingested_dir w.files v refl h m))
      | inr (inr (m, n)) ↦ inr (inr (put_away root path failed_dir w.files v refl h m, n))
    ]
