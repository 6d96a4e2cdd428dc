-- ===== src/Watch/Whole.antt =====
-- An ingest adds a Meeting with its Recording, or nothing.
use meeting_mgr.Base.{
  ℕ, ◌≡◌, refl, sym, ap, ap₂, ◌∙◌, subst, ◌⊎◌, inl, inr, Option, none, some, [], ◌∷◌, ◌++◌,
  Bool-cases,
}
use meeting_mgr.Models.{WatchFolder}
use meeting_mgr.Db.State.{
  FilePath, File, World, Exc, Result, run_pipeline_task, client_error, broker_error, ok, err,
}
use meeting_mgr.Db.Action.{pure, raise, ◌>>=◌, ◌>>◌, catch}
use meeting_mgr.Db.Session.{tenant}
use meeting_mgr.Db.Rows.{add_recording}
use meeting_mgr.Db.Laws.{settle_err, delay_outcome, after, settle_queue}
use meeting_mgr.Storage.{ensure_bucket}
use meeting_mgr.Files.{basename}
use meeting_mgr.Db.Frames.{Aside, Aside-trans, IsAside-service_call, Keeps, Keeps-bind}
use meeting_mgr.Db.Inserts.{same_queue-add_recording}
use meeting_mgr.Watch.{
  move_into, raw_key, root_of, ingested_dir, failed_dir, upload_unchanged, ingest_rows, is_stale,
  ingest_failed, start_pipeline, ingest_seen, first_look, ingest_file,
}
use meeting_mgr.Watch.Ingest.{
  IsAside-move_into, with_rows, IsAside-upload_unchanged, rest_of_rows, begun, ingest_rows_begins,
  ingest_rows_ok, IsAside-first_look,
}

same_queue-rest_of_rows :
    (folder : WatchFolder) (path : FilePath) (baseline : File) (mid : ℕ)
    → Keeps (λ w. w.queue) (rest_of_rows folder path baseline mid)
same_queue-rest_of_rows folder path baseline mid =
    let key = raw_key mid (basename path) in
    let move = move_into (root_of folder) ingested_dir path in
    let s = tenant folder.organization_id in
    Keeps-bind (λ w. w.queue) (upload_unchanged path baseline key)
      (λ _. add_recording s mid key >> (move >> pure mid))
      (λ w. (IsAside-upload_unchanged path baseline key w).queue)
      (λ _.
        Keeps-bind (λ w. w.queue) (add_recording s mid key) (λ _. move >> pure mid)
          (same_queue-add_recording s mid key)
          (λ _.
            Keeps-bind (λ w. w.queue) move (λ _. pure mid)
              (λ w. (IsAside-move_into (root_of folder) ingested_dir path w).queue) (λ _ w. refl)))

ingest_rows_queue :
    (folder : WatchFolder) (path : FilePath) (baseline : File) (w : World)
    → (ingest_rows folder path baseline w).1.queue ≡ w.queue
ingest_rows_queue folder path baseline w =
    ap (λ (r : Result ℕ × World). r.1.queue) (ingest_rows_begins folder path baseline w)
    ∙ settle_queue w.db (rest_of_rows folder path baseline w.next_id (begun folder path w))
    ∙ same_queue-rest_of_rows folder path baseline w.next_id (begun folder path w)

-- No row and no task.
abbrev pub AddsNothing : World → Result (Option ℕ) × World → Type 0
AddsNothing w r =
    (r.1.db ≡ w.db) × (r.1.queue ≡ w.queue) × ((r.0 ≡ ok none) ⊎ ((e : Exc) × (r.0 ≡ err e)))

-- The two rows, and the task unless the broker has failed.
abbrev pub AddsMeeting : WatchFolder → FilePath → World → Result (Option ℕ) × World → Type 0
AddsMeeting folder path w r =
    (r.1.db ≡ with_rows folder path w)
    × (((r.0 ≡ ok (some w.next_id)) × (r.1.queue ≡ w.queue ++ run_pipeline_task w.next_id ∷ []))
        ⊎ ((r.0 ≡ err broker_error) × (r.1.queue ≡ w.queue)))

abbrev pub IsWhole : WatchFolder → FilePath → World → Result (Option ℕ) × World → Type 0
IsWhole folder path w r = AddsNothing w r ⊎ AddsMeeting folder path w r

ingest_failed_outcome :
    (folder : WatchFolder) (path : FilePath) (e : Exc) (w : World)
    → (ingest_failed folder path e w ≡ (ok none, w))
      ⊎ ((x : Exc) × (v : World) × (ingest_failed folder path e w ≡ (err x, v)) × Aside w v)
unfolding ingest_failed
ingest_failed_outcome folder path e w = elim (Bool-cases (is_stale e)) [
  | inl s ↦ inl (rw s refl)
  | inr s ↦ rw s (
      inr (
        raised (move_into (root_of folder) failed_dir path w)
          (IsAside-move_into (root_of folder) failed_dir path w)))
]
  where
    raised :
        (r : Result (Unit {0}) × World)
        → Aside w r.1
        → (x : Exc) × (v : World) × (after {B = Option ℕ} r (λ _. raise e) ≡ (err x, v)) × Aside w v
    raised (ok a, v) h = (e, v, refl, h)
    raised (err x, v) h = (x, v, refl, h)

abbrev Started : ℕ → World → Result (Option ℕ) × World → Type 0
Started id w r =
    (r.1.db ≡ w.db)
    × (((r.0 ≡ ok (some id)) × (r.1.queue ≡ w.queue ++ run_pipeline_task id ∷ []))
        ⊎ ((r.0 ≡ err broker_error) × (r.1.queue ≡ w.queue)))

start_pipeline-Started : (id : ℕ) (w : World) → Started id w (start_pipeline (some id) w)
start_pipeline-Started id w =
    let k = λ (r : Result (Unit {0}) × World). after r (λ _. pure (some id)) in
    elim (delay_outcome (run_pipeline_task id) w) [
      | inl e ↦ subst (λ r. Started id w (k r)) (sym e) (refl, inl (refl, refl))
      | inr e ↦ subst (λ r. Started id w (k r)) (sym e) (refl, inr (refl, refl))
    ]

module _ (folder : WatchFolder) (path : FilePath) (baseline : File) (w : World) where
  abbrev goes_on : Result ℕ × World → Result (Option ℕ) × World
  goes_on r =
      after (catch (λ _. after r (λ id. pure (some id))) (ingest_failed folder path) w)
        start_pipeline

  -- What follows the transaction.
  goes_on-IsWhole :
      (r : Result ℕ × World)
      → ingest_rows folder path baseline w ≡ r
      → IsWhole folder path w (goes_on r)
  goes_on-IsWhole (ok id, u) h =
      let (e, d, q) = ingest_rows_ok folder path baseline w h in
      let (d', s) = start_pipeline-Started id u in
      inr (
        d' ∙ d,
        elim s [
          | inl (f, q') ↦ inl (
            f ∙ ap (λ (n : ℕ). ok (some n)) e,
            q' ∙ ap₂ (λ q n. q ++ run_pipeline_task n ∷ []) q e,
          )
          | inr (f, q') ↦ inr (f, q' ∙ q)
        ],
      )
  goes_on-IsWhole (err x, u) h =
      let (_, rows) =
        settle_err w.db (rest_of_rows folder path baseline w.next_id (begun folder path w))
          (sym (ingest_rows_begins folder path baseline w) ∙ h) in
      let rows' : u.db ≡ w.db = ap (λ (v : World). v.db) rows in
      let queue : u.queue ≡ w.queue =
        sym (ap (λ (r : Result ℕ × World). r.1.queue) h)
        ∙ ingest_rows_queue folder path baseline w in
      inl (elim (ingest_failed_outcome folder path x u) [
        | inl e ↦
            subst (λ r. AddsNothing w (after r start_pipeline)) (sym e) (rows', queue, inl refl)
        | inr (y, v, e, a) ↦
            subst (λ r. AddsNothing w (after r start_pipeline)) (sym e)
              (a.db ∙ rows', a.queue ∙ queue, inr (y, refl))
      ])

ingest_seen-IsWhole :
    (folder : WatchFolder) (path : FilePath) (seen : Option File) (w : World)
    → IsWhole folder path w (ingest_seen folder path seen w)
unfolding ingest_seen
ingest_seen-IsWhole folder path none w = inl (refl, refl, inl refl)
ingest_seen-IsWhole folder path (some baseline) w =
    goes_on-IsWhole folder path baseline w (ingest_rows folder path baseline w) refl

-- What was there before the first look is there after it.
IsWhole-Aside :
    (folder : WatchFolder) (path : FilePath) (w v : World) (r : Result (Option ℕ) × World)
    → Aside w v
    → IsWhole folder path v r
    → IsWhole folder path w r
IsWhole-Aside folder path w v r a (inl (d, q, o)) = inl (d ∙ a.db, q ∙ a.queue, o)
IsWhole-Aside folder path w v r a (inr (d, o)) = inr (
  d ∙ rows_eq,
  elim o [
    | inl (f, q) ↦ inl (
      f ∙ ap (λ (n : ℕ). ok (some n)) a.next_id,
      q ∙ ap₂ (λ q n. q ++ run_pipeline_task n ∷ []) a.queue a.next_id,
    )
    | inr (f, q) ↦ inr (f, q ∙ a.queue)
  ],
)
  where
    rows_eq : with_rows folder path v ≡ with_rows folder path w
    rows_eq = rw (a.db, a.next_id, a.now) refl

module _ (folder : WatchFolder) (path : FilePath) (w : World) where
  looked :
      (r : Result (Option File) × World)
      → Aside w r.1
      → IsWhole folder path w (after r (ingest_seen folder path))
  looked (ok seen, v) a =
      IsWhole-Aside folder path w v (ingest_seen folder path seen v) a
        (ingest_seen-IsWhole folder path seen v)
  looked (err e, v) a = inl (a.db, a.queue, inr (e, refl))

  -- Whatever fails and whatever other programs do to the files, an ingest has added no row and no
  -- task and returns no id; or it has added one Meeting of the folder's Organization and owner with
  -- its one Recording, and returns the id with the pipeline's task on the queue, or raises the
  -- broker's error.
  pub ingest-IsWhole : IsWhole folder path w (ingest_file folder path w)
  unfolding ingest_file ensure_bucket
  ingest-IsWhole = ready (ensure_bucket w) (IsAside-service_call client_error w)
    where
      ready :
          (r : Result (Unit {0}) × World)
          → Aside w r.1
          → IsWhole folder path w (after r (λ _. first_look path >>= ingest_seen folder path))
      ready (ok _, v) a = looked (first_look path v) (Aside-trans a (IsAside-first_look path v))
      ready (err e, v) a = inl (a.db, a.queue, inr (e, refl))
