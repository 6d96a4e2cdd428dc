-- ===== src/Watch/Ingest.antt =====
-- What an ingest does to the tables, whatever other programs and failures do.
use meeting_mgr.Base.{
  ℕ, suc, ◌≡◌, sym, ap, ap₂, ◌∙◌, subst, inl, inr, not, none, some, [], ◌∷◌, ◌++◌, arith,
  Bool-cases,
}
use meeting_mgr.Base.Text.{Text}
use meeting_mgr.Models.{Meeting, Recording, WatchFolder, pending}
use meeting_mgr.Db.State.{Db, FilePath, File, World, Exc, Result, stale_file, ok}
use meeting_mgr.Db.Action.{Action, pure, ◌>>=◌, ◌>>◌, raise_if}
use meeting_mgr.Db.Session.{settle, tenant}
use meeting_mgr.Db.Rows.{add_recording}
use meeting_mgr.Db.Laws.{settle_ok, after}
use meeting_mgr.Storage.{put_stream}
use meeting_mgr.Storage.Calls.{IsAside-put_stream}
use meeting_mgr.Files.{stat, read_file, basename, relpath}
use meeting_mgr.Db.Frames.{
  Aside, Aside-refl, IsAside, IsAside-bind, bind_ok, IsAside-catch, IsAside-raise_if,
}
use meeting_mgr.Db.Inserts.{
  with_meeting, add_meeting-own, raw_recording, with_recording, add_recording_ok,
}
use meeting_mgr.Watch.{
  is_missing, on_not_found, move_into, same_signature, raw_key, root_of, ingested_dir,
  upload_unchanged, ingest_rows, first_look,
}
use meeting_mgr.Files.Frames.{IsAside-stat, IsAside-read_file, IsAside-move}
use meeting_mgr.Capture.{subdir, new_meeting}

pub IsAside-move_into :
    (root : FilePath) → (subdir : Text) → (path : FilePath) → IsAside (move_into root subdir path)
unfolding move_into
IsAside-move_into root subdir path = IsAside-move path (root ++ subdir ∷ relpath root path)

-- The rows of an ingest.
abbrev pub folder_meeting : WatchFolder → FilePath → World → Meeting
folder_meeting folder path w =
    new_meeting w.next_id folder.organization_id folder.owner_account_id (basename path) pending
      w.now

abbrev pub folder_recording : FilePath → World → Recording
folder_recording path w =
    raw_recording (suc w.next_id) w.next_id (raw_key w.next_id (basename path))

abbrev pub with_rows : WatchFolder → FilePath → World → Db
with_rows folder path w = record w.db {
  meetings = w.db.meetings ++ folder_meeting folder path w ∷ [];
  recordings = w.db.recordings ++ folder_recording path w ∷ [];
}

pub IsAside-upload_unchanged :
    (path : FilePath) (baseline : File) (key : Text) → IsAside (upload_unchanged path baseline key)
unfolding upload_unchanged
IsAside-upload_unchanged path baseline key =
    IsAside-bind (stat path)
      (λ current.
        raise_if (not (same_signature current baseline)) stale_file
        >> (read_file path >>= put_stream key))
      (IsAside-stat path)
      (λ current.
        IsAside-bind (raise_if (not (same_signature current baseline)) stale_file)
          (λ _. read_file path >>= put_stream key)
          (IsAside-raise_if (not (same_signature current baseline)) stale_file)
          (λ _.
            IsAside-bind (read_file path) (put_stream key) (IsAside-read_file path)
              (λ bytes. IsAside-put_stream key bytes)))

-- The transaction after the Meeting is there.
abbrev pub rest_of_rows : WatchFolder → FilePath → File → ℕ → Action ℕ
rest_of_rows folder path baseline mid = do
  upload_unchanged path baseline (raw_key mid (basename path))
  add_recording (tenant folder.organization_id) mid (raw_key mid (basename path))
  move_into (root_of folder) ingested_dir path
  pure mid

abbrev pub begun : WatchFolder → FilePath → World → World
begun folder path w =
    with_meeting (folder_meeting folder path w) (record w { next_id = suc w.next_id })

pub ingest_rows_begins :
    (folder : WatchFolder) (path : FilePath) (baseline : File) (w : World)
    → ingest_rows folder path baseline w
      ≡ settle w.db (rest_of_rows folder path baseline w.next_id (begun folder path w))
unfolding ingest_rows
ingest_rows_begins folder path baseline w =
    ap (λ r. settle w.db (after r (λ _. rest_of_rows folder path baseline w.next_id)))
      (add_meeting-own (folder_meeting folder path w) (record w { next_id = suc w.next_id }))

-- The rows that the rest of a transaction leaves when it returns.
pub record IsRecorded (mid : ℕ) (key : Text) (w v : World) : Type 0 where
  pub db : v.db ≡ (with_recording mid key w).db
  pub queue : v.queue ≡ w.queue

IsRecorded-ingest :
    (mid : ℕ) (key : Text) (w v u : World)
    → Aside w v
    → Aside (with_recording mid key v) u
    → IsRecorded mid key w u
IsRecorded-ingest mid key w v u a b = record {
  db =
      b.db
      ∙ ap
          (λ (p : Db × ℕ). record p.0 {
            recordings = p.0.recordings ++ raw_recording p.1 mid key ∷ [];
          })
          (ap₂ (λ d n. (d, n)) a.db a.next_id);
  queue = b.queue ∙ a.queue;
}

rest_of_rows_ok :
    (folder : WatchFolder) (path : FilePath) (baseline : File) (mid : ℕ) (w : World) {id : ℕ}
    {u : World}
    → rest_of_rows folder path baseline mid w ≡ (ok id, u)
    → (id ≡ mid) × IsRecorded mid (raw_key mid (basename path)) w u
rest_of_rows_ok folder path baseline mid w {id} {u} h =
    let key = raw_key mid (basename path) in
    let move = move_into (root_of folder) ingested_dir path in
    let s = tenant folder.organization_id in
    let (a, v, e, h') =
      bind_ok (upload_unchanged path baseline key)
        (λ _. add_recording s mid key >> (move >> pure mid)) w h in
    let (b, x, f, h'') = bind_ok (add_recording s mid key) (λ _. move >> pure mid) v h' in
    let (c, y, g, k) = bind_ok move (λ _. pure mid) x h'' in
    let aside : Aside x y =
      subst (λ (r : Result (Unit {0}) × World). Aside x r.1) g
        (IsAside-move_into (root_of folder) ingested_dir path x) in
    let uploaded : Aside w v =
      subst (λ (r : Result (Unit {0}) × World). Aside w r.1) e
        (IsAside-upload_unchanged path baseline key w) in
    let moved_on : Aside (with_recording mid key v) u =
      subst (λ z. Aside z u) (add_recording_ok s mid key v f)
        (subst (λ z. Aside x z) (ap (λ (r : Result ℕ × World). r.1) k) aside) in
    (ground (arith, k), IsRecorded-ingest mid key w v u uploaded moved_on)

-- A transaction that returns has added the two rows.
pub ingest_rows_ok :
    (folder : WatchFolder) (path : FilePath) (baseline : File) (w : World) {id : ℕ} {u : World}
    → ingest_rows folder path baseline w ≡ (ok id, u)
    → (id ≡ w.next_id) × (u.db ≡ with_rows folder path w) × (u.queue ≡ w.queue)
ingest_rows_ok folder path baseline w h =
    let inner =
      settle_ok w.db (rest_of_rows folder path baseline w.next_id (begun folder path w))
        (sym (ingest_rows_begins folder path baseline w) ∙ h) in
    let (e, r) = rest_of_rows_ok folder path baseline w.next_id (begun folder path w) inner in
    (e, r.db, r.queue)

IsAside-on_not_found : {A : Type 0} (a : A) (e : Exc) → IsAside (on_not_found a e)
IsAside-on_not_found a e w = elim (Bool-cases (is_missing e)) [
  | inl m ↦ rw m (Aside-refl w)
  | inr m ↦ rw m (Aside-refl w)
]

pub IsAside-first_look : (path : FilePath) → IsAside (first_look path)
unfolding first_look
IsAside-first_look path =
    IsAside-catch (stat path >>= λ file. pure (some file)) (on_not_found none)
      (IsAside-bind (stat path) (λ file. pure (some file)) (IsAside-stat path) (λ _. Aside-refl))
      (IsAside-on_not_found none)
