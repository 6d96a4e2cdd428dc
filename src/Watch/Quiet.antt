-- ===== src/Watch/Quiet.antt =====
-- The calls of an ingest on a disk that no other program touches.
use meeting_mgr.Base.{ℕ, ◌≡◌, sym, ap, ◌∙◌, subst, inl, inr, not, List, [], ◌∷◌, arith}
use meeting_mgr.Base.Text.{Text}
use meeting_mgr.Db.State.{
  FilePath, File, World, Exc, Result, blob, client_error, stale_file, ok, err,
}
use meeting_mgr.Db.Action.{Action, pure, ◌>>=◌, ◌>>◌, raise_if, service_call}
use meeting_mgr.Db.Session.{Session}
use meeting_mgr.Db.Rows.{add_recording}
use meeting_mgr.Db.Laws.{after}
use meeting_mgr.Storage.{without, put_object, put_stream}
use meeting_mgr.Files.{Files, change_all, next_changes, os_call, find_file, stat, read_file}
use meeting_mgr.Watch.{same_signature, upload_unchanged}
use meeting_mgr.Files.Frames.{after_os, os_call_outcome, find_file_outcome}

-- The files are as given, and nothing is about to change.
abbrev pub Left : Files → World → Type 0
Left fs v = (v.files ≡ fs) × (v.changes ≡ [])

abbrev pub IsStill : {A : Type 0} → Action A → Type 0
IsStill m = (fs : Files) (w : World) → Left fs w → Left fs (m w).1

module _ {A B : Type 0} where
  still_after :
      (fs : Files) (k : A → Action B) (r : Result A × World)
      → Left fs r.1
      → ((a : A) → IsStill (k a))
      → Left fs (after r k).1
  still_after fs k (ok a, v) l f = f a fs v l
  still_after fs k (err e, v) l f = l

  pub IsStill-bind :
      (m : Action A) (k : A → Action B) → IsStill m → ((a : A) → IsStill (k a)) → IsStill (m >>= k)
  IsStill-bind m k h f fs w l = still_after fs k (m w) (h fs w l) f

-- A call on a quiet disk finds the files as they are.
pub quiet_call : (fs : Files) (w : World) → Left fs w → Left fs (after_os w)
quiet_call fs w (f, c) =
    (ap (λ cs. change_all (next_changes cs).0 w.files) c ∙ f, ap (λ cs. (next_changes cs).1) c)

IsStill-os_call : IsStill os_call
IsStill-os_call fs w l = elim (os_call_outcome w) [
  | inl e ↦ subst (λ (r : Result (Unit {0}) × World). Left fs r.1) (sym e) (quiet_call fs w l)
  | inr e ↦ subst (λ (r : Result (Unit {0}) × World). Left fs r.1) (sym e) (quiet_call fs w l)
]

pub IsStill-find_file : (path : FilePath) → IsStill (find_file path)
IsStill-find_file path fs w l = elim (find_file_outcome path w) [
  | inl (f, _, e) ↦ subst (λ (r : Result File × World). Left fs r.1) (sym e) (quiet_call fs w l)
  | inr (x, _, e) ↦ subst (λ (r : Result File × World). Left fs r.1) (sym e) (quiet_call fs w l)
]

pub IsStill-service_call : (e : Exc) → IsStill (service_call e)
unfolding service_call
IsStill-service_call e fs w l = l

IsStill-put_stream : (key : Text) (bytes : List ℕ) → IsStill (put_stream key bytes)
unfolding put_stream put_object
IsStill-put_stream key bytes =
    IsStill-bind (service_call client_error)
      (λ _ w. (ok tt, record w { objects = (key, blob bytes) ∷ without key w.objects }))
      (IsStill-service_call client_error) (λ _ fs w l. l)

pub IsStill-add_recording : (s : Session) (mid : ℕ) (key : Text) → IsStill (add_recording s mid key)
unfolding add_recording
IsStill-add_recording s mid key fs w l = (ground (arith, l.0), ground (arith, l.1))

pub IsStill-upload_unchanged :
    (path : FilePath) (baseline : File) (key : Text) → IsStill (upload_unchanged path baseline key)
unfolding upload_unchanged stat read_file
IsStill-upload_unchanged path baseline key =
    IsStill-bind (find_file path)
      (λ current.
        raise_if (not (same_signature current baseline)) stale_file
        >> ((find_file path >>= λ file. pure file.content) >>= put_stream key))
      (IsStill-find_file path)
      (λ current.
        IsStill-bind (raise_if (not (same_signature current baseline)) stale_file)
          (λ _. (find_file path >>= λ file. pure file.content) >>= put_stream key) (λ fs w l. l)
          (λ _.
            IsStill-bind (find_file path >>= λ file. pure file.content) (put_stream key)
              (IsStill-bind (find_file path) (λ file. pure file.content) (IsStill-find_file path)
                (λ _ fs w l. l))
              (λ bytes. IsStill-put_stream key bytes)))
