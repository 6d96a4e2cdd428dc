-- ===== src/Files/Frames.antt =====
-- The outcomes of the calls of the file system, and what they leave as it was.
use meeting_mgr.Base.{
  ◌≡◌, refl, sym, ap, ◌∙◌, subst, ◌⊎◌, inl, inr, Option, none, some, arith, Bool-cases,
}
use meeting_mgr.Db.State.{FilePath, File, World, Exc, Result, os_error, file_not_found, ok, err}
use meeting_mgr.Db.Action.{pure, ◌>>◌, or_raise, next_fault, service_call}
use meeting_mgr.Db.Laws.{after_call, after}
use meeting_mgr.Files.{file_at, disturbed, os_call, find_file, stat, read_file, moved, replace}
use meeting_mgr.Db.Frames.{Aside, Aside-refl, IsAside, IsAside-bind}

-- The world after a call.
abbrev pub after_os : World → World
after_os w = after_call (disturbed w)

Aside-after_os : (w : World) → Aside w (after_os w)
Aside-after_os w = record { db = refl; queue = refl; next_id = refl; now = refl }

pub os_call_outcome :
    (w : World) → (os_call w ≡ (ok tt, after_os w)) ⊎ (os_call w ≡ (err os_error, after_os w))
unfolding os_call service_call
os_call_outcome w = elim (Bool-cases (next_fault w.faults).0) [
  | inl e ↦ inr (ground (arith, e))
  | inr e ↦ inl (ground (arith, e))
]

found_or_not :
    (o : Option File) (w : World)
    → ((f : File) × (o ≡ some f) × (or_raise o file_not_found w ≡ (ok f, w)))
      ⊎ ((o ≡ none) × (or_raise o file_not_found w ≡ (err file_not_found, w)))
found_or_not none w = inr (refl, refl)
found_or_not (some f) w = inl (f, refl, refl)

-- The file is there, or it is not, or the call has failed.
pub find_file_outcome :
    (path : FilePath) (w : World)
    → ((f : File) × (file_at path (after_os w).files ≡ some f)
        × (find_file path w ≡ (ok f, after_os w)))
      ⊎ ((e : Exc) × ((e ≡ os_error) ⊎ (e ≡ file_not_found))
          × (find_file path w ≡ (err e, after_os w)))
unfolding find_file
find_file_outcome path w =
    let k = λ (r : Result (Unit {0}) × World).
      after r (λ _ v. or_raise (file_at path v.files) file_not_found v) in
    elim (os_call_outcome w) [
      | inl run ↦ elim (found_or_not (file_at path (after_os w).files) (after_os w)) [
        | inl (f, h, e) ↦ inl (f, h, ap k run ∙ e)
        | inr (h, e) ↦ inr (file_not_found, inr refl, ap k run ∙ e)
      ]
      | inr run ↦ inr (os_error, inl refl, ap k run)
    ]

IsAside-os_call : IsAside os_call
IsAside-os_call w = elim (os_call_outcome w) [
  | inl e ↦ subst (λ (r : Result (Unit {0}) × World). Aside w r.1) (sym e) (Aside-after_os w)
  | inr e ↦ subst (λ (r : Result (Unit {0}) × World). Aside w r.1) (sym e) (Aside-after_os w)
]

IsAside-find_file : (path : FilePath) → IsAside (find_file path)
IsAside-find_file path w = elim (find_file_outcome path w) [
  | inl (f, h, e) ↦ subst (λ (r : Result File × World). Aside w r.1) (sym e) (Aside-after_os w)
  | inr (x, _, e) ↦ subst (λ (r : Result File × World). Aside w r.1) (sym e) (Aside-after_os w)
]

pub IsAside-stat : (path : FilePath) → IsAside (stat path)
unfolding stat
IsAside-stat path = IsAside-find_file path

pub IsAside-read_file : (path : FilePath) → IsAside (read_file path)
unfolding read_file
IsAside-read_file path =
    IsAside-bind (find_file path) (λ file. pure file.content) (IsAside-find_file path)
      (λ _. Aside-refl)

put-IsAside :
    (dest : FilePath) (file : File)
    → IsAside (λ w. (ok tt, record w { files = moved file dest w.files }))
put-IsAside dest file w = record { db = refl; queue = refl; next_id = refl; now = refl }

IsAside-replace : (path dest : FilePath) → IsAside (replace path dest)
unfolding replace
IsAside-replace path dest =
    IsAside-bind (find_file path) (λ file w. (ok tt, record w { files = moved file dest w.files }))
      (IsAside-find_file path) (put-IsAside dest)

-- `os.makedirs` and `os.replace`
pub IsAside-move : (path dest : FilePath) → IsAside (os_call >> replace path dest)
IsAside-move path dest =
    IsAside-bind os_call (λ _. replace path dest) IsAside-os_call (λ _. IsAside-replace path dest)
