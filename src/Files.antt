-- ===== src/Files.antt =====
-- The file system, as src/meeting_mgr/pipeline/watch.py uses it: the calls of `os` and `open`, and
-- the paths that it takes apart. Directories are not kept, only the files in them. Each call comes
-- after what other programs have done, and may fail.
pub mod Paths
pub mod Frames
use meeting_mgr.Base.{
  ℕ, suc, ◌-◌, Bool, true, false, not, ◌&&◌, ◌||◌, Option, List, [], ◌∷◌, ◌++◌, ◌==◌, if◌then◌else◌,
  length, take, replicate, filter, find, is_empty,
}
use meeting_mgr.Base.Text.{Text, codes, text_eq, starts_with}
use meeting_mgr.Db.State.{
  FilePath, File, Change, World, wrote, removed, os_error, file_not_found, ok,
}
use meeting_mgr.Db.Action.{Action, pure, gets, ◌>>=◌, ◌>>◌, or_raise, service_call}

-- `==` of paths
unfoldable pub path_eq : FilePath → FilePath → Bool
path_eq [] [] = true
path_eq [] (n ∷ q) = false
path_eq (m ∷ p) [] = false
path_eq (m ∷ p) (n ∷ q) = text_eq m n && path_eq p q

abbrev pub Files : Type 0
Files = List File

-- The files under other paths.
abbrev pub others : FilePath → Files → Files
others p fs = filter (λ f. not (path_eq f.path p)) fs

abbrev pub file_at : FilePath → Files → Option File
file_at p fs = find (λ f. path_eq f.path p) fs

abbrev pub change : Change → Files → Files
change (wrote f) fs = f ∷ others f.path fs
change (removed p) fs = others p fs

abbrev pub change_all : List Change → Files → Files
change_all [] fs = fs
change_all (c ∷ cs) fs = change_all cs (change c fs)

abbrev pub next_changes : List (List Change) → List Change × List (List Change)
next_changes [] = ([], [])
next_changes (cs ∷ rest) = (cs, rest)

-- The world as a call finds it.
abbrev pub disturbed : World → World
disturbed w =
    let (cs, rest) = next_changes w.changes in
    record w { files = change_all cs w.files; changes = rest }

unfoldable pub os_call : Action (Unit {0})
os_call w = service_call os_error (disturbed w)

-- A call that needs the file of a path.
unfoldable pub find_file : FilePath → Action File
find_file path = do os_call; found ← gets (λ w. file_at path w.files); or_raise found file_not_found

-- `os.stat(path)`, whose answer is the file's size and time.
unfoldable pub stat : FilePath → Action File
stat path = find_file path

-- `open(path, "rb")`, read to its end.
unfoldable pub read_file : FilePath → Action (List ℕ)
read_file path = do file ← find_file path; pure file.content

-- The file of one path under another, in the place of what was there.
abbrev pub moved : File → FilePath → Files → Files
moved f dest fs = record f { path = dest } ∷ others dest (others f.path fs)

-- `os.replace(path, dest)`
unfoldable pub replace : FilePath → FilePath → Action (Unit {0})
replace path dest = do
  file ← find_file path
  λ w. (ok tt, record w { files = moved file dest w.files })

-- The names between slashes.
unfoldable pub split_names : Text → FilePath
split_names [] = [] ∷ []
split_names (c ∷ t) = if c == b'/' then [] ∷ split_names t else prefix_first c (split_names t)
  where
    prefix_first : ℕ → FilePath → FilePath
    prefix_first c [] = (c ∷ []) ∷ []
    prefix_first c (n ∷ p) = (c ∷ n) ∷ p

-- The directory that a name leads to: `.` and the empty name stay, `..` goes up.
abbrev pub enter : FilePath → Text → FilePath
enter p n =
    if is_empty n || text_eq n (codes ".")
    then p
    else if text_eq n (codes "..")
    then take (length p - 1) p
    else p ++ n ∷ []

abbrev pub enter_all : FilePath → List Text → FilePath
enter_all p [] = p
enter_all p (n ∷ ns) = enter_all (enter p n) ns

-- The path that an absolute text names.
unfoldable pub path_of : Text → FilePath
path_of t = enter_all [] (split_names t)

-- `os.path.isabs(t)`
abbrev pub is_abs : Text → Bool
is_abs t = starts_with (codes "/") t

-- `os.path.basename(path)`
unfoldable pub basename : FilePath → Text
basename [] = []
basename (n ∷ []) = n
basename (n ∷ m ∷ p) = basename (m ∷ p)

-- `os.path.relpath(path, root)`
unfoldable pub relpath : (root path : FilePath) → FilePath
relpath [] path = path
relpath (r ∷ root) [] = replicate (suc (length root)) (codes "..")
relpath (r ∷ root) (n ∷ path) =
    let rest = relpath root path in
    if text_eq r n then rest else replicate (suc (length root)) (codes "..") ++ n ∷ path

-- The names of a relative path with slashes between them.
unfoldable pub slashed : FilePath → Text
slashed [] = []
slashed (n ∷ []) = n
slashed (n ∷ m ∷ p) = n ++ b'/' ∷ slashed (m ∷ p)
