-- ===== src/Files/Paths.antt =====
-- Paths below a directory, and what a move does to a listing.
use meeting_mgr.Base.{
  ◌≡◌, refl, ap, ◌∙◌, ◌↔◌, inl, inr, true, false, not, ◌&&◌, Option, none, some, List, [], ◌∷◌,
  ◌++◌, arith, Bool-cases, filter,
}
use meeting_mgr.Base.Text.{Text, codes, text_eq, starts_with, text_eq_iff, text_eq_refl}
use meeting_mgr.Db.State.{FilePath, File}
use meeting_mgr.Files.{path_eq, Files, others, moved, relpath}
use meeting_mgr.Watch.{below, in_plain_dirs, is_candidate, candidate_files}

pub path_eq_iff : (p q : FilePath) → (path_eq p q ≡ true) ↔ (p ≡ q)
unfolding path_eq
path_eq_iff [] [] = ((λ _. refl), (λ _. refl))
path_eq_iff [] (n ∷ q) = ((λ h. cc), (λ h. cc))
path_eq_iff (m ∷ p) [] = ((λ h. cc), (λ h. cc))
path_eq_iff (m ∷ p) (n ∷ q) = ground (arith, path_eq_iff p q, text_eq_iff m n)

pub path_eq_refl : (p : FilePath) → path_eq p p ≡ true
path_eq_refl p = (path_eq_iff p p).1 refl

pub below-append : (root rel : FilePath) → below root (root ++ rel) ≡ some rel
unfolding below
below-append [] rel = refl
below-append (r ∷ root) rel = rw (text_eq_refl r) (below-append root rel)

-- Below a dotted directory of the root nothing is a candidate.
pub is_candidate-dotted :
    (root : FilePath) (sub : Text) (rel : FilePath) (n : Text)
    → starts_with (codes ".") sub ≡ true
    → is_candidate root (root ++ sub ∷ n ∷ rel) ≡ false
unfolding is_candidate in_plain_dirs
is_candidate-dotted root sub rel n dotted =
    ap (λ o. elim o [ none ↦ false | some p ↦ in_plain_dirs p ]) (below-append root (sub ∷ n ∷ rel))
    ∙ ap (λ b. not b && in_plain_dirs (n ∷ rel)) dotted

relpath-below : (root path rel : FilePath) → below root path ≡ some rel → relpath root path ≡ rel
unfolding relpath below
relpath-below [] path rel h = ground (arith, h)
relpath-below (r ∷ root) [] rel h = cc
relpath-below (r ∷ root) (n ∷ path) rel h = elim (Bool-cases (text_eq r n)) [
  | inl e ↦ rw e (relpath-below root path rel (ground (arith, e, h)))
  | inr e ↦ absurd (ground (arith, e, h))
]

named :
    (root path : FilePath) (o : Option FilePath)
    → below root path ≡ o
    → elim o [ none ↦ false | some rel ↦ in_plain_dirs rel ] ≡ true
    → (n : Text) × (rel : FilePath) × (relpath root path ≡ n ∷ rel)
unfolding in_plain_dirs
named root path none e k = cc
named root path (some []) e k = cc
named root path (some (n ∷ rel)) e k = (n, rel, relpath-below root path (n ∷ rel) e)

candidate_name :
    (root path : FilePath)
    → is_candidate root path ≡ true
    → (n : Text) × (rel : FilePath) × (relpath root path ≡ n ∷ rel)
unfolding is_candidate
candidate_name root path h = named root path (below root path) refl h

-- The place that a candidate is moved to is no candidate.
pub is_candidate-moved :
    (root path : FilePath) (sub : Text)
    → starts_with (codes ".") sub ≡ true
    → is_candidate root path ≡ true
    → is_candidate root (root ++ sub ∷ relpath root path) ≡ false
is_candidate-moved root path sub dotted h =
    let (n, rel, e) = candidate_name root path h in
    ap (λ p. is_candidate root (root ++ sub ∷ p)) e ∙ is_candidate-dotted root sub rel n dotted

-- A listing without one path.
abbrev pub except : FilePath → List FilePath → List FilePath
except p ps = filter (λ q. not (path_eq q p)) ps

candidates-others :
    (root p : FilePath) (fs : Files)
    → candidate_files root (others p fs) ≡ except p (candidate_files root fs)
unfolding candidate_files
candidates-others root p [] = refl
candidates-others root p (f ∷ fs) = ground (arith, candidates-others root p fs)

except-absent :
    (root p : FilePath) (fs : Files)
    → is_candidate root p ≡ false
    → except p (candidate_files root fs) ≡ candidate_files root fs
unfolding candidate_files
except-absent root p [] h = refl
except-absent root p (f ∷ fs) h = ground (arith, except-absent root p fs h, path_eq_iff f.path p)

no_candidate :
    (root : FilePath) (f : File) (fs : Files)
    → is_candidate root f.path ≡ false
    → candidate_files root (f ∷ fs) ≡ candidate_files root fs
unfolding candidate_files
no_candidate root f fs h = rw h refl

-- After a move to a place that is no candidate, the candidates are the others.
pub candidate_files-moved :
    (root dest : FilePath) (f : File) (fs : Files)
    → is_candidate root dest ≡ false
    → candidate_files root (moved f dest fs) ≡ except f.path (candidate_files root fs)
candidate_files-moved root dest f fs h =
    no_candidate root (record f { path = dest }) (others dest (others f.path fs)) h
    ∙ candidates-others root dest (others f.path fs)
    ∙ except-absent root dest (others f.path fs) h
    ∙ candidates-others root f.path fs
