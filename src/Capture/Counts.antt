-- ===== src/Capture/Counts.antt =====
-- How many rows a Meeting has, how many of them are "finishing", and how many Recordings; and
-- what the updates of browser capture do to these counts.
use meeting_mgr.Base.{
  ℕ, suc, ◌+◌, ◌≤◌, ◌≡◌, refl, inl, inr, Bool, true, false, ◌&&◌, List, [], ◌∷◌, ◌++◌, arith, ◌==◌,
  if◌then◌else◌, Bool-cases, length, filter, any, update_where,
}
use meeting_mgr.Models.{Status, Meeting, Recording, pending, finishing}
use meeting_mgr.Db.Session.{sees_org, tenant}
use meeting_mgr.Db.Rows.{set_status}
use meeting_mgr.Capture.{status_eq}
use meeting_mgr.Capture.Outcomes.{flipped}
use meeting_mgr.Capture.Commits.{takes, taken}

module _ {ℓ} {A : Type ℓ} where
  abbrev pub count : (A → Bool) → List A → ℕ
  count p xs = length (filter p xs)

  count-append : (p : A → Bool) (xs ys : List A) → count p (xs ++ ys) ≡ count p xs + count p ys
  count-append p [] ys = omega arith
  count-append p (x ∷ xs) ys = ground (arith, count-append p xs ys)

  -- An update that does not matter to a test.
  count-update_where :
      (q p : A → Bool) (f : A → A)
      → ((x : A) → p x ≡ true → q (f x) ≡ q x)
      → (xs : List A) → count q (update_where p f xs) ≡ count q xs
  count-update_where q p f h [] = refl
  count-update_where q p f h (x ∷ xs) = elim (Bool-cases (p x)) [
    | inl e ↦ ground (arith, e, h x e, count-update_where q p f h xs)
    | inr e ↦ ground (arith, e, count-update_where q p f h xs)
  ]

abbrev pub rows : ℕ → List Meeting → ℕ
rows mid ms = count (λ m. m.id == mid) ms

abbrev pub finishings : ℕ → List Meeting → ℕ
finishings mid ms = count (λ m. m.id == mid && status_eq m.status finishing) ms

abbrev pub recs : ℕ → List Recording → ℕ
recs mid rs = count (λ r. r.meeting_id == mid) rs

pub finishings-le-rows : (mid : ℕ) (ms : List Meeting) → finishings mid ms ≤ rows mid ms
finishings-le-rows mid [] = omega arith
finishings-le-rows mid (m ∷ ms) = ground (arith, finishings-le-rows mid ms)

pub rows-flipped : (o t mid : ℕ) (ms : List Meeting) → rows mid (flipped o t ms) ≡ rows mid ms
rows-flipped o t mid ms = count-update_where _ _ _ (λ m h. refl) ms

pub finishings-flipped_other :
    (o t mid : ℕ) (ms : List Meeting)
    → (t == mid) ≡ false
    → finishings mid (flipped o t ms) ≡ finishings mid ms
finishings-flipped_other o t mid ms e =
    count-update_where (λ m. m.id == mid && status_eq m.status finishing)
      (λ m. m.id == t && sees_org (tenant o) m.organization_id) (set_status finishing)
      (λ m h. ground (arith, h, e)) ms

pub rows-taken :
    (o t mid : ℕ) (to : Status) (ms : List Meeting) → rows mid (taken o t to ms) ≡ rows mid ms
rows-taken o t mid to ms = count-update_where _ _ _ (λ m h. refl) ms

-- The conditional update of a finish leaves no row to another one.
pub finishings-taken_le :
    (o t mid : ℕ) (to : Status) (ms : List Meeting)
    → status_eq to finishing ≡ false
    → finishings mid (taken o t to ms) ≤ finishings mid ms
finishings-taken_le o t mid to [] h = omega arith
finishings-taken_le o t mid to (m ∷ ms) h = elim (Bool-cases (takes o t m)) [
  | inl e ↦ ground (arith, e, h, finishings-taken_le o t mid to ms h)
  | inr e ↦ ground (arith, e, finishings-taken_le o t mid to ms h)
]

pub finishings-taken_lt :
    (o t : ℕ) (ms : List Meeting)
    → any (takes o t) ms ≡ true
    → suc (finishings t (taken o t pending ms)) ≤ finishings t ms
finishings-taken_lt o t [] h = cc
finishings-taken_lt o t (m ∷ ms) h = elim (Bool-cases (takes o t m)) [
  | inl e ↦ ground (arith, e, finishings-taken_le o t t pending ms refl)
  | inr e ↦ ground (arith, e, h, finishings-taken_lt o t ms)
]

pub rows-append :
    (mid : ℕ) (ms : List Meeting) (m : Meeting)
    → rows mid (ms ++ m ∷ []) ≡ rows mid ms + (if m.id == mid then 1 else 0)
rows-append mid ms m = ground (arith, count-append (λ (m : Meeting). m.id == mid) ms (m ∷ []))

pub finishings-append :
    (mid : ℕ) (ms : List Meeting) (m : Meeting)
    → finishings mid (ms ++ m ∷ [])
      ≡ finishings mid ms + (if m.id == mid && status_eq m.status finishing then 1 else 0)
finishings-append mid ms m =
    ground (
      arith,
      count-append (λ (m : Meeting). m.id == mid && status_eq m.status finishing) ms (m ∷ []),
    )

pub recs-append :
    (mid : ℕ) (rs : List Recording) (r : Recording)
    → recs mid (rs ++ r ∷ []) ≡ recs mid rs + (if r.meeting_id == mid then 1 else 0)
recs-append mid rs r =
    ground (arith, count-append (λ (r : Recording). r.meeting_id == mid) rs (r ∷ []))
