-- ===== src/Meetings/Order.antt =====
-- The order of a listing, and what a page keeps of it.
use meeting_mgr.Base.{
  ℕ, zero, suc, ◌≤◌, inl, inr, List, [], ◌∷◌, arith, ltb, Bool-cases, take, drop, All, All-take,
  All-map,
}
use meeting_mgr.Meetings.{insert_desc, sort_desc}

module _ {A : Type 0} (id : A → ℕ) where
  -- No later row has a larger id.
  abbrev pub IsDescending : List A → Type 0
  IsDescending [] = Unit
  IsDescending (x ∷ xs) = All (λ y. id y ≤ id x) xs × IsDescending xs

  All-insert_desc :
      (P : A → Type 0) (x : A) (xs : List A) → P x → All P xs → All P (insert_desc id x xs)
  unfolding insert_desc
  All-insert_desc P x [] p ps = (p, tt)
  All-insert_desc P x (y ∷ ys) p (q, qs) = elim (Bool-cases (ltb (id x) (id y))) [
    | inl e ↦ rw e (q, All-insert_desc P x ys p qs)
    | inr e ↦ rw e (p, (q, qs))
  ]

  pub All-sort_desc : (P : A → Type 0) (xs : List A) → All P xs → All P (sort_desc id xs)
  unfolding sort_desc
  All-sort_desc P [] ps = tt
  All-sort_desc P (x ∷ xs) (p, ps) = All-insert_desc P x (sort_desc id xs) p (All-sort_desc P xs ps)

  insert_desc-IsDescending :
      (x : A) (xs : List A) → IsDescending xs → IsDescending (insert_desc id x xs)
  unfolding insert_desc
  insert_desc-IsDescending x [] d = (tt, tt)
  insert_desc-IsDescending x (y ∷ ys) (below_y, d) = elim (Bool-cases (ltb (id x) (id y))) [
    | inl e ↦ rw e (
      All-insert_desc (λ z. id z ≤ id y) x ys (ground (arith, e)) below_y,
      insert_desc-IsDescending x ys d,
    )
    | inr e ↦
        let top : id y ≤ id x = ground (arith, e) in
        rw e (
          (
            top,
            All-map (λ z. id z ≤ id y) (λ z. id z ≤ id x) (λ z h. omega (arith, h, top)) ys below_y,
          ),
          (below_y, d),
        )
  ]

  pub sort_desc-IsDescending : (xs : List A) → IsDescending (sort_desc id xs)
  unfolding sort_desc
  sort_desc-IsDescending [] = tt
  sort_desc-IsDescending (x ∷ xs) =
      insert_desc-IsDescending x (sort_desc id xs) (sort_desc-IsDescending xs)

  pub drop-IsDescending : (n : ℕ) (xs : List A) → IsDescending xs → IsDescending (drop n xs)
  drop-IsDescending zero xs d = d
  drop-IsDescending (suc n) [] d = tt
  drop-IsDescending (suc n) (x ∷ xs) d = drop-IsDescending n xs d.1

  pub take-IsDescending : (n : ℕ) (xs : List A) → IsDescending xs → IsDescending (take n xs)
  take-IsDescending zero xs d = tt
  take-IsDescending (suc n) [] d = tt
  take-IsDescending (suc n) (x ∷ xs) (h, d) =
      (All-take (λ y. id y ≤ id x) n xs h, take-IsDescending n xs d)

module _ {A : Type 0} where
  pub All-drop : (P : A → Type 0) (n : ℕ) (xs : List A) → All P xs → All P (drop n xs)
  All-drop P zero xs h = h
  All-drop P (suc n) [] h = tt
  All-drop P (suc n) (x ∷ xs) h = All-drop P n xs h.1
