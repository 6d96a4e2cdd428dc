-- ===== src/Base/Updates.antt =====
-- Filters of lists in which rows are updated.
use meeting_mgr.Base.{
  ◌≡◌, refl, ap, inl, inr, Bool, true, false, ◌&&◌, List, [], ◌∷◌, map, arith, Bool-cases, filter,
  any, update_where,
}

module _ {A : Type 0} where
  -- An update that does not bear on a test commutes with the filter.
  pub filter-update_where :
      (q p : A → Bool) (g : A → A)
      → ((x : A) → q (g x) ≡ q x)
      → (xs : List A) → filter q (update_where p g xs) ≡ update_where p g (filter q xs)
  filter-update_where q p g h [] = refl
  filter-update_where q p g h (x ∷ xs) = elim (Bool-cases (p x)) [
    | inl s ↦ elim (Bool-cases (q x)) [
      | inl t ↦ rw (s, h x, t, s) (ap (◌∷◌ (g x)) (filter-update_where q p g h xs))
      | inr t ↦ rw (s, h x, t) (filter-update_where q p g h xs)
    ]
    | inr s ↦ elim (Bool-cases (q x)) [
      | inl t ↦ rw (s, t, s) (ap (◌∷◌ x) (filter-update_where q p g h xs))
      | inr t ↦ rw (s, t) (filter-update_where q p g h xs)
    ]
  ]

  pub filter-filter_of :
      (q s : A → Bool)
      → ((x : A) → q x ≡ true → s x ≡ true)
      → (xs : List A) → filter q (filter s xs) ≡ filter q xs
  filter-filter_of q s h [] = refl
  filter-filter_of q s h (x ∷ xs) = ground (arith, h x, filter-filter_of q s h xs)

  pub filter_of_none : (q : A → Bool) (xs : List A) → any q xs ≡ false → filter q xs ≡ []
  filter_of_none q [] h = refl
  filter_of_none q (x ∷ xs) h = ground (arith, h, filter_of_none q xs)

  -- An update of none of the rows in question.
  pub update_where_of_none :
      (q p : A → Bool) (g : A → A)
      → ((x : A) → q x ≡ true → p x ≡ false)
      → ((x : A) → q (g x) ≡ q x)
      → (xs : List A) → filter q (update_where p g xs) ≡ filter q xs
  update_where_of_none q p g h k [] = refl
  update_where_of_none q p g h k (x ∷ xs) = elim (Bool-cases (q x)) [
    | inl t ↦ rw (h x t, t) (ap (◌∷◌ x) (update_where_of_none q p g h k xs))
    | inr t ↦ elim (Bool-cases (p x)) [
      | inl s ↦ rw (s, k x, t) (update_where_of_none q p g h k xs)
      | inr s ↦ rw (s, t) (update_where_of_none q p g h k xs)
    ]
  ]

pub filter-filter :
    {A : Type 0} (r s : A → Bool) (xs : List A)
    → filter r (filter s xs) ≡ filter (λ x. s x && r x) xs
filter-filter r s [] = refl
filter-filter r s (x ∷ xs) = ground (arith, filter-filter r s xs)

pub filter-map :
    {A B : Type 0} (p : B → Bool) (f : A → B) (xs : List A)
    → filter p (map f xs) ≡ map f (filter (λ x. p (f x)) xs)
filter-map p f [] = refl
filter-map p f (x ∷ xs) = ground (arith, filter-map p f xs)
