-- ===== src/ChunkStorage/Order.antt =====
-- The sort by sequence number: its result is ordered, and holds the same chunks.
use mathlib.Core.List.{Perm}
use mathlib.Core.List.Perm
use meeting_mgr.Base.{
  ◌≡◌, refl, ap, subst, inl, inr, true, false, some, List, [], ◌∷◌, map, arith, Bool-cases, is_some,
  some_of, All,
}
use meeting_mgr.Db.State.{World, ok}
use meeting_mgr.Base.Text.{Text}
use meeting_mgr.Base.Decimal.{ℤ, pos, negsuc}
use meeting_mgr.ChunkStorage.{chunk_seq, leb_ℤ, with_seqs, insert_by_seq, sort_by_seq, sorted_keys}

-- Each chunk's number is at most that of the next.
abbrev pub IsAscending : List (ℤ × Text) → Type 0
IsAscending [] = Unit
IsAscending (x ∷ []) = Unit
IsAscending (x ∷ y ∷ r) = (leb_ℤ x.0 y.0 ≡ true) × IsAscending (y ∷ r)

leb_total : (a b : ℤ) → leb_ℤ a b ≡ false → leb_ℤ b a ≡ true
unfolding leb_ℤ
leb_total (pos a) (pos b) h = ground arith
leb_total (pos a) (negsuc b) h = refl
leb_total (negsuc a) (pos b) h = cc
leb_total (negsuc a) (negsuc b) h = ground arith

insert-IsAscending :
    (x : ℤ × Text) (ys : List (ℤ × Text)) → IsAscending ys → IsAscending (insert_by_seq x ys)
unfolding insert_by_seq
insert-IsAscending x [] h = tt
insert-IsAscending x (y ∷ []) h = ground (arith, leb_total x.0 y.0)
insert-IsAscending x (y ∷ z ∷ r) h =
    ground (arith, leb_total x.0 y.0, insert-IsAscending x (z ∷ r) h.1)

sort-IsAscending : (xs : List (ℤ × Text)) → IsAscending (sort_by_seq xs)
unfolding sort_by_seq
sort-IsAscending [] = tt
sort-IsAscending (x ∷ xs) = insert-IsAscending x (sort_by_seq xs) (sort-IsAscending xs)

insert-perm : (x : ℤ × Text) (ys : List (ℤ × Text)) → Perm (insert_by_seq x ys) (x ∷ ys)
unfolding insert_by_seq
insert-perm x [] = Perm.refl (x ∷ [])
insert-perm x (y ∷ ys) = elim (Bool-cases (leb_ℤ x.0 y.0)) [
  | inl e ↦ rw e (Perm.refl (x ∷ y ∷ ys))
  | inr e ↦ rw e (Perm.trans (Perm.cons y (insert-perm x ys)) (Perm.swap x y ys))
]

sort-perm : (xs : List (ℤ × Text)) → Perm (sort_by_seq xs) xs
unfolding sort_by_seq
sort-perm [] = Perm.refl []
sort-perm (x ∷ xs) = Perm.trans (insert-perm x (sort_by_seq xs)) (Perm.cons x (sort-perm xs))

module _ (prefix suffix : Text) where
  -- The number that the pair carries is the key's.
  abbrev Numbered : ℤ × Text → Type 0
  Numbered p = chunk_seq prefix suffix p.1 ≡ some p.0

  -- Neighbours in the list are in the order of their numbers.
  abbrev pub InSeqOrder : List Text → Type 0
  InSeqOrder [] = Unit
  InSeqOrder (k ∷ []) = Unit
  InSeqOrder (k ∷ l ∷ r) =
      ((a : ℤ) × (b : ℤ) × (chunk_seq prefix suffix k ≡ some a)
        × (chunk_seq prefix suffix l ≡ some b)
        × (leb_ℤ a b ≡ true))
      × InSeqOrder (l ∷ r)

  insert-Numbered :
      (x : ℤ × Text) (ys : List (ℤ × Text))
      → Numbered x
      → All Numbered ys
      → All Numbered (insert_by_seq x ys)
  unfolding insert_by_seq
  insert-Numbered x [] h hs = (h, tt)
  insert-Numbered x (y ∷ ys) h hs = elim (Bool-cases (leb_ℤ x.0 y.0)) [
    | inl e ↦ rw e (h, hs)
    | inr e ↦ rw e (hs.0, insert-Numbered x ys h hs.1)
  ]

  sort-Numbered : (xs : List (ℤ × Text)) → All Numbered xs → All Numbered (sort_by_seq xs)
  unfolding sort_by_seq
  sort-Numbered [] h = tt
  sort-Numbered (x ∷ xs) h = insert-Numbered x (sort_by_seq xs) h.0 (sort-Numbered xs h.1)

  order_of_pairs :
      (xs : List (ℤ × Text)) → IsAscending xs → All Numbered xs → InSeqOrder (map (λ p. p.1) xs)
  order_of_pairs [] h n = tt
  order_of_pairs (x ∷ []) h n = tt
  order_of_pairs (x ∷ y ∷ r) h n = ((x.0, y.0, n.0, n.1.0, h.0), order_of_pairs (y ∷ r) h.1 n.1)

  with_seqs_cons :
      (k : Text) (ks : List Text) (w : World) {a : ℤ} {ps : List (ℤ × Text)}
      → chunk_seq prefix suffix k ≡ some a
      → with_seqs prefix suffix ks w ≡ (ok ps, w)
      → with_seqs prefix suffix (k ∷ ks) w ≡ (ok ((a, k) ∷ ps), w)
  unfolding with_seqs
  with_seqs_cons k ks w e f = ground arith

  with_seqs_total :
      (ks : List Text) (w : World)
      → All (λ k. is_some (chunk_seq prefix suffix k) ≡ true) ks
      → (ps : List (ℤ × Text)) × (with_seqs prefix suffix ks w ≡ (ok ps, w))
        × (map (λ p. p.1) ps ≡ ks)
        × All Numbered ps
  unfolding with_seqs
  with_seqs_total [] w h = ([], refl, refl, tt)
  with_seqs_total (k ∷ ks) w h =
      let (a, seq) = some_of (chunk_seq prefix suffix k) h.0 in
      let (ps, run, same, numbered) = with_seqs_total ks w h.1 in
      ((a, k) ∷ ps, with_seqs_cons k ks w seq run, ap (◌∷◌ k) same, (seq, numbered))

  sorted_keys_run :
      (keys : List Text) (w : World) {ps : List (ℤ × Text)}
      → with_seqs prefix suffix keys w ≡ (ok ps, w)
      → sorted_keys prefix suffix keys w ≡ (ok (map (λ p. p.1) (sort_by_seq ps)), w)
  unfolding sorted_keys
  sorted_keys_run keys w e = ground arith

  -- Where every key is a chunk's, the sort of a finish succeeds, changes nothing, and lists the
  -- same keys in the order of their numbers.
  pub sorted_keys_ordered :
      (keys : List Text) (w : World)
      → All (λ k. is_some (chunk_seq prefix suffix k) ≡ true) keys
      → (out : List Text) × (sorted_keys prefix suffix keys w ≡ (ok out, w))
        × Perm out keys
        × InSeqOrder out
  sorted_keys_ordered keys w h =
      let (ps, run, same, numbered) = with_seqs_total keys w h in
      (
        map (λ p. p.1) (sort_by_seq ps),
        sorted_keys_run keys w run,
        subst (Perm (map (λ p. p.1) (sort_by_seq ps))) same
            (Perm.map (λ (p : ℤ × Text). p.1) (sort-perm ps)),
        order_of_pairs (sort_by_seq ps) (sort-IsAscending ps) (sort-Numbered ps numbered),
      )
