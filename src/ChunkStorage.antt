-- ===== src/ChunkStorage.antt =====
-- src/meeting_mgr/chunk_storage.py, and the order that `finish` puts the chunks in.
pub mod RoundTrip
pub mod Order
use meeting_mgr.Base.{
  ℕ, suc, ◌+◌, ◌-◌, ◌/◌, ◌<◌, ap, Bool, true, false, Option, none, List, [], ◌∷◌, ◌++◌, map, leb,
  if◌then◌else◌,
}
use meeting_mgr.Base.Text.{Text, codes, remove_prefix, remove_suffix}
use meeting_mgr.Base.Decimal.{ℤ, decimal, six_digits, int_of, pos, negsuc}
use meeting_mgr.Db.State.{value_error, err}
use meeting_mgr.Db.Action.{Action, pure, raise, ◌>>=◌, ◌>>◌, one, or_raise}

-- f"raw/{meeting_id}/{subdir}/"
unfoldable pub chunk_prefix : ℕ → Text → Text
unfolding decimal
chunk_prefix meeting_id subdir =
    codes "raw/" ++ (decimal meeting_id ++ (codes "/" ++ (subdir ++ codes "/")))

-- f"{chunk_prefix(meeting_id, subdir)}{seq:06d}{suffix}"
unfoldable pub chunk_key : ℕ → ℤ → Text → Text → Text
unfolding chunk_prefix six_digits
chunk_key meeting_id seq subdir suffix =
    chunk_prefix meeting_id subdir ++ (six_digits seq ++ suffix)

-- `none` is the ValueError of `int`.
unfoldable pub chunk_seq : Text → Text → Text → Option ℤ
unfolding remove_prefix remove_suffix int_of
chunk_seq prefix suffix key = int_of (remove_suffix suffix (remove_prefix prefix key))

-- `a <= b`
unfoldable pub leb_ℤ : ℤ → ℤ → Bool
leb_ℤ (pos a) (pos b) = leb a b
leb_ℤ (pos a) (negsuc b) = false
leb_ℤ (negsuc a) (pos b) = true
leb_ℤ (negsuc a) (negsuc b) = leb b a

-- The keys with what `key=` gives for each; the first key that is no chunk raises.
unfoldable pub with_seqs : Text → Text → List Text → Action (List (ℤ × Text))
unfolding chunk_seq
with_seqs prefix suffix [] = pure []
with_seqs prefix suffix (k ∷ ks) = do
  seq ← or_raise (chunk_seq prefix suffix k) value_error
  rest ← with_seqs prefix suffix ks
  pure ((seq, k) ∷ rest)

unfoldable pub insert_by_seq : ℤ × Text → List (ℤ × Text) → List (ℤ × Text)
unfolding leb_ℤ
insert_by_seq x [] = x ∷ []
insert_by_seq x (y ∷ ys) = if leb_ℤ x.0 y.0 then x ∷ y ∷ ys else y ∷ insert_by_seq x ys

-- Python's sort, which is stable.
unfoldable pub sort_by_seq : List (ℤ × Text) → List (ℤ × Text)
unfolding insert_by_seq
sort_by_seq [] = []
sort_by_seq (x ∷ xs) = insert_by_seq x (sort_by_seq xs)

-- `sorted(keys, key=lambda k: chunk_seq(prefix, suffix, k))`
unfoldable pub sorted_keys : Text → Text → List Text → Action (List Text)
unfolding with_seqs sort_by_seq
sorted_keys prefix suffix keys = do
  pairs ← with_seqs prefix suffix keys
  pure (map (λ p. p.1) (sort_by_seq pairs))

-- `sorted(chunk_seq(prefix, suffix, k) for k in keys)`
unfoldable pub sorted_seqs : Text → Text → List Text → Action (List ℤ)
unfolding with_seqs sort_by_seq
sorted_seqs prefix suffix keys = do
  pairs ← with_seqs prefix suffix keys
  pure (map (λ p. p.0) (sort_by_seq pairs))
