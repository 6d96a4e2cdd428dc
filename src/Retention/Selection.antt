-- ===== src/Retention/Selection.antt =====
-- What `select_purge_candidates` selects.
use meeting_mgr.Base.{
  ℕ, ◌≡◌, inl, inr, Bool, true, not, ◌&&◌, Option, none, some, List, [], ◌∷◌, map, arith, leb, ◌==◌,
  Bool-cases, is_some, filter, any, All, All-append, All-take, All-filter_of,
}
use meeting_mgr.Models.{Meeting, Recording}
use meeting_mgr.Retention.{insert_by_age, oldest_first, limited, join_recordings, unique}

module _ {κ} (P : Meeting → Type κ) where
  pub All-insert : (m : Meeting) (ms : List Meeting) → P m → All P ms → All P (insert_by_age m ms)
  unfolding insert_by_age
  All-insert m [] p h = (p, tt)
  All-insert m (n ∷ ns) p h = elim (Bool-cases (leb m.created_at n.created_at)) [
    | inl e ↦ rw e (p, h)
    | inr e ↦ rw e (h.0, All-insert m ns p h.1)
  ]

  pub All-oldest : (ms : List Meeting) → All P ms → All P (oldest_first ms)
  unfolding oldest_first
  All-oldest [] h = tt
  All-oldest (m ∷ ms) h = All-insert m (oldest_first ms) h.0 (All-oldest ms h.1)

  pub All-limited : (limit : Option ℕ) (ms : List Meeting) → All P ms → All P (limited limit ms)
  All-limited none ms h = h
  All-limited (some n) ms h = All-take P n ms h

  pub All-unique : (ms : List Meeting) → All P ms → All P (unique ms)
  unfolding unique
  All-unique [] h = tt
  All-unique (m ∷ ms) h =
      (h.0, All-filter_of P (λ n. not (n.id == m.id)) (unique ms) (All-unique ms h.1))

abbrev pub has_raw : List Recording → Meeting → Bool
has_raw recs m = any (λ r. r.meeting_id == m.id && is_some r.raw_key) recs

-- The rows of a join have a Recording.
module _ {κ} (P : Meeting → Type κ) where
  All-copies :
      (recs : List Recording) (m : Meeting)
      → (has_raw recs m ≡ true → P m)
      → All P (map (λ r. m) (filter (λ r. r.meeting_id == m.id && is_some r.raw_key) recs))
  All-copies [] m h = tt
  All-copies (r ∷ recs) m h = elim (Bool-cases (r.meeting_id == m.id && is_some r.raw_key)) [
    | inl e ↦ rw e (h (ground (arith, e)), All-copies recs m (λ f. h (ground (arith, e, f))))
    | inr e ↦ rw e (All-copies recs m (λ f. h (ground (arith, e, f))))
  ]

  pub All-join :
      (recs : List Recording) (ms : List Meeting)
      → All
          (λ m.
            any (λ (r : Recording). r.meeting_id == m.id && is_some r.raw_key) recs ≡ true → P m)
          ms
      → All P (join_recordings recs ms)
  unfolding join_recordings
  All-join recs [] h = tt
  All-join recs (m ∷ ms) h =
      All-append P (map (λ r. m) (filter (λ r. r.meeting_id == m.id && is_some r.raw_key) recs))
        (join_recordings recs ms) (All-copies recs m h.0) (All-join recs ms h.1)
