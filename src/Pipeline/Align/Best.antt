-- ===== src/Pipeline/Align/Best.antt =====
-- The cluster that a Segment gets is one of the best.
use meeting_mgr.Base.{
  ℕ, ◌≤◌, ◌≡◌, refl, ◌↔◌, ◌⊎◌, inl, inr, Option, none, some, List, [], ◌∷◌, arith, ltb, Bool-cases,
  All, Elem, here, there,
}
use meeting_mgr.Models.{SpeakerCluster, Segment}
use meeting_mgr.Pipeline.Align.{total_overlap, best_cluster}

-- The choice is never worse than any cluster, and no choice means that nothing overlaps.
pub record IsBest (seg : Segment) (cs : List SpeakerCluster) (best_id : Option ℕ) (best : ℕ)
    : Type 0 where
  pub upper : All (λ c. total_overlap seg c.spans ≤ best) cs
  pub none_iff : (best_id ≡ none) ↔ (best ≡ 0)
  pub attained :
      (i : ℕ)
      → best_id ≡ some i
      → (c : SpeakerCluster) × Elem c cs × (c.id ≡ i) × (total_overlap seg c.spans ≡ best)

-- What the loop makes of the clusters that are left, from the best so far.
record Improves (seg : Segment) (cs : List SpeakerCluster) (start_id : Option ℕ) (start : ℕ)
    (best_id : Option ℕ) (best : ℕ) : Type 0 where
  grows : start ≤ best
  covers : All (λ c. total_overlap seg c.spans ≤ best) cs
  from :
      (i : ℕ)
      → best_id ≡ some i
      → ((start_id ≡ some i) × (start ≡ best))
        ⊎ ((c : SpeakerCluster) × Elem c cs × (c.id ≡ i) × (total_overlap seg c.spans ≡ best))
  none_kept : (start_id ≡ none → start ≡ 0) → best_id ≡ none → best ≡ 0
  none_back : (start ≡ 0 → start_id ≡ none) → best ≡ 0 → best_id ≡ none

loop-Improves :
    (seg : Segment) (cs : List SpeakerCluster) (id : Option ℕ) (best : ℕ)
    → (b : ℕ) × Improves seg cs id best (best_cluster seg cs id best) b
unfolding best_cluster
loop-Improves seg [] id best = (
  best,
  record {
    grows = omega arith;
    covers = tt;
    from = λ i h. inl (h, refl);
    none_kept = λ k h. k h;
    none_back = λ k h. k h;
  },
)
loop-Improves seg (c ∷ cs) id best =
    let total = total_overlap seg c.spans in
    elim (Bool-cases (ltb best total)) [
      | inl e ↦
          let (b, p) = loop-Improves seg cs (some c.id) total in
          rw e (
            b,
            record {
              grows = ground (arith, e, p.grows);
              covers = (p.grows, p.covers);
              from = λ i h. elim (p.from i h) [
                | inl (s, t) ↦ inr (c, here, ground (arith, s), t)
                | inr (d, m, s, t) ↦ inr (d, there m, s, t)
              ];
              none_kept = λ k h. p.none_kept (λ q. cc q) h;
              none_back = λ k h. p.none_back (λ q. ground (arith, e, q)) h;
            },
          )
      | inr e ↦
          let (b, p) = loop-Improves seg cs id best in
          rw e (
            b,
            record {
              grows = p.grows;
              covers = (ground (arith, e, p.grows), p.covers);
              from = λ i h. elim (p.from i h) [
                | inl st ↦ inl st
                | inr (d, m, s, t) ↦ inr (d, there m, s, t)
              ];
              none_kept = p.none_kept;
              none_back = p.none_back;
            },
          )
    ]

-- The speaker cluster that a Segment gets overlaps it at least as long as every other one does, is
-- one of the clusters, and is none exactly if no cluster overlaps the Segment.
pub best_cluster-IsBest :
    (seg : Segment) (cs : List SpeakerCluster)
    → (best : ℕ) × IsBest seg cs (best_cluster seg cs none 0) best
best_cluster-IsBest seg cs =
    let (b, p) = loop-Improves seg cs none 0 in
    (
      b,
      record {
        upper = p.covers;
        none_iff = (p.none_kept (λ _. refl), p.none_back (λ _. refl));
        attained = λ i h. elim (p.from i h) [ inl (s, t) ↦ cc s | inr found ↦ found ];
      },
    )
