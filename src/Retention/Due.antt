-- ===== src/Retention/Due.antt =====
-- The candidates of `select_purge_candidates` are due, each in one way only.
use meeting_mgr.Base.{
  ℕ, ◌+◌, ◌-◌, ◌≤◌, ◌<◌, ◌≡◌, ◌⊎◌, inl, inr, Bool, true, false, not, ◌&&◌, Option, none, some, List,
  [], ◌∷◌, map, arith, ltb, leb, ◌==◌, ==_refl, Bool-cases, filter, All, Elem, All-map,
  All-filter_with, All-Elem, here, there,
}
use meeting_mgr.Models.{Meeting, RetentionPolicy}
use meeting_mgr.Db.State.{Db, World, overflow_error, ok, err}
use meeting_mgr.Db.Session.{Session, meetings, recordings}
use meeting_mgr.Db.Time.{days, max_days, timedelta_days, minus}
use meeting_mgr.Retention.{
  PurgeCandidate, candidate, oldest_first, limited, cutoff, full_eligible, join_recordings, is_in,
  audio_eligible, unique, audio, full,
}
use meeting_mgr.Retention.Selection.{All-oldest, All-limited, All-unique, has_raw, All-join}

-- The day counts for which `now - timedelta(days=n)` is a time.
abbrev pub InRange : ℕ → Option ℕ → Type 0
InRange now none = Unit
InRange now (some n) = (n ≤ max_days) × (days n ≤ now)

-- `now - timedelta(days=n)` is a time, or an OverflowError; the world is as it was.
pub cutoff_outcome :
    (now n : ℕ) (w : World)
    → ((before : ℕ) × (before + days n ≡ now)
        × InRange now (some n)
        × (cutoff now n w ≡ (ok before, w)))
      ⊎ ((¬ InRange now (some n)) × (cutoff now n w ≡ (err overflow_error, w)))
unfolding cutoff timedelta_days minus
cutoff_outcome now n w = elim (Bool-cases (ltb max_days n)) [
  | inl e ↦ inr (λ r. ground (arith, e, r.0), ground (arith, e))
  | inr e ↦ elim (Bool-cases (ltb now (days n))) [
    | inl f ↦ inr (λ r. ground (arith, f, r.1), ground (arith, e, f))
    | inr f ↦ inl (
      now - days n,
      ground (arith, f),
      (ground (arith, e), ground (arith, f)),
      ground (arith, e, f),
    )
  ]
]

module _ (s : Session) (org_id now : ℕ) (policy : RetentionPolicy) (db : Db) where
  -- The ways for a candidate to be due. An audio purge is due only where the full one is not.
  pub data Due : PurgeCandidate → Type 0 where
    due_full :
        (m : Meeting) (n : ℕ)
        → policy.meeting_retention_days ≡ some n
        → Elem m (meetings s db)
        → m.organization_id ≡ org_id
        → m.created_at + days n ≤ now
        → Due (candidate s db full m)
    due_audio :
        (m : Meeting) (n : ℕ)
        → policy.audio_retention_days ≡ some n
        → Elem m (meetings s db)
        → m.organization_id ≡ org_id
        → m.created_at + days n ≤ now
        → has_raw (recordings s db) m ≡ true
        → ((k : ℕ) → policy.meeting_retention_days ≡ some k → now < m.created_at + days k)
        → Due (candidate s db audio m)

  -- What the filter of the full query says of a row.
  Eligible : ℕ → Meeting → Type 0
  Eligible before m =
      Elem m (meetings s db) × (m.organization_id ≡ org_id) × (m.created_at ≤ before)

  Eligible-rows : (before : ℕ) → All (Eligible before) (full_eligible s org_id before db)
  unfolding full_eligible Eligible
  Eligible-rows before =
      All-map
        (λ m.
          Elem m (meetings s db)
          × ((m.organization_id == org_id && leb m.created_at before) ≡ true))
        (Eligible before) (λ m h. (h.0, ground (arith, h.1), ground (arith, h.1)))
        (full_eligible s org_id before db)
        (All-filter_with (λ m. Elem m (meetings s db))
          (λ m. m.organization_id == org_id && leb m.created_at before) (meetings s db)
          (All-Elem (meetings s db)))

  All-map_candidate :
      (f : Meeting → PurgeCandidate) (P : Meeting → Type 0) (Q : PurgeCandidate → Type 0)
      → ((m : Meeting) → P m → Q (f m))
      → (ms : List Meeting) → All P ms
      → All Q (map f ms)
  All-map_candidate f P Q g [] h = tt
  All-map_candidate f P Q g (m ∷ ms) h = (g m h.0, All-map_candidate f P Q g ms h.1)

  pub full-Due :
      (limit : Option ℕ) (n before : ℕ)
      → policy.meeting_retention_days ≡ some n
      → before + days n ≡ now
      → All Due (
          map
            (candidate s db full)
            (limited limit (oldest_first (full_eligible s org_id before db))))
  unfolding Eligible
  full-Due limit n before hn hb =
      let rows = full_eligible s org_id before db in
      All-map_candidate (candidate s db full) (Eligible before) Due
        (λ m h. due_full m n hn h.0 h.1 (omega (arith, h.2, hb)))
        (limited limit (oldest_first rows))
        (All-limited (Eligible before) limit (oldest_first rows)
          (All-oldest (Eligible before) rows (Eligible-rows before)))

  is_in_full :
      (m : Meeting) (ms : List Meeting) (p : Meeting → Bool)
      → Elem m ms
      → p m ≡ true
      → is_in m.id (map (λ m. m.id) (filter p ms)) ≡ true
  is_in_full m [] p e h = elim e [ ]
  is_in_full m (m' ∷ ms) p here h = ground (arith, h, ==_refl m.id)
  is_in_full m (m' ∷ ms) p (there e) h = ground (arith, is_in_full m ms p e h)

  -- The ids that the full query gives are left out: none, without a policy for it.
  abbrev pub LeftOut : List ℕ → Type 0
  LeftOut ids =
      (m : Meeting) (k : ℕ)
      → Elem m (meetings s db)
      → m.organization_id ≡ org_id
      → is_in m.id ids ≡ false
      → policy.meeting_retention_days ≡ some k
      → now < m.created_at + days k

  pub full_ids-LeftOut :
      (n before : ℕ)
      → policy.meeting_retention_days ≡ some n
      → before + days n ≡ now
      → LeftOut (map (λ m. m.id) (full_eligible s org_id before db))
  unfolding full_eligible
  full_ids-LeftOut n before hn hb m k e o out hk = elim (Bool-cases (leb m.created_at before)) [
    | inl le ↦ cc (
      is_in_full m (meetings s db) (λ m. m.organization_id == org_id && leb m.created_at before) e
          (ground (arith, o, le)),
      out,
    )
    | inr gt ↦ ground (arith, gt, hb, hn, hk)
  ]

  pub audio-Due :
      (limit : Option ℕ) (n before : ℕ) (ids : List ℕ)
      → policy.audio_retention_days ≡ some n
      → before + days n ≡ now
      → LeftOut ids
      → All Due (
          map
            (candidate s db audio)
            (unique (limited limit (oldest_first (audio_eligible s org_id before ids db)))))
  unfolding audio_eligible Eligible
  audio-Due limit n before ids hn hb left =
      let Row : Meeting → Type 0 = λ m. Eligible before m × (has_raw (recordings s db) m ≡ true) in
      let Kept : Meeting → Type 0 = λ m. Row m × (not (is_in m.id ids) ≡ true) in
      let joined = join_recordings (recordings s db) (full_eligible s org_id before db) in
      let rows = filter (λ m. not (is_in m.id ids)) joined in
      All-map_candidate (candidate s db audio) Kept Due
        (λ m h.
          due_audio m n hn h.0.0.0 h.0.0.1 (omega (arith, h.0.0.2, hb)) h.0.1
            (λ k hk. left m k h.0.0.0 h.0.0.1 (ground (arith, h.1)) hk))
        (unique (limited limit (oldest_first rows)))
        (All-unique Kept (limited limit (oldest_first rows)) (
          All-limited Kept limit (oldest_first rows) (
            All-oldest Kept rows (
              All-filter_with Row (λ m. not (is_in m.id ids)) joined
                (All-join Row (recordings s db) (full_eligible s org_id before db) (
                  All-map (Eligible before) (λ m. has_raw (recordings s db) m ≡ true → Row m)
                    (λ m e h. (e, h)) (full_eligible s org_id before db)
                    (Eligible-rows before)))))))
