-- ===== src/Retention/Outcome.antt =====
-- When `select_purge_candidates` returns, and what its candidates are.
use meeting_mgr.Db.Laws.{after}
use meeting_mgr.Base.{
  ℕ, ◌+◌, ◌≤◌, ◌<◌, ◌≡◌, refl, ap, ◌∙◌, ◌≢◌, ◌⊎◌, inl, inr, Option, none, some, List, [], ◌∷◌, ◌++◌,
  map, arith, ◌==◌, filter, All, Elem, All-append,
}
use meeting_mgr.Models.{Meeting, RetentionPolicy}
use meeting_mgr.Db.State.{Db, World, overflow_error, ok, err}
use meeting_mgr.Db.Action.{Action, pure, ◌>>=◌, gets_db, one_or_none}
use meeting_mgr.Db.Session.{Session, meetings, policies}
use meeting_mgr.Db.Time.{days}
use meeting_mgr.Retention.{
  PurgeCandidate, candidate, oldest_first, limited, full_eligible, audio_eligible, unique,
  full_part, audio_part, candidates_under, select_purge_candidates, audio, full, get_policy,
}
use meeting_mgr.Retention.Due.{
  InRange, cutoff_outcome, Due, full-Due, LeftOut, full_ids-LeftOut, audio-Due, due_full, due_audio,
}

module _ (s : Session) (org_id : ℕ) (policy : RetentionPolicy) (limit : Option ℕ) (w : World) where
  abbrev Cands : Type 0
  Cands = List ℕ × List PurgeCandidate

  abbrev full_found : ℕ → Db → Cands
  full_found before db =
      let rows = full_eligible s org_id before db in
      (map (λ m. m.id) rows, map (candidate s db full) (limited limit (oldest_first rows)))

  abbrev audio_found : List ℕ → ℕ → Db → List PurgeCandidate
  audio_found ids before db =
      map (candidate s db audio)
        (unique (limited limit (oldest_first (audio_eligible s org_id before ids db))))

  full_part_outcome :
      (days_set : Option ℕ)
      → policy.meeting_retention_days ≡ days_set
      → ((r : Cands) × InRange w.now days_set
          × (full_part s org_id w.now limit days_set w ≡ (ok r, w))
          × LeftOut s org_id w.now policy w.db r.0
          × All (Due s org_id w.now policy w.db) r.1)
        ⊎ ((¬ InRange w.now days_set)
            × (full_part s org_id w.now limit days_set w ≡ (err overflow_error, w)))
  unfolding full_part
  full_part_outcome none h = inl (([], []), tt, refl, λ m k e o out hk. cc (h, hk), tt)
  full_part_outcome (some n) h = elim (cutoff_outcome w.now n w) [
    | inl (before, sum, range, run) ↦ inl (
      full_found before w.db,
      range,
      ap (λ r. after r (λ b. gets_db (full_found b))) run,
      full_ids-LeftOut s org_id w.now policy w.db n before h sum,
      full-Due s org_id w.now policy w.db limit n before h sum,
    )
    | inr (bad, run) ↦ inr (bad, ap (λ r. after r (λ b. gets_db (full_found b))) run)
  ]

  audio_part_outcome :
      (days_set : Option ℕ) (ids : List ℕ)
      → policy.audio_retention_days ≡ days_set
      → LeftOut s org_id w.now policy w.db ids
      → ((cs : List PurgeCandidate) × InRange w.now days_set
          × (audio_part s org_id w.now limit ids days_set w ≡ (ok cs, w))
          × All (Due s org_id w.now policy w.db) cs)
        ⊎ ((¬ InRange w.now days_set)
            × (audio_part s org_id w.now limit ids days_set w ≡ (err overflow_error, w)))
  unfolding audio_part
  audio_part_outcome none ids h left = inl ([], tt, refl, tt)
  audio_part_outcome (some n) ids h left = elim (cutoff_outcome w.now n w) [
    | inl (before, sum, range, run) ↦ inl (
      audio_found ids before w.db,
      range,
      ap (λ r. after r (λ b. gets_db (audio_found ids b))) run,
      audio-Due s org_id w.now policy w.db limit n before ids h sum left,
    )
    | inr (bad, run) ↦ inr (bad, ap (λ r. after r (λ b. gets_db (audio_found ids b))) run)
  ]

  -- Both day counts give a time.
  abbrev pub BothInRange : Type 0
  BothInRange =
      InRange w.now policy.meeting_retention_days × InRange w.now policy.audio_retention_days

  abbrev with_audio : Cands → Action (List PurgeCandidate)
  with_audio r = do
    more ← audio_part s org_id w.now limit r.0 policy.audio_retention_days
    pure (r.1 ++ more)

  candidates_outcome :
      ((cs : List PurgeCandidate) × BothInRange
        × (candidates_under s org_id w.now limit (some policy) w ≡ (ok cs, w))
        × All (Due s org_id w.now policy w.db) cs)
      ⊎ ((¬ BothInRange)
          × (candidates_under s org_id w.now limit (some policy) w ≡ (err overflow_error, w)))
  candidates_outcome = elim (full_part_outcome policy.meeting_retention_days refl) [
    | inr (bad, run) ↦ inr (λ r. bad r.0, ap (λ r. after r with_audio) run)
    | inl ((ids, cs), range, run, left, due) ↦
        elim (audio_part_outcome policy.audio_retention_days ids refl left) [
          | inl (more, range', run', due') ↦ inl (
            cs ++ more,
            (range, range'),
            ap (λ r. after r with_audio) run ∙ ap (λ r. after r (λ more. pure (cs ++ more))) run',
            All-append (Due s org_id w.now policy w.db) cs more due due',
          )
          | inr (bad, run') ↦ inr (
            λ r. bad r.1,
            ap (λ r. after r with_audio) run ∙ ap (λ r. after r (λ more. pure (cs ++ more))) run',
          )
        ]
  ]

  abbrev PolicyIs : Type 0
  PolicyIs = filter (λ p. p.organization_id == org_id) (policies s w.db) ≡ policy ∷ []

  select-candidates :
      PolicyIs
      → select_purge_candidates s org_id limit w
        ≡ candidates_under s org_id w.now limit (some policy) w
  unfolding select_purge_candidates get_policy
  select-candidates h =
      ap (λ rows. (one_or_none rows >>= candidates_under s org_id w.now limit) w) h

  -- For an Organization with one policy row, both of whose day counts give a time if they are set,
  -- the selection returns and changes nothing, and each candidate is due: a Meeting of the
  -- Organization that is as old as the policy says, for an audio purge one with a raw object that
  -- is not due for a full purge, on this page or any other.
  pub selection-Due :
      PolicyIs
      → BothInRange
      → (cs : List PurgeCandidate) × (select_purge_candidates s org_id limit w ≡ (ok cs, w))
        × All (Due s org_id w.now policy w.db) cs
  selection-Due h range = elim candidates_outcome [
    | inl (cs, _, run, due) ↦ (cs, select-candidates h ∙ run, due)
    | inr (bad, run) ↦ absurd (bad range)
  ]

  -- For an Organization with one policy row, a day count that reaches back beyond the first
  -- datetime, or is too large for a timedelta, makes the selection raise an OverflowError and
  -- change nothing.
  pub selection_overflows :
      PolicyIs → ¬ BothInRange → select_purge_candidates s org_id limit w ≡ (err overflow_error, w)
  selection_overflows h out = elim candidates_outcome [
    | inl (cs, range, run, due) ↦ absurd (out range)
    | inr (bad, run) ↦ select-candidates h ∙ run
  ]

same_row :
    (m m' : Meeting) (now n : ℕ) (days_set : Option ℕ)
    → days_set ≡ some n
    → m.created_at + days n ≤ now
    → m ≡ m'
    → ¬ ((k : ℕ) → days_set ≡ some k → now < m'.created_at + days k)
same_row m m' now n days_set h old e young =
    omega (arith, old, young n h, ap (λ (m : Meeting). m.created_at) e)

-- Where the ids of the Meetings in sight are unique, no Meeting is due for both kinds of purge.
pub never_both_kinds :
    (s : Session) (org_id now : ℕ) (policy : RetentionPolicy) (db : Db) (c d : PurgeCandidate)
    → ((m m' : Meeting) → Elem m (meetings s db) → Elem m' (meetings s db) → m.id ≡ m'.id → m ≡ m')
    → Due s org_id now policy db c
    → Due s org_id now policy db d
    → c.kind ≡ full
    → d.kind ≡ audio
    → c.meeting_id ≢ d.meeting_id
never_both_kinds s org_id now policy db c d unique_ids (due_full m n h e o old)
      (due_audio m' n' h' e' o' old' raw young) hc hd same =
    same_row m m' now n policy.meeting_retention_days h old (unique_ids m m' e e' same) young
never_both_kinds s org_id now policy db c d unique_ids (due_audio m n h e o old raw young) y hc hd
      same =
    cc hc
never_both_kinds s org_id now policy db c d unique_ids (due_full m n h e o old)
      (due_full m' n' h' e' o' old') hc hd same =
    cc hd
