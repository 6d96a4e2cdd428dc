-- ===== src/Capture/Marking.antt =====
-- What each step of browser capture does to the rows of a Meeting that are "finishing" and to its
-- Recordings.
use meeting_mgr.Base.{
  ℕ, ◌+◌, ◌≤◌, ◌≡◌, refl, sym, subst, inl, inr, true, false, List, [], ◌∷◌, arith, ◌==◌,
  if◌then◌else◌, ==_iff, Bool-cases, any,
}
use meeting_mgr.Base.Text.{Text}
use meeting_mgr.Models.{Status, Account, pending, capturing, finishing}
use meeting_mgr.Db.State.{Db, World, Result}
use meeting_mgr.Capture.{status_eq, flip_write, finish_commit}
use meeting_mgr.Capture.Outcomes.{with_meetings, flipped, flip_write_lem}
use meeting_mgr.Capture.Commits.{
  takes, taken, finish_commit_empty, new_recording, committed, finish_commit_outcome,
}
use meeting_mgr.Capture.Counts.{
  rows, finishings, recs, finishings-le-rows, rows-flipped, finishings-flipped_other, rows-taken,
  finishings-taken_le, finishings-taken_lt, recs-append,
}

-- Ids are not given twice: a Meeting has one row at most, and none from the next id on.
pub record IsConsistent (n : ℕ) (db : Db) : Type 0 where
  pub single : (mid : ℕ) → rows mid db.meetings ≤ 1
  pub fresh_rows : (mid : ℕ) → n ≤ mid → rows mid db.meetings ≡ 0

abbrev pub Holds : World → Type 0
Holds w = IsConsistent w.next_id w.db

-- The Recordings of a Meeting, and one more that is to come if it is "finishing".
abbrev pub owed : ℕ → World → ℕ
owed mid w = recs mid w.db.recordings + finishings mid w.db.meetings

-- A step that owes at most `n mid` Recordings more for each Meeting.
pub record Moves (n : ℕ → ℕ) (w w' : World) : Type 0 where
  pub holds : Holds w'
  pub bound : (mid : ℕ) → owed mid w' ≤ owed mid w + n mid

-- No Meeting, and the one that is named.
abbrev pub nobody : ℕ → ℕ
nobody mid = 0

abbrev pub only : ℕ → ℕ → ℕ
only t mid = if t == mid then 1 else 0

-- Nothing that concerns the Meetings is done.
pub record Quiet (w w' : World) : Type 0 where
  pub db : w'.db ≡ w.db
  pub ids : w.next_id ≤ w'.next_id

pub quiet-Moves : (w w' : World) → Quiet w w' → Holds w → Moves nobody w w'
quiet-Moves w w' q c = record {
  holds = record {
    single = λ mid. subst (λ (db : Db). rows mid db.meetings ≤ 1) (sym q.db) (c.single mid);
    fresh_rows = λ mid h.
        subst (λ (db : Db). rows mid db.meetings ≡ 0) (sym q.db)
          (c.fresh_rows mid (omega (arith, h, q.ids)));
  };
  bound = λ mid.
      subst (λ (db : Db). recs mid db.recordings + finishings mid db.meetings ≤ owed mid w + 0)
        (sym q.db) (omega arith);
}

pub write-Moves :
    (t : ℕ) (a : Account) (w : World) → Holds w → Moves (only t) w (flip_write t a w).1
write-Moves t a w c =
    let o = a.organization_id in
    subst (λ (r : Result (Unit {0}) × World). Moves (only t) w r.1) (sym (flip_write_lem t a w))
      (record {
        holds = record {
          single = λ mid. omega (arith, rows-flipped o t mid w.db.meetings, c.single mid);
          fresh_rows =
              λ mid h. omega (arith, rows-flipped o t mid w.db.meetings, c.fresh_rows mid h);
        };
        bound = λ mid. elim (Bool-cases (t == mid)) [
          | inl e ↦ ground (
            arith,
            e,
            finishings-le-rows mid (flipped o t w.db.meetings),
            rows-flipped o t mid w.db.meetings,
            c.single mid,
          )
          | inr e ↦ ground (arith, e, finishings-flipped_other o t mid w.db.meetings e)
        ];
      })

-- The conditional update alone.
taken-Moves :
    (o t : ℕ) (to : Status) (w : World)
    → status_eq to finishing ≡ false
    → Holds w
    → Moves nobody w (with_meetings (taken o t to w.db.meetings) w)
taken-Moves o t to w h c = record {
  holds = record {
    single = λ mid. omega (arith, rows-taken o t mid to w.db.meetings, c.single mid);
    fresh_rows = λ mid g. omega (arith, rows-taken o t mid to w.db.meetings, c.fresh_rows mid g);
  };
  bound = λ mid. omega (arith, finishings-taken_le o t mid to w.db.meetings h);
}

-- The Recording that a winner adds was owed.
committed-Moves :
    (o t : ℕ) (keys : List Text) (w : World)
    → any (takes o t) w.db.meetings ≡ true
    → Holds w
    → Moves nobody w (committed o t keys w)
committed-Moves o t keys w won c = record {
  holds = record {
    single = λ mid. omega (arith, rows-taken o t mid pending w.db.meetings, c.single mid);
    fresh_rows = λ mid h.
        omega
          (arith, rows-taken o t mid pending w.db.meetings, c.fresh_rows mid (omega (arith, h)));
  };
  bound = λ mid. elim (Bool-cases (t == mid)) [
    | inl e ↦
        subst (λ i. owed i (committed o t keys w) ≤ owed i w + 0) ((==_iff t mid).0 e)
          (ground (
            arith,
            recs-append t w.db.recordings (new_recording w.next_id t),
            finishings-taken_lt o t w.db.meetings won,
          ))
    | inr e ↦ ground (
      arith,
      e,
      recs-append mid w.db.recordings (new_recording w.next_id t),
      finishings-taken_le o t mid pending w.db.meetings refl,
    )
  ];
}

pub commit-Moves :
    (t : ℕ) (a : Account) (keys : List Text) (w : World)
    → Holds w
    → Moves nobody w (finish_commit t a keys w).1
commit-Moves t a [] w c =
    subst (λ r. Moves nobody w r.1) (sym (finish_commit_empty t a w))
      (taken-Moves a.organization_id t capturing w refl c)
commit-Moves t a (k ∷ ks) w c = elim (finish_commit_outcome t a k ks w) [
  | inl (lost, run) ↦
      subst (λ r. Moves nobody w r.1) (sym run) (taken-Moves a.organization_id t pending w refl c)
  | inr (won, inl run) ↦
      subst (λ r. Moves nobody w r.1) (sym run)
        (committed-Moves a.organization_id t (k ∷ ks) w won c)
  | inr (won, inr back) ↦
      quiet-Moves w (finish_commit t a (k ∷ ks) w).1 (record { db = back.rows; ids = back.ids }) c
]
