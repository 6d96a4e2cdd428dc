-- ===== src/Capture/Commits.antt =====
-- The outcomes of the second transaction of a finish in browser capture.
use meeting_mgr.Base.{
  ℕ, suc, ◌≤◌, ◌≡◌, refl, sym, ap, subst, ◌⊎◌, inl, inr, Bool, true, false, ◌&&◌, none, some, List,
  [], ◌∷◌, ◌++◌, arith, ◌==◌, if◌then◌else◌, Bool-cases, any, update_where,
}
use meeting_mgr.Base.Text.{Text}
use meeting_mgr.Models.{Status, Account, Meeting, Recording, pending, capturing, finishing}
use meeting_mgr.Db.State.{
  Body, World, Exc, Result, json, row_security_violation, client_error, ok, err,
}
use meeting_mgr.Db.Action.{pure, ◌>>◌, next_fault, service_call}
use meeting_mgr.Db.Session.{Session, settle, sees_org, sees_meeting, tenant}
use meeting_mgr.Db.Rows.{add_recording, set_status}
use meeting_mgr.Db.Laws.{after, after_call}
use meeting_mgr.Storage.{without, put_object}
use meeting_mgr.Capture.{
  manifest_key, manifest_ref, status_eq, Outcome, leave_finishing, write_manifest, finish_commit,
  done, empty, duplicate,
}
use meeting_mgr.Capture.Outcomes.{with_meetings}

-- Which rows the conditional update of a finish takes.
abbrev pub takes : ℕ → ℕ → Meeting → Bool
takes o mid m = m.id == mid && sees_org (tenant o) m.organization_id && status_eq m.status finishing

-- The rows after that update.
abbrev pub taken : ℕ → ℕ → Status → List Meeting → List Meeting
taken o mid to ms = update_where (takes o mid) (set_status to) ms

-- A finish without chunks.
pub finish_commit_empty :
    (mid : ℕ) (a : Account) (w : World)
    → finish_commit mid a [] w ≡ (
      ok (if any (takes a.organization_id mid) w.db.meetings then empty else duplicate),
      with_meetings (taken a.organization_id mid capturing w.db.meetings) w,
    )
unfolding finish_commit leave_finishing
finish_commit_empty mid a w = refl

abbrev pub new_recording : ℕ → ℕ → Recording
new_recording id mid = record {
  id = id;
  meeting_id = mid;
  raw_key = some (manifest_ref (manifest_key mid));
  normalized_key = none;
  duration_seconds = none;
}

-- The world after a finish with chunks that won the transition.
abbrev pub committed : ℕ → ℕ → List Text → World → World
committed o mid keys w = record w {
  db = record w.db {
    meetings = taken o mid pending w.db.meetings;
    recordings = w.db.recordings ++ new_recording w.next_id mid ∷ [];
  };
  objects = (manifest_key mid, json keys) ∷ without (manifest_key mid) w.objects;
  faults = (next_fault w.faults).1;
  next_id = suc w.next_id;
}

-- A run that was rolled back: no row has changed, and sequences only go up.
pub record RolledBack {A : Type 0} (w : World) (r : Result A × World) : Type 0 where
  pub exception : Exc
  pub raised : r.0 ≡ err exception
  pub rows : r.1.db ≡ w.db
  pub ids : w.next_id ≤ r.1.next_id

put_object_outcome :
    (key : Text) (body : Body) (w : World)
    → (put_object key body w ≡ (err client_error, after_call w))
      ⊎ (put_object key body w
          ≡ (ok tt, record (after_call w) { objects = (key, body) ∷ without key w.objects }))
unfolding put_object service_call
put_object_outcome key body w = elim (Bool-cases (next_fault w.faults).0) [
  | inl e ↦ inl (ground arith)
  | inr e ↦ inr (ground arith)
]

-- The world with one more Recording.
abbrev with_recording : ℕ → World → World
with_recording mid w = record w {
  db = record w.db { recordings = w.db.recordings ++ new_recording w.next_id mid ∷ [] };
  next_id = suc w.next_id;
}

add_recording_outcome :
    (s : Session) (mid : ℕ) (w : World)
    → (add_recording s mid (manifest_ref (manifest_key mid)) w ≡ (ok tt, with_recording mid w))
      ⊎ (add_recording s mid (manifest_ref (manifest_key mid)) w
          ≡ (err row_security_violation, record w { next_id = suc w.next_id }))
unfolding add_recording
add_recording_outcome s mid w = elim (Bool-cases (sees_meeting s w.db mid)) [
  | inl e ↦ inl (ground arith)
  | inr e ↦ inr (ground arith)
]

-- A transaction that wins the transition ends with the manifest and the Recording, or is rolled
-- back.
module _ (o mid : ℕ) (keys : List Text) (w : World) where
  abbrev Written : Result Outcome × World → Type 0
  Written r = (r ≡ (ok done, committed o mid keys w)) ⊎ RolledBack w r

  abbrev updated : World
  updated = with_meetings (taken o mid pending w.db.meetings) w

  write_recording :
      (v : World)
      → v ≡ record (after_call updated) {
        objects = (manifest_key mid, json keys) ∷ without (manifest_key mid) w.objects;
      }
      → Written (
          settle w.db
            ((add_recording (tenant o) mid (manifest_ref (manifest_key mid)) >> pure done) v))
  write_recording v e = elim (add_recording_outcome (tenant o) mid v) [
    | inl run ↦
        subst (λ r. Written (settle w.db (after r (λ _. pure done)))) (sym run)
          (inl (ap (λ u. (ok done, with_recording mid u)) e))
    | inr run ↦
        subst (λ r. Written (settle w.db (after r (λ _. pure done)))) (sym run)
          (inr (record {
            exception = row_security_violation;
            raised = refl;
            rows = refl;
            ids = ground (arith, e);
          }))
  ]

  write_outcome : Written (settle w.db (write_manifest (tenant o) mid keys updated))
  unfolding write_manifest
  write_outcome = elim (put_object_outcome (manifest_key mid) (json keys) updated) [
    | inl run ↦
        subst
          (λ r. Written (
            settle w.db (
              after r (λ _.
                add_recording (tenant o) mid (manifest_ref (manifest_key mid)) >> pure done))))
          (sym run)
          (inr (record { exception = client_error; raised = refl; rows = refl; ids = omega arith }))
    | inr run ↦
        subst
          (λ r. Written (
            settle w.db (
              after r (λ _.
                add_recording (tenant o) mid (manifest_ref (manifest_key mid)) >> pure done))))
          (sym run) (write_recording _ refl)
  ]

-- A finish with chunks: the caller that finds no row in "finishing" does nothing.
pub finish_commit_outcome :
    (mid : ℕ) (a : Account) (k : Text) (ks : List Text) (w : World)
    → ((any (takes a.organization_id mid) w.db.meetings ≡ false)
        × (finish_commit mid a (k ∷ ks) w
            ≡ (ok duplicate, with_meetings (taken a.organization_id mid pending w.db.meetings) w)))
      ⊎ ((any (takes a.organization_id mid) w.db.meetings ≡ true)
          × Written a.organization_id mid (k ∷ ks) w (finish_commit mid a (k ∷ ks) w))
unfolding finish_commit leave_finishing
finish_commit_outcome mid a k ks w =
    let o = a.organization_id in
    let commit = λ (won : Bool). settle w.db (
      (if won then write_manifest (tenant o) mid (k ∷ ks) else pure duplicate)
        (updated o mid (k ∷ ks) w)) in
    elim (Bool-cases (any (takes o mid) w.db.meetings)) [
      | inl e ↦ inr (
        e,
        subst (λ r. Written o mid (k ∷ ks) w r) (sym (ap commit e))
            (write_outcome o mid (k ∷ ks) w),
      )
      | inr e ↦ inl (e, ap commit e)
    ]
