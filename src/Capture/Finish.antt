-- ===== src/Capture/Finish.antt =====
-- What a finish that wins leaves for the pipeline and for the purge, and what an upload stores.
use meeting_mgr.Base.{
  ℕ, ◌≡◌, refl, sym, ap, ◌∙◌, subst, ◌≢◌, inl, inr, Bool, true, false, some, List, [], ◌∷◌, ◌++◌,
  if◌then◌else◌, any, append_nil,
}
use meeting_mgr.Base.Text.{Text, text_eq_refl}
use meeting_mgr.Models.{Account}
use meeting_mgr.Db.State.{Body, World, Result, json, ok}
use meeting_mgr.Storage.{Objects, without, lookup}
use meeting_mgr.Purge.{raw_kind, manifest}
use meeting_mgr.Purge.Recovery.{listed, named}
use meeting_mgr.Capture.{manifest_key, manifest_ref, Outcome, finish_commit, done, empty, duplicate}
use meeting_mgr.Capture.Commits.{
  takes, finish_commit_empty, new_recording, committed, finish_commit_outcome,
}

-- The manifest mark that a finish writes is the one that the purge reads.
raw_kind-manifest_ref : (key : Text) → raw_kind (some (manifest_ref key)) ≡ manifest key
unfolding raw_kind
raw_kind-manifest_ref key = refl

lookup-put : (key : Text) (body : Body) (o : Objects) → lookup key ((key, body) ∷ o) ≡ some body
unfolding lookup
lookup-put key body o = rw (text_eq_refl key) refl

committed_names :
    (o mid : ℕ) (keys : List Text) (w : World)
    → named (committed o mid keys w).objects (new_recording w.next_id mid)
      ≡ keys ++ manifest_key mid ∷ []
unfolding raw_kind lookup
committed_names o mid keys w =
    ap (λ found. (listed found ++ manifest_key mid ∷ []) ++ [])
      (lookup-put (manifest_key mid) (json keys) (without (manifest_key mid) w.objects))
    ∙ append_nil (keys ++ manifest_key mid ∷ [])

not_done :
    (b : Bool) (v v' : World)
    → ◌≢◌ {A = Result Outcome × World} (ok (if b then empty else duplicate), v) (ok done, v')
not_done true v v' e = cc
not_done false v v' e = cc

-- A finish that reports success is the one that won.
pub done_is_committed :
    (mid : ℕ) (a : Account) (keys : List Text) (w w' : World)
    → finish_commit mid a keys w ≡ (ok done, w')
    → committed a.organization_id mid keys w ≡ w'
done_is_committed mid a [] w w' h = absurd (
    not_done (any (takes a.organization_id mid) w.db.meetings) _ w'
      (sym (finish_commit_empty mid a w) ∙ h))
done_is_committed mid a (k ∷ ks) w w' h = elim (finish_commit_outcome mid a k ks w) [
  | inl (lost, run) ↦ cc (run, h)
  | inr (won, inl run) ↦ ap (λ (r : Result Outcome × World). r.1) (sym run ∙ h)
  | inr (won, inr back) ↦ cc (back.raised, h)
]

pub committed_manifest :
    (o mid : ℕ) (keys : List Text) (w : World)
    → lookup (manifest_key mid) (committed o mid keys w).objects ≡ some (json keys)
committed_manifest o mid keys w =
    lookup-put (manifest_key mid) (json keys) (without (manifest_key mid) w.objects)

-- After a finish that reports success there is one more Recording, and the keys that a purge of it
-- removes are the chunk keys of the snapshot, in its order, then the manifest's own key.
pub finished_is_purgeable :
    (mid : ℕ) (a : Account) (keys : List Text) (w w' : World)
    → finish_commit mid a keys w ≡ (ok done, w')
    → (w'.db.recordings ≡ w.db.recordings ++ new_recording w.next_id mid ∷ [])
      × (named w'.objects (new_recording w.next_id mid) ≡ keys ++ manifest_key mid ∷ [])
finished_is_purgeable mid a keys w w' h =
    subst
      (λ v.
        (v.db.recordings ≡ w.db.recordings ++ new_recording w.next_id mid ∷ [])
        × (named v.objects (new_recording w.next_id mid) ≡ keys ++ manifest_key mid ∷ []))
      (done_is_committed mid a keys w w' h) (refl, committed_names a.organization_id mid keys w)
