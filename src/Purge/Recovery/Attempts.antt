-- ===== src/Purge/Recovery/Attempts.antt =====
-- Whole purges, in their sessions, until one succeeds.
use meeting_mgr.Base.{ℕ, ◌≡◌, refl, sym, ap, ◌∙◌, subst, Bool, some, List, [], ◌∷◌}
use meeting_mgr.Base.Text.{Text}
use meeting_mgr.Models.{Recording}
use meeting_mgr.Db.State.{Db, World, Exc, Result, ok, err}
use meeting_mgr.Db.Action.{◌>>=◌, one_or_none}
use meeting_mgr.Db.Session.{Session, settle, tenant}
use meeting_mgr.Db.Laws.{after, settle_err, settle_ok}
use meeting_mgr.Storage.{Objects}
use meeting_mgr.Retention.{Kind}
use meeting_mgr.Purge.{raw_kind, purge_recording, recordings_of, purge_audio_objects, purge_by_kind}
use meeting_mgr.Purge.Objects.{Gone}
use meeting_mgr.Purge.Tail.{tail, tail_returns, purge_as_settle}
use meeting_mgr.Purge.Recovery.{named, IsProper}
use meeting_mgr.Purge.Recovery.Partial.{IsPartial, IsPartial-refl, fails-IsPartial, returns-Gone}

pub objects_as_recording :
    (s : Session) (mid : ℕ) (w : World) {rec : Recording}
    → recordings_of s mid w.db ≡ rec ∷ []
    → purge_audio_objects s mid w ≡ purge_recording (some rec) w
unfolding purge_audio_objects
objects_as_recording s mid w h = ap (λ rows. (one_or_none rows >>= purge_recording) w) h

-- Failed purges one after another; between two of them the clock goes on, and which calls fail
-- next is open.
pub data Attempts (org_id : ℕ) (kind : Kind) (mid : ℕ) : World → World → Type 0 where
  no_attempt : {w : World} → Attempts org_id kind mid w w
  attempt :
      {w w' w'' : World} {e : Exc}
      → purge_by_kind org_id kind mid w ≡ (err e, w')
      → (faults : List Bool) (now : ℕ)
      → Attempts org_id kind mid (record w' { faults = faults; now = now }) w''
      → Attempts org_id kind mid w w''

module _ (org_id : ℕ) (kind : Kind) (mid : ℕ) where
  whole_err :
      (db : Db) (r : Result (List Text) × World) {e : Exc} {w' : World}
      → settle db (after r (tail org_id kind mid)) ≡ (err e, w')
      → (x : Exc) × (v : World) × (r ≡ (err x, v)) × (w' ≡ record v { db = db })
  whole_err db (err x, v) h = (x, v, refl, sym (ap (λ (q : Result (Unit {0}) × World). q.1) h))
  whole_err db (ok keys, v) h =
      cc
        ((tail_returns org_id kind mid keys v).0, (settle_err db (tail org_id kind mid keys v) h).0)

  pub whole_ok :
      (db : Db) (r : Result (List Text) × World) {w' : World}
      → settle db (after r (tail org_id kind mid)) ≡ (ok tt, w')
      → (keys : List Text) × (v : World) × (r ≡ (ok keys, v)) × (w'.objects ≡ v.objects)
  whole_ok db (err x, v) h = cc
  whole_ok db (ok keys, v) h = (
    keys,
    v,
    refl,
    cc ((tail_returns org_id kind mid keys v).1, settle_ok db (tail org_id kind mid keys v) h),
  )

  module _ (rec : Recording) (o : Objects) (proper : IsProper o (raw_kind rec.raw_key)) where
    one_failure :
        (w : World) {e : Exc} {w' : World}
        → recordings_of (tenant org_id) mid w.db ≡ rec ∷ []
        → IsPartial rec o w.objects
        → purge_by_kind org_id kind mid w ≡ (err e, w')
        → (w'.db ≡ w.db) × IsPartial rec o w'.objects
    one_failure w {e} {w'} single part h =
        let (x, v, run, same) =
          whole_err w.db (purge_audio_objects (tenant org_id) mid w)
            (sym (purge_as_settle org_id mid kind w) ∙ h) in
        let part' =
          fails-IsPartial rec o w part proper
            (sym (objects_as_recording (tenant org_id) mid w single) ∙ run) in
        (
          ap (λ (u : World). u.db) same,
          subst (IsPartial rec o) (sym (ap (λ (u : World). u.objects) same)) part',
        )

    pub Attempts-IsPartial :
        {w w' : World}
        → Attempts org_id kind mid w w'
        → recordings_of (tenant org_id) mid w.db ≡ rec ∷ []
        → IsPartial rec o w.objects
        → (recordings_of (tenant org_id) mid w'.db ≡ rec ∷ []) × IsPartial rec o w'.objects
    Attempts-IsPartial no_attempt single part = (single, part)
    Attempts-IsPartial (attempt {w} run faults now rest) single part =
        let (db, part') = one_failure w single part run in
        Attempts-IsPartial rest
          (subst (λ d. recordings_of (tenant org_id) mid d ≡ rec ∷ []) (sym db) single) part'

  -- For a Meeting with one Recording whose manifest, if it has one, does not list itself: however
  -- many purges have failed, at whatever storage calls, a purge that then returns has removed every
  -- object that the Recording led to before the first of them: its raw object, or its manifest and
  -- all chunks that the manifest listed, and the normalized audio. Between attempts only the clock
  -- and the failures to come change.
  pub purge_recovers :
      (rec : Recording) (w w1 w2 : World)
      → recordings_of (tenant org_id) mid w.db ≡ rec ∷ []
      → IsProper w.objects (raw_kind rec.raw_key)
      → Attempts org_id kind mid w w1
      → purge_by_kind org_id kind mid w1 ≡ (ok tt, w2)
      → Gone (named w.objects rec) w2.objects
  purge_recovers rec w w1 w2 single proper tries h =
      let (single', part) =
        Attempts-IsPartial rec w.objects proper tries single (IsPartial-refl rec w.objects) in
      let (keys, v, run, same) =
        whole_ok w1.db (purge_audio_objects (tenant org_id) mid w1)
          (sym (purge_as_settle org_id mid kind w1) ∙ h) in
      subst (Gone (named w.objects rec)) (sym same) (
        returns-Gone rec w.objects w1 part
          (sym (objects_as_recording (tenant org_id) mid w1 single') ∙ run))
