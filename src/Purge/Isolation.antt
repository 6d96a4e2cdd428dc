-- ===== src/Purge/Isolation.antt =====
-- What a purge does to a Meeting of another Organization.
use meeting_mgr.Db.Laws.{after}
use meeting_mgr.Base.{
  ℕ, ◌≡◌, refl, sym, ap, ap₂, ◌∙◌, inl, inr, false, not, ◌&&◌, List, [], ◌∷◌, arith, ◌==◌,
  if◌then◌else◌, ==_iff, Bool-cases, length, filter, any,
}
use meeting_mgr.Models.{Meeting, Recording}
use meeting_mgr.Db.State.{Db, World, ok}
use meeting_mgr.Db.Action.{◌>>=◌, one_or_none}
use meeting_mgr.Db.Session.{settle, sees_org, sees_meeting, tenant}
use meeting_mgr.Retention.{Kind, audio, full}
use meeting_mgr.Purge.{
  purge_recording, purge_audio_objects, delete_recordings, cascade, delete_meeting, purge_by_kind,
}
use meeting_mgr.Purge.Tail.{audited, tail, purge_as_settle}

-- The rows of a Meeting that the tenant does not see.
module _ (o mid : ℕ) (db : Db) (hidden : sees_meeting (tenant o) db mid ≡ false) where
  hidden_recording :
      (r : Recording) → (sees_meeting (tenant o) db r.meeting_id && r.meeting_id == mid) ≡ false
  hidden_recording r = elim (Bool-cases (r.meeting_id == mid)) [
    | inl e ↦ rw (((==_iff r.meeting_id mid).0 e), hidden) refl
    | inr e ↦ ground (arith, e)
  ]

  hidden_recordings :
      (rs : List Recording)
      → filter (λ r. r.meeting_id == mid) (filter (λ r. sees_meeting (tenant o) db r.meeting_id) rs)
        ≡ []
  hidden_recordings [] = refl
  hidden_recordings (r ∷ rs) = ground (arith, hidden_recording r, hidden_recordings rs)

  kept_recordings :
      (rs : List Recording)
      → filter (λ r. not (r.meeting_id == mid && sees_meeting (tenant o) db r.meeting_id)) rs ≡ rs
  kept_recordings [] = refl
  kept_recordings (r ∷ rs) = ground (arith, hidden_recording r, kept_recordings rs)

hidden_meetings :
    (o mid : ℕ) (ms : List Meeting)
    → any (λ m. m.id == mid && m.organization_id == o) ms ≡ false
    → length (filter (λ m. m.id == mid) (filter (λ m. m.organization_id == o) ms)) ≡ 0
hidden_meetings o mid [] h = refl
hidden_meetings o mid (m ∷ ms) h = ground (arith, h, hidden_meetings o mid ms)

pub sees-any :
    (o mid : ℕ) (db : Db)
    → sees_meeting (tenant o) db mid ≡ any (λ m. m.id == mid && m.organization_id == o) db.meetings
unfolding sees_meeting
sees-any o mid db = refl

no_objects :
    (o mid : ℕ) (w : World)
    → sees_meeting (tenant o) w.db mid ≡ false
    → purge_audio_objects (tenant o) mid w ≡ (ok [], w)
unfolding purge_audio_objects purge_recording
no_objects o mid w h =
    ap (λ rows. (one_or_none rows >>= purge_recording) w)
      (hidden_recordings o mid w.db h w.db.recordings)

no_meeting :
    (o mid : ℕ) (w : World)
    → sees_meeting (tenant o) w.db mid ≡ false
    → delete_meeting (tenant o) mid w ≡ (ok 0, w)
unfolding delete_meeting
no_meeting o mid w h =
    ap
      (λ n. (
        ok n,
        record w {
          db = if n == 0 then w.db else record (cascade mid w.db) {
            meetings =
                filter (λ m. not (m.id == mid && sees_org (tenant o) m.organization_id))
                  w.db.meetings;
          };
        },
      ))
      (hidden_meetings o mid w.db.meetings (sym (sees-any o mid w.db) ∙ h))

no_recording :
    (o mid : ℕ) (w : World)
    → sees_meeting (tenant o) w.db mid ≡ false
    → delete_recordings (tenant o) mid w ≡ (ok 0, w)
unfolding delete_recordings
no_recording o mid w h =
    ap₂ (λ n rs. (ok (length n), record w { db = record w.db { recordings = rs } }))
      (hidden_recordings o mid w.db h w.db.recordings)
      (kept_recordings o mid w.db h w.db.recordings)

no_tail :
    (o : ℕ) (kind : Kind) (mid : ℕ) (w : World)
    → sees_meeting (tenant o) w.db mid ≡ false
    → tail o kind mid [] w ≡ (ok tt, w)
unfolding tail audited
no_tail o full mid w h = ap (λ r. after r (audited o full mid [])) (no_meeting o mid w h)
no_tail o audio mid w h = ap (λ r. after r (audited o audio mid [])) (no_recording o mid w h)

-- A purge of a Meeting that is not the Organization's returns and changes nothing: no row, no
-- object, no audit entry.
pub purge_of_foreign_meeting :
    (o : ℕ) (kind : Kind) (mid : ℕ) (w : World)
    → sees_meeting (tenant o) w.db mid ≡ false
    → purge_by_kind o kind mid w ≡ (ok tt, w)
purge_of_foreign_meeting o kind mid w h =
    purge_as_settle o mid kind w
    ∙ (ap (λ r. settle w.db (after r (tail o kind mid))) (no_objects o mid w h)
        ∙ ap (settle w.db) (no_tail o kind mid w h))
