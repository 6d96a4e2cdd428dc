-- ===== src/Purge/Erasure.antt =====
-- What a full purge that returns leaves of the rows, and which objects a purge may take.
use meeting_mgr.Base.{
  ℕ, ◌≡◌, refl, sym, ap, ◌∙◌, subst, Bool, true, false, not, ◌&&◌, List, [], ◌∷◌, arith, ◌==◌,
  length, filter, any,
}
use meeting_mgr.Base.Text.{Text}
use meeting_mgr.Models.{
  Meeting, Recording, MeetingShare, SpeakerCluster, Segment, BotSession, Artifact, Attribution,
}
use meeting_mgr.Db.State.{Db, World, Result, ok, err}
use meeting_mgr.Db.Action.{◌>>=◌, one_or_none}
use meeting_mgr.Db.Session.{Session, settle, sees_org, sees_meeting, tenant}
use meeting_mgr.Db.Rows.{record_audit}
use meeting_mgr.Db.Laws.{after, settle_ok}
use meeting_mgr.Retention.{Kind, full}
use meeting_mgr.Purge.{
  purge_recording, recordings_of, purge_audio_objects, cascade, delete_meeting, purge_by_kind,
}
use meeting_mgr.Purge.Objects.{Shrunk}
use meeting_mgr.Purge.Tail.{audited, tail, tail_returns, purge_as_settle}
use meeting_mgr.Purge.Recovery.{named, purge_recording-Removes}
use meeting_mgr.Purge.Isolation.{sees-any}

-- Rows that a filter leaves all in place, and rows that it leaves out.
module _ {ℓ} {A : Type ℓ} where
  any-filter-not : (p : A → Bool) (xs : List A) → any p (filter (λ x. not (p x)) xs) ≡ false
  any-filter-not p [] = refl
  any-filter-not p (x ∷ xs) = ground (arith, any-filter-not p xs)

-- None of the Meeting's rows is left: not the Meeting itself, and no row of any table that refers to
-- it. An Attribution is of the Meeting whose speaker cluster it named, so the clusters from before
-- the purge are an argument.
abbrev pub is_erased : ℕ → ℕ → List SpeakerCluster → Db → Bool
is_erased o mid clusters db =
    not (any (λ m. m.id == mid && m.organization_id == o) db.meetings)
    && not (any (λ r. r.meeting_id == mid) db.recordings)
    && not (any (λ r. r.meeting_id == mid) db.shares)
    && not (any (λ r. r.meeting_id == mid) db.segments)
    && not (any (λ r. r.meeting_id == mid) db.clusters)
    && not (any (λ r. r.meeting_id == mid) db.bot_sessions)
    && not (any (λ r. r.meeting_id == mid) db.key_topics)
    && not (any (λ r. r.meeting_id == mid) db.minutes)
    && not (any (λ r. r.meeting_id == mid) db.action_items)
    && not (any (λ r. r.meeting_id == mid) db.decision_points)
    && not
        (any (λ a. any (λ k. k.id == a.cluster_id && k.meeting_id == mid) clusters) db.attributions)

seen_meetings :
    (o mid : ℕ) (ms : List Meeting)
    → any (λ m. m.id == mid && m.organization_id == o) ms ≡ true
    → (length (filter (λ m. m.id == mid) (filter (λ m. m.organization_id == o) ms)) == 0) ≡ false
seen_meetings o mid [] h = cc
seen_meetings o mid (m ∷ ms) h = ground (arith, h, seen_meetings o mid ms)

erased_by_cascade :
    (o mid : ℕ) (db : Db)
    → is_erased o mid db.clusters (record (cascade mid db) {
      meetings =
          filter (λ m. not (m.id == mid && sees_org (tenant o) m.organization_id)) db.meetings;
    })
      ≡ true
unfolding cascade
erased_by_cascade o mid db =
    rw
      (
        any-filter-not (λ (m : Meeting). m.id == mid && m.organization_id == o) db.meetings,
        any-filter-not (λ (r : Recording). r.meeting_id == mid) db.recordings,
        any-filter-not (λ (r : MeetingShare). r.meeting_id == mid) db.shares,
        any-filter-not (λ (r : Segment). r.meeting_id == mid) db.segments,
        any-filter-not (λ (r : SpeakerCluster). r.meeting_id == mid) db.clusters,
        any-filter-not (λ (r : BotSession). r.meeting_id == mid) db.bot_sessions,
        any-filter-not (λ (r : Artifact). r.meeting_id == mid) db.key_topics,
        any-filter-not (λ (r : Artifact). r.meeting_id == mid) db.minutes,
        any-filter-not (λ (r : Artifact). r.meeting_id == mid) db.action_items,
        any-filter-not (λ (r : Artifact). r.meeting_id == mid) db.decision_points,
        any-filter-not
            (λ (a : Attribution).
              any (λ k. k.id == a.cluster_id && k.meeting_id == mid) db.clusters)
            db.attributions,
      )
      refl

-- A delete of the Meeting, when the tenant sees it, leaves none of its rows.
erased_by_delete :
    (o mid : ℕ) (w : World)
    → sees_meeting (tenant o) w.db mid ≡ true
    → is_erased o mid w.db.clusters (delete_meeting (tenant o) mid w).1.db ≡ true
unfolding delete_meeting
erased_by_delete o mid w h =
    rw (seen_meetings o mid w.db.meetings (sym (sees-any o mid w.db) ∙ h))
      (erased_by_cascade o mid w.db)

erased_with_audit :
    (o mid : ℕ) (keys : List Text) (ks : List SpeakerCluster) (r : Result ℕ × World)
    → is_erased o mid ks r.1.db ≡ true
    → is_erased o mid ks (after r (audited o full mid keys)).1.db ≡ true
unfolding audited record_audit
erased_with_audit o mid keys ks (ok n, v) h = ground (arith, h)
erased_with_audit o mid keys ks (err e, v) h = h

erased_after :
    (o mid : ℕ) (r : Result (List Text) × World)
    → sees_meeting (tenant o) r.1.db mid ≡ true
    → {w' : World} → after r (tail o full mid) ≡ (ok tt, w')
    → is_erased o mid r.1.db.clusters w'.db ≡ true
unfolding tail
erased_after o mid (ok keys, v) h e =
    subst (λ (r : Result (Unit {0}) × World). is_erased o mid v.db.clusters r.1.db ≡ true) e
      (erased_with_audit o mid keys v.db.clusters (delete_meeting (tenant o) mid v)
        (erased_by_delete o mid v h))
erased_after o mid (err x, v) h e = cc

storage_keeps_rows :
    (rows : List Recording) (w : World) → ((one_or_none rows >>= purge_recording) w).1.db ≡ w.db
unfolding purge_recording
storage_keeps_rows [] w = refl
storage_keeps_rows (rec ∷ []) w = (purge_recording-Removes rec w).db
storage_keeps_rows (a ∷ b ∷ rows) w = refl

objects_keep_rows : (s : Session) (mid : ℕ) (w : World) → (purge_audio_objects s mid w).1.db ≡ w.db
unfolding purge_audio_objects
objects_keep_rows s mid w = storage_keeps_rows (recordings_of s mid w.db) w

-- A full purge of a Meeting of the Organization, when it returns, has left none of the Meeting's
-- rows: not the Meeting, no Recording, share, Segment, speaker cluster, bot session, key topic,
-- minute, action item or decision point, and no attribution of a speaker cluster that was the
-- Meeting's.
pub full_purge_erases :
    (o mid : ℕ) (w w' : World)
    → sees_meeting (tenant o) w.db mid ≡ true
    → purge_by_kind o full mid w ≡ (ok tt, w')
    → is_erased o mid w.db.clusters w'.db ≡ true
full_purge_erases o mid w w' h run =
    let r = purge_audio_objects (tenant o) mid w in
    let same = objects_keep_rows (tenant o) mid w in
    subst (λ (db : Db). is_erased o mid db.clusters w'.db ≡ true) same
      (erased_after o mid r (rw same h)
        (settle_ok w.db (after r (tail o full mid)) (sym (purge_as_settle o mid full w) ∙ run)))

settle_objects :
    {A : Type 0} (db : Db) (r : Result A × World) → (settle db r).1.objects ≡ r.1.objects
settle_objects db (ok a, w) = refl
settle_objects db (err e, w) = refl

tail_objects :
    (o : ℕ) (kind : Kind) (mid : ℕ) (r : Result (List Text) × World)
    → (after r (tail o kind mid)).1.objects ≡ r.1.objects
tail_objects o kind mid (ok keys, w) = (tail_returns o kind mid keys w).1
tail_objects o kind mid (err e, w) = refl

purge_objects :
    (o : ℕ) (kind : Kind) (mid : ℕ) (w : World)
    → (purge_by_kind o kind mid w).1.objects ≡ (purge_audio_objects (tenant o) mid w).1.objects
purge_objects o kind mid w =
    let r = purge_audio_objects (tenant o) mid w in
    ap (λ (r : Result (Unit {0}) × World). r.1.objects) (purge_as_settle o mid kind w)
    ∙ (settle_objects w.db (after r (tail o kind mid)) ∙ tail_objects o kind mid r)

-- Whether a purge of a Meeting with one Recording returns or fails, the storage has lost no object
-- but those that the Recording leads to, and no other object has another body.
pub purge_touches_named :
    (o : ℕ) (kind : Kind) (mid : ℕ) (rec : Recording) (w : World)
    → recordings_of (tenant o) mid w.db ≡ rec ∷ []
    → Shrunk (named w.objects rec) w.objects (purge_by_kind o kind mid w).1.objects
unfolding purge_audio_objects
purge_touches_named o kind mid rec w single =
    subst (Shrunk (named w.objects rec) w.objects) (sym (purge_objects o kind mid w)) (
      subst (λ r. Shrunk (named w.objects rec) w.objects r.1.objects)
        (sym (ap (λ rows. (one_or_none rows >>= purge_recording) w) single))
        (purge_recording-Removes rec w).shrinks)
