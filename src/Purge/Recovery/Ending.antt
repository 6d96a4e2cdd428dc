-- ===== src/Purge/Recovery/Ending.antt =====
-- A purge comes to its end once the storage is well again.
use meeting_mgr.Base.{ℕ, ◌≡◌, sym, ap, ◌∙◌, subst, inl, inr, List, [], ◌∷◌}
use meeting_mgr.Base.Text.{Text}
use meeting_mgr.Models.{Recording}
use meeting_mgr.Db.State.{World, ok}
use meeting_mgr.Db.Session.{tenant}
use meeting_mgr.Db.Laws.{calm}
use meeting_mgr.Storage.{Objects}
use meeting_mgr.Purge.{
  RawKey, raw_kind, recordings_of, purge_audio_objects, purge_by_kind, nothing, manifest, object,
}
use meeting_mgr.Purge.Objects.{Gone, Shrunk}
use meeting_mgr.Purge.Tail.{purge_as_settle}
use meeting_mgr.Purge.Recovery.{named, IsProper}
use meeting_mgr.Purge.Recovery.Partial.{IsPartial-refl, returns-Gone}
use meeting_mgr.Purge.Recovery.Attempts.{
  objects_as_recording, Attempts, whole_ok, Attempts-IsPartial,
}
use meeting_mgr.Purge.Recovery.Success.{IsReadable, calm_purge_returns}
use meeting_mgr.Retention.{Kind}

IsReadable-later :
    (raw : RawKey) (ks : List Text) (o o' : Objects)
    → Shrunk ks o o'
    → IsReadable o raw
    → IsReadable o' raw
IsReadable-later nothing ks o o' s h = tt
IsReadable-later (object k) ks o o' s h = tt
IsReadable-later (manifest mk) ks o o' s h =
    λ bytes e. elim (s.at mk) [ inl same ↦ h bytes (sym same ∙ e) | inr (_, gone) ↦ cc ]

-- For a Meeting with one Recording whose manifest, if it is there, is a list of keys and does not
-- list itself: after any number of failed purges, a purge in which no storage call fails returns,
-- and every object that the Recording led to before the first of them is gone.
pub purge_ends :
    (org_id : ℕ) (kind : Kind) (mid : ℕ) (rec : Recording) (w w1 : World)
    → recordings_of (tenant org_id) mid w.db ≡ rec ∷ []
    → IsProper w.objects (raw_kind rec.raw_key)
    → IsReadable w.objects (raw_kind rec.raw_key)
    → Attempts org_id kind mid w w1
    → let r = purge_by_kind org_id kind mid (calm w1) in
      (r.0 ≡ ok tt) × Gone (named w.objects rec) r.1.objects
purge_ends org_id kind mid rec w w1 single proper readable tries =
    let (single', part) =
      Attempts-IsPartial org_id kind mid rec w.objects proper tries single
        (IsPartial-refl rec w.objects) in
    let returns = calm_purge_returns org_id kind mid rec w1 single' (
      IsReadable-later (raw_kind rec.raw_key) (named w.objects rec) w.objects w1.objects
        part.shrinks readable) in
    let end = (purge_by_kind org_id kind mid (calm w1)).1 in
    let (keys, v, run, same) =
      whole_ok org_id kind mid w1.db (purge_audio_objects (tenant org_id) mid (calm w1))
        (sym (purge_as_settle org_id mid kind (calm w1)) ∙ ap (λ x. (x, end)) returns) in
    (
      returns,
      subst (Gone (named w.objects rec)) (sym same) (
          returns-Gone rec w.objects (calm w1) part
            (sym (objects_as_recording (tenant org_id) mid (calm w1) single') ∙ run)),
    )
