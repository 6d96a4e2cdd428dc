-- ===== src/Meetings/Closing.antt =====
-- Where the stream of a Meeting's progress ends.
use text.Mathlib.Text.{◌==◌ as str_eq}
use meeting_mgr.Base.{
  ℕ, String, ◌≡◌, refl, ap, ◌∙◌, Bool, true, false, ◌&&◌, ◌||◌, List, [], ◌∷◌, ◌++◌, map,
  if◌then◌else◌, All,
}
use meeting_mgr.Db.State.{Progress, stage_failed}
use meeting_mgr.Db.Laws.{after}
use meeting_mgr.Meetings.Events.{
  Snapshot, is_over, is_last, pass_on, events, snapshot_event, progress_event,
}

-- The stream passes on the events up to the first that is taken for the last, and none after it.
pub pass_on_stops :
    (before after : List Progress) (p : Progress)
    → All (λ q. is_last q ≡ false) before
    → is_last p ≡ true
    → pass_on (before ++ p ∷ after) ≡ map progress_event (before ++ p ∷ [])
unfolding pass_on
pass_on_stops [] after p h last = rw last refl
pass_on_stops (q ∷ before) after p (h, hs) last =
    rw h (ap (◌∷◌ (progress_event q)) (pass_on_stops before after p hs last))

failure_is_last : (b : Bool) → (b && false || true) ≡ true
failure_is_last true = refl
failure_is_last false = refl

-- The stream of a Meeting's progress, where the Meeting is not over and no event before was taken
-- for the last, ends with the event of any stage that fails, whatever comes after it, and passes on
-- every event up to it.
pub stream_ends_at_failure :
    (seen : Snapshot) (before after : List Progress) (meeting_id : ℕ) (stage : String)
    → is_over seen.status ≡ false
    → All (λ q. is_last q ≡ false) before
    → let p : Progress = record { meeting_id = meeting_id; stage = stage; state = stage_failed } in
      events seen (before ++ p ∷ after)
      ≡ snapshot_event seen ∷ map progress_event (before ++ p ∷ [])
unfolding events
stream_ends_at_failure seen before after meeting_id stage running hs =
    let p : Progress = record { meeting_id = meeting_id; stage = stage; state = stage_failed } in
    ap (λ b. snapshot_event seen ∷ (if b then [] else pass_on (before ++ p ∷ after))) running
    ∙ ap (◌∷◌ (snapshot_event seen))
        (pass_on_stops before after p hs (failure_is_last (str_eq stage "publish")))
