-- ===== src/Meetings/Hidden.antt =====
-- A Meeting that an account cannot read looks like none.
use meeting_mgr.Base.{
  ℕ, ◌≡◌, refl, ap, inl, inr, false, not, Option, none, some, List, arith, ◌==◌, Bool-cases,
}
use meeting_mgr.Base.Text.{Text}
use meeting_mgr.Models.{Account, Meeting}
use meeting_mgr.Db.State.{Db, Progress, World, attribute_error, err}
use meeting_mgr.Db.Action.{Action, pure, ◌>>=◌, gets_db, or_raise}
use meeting_mgr.Db.Session.{discard, tenant}
use meeting_mgr.Db.Laws.{after}
use meeting_mgr.Capture.Outcomes.{row}
use meeting_mgr.Meetings.Audio.{Answer, find_audio_key, serve_audio, read_audio}
use meeting_mgr.Meetings.Events.{events, snapshot_of, stream_events}
use meeting_mgr.Meetings.Reading.{attributions_of, attribution_views, full_view, read_meeting}
use meeting_mgr.Authz.{can_read, not_found, authorize}
use meeting_mgr.Db.Laws.{after}
use meeting_mgr.Capture.{authorized_meeting}

-- There is no row in sight, or one that the account cannot read.
abbrev pub IsHidden : Account → ℕ → Db → Type 0
IsHidden account meeting_id db =
    (m : Meeting)
    → row (tenant account.organization_id) meeting_id db ≡ some m
    → can_read account m (tenant account.organization_id) db ≡ false

hidden_row :
    (account : Account) (found : Option Meeting) (w : World)
    → ((m : Meeting)
        → found ≡ some m
        → can_read account m (tenant account.organization_id) w.db ≡ false)
    → authorize account found (tenant account.organization_id) false w ≡ (err not_found, w)
unfolding authorize
hidden_row account none w h = refl
hidden_row account (some m) w h =
    elim (Bool-cases (not (m.organization_id == account.organization_id))) [
      | inl e ↦ ground (arith, e)
      | inr e ↦ ground (arith, e, h m refl)
    ]

hidden_meeting :
    (account : Account) (meeting_id : ℕ) (w : World)
    → IsHidden account meeting_id w.db
    → authorized_meeting account meeting_id (tenant account.organization_id) false w
      ≡ (err not_found, w)
unfolding authorized_meeting
hidden_meeting account meeting_id w h =
    let found = row (tenant account.organization_id) meeting_id w.db in
    ap (λ r. after r (λ _. or_raise found attribute_error)) (hidden_row account found w h)

-- A Meeting that is not in the account's sight, or that it cannot read, gets from the reading, the
-- stream of events and the audio the 404 of an id that does not exist, and nothing changes.
pub hidden_meetings_look_missing :
    (account : Account) (meeting_id : ℕ) (w : World)
    → IsHidden account meeting_id w.db
    → (subscribed : List Progress) (get : Text → Option Text → Action Answer) (range : Option Text)
    → (read_meeting meeting_id account w ≡ (err not_found, w))
      × (stream_events meeting_id account subscribed w ≡ (err not_found, w))
      × (read_audio get meeting_id range account w ≡ (err not_found, w))
unfolding read_meeting stream_events read_audio
hidden_meetings_look_missing account meeting_id w h subscribed get range =
    let s = tenant account.organization_id in
    let gone = hidden_meeting account meeting_id w h in
    (
      ap
          (λ r. discard w.db (
            after r (λ m. gets_db (attributions_of s meeting_id) >>= λ found.
            attribution_views s found >>= λ attributed.
            gets_db (λ db. full_view s m meeting_id db attributed))))
          gone,
      ap
          (λ r.
            after (discard w.db (after r (λ m. pure (snapshot_of m))))
              (λ seen. pure (events seen subscribed)))
          gone,
      ap
          (λ r.
            after (discard w.db (after r (λ _. find_audio_key s meeting_id)))
              (serve_audio get range))
          gone,
    )
