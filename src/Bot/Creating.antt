-- ===== src/Bot/Creating.antt =====
-- The outcomes of a start: a session that is there is answered with, or one is made.
use meeting_mgr.Base.{
  suc, ◌≡◌, refl, ap, ◌∙◌, ◌⊎◌, inl, inr, ◌&&◌, ◌||◌, some, List, [], ◌∷◌, ◌++◌, arith, ◌==◌,
  ==_refl, Bool-cases, find, any,
}
use meeting_mgr.Base.Text.{text_eq}
use meeting_mgr.Models.{Meeting, BotCredential, BotSession, capturing}
use meeting_mgr.Db.State.{Db, World, integrity_error, attribute_error, ok, err}
use meeting_mgr.Db.Action.{pure, ◌>>=◌, one_or_none, or_raise}
use meeting_mgr.Db.Session.{Session, settle, meetings, bot_sessions, tenant}
use meeting_mgr.Db.Rows.{add_meeting}
use meeting_mgr.Capture.{new_meeting}
use meeting_mgr.Bot.{
  StartSessionIn, respond, sessions_for, add_bot_session, create_session, start_found,
  start_session,
}

abbrev pub bot : BotCredential → Session
bot credential = tenant credential.organization_id

-- The sessions that a start finds.
abbrev pub found_rows : StartSessionIn → BotCredential → Db → List BotSession
found_rows body credential db =
    sessions_for credential body.platform_meeting_id (bot_sessions (bot credential) db)

-- What a start answers to, with its Meeting.
abbrev pub IsStarted : StartSessionIn → BotCredential → World → BotSession → Meeting → Type 0
IsStarted body credential w b m =
    (found_rows body credential w.db ≡ b ∷ [])
    × (find (λ m. m.id == b.meeting_id) (meetings (bot credential) w.db) ≡ some m)

pub start_as_rows :
    (body : StartSessionIn) (credential : BotCredential) (w : World)
    → start_session body credential w
      ≡ settle w.db (
          (one_or_none (found_rows body credential w.db)
              >>= start_found (bot credential) body credential)
            w)
unfolding start_session
start_as_rows body credential w = refl

-- A session that is there is answered with, and nothing changes.
pub replay :
    (body : StartSessionIn) (credential : BotCredential) (w : World) (b : BotSession) (m : Meeting)
    → IsStarted body credential w b m
    → start_session body credential w ≡ (ok (respond b m 200), w)
replay body credential w b m (rows, row) =
    start_as_rows body credential w
    ∙ (ap (λ l. settle w.db ((one_or_none l >>= start_found (bot credential) body credential) w))
          rows
        ∙ ap
            (λ found.
              settle w.db ((or_raise found attribute_error >>= λ m. pure (respond b m 200)) w))
            row)

-- The rows that a new session makes.
abbrev pub new_session : StartSessionIn → BotCredential → World → BotSession
new_session body credential w = record {
  id = suc w.next_id;
  organization_id = credential.organization_id;
  bot_credential_id = credential.id;
  meeting_id = w.next_id;
  platform_meeting_id = body.platform_meeting_id;
  last_activity_at = w.now;
}

abbrev pub session_meeting_of : StartSessionIn → BotCredential → World → Meeting
session_meeting_of body credential w =
    new_meeting w.next_id credential.organization_id credential.owner_account_id body.title
      capturing w.now

abbrev pub begun : StartSessionIn → BotCredential → World → World
begun body credential w = record w {
  db = record w.db {
    meetings = w.db.meetings ++ session_meeting_of body credential w ∷ [];
    bot_sessions = w.db.bot_sessions ++ new_session body credential w ∷ [];
  };
  next_id = suc (suc w.next_id);
}

pub create_outcome :
    (body : StartSessionIn) (credential : BotCredential) (w : World)
    → (create_session (bot credential) body credential w ≡ (
      ok (respond (new_session body credential w) (session_meeting_of body credential w) 201),
      begun body credential w,
    ))
      ⊎ (create_session (bot credential) body credential w
          ≡ (err integrity_error, record w { next_id = suc (suc w.next_id) }))
unfolding create_session add_meeting add_bot_session
create_outcome body credential w =
    elim (Bool-cases (
      any
        (λ c.
          (c.bot_credential_id == credential.id
            && text_eq c.platform_meeting_id body.platform_meeting_id)
          || c.meeting_id == w.next_id)
        w.db.bot_sessions)) [
          | inl e ↦ inr (ground (arith, e, ==_refl credential.organization_id))
          | inr e ↦ inl (ground (arith, e, ==_refl credential.organization_id))
        ]
