-- ===== src/Bot.antt =====
-- src/meeting_mgr/api/bot.py: sessions of a meeting bot, which a credential stands for. As in
-- Capture, `finish_session` is cut at its transactions.
pub mod Sweep
pub mod Finish
pub mod Creating
pub mod Starting
pub mod Ownership
use meeting_mgr.Base.{
  ℕ, not, ◌&&◌, ◌||◌, Option, none, some, List, [], ◌∷◌, ◌++◌, ◌==◌, filter, any, update_where,
}
use meeting_mgr.Base.Text.{Text, codes, text_eq}
use meeting_mgr.Base.Decimal.{ℤ}
use meeting_mgr.Models.{Status, Meeting, BotCredential, BotSession, capturing}
use meeting_mgr.Db.State.{Exc, http, integrity_error, attribute_error, ok}
use meeting_mgr.Db.Action.{
  Action, pure, raise, gets, ◌>>=◌, ◌>>◌, raise_if, gets_db, modify_db, new_id, one_or_none, one,
  or_raise, catch,
}
use meeting_mgr.Db.Session.{
  Session, get_org_session, get_readonly_org_session, sees_org, bot_sessions, get_meeting,
}
use meeting_mgr.Db.Rows.{begin_nested, check_row, add_meeting}
use meeting_mgr.Storage.{ensure_bucket, put_stream, list_keys}
use meeting_mgr.ChunkStorage.{chunk_prefix, chunk_key, sorted_seqs}
use meeting_mgr.Capture.{new_meeting, status_eq}

abbrev pub subdir : Text
subdir = codes "bot-chunks"

abbrev pub suffix : Text
suffix = codes ".chunk"

-- `StartSessionIn`
pub record StartSessionIn : Type 0 where
  pub platform_meeting_id : Text
  pub title : Text

-- `_response`
pub record Response : Type 0 where
  pub status_code : ℕ
  pub session_id : ℕ
  pub meeting_id : ℕ
  pub status : Status

abbrev pub respond : BotSession → Meeting → ℕ → Response
respond session m status_code = record {
  status_code = status_code;
  session_id = session.id;
  meeting_id = m.id;
  status = m.status;
}

-- `filter_by(bot_credential_id=..., platform_meeting_id=...)`
abbrev pub sessions_for : BotCredential → Text → List BotSession → List BotSession
sessions_for credential platform_id =
    filter (λ b. b.bot_credential_id == credential.id && text_eq b.platform_meeting_id platform_id)

-- `s.add(session); s.flush()` under uq_bot_session_credential_platform and uq_bot_session_meeting.
unfoldable pub add_bot_session : Session → BotSession → Action (Unit {0})
add_bot_session s b = do
  check_row (sees_org s b.organization_id)
  let taken = λ (c : BotSession).
      (c.bot_credential_id == b.bot_credential_id
        && text_eq c.platform_meeting_id b.platform_meeting_id)
      || c.meeting_id == b.meeting_id
  clash ← gets_db (λ db. any taken db.bot_sessions)
  raise_if clash integrity_error
  modify_db (λ db. record db { bot_sessions = db.bot_sessions ++ b ∷ [] })

-- The Meeting of a session, which the code uses with no test for `None`.
abbrev pub session_meeting : Session → BotSession → Action Meeting
session_meeting s b = do found ← get_meeting s b.meeting_id; or_raise found attribute_error

-- `except IntegrityError`
abbrev pub on_integrity_error : {A : Type 0} → Action A → Exc → Action A
on_integrity_error handler integrity_error = handler
on_integrity_error handler e = raise e

-- The nested block: a Meeting and its session, or neither.
unfoldable pub create_session : Session → StartSessionIn → BotCredential → Action Response
create_session s body credential = begin_nested do
  meeting_id ← new_id
  now ← gets (λ w. w.now)
  let m =
      new_meeting meeting_id credential.organization_id credential.owner_account_id body.title
        capturing now
  add_meeting s m
  session_id ← new_id
  let session : BotSession = record {
    id = session_id;
    organization_id = credential.organization_id;
    bot_credential_id = credential.id;
    meeting_id = meeting_id;
    platform_meeting_id = body.platform_meeting_id;
    last_activity_at = now;
  }
  add_bot_session s session
  pure (respond session m 201)

-- The winner's row, as an ordinary 200.
unfoldable pub replay_winner : Session → StartSessionIn → BotCredential → Action Response
replay_winner s body credential = do
  rows ← gets_db (λ db. sessions_for credential body.platform_meeting_id (bot_sessions s db))
  session ← one rows
  m ← session_meeting s session
  pure (respond session m 200)

abbrev pub start_found :
    Session → StartSessionIn → BotCredential → Option BotSession → Action Response
start_found s body credential (some existing) = do
  m ← session_meeting s existing
  pure (respond existing m 200)
start_found s body credential none =
    catch (create_session s body credential) (on_integrity_error (replay_winner s body credential))

unfoldable pub start_session : StartSessionIn → BotCredential → Action Response
start_session body credential = get_org_session credential.organization_id λ s. do
  rows ← gets_db (λ db. sessions_for credential body.platform_meeting_id (bot_sessions s db))
  existing ← one_or_none rows
  start_found s body credential existing

abbrev pub no_session : Exc
no_session = http 404 "bot session not found"

-- `_owned_session`
unfoldable pub owned_session : Session → ℕ → BotCredential → Action BotSession
owned_session s session_id credential = do
  rows ← gets_db (λ db.
      filter
        (λ b.
          b.id == session_id
          && b.bot_credential_id == credential.id
          && b.organization_id == credential.organization_id)
        (bot_sessions s db))
  found ← one_or_none rows
  or_raise found no_session

abbrev pub not_accepting : Exc
not_accepting = http 409 "session is not accepting chunks"

-- `session.last_activity_at = datetime.utcnow()`
abbrev pub touch : Session → ℕ → Action (Unit {0})
touch s session_id w = (
  ok tt,
  record w {
    db = record w.db {
      bot_sessions =
          update_where (λ b. b.id == session_id && sees_org s b.organization_id)
            (λ b. record b { last_activity_at = w.now }) w.db.bot_sessions;
    };
  },
)

unfoldable pub upload_chunk : ℕ → ℤ → List ℕ → BotCredential → Action ℤ
upload_chunk session_id seq chunk credential = do
  get_org_session credential.organization_id λ s. do
    session ← owned_session s session_id credential
    m ← session_meeting s session
    raise_if (not (status_eq m.status capturing)) not_accepting
    ensure_bucket
    put_stream (chunk_key m.id seq subdir suffix) chunk
    touch s session.id
  pure seq

unfoldable pub list_chunks : ℕ → BotCredential → Action (List ℤ)
list_chunks session_id credential = do
  meeting_id ←
      get_readonly_org_session credential.organization_id
        λ s. do session ← owned_session s session_id credential; pure session.meeting_id
  keys ← list_keys (chunk_prefix meeting_id subdir)
  sorted_seqs (chunk_prefix meeting_id subdir) suffix keys
