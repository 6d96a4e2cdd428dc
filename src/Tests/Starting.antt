-- ===== src/Tests/Starting.antt =====
-- A bot that starts its session twice.
use meeting_mgr.Base.{◌≡◌, refl, none, []}
use meeting_mgr.Base.Text.{codes, text_eq}
use meeting_mgr.Base.Decimal.{pos}
use meeting_mgr.Models.{BotCredential, capturing}
use meeting_mgr.Db.State.{World, ok, err}
use meeting_mgr.Db.Rows.{add_meeting}
use meeting_mgr.Tests.Samples.{empty_db, sample_world}
use meeting_mgr.Bot.{
  StartSessionIn, Response, add_bot_session, create_session, start_session, no_session,
  upload_chunk, list_chunks,
}
use meeting_mgr.Bot.Starting.{start_is_idempotent}
use meeting_mgr.Bot.Finish.{finish_session}
use meeting_mgr.Bot.Ownership.{other_sessions_are_hidden}

abbrev credential : BotCredential
credential = record {
  id = 5;
  organization_id = 1;
  owner_account_id = 2;
  label = codes "zoom";
  token_hash = [];
  revoked_at = none;
  created_at = 0;
}

abbrev request : StartSessionIn
request = record { platform_meeting_id = codes "abc"; title = codes "standup" }

abbrev idle : World
idle = sample_world empty_db [] []

abbrev first_reply : Response
first_reply = record { status_code = 201; session_id = 51; meeting_id = 50; status = capturing }

start_is_idempotent_example :
    (again : Response) × (start_session request credential (start_session request credential idle).1
      ≡ (ok again, (start_session request credential idle).1))
    × (again.status_code ≡ 200)
    × (again.session_id ≡ 51)
    × (again.meeting_id ≡ 50)
unfolding start_session create_session add_meeting add_bot_session text_eq
start_is_idempotent_example =
    start_is_idempotent request credential idle first_reply
      (start_session request credential idle).1 refl

abbrev stranger : BotCredential
stranger = record credential { id = 6 }

abbrev busy : World
busy = (start_session request credential idle).1

other_sessions_are_hidden_example :
    (upload_chunk 51 (pos 1) [] stranger busy ≡ (err no_session, busy))
    × (list_chunks 51 stranger busy ≡ (err no_session, busy))
    × (finish_session 51 stranger busy ≡ (err no_session, busy))
unfolding start_session create_session add_meeting add_bot_session text_eq
other_sessions_are_hidden_example = other_sessions_are_hidden 51 stranger busy refl (pos 1) []
