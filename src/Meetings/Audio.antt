-- ===== src/Meetings/Audio.antt =====
-- src/meeting_mgr/api/meetings.py and `open_object` of src/meeting_mgr/storage.py: the audio of a
-- Meeting, whole or a range of its bytes. The storage's answer to a GET
-- with a Range header, or without, is a parameter.
use meeting_mgr.Base.{
  ℕ, Bool, true, false, ◌&&◌, ◌||◌, Option, none, some, List, [], ◌∷◌, ◌==◌, if◌then◌else◌, is_some,
  filter, is_empty,
}
use meeting_mgr.Base.Text.{Text, codes, text_eq, starts_with, remove_prefix}
use meeting_mgr.Models.{Account, Recording}
use meeting_mgr.Db.State.{Exc, http, client_error, range_not_satisfiable}
use meeting_mgr.Db.Action.{Action, pure, raise, ◌>>=◌, ◌>>◌, gets_db, one_or_none, catch}
use meeting_mgr.Db.Session.{Session, get_readonly_org_session, recordings}
use meeting_mgr.Capture.{authorized_meeting}
use meeting_mgr.BotCredentials.Bearer.{isdigit}
use meeting_mgr.Auth.Password.{partition}

-- Of the storage's reply to a GET: the body, Content-Range and Content-Length.
pub record Served : Type 0 where
  pub stream : List ℕ
  pub content_range : Option Text
  pub content_length : ℕ

-- A reply, or a ClientError with its code.
pub data Answer : Type 0 where
  answered : Served → Answer
  refused : (code : Text) → Answer

-- `except ClientError` of `open_object`
abbrev pub served_or_raise : Answer → Action Served
served_or_raise (answered served) = pure served
served_or_raise (refused code) = raise (
    if text_eq code (codes "InvalidRange") || text_eq code (codes "416")
    then range_not_satisfiable
    else client_error)

-- `{"Range": byte_range} if byte_range else {}`: an empty text is false.
abbrev pub range_header : Option Text → Option Text
range_header none = none
range_header (some []) = none
range_header (some (c ∷ range)) = some (c ∷ range)

-- `open_object`: one request, whose answer is passed on.
unfoldable pub open_object :
    (get : Text → Option Text → Action Answer)
    → (key : Text) → (byte_range : Option Text) → Action Served
open_object get key byte_range = do
  answer ← get key (range_header byte_range)
  served_or_raise answer

-- `start_s.isdigit()` and, if there is an end, `end_s.isdigit()`.
abbrev pub is_bytes_range : Text × Bool × Text → Bool
is_bytes_range (start_s, sep, end_s) = sep && isdigit start_s && (is_empty end_s || isdigit end_s)

abbrev pub bytes_mark : Text
bytes_mark = codes "bytes="

-- `_valid_range`
unfoldable pub valid_range : Option Text → Option Text
valid_range none = none
valid_range (some header) =
    if starts_with bytes_mark header
      && is_bytes_range (partition b'-' (remove_prefix bytes_mark header))
    then some header
    else none

abbrev pub no_audio : Exc
no_audio = http 404 "no normalized audio for this meeting"

abbrev pub bad_range : Exc
bad_range = http 416 "range not satisfiable"

-- `rec.normalized_key if rec else None`; an empty key is false.
abbrev pub audio_key : Option Recording → Action Text
audio_key none = raise no_audio
audio_key (some rec) = key_of rec.normalized_key
  where
    key_of : Option Text → Action Text
    key_of none = raise no_audio
    key_of (some []) = raise no_audio
    key_of (some (c ∷ key)) = pure (c ∷ key)

abbrev pub is_unsatisfiable : Exc → Bool
is_unsatisfiable range_not_satisfiable = true
is_unsatisfiable e = false

-- The reply's status and what it carries.
pub record AudioReply : Type 0 where
  pub status_code : ℕ
  pub served : Served

abbrev pub audio_reply : Served → AudioReply
audio_reply served = record {
  status_code = if is_some served.content_range then 206 else 200;
  served = served;
}

-- The key in the Recording of a Meeting.
unfoldable pub find_audio_key : Session → (meeting_id : ℕ) → Action Text
find_audio_key s meeting_id = do
  rows ← gets_db (λ db. filter (λ r. r.meeting_id == meeting_id) (recordings s db))
  rec ← one_or_none rows
  audio_key rec

module _ (get : Text → Option Text → Action Answer) where
  -- The reply once the key is known.
  unfoldable pub serve_audio : (range : Option Text) → (key : Text) → Action AudioReply
  serve_audio range key = do
    served ←
        catch (open_object get key (valid_range range))
          (λ e. raise (if is_unsatisfiable e then bad_range else e))
    pure (audio_reply served)

  unfoldable pub read_audio : (meeting_id : ℕ) → (range : Option Text) → Account → Action AudioReply
  read_audio meeting_id range account = do
    key ←
        get_readonly_org_session account.organization_id
          λ s. do authorized_meeting account meeting_id s false; find_audio_key s meeting_id
    serve_audio range key
