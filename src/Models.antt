-- ===== src/Models.antt =====
-- The tables (src/meeting_mgr/models/*.py): one record to a table, its columns as fields. A
-- nullable column is an `Option`; a datetime is a number of microseconds since `datetime.min`;
-- a string column with a fixed set of values is a data type.
use meeting_mgr.Base.{ℕ, String, Bool, Option, List}
use meeting_mgr.Base.Text.{Text}

-- models/account.py `ROLES`
pub data Role : Type 0 where
  admin member auditor : Role

pub data Visibility : Type 0 where
  private shared organization : Visibility

-- `Meeting.status`
pub data Status : Type 0 where
  pending capturing finishing processing published failed : Status

pub data Provenance : Type 0 where
  unknown inferred confirmed : Provenance

pub record Organization : Type 0 where
  pub id : ℕ
  pub name : Text

pub record Account : Type 0 where
  pub id : ℕ
  pub organization_id : ℕ
  pub email : Text
  pub role : Role
  pub password_hash : Option Text
  pub oidc_subject : Option Text
  pub mtls_subject : Option Text

pub record Meeting : Type 0 where
  pub id : ℕ
  pub organization_id : ℕ
  pub title : Text
  pub status : Status
  pub failed_stage : Option String
  pub current_stage : Option String
  pub created_at : ℕ
  pub owner_account_id : Option ℕ
  pub visibility : Visibility

pub record Recording : Type 0 where
  pub id : ℕ
  pub meeting_id : ℕ
  pub raw_key : Option Text
  pub normalized_key : Option Text
  pub duration_seconds : Option ℕ

pub record Participant : Type 0 where
  pub id : ℕ
  pub organization_id : ℕ
  pub name : Text

pub record MeetingShare : Type 0 where
  pub id : ℕ
  pub meeting_id : ℕ
  pub account_id : ℕ

-- One element of `SpeakerCluster.spans`.
pub record Span : Type 0 where
  pub start : ℕ
  pub end : ℕ

pub record SpeakerCluster : Type 0 where
  pub id : ℕ
  pub meeting_id : ℕ
  pub label : Text
  pub spans : List Span

pub record Segment : Type 0 where
  pub id : ℕ
  pub meeting_id : ℕ
  pub cluster_id : Option ℕ
  pub start_seconds : ℕ
  pub end_seconds : ℕ
  pub text : Text

pub record Attribution : Type 0 where
  pub id : ℕ
  pub cluster_id : ℕ
  pub participant_id : ℕ
  pub provenance : Provenance

-- models/record.py: what is particular to each of the four `_Derived` tables. `positions` holds
-- participant ids with what each held.
pub data Content : Type 0 where
  key_topic : (title : Text) → Content
  minute : (text : Text) → Content
  action_item :
      (text : Text) (participant_id : Option ℕ) (due_date : Option Text) (status : Text) → Content
  decision_point : (text : Text) (settled : Bool) (positions : List (ℕ × Text)) → Content

-- A row of one of the four tables, with the columns of `_Derived`.
pub record Artifact : Type 0 where
  pub id : ℕ
  pub meeting_id : ℕ
  pub citations : List ℕ
  pub provenance : Provenance
  pub content : Content

pub record RetentionPolicy : Type 0 where
  pub id : ℕ
  pub organization_id : ℕ
  pub audio_retention_days : Option ℕ
  pub meeting_retention_days : Option ℕ

pub record BotCredential : Type 0 where
  pub id : ℕ
  pub organization_id : ℕ
  pub owner_account_id : ℕ
  pub label : Text
  pub token_hash : Text
  pub revoked_at : Option ℕ
  pub created_at : ℕ

pub record BotSession : Type 0 where
  pub id : ℕ
  pub organization_id : ℕ
  pub bot_credential_id : ℕ
  pub meeting_id : ℕ
  pub platform_meeting_id : Text
  pub last_activity_at : ℕ

-- `AuditLogEntry.target`: the f-strings "meeting:1", "organization:1", … and the rest of the path.
pub data Target : Type 0 where
  meeting_target organization_target bot_credential_target watch_folder_target : ℕ → Target
  cluster_target : (meeting_id cluster_id : ℕ) → Target
  artifact_target : (meeting_id : ℕ) (artifact_type : Text) (item_id : ℕ) → Target
  category_target : (meeting_id : ℕ) (artifact_type : Text) → Target

-- `AuditLogEntry.detail`: the dictionaries that the program writes.
pub data Detail : Type 0 where
  no_detail : Detail
  keys_deleted chunk_count bot_session_id : ℕ → Detail
  participant_detail : Option ℕ → Detail
  field_names : List Text → Detail
  policy_days : (audio_retention_days meeting_retention_days : Option ℕ) → Detail
  credential_detail : (label : Text) (owner_account_id : ℕ) → Detail
  folder_detail : (root_path : Text) (owner_account_id : ℕ) (enabled : Bool) → Detail

pub record AuditLogEntry : Type 0 where
  pub id : ℕ
  pub organization_id : ℕ
  pub actor_account_id : Option ℕ
  pub action : String
  pub target : Target
  pub detail : Detail

-- models/ingest.py
pub record WatchFolder : Type 0 where
  pub id : ℕ
  pub organization_id : ℕ
  pub owner_account_id : ℕ
  pub root_path : Text
  pub enabled : Bool
  pub last_scan_at : Option ℕ
  pub last_scan_error : Option Text
  pub created_at : ℕ
