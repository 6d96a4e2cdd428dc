-- ===== src/Db/State.antt =====
-- The state that every request and task works on: the database, the object storage, the task queue
-- and the progress channel, with the clock and the failures that the outside world will cause.
use meeting_mgr.Base.{ℕ, String, Bool, List}
use meeting_mgr.Base.Text.{Text}
use meeting_mgr.Models.{
  Organization, Account, Meeting, Recording, Participant, MeetingShare, SpeakerCluster, Segment,
  Attribution, Artifact, RetentionPolicy, BotCredential, BotSession, AuditLogEntry, WatchFolder,
}

-- One list to a table, in the order of insertion.
pub record Db : Type 0 where
  pub organizations : List Organization
  pub accounts : List Account
  pub meetings : List Meeting
  pub shares : List MeetingShare
  pub recordings : List Recording
  pub participants : List Participant
  pub clusters : List SpeakerCluster
  pub segments : List Segment
  pub attributions : List Attribution
  pub key_topics : List Artifact
  pub minutes : List Artifact
  pub action_items : List Artifact
  pub decision_points : List Artifact
  pub policies : List RetentionPolicy
  pub bot_credentials : List BotCredential
  pub bot_sessions : List BotSession
  pub audit_log : List AuditLogEntry
  pub watch_folders : List WatchFolder

-- The body of an object: bytes, or the JSON text of a list of keys.
pub data Body : Type 0 where
  blob : List ℕ → Body
  json : List Text → Body

-- A path is the list of its names from the root of the file system on.
abbrev pub FilePath : Type 0
FilePath = List Text

pub record File : Type 0 where
  pub path : FilePath
  pub content : List ℕ
  pub mtime : ℕ

-- What another program does to the file system.
pub data Change : Type 0 where
  wrote : File → Change
  removed : FilePath → Change

-- A message on the broker: the task's name with its arguments.
pub data Task : Type 0 where
  run_pipeline_task purge_organization_task : ℕ → Task
  regenerate_task : ℕ → Text → Task
  scan_watch_folder_task : (watch_folder_id organization_id : ℕ) → Task

-- `state` of a progress event.
pub data StageState : Type 0 where
  started finished stage_failed : StageState

pub record Progress : Type 0 where
  pub meeting_id : ℕ
  pub stage : String
  pub state : StageState

-- `faults` is the environment's choice: each call of storage or of the broker takes the next
-- entry, and fails if that is `true`; past the end every call succeeds. `next_id` stands for the
-- tables' sequences, which a rollback does not reset. `changes` is what other programs do to the
-- files: each call of the file system comes after the next entry.
pub record World : Type 0 where
  pub db : Db
  pub objects : List (Text × Body)
  pub files : List File
  pub changes : List (List Change)
  pub queue : List Task
  pub progress : List Progress
  pub faults : List Bool
  pub now : ℕ
  pub next_id : ℕ

-- The exceptions that the program raises or meets.
pub data Exc : Type 0 where
  http : (status_code : ℕ) (detail : String) → Exc
  integrity_error no_result_found multiple_results_found row_security_violation : Exc
  client_error no_such_key broker_error : Exc
  os_error file_not_found stale_file data_error range_not_satisfiable : Exc
  attribute_error value_error overflow_error inference_error normalize_error : Exc

pub data Result {ℓ} (A : Type ℓ) : Type ℓ where
  ok : A → Result A
  err : Exc → Result A
