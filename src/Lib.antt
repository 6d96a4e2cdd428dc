-- ===== src/Lib.antt =====
-- A model of meeting-mgr, the server that records meetings, transcribes them and keeps derived
-- records of them, in the Python package src/meeting_mgr. A request handler or a task is an
-- action: a function from a world to a result, which may be an exception, and the world after
-- it. The world is the database with one list to a table, the objects in storage, the queue of
-- tasks, the progress messages, the clock, and the failures that the storage and the broker
-- will have. What was written before an exception stays written, unless a session rolls the
-- database back.
--
-- The parts and their files:
--
-- - Db: db.py with its four session scopes, and the row security of migrations/versions: what a
--   session of one Organization sees and may insert. A session is one transaction, taken as
--   atomic but for the first one of a finish in api/capture.py. Db.State is the world,
--   Db.Action the actions, Db.Rows the inserts and updates with audit.py.
-- - Models: the tables of models/*.py, a record to a table.
-- - Files: the calls of os and open that pipeline/watch.py makes, and paths. What other
--   programs do to the files before each call is a list in the world.
-- - Authz: authz.py, the roles, `authorize` and the filter for lists; Authz.Laws and
--   Authz.Filter have what they decide.
-- - Storage and ChunkStorage: storage.py and chunk_storage.py, objects under keys and the
--   numbering of chunks.
-- - Capture: api/capture.py. `finish_capture` is cut at its two transactions, and the first
--   between its read and its write, which no lock joins, so that Capture.Races can put other
--   requests between them.
-- - Bot: api/bot.py and, in Bot.Sweep, pipeline/bot.py.
-- - Retention, RetentionApi, Purge: retention.py, api/retention.py and pipeline/purge.py.
--   Purge.Recovery is about purges that fail and are tried again.
-- - Participants: participants.py and provenance.py; Edits: api/edits.py, with what a person
--   may change of the derived records.
-- - Watch and WatchFolders: pipeline/watch.py, the ingest of a file and, in Watch.Scanning, the
--   scan of a directory, and watch_folder.py, api/watch_folders.py with the table of
--   directories. A scan takes the listing of the directory as it is when the scan begins, and
--   directories without files are not kept.
-- - Auth, BotCredentials and AuditLog: auth/*.py, api/auth.py, bot_credentials.py,
--   api/bot_credentials.py and api/audit_log.py: who a request comes from, passwords and
--   tokens. Of a session's cookie the account's id is kept.
-- - Meetings: api/meetings.py with open_object of storage.py: uploads, listings, the stream of
--   progress and the audio.
-- - Pipeline: pipeline/orchestrate.py with the stages as a parameter (Orchestrate), and the
--   program's stages (Align, Extract, Attribute, and in Stages normalize, diarize and
--   transcribe).
-- - Tests: concrete inputs for the theorems.
--
-- How the code corresponds: a definition has the name of the Python function without a leading
-- underscore, and a helper is named for the piece of the function that it is. Texts are lists
-- of code points, since keys are taken apart and put together. Numbers are natural numbers;
-- times count microseconds from the first datetime, and spans of audio are whole numbers of a
-- small unit. An integer that a client sends may be negative and is an integer here. Loops are
-- recursion on the list that the code goes through, so there is no fuel.
--
-- Taken as parameters: the language model, the diarizer, the speech recognizer, ffmpeg and
-- ffprobe, each a function to an optional answer; PBKDF2, a function of the password and the
-- salt; the salts and secrets that are drawn; the text of an exception; the storage's answer to
-- a GET with a Range header; the claims that an OpenID Connect provider gives; and what a
-- subscription to progress yields. Which calls of storage and of the broker fail is a list in
-- the world, so that a theorem over all worlds is one over all failures.
--
-- Not modelled: the web frontend, logging, the wiring of FastAPI, Celery and the configuration,
-- the HTTP clients of the services, the redirects of OpenID Connect, the time that a check of a
-- password takes, the caches of storage.py, and the isolation of concurrent transactions below
-- the serial order.
pub mod AuditLog
pub mod Auth
pub mod Authz
pub mod Base
pub mod Bot
pub mod BotCredentials
pub mod Capture
pub mod ChunkStorage
pub mod Db
pub mod Edits
pub mod Files
pub mod Meetings
pub mod Models
pub mod Participants
pub mod Pipeline
pub mod Purge
pub mod Retention
pub mod RetentionApi
pub mod Storage
pub mod Tests
pub mod Watch
pub mod WatchFolders
