-- ===== src/Db/Session.antt =====
-- src/meeting_mgr/db.py: the four session scopes, and the row security of the migrations
-- b3f2a1c9d4e7, c4d8e2f1a6b3, d5e9f3a2b8c1, a2c7f4e91b3d and f4b8d1e6a9c2. A session is one
-- transaction, taken as atomic.
use meeting_mgr.Base.{ℕ, Bool, true, ◌&&◌, List, filter, any, find, ◌==◌, Option}
use meeting_mgr.Models.{
  Organization, Account, Meeting, Recording, Participant, MeetingShare, SpeakerCluster, Segment,
  Attribution, RetentionPolicy, BotCredential, BotSession, AuditLogEntry, WatchFolder,
}
use meeting_mgr.Db.State.{Db, World, Result, ok, err}
use meeting_mgr.Db.Action.{Action, gets_db}

-- The role that a connection has: the owner, or `meeting_app` with `app.org_id` set.
pub data Session : Type 0 where
  untenanted : Session
  tenant : ℕ → Session

abbrev pub settle : {A : Type 0} → Db → Result A × World → Result A × World
settle before (ok a, w) = (ok a, w)
settle before (err e, w) = (err e, record w { db = before })

abbrev pub discard : {A : Type 0} → Db → Result A × World → Result A × World
discard before (r, w) = (r, record w { db = before })

module _ {A : Type 0} where
  -- Commits on a clean exit, rolls back on an exception.
  abbrev pub get_session : (Session → Action A) → Action A
  get_session body w = settle w.db (body untenanted w)

  -- Always rolls back.
  abbrev pub get_readonly_session : (Session → Action A) → Action A
  get_readonly_session body w = discard w.db (body untenanted w)

  abbrev pub get_org_session : ℕ → (Session → Action A) → Action A
  get_org_session org_id body w = settle w.db (body (tenant org_id) w)

  abbrev pub get_readonly_org_session : ℕ → (Session → Action A) → Action A
  get_readonly_org_session org_id body w = discard w.db (body (tenant org_id) w)

-- The policy of a table with an `organization_id`.
abbrev pub sees_org : Session → ℕ → Bool
sees_org untenanted org = true
sees_org (tenant org_id) org = org == org_id

-- `meeting_id IN (SELECT id FROM meeting)`, where the subquery obeys the policy of `meeting`.
unfoldable pub sees_meeting : Session → Db → ℕ → Bool
sees_meeting untenanted db mid = true
sees_meeting (tenant o) db mid = any (λ m. m.id == mid && m.organization_id == o) db.meetings

-- `cluster_id IN (SELECT id FROM speaker_cluster)`
unfoldable pub sees_cluster : Session → Db → ℕ → Bool
sees_cluster untenanted db cid = true
sees_cluster (tenant o) db cid =
    any (λ c. c.id == cid && sees_meeting (tenant o) db c.meeting_id) db.clusters

-- The rows that a query over each table ranges over.
module _ (s : Session) (db : Db) where
  abbrev pub organizations : List Organization
  organizations = filter (λ r. sees_org s r.id) db.organizations

  abbrev pub accounts : List Account
  accounts = filter (λ r. sees_org s r.organization_id) db.accounts

  abbrev pub meetings : List Meeting
  meetings = filter (λ r. sees_org s r.organization_id) db.meetings

  abbrev pub participants : List Participant
  participants = filter (λ r. sees_org s r.organization_id) db.participants

  abbrev pub policies : List RetentionPolicy
  policies = filter (λ r. sees_org s r.organization_id) db.policies

  abbrev pub bot_credentials : List BotCredential
  bot_credentials = filter (λ r. sees_org s r.organization_id) db.bot_credentials

  abbrev pub bot_sessions : List BotSession
  bot_sessions = filter (λ r. sees_org s r.organization_id) db.bot_sessions

  abbrev pub audit_log : List AuditLogEntry
  audit_log = filter (λ r. sees_org s r.organization_id) db.audit_log

  abbrev pub watch_folders : List WatchFolder
  watch_folders = filter (λ r. sees_org s r.organization_id) db.watch_folders

  abbrev pub shares : List MeetingShare
  shares = filter (λ r. sees_meeting s db r.meeting_id) db.shares

  abbrev pub recordings : List Recording
  recordings = filter (λ r. sees_meeting s db r.meeting_id) db.recordings

  abbrev pub clusters : List SpeakerCluster
  clusters = filter (λ r. sees_meeting s db r.meeting_id) db.clusters

  abbrev pub segments : List Segment
  segments = filter (λ r. sees_meeting s db r.meeting_id) db.segments

  abbrev pub attributions : List Attribution
  attributions = filter (λ r. sees_cluster s db r.cluster_id) db.attributions

-- `s.get(Meeting, id)`
abbrev pub get_meeting : Session → ℕ → Action (Option Meeting)
get_meeting s mid = gets_db (λ db. find (λ m. m.id == mid) (meetings s db))

abbrev pub get_account : Session → ℕ → Action (Option Account)
get_account s aid = gets_db (λ db. find (λ a. a.id == aid) (accounts s db))
