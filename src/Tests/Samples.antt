-- ===== src/Tests/Samples.antt =====
-- The rows and worlds that the examples share.
use meeting_mgr.Base.{ℕ, Bool, none, some, List, [], ◌∷◌}
use meeting_mgr.Base.Text.{Text, codes}
use meeting_mgr.Models.{Role, Status, Account, Meeting, Recording, private, published}
use meeting_mgr.Db.State.{Db, Body, World, blob, json}
use meeting_mgr.Db.Time.{days}

abbrev pub sample_account : ℕ → Role → Account
sample_account id role = record {
  id = id;
  organization_id = 1;
  email = codes "a@b";
  role = role;
  password_hash = none;
  oidc_subject = none;
  mtls_subject = none;
}

abbrev pub sample_meeting : ℕ → Status → Meeting
sample_meeting id status = record {
  id = id;
  organization_id = 1;
  title = codes "weekly";
  status = status;
  failed_stage = none;
  current_stage = none;
  created_at = 0;
  owner_account_id = some 2;
  visibility = private;
}

abbrev pub sample_recording : ℕ → Text → Recording
sample_recording mid raw_key = record {
  id = 30;
  meeting_id = mid;
  raw_key = some raw_key;
  normalized_key = some (codes "n");
  duration_seconds = none;
}

abbrev pub empty_db : Db
empty_db = record {
  organizations = [];
  accounts = [];
  meetings = [];
  shares = [];
  recordings = [];
  participants = [];
  clusters = [];
  segments = [];
  attributions = [];
  key_topics = [];
  minutes = [];
  action_items = [];
  decision_points = [];
  policies = [];
  bot_credentials = [];
  bot_sessions = [];
  audit_log = [];
  watch_folders = [];
}

abbrev pub sample_world : Db → List (Text × Body) → List Bool → World
sample_world db objects faults = record {
  db = db;
  objects = objects;
  files = [];
  changes = [];
  queue = [];
  progress = [];
  faults = faults;
  now = days 100;
  next_id = 50;
}

-- A Meeting with a Recording whose raw key is a manifest of two chunks.
abbrev pub recorded : Recording
recorded = sample_recording 7 (codes "manifest:m")

abbrev pub recorded_db : Db
recorded_db = record empty_db {
  meetings = sample_meeting 7 published ∷ [];
  recordings = recorded ∷ [];
}

abbrev pub recorded_objects : List (Text × Body)
recorded_objects =
    (codes "c1", blob (1 ∷ []))
    ∷ (codes "c2", blob (2 ∷ []))
    ∷ (codes "m", json (codes "c1" ∷ codes "c2" ∷ []))
    ∷ (codes "n", blob (3 ∷ []))
    ∷ []
