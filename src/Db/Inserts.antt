-- ===== src/Db/Inserts.antt =====
-- Inserts of Meetings and Recordings that went through.
use meeting_mgr.Base.{
  ℕ, suc, String, ◌≡◌, refl, inl, inr, Option, none, some, [], ◌∷◌, ◌++◌, arith, ==_refl,
  Bool-cases,
}
use meeting_mgr.Base.Text.{Text}
use meeting_mgr.Models.{Meeting, Recording, Target, Detail}
use meeting_mgr.Db.State.{World, ok}
use meeting_mgr.Db.Session.{Session, sees_org, sees_meeting, tenant}
use meeting_mgr.Db.Rows.{add_meeting, add_recording, record_audit}

abbrev pub with_meeting : Meeting → World → World
with_meeting m w = record w { db = record w.db { meetings = w.db.meetings ++ m ∷ [] } }

-- A tenant may insert a Meeting of its own Organization.
pub add_meeting-own :
    (m : Meeting) (w : World)
    → add_meeting (tenant m.organization_id) m w ≡ (ok tt, with_meeting m w)
unfolding add_meeting
add_meeting-own m w = ground (arith, ==_refl m.organization_id)

-- A Recording of which the raw key alone is set.
abbrev pub raw_recording : (id meeting_id : ℕ) → Text → Recording
raw_recording id mid key = record {
  id = id;
  meeting_id = mid;
  raw_key = some key;
  normalized_key = none;
  duration_seconds = none;
}

abbrev pub with_recording : ℕ → Text → World → World
with_recording mid key w = record w {
  db = record w.db { recordings = w.db.recordings ++ raw_recording w.next_id mid key ∷ [] };
  next_id = suc w.next_id;
}

pub add_recording_ok :
    (s : Session) (mid : ℕ) (key : Text) (w : World) {u : Unit {0}} {v : World}
    → add_recording s mid key w ≡ (ok u, v)
    → v ≡ with_recording mid key w
unfolding add_recording
add_recording_ok s mid key w h = elim (Bool-cases (sees_meeting s w.db mid)) [
  | inl e ↦ ground (arith, h, e)
  | inr e ↦ ground (arith, h, e)
]

pub same_queue-add_recording :
    (s : Session) (mid : ℕ) (key : Text) (w : World) → (add_recording s mid key w).1.queue ≡ w.queue
unfolding add_recording
same_queue-add_recording s mid key w = ground arith

-- An audit entry touches no other table.
pub record_audit-db :
    (s : Session) (org : ℕ) (actor : Option ℕ) (action : String) (target : Target) (entry : Detail)
    (w : World)
    → (record_audit s org actor action target entry w).1.db
      ≡ record w.db { audit_log = (record_audit s org actor action target entry w).1.db.audit_log }
unfolding record_audit
record_audit-db s org actor action target entry w = elim (Bool-cases (sees_org s org)) [
  | inl e ↦ rw e refl
  | inr e ↦ rw e refl
]
