-- ===== src/Authz.antt =====
-- src/meeting_mgr/authz.py: the authorization chokepoint.
pub mod Roles
pub mod Laws
pub mod Filter
use meeting_mgr.Base.{
  ℕ, ◌-◌, ◌/◌, ap, Bool, true, false, not, ◌&&◌, ◌||◌, Option, none, some, List, map, ◌==◌,
  if◌then◌else◌, is_some, is_id, filter, find, any, here, there,
}
use meeting_mgr.Models.{
  Role, Visibility, Account, Meeting, admin, member, auditor, shared, organization,
}
use meeting_mgr.Db.State.{Db, Exc, http, ok}
use meeting_mgr.Db.Action.{Action, raise, gets, raise_if, gets_db, ◌>>=◌, ◌>>◌}
use meeting_mgr.Db.Session.{Session, sees_meeting, meetings, shares}

abbrev pub role_eq : Role → Role → Bool
role_eq admin admin = true
role_eq member member = true
role_eq auditor auditor = true
role_eq _ _ = false

-- `role in ("admin", "auditor")`
abbrev pub reads_all : Role → Bool
reads_all role = role_eq role admin || role_eq role auditor

abbrev pub is_organization : Visibility → Bool
is_organization organization = true
is_organization _ = false

abbrev pub is_shared : Visibility → Bool
is_shared shared = true
is_shared _ = false

-- `_can_read`
unfoldable pub can_read : Account → Meeting → Session → Db → Bool
unfolding sees_meeting
can_read account meeting s db =
    if reads_all account.role
    then true
    else if is_id meeting.owner_account_id account.id
    then true
    else if is_organization meeting.visibility
    then true
    else if is_shared meeting.visibility
    then is_some
        (find (λ g. g.meeting_id == meeting.id && g.account_id == account.id) (shares s db))
    else false

-- `_session_scoped_shared_meeting_ids_subquery`
unfoldable pub shared_meeting_ids : Account → Session → Db → List ℕ
unfolding sees_meeting
shared_meeting_ids account s db =
    map (λ g. g.meeting_id) (filter (λ g. g.account_id == account.id) (shares s db))

-- The predicate that a row of `meeting` has to meet.
unfoldable pub readable_meetings_filter : Account → Session → Db → Meeting → Bool
unfolding shared_meeting_ids
readable_meetings_filter account s db meeting =
    if reads_all account.role
    then true
    else is_id meeting.owner_account_id account.id
      || is_organization meeting.visibility
      || any (λ i. meeting.id == i) (shared_meeting_ids account s db)

-- The message goes on with the sorted roles.
abbrev pub role_refused : Exc
role_refused = http 403 "requires one of roles"

abbrev pub not_found : Exc
not_found = http 404 "meeting not found"

abbrev pub read_only : Exc
read_only = http 403 "auditor role is read-only"

unfoldable pub require_role : Account → List Role → Action (Unit {0})
require_role account allowed = raise_if (not (any (role_eq account.role) allowed)) role_refused

-- The tests that `authorize` makes once the Meeting is there.
authorize_found : Account → Meeting → Session → Bool → Action (Unit {0})
unfolding can_read
authorize_found account meeting s write = do
  raise_if (not (meeting.organization_id == account.organization_id)) not_found
  readable ← gets_db (can_read account meeting s)
  raise_if (not readable) not_found
  raise_if (write && role_eq account.role auditor) read_only

unfoldable pub authorize : Account → Option Meeting → Session → (write : Bool) → Action (Unit {0})
unfolding authorize_found
authorize account none s write = raise not_found
authorize account (some meeting) s write = authorize_found account meeting s write
