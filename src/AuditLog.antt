-- ===== src/AuditLog.antt =====
-- src/meeting_mgr/api/audit_log.py: the audit log, in pages.
use meeting_mgr.Base.{ℕ, Bool, true, false, not, ◌&&◌, List, [], ◌∷◌, leb}
use meeting_mgr.Base.Decimal.{ℤ, pos, negsuc}
use meeting_mgr.Models.{Role, Account, AuditLogEntry, admin, auditor}
use meeting_mgr.Db.State.{Exc, http}
use meeting_mgr.Db.Action.{Action, ◌>>=◌, ◌>>◌, raise_if, gets_db}
use meeting_mgr.Db.Session.{get_readonly_org_session, audit_log}
use meeting_mgr.Meetings.{sort_desc, page}
use meeting_mgr.Authz.{require_role}

abbrev pub readers : List Role
readers = admin ∷ auditor ∷ []

-- `Query(50, ge=1, le=200)` and `Query(0, ge=0)`, checked before the handler runs.
abbrev pub bad_page : Exc
bad_page = http 422 "unprocessable"

abbrev pub in_range : ℤ → (low high : ℕ) → Bool
in_range (pos n) low high = leb low n && leb n high
in_range (negsuc n) low high = false

abbrev pub is_natural : ℤ → Bool
is_natural (pos n) = true
is_natural (negsuc n) = false

unfoldable pub read_audit_log : Account → (limit offset : ℤ) → Action (List AuditLogEntry)
read_audit_log account limit offset = do
  raise_if (not (in_range limit 1 200)) bad_page
  raise_if (not (is_natural offset)) bad_page
  require_role account readers
  get_readonly_org_session account.organization_id
      λ s. do rows ← gets_db (λ db. sort_desc (λ e. e.id) (audit_log s db)); page limit offset rows
