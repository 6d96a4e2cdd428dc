-- ===== src/Capture/Outcomes.antt =====
-- The outcomes of the transactions of browser capture, with the world that each leaves.
use meeting_mgr.Base.{
  ℕ, ◌≡◌, refl, ap, ◌∙◌, ◌⊎◌, inl, inr, Bool, true, not, ◌&&◌, ◌||◌, Option, none, some, List,
  arith, ◌==◌, Bool-cases, find, update_where,
}
use meeting_mgr.Models.{Status, Account, Meeting, auditor, capturing, finishing}
use meeting_mgr.Db.State.{Db, World, Exc, Result, attribute_error, ok, err}
use meeting_mgr.Db.Action.{Action, pure, ◌>>◌, raise_if, or_raise}
use meeting_mgr.Db.Session.{Session, settle, sees_org, meetings, tenant}
use meeting_mgr.Db.Rows.{set_status}
use meeting_mgr.Db.Laws.{after}
use meeting_mgr.Authz.{role_eq, can_read, not_found, read_only, authorize}
use meeting_mgr.Capture.{status_eq, authorized_meeting, not_in_capture, flip_read, flip_write}

authorize_outcome :
    (a : Account) (m : Meeting) (s : Session) (write : Bool) (w : World)
    → (authorize a (some m) s write w ≡ (ok tt, w))
      ⊎ ((e : Exc) × (authorize a (some m) s write w ≡ (err e, w)))
unfolding authorize
authorize_outcome a m s write w = elim (Bool-cases (not (m.organization_id == a.organization_id))) [
  | inl e ↦ inr (not_found, ground (arith, e))
  | inr e ↦ elim (Bool-cases (not (can_read a m s w.db))) [
    | inl f ↦ inr (not_found, ground (arith, e, f))
    | inr f ↦ elim (Bool-cases (write && role_eq a.role auditor)) [
      | inl g ↦ inr (read_only, ground (arith, e, f, g))
      | inr g ↦ inl (ground (arith, e, f, g))
    ]
  ]
]

-- The row of a Meeting, as a session sees it.
abbrev pub row : Session → ℕ → Db → Option Meeting
row s mid db = find (λ m. m.id == mid) (meetings s db)

abbrev rest : Account → Session → Bool → Option Meeting → Action Meeting
rest a s write found = do authorize a found s write; or_raise found attribute_error

rest_outcome :
    (a : Account) (s : Session) (write : Bool) (found : Option Meeting) (w : World)
    → ((m : Meeting) × (found ≡ some m) × (rest a s write found w ≡ (ok m, w)))
      ⊎ ((e : Exc) × (rest a s write found w ≡ (err e, w)))
unfolding authorize
rest_outcome a s write none w = inr (not_found, refl)
rest_outcome a s write (some m) w = elim (authorize_outcome a m s write w) [
  | inl g ↦ inl (m, refl, ap (λ r. after r (λ _. pure m)) g)
  | inr (e, g) ↦ inr (e, ap (λ r. after r (λ _. pure m)) g)
]

-- The Meeting that a handler goes on with is the row; otherwise an HTTP error, and no change.
pub authorized_meeting_outcome :
    (a : Account) (mid : ℕ) (s : Session) (write : Bool) (w : World)
    → ((m : Meeting) × (row s mid w.db ≡ some m) × (authorized_meeting a mid s write w ≡ (ok m, w)))
      ⊎ ((e : Exc) × (authorized_meeting a mid s write w ≡ (err e, w)))
unfolding authorized_meeting
authorized_meeting_outcome a mid s write w = rest_outcome a s write (row s mid w.db) w

abbrev pub is_open : Status → Bool
is_open status = status_eq status capturing || status_eq status finishing

-- The world with other Meeting rows.
abbrev pub with_meetings : List Meeting → World → World
with_meetings ms w = record w { db = record w.db { meetings = ms } }

-- The rows of the flip: those of the Meeting that the tenant sees are "finishing".
abbrev pub flipped : ℕ → ℕ → List Meeting → List Meeting
flipped o mid ms =
    update_where (λ m. m.id == mid && sees_org (tenant o) m.organization_id) (set_status finishing)
      ms

pub flip_write_lem :
    (mid : ℕ) (a : Account) (w : World)
    → flip_write mid a w ≡ (ok tt, with_meetings (flipped a.organization_id mid w.db.meetings) w)
unfolding flip_write
flip_write_lem mid a w = refl

-- A read that lets the request go on has found an open row.
pub flip_read_outcome :
    (mid : ℕ) (a : Account) (w : World)
    → ((m : Meeting) × (row (tenant a.organization_id) mid w.db ≡ some m)
        × (is_open m.status ≡ true)
        × (flip_read mid a w ≡ (ok tt, w)))
      ⊎ ((e : Exc) × (flip_read mid a w ≡ (err e, w)))
unfolding flip_read
flip_read_outcome mid a w =
    let k = λ (r : Result Meeting × World).
      settle w.db (after r (λ m. raise_if (not (is_open m.status)) not_in_capture)) in
    elim (authorized_meeting_outcome a mid (tenant a.organization_id) true w) [
      | inl (m, h, run) ↦ elim (Bool-cases (is_open m.status)) [
        | inl e ↦ inl (m, h, e, ap k run ∙ rw e refl)
        | inr e ↦ inr (not_in_capture, ap k run ∙ rw e refl)
      ]
      | inr (e, run) ↦ inr (e, ap k run)
    ]
