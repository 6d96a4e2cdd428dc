-- ===== src/Authz/Laws.antt =====
-- `authorize` decides the read rule of the design, stated as a relation of its own, and its refusals
-- do not tell a Meeting that is hidden from one that does not exist.
use meeting_mgr.Base.{
  ◌≡◌, refl, ◌≢◌, ◌↔◌, ◌⊎◌, inl, inr, Bool, true, false, ◌&&◌, none, some, List, [], ◌∷◌, arith,
  ◌==◌, Bool-cases, is_some, is_id, find, Elem, here, there,
}
use meeting_mgr.Models.{Role, Account, Meeting, MeetingShare, admin, auditor, shared, organization}
use meeting_mgr.Db.State.{Db, World, ok}
use meeting_mgr.Db.Session.{Session, shares}
use meeting_mgr.Authz.{reads_all, is_organization, can_read, authorize}

-- An explicit grant of read access to `meeting` for `account` that the session sees.
abbrev pub HasShare : Account → Meeting → Session → Db → Type 0
HasShare account meeting s db =
    (g : MeetingShare) × Elem g (shares s db)
    × (g.meeting_id ≡ meeting.id)
    × (g.account_id ≡ account.id)

-- The ways to have read access: a Role's standing, ownership, or the Meeting's Visibility.
pub data MayRead (account : Account) (meeting : Meeting) (s : Session) (db : Db) : Type 0 where
  as_admin : account.role ≡ admin → MayRead account meeting s db
  as_auditor : account.role ≡ auditor → MayRead account meeting s db
  as_owner : meeting.owner_account_id ≡ some account.id → MayRead account meeting s db
  in_organization : meeting.visibility ≡ organization → MayRead account meeting s db
  by_share :
      meeting.visibility ≡ shared → HasShare account meeting s db → MayRead account meeting s db

module _ {A : Type 0} (p : A → Bool) where
  pub find_sound : (xs : List A) → is_some (find p xs) ≡ true → (a : A) × Elem a xs × (p a ≡ true)
  find_sound [] h = cc
  find_sound (x ∷ xs) h = elim (Bool-cases (p x)) [
    | inl e ↦ (x, Elem.here, e)
    | inr e ↦ let (a, at, pa) = find_sound xs (rw (e, find) at h) in (a, Elem.there at, pa)
  ]

  pub find_complete : {a : A} {xs : List A} → Elem a xs → p a ≡ true → is_some (find p xs) ≡ true
  find_complete here pa = rw pa
  find_complete (there {x} {xs} e) pa = ground (arith, find_complete e pa)

elevated_roles : (r : Role) → reads_all r ≡ true → (r ≡ admin) ⊎ (r ≡ auditor)
elevated_roles r h = ground arith

share_holds :
    (a : Account) (m : Meeting) (s : Session) (db : Db)
    → is_some (find (λ g. g.meeting_id == m.id && g.account_id == a.id) (shares s db)) ≡ true
    → HasShare a m s db
share_holds a m s db h =
    let found =
      find_sound (λ (g : MeetingShare). g.meeting_id == m.id && g.account_id == a.id) (shares s db)
        h in
    (found.0, found.1, ground (arith, found.2), ground (arith, found.2))

share_found :
    (a : Account) (m : Meeting) (s : Session) (db : Db)
    → HasShare a m s db
    → is_some (find (λ g. g.meeting_id == m.id && g.account_id == a.id) (shares s db)) ≡ true
share_found a m s db (g, at, e, f) =
    find_complete (λ (x : MeetingShare). x.meeting_id == m.id && x.account_id == a.id) at
      (ground arith)

can_read_sound :
    (a : Account) (m : Meeting) (s : Session) (db : Db)
    → can_read a m s db ≡ true
    → MayRead a m s db
unfolding can_read
can_read_sound a m s db h = elim (Bool-cases (reads_all a.role)) [
  | inl e ↦ elim (elevated_roles a.role e) [ inl r ↦ as_admin r | inr r ↦ as_auditor r ]
  | inr e ↦ elim (Bool-cases (is_id m.owner_account_id a.id)) [
    | inl o ↦ as_owner (ground arith)
    | inr o ↦ elim (Bool-cases (is_organization m.visibility)) [
      | inl v ↦ in_organization (ground arith)
      | inr v ↦ by_share (ground arith) (share_holds a m s db (ground arith))
    ]
  ]
]

can_read_complete :
    (a : Account) (m : Meeting) (s : Session) (db : Db)
    → MayRead a m s db
    → can_read a m s db ≡ true
unfolding can_read
can_read_complete a m s db (as_admin r) = ground arith
can_read_complete a m s db (as_auditor r) = ground arith
can_read_complete a m s db (as_owner o) = ground arith
can_read_complete a m s db (in_organization v) = ground arith
can_read_complete a m s db (by_share v h) = ground (arith, share_found a m s db h)

-- Read access is granted exactly by an admin's or auditor's role, by ownership, by a Visibility of
-- "organization", or by a share of a Meeting that is "shared".
pub can_read-iff_MayRead :
    (account : Account) (meeting : Meeting) (s : Session) (db : Db)
    → (can_read account meeting s db ≡ true) ↔ MayRead account meeting s db
can_read-iff_MayRead a m s db = (can_read_sound a m s db, can_read_complete a m s db)

-- `authorize` lets a request pass exactly if the Meeting is of the account's Organization, the
-- account may read it, and a write does not come from an auditor; and it changes nothing.
pub authorize_decides :
    (account : Account) (meeting : Meeting) (s : Session) (write : Bool) (w : World)
    → (authorize account (some meeting) s write w ≡ (ok tt, w)) ↔ (
        (meeting.organization_id ≡ account.organization_id)
        × MayRead account meeting s w.db
        × (write ≡ true → account.role ≢ auditor))
unfolding authorize
authorize_decides a m s write w = (
  λ h. (ground arith, can_read_sound a m s w.db (ground arith), λ e r. ground arith),
  λ h. ground (arith, can_read_complete a m s w.db h.1),
)

-- A Meeting of another Organization, or one that the account cannot read, gets the very answer that
-- an id with no Meeting gets, for reads and for writes.
pub authorize_hides :
    (account : Account) (meeting : Meeting) (s : Session) (write : Bool) (w : World)
    → (meeting.organization_id ≢ account.organization_id) ⊎ (¬ MayRead account meeting s w.db)
    → authorize account (some meeting) s write w ≡ authorize account none s write w
unfolding authorize
authorize_hides a m s write w (inl other) = ground arith
authorize_hides a m s write w (inr hidden) =
    ground (arith, not_true (can_read a m s w.db) (λ r. hidden (can_read_sound a m s w.db r)))
  where
    not_true : (b : Bool) → ¬ (b ≡ true) → b ≡ false
    not_true true n = absurd (n refl)
    not_true false n = refl
