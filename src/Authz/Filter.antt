-- ===== src/Authz/Filter.antt =====
-- The two encodings of the read rule, `_can_read` for one Meeting and `readable_meetings_filter` for
-- a list, and where they part.
use meeting_mgr.Base.{
  ℕ, ◌≡◌, refl, ◌≢◌, Bool, true, false, ◌&&◌, ◌||◌, some, List, [], ◌∷◌, map, arith, ◌==◌, is_some,
  filter, find, any,
}
use meeting_mgr.Models.{Account, Meeting, MeetingShare, member, private}
use meeting_mgr.Db.State.{Db}
use meeting_mgr.Db.Session.{Session, shares}
use meeting_mgr.Authz.{can_read, readable_meetings_filter}

-- The subquery's test is the test for a share of the Meeting.
any-shared_ids :
    (aid mid : ℕ) (gs : List MeetingShare)
    → any (λ i. mid == i) (map (λ g. g.meeting_id) (filter (λ g. g.account_id == aid) gs))
      ≡ is_some (find (λ g. g.meeting_id == mid && g.account_id == aid) gs)
any-shared_ids aid mid [] = refl
any-shared_ids aid mid (g ∷ gs) = ground (arith, any-shared_ids aid mid gs)

abbrev pub has_share : Account → Meeting → Session → Db → Bool
has_share a m s db =
    is_some (find (λ g. g.meeting_id == m.id && g.account_id == a.id) (shares s db))

-- The list filter admits exactly what `_can_read` admits, and the private Meetings that still have
-- a share row for the account.
pub filter-eq-can_read_or_stale :
    (a : Account) (m : Meeting) (s : Session) (db : Db)
    → readable_meetings_filter a s db m ≡ (can_read a m s db || has_share a m s db)
unfolding readable_meetings_filter can_read
filter-eq-can_read_or_stale a m s db = ground (arith, any-shared_ids a.id m.id (shares s db))

-- On a Meeting that is not private the filter of lists and `_can_read` agree.
pub filter-eq-can_read :
    (a : Account) (m : Meeting) (s : Session) (db : Db)
    → m.visibility ≢ private
    → readable_meetings_filter a s db m ≡ can_read a m s db
unfolding readable_meetings_filter can_read
filter-eq-can_read a m s db h = ground (arith, any-shared_ids a.id m.id (shares s db))

-- A member who does not own a private Meeting but has a share of it from before cannot read it, and
-- still finds it in the list.
pub private_share_diverges :
    (a : Account) (m : Meeting) (s : Session) (db : Db)
    → a.role ≡ member
    → m.visibility ≡ private
    → m.owner_account_id ≢ some a.id
    → has_share a m s db ≡ true
    → (can_read a m s db ≡ false) × (readable_meetings_filter a s db m ≡ true)
unfolding readable_meetings_filter can_read
private_share_diverges a m s db r v o h = ground (arith, any-shared_ids a.id m.id (shares s db))
