-- ===== src/Meetings/Pages.antt =====
-- What a page of the listing shows.
use meeting_mgr.Base.{
  ℕ, ◌≤◌, ◌≡◌, refl, true, ◌&&◌, List, map, arith, ◌==◌, ==_iff, length, take, drop, filter, All,
  Elem, length-take-le, All-take, All-map, All-filter_of, All-filter_with, All-Elem,
}
use meeting_mgr.Base.Decimal.{pos}
use meeting_mgr.Models.{Account, Meeting}
use meeting_mgr.Db.State.{Db, World, ok}
use meeting_mgr.Db.Session.{meetings, tenant}
use meeting_mgr.Meetings.{page, meeting_view, listed, list_meetings}
use meeting_mgr.Meetings.Order.{
  IsDescending, All-sort_desc, sort_desc-IsDescending, drop-IsDescending, take-IsDescending,
  All-drop,
}
use meeting_mgr.Authz.{readable_meetings_filter}

-- A row that the account may see.
abbrev pub IsListable : Account → Db → Meeting → Type 0
IsListable account db m =
    Elem m db.meetings
    × (m.organization_id ≡ account.organization_id)
    × (readable_meetings_filter account (tenant account.organization_id) db m ≡ true)

listed_rows :
    (account : Account) (db : Db)
    → All (IsListable account db) (listed account (tenant account.organization_id) db)
unfolding listed
listed_rows account db =
    let s = tenant account.organization_id in
    let shown = λ (m : Meeting).
      m.organization_id == account.organization_id && readable_meetings_filter account s db m in
    All-sort_desc (λ m. m.id) (IsListable account db) (filter shown (meetings s db))
      (All-map (λ m. Elem m db.meetings × (shown m ≡ true)) (IsListable account db)
        (λ m h. (
          h.0,
          ground (arith, h.1, ==_iff m.organization_id account.organization_id),
          ground (arith, h.1),
        ))
        (filter shown (meetings s db))
        (All-filter_with (λ m. Elem m db.meetings) shown (meetings s db)
          (All-filter_of (λ m. Elem m db.meetings)
            (λ m. m.organization_id == account.organization_id) db.meetings
            (All-Elem db.meetings))))

-- A listing with a limit and an offset that are not negative returns at most as many Meetings as
-- the limit, the ids going down, each of them a row of the account's Organization that the filter
-- of lists lets through, and changes nothing.
pub list_meetings_page :
    (account : Account) (limit offset : ℕ) (w : World)
    → (rows : List Meeting) × (list_meetings account (pos limit) (pos offset) w
        ≡ (ok (map meeting_view rows), w))
      × (length rows ≤ limit)
      × IsDescending (λ m. m.id) rows
      × All (IsListable account w.db) rows
unfolding list_meetings page listed
list_meetings_page account limit offset w =
    let s = tenant account.organization_id in
    let all_rows = listed account s w.db in
    let rest = drop offset all_rows in
    (
      take limit rest,
      refl,
      length-take-le limit rest,
      take-IsDescending (λ m. m.id) limit rest
          (drop-IsDescending (λ m. m.id) offset all_rows (sort_desc-IsDescending (λ m. m.id) _)),
      All-take (IsListable account w.db) limit rest
          (All-drop (IsListable account w.db) offset all_rows (listed_rows account w.db)),
    )
