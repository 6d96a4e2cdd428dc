-- ===== src/Watch/Dispatch.antt =====
-- The beat of the watched directories.
use meeting_mgr.Base.{
  ℕ, ◌≡◌, refl, sym, ap, ◌∙◌, List, [], ◌∷◌, ◌++◌, map, append_assoc, append_nil,
}
use meeting_mgr.Db.State.{World, ok}
use meeting_mgr.Db.Action.{service_call, delay}
use meeting_mgr.Db.Laws.{calm}
use meeting_mgr.Purge.Objects.{passed_over}
use meeting_mgr.Watch.Scanning.{enabled_folders, scan_task, dispatch_scans, scan_watch_folders}

dispatch_scans_returns : (fs : List (ℕ × ℕ)) (w : World) → (dispatch_scans fs w).0 ≡ ok tt
unfolding dispatch_scans
dispatch_scans_returns [] w = refl
dispatch_scans_returns (f ∷ fs) w =
    passed_over (dispatch_scans fs) (delay (scan_task f) w) w (dispatch_scans_returns fs)

dispatch_scans-calm :
    (fs : List (ℕ × ℕ)) (w : World)
    → dispatch_scans fs (calm w) ≡ (ok tt, record (calm w) { queue = w.queue ++ map scan_task fs })
unfolding dispatch_scans delay service_call
dispatch_scans-calm [] w =
    ap (λ q. (ok tt, record (calm w) { queue = q })) (sym (append_nil w.queue))
dispatch_scans-calm (f ∷ fs) w =
    dispatch_scans-calm fs (record w { queue = w.queue ++ scan_task f ∷ [] })
    ∙ ap (λ q. (ok tt, record (calm w) { queue = q }))
        (append_assoc w.queue (scan_task f ∷ []) (map scan_task fs))

-- A beat returns whatever calls of the broker fail, and if none fails it puts one scan on the queue
-- for each enabled folder of any Organization, and changes nothing else.
pub scans_dispatched :
    (w : World)
    → ((scan_watch_folders w).0 ≡ ok tt)
      × (scan_watch_folders (calm w)
          ≡ (ok tt, record (calm w) { queue = w.queue ++ map scan_task (enabled_folders w.db) }))
unfolding scan_watch_folders
scans_dispatched w =
    (dispatch_scans_returns (enabled_folders w.db) w, dispatch_scans-calm (enabled_folders w.db) w)
