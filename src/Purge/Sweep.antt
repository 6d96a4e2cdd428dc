-- ===== src/Purge/Sweep.antt =====
-- The daily sweep over the Organizations.
use meeting_mgr.Base.{
  ℕ, ◌≡◌, refl, sym, ap, ◌∙◌, List, [], ◌∷◌, ◌++◌, map, append_assoc, append_nil,
}
use meeting_mgr.Db.State.{World, purge_organization_task, ok}
use meeting_mgr.Db.Action.{service_call, delay}
use meeting_mgr.Db.Laws.{calm}
use meeting_mgr.Purge.{with_policy, dispatch_all, sweep_retention}
use meeting_mgr.Purge.Objects.{passed_over}

dispatch_all_returns : (os : List ℕ) (w : World) → (dispatch_all os w).0 ≡ ok tt
unfolding dispatch_all
dispatch_all_returns [] w = refl
dispatch_all_returns (o ∷ os) w =
    passed_over (dispatch_all os) (delay (purge_organization_task o) w) w (dispatch_all_returns os)

dispatch_all-calm :
    (os : List ℕ) (w : World)
    → dispatch_all os (calm w)
      ≡ (ok tt, record (calm w) { queue = w.queue ++ map purge_organization_task os })
unfolding dispatch_all delay service_call
dispatch_all-calm [] w = ap (λ q. (ok tt, record (calm w) { queue = q })) (sym (append_nil w.queue))
dispatch_all-calm (o ∷ os) w =
    dispatch_all-calm os (record w { queue = w.queue ++ purge_organization_task o ∷ [] })
    ∙ ap (λ q. (ok tt, record (calm w) { queue = q }))
        (append_assoc w.queue (purge_organization_task o ∷ []) (map purge_organization_task os))

-- The daily sweep returns whatever calls of the broker fail, and if none fails it puts one purge
-- task on the queue for each Organization with a day count set, in their order, and changes nothing
-- else.
pub sweep_dispatches :
    (w : World)
    → ((sweep_retention w).0 ≡ ok tt)
      × (sweep_retention (calm w) ≡ (
        ok tt,
        record (calm w) { queue = w.queue ++ map purge_organization_task (with_policy w.db) },
      ))
unfolding sweep_retention
sweep_dispatches w =
    (dispatch_all_returns (with_policy w.db) w, dispatch_all-calm (with_policy w.db) w)
