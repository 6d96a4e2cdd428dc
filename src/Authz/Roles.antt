-- ===== src/Authz/Roles.antt =====
-- The test of a role.
use meeting_mgr.Base.{◌≡◌, refl, true, not, List, arith, any}
use meeting_mgr.Models.{Role, Account}
use meeting_mgr.Db.State.{World, ok}
use meeting_mgr.Authz.{role_eq, role_refused, require_role}
use meeting_mgr.Db.Frames.{raise_if_ok}

pub require_role_ok :
    (account : Account) (allowed : List Role) (w : World) {u : Unit {0}} {v : World}
    → require_role account allowed w ≡ (ok u, v)
    → (any (role_eq account.role) allowed ≡ true) × (v ≡ w)
unfolding require_role
require_role_ok account allowed w h =
    let (c, e) = raise_if_ok (not (any (role_eq account.role) allowed)) role_refused w h in
    (ground (arith, c), e)

-- An account with one of the roles passes.
pub require_role-allowed :
    (account : Account) (allowed : List Role) (w : World)
    → any (role_eq account.role) allowed ≡ true
    → require_role account allowed w ≡ (ok tt, w)
unfolding require_role
require_role-allowed account allowed w h = rw h refl
