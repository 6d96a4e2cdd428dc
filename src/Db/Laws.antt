-- ===== src/Db/Laws.antt =====
-- What a session does to the database, and the two outcomes of a service call.
use meeting_mgr.Base.{
  ◌≡◌, refl, sym, ap, ◌∙◌, subst, ◌≢◌, ◌⊎◌, inl, inr, [], ◌∷◌, ◌++◌, arith, Bool-cases,
}
use meeting_mgr.Db.State.{Db, Task, World, Exc, Result, broker_error, ok, err}
use meeting_mgr.Db.Action.{Action, next_fault, service_call, delay}
use meeting_mgr.Db.Session.{settle}

pub settle_err :
    {A : Type 0} (before : Db) (r : Result A × World) {e : Exc} {w' : World}
    → settle before r ≡ (err e, w')
    → (r.0 ≡ err e) × (w' ≡ record r.1 { db = before })
settle_err before (ok a, w) h = cc
settle_err before (err e, w) h = (ground (arith, h), ground (arith, h))

pub settle_ok :
    {A : Type 0} (before : Db) (r : Result A × World) {a : A} {w' : World}
    → settle before r ≡ (ok a, w')
    → r ≡ (ok a, w')
settle_ok before (ok a, w) h = h
settle_ok before (err e, w) h = cc

-- The world after a call of a service, failed or not.
abbrev pub after_call : World → World
after_call w = record w { faults = (next_fault w.faults).1 }

-- A task is on the queue, or the broker has failed.
pub delay_outcome :
    (t : Task) (w : World)
    → (delay t w ≡ (ok tt, record (after_call w) { queue = w.queue ++ t ∷ [] }))
      ⊎ (delay t w ≡ (err broker_error, after_call w))
unfolding delay service_call
delay_outcome t w = elim (Bool-cases (next_fault w.faults).0) [
  | inl e ↦ inr (ground (arith, e))
  | inr e ↦ inl (ground (arith, e))
]

-- The world with a storage and a broker that do not fail any more.
abbrev pub calm : World → World
calm w = record w { faults = [] }

-- How a chain goes on from the outcome of its first action.
abbrev pub after : {A B : Type 0} → Result A × World → (A → Action B) → Result B × World
after (r, w) f = elim r [ ok a ↦ f a w | err e ↦ (err e, w) ]

ok_value : {A : Type 0} → A → Result A → A
ok_value a (ok b) = b
ok_value a (err e) = a

-- One run has one outcome.
pub ok_eq :
    {A : Type 0} {a b : A} {w v : World} {r : Result A × World}
    → r ≡ (ok a, w)
    → r ≡ (ok b, v)
    → (a ≡ b) × (w ≡ v)
unfolding ok_value
ok_eq {a} e h = let q = sym e ∙ h in (ap (λ r. ok_value a r.0) q, ap (λ r. r.1) q)

-- What holds of the outcome of one run holds of the same outcome under other names.
pub same_ok :
    {A : Type 0} (P : A → World → Type 0) {a b : A} {w v : World} {r : Result A × World}
    → r ≡ (ok a, w)
    → r ≡ (ok b, v)
    → P a w
    → P b v
same_ok P {a} {v} e h p = let (x, y) = ok_eq e h in subst (λ c. P c v) x (subst (P a) y p)

pub err_not_ok :
    {A : Type 0} {e : Exc} {a : A} {w v : World} {r : Result A × World}
    → r ≡ (err e, w)
    → r ≢ (ok a, v)
err_not_ok h k = cc

pub settle_queue :
    {A : Type 0} (before : Db) (r : Result A × World) → (settle before r).1.queue ≡ r.1.queue
settle_queue before (ok a, w) = refl
settle_queue before (err e, w) = refl
