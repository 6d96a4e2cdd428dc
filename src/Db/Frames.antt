-- ===== src/Db/Frames.antt =====
-- Actions that leave the database, the queue and the sequences alone, and how a chain of actions
-- that returns is taken apart.
use meeting_mgr.Base.{
  ◌≡◌, refl, sym, ap, ◌∙◌, ◌⊎◌, inl, inr, Bool, true, false, Option, none, some, arith,
}
use meeting_mgr.Db.State.{World, Exc, Result, ok, err}
use meeting_mgr.Db.Action.{Action, raise, ◌>>=◌, raise_if, or_raise, catch, service_call}
use meeting_mgr.Db.Laws.{after}

-- Only what lies outside the database and the queue may differ.
pub record Aside (w v : World) : Type 0 where
  pub db : v.db ≡ w.db
  pub queue : v.queue ≡ w.queue
  pub next_id : v.next_id ≡ w.next_id
  pub now : v.now ≡ w.now

pub Aside-refl : (w : World) → Aside w w
Aside-refl w = record { db = refl; queue = refl; next_id = refl; now = refl }

pub Aside-trans : {w v u : World} → Aside w v → Aside v u → Aside w u
Aside-trans a b = record {
  db = b.db ∙ a.db;
  queue = b.queue ∙ a.queue;
  next_id = b.next_id ∙ a.next_id;
  now = b.now ∙ a.now;
}

abbrev pub IsAside : {A : Type 0} → Action A → Type 0
IsAside m = (w : World) → Aside w (m w).1

module _ {A B : Type 0} where
  Aside-after :
      (w : World) (k : A → Action B) (r : Result A × World)
      → Aside w r.1
      → ((a : A) → IsAside (k a))
      → Aside w (after r k).1
  Aside-after w k (ok a, v) h f = Aside-trans h (f a v)
  Aside-after w k (err e, v) h f = h

  pub IsAside-bind :
      (m : Action A) (k : A → Action B) → IsAside m → ((a : A) → IsAside (k a)) → IsAside (m >>= k)
  IsAside-bind m k h f w = Aside-after w k (m w) (h w) f

  aside_ok :
      (k : A → Action B) (r : Result A × World) {b : B} {u : World}
      → after r k ≡ (ok b, u)
      → (a : A) × (v : World) × (r ≡ (ok a, v)) × (k a v ≡ (ok b, u))
  aside_ok k (ok a, v) h = (a, v, refl, h)
  aside_ok k (err e, v) h = cc

  -- A chain that returns has a first action that returns.
  pub bind_ok :
      (m : Action A) (k : A → Action B) (w : World) {b : B} {u : World}
      → (m >>= k) w ≡ (ok b, u)
      → (a : A) × (v : World) × (m w ≡ (ok a, v)) × (k a v ≡ (ok b, u))
  bind_ok m k w h = aside_ok k (m w) h

  aside_err :
      (k : A → Action B) (r : Result A × World) {e : Exc} {u : World}
      → after r k ≡ (err e, u)
      → (r ≡ (err e, u)) ⊎ ((a : A) × (v : World) × (r ≡ (ok a, v)) × (k a v ≡ (err e, u)))
  aside_err k (ok a, v) h = inr (a, v, refl, h)
  aside_err k (err e, v) h = inl (ground (arith, h))

  -- A chain that raises, raises in its first action or in the rest.
  pub bind_err :
      (m : Action A) (k : A → Action B) (w : World) {e : Exc} {u : World}
      → (m >>= k) w ≡ (err e, u)
      → (m w ≡ (err e, u)) ⊎ ((a : A) × (v : World) × (m w ≡ (ok a, v)) × (k a v ≡ (err e, u)))
  bind_err m k w h = aside_err k (m w) h

module _ {A : Type 0} where
  Aside-caught :
      (w : World) (handler : Exc → Action A) (r : Result A × World)
      → Aside w r.1
      → ((e : Exc) → IsAside (handler e))
      → Aside w (catch (λ _. r) handler w).1
  Aside-caught w handler (ok a, v) h f = h
  Aside-caught w handler (err e, v) h f = Aside-trans h (f e v)

  pub IsAside-catch :
      (m : Action A) (handler : Exc → Action A)
      → IsAside m
      → ((e : Exc) → IsAside (handler e))
      → IsAside (catch m handler)
  IsAside-catch m handler h f w = Aside-caught w handler (m w) (h w) f

  pub IsAside-or_raise : (o : Option A) (e : Exc) → IsAside (or_raise o e)
  IsAside-or_raise none e = Aside-refl
  IsAside-or_raise (some a) e = Aside-refl

pub IsAside-raise_if : (c : Bool) (e : Exc) → IsAside (raise_if c e)
IsAside-raise_if c e = Aside-refl

pub IsAside-service_call : (e : Exc) → IsAside (service_call e)
unfolding service_call
IsAside-service_call e w = record { db = refl; queue = refl; next_id = refl; now = refl }

-- A guard that is passed.
pub raise_if_ok :
    (c : Bool) (e : Exc) (w : World) {u : Unit {0}} {v : World}
    → raise_if c e w ≡ (ok u, v)
    → (c ≡ false) × (v ≡ w)
raise_if_ok true e w h = cc
raise_if_ok false e w h = (refl, sym (ap (λ r. r.1) h))

-- A part of the world that an action leaves as it was.
module _ {X : Type 0} (part : World → X) where
  abbrev pub Keeps : {A : Type 0} → Action A → Type 0
  Keeps m = (w : World) → part (m w).1 ≡ part w

  module _ {A B : Type 0} where
    Keeps-after :
        (k : A → Action B) (r : Result A × World) (x : X)
        → part r.1 ≡ x
        → ((a : A) → Keeps (k a))
        → part (after r k).1 ≡ x
    Keeps-after k (ok a, v) x h f = f a v ∙ h
    Keeps-after k (err e, v) x h f = h

    pub Keeps-bind :
        (m : Action A) (k : A → Action B) → Keeps m → ((a : A) → Keeps (k a)) → Keeps (m >>= k)
    Keeps-bind m k h f w = Keeps-after k (m w) (part w) (h w) f

-- A handler that only changes the exception.
pub reraised_ok :
    {A : Type 0} (m : Action A) (f : Exc → Exc) (w : World) {a : A} {v : World}
    → catch m (λ e. raise (f e)) w ≡ (ok a, v)
    → m w ≡ (ok a, v)
reraised_ok {A} m f w h = from_run (m w) h
  where
    from_run :
        (r : Result A × World) {a : A} {v : World}
        → catch (λ _. r) (λ e. raise (f e)) w ≡ (ok a, v)
        → r ≡ (ok a, v)
    from_run (ok b, u) k = k
    from_run (err e, u) k = cc
