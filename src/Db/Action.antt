-- ===== src/Db/Action.antt =====
-- Python code that mutates the world and may raise: what was written before a raise stays written,
-- unless a session's rollback undoes it.
use meeting_mgr.Base.{
  ℕ, suc, Bool, true, false, List, [], ◌∷◌, ◌++◌, Option, none, some, if◌then◌else◌,
}
use meeting_mgr.Db.State.{
  Db, World, Exc, Result, ok, err, broker_error, no_result_found, multiple_results_found, Task,
}

abbrev pub Action : Type 0 → Type 0
Action A = World → Result A × World

module _ {A : Type 0} where
  abbrev pub pure : A → Action A
  pure a w = (ok a, w)

  abbrev pub raise : Exc → Action A
  raise e w = (err e, w)

  abbrev pub gets : (World → A) → Action A
  gets f w = (ok (f w), w)

infixl 5 ◌>>=◌ ◌>>◌
abbrev pub ◌>>=◌ : {A B : Type 0} → Action A → (A → Action B) → Action B
◌>>=◌ m f w = let (r, w') = m w in elim r [ ok a ↦ f a w' | err e ↦ (err e, w') ]

abbrev pub ◌>>◌ : {A B : Type 0} → Action A → Action B → Action B
m >> k = m >>= λ _. k

abbrev pub raise_if : Bool → Exc → Action (Unit {0})
raise_if c e w = (if c then err e else ok tt, w)

abbrev pub when : Bool → Action (Unit {0}) → Action (Unit {0})
when true m = m
when false m = pure tt

abbrev pub gets_db : {A : Type 0} → (Db → A) → Action A
gets_db f w = (ok (f w.db), w)

abbrev pub modify_db : (Db → Db) → Action (Unit {0})
modify_db f w = (ok tt, record w { db = f w.db })

-- The next value of a sequence.
abbrev pub new_id : Action ℕ
new_id w = (ok w.next_id, record w { next_id = suc w.next_id })

-- `.one_or_none()`
abbrev pub one_or_none : {A : Type 0} → List A → Action (Option A)
one_or_none [] = pure none
one_or_none (x ∷ []) = pure (some x)
one_or_none (x ∷ y ∷ r) = raise multiple_results_found

-- `.one()`
abbrev pub one : {A : Type 0} → List A → Action A
one [] = raise no_result_found
one (x ∷ []) = pure x
one (x ∷ y ∷ r) = raise multiple_results_found

-- A value that the code uses without a test for `None`.
abbrev pub or_raise : {A : Type 0} → Option A → Exc → Action A
or_raise none e = raise e
or_raise (some a) e = pure a

-- `try: m except Exception: handler`
abbrev pub catch : {A : Type 0} → Action A → (Exc → Action A) → Action A
catch m handler w = let (r, w') = m w in elim r [ ok a ↦ (ok a, w') | err e ↦ handler e w' ]

-- `for x in xs: body(x)`
unfoldable pub for_each : {A : Type 0} → List A → (A → Action (Unit {0})) → Action (Unit {0})
for_each [] body = pure tt
for_each (x ∷ xs) body = body x >> for_each xs body

-- The outcome of one call of a service, and what is left of the environment's choices.
abbrev pub next_fault : List Bool → Bool × List Bool
next_fault [] = (false, [])
next_fault (b ∷ rest) = (b, rest)

unfoldable pub service_call : Exc → Action (Unit {0})
service_call e w =
    let (failed, rest) = next_fault w.faults in
    (if failed then err e else ok tt, record w { faults = rest })

-- `task.delay(...)`
unfoldable pub delay : Task → Action (Unit {0})
unfolding service_call
delay t = do service_call broker_error; λ w. (ok tt, record w { queue = w.queue ++ t ∷ [] })
