-- ===== src/Pipeline/Orchestrate/Runs.antt =====
-- What a run is, from its rounds.
use meeting_mgr.Base.{
  ℕ, String, ◌≡◌, refl, ap, ◌∙◌, subst, ◌⊎◌, inl, inr, true, false, none, some, List, [], ◌∷◌, ◌++◌,
  ◌==◌, find,
}
use meeting_mgr.Models.{Meeting, published}
use meeting_mgr.Db.State.{Db, World, Exc, Result, ok, err}
use meeting_mgr.Db.Action.{Action}
use meeting_mgr.Db.Rows.{set_status, fail_at}
use meeting_mgr.Db.Laws.{after}
use meeting_mgr.Pipeline.Orchestrate.{
  Stage, is_optional, with_stage, publish, run_stage, run_stages,
}
use meeting_mgr.Pipeline.Orchestrate.Steps.{meeting_of, Sets-write, begin, begin-Sets, clears}
use meeting_mgr.Pipeline.Orchestrate.Rounds.{round_ok, round_fails_optional, round_fails_mandatory}

-- A mandatory stage that fails ends the run with the stage's exception, whatever stages come after
-- it, and the Meeting is "failed" at that stage with no current stage; provided that the stage left
-- the Meeting's row in place.
pub mandatory_failure_stops :
    (mid : ℕ) (name : String) (fn : ℕ → Action (Unit {0})) (w v u : World) (e : Exc) (m : Meeting)
    → is_optional name ≡ false
    → begin mid name w ≡ (ok tt, v)
    → fn mid v ≡ (err e, u)
    → meeting_of mid u ≡ some m
    → (w' : World) × ((rest : List Stage) → run_stages mid ((name, fn) ∷ rest) w ≡ (err e, w'))
      × (meeting_of mid w' ≡ some (with_stage none (fail_at name m)))
unfolding run_stages
mandatory_failure_stops mid name fn w v u e m mandatory begun run found =
    let (w', stopped, row) =
      round_fails_mandatory mid name fn w v begun e u m run found mandatory in
    (w', λ rest. ap (λ r. after r (λ _. run_stages mid rest)) stopped, row)

-- An optional stage that fails does not end the run: the later stages run from a world where the
-- Meeting is marked as failed at that stage; provided that the stage left the row in place.
pub optional_failure_continues :
    (mid : ℕ) (name : String) (fn : ℕ → Action (Unit {0})) (w v u : World) (e : Exc) (m : Meeting)
    → is_optional name ≡ true
    → begin mid name w ≡ (ok tt, v)
    → fn mid v ≡ (err e, u)
    → meeting_of mid u ≡ some m
    → (w' : World) × ((rest : List Stage)
        → run_stages mid ((name, fn) ∷ rest) w ≡ run_stages mid rest w')
      × (meeting_of mid w' ≡ some (fail_at name m))
unfolding run_stages
optional_failure_continues mid name fn w v u e m optional begun run found =
    let (w', passed, row) = round_fails_optional mid name fn w v begun e u m run found optional in
    (w', λ rest. ap (λ r. after r (λ _. run_stages mid rest)) passed, row)

-- What a stage came to: the Meeting's row is in place, and a stage that failed is optional.
abbrev pub IsServed : ℕ → String → Result (Unit {0}) × World → Type 0
IsServed mid name r =
    (m : Meeting) × (meeting_of mid r.1 ≡ some m)
    × ((r.0 ≡ ok tt) ⊎ ((is_optional name ≡ true) × (e : Exc) × (r.0 ≡ err e)))

-- Each stage of a run, in the world where its turn comes.
abbrev pub IsServedRun : ℕ → List Stage → World → Type 0
IsServedRun mid [] w = Unit
IsServedRun mid ((name, fn) ∷ stages) w =
    IsServed mid name (fn mid (begin mid name w).1)
    × IsServedRun mid stages (run_stage mid (name, fn) w).1

-- One round of a stage that serves returns, and the row is there.
round-IsServed :
    (mid : ℕ) (name : String) (fn : ℕ → Action (Unit {0})) (w : World) (m : Meeting)
    → meeting_of mid w ≡ some m
    → IsServed mid name (fn mid (begin mid name w).1)
    → (w' : World) × (m' : Meeting) × (run_stage mid (name, fn) w ≡ (ok tt, w'))
      × (meeting_of mid w' ≡ some m')
round-IsServed mid name fn w m found served =
    let (v, begun, row) = begin-Sets mid name w m found in
    let (m', row', outcome) =
      subst (λ (r : Result (Unit {0}) × World). IsServed mid name (fn mid r.1)) begun served in
    let u = (fn mid v).1 in
    elim outcome [
      | inl run ↦
          let (u', round, same) = round_ok mid name fn w v begun u (ap (λ a. (a, u)) run) in
          (u', m', round, ap (λ (d : Db). find (λ m. m.id == mid) d.meetings) same ∙ row')
      | inr (optional, e, run) ↦
          let (u', round, row'') =
            round_fails_optional mid name fn w v begun e u m' (ap (λ a. (a, u)) run) row'
              optional in
          (u', fail_at name m', round, row'')
    ]

publish_last :
    (mid : ℕ) (w : World) (m : Meeting)
    → meeting_of mid w ≡ some m
    → (w' : World) × (m' : Meeting) × (run_stages mid (("publish", publish) ∷ []) w ≡ (ok tt, w'))
      × (meeting_of mid w' ≡ some m')
      × (m'.status ≡ published)
      × (m'.current_stage ≡ none)
unfolding run_stages publish
publish_last mid w m found =
    let (v, begun, row) = begin-Sets mid "publish" w m found in
    let (u, run, row') =
      Sets-write mid (set_status published) v (with_stage (some "publish") m) (λ m. refl) row in
    let (u', round, same) = round_ok mid "publish" publish w v begun u run in
    let m' = set_status published (with_stage (some "publish") m) in
    let (w', cleared, row'') =
      clears mid u' m' (ap (λ (d : Db). find (λ m. m.id == mid) d.meetings) same ∙ row') in
    (
      w',
      with_stage none m',
      ap (λ r. after r (λ _. run_stages mid [])) round ∙ cleared,
      row'',
      refl,
      refl,
    )

-- If the Meeting has a row, and in the run at hand each stage before "publish", called in the world
-- where its turn comes, leaves the row in place and returns, or fails and is optional, then the run
-- of these stages and "publish" returns and the Meeting is "published" with no current stage.
pub served_run_publishes :
    (mid : ℕ) (stages : List Stage) (w : World) (m : Meeting)
    → meeting_of mid w ≡ some m
    → IsServedRun mid stages w
    → (w' : World) × (m' : Meeting) × (run_stages mid (stages ++ ("publish", publish) ∷ []) w
        ≡ (ok tt, w'))
      × (meeting_of mid w' ≡ some m')
      × (m'.status ≡ published)
      × (m'.current_stage ≡ none)
unfolding run_stages
served_run_publishes mid [] w m found served = publish_last mid w m found
served_run_publishes mid ((name, fn) ∷ stages) w m found served =
    let (v, m', round, row) = round-IsServed mid name fn w m found served.0 in
    let later =
      subst (λ (r : Result (Unit {0}) × World). IsServedRun mid stages r.1) round served.1 in
    let (w', m'', run, row', public, over) = served_run_publishes mid stages v m' row later in
    (
      w',
      m'',
      ap (λ r. after r (λ _. run_stages mid (stages ++ ("publish", publish) ∷ []))) round ∙ run,
      row',
      public,
      over,
    )
