-- ===== src/Pipeline/Orchestrate/Rounds.antt =====
-- One round of the loop, on each outcome of its stage.
use meeting_mgr.Db.Laws.{after}
use meeting_mgr.Base.{ℕ, String, ◌≡◌, ap, ◌∙◌, Bool, true, false, not, none, some, if◌then◌else◌}
use meeting_mgr.Models.{Meeting}
use meeting_mgr.Db.State.{World, Exc, Result, started, finished, stage_failed, ok, err}
use meeting_mgr.Db.Action.{Action, pure, raise, ◌>>=◌, ◌>>◌, when, catch}
use meeting_mgr.Db.Rows.{fail_at}
use meeting_mgr.Pipeline.Orchestrate.{
  is_optional, publish_progress, with_stage, set_current_stage, set_stage_failure, on_failure,
  run_stage,
}
use meeting_mgr.Pipeline.Orchestrate.Steps.{
  meeting_of, publish_outcome, begin, record_failure, failure-Sets, clears,
}

through_after :
    {B : Type 0} (b : Action (Unit {0})) (k : Action B) (r : Result (Unit {0}) × World) (v : World)
    → after r (λ _. b) ≡ (ok tt, v)
    → after r (λ _. b >> k) ≡ k v
through_after b k (ok x, u) v h = ap (λ r. after r (λ _. k)) h
through_after b k (err e, u) v h = cc

through :
    {B : Type 0} (a b : Action (Unit {0})) (k : Action B) (w v : World)
    → (a >> b) w ≡ (ok tt, v)
    → (a >> (b >> k)) w ≡ k v
through a b k w v h = through_after b k (a w) v h

module _ (mid : ℕ) (name : String) (fn : ℕ → Action (Unit {0})) (w v : World)
    (begun : begin mid name w ≡ (ok tt, v)) where
  -- The stage, its handler, and the message at its end.
  abbrev middle : Action (Unit {0})
  middle = do
    went_wrong ← catch (do fn mid; pure false) (on_failure mid name)
    when (not went_wrong) (publish_progress mid name finished)

  round_as_middle : run_stage mid (name, fn) w ≡ middle v
  unfolding run_stage
  round_as_middle =
      through (set_current_stage mid (some name)) (publish_progress mid name started) middle w v
        begun

  abbrev ended : Result (Unit {0}) × World → Result (Unit {0}) × World
  ended r =
      after (catch (λ _. after r (λ _. pure false)) (on_failure mid name) v)
        (λ went_wrong. when (not went_wrong) (publish_progress mid name finished))

  -- A stage that returns: its work is kept, and nothing but a message follows.
  pub round_ok :
      (u : World)
      → fn mid v ≡ (ok tt, u)
      → (u' : World) × (run_stage mid (name, fn) w ≡ (ok tt, u')) × (u'.db ≡ u.db)
  round_ok u run =
      let (u', told, same) = publish_outcome mid name finished u in
      (u', round_as_middle ∙ (ap ended run ∙ told), same)

  -- What the handler does once the failure is recorded.
  abbrev decided : Exc → Bool → Action Bool
  decided e optional = if optional then pure true else (do set_current_stage mid none; raise e)

  module _ (e : Exc) (u : World) (m : Meeting) (run : fn mid v ≡ (err e, u))
      (found : meeting_of mid u ≡ some m) where
    abbrev closed : Result Bool × World → Result (Unit {0}) × World
    closed r = after r (λ went_wrong. when (not went_wrong) (publish_progress mid name finished))

    round_as_decided :
        (u' : World) (optional : Bool)
        → record_failure mid name u ≡ (ok tt, u')
        → is_optional name ≡ optional
        → run_stage mid (name, fn) w ≡ closed (decided e optional u')
    unfolding on_failure
    round_as_decided u' optional recorded is =
        round_as_middle
        ∙ (ap ended run
            ∙ (ap closed (
                  through (set_stage_failure mid name) (publish_progress mid name stage_failed)
                    (decided e (is_optional name)) u u' recorded)
                ∙ ap (λ b. closed (decided e b u')) is))

    -- An optional stage that fails.
    pub round_fails_optional :
        is_optional name ≡ true
        → (u' : World) × (run_stage mid (name, fn) w ≡ (ok tt, u'))
          × (meeting_of mid u' ≡ some (fail_at name m))
    round_fails_optional optional =
        let (u', recorded, row) = failure-Sets mid name u m found in
        (u', round_as_decided u' true recorded optional, row)

    -- A mandatory stage that fails.
    pub round_fails_mandatory :
        is_optional name ≡ false
        → (u' : World) × (run_stage mid (name, fn) w ≡ (err e, u'))
          × (meeting_of mid u' ≡ some (with_stage none (fail_at name m)))
    round_fails_mandatory mandatory =
        let (u', recorded, row) = failure-Sets mid name u m found in
        let (u'', cleared, row') = clears mid u' (fail_at name m) row in
        (
          u'',
          round_as_decided u' false recorded mandatory
              ∙ ap (λ r. closed (after r (λ _. raise e))) cleared,
          row',
        )
