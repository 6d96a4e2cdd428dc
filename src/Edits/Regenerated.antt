-- ===== src/Edits/Regenerated.antt =====
-- What a regeneration leaves of its category.
use meeting_mgr.Base.{
  ℕ, suc, ◌≡◌, refl, sym, ap, ◌∙◌, subst, ◌⊎◌, inl, inr, Bool, true, not, ◌&&◌, some, List, [], ◌∷◌,
  ◌++◌, arith, ◌==◌, filter,
}
use meeting_mgr.Base.Text.{Text}
use meeting_mgr.Models.{Account, Meeting, Artifact, category_target, no_detail}
use meeting_mgr.Db.State.{Db, World, Result, regenerate_task, broker_error, ok, err}
use meeting_mgr.Db.Action.{Action, pure, ◌>>=◌, ◌>>◌, or_raise, delay}
use meeting_mgr.Db.Session.{Session, settle, get_org_session, sees_meeting, tenant}
use meeting_mgr.Db.Rows.{record_audit}
use meeting_mgr.Db.Laws.{after, delay_outcome}
use meeting_mgr.Capture.{authorized_meeting}
use meeting_mgr.Edits.{
  unknown_type, delete_category, regenerate_artifact, ArtifactType, type_named, table, put_table,
}
use meeting_mgr.Edits.Fields.{written_table}

-- The rows that a session deletes for a Meeting.
abbrev pub of_category : Session → Db → ℕ → Artifact → Bool
of_category s db mid x = x.meeting_id == mid && sees_meeting s db x.meeting_id

module _ (mid : ℕ) (name : Text) (a : Account) (w : World) (m : Meeting)
    (model : ArtifactType) where
  -- The world after the transaction.
  abbrev emptied : World
  emptied = record w {
    db =
        record (put_table model
          (filter (λ x. not (of_category (tenant a.organization_id) w.db mid x)) (table model w.db))
          w.db) {
            audit_log =
                (put_table model
                  (filter (λ x. not (of_category (tenant a.organization_id) w.db mid x))
                    (table model w.db))
                  w.db).audit_log
                ++ record {
                  id = w.next_id;
                  organization_id = m.organization_id;
                  actor_account_id = some a.id;
                  action = "artifact.regenerate";
                  target = category_target mid name;
                  detail = no_detail;
                }
                  ∷ [];
          };
    next_id = suc w.next_id;
  }

  -- The transaction of `regenerate_artifact`.
  abbrev transaction : Action (Unit {0})
  transaction = get_org_session a.organization_id λ s. do
    meeting ← authorized_meeting a mid s true
    delete_category s model mid
    record_audit s meeting.organization_id (some a.id) "artifact.regenerate"
        (category_target mid name) no_detail

  allowed : m.organization_id ≡ a.organization_id → (m.organization_id == a.organization_id) ≡ true
  allowed same = ground (arith, same)

  -- The transaction, once the Meeting is authorized.
  abbrev empty_category : Meeting → Action (Unit {0})
  empty_category meeting = do
    delete_category (tenant a.organization_id) model mid
    record_audit (tenant a.organization_id) meeting.organization_id (some a.id)
        "artifact.regenerate" (category_target mid name) no_detail

  category_run :
      m.organization_id ≡ a.organization_id → settle w.db (empty_category m w) ≡ (ok tt, emptied)
  unfolding delete_category record_audit
  category_run same = rw (allowed same) refl

  transaction_run :
      authorized_meeting a mid (tenant a.organization_id) true w ≡ (ok m, w)
      → m.organization_id ≡ a.organization_id
      → transaction w ≡ (ok tt, emptied)
  transaction_run run same = ap (λ r. settle w.db (after r empty_category)) run ∙ category_run same

  abbrev enqueue : Action Text
  enqueue = do delay (regenerate_task mid name); pure name

  -- The rows that stay.
  abbrev pub rest : List Artifact
  rest = filter (λ x. not (of_category (tenant a.organization_id) w.db mid x)) (table model w.db)

  abbrev pub Emptied : Result Text × World → Type 0
  Emptied r =
      (table model r.1.db ≡ rest)
      × (((r.0 ≡ ok name) × (r.1.queue ≡ w.queue ++ regenerate_task mid name ∷ []))
          ⊎ ((r.0 ≡ err broker_error) × (r.1.queue ≡ w.queue)))

  rest_written : table model emptied.db ≡ rest
  rest_written = written_table model rest w.db emptied.db.audit_log

  enqueue_outcome : Emptied (enqueue emptied)
  enqueue_outcome = elim (delay_outcome (regenerate_task mid name) emptied) [
    | inl run ↦
        subst (λ r. Emptied (after r (λ _. pure name))) (sym run) (rest_written, inl (refl, refl))
    | inr run ↦
        subst (λ r. Emptied (after r (λ _. pure name))) (sym run) (rest_written, inr (refl, refl))
  ]

  -- A regeneration that the Meeting's Organization may ask for leaves no row of the category that
  -- the Meeting had, and every other row of the table; then its task is on the queue, or the broker
  -- has failed and the category stays empty.
  pub regeneration_starts_empty :
      type_named name ≡ some model
      → authorized_meeting a mid (tenant a.organization_id) true w ≡ (ok m, w)
      → m.organization_id ≡ a.organization_id
      → Emptied (regenerate_artifact mid name a w)
  unfolding regenerate_artifact
  regeneration_starts_empty known run same =
      subst Emptied
        (sym (
          ap
            (λ t.
              (or_raise t unknown_type >>= λ model.
              (get_org_session a.organization_id λ s. do
                meeting ← authorized_meeting a mid s true
                delete_category s model mid
                record_audit s meeting.organization_id (some a.id) "artifact.regenerate"
                    (category_target mid name) no_detail)
              >> enqueue)
                w)
            known
          ∙ ap (λ r. after r (λ _. enqueue)) (transaction_run run same)))
        enqueue_outcome
