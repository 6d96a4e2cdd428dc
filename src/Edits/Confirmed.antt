-- ===== src/Edits/Confirmed.antt =====
-- An edit leaves a confirmed row that cites what it cited; a regeneration starts from no row.
use meeting_mgr.Db.Laws.{after}
use meeting_mgr.Base.{
  ℕ, suc, ◌≡◌, refl, sym, ◌∙◌, subst, inl, inr, Bool, true, false, not, some, List, [], ◌∷◌, ◌++◌,
  if◌then◌else◌, Bool-cases, any, update_where,
}
use meeting_mgr.Base.Text.{Text}
use meeting_mgr.Models.{Account, Content, Artifact, AuditLogEntry, Target, confirmed, field_names}
use meeting_mgr.Db.State.{Db, World, Result, row_security_violation, ok, err}
use meeting_mgr.Db.Action.{Action, pure, ◌>>=◌, ◌>>◌, raise_if}
use meeting_mgr.Db.Session.{Session, sees_org}
use meeting_mgr.Db.Rows.{record_audit}
use meeting_mgr.Participants.{confirm}
use meeting_mgr.Participants.Frame.{Framed}
use meeting_mgr.Edits.{
  not_editable, is_item, Found, write_item, apply_edits, confirmed_with, edit_found, table,
  put_table, FieldEdit, sorted_names, editable,
}
use meeting_mgr.Edits.Fields.{apply_edits-IsFramed, written_table, put_table_only}

module _ (s : Session) (db : Db) (meeting_id item_id : ℕ) (content : Content) where
  -- What an edit leaves at the place of a row.
  abbrev pub Edited : Artifact → Artifact → Type 0
  Edited old new =
      (new.citations ≡ old.citations)
      × (new.meeting_id ≡ old.meeting_id)
      × (new.id ≡ old.id)
      × (is_item s db meeting_id item_id old ≡ true → new.provenance ≡ confirmed)
      × (is_item s db meeting_id item_id old ≡ false → new ≡ old)

  -- Row by row.
  abbrev pub EditedRows : List Artifact → List Artifact → Type 0
  EditedRows [] [] = Unit
  EditedRows (a ∷ xs) (b ∷ ys) = Edited a b × EditedRows xs ys
  EditedRows _ _ = ⊥

  edited_row :
      (a : Artifact)
      → Edited a (
          if is_item s db meeting_id item_id a then confirm (record a { content = content }) else a)
  edited_row a = elim (Bool-cases (is_item s db meeting_id item_id a)) [
    | inl e ↦ rw e (refl, refl, refl, λ _. refl, λ f. cc f)
    | inr e ↦ rw e (refl, refl, refl, λ f. cc f, λ _. refl)
  ]

  edited_rows :
      (rows : List Artifact)
      → EditedRows rows (
          update_where
            (is_item s db meeting_id item_id)
            (λ a. confirm (record a { content = content }))
            rows)
  edited_rows [] = tt
  edited_rows (a ∷ xs) = (edited_row a, edited_rows xs)

module _ (is_date : Text → Bool) where
  module _ (s : Session) (mid item_id : ℕ) (target : Target) (body : List FieldEdit)
      (account : Account) (found : Found) where
    -- The database of `w'` is that of `v` but for the table and one entry of the audit log.
    abbrev pub Wrote : World → World → Type 0
    Wrote v w' =
        (entry : AuditLogEntry) × (entry.target ≡ target)
        × (entry.actor_account_id ≡ some account.id)
        × (entry.detail ≡ field_names (sorted_names body))
        × (w'.db ≡ record (put_table found.model (table found.model w'.db) v.db) {
          audit_log = v.db.audit_log ++ entry ∷ [];
        })

    -- The end of an edit, once the fields are set.
    abbrev finish : Content → Action Artifact
    finish content = do
      write_item s found.model mid item_id (confirmed_with is_date content)
      record_audit s found.organization_id (some account.id) "artifact.edit" target
          (field_names (sorted_names body))
      pure (confirmed_with is_date content found.row)

    -- The end of an edit, by whether the session may write the audit entry.
    ended_if : Bool → Content → World → Result Artifact × World
    ended_if visible content v =
        after
          (after
            (raise_if (not visible) row_security_violation (record v {
              db =
                  put_table found.model
                    (update_where (is_item s v.db mid item_id) (confirmed_with is_date content)
                      (table found.model v.db))
                    v.db;
              next_id = suc v.next_id;
            }))
            (λ _ u. (
              ok tt,
              record u {
                db = record u.db {
                  audit_log =
                      u.db.audit_log
                      ++ record {
                        id = v.next_id;
                        organization_id = found.organization_id;
                        actor_account_id = some account.id;
                        action = "artifact.edit";
                        target = target;
                        detail = field_names (sorted_names body);
                      }
                        ∷ [];
                };
              },
            )))
          (λ _. pure (confirmed_with is_date content found.row))

    finish_as_if :
        (content : Content) (v : World)
        → finish content v ≡ ended_if (sees_org s found.organization_id) content v
    unfolding write_item record_audit ended_if
    finish_as_if content v = refl

    ended :
        (visible : Bool) (content : Content) (v w' : World) (row : Artifact)
        → ended_if visible content v ≡ (ok row, w')
        → (row ≡ confirmed_with is_date content found.row)
          × EditedRows s v.db mid item_id content (table found.model v.db) (table found.model w'.db)
          × Wrote v w'
    unfolding ended_if
    ended false content v w' row h = cc h
    ended true content v w' row h = (
      cc h,
      subst
          (λ (r : Result Artifact × World).
            EditedRows s v.db mid item_id content (table found.model v.db)
              (table found.model r.1.db))
          h
          (subst (EditedRows s v.db mid item_id content (table found.model v.db))
            (sym (written_table found.model _ v.db _))
            (edited_rows s v.db mid item_id content (table found.model v.db))),
      subst (λ (r : Result Artifact × World). Wrote v r.1) h
          (_, refl, refl, refl, put_table_only found.model _ v.db _),
    )

    -- What the fields come to, and the end.
    from_fields :
        (w : World) (r : Result Content × World) (w' : World) (row : Artifact)
        → Framed w r.1
        → after r finish ≡ (ok row, w')
        → (content : Content) × (v : World) × Framed w v
          × (row ≡ confirmed_with is_date content found.row)
          × EditedRows s v.db mid item_id content (table found.model v.db) (table found.model w'.db)
          × Wrote v w'
    from_fields w (ok content, v) w' row framed h =
        let (same, rows, wrote) =
          ended (sees_org s found.organization_id) content v w' row
            (sym (finish_as_if content v) ∙ h) in
        (content, v, framed, same, rows, wrote)
    from_fields w (err e, v) w' row framed h = cc h

    unless_refused :
        (refused : Bool) (w w' : World) (row : Artifact)
        → after
            (raise_if refused not_editable w)
            (λ _. apply_edits is_date s found.organization_id body found.row.content >>= finish)
          ≡ (ok row, w')
        → (refused ≡ false)
          × ((content : Content) × (v : World) × Framed w v
              × (row ≡ confirmed_with is_date content found.row)
              × EditedRows s v.db mid item_id content
                  (table found.model v.db)
                  (table found.model w'.db)
              × Wrote v w')
    unless_refused true w w' row h = cc h
    unless_refused false w w' row h = (
      refl,
      from_fields w (apply_edits is_date s found.organization_id body found.row.content w) w' row
          (apply_edits-IsFramed is_date s found.organization_id body found.row.content w) h,
    )

    -- An edit that returns has refused no field; in the table the item's row is confirmed and keeps
    -- its citations, its Meeting and its id, every other row is as it was, and the database is the
    -- one before but for participants, that table and one entry of the audit log, by the account,
    -- on the target and with the names of the fields.
    pub edit_confirms :
        (w w' : World) (row : Artifact)
        → edit_found is_date s mid item_id target body account found w ≡ (ok row, w')
        → (any (λ e. not (editable found.model e)) body ≡ false)
          × ((content : Content) × (v : World) × Framed w v
              × (row ≡ confirmed_with is_date content found.row)
              × EditedRows s v.db mid item_id content
                  (table found.model v.db)
                  (table found.model w'.db)
              × Wrote v w')
    unfolding edit_found
    edit_confirms w w' row h =
        unless_refused (any (λ e. not (editable found.model e)) body) w w' row h
