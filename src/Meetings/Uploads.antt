-- ===== src/Meetings/Uploads.antt =====
-- An upload of a Meeting makes its rows, or nothing.
use meeting_mgr.Base.{
  ℕ, suc, ◌≡◌, refl, sym, ap, ap₂, ◌∙◌, subst, ◌⊎◌, inl, inr, not, some, List, [], ◌∷◌, ◌++◌,
  Bool-cases, any,
}
use meeting_mgr.Base.Text.{Text}
use meeting_mgr.Models.{Account, Meeting, Recording, pending}
use meeting_mgr.Db.State.{
  Db, World, Exc, Result, blob, run_pipeline_task, client_error, broker_error, ok, err,
}
use meeting_mgr.Db.Action.{Action, pure, ◌>>=◌, ◌>>◌, service_call, delay}
use meeting_mgr.Db.Session.{settle, tenant}
use meeting_mgr.Db.Rows.{add_recording}
use meeting_mgr.Db.Laws.{settle_err, settle_ok, delay_outcome, after, ok_eq, settle_queue}
use meeting_mgr.Storage.{lookup, ensure_bucket, put_stream}
use meeting_mgr.Meetings.{upload_key, can_create, create_rows, create_meeting}
use meeting_mgr.Capture.{new_meeting, Reply}
use meeting_mgr.Authz.{role_eq, role_refused, require_role}
use meeting_mgr.Db.Frames.{Aside, bind_ok, IsAside-service_call, Keeps-bind}
use meeting_mgr.Db.Inserts.{
  with_meeting, add_meeting-own, raw_recording, with_recording, add_recording_ok,
  same_queue-add_recording,
}
use meeting_mgr.Storage.Calls.{IsAside-put_stream, put_stream_ok}

module _ (title filename : Text) (bytes : List ℕ) (account : Account) where
  abbrev org : ℕ
  org = account.organization_id

  abbrev pub uploaded_meeting : World → Meeting
  uploaded_meeting w = new_meeting w.next_id org account.id title pending w.now

  abbrev pub uploaded_recording : World → Recording
  uploaded_recording w = raw_recording (suc w.next_id) w.next_id (upload_key w.next_id filename)

  abbrev pub with_upload : World → Db
  with_upload w = record w.db {
    meetings = w.db.meetings ++ uploaded_meeting w ∷ [];
    recordings = w.db.recordings ++ uploaded_recording w ∷ [];
  }

  -- The session after the Meeting is there.
  abbrev rest_of_rows : ℕ → Action ℕ
  rest_of_rows mid = do
    put_stream (upload_key mid filename) bytes
    add_recording (tenant org) mid (upload_key mid filename)
    pure mid

  abbrev begun : World → World
  begun w = with_meeting (uploaded_meeting w) (record w { next_id = suc w.next_id })

  create_rows_begins :
      (w : World)
      → create_rows title filename bytes account w ≡ settle w.db (rest_of_rows w.next_id (begun w))
  unfolding create_rows
  create_rows_begins w =
      ap (λ r. settle w.db (after r (λ _. rest_of_rows w.next_id)))
        (add_meeting-own (uploaded_meeting w) (record w { next_id = suc w.next_id }))

  -- What a session that returns has left.
  abbrev Stored : World → World → Type 0
  Stored w v =
      (v.db ≡ with_upload w)
      × (v.queue ≡ w.queue)
      × (lookup (upload_key w.next_id filename) v.objects ≡ some (blob bytes))

  create_rows_ok :
      (w v : World) (id : ℕ)
      → create_rows title filename bytes account w ≡ (ok id, v)
      → (id ≡ w.next_id) × Stored w v
  create_rows_ok w v id h =
      let mid = w.next_id in
      let key = upload_key mid filename in
      let inner = settle_ok w.db (rest_of_rows mid (begun w)) (sym (create_rows_begins w) ∙ h) in
      let (_, x, e, h') =
        bind_ok (put_stream key bytes) (λ _. add_recording (tenant org) mid key >> pure mid)
          (begun w) inner in
      let (_, y, f, last) = bind_ok (add_recording (tenant org) mid key) (λ _. pure mid) x h' in
      let (same_id, end) = ok_eq refl last in
      let aside : Aside (begun w) x =
        subst (λ (r : Result (Unit {0}) × World). Aside (begun w) r.1) e
          (IsAside-put_stream key bytes (begun w)) in
      let recorded : v ≡ with_recording mid key x =
        sym end ∙ add_recording_ok (tenant org) mid key x f in
      (
        sym same_id,
        (
          ap (λ (z : World). z.db) recorded
              ∙ ap₂
                  (λ (d : Db) n. record d {
                    recordings = d.recordings ++ raw_recording n mid key ∷ [];
                  })
                  aside.db aside.next_id,
          ap (λ (z : World). z.queue) recorded ∙ aside.queue,
          ap (λ (z : World). lookup key z.objects) recorded ∙ put_stream_ok key bytes (begun w) e,
        ),
      )

  create_rows_queue : (w : World) → (create_rows title filename bytes account w).1.queue ≡ w.queue
  create_rows_queue w =
      let key = upload_key w.next_id filename in
      ap (λ (r : Result ℕ × World). r.1.queue) (create_rows_begins w)
      ∙ settle_queue w.db (rest_of_rows w.next_id (begun w))
      ∙ Keeps-bind (λ z. z.queue) (put_stream key bytes)
          (λ _. add_recording (tenant org) w.next_id key >> pure w.next_id)
          (λ z. (IsAside-put_stream key bytes z).queue)
          (λ _.
            Keeps-bind (λ z. z.queue) (add_recording (tenant org) w.next_id key)
              (λ _. pure w.next_id) (same_queue-add_recording (tenant org) w.next_id key)
              (λ _ z. refl))
          (begun w)

  -- Nothing, or the rows with the object, and then the task unless the broker has failed.
  abbrev pub IsCreated : World → Result Reply × World → Type 0
  IsCreated w r =
      ((e : Exc) × (r.0 ≡ err e) × (r.1.db ≡ w.db) × (r.1.queue ≡ w.queue))
      ⊎ ((r.1.db ≡ with_upload w)
          × (lookup (upload_key w.next_id filename) r.1.objects ≡ some (blob bytes))
          × (((r.0 ≡ ok (record { meeting_id = w.next_id; status = pending }))
                × (r.1.queue ≡ w.queue ++ run_pipeline_task w.next_id ∷ []))
              ⊎ ((r.0 ≡ err broker_error) × (r.1.queue ≡ w.queue))))

  abbrev reply_of : ℕ → Action Reply
  reply_of id = delay (run_pipeline_task id) >> pure (record { meeting_id = id; status = pending })

  Stored-IsCreated : (w v : World) → Stored w v → IsCreated w (reply_of w.next_id v)
  Stored-IsCreated w v (d, q, o) =
      let k : Result (Unit {0}) × World → Result Reply × World =
        λ r. after r (λ _. pure (record { meeting_id = w.next_id; status = pending })) in
      elim (delay_outcome (run_pipeline_task w.next_id) v) [
        | inl e ↦
            subst (λ r. IsCreated w (k r)) (sym e)
              (inr (d, o, inl (refl, ap (λ x. x ++ run_pipeline_task w.next_id ∷ []) q)))
        | inr e ↦ subst (λ r. IsCreated w (k r)) (sym e) (inr (d, o, inr (refl, q)))
      ]

  rows-IsCreated :
      (w : World) (r : Result ℕ × World)
      → create_rows title filename bytes account w ≡ r
      → IsCreated w (after r reply_of)
  rows-IsCreated w (ok id, v) h =
      let (same, stored) = create_rows_ok w v id h in
      subst (λ n. IsCreated w (reply_of n v)) (sym same) (Stored-IsCreated w v stored)
  rows-IsCreated w (err e, v) h =
      let (_, back) =
        settle_err w.db (rest_of_rows w.next_id (begun w)) (sym (create_rows_begins w) ∙ h) in
      inl (
        e,
        refl,
        ap (λ (z : World). z.db) back,
        sym (ap (λ (r : Result ℕ × World). r.1.queue) h) ∙ create_rows_queue w,
      )

  -- What a call before the session has left alone.
  IsCreated-Aside :
      (w v : World) (r : Result Reply × World) → Aside w v → IsCreated v r → IsCreated w r
  IsCreated-Aside w v r a c =
      let with_db = subst (λ d. IsCreated (record v { db = d }) r) a.db c in
      let with_queue =
        subst (λ q. IsCreated (record v { db = w.db; queue = q }) r) a.queue with_db in
      let with_ids =
        subst (λ n. IsCreated (record v { db = w.db; queue = w.queue; next_id = n }) r) a.next_id
          with_queue in
      subst
        (λ t. IsCreated (record v { db = w.db; queue = w.queue; next_id = w.next_id; now = t }) r)
        a.now with_ids

  ready :
      (w : World) (r : Result (Unit {0}) × World)
      → Aside w r.1
      → IsCreated w (after r (λ _. create_rows title filename bytes account >>= reply_of))
  ready w (ok _, v) a =
      IsCreated-Aside w v ((create_rows title filename bytes account >>= reply_of) v) a
        (rows-IsCreated v (create_rows title filename bytes account v) refl)
  ready w (err e, v) a = inl (e, refl, a.db, a.queue)

  -- An upload of a Meeting raises and has added no row and no task; or there is one new Meeting
  -- with its Recording, the file's bytes are under its raw key, and the reply names the Meeting
  -- with its task on the queue, or the broker's error is raised.
  pub create-IsCreated : (w : World) → IsCreated w (create_meeting title filename bytes account w)
  unfolding create_meeting ensure_bucket require_role
  create-IsCreated w = elim (Bool-cases (not (any (role_eq account.role) can_create))) [
    | inl e ↦ rw e (inl (role_refused, refl, refl, refl))
    | inr e ↦ rw e (ready w (service_call client_error w) (IsAside-service_call client_error w))
  ]
