-- ===== src/Capture/Quiet.antt =====
-- The steps of browser capture that change no row: uploads, listings and replies.
use meeting_mgr.Base.{
  ℕ, refl, sym, ◌∙◌, subst, inl, inr, Bool, true, not, Option, none, some, List, [], ◌∷◌, ◌++◌, map,
  arith, filter,
}
use meeting_mgr.Base.Text.{Text, starts_with}
use meeting_mgr.Base.Decimal.{ℤ}
use meeting_mgr.Models.{Account, Meeting, pending, capturing}
use meeting_mgr.Db.State.{
  Task, World, Exc, Result, blob, run_pipeline_task, client_error, broker_error, value_error, ok,
  err,
}
use meeting_mgr.Db.Action.{Action, pure, gets, ◌>>=◌, ◌>>◌, raise_if, or_raise, service_call, delay}
use meeting_mgr.Db.Session.{
  Session, settle, get_org_session, get_readonly_org_session, get_meeting, tenant,
}
use meeting_mgr.Db.Laws.{after}
use meeting_mgr.Storage.{without, ensure_bucket, put_object, put_stream, list_keys}
use meeting_mgr.ChunkStorage.{
  chunk_prefix, chunk_key, chunk_seq, with_seqs, sort_by_seq, sorted_keys,
}
use meeting_mgr.Capture.{
  subdir, suffix, status_eq, authorized_meeting, not_accepting, upload_chunk, no_chunks, flip_read,
  snapshot, Outcome, lost_reply, finish_reply, done, empty, duplicate,
}
use meeting_mgr.Capture.Outcomes.{authorized_meeting_outcome, flip_read_outcome}
use meeting_mgr.Capture.Marking.{Quiet}

abbrev pub IsQuiet : {A : Type 0} → Action A → Type 0
IsQuiet m = (w : World) → Quiet w (m w).1

quiet_same : (w : World) → Quiet w w
quiet_same w = record { db = refl; ids = omega arith }

module _ {A B : Type 0} where
  quiet_after :
      (w : World) (f : A → Action B) (r : Result A × World)
      → Quiet w r.1
      → ((a : A) → IsQuiet (f a))
      → Quiet w (after r f).1
  quiet_after w f (ok a, v) q h = record {
    db = (h a v).db ∙ q.db;
    ids = omega (arith, (h a v).ids, q.ids);
  }
  quiet_after w f (err e, v) q h = q

  IsQuiet-bind :
      (m : Action A) (f : A → Action B) → IsQuiet m → ((a : A) → IsQuiet (f a)) → IsQuiet (m >>= f)
  IsQuiet-bind m f q h w = quiet_after w f (m w) (q w) h

module _ {A : Type 0} where
  settled : (w : World) (r : Result A × World) → Quiet w r.1 → Quiet w (settle w.db r).1
  settled w (ok a, v) q = q
  settled w (err e, v) q = record { db = refl; ids = q.ids }

  IsQuiet-session :
      (o : ℕ) (body : Session → Action A)
      → ((s : Session) → IsQuiet (body s))
      → IsQuiet (get_org_session o body)
  IsQuiet-session o body h w = settled w (body (tenant o) w) (h (tenant o) w)

IsQuiet-raise_if : (c : Bool) (e : Exc) → IsQuiet (raise_if c e)
IsQuiet-raise_if c e w = quiet_same w

IsQuiet-or_raise : {A : Type 0} (o : Option A) (e : Exc) → IsQuiet (or_raise o e)
IsQuiet-or_raise none e = quiet_same
IsQuiet-or_raise (some a) e = quiet_same

IsQuiet-authorized :
    (a : Account) (mid : ℕ) (s : Session) (write : Bool)
    → IsQuiet (authorized_meeting a mid s write)
IsQuiet-authorized a mid s write w = elim (authorized_meeting_outcome a mid s write w) [
  | inl (m, h, run) ↦ subst (λ r. Quiet w r.1) (sym run) (quiet_same w)
  | inr (e, run) ↦ subst (λ r. Quiet w r.1) (sym run) (quiet_same w)
]

IsQuiet-service : (e : Exc) → IsQuiet (service_call e)
unfolding service_call
IsQuiet-service e w = record { db = refl; ids = omega arith }

IsQuiet-put : (key : Text) (bytes : List ℕ) → IsQuiet (put_stream key bytes)
unfolding put_stream put_object
IsQuiet-put key bytes =
    IsQuiet-bind (service_call client_error)
      (λ _ w. (ok tt, record w { objects = (key, blob bytes) ∷ without key w.objects }))
      (IsQuiet-service client_error) (λ _ v. record { db = refl; ids = omega arith })

abbrev accepts : Session → ℕ → Account → Action (Unit {0})
accepts s mid a = do
  m ← authorized_meeting a mid s true
  raise_if (not (status_eq m.status capturing)) not_accepting

pub IsQuiet-upload :
    (mid : ℕ) (seq : ℤ) (chunk : List ℕ) (a : Account) → IsQuiet (upload_chunk mid seq chunk a)
unfolding upload_chunk ensure_bucket
IsQuiet-upload mid seq chunk a =
    IsQuiet-bind (get_org_session a.organization_id λ s. accepts s mid a)
      (λ _. ensure_bucket >> (put_stream (chunk_key mid seq subdir suffix) chunk >> pure seq))
      (IsQuiet-session a.organization_id (λ s. accepts s mid a)
        (λ s.
          IsQuiet-bind (authorized_meeting a mid s true)
            (λ m. raise_if (not (status_eq m.status capturing)) not_accepting)
            (IsQuiet-authorized a mid s true)
            (λ m. IsQuiet-raise_if (not (status_eq m.status capturing)) not_accepting)))
      (λ _.
        IsQuiet-bind ensure_bucket
          (λ _. put_stream (chunk_key mid seq subdir suffix) chunk >> pure seq)
          (IsQuiet-service client_error)
          (λ _.
            IsQuiet-bind (put_stream (chunk_key mid seq subdir suffix) chunk) (λ _. pure seq)
              (IsQuiet-put (chunk_key mid seq subdir suffix) chunk) (λ _. quiet_same)))

pub IsQuiet-flip_read : (mid : ℕ) (a : Account) → IsQuiet (flip_read mid a)
IsQuiet-flip_read mid a w = elim (flip_read_outcome mid a w) [
  | inl (m, h, e, run) ↦ subst (λ r. Quiet w r.1) (sym run) (quiet_same w)
  | inr (e, run) ↦ subst (λ r. Quiet w r.1) (sym run) (quiet_same w)
]

IsQuiet-with_seqs : (prefix ext : Text) (keys : List Text) → IsQuiet (with_seqs prefix ext keys)
unfolding with_seqs
IsQuiet-with_seqs prefix ext [] = quiet_same
IsQuiet-with_seqs prefix ext (k ∷ ks) =
    IsQuiet-bind (or_raise (chunk_seq prefix ext k) value_error)
      (λ seq. with_seqs prefix ext ks >>= λ rest. pure ((seq, k) ∷ rest))
      (IsQuiet-or_raise (chunk_seq prefix ext k) value_error)
      (λ seq.
        IsQuiet-bind (with_seqs prefix ext ks) (λ rest. pure ((seq, k) ∷ rest))
          (IsQuiet-with_seqs prefix ext ks) (λ rest. quiet_same))

IsQuiet-list : (prefix : Text) → IsQuiet (list_keys prefix)
unfolding list_keys
IsQuiet-list prefix =
    IsQuiet-bind (service_call client_error)
      (λ _. gets (λ w. filter (starts_with prefix) (map (λ o. o.0) w.objects)))
      (IsQuiet-service client_error) (λ _. quiet_same)

pub IsQuiet-snapshot : (mid : ℕ) → IsQuiet (snapshot mid)
unfolding snapshot sorted_keys
IsQuiet-snapshot mid =
    IsQuiet-bind (list_keys (chunk_prefix mid subdir))
      (sorted_keys (chunk_prefix mid subdir) suffix) (IsQuiet-list (chunk_prefix mid subdir))
      (λ keys.
        IsQuiet-bind (with_seqs (chunk_prefix mid subdir) suffix keys)
          (λ pairs. pure (map (λ p. p.1) (sort_by_seq pairs)))
          (IsQuiet-with_seqs (chunk_prefix mid subdir) suffix keys) (λ pairs. quiet_same))

IsQuiet-delay : (t : Task) → IsQuiet (delay t)
unfolding delay
IsQuiet-delay t =
    IsQuiet-bind (service_call broker_error)
      (λ _ w. (ok tt, record w { queue = w.queue ++ t ∷ [] })) (IsQuiet-service broker_error)
      (λ _ v. record { db = refl; ids = omega arith })

IsQuiet-lost : (mid : ℕ) (found : Option Meeting) → IsQuiet (lost_reply mid found)
IsQuiet-lost mid none = quiet_same
IsQuiet-lost mid (some m) =
    IsQuiet-bind (raise_if (status_eq m.status capturing) no_chunks)
      (λ _. pure (mid, some m.status)) (IsQuiet-raise_if (status_eq m.status capturing) no_chunks)
      (λ _. quiet_same)

pub IsQuiet-reply :
    (mid : ℕ) (a : Account) (outcome : Outcome) → IsQuiet (finish_reply mid a outcome)
unfolding finish_reply
IsQuiet-reply mid a duplicate =
    IsQuiet-bind (get_readonly_org_session a.organization_id λ s. get_meeting s mid)
      (lost_reply mid) quiet_same (IsQuiet-lost mid)
IsQuiet-reply mid a empty = quiet_same
IsQuiet-reply mid a done =
    IsQuiet-bind (delay (run_pipeline_task mid)) (λ _. pure (mid, some pending))
      (IsQuiet-delay (run_pipeline_task mid)) (λ _. quiet_same)
