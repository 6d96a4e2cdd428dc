-- ===== src/Bot/Ownership.antt =====
-- A credential reaches its own sessions only.
use meeting_mgr.Db.Laws.{after}
use meeting_mgr.Capture.{status_eq}
use meeting_mgr.Base.{
  ℕ, ◌≡◌, refl, ap, Bool, false, not, ◌&&◌, List, [], ◌∷◌, arith, ◌==◌, filter, any,
}
use meeting_mgr.Base.Decimal.{ℤ}
use meeting_mgr.Models.{BotCredential, BotSession, pending, capturing, finishing}
use meeting_mgr.Db.State.{World, Result, run_pipeline_task, err}
use meeting_mgr.Db.Action.{Action, pure, ◌>>=◌, ◌>>◌, raise_if, when, one_or_none, or_raise, delay}
use meeting_mgr.Db.Session.{Session, get_org_session, get_readonly_org_session, tenant}
use meeting_mgr.Db.Rows.{update_meeting, set_status}
use meeting_mgr.Storage.{ensure_bucket, put_stream, list_keys}
use meeting_mgr.ChunkStorage.{chunk_prefix, chunk_key, sorted_seqs}
use meeting_mgr.Bot.{
  subdir, suffix, session_meeting, no_session, owned_session, not_accepting, touch, upload_chunk,
  list_chunks,
}
use meeting_mgr.Bot.Finish.{not_capturing, finish_flip, snapshot, finish_commit, finish_session}

-- The sessions that a request for an id may mean.
abbrev pub is_owned : ℕ → BotCredential → BotSession → Bool
is_owned session_id credential b =
    b.id == session_id
    && b.bot_credential_id == credential.id
    && b.organization_id == credential.organization_id

none_owned :
    (session_id : ℕ) (credential : BotCredential) (bs : List BotSession)
    → any (is_owned session_id credential) bs ≡ false
    → filter
        (is_owned session_id credential)
        (filter (λ b. b.organization_id == credential.organization_id) bs)
      ≡ []
none_owned session_id credential [] h = refl
none_owned session_id credential (b ∷ bs) h = ground (arith, h, none_owned session_id credential bs)

module _ (session_id : ℕ) (credential : BotCredential) (w : World)
    (not_owned : any (is_owned session_id credential) w.db.bot_sessions ≡ false) where
  lookup_fails :
      owned_session (tenant credential.organization_id) session_id credential w
      ≡ (err no_session, w)
  unfolding owned_session
  lookup_fails =
      ap (λ rows. (one_or_none rows >>= λ found. or_raise found no_session) w)
        (none_owned session_id credential w.db.bot_sessions not_owned)

  -- A handler whose first step is the lookup ends there.
  ends_in_session :
      {A B : Type 0} (rest : Session → BotSession → Action A) (next : A → Action B)
      → (get_org_session credential.organization_id
              (λ s. owned_session s session_id credential >>= rest s)
            >>= next)
          w
        ≡ (err no_session, w)
  ends_in_session rest next =
      ap
        (λ (r : Result BotSession × World).
          after (get_org_session credential.organization_id (λ s _. after r (rest s)) w) next)
        lookup_fails

  ends_in_readonly_session :
      {A B : Type 0} (rest : BotSession → Action A) (next : A → Action B)
      → (get_readonly_org_session credential.organization_id
              (λ s. owned_session s session_id credential >>= rest)
            >>= next)
          w
        ≡ (err no_session, w)
  ends_in_readonly_session rest next =
      ap
        (λ (r : Result BotSession × World).
          after (get_readonly_org_session credential.organization_id (λ s _. after r rest) w) next)
        lookup_fails

  -- Where no bot session with the id is the credential's, an upload, a listing and a finish all get
  -- the 404 of an id that does not exist, whosever session it is, and change nothing.
  pub other_sessions_are_hidden :
      (seq : ℤ) (chunk : List ℕ)
      → (upload_chunk session_id seq chunk credential w ≡ (err no_session, w))
        × (list_chunks session_id credential w ≡ (err no_session, w))
        × (finish_session session_id credential w ≡ (err no_session, w))
  unfolding upload_chunk list_chunks finish_session finish_flip
  other_sessions_are_hidden seq chunk = (
    ends_in_session
        (λ s session. do
          m ← session_meeting s session
          raise_if (not (status_eq m.status capturing)) not_accepting
          ensure_bucket
          put_stream (chunk_key m.id seq subdir suffix) chunk
          touch s session.id)
        (λ _. pure seq),
    ends_in_readonly_session (λ session. pure session.meeting_id)
        (λ meeting_id. do
          keys ← list_keys (chunk_prefix meeting_id subdir)
          sorted_seqs (chunk_prefix meeting_id subdir) suffix keys),
    ends_in_session
        (λ s session. do
          m ← session_meeting s session
          raise_if (not (status_eq m.status capturing)) not_capturing
          update_meeting s m.id (set_status finishing)
          pure m.id)
        (λ meeting_id. do
          keys ← snapshot meeting_id
          status ← finish_commit meeting_id credential keys
          when (status_eq status pending) (delay (run_pipeline_task meeting_id))
          pure (meeting_id, status)),
  )
