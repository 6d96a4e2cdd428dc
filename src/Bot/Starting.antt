-- ===== src/Bot/Starting.antt =====
-- Starting a session twice.
use meeting_mgr.Base.{
  ℕ, ◌≡◌, refl, sym, ap, ◌∙◌, subst, inl, inr, ◌&&◌, Option, none, some, List, [], ◌∷◌, ◌++◌, arith,
  ◌==◌, ==_refl, Bool-cases, filter, find, find-append, filter-append,
}
use meeting_mgr.Base.Text.{text_eq, text_eq_refl}
use meeting_mgr.Models.{Meeting, BotCredential, BotSession}
use meeting_mgr.Db.State.{World, Result, attribute_error, ok}
use meeting_mgr.Db.Action.{pure, ◌>>=◌, one_or_none, or_raise, catch}
use meeting_mgr.Db.Session.{settle, meetings}
use meeting_mgr.Bot.{
  StartSessionIn, Response, respond, on_integrity_error, replay_winner, start_found, start_session,
}
use meeting_mgr.Bot.Creating.{
  bot, found_rows, IsStarted, start_as_rows, replay, new_session, session_meeting_of, begun,
  create_outcome,
}

find_id : (i : ℕ) (ms : List Meeting) (m : Meeting) → find (λ m. m.id == i) ms ≡ some m → m.id ≡ i
find_id i [] m h = cc h
find_id i (n ∷ ms) m h = elim (Bool-cases (n.id == i)) [
  | inl e ↦ ground (arith, e, h)
  | inr e ↦ find_id i ms m (ground (arith, e, h))
]

module _ (body : StartSessionIn) (credential : BotCredential) (w : World) where
  -- The session of a reply is there, with its Meeting.
  abbrev pub Answers : Response → World → Type 0
  Answers r v =
      (b : BotSession) × (m : Meeting) × IsStarted body credential v b m
      × (r.session_id ≡ b.id)
      × (r.meeting_id ≡ b.meeting_id)

  rows_of_begun :
      found_rows body credential w.db ≡ []
      → found_rows body credential (begun body credential w).db ≡ new_session body credential w ∷ []
  rows_of_begun none_yet =
      let vis = λ (b : BotSession). b.organization_id == credential.organization_id in
      let mine = λ (b : BotSession).
        b.bot_credential_id == credential.id
        && text_eq b.platform_meeting_id body.platform_meeting_id in
      let b = new_session body credential w in
      ap (filter mine) (filter-append vis w.db.bot_sessions (b ∷ []))
      ∙ (filter-append mine (filter vis w.db.bot_sessions) (filter vis (b ∷ []))
          ∙ rw
              (
                none_yet,
                ==_refl credential.organization_id,
                ==_refl credential.id,
                text_eq_refl body.platform_meeting_id,
              )
              refl)

  begun-Answers :
      found_rows body credential w.db ≡ []
      → Answers
          (respond (new_session body credential w) (session_meeting_of body credential w) 201)
          (begun body credential w)
  begun-Answers none_yet =
      let o = credential.organization_id in
      let b = new_session body credential w in
      let n = session_meeting_of body credential w in
      let (m, found) =
        find-append (λ m. m.id == w.next_id) (filter (λ m. m.organization_id == o) w.db.meetings) n
          (==_refl w.next_id) in
      (
        b,
        m,
        (rows_of_begun none_yet, ap (find (λ m. m.id == w.next_id)) seen_meetings ∙ found),
        refl,
        refl,
      )
    where
      seen_meetings :
          filter
            (λ m. m.organization_id == credential.organization_id)
            (w.db.meetings ++ session_meeting_of body credential w ∷ [])
          ≡ filter (λ m. m.organization_id == credential.organization_id) w.db.meetings
            ++ session_meeting_of body credential w ∷ []
      seen_meetings =
          filter-append (λ m. m.organization_id == credential.organization_id) w.db.meetings
            (session_meeting_of body credential w ∷ [])
          ∙ rw (==_refl credential.organization_id) refl

  answer_found :
      (x : BotSession) (found : Option Meeting) (r : Response) (w' : World)
      → found_rows body credential w.db ≡ x ∷ []
      → find (λ m. m.id == x.meeting_id) (meetings (bot credential) w.db) ≡ found
      → settle w.db ((or_raise found attribute_error >>= λ m. pure (respond x m 200)) w)
        ≡ (ok r, w')
      → Answers r w'
  answer_found x none r w' same row h = cc h
  answer_found x (some m) r w' same row h =
      let to_w : w ≡ w' = ap (λ (q : Result Response × World). q.1) h in
      let to_r : respond x m 200 ≡ r = cc h in
      subst (Answers r) to_w (
        subst (λ r. Answers r w) to_r
          (x, m, (same, row), refl, find_id x.meeting_id (meetings (bot credential) w.db) m row))

  from_rows :
      (rows : List BotSession) (r : Response) (w' : World)
      → found_rows body credential w.db ≡ rows
      → settle w.db ((one_or_none rows >>= start_found (bot credential) body credential) w)
        ≡ (ok r, w')
      → Answers r w'
  unfolding replay_winner
  from_rows [] r w' same h =
      let caught = λ (q : Result Response × World).
        settle w.db (
          catch (λ _. q) (on_integrity_error (replay_winner (bot credential) body credential)) w) in
      elim (create_outcome body credential w) [
        | inl run ↦
            let made = sym (ap caught run) ∙ h in
            let to_w : begun body credential w ≡ w' =
              ap (λ (q : Result Response × World). q.1) made in
            let to_r : respond (new_session body credential w)
                  (session_meeting_of body credential w) 201
                ≡ r =
              cc made in
            subst (Answers r) to_w
              (subst (λ r. Answers r (begun body credential w)) to_r (begun-Answers same))
        | inr run ↦ cc (sym (ap caught run) ∙ h, same)
      ]
  from_rows (x ∷ []) r w' same h =
      answer_found x (find (λ m. m.id == x.meeting_id) (meetings (bot credential) w.db)) r w' same
        refl h
  from_rows (x ∷ y ∷ rest) r w' same h = cc h

  -- A start of a bot session that returns can be sent again: the second reply is a 200 with the
  -- same session and the same Meeting, and nothing is written.
  pub start_is_idempotent :
      (r : Response) (w' : World)
      → start_session body credential w ≡ (ok r, w')
      → (again : Response) × (start_session body credential w' ≡ (ok again, w'))
        × (again.status_code ≡ 200)
        × (again.session_id ≡ r.session_id)
        × (again.meeting_id ≡ r.meeting_id)
  start_is_idempotent r w' h =
      let (b, m, known, session, meeting) =
        from_rows (found_rows body credential w.db) r w' refl
          (sym (start_as_rows body credential w) ∙ h) in
      (
        respond b m 200,
        replay body credential w' b m known,
        refl,
        sym session,
        find_id b.meeting_id (meetings (bot credential) w'.db) m known.1 ∙ sym meeting,
      )
