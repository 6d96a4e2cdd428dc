-- ===== src/Pipeline/Extract/Grounded.antt =====
-- What the extraction stores cites Segments of the Meeting, and is never a confirmed fact.
use meeting_mgr.Base.{
  ℕ, ◌≡◌, refl, sym, ap, ◌∙◌, subst, ◌⊎◌, inl, inr, Bool, true, false, not, ◌&&◌, Option, none,
  some, List, [], ◌∷◌, ◌++◌, map, ◌==◌, Bool-cases, filter, any, is_empty, All, append_assoc,
  append_nil, All-append,
}
use meeting_mgr.Base.Text.{Text}
use meeting_mgr.Base.Decimal.{ℤ, pos, negsuc}
use meeting_mgr.Models.{Artifact, inferred, key_topic}
use meeting_mgr.Db.State.{Db, World, Result, data_error, inference_error, ok, err}
use meeting_mgr.Db.Action.{Action, ◌>>=◌, ◌>>◌, raise_if, or_raise}
use meeting_mgr.Db.Session.{settle, get_session, segments, untenanted}
use meeting_mgr.Db.Laws.{after}
use meeting_mgr.Pipeline.Transcript.{transcript, cited_line, join_lines, render_cited_transcript}
use meeting_mgr.Pipeline.Extract.{
  TopicOut, Chat, ask, valid_segment_ids, cited, new_artifact, add_artifact, put_key_topics,
  unless_uncited, title_too_long, store_topics, extract_key_topics,
}

abbrev is_valid : List ℕ → ℕ → Bool
is_valid valid n = any (λ i. n == i) valid

cited_valid : (cs : List ℤ) (valid : List ℕ) → All (λ n. is_valid valid n ≡ true) (cited cs valid)
unfolding cited
cited_valid [] valid = tt
cited_valid (negsuc n ∷ cs) valid = cited_valid cs valid
cited_valid (pos n ∷ cs) valid = elim (Bool-cases (is_valid valid n)) [
  | inl e ↦ rw e (e, cited_valid cs valid)
  | inr e ↦ rw e (cited_valid cs valid)
]

-- A row of the Meeting that cites one Segment at least, and Segments of the list alone.
pub record IsGrounded (mid : ℕ) (valid : List ℕ) (a : Artifact) : Type 0 where
  pub of_meeting : a.meeting_id ≡ mid
  pub cites : is_empty a.citations ≡ false
  pub valid_only : All (λ n. any (λ i. n == i) valid ≡ true) a.citations
  pub proposed : a.provenance ≡ inferred

module _ (mid : ℕ) (valid : List ℕ) where
  -- New rows of one table, at the end, all grounded.
  abbrev pub Extends : List Artifact → List Artifact → Type 0
  Extends rows rows' =
      (new : List Artifact) × (rows' ≡ rows ++ new) × All (IsGrounded mid valid) new

  Extends-then : (a b c : List Artifact) → Extends a b → Extends b c → Extends a c
  Extends-then a b c (new, e, g) (more, f, h) = (
    new ++ more,
    f ∙ (ap (λ l. l ++ more) e ∙ append_assoc a new more),
    All-append (IsGrounded mid valid) new more g h,
  )

  Extends-none : (a : List Artifact) → Extends a a
  Extends-none a = ([], sym (append_nil a), tt)

  -- A topic with a citation that holds and a title that does not fit.
  abbrev pub is_refused : TopicOut → Bool
  is_refused t = not (is_empty (cited t.citations valid)) && title_too_long t.title

  abbrev add_topic : List ℕ → Text → Action (Unit {0})
  add_topic cs title = unless_uncited cs (
      raise_if (title_too_long title) data_error
      >> add_artifact put_key_topics (λ db. db.key_topics) mid cs (key_topic title))

  -- One proposal that is not refused: a row, or nothing if no citation is left.
  one_topic :
      (cs : List ℕ) (title : Text) (w : World)
      → All (λ n. is_valid valid n ≡ true) cs
      → (not (is_empty cs) && title_too_long title) ≡ false
      → (w' : World) × (add_topic cs title w ≡ (ok tt, w'))
        × Extends w.db.key_topics w'.db.key_topics
  unfolding add_artifact
  one_topic [] title w h fits = (w, refl, Extends-none w.db.key_topics)
  one_topic (c ∷ cs) title w h fits = (
    (add_artifact put_key_topics (λ db. db.key_topics) mid (c ∷ cs) (key_topic title) w).1,
    rw fits refl,
    (
      new_artifact w.next_id mid (c ∷ cs) (key_topic title) ∷ [],
      refl,
      (record { of_meeting = refl; cites = refl; valid_only = h; proposed = refl }, tt),
    ),
  )

  refused_topic :
      (cs : List ℕ) (title : Text) (w : World)
      → (not (is_empty cs) && title_too_long title) ≡ true
      → add_topic cs title w ≡ (err data_error, w)
  refused_topic [] title w h = cc h
  refused_topic (c ∷ cs) title w h = rw h refl

  -- What becomes of all proposals: rows, or a DataError if one is refused.
  abbrev Stored : List TopicOut → World → Result (Unit {0}) × World → Type 0
  Stored ts w r =
      ((any is_refused ts ≡ false) × (r.0 ≡ ok tt) × Extends w.db.key_topics r.1.db.key_topics)
      ⊎ ((any is_refused ts ≡ true) × (r.0 ≡ err data_error))

  topics-Stored : (ts : List TopicOut) (w : World) → Stored ts w (store_topics mid valid ts w)
  unfolding store_topics
  topics-Stored [] w = inl (refl, refl, Extends-none w.db.key_topics)
  topics-Stored (t ∷ ts) w =
      let k : Result (Unit {0}) × World → Result (Unit {0}) × World =
        λ r. after r (λ _. store_topics mid valid ts) in
      let cs = cited t.citations valid in
      elim (Bool-cases (is_refused t)) [
        | inl e ↦
            subst (λ r. Stored (t ∷ ts) w (k r)) (sym (refused_topic cs t.title w e))
              (inr (rw e refl, refl))
        | inr e ↦
            let (v, run, ext) = one_topic cs t.title w (cited_valid t.citations valid) e in
            subst (λ r. Stored (t ∷ ts) w (k r)) (sym run)
              (elim (topics-Stored ts v) [
                | inl (f, returned, ext') ↦
                    inl (rw e f, returned, Extends-then w.db.key_topics v.db.key_topics _ ext ext')
                | inr (f, raised) ↦ inr (rw e f, raised)
              ])
      ]

-- The ids of the Meeting's Segments.
abbrev pub segment_ids : ℕ → Db → List ℕ
segment_ids mid db = map (λ g. g.id) (filter (λ g. g.meeting_id == mid) (segments untenanted db))

-- The prompt of the extraction.
abbrev pub prompt_of : ℕ → Db → Text
prompt_of mid db = join_lines (map cited_line (transcript untenanted mid db))

-- The end of the extraction: the new rows, or a DataError and no change of a row.
abbrev pub Extracted : ℕ → List ℕ → List TopicOut → World → Result (Unit {0}) × World → Type 0
Extracted mid valid ts w r =
    ((any (is_refused mid valid) ts ≡ false)
      × (r.0 ≡ ok tt)
      × Extends mid valid w.db.key_topics r.1.db.key_topics)
    ⊎ ((any (is_refused mid valid) ts ≡ true) × (r.0 ≡ err data_error) × (r.1.db ≡ w.db))

settled :
    (mid : ℕ) (valid : List ℕ) (ts : List TopicOut) (w : World) (r : Result (Unit {0}) × World)
    → Stored mid valid ts w r
    → Extracted mid valid ts w (settle w.db r)
settled mid valid ts w (ok u, v) (inl h) = inl h
settled mid valid ts w (ok u, v) (inr (_, h)) = cc
settled mid valid ts w (err e, v) (inl (_, h, _)) = cc
settled mid valid ts w (err e, v) (inr (f, h)) = inr (f, h, refl)

-- For the topics that the model proposes: if none of those with a citation that holds has a title
-- over 300 characters, the extraction returns, each row that it adds is of the Meeting, cites at
-- least one Segment and only Segments of the Meeting, and is "inferred", and the rows of the table
-- that were there stay; else it raises the database's error and no row has changed. Without an
-- answer it raises and changes nothing.
pub key_topics_are_grounded :
    (chat : Chat (List TopicOut)) (mid : ℕ) (w : World)
    → ((out : List TopicOut)
        → chat (prompt_of mid w.db) ≡ some out
        → Extracted mid (segment_ids mid w.db) out w (extract_key_topics chat mid w))
      × (chat (prompt_of mid w.db) ≡ none
          → extract_key_topics chat mid w ≡ (err inference_error, w))
unfolding extract_key_topics ask render_cited_transcript valid_segment_ids
key_topics_are_grounded chat mid w = (
  λ out h.
      let valid = segment_ids mid w.db in
      subst (Extracted mid valid out w) (sym (ap (λ answer. stored answer) h))
        (settled mid valid out w (store_topics mid valid out w) (topics-Stored mid valid out w)),
  λ h. ap (λ answer. stored answer) h,
)
  where
    stored : Option (List TopicOut) → Result (Unit {0}) × World
    stored answer =
        (do
          out ← or_raise answer inference_error
          valid ← valid_segment_ids mid
          get_session λ s. store_topics mid valid out)
          w
