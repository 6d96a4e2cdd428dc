-- ===== src/Purge/Recovery/Partial.antt =====
-- The state that failed purges of a Recording leave, and what a later purge makes of it.
use meeting_mgr.Base.{
  ◌≡◌, refl, ap, ◌∙◌, subst, ◌⊎◌, inl, inr, true, none, some, List, [], ◌∷◌, ◌++◌, arith,
  Bool-cases, any-append,
}
use meeting_mgr.Base.Text.{Text, text_eq, text_eq_refl}
use meeting_mgr.Models.{Recording}
use meeting_mgr.Db.State.{World, Exc, Result, ok, err}
use meeting_mgr.Storage.{Objects, lookup}
use meeting_mgr.Purge.{RawKey, raw_kind, purge_raw, purge_recording, nothing, manifest, object}
use meeting_mgr.Purge.Objects.{
  has_key, Gone, Shrunk, Sub, Gone-Shrunk, Shrunk-refl, Shrunk-trans, Gone-append, Sub-append_left,
  Sub-append_right,
}
use meeting_mgr.Purge.Recovery.{
  listed, raw_named, normalized_named, named, IsProper, Intact, purge_recording-Removes,
}
use meeting_mgr.Purge.Recovery.Retry.{err_cases}

-- What failed runs on a Recording leave of its objects.
pub record IsPartial (rec : Recording) (o o' : Objects) : Type 0 where
  pub shrinks : Shrunk (named o rec) o o'
  pub raw : Intact (raw_kind rec.raw_key) o o' ⊎ Gone (raw_named o (raw_kind rec.raw_key)) o'

pub IsPartial-refl : (rec : Recording) (o : Objects) → IsPartial rec o o
IsPartial-refl rec o = record {
  shrinks = Shrunk-refl _ _;
  raw = inl (intact (raw_kind rec.raw_key));
}
  where
    intact : (raw : RawKey) → Intact raw o o
    intact nothing = tt
    intact (manifest mk) = refl
    intact (object k) = tt

Gone-Sub : {ks ls : List Text} {o : Objects} → Gone ks o → Sub ls ks → Gone ls o
Gone-Sub g sub = record { at = λ j h. g.at j (sub j h) }

raw_of_Intact :
    (raw : RawKey) (o o' : Objects) → Intact raw o o' → raw_named o' raw ≡ raw_named o raw
raw_of_Intact nothing o o' h = refl
raw_of_Intact (manifest mk) o o' h = rw h
raw_of_Intact (object k) o o' h = refl

has_last : (mk : Text) (ks : List Text) → has_key mk (ks ++ mk ∷ []) ≡ true
has_last mk ks =
    ground (arith, any-append (λ (k : Text). text_eq k mk) ks (mk ∷ []), text_eq_refl mk)

manifest-Gone :
    (mk : Text) (o o' : Objects) → Gone (raw_named o (manifest mk)) o' → lookup mk o' ≡ none
manifest-Gone mk o o' g = g.at mk (has_last mk (listed (lookup mk o)))

raw_of_Gone :
    (raw : RawKey) (o o' : Objects)
    → Gone (raw_named o raw) o'
    → Sub (raw_named o' raw) (raw_named o raw)
raw_of_Gone nothing o o' g j h = h
raw_of_Gone (object k) o o' g j h = h
raw_of_Gone (manifest mk) o o' g j h =
    Sub-append_right (listed (lookup mk o)) (mk ∷ []) j (rw (manifest-Gone mk o o' g) at h)

raw_Sub :
    (raw : RawKey) (o o' : Objects)
    → Intact raw o o' ⊎ Gone (raw_named o raw) o'
    → Sub (raw_named o' raw) (raw_named o raw)
raw_Sub raw o o' (inl i) j h = rw (raw_of_Intact raw o o' i) at h
raw_Sub raw o o' (inr g) j h = raw_of_Gone raw o o' g j h

IsProper-of :
    (raw : RawKey) (o o' : Objects)
    → IsProper o raw
    → Intact raw o o' ⊎ Gone (raw_named o raw) o'
    → IsProper o' raw
IsProper-of nothing o o' p h = tt
IsProper-of (object k) o o' p h = tt
IsProper-of (manifest mk) o o' p (inl i) = rw i p
IsProper-of (manifest mk) o o' p (inr g) = rw (manifest-Gone mk o o' g) refl

Sub-append_both : (ks ls ms : List Text) → Sub ks ls → Sub (ks ++ ms) (ls ++ ms)
Sub-append_both ks ls ms sub j h = elim (Bool-cases (has_key j ks)) [
  | inl e ↦ Sub-append_left ls ms j (sub j e)
  | inr e ↦ Sub-append_right ls ms j (ground (arith, any-append (λ (k : Text). text_eq k j) ks ms))
]

Intact-trans :
    (raw : RawKey) (o o' o'' : Objects) → Intact raw o o' → Intact raw o' o'' → Intact raw o o''
Intact-trans nothing o o' o'' h k = tt
Intact-trans (manifest mk) o o' o'' h k = k ∙ h
Intact-trans (object x) o o' o'' h k = tt

module _ (rec : Recording) (o : Objects) (w : World) (part : IsPartial rec o w.objects) where
  named-Sub : Sub (named w.objects rec) (named o rec)
  named-Sub =
      Sub-append_both (raw_named w.objects (raw_kind rec.raw_key))
        (raw_named o (raw_kind rec.raw_key)) (normalized_named rec.normalized_key)
        (raw_Sub (raw_kind rec.raw_key) o w.objects part.raw)

  -- A run shrinks the objects further.
  run_shrinks : Shrunk (named o rec) o (purge_recording (some rec) w).1.objects
  run_shrinks = Shrunk-trans part.shrinks (purge_recording-Removes rec w).shrinks named-Sub

  raw_after :
      (o' : Objects)
      → Shrunk (named w.objects rec) w.objects o'
      → Intact (raw_kind rec.raw_key) w.objects o'
        ⊎ Gone (raw_named w.objects (raw_kind rec.raw_key)) o'
      → Intact (raw_kind rec.raw_key) o w.objects
        ⊎ Gone (raw_named o (raw_kind rec.raw_key)) w.objects
      → Intact (raw_kind rec.raw_key) o o' ⊎ Gone (raw_named o (raw_kind rec.raw_key)) o'
  raw_after o' s now (inr g) = inr (Gone-Shrunk s g)
  raw_after o' s (inl i) (inl h) = inl (Intact-trans (raw_kind rec.raw_key) o w.objects o' h i)
  raw_after o' s (inr g) (inl h) =
      inr (subst (λ ks. Gone ks o') (raw_of_Intact (raw_kind rec.raw_key) o w.objects h) g)

  raw-Gone :
      (o' : Objects)
      → Shrunk (named w.objects rec) w.objects o'
      → Gone (raw_named w.objects (raw_kind rec.raw_key)) o'
      → Intact (raw_kind rec.raw_key) o w.objects
        ⊎ Gone (raw_named o (raw_kind rec.raw_key)) w.objects
      → Gone (raw_named o (raw_kind rec.raw_key)) o'
  raw-Gone o' s g (inl h) =
      subst (λ ks. Gone ks o') (raw_of_Intact (raw_kind rec.raw_key) o w.objects h) g
  raw-Gone o' s g (inr h) = Gone-Shrunk s h

  -- A failed run keeps a partial state partial.
  pub fails-IsPartial :
      {e : Exc} {w' : World}
      → IsProper o (raw_kind rec.raw_key)
      → purge_recording (some rec) w ≡ (err e, w')
      → IsPartial rec o w'.objects
  unfolding purge_recording
  fails-IsPartial {e} {w'} proper h =
      let run = purge_recording-Removes rec w in
      let after_run = ap (λ (r : Result (List Text) × World). r.1.objects) h in
      let shrinks = subst (Shrunk (named w.objects rec) w.objects) after_run run.shrinks in
      record {
        shrinks = subst (Shrunk (named o rec) o) after_run run_shrinks;
        raw =
            raw_after w'.objects shrinks
              (err_cases rec w (purge_raw (raw_kind rec.raw_key) w) refl
                (IsProper-of (raw_kind rec.raw_key) o w.objects proper part.raw) h)
              part.raw;
      }

  -- A run that returns has removed all that was there before the first.
  pub returns-Gone :
      {keys : List Text} {w' : World}
      → purge_recording (some rec) w ≡ (ok keys, w')
      → Gone (named o rec) w'.objects
  returns-Gone {keys} {w'} h =
      let run = purge_recording-Removes rec w in
      let after_run = ap (λ (r : Result (List Text) × World). r.1.objects) h in
      let shrinks = subst (Shrunk (named w.objects rec) w.objects) after_run run.shrinks in
      let gone =
        subst (Gone (named w.objects rec)) after_run
          (run.gone keys (ap (λ (r : Result (List Text) × World). r.0) h)) in
      Gone-append (raw_named o (raw_kind rec.raw_key)) (normalized_named rec.normalized_key)
        (raw-Gone w'.objects shrinks
          (Gone-Sub gone (Sub-append_left _ (normalized_named rec.normalized_key))) part.raw)
        (Gone-Sub gone (Sub-append_right (raw_named w.objects (raw_kind rec.raw_key)) _))
