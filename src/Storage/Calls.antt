-- ===== src/Storage/Calls.antt =====
-- The outcome of an upload.
use meeting_mgr.Base.{
  ℕ, ◌≡◌, refl, sym, ap, ◌∙◌, subst, ◌⊎◌, inl, inr, some, List, ◌∷◌, arith, if◌then◌else◌,
  Bool-cases,
}
use meeting_mgr.Base.Text.{Text, text_eq_refl}
use meeting_mgr.Db.State.{World, Result, blob, client_error, ok, err}
use meeting_mgr.Db.Action.{next_fault, service_call}
use meeting_mgr.Db.Laws.{after_call, ok_eq, err_not_ok}
use meeting_mgr.Storage.{without, lookup, put_object, put_stream}
use meeting_mgr.Db.Frames.{Aside, IsAside}
use meeting_mgr.Db.Laws.{after_call, ok_eq, err_not_ok}

pub put_stream_outcome :
    (key : Text) (bytes : List ℕ) (w : World)
    → (put_stream key bytes w ≡ (err client_error, after_call w))
      ⊎ (put_stream key bytes w
          ≡ (ok tt, record (after_call w) { objects = (key, blob bytes) ∷ without key w.objects }))
unfolding put_stream put_object service_call
put_stream_outcome key bytes w = elim (Bool-cases (next_fault w.faults).0) [
  | inl e ↦ inl (ground arith)
  | inr e ↦ inr (ground arith)
]

pub IsAside-put_stream : (key : Text) (bytes : List ℕ) → IsAside (put_stream key bytes)
IsAside-put_stream key bytes w = elim (put_stream_outcome key bytes w) [
  | inl e ↦
      subst (λ (r : Result (Unit {0}) × World). Aside w r.1) (sym e)
        (record { db = refl; queue = refl; next_id = refl; now = refl })
  | inr e ↦
      subst (λ (r : Result (Unit {0}) × World). Aside w r.1) (sym e)
        (record { db = refl; queue = refl; next_id = refl; now = refl })
]

-- What an upload has left under its key.
pub put_stream_ok :
    (key : Text) (bytes : List ℕ) (w : World) {u : Unit {0}} {v : World}
    → put_stream key bytes w ≡ (ok u, v)
    → lookup key v.objects ≡ some (blob bytes)
unfolding lookup
put_stream_ok key bytes w h = elim (put_stream_outcome key bytes w) [
  | inl e ↦ absurd (err_not_ok e h)
  | inr e ↦
      ap (λ (z : World). lookup key z.objects) (sym (ok_eq e h).1)
      ∙ ap (λ b. if b then some (blob bytes) else lookup key (without key w.objects))
          (text_eq_refl key)
]
