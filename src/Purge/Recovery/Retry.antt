-- ===== src/Purge/Recovery/Retry.antt =====
-- Runs of a purge one after another, from the state that the failed ones leave.
use meeting_mgr.Base.{
  ◌≡◌, refl, sym, ap, ◌∙◌, subst, ◌⊎◌, inl, inr, false, List, [], ◌∷◌, ◌++◌, arith,
}
use meeting_mgr.Base.Text.{Text}
use meeting_mgr.Models.{Recording}
use meeting_mgr.Db.State.{World, Exc, Result, ok, err}
use meeting_mgr.Db.Action.{pure, ◌>>=◌, ◌>>◌}
use meeting_mgr.Db.Laws.{after, after_call}
use meeting_mgr.Storage.{Objects, lookup, delete_object}
use meeting_mgr.Purge.{
  delete_all, RawKey, raw_kind, purge_raw, purge_normalized, nothing, manifest, object,
}
use meeting_mgr.Purge.Objects.{
  has_key, Gone, Shrunk, Gone-Shrunk, delete_object_cases, Removes, Removes-map, delete_all-Removes,
}
use meeting_mgr.Purge.Recovery.{
  listed, raw_named, normalized_named, IsProper, Intact, manifest_chunk_keys_cases, rest_of,
  purge_raw-Removes, purge_normalized-Removes,
}

-- A call that does not touch the manifest, or fails, leaves it readable.
kept :
    (mk : Text) (ks : List Text) {o o' : Objects}
    → has_key mk ks ≡ false
    → Shrunk ks o o'
    → lookup mk o' ≡ lookup mk o
kept mk ks h s = elim (s.at mk) [ inl e ↦ e | inr (m, e) ↦ cc ]

last_err :
    (mk : Text) (out : List Text) (u : World) {e : Exc} {v' : World}
    → (delete_object mk >> pure out) u ≡ (err e, v')
    → v'.objects ≡ u.objects
last_err mk out u h = elim (delete_object_cases mk u) [
  | inl f ↦ ground (arith, f)
  | inr f ↦ ground (arith, f)
]

rest_err :
    (mk : Text) (chunks : List Text) (v : World) (r : Result (Unit {0}) × World) {e : Exc}
    {v' : World}
    → has_key mk chunks ≡ false
    → Removes chunks v r
    → after r (λ _. delete_object mk >> pure (chunks ++ mk ∷ [])) ≡ (err e, v')
    → lookup mk v'.objects ≡ lookup mk v.objects
rest_err mk chunks v (err x, u) proper p h =
    cc (kept mk chunks proper p.shrinks, ap (λ (r : Result (List Text) × World). r.1.objects) h)
rest_err mk chunks v (ok a, u) proper p h =
    cc (kept mk chunks proper p.shrinks, last_err mk (chunks ++ mk ∷ []) u h)

objects_of :
    {x e : Exc} {v w : World}
    → ◌≡◌ {A = Result (List Text) × World} (err x, v) (err e, w)
    → v.objects ≡ w.objects
objects_of h = ap (λ (r : Result (List Text) × World). r.1.objects) h

raw_err :
    (raw : RawKey) (w : World) {e : Exc} {w' : World}
    → IsProper w.objects raw
    → purge_raw raw w ≡ (err e, w')
    → Intact raw w.objects w'.objects
unfolding purge_raw
raw_err nothing w proper h = tt
raw_err (object k) w proper h = tt
raw_err (manifest mk) w {e} {w'} proper h =
    let keys = listed (lookup mk w.objects) in
    elim (manifest_chunk_keys_cases mk w) [
      | inl (x, run) ↦
          ap (lookup mk) (sym (objects_of (subst (λ r. after r (rest_of mk) ≡ (err e, w')) run h)))
      | inr run ↦
          rest_err mk keys (after_call w) (delete_all keys (after_call w)) proper
            (delete_all-Removes keys (after_call w))
            (subst (λ r. after r (rest_of mk) ≡ (err e, w')) run h)
    ]

-- A failed run left the manifest as it was, or got past the raw objects.
pub err_cases :
    (rec : Recording) (w : World) (r : Result (List Text) × World) {e : Exc} {w' : World}
    → purge_raw (raw_kind rec.raw_key) w ≡ r
    → IsProper w.objects (raw_kind rec.raw_key)
    → after r (λ keys. purge_normalized rec.normalized_key >>= λ more. pure (keys ++ more))
      ≡ (err e, w')
    → Intact (raw_kind rec.raw_key) w.objects w'.objects
      ⊎ Gone (raw_named w.objects (raw_kind rec.raw_key)) w'.objects
err_cases rec w (err x, u) run proper h = inl (raw_err (raw_kind rec.raw_key) w proper (run ∙ h))
err_cases rec w (ok keys, u) run proper h =
    let first = rw run at (purge_raw-Removes (raw_kind rec.raw_key) w) in
    let second =
      Removes-map (normalized_named rec.normalized_key) u (λ more. keys ++ more)
        (purge_normalized rec.normalized_key) (purge_normalized-Removes rec.normalized_key u) in
    inr (Gone-Shrunk (rw h at second.shrinks) (first.gone keys refl))
