-- ===== src/Purge/Recovery/Success.antt =====
-- A purge that meets no failure returns.
use meeting_mgr.Base.{ℕ, ◌≡◌, refl, ap, ◌∙◌, ◌≢◌, Option, none, some, List, [], ◌∷◌, ◌++◌, arith}
use meeting_mgr.Base.Text.{Text}
use meeting_mgr.Models.{Recording}
use meeting_mgr.Db.State.{Db, Body, World, Result, blob, json, ok, err}
use meeting_mgr.Db.Action.{Action, pure, ◌>>=◌, ◌>>◌, one_or_none, service_call}
use meeting_mgr.Db.Session.{settle, tenant}
use meeting_mgr.Db.Laws.{after, calm}
use meeting_mgr.Storage.{Objects, without, lookup, get_object, delete_object}
use meeting_mgr.Retention.{Kind}
use meeting_mgr.Purge.{
  manifest_chunk_keys, delete_all, RawKey, raw_kind, purge_raw, purge_normalized, purge_recording,
  recordings_of, purge_audio_objects, purge_by_kind, nothing, manifest, object,
}
use meeting_mgr.Purge.Tail.{tail, tail_returns, purge_as_settle}
use meeting_mgr.Purge.Recovery.{rest_of}

-- An action that returns where nothing fails, and nothing fails after it either.
abbrev Succeeds : {A : Type 0} → Action A → World → Type 0
Succeeds {A} m w = (a : A) × (v : World) × (m (calm w) ≡ (ok a, calm v))

Succeeds-then :
    {A B : Type 0} (m : Action A) (f : A → Action B) (w : World)
    → Succeeds m w
    → ((a : A) (v : World) → Succeeds (f a) v)
    → Succeeds (m >>= f) w
Succeeds-then m f w (a, v, run) next =
    let (b, u, run') = next a v in (b, u, ap (λ r. after r f) run ∙ run')

delete-Succeeds : (k : Text) (w : World) → Succeeds (delete_object k) w
unfolding delete_object service_call
delete-Succeeds k w = (tt, record w { objects = without k w.objects }, refl)

delete_all-Succeeds : (ks : List Text) (w : World) → Succeeds (delete_all ks) w
unfolding delete_all
delete_all-Succeeds [] w = (tt, w, refl)
delete_all-Succeeds (k ∷ ks) w =
    Succeeds-then (delete_object k) (λ _. delete_all ks) w (delete-Succeeds k w)
      (λ _ v. delete_all-Succeeds ks v)

-- A manifest that is there is a list of keys.
abbrev pub IsReadable : Objects → RawKey → Type 0
IsReadable o (manifest mk) = (bytes : List ℕ) → lookup mk o ≢ some (blob bytes)
IsReadable o _ = Unit

chunk_keys_succeed :
    (mk : Text) (w : World) (found : Option Body)
    → lookup mk w.objects ≡ found
    → ((bytes : List ℕ) → found ≢ some (blob bytes))
    → Succeeds (manifest_chunk_keys mk) w
unfolding manifest_chunk_keys get_object service_call
chunk_keys_succeed mk w none e h = ([], w, ground (arith, e))
chunk_keys_succeed mk w (some (json keys)) e h = (keys, w, ground (arith, e))
chunk_keys_succeed mk w (some (blob bytes)) e h = absurd (h bytes refl)

raw-Succeeds : (raw : RawKey) (w : World) → IsReadable w.objects raw → Succeeds (purge_raw raw) w
unfolding purge_raw
raw-Succeeds nothing w h = ([], w, refl)
raw-Succeeds (object k) w h =
    Succeeds-then (delete_object k) (λ _. pure (k ∷ [])) w (delete-Succeeds k w)
      (λ _ v. (k ∷ [], v, refl))
raw-Succeeds (manifest mk) w h =
    Succeeds-then (manifest_chunk_keys mk) (rest_of mk) w
      (chunk_keys_succeed mk w (lookup mk w.objects) refl h)
      (λ chunks v.
        Succeeds-then (delete_all chunks) (λ _. delete_object mk >> pure (chunks ++ mk ∷ [])) v
          (delete_all-Succeeds chunks v)
          (λ _ u.
            Succeeds-then (delete_object mk) (λ _. pure (chunks ++ mk ∷ [])) u
              (delete-Succeeds mk u) (λ _ x. (chunks ++ mk ∷ [], x, refl))))

normalized-Succeeds : (key : Option Text) (w : World) → Succeeds (purge_normalized key) w
unfolding purge_normalized
normalized-Succeeds none w = ([], w, refl)
normalized-Succeeds (some []) w = ([], w, refl)
normalized-Succeeds (some (c ∷ k)) w =
    Succeeds-then (delete_object (c ∷ k)) (λ _. pure ((c ∷ k) ∷ [])) w (delete-Succeeds (c ∷ k) w)
      (λ _ v. ((c ∷ k) ∷ [], v, refl))

recording-Succeeds :
    (rec : Recording) (w : World)
    → IsReadable w.objects (raw_kind rec.raw_key)
    → Succeeds (purge_recording (some rec)) w
unfolding purge_recording
recording-Succeeds rec w h =
    Succeeds-then (purge_raw (raw_kind rec.raw_key))
      (λ keys. purge_normalized rec.normalized_key >>= λ more. pure (keys ++ more)) w
      (raw-Succeeds (raw_kind rec.raw_key) w h)
      (λ keys v.
        Succeeds-then (purge_normalized rec.normalized_key) (λ more. pure (keys ++ more)) v
          (normalized-Succeeds rec.normalized_key v) (λ more u. (keys ++ more, u, refl)))

tail_settles :
    (org_id : ℕ) (kind : Kind) (mid : ℕ) (db : Db) (keys : List Text)
    (r : Result (Unit {0}) × World)
    → r.0 ≡ ok tt
    → (settle db r).0 ≡ ok tt
tail_settles org_id kind mid db keys (ok tt, v) h = refl
tail_settles org_id kind mid db keys (err e, v) h = h

-- A purge of a Meeting with one Recording, whose manifest, if it is there, is a list of keys,
-- returns if no storage call fails.
pub calm_purge_returns :
    (org_id : ℕ) (kind : Kind) (mid : ℕ) (rec : Recording) (w : World)
    → recordings_of (tenant org_id) mid w.db ≡ rec ∷ []
    → IsReadable w.objects (raw_kind rec.raw_key)
    → (purge_by_kind org_id kind mid (calm w)).0 ≡ ok tt
unfolding purge_audio_objects
calm_purge_returns org_id kind mid rec w single h =
    let (keys, v, run) = recording-Succeeds rec w h in
    ap (λ (r : Result (Unit {0}) × World). r.0)
      (purge_as_settle org_id mid kind (calm w)
        ∙ (ap
              (λ rows.
                settle w.db
                  (after ((one_or_none rows >>= purge_recording) (calm w)) (tail org_id kind mid)))
              single
            ∙ ap (λ r. settle w.db (after r (tail org_id kind mid))) run))
    ∙ tail_settles org_id kind mid w.db keys (tail org_id kind mid keys (calm v))
        (tail_returns org_id kind mid keys (calm v)).0
